-- ===== src/Validator/Conformant.antt =====
-- What the validator accepts is a conformant record.
use label_309_py.Prelude.{
  ℕ, ◌≡◌, refl, sym, ap, subst, ◌∙◌, ◌⊎◌, inl, inr, true, false, not, Option, some, List, [], ◌==◌,
  length, All, Bool-cases, Option-cases, Result, ok, err, ok-injective, codes, Integer, natural,
  negative, integer_eq,
}
use label_309_py.Bytes.{Bytes}
use label_309_py.ErrorCodes.{
  severity_of, schema_type_mismatch, schema_missing_required, schema_invalid_literal,
  schema_empty_record, supersedes_tx_invalid_length,
}
use label_309_py.Verdict.{Issues}
use label_309_py.Verdict.Meaning.{has_error}
use label_309_py.Verdict.Order.{sort_issues, has_error-sort_issues}
use label_309_py.Cbor.{
  Value, integer, bytes, dict, Entries, get, not_none, as_bytes, as_dict, as_integer,
}
use label_309_py.Validator.Issuing.{for_some}
use label_309_py.Validator.Registries.{Options, Raised}
use label_309_py.Validator.Shape.{
  schema_parse, parse_record, parse_version, parse_supersedes, parse_array, schema_parse_item,
  schema_parse_merkle_commit, schema_parse_sig_entry, collect_non_text_key_map_issues,
}
use label_309_py.Validator.Fields.{
  array_of, has_elements, check_content_commitment_presence, check_crit,
}
use label_309_py.Validator.Silence.{
  IsSilent, IsSilent-append, IsSilent-issue, IsSilent-issue_if, IsSilent-or_else, IsSilent-length,
  then_check-eq-ok,
}
use label_309_py.Validator.Signed.{IsSig, HasCrit, check_crit-HasCrit}
use label_309_py.Validator.Inversion.{as_bytes-eq, as_dict-eq, as_integer-eq}
use label_309_py.Validator.Accepted.{not-==→eq}
use label_309_py.Validator.Sound.{IsItem, IsCommit}
use label_309_py.Validator.{
  valid, check_record, emit, emit_result, validate_shaped, validate_decoded, validate,
}
use label_309_py.Validator.Enveloped.{HasEnvelope, check_items-HasEnvelope}
use label_309_py.Validator.Listed.{
  AllUnder, parse_array-shape, check_merkle-IsCommit, check_sigs-IsSig, check_items_under,
}

pub record IsConformant (decode_canonical_cbor : Bytes → Option Value)
    (encode_canonical_cbor : Value → Option Bytes) (opts : Options) (record_ : Entries)
    : Type 0 where
  pub version : get record_ (codes "v") ≡ some (integer (natural 1))
  pub commits :
      (has_elements (array_of record_ (codes "items")) ≡ true)
      ⊎ (has_elements (array_of record_ (codes "merkle")) ≡ true)
  pub items : AllUnder record_ (codes "items") IsItem
  pub merkle : AllUnder record_ (codes "merkle") IsCommit
  pub sigs : AllUnder record_ (codes "sigs") (IsSig decode_canonical_cbor encode_canonical_cbor)
  pub envelopes :
      (values : List Value)
      → array_of record_ (codes "items") ≡ some values
      → All
          (λ (v : Value).
            (d : Entries)
            → as_dict v ≡ some d
            → HasEnvelope decode_canonical_cbor encode_canonical_cbor opts d)
          values
  pub crit : HasCrit record_ opts.supported_critical_extensions
  pub supersedes :
      (v : Value)
      → not_none (get record_ (codes "supersedes")) ≡ some v
      → (b : Bytes) × (v ≡ bytes b) × (length b ≡ 32)

integer_eq-eq : (n : Integer) → not (integer_eq n (natural 1)) ≡ false → n ≡ natural 1
unfolding integer_eq
integer_eq-eq (natural m) h = ap natural (not-==→eq m 1 h)
integer_eq-eq (negative m) h = cc

parse_version-eq :
    (record_ : Entries)
    → IsSilent (parse_version record_)
    → get record_ (codes "v") ≡ some (integer (natural 1))
unfolding parse_version severity_of
parse_version-eq record_ h =
    let (v, there, rest) =
      IsSilent-or_else (get record_ (codes "v")) schema_missing_required _ _ refl h in
    let (n, is_n, one) = IsSilent-or_else (as_integer v) schema_invalid_literal _ _ refl rest in
    there
    ∙ ap some (as_integer-eq v n is_n)
    ∙ ap (λ (m : Integer). some (integer m)) (integer_eq-eq n (IsSilent-issue_if _ _ _ refl one))

parse_supersedes-eq :
    (record_ : Entries)
    → IsSilent (parse_supersedes record_)
    → (v : Value) → not_none (get record_ (codes "supersedes")) ≡ some v
    → (b : Bytes) × (v ≡ bytes b) × (length b ≡ 32)
unfolding parse_supersedes severity_of
parse_supersedes-eq record_ h v there =
    let (b, is_b, fits) =
      IsSilent-or_else (as_bytes v) schema_type_mismatch _ _ refl (rw there at h) in
    (
      b,
      as_bytes-eq v b is_b,
      not-==→eq _ _ (IsSilent-issue_if _ supersedes_tx_invalid_length _ refl fits),
    )

check_commits :
    (record_ : Entries)
    → IsSilent (check_content_commitment_presence record_)
    → (has_elements (array_of record_ (codes "items")) ≡ true)
      ⊎ (has_elements (array_of record_ (codes "merkle")) ≡ true)
unfolding check_content_commitment_presence severity_of
check_commits record_ h = elim (Bool-cases (has_elements (array_of record_ (codes "items")))) [
  | inl items ↦ inl items
  | inr no_items ↦ elim (Bool-cases (has_elements (array_of record_ (codes "merkle")))) [
    | inl merkle ↦ inr merkle
    | inr no_merkle ↦
        absurd (IsSilent-issue schema_empty_record [] refl (rw (no_items, no_merkle) at h))
  ]
]

module _ (decode_canonical_cbor : Bytes → Option Value)
    (encode_canonical_cbor : Value → Option Bytes) (opts : Options) where
  check_record-IsConformant :
      (record_ : Entries) (issues : Issues)
      → IsSilent (parse_record record_)
      → check_record decode_canonical_cbor encode_canonical_cbor opts record_ ≡ ok issues
      → IsSilent issues
      → IsConformant decode_canonical_cbor encode_canonical_cbor opts record_
  unfolding parse_record check_record
  check_record-IsConformant record_ issues shaped e silent =
      let (version, s₁) = IsSilent-append (parse_version record_) _ shaped in
      let (items_shape, s₂) =
        IsSilent-append (parse_array record_ (codes "items") schema_parse_item) _ s₁ in
      let (merkle_shape, s₃) =
        IsSilent-append (parse_array record_ (codes "merkle") schema_parse_merkle_commit) _ s₂ in
      let (supersedes, s₄) = IsSilent-append (parse_supersedes record_) _ s₃ in
      let (sigs_shape, _) =
        IsSilent-append (parse_array record_ (codes "sigs") schema_parse_sig_entry) _ s₄ in
      let (a, b, first, second, joined) = then_check-eq-ok _ _ issues e in
      let (silent_a, silent_b) = IsSilent-append a b (rw joined at silent) in
      let (c, d, items, others, joined') = then_check-eq-ok _ _ b second in
      let (silent_c, silent_d) = IsSilent-append c d (rw joined' at silent_b) in
      let (presence, rest) =
        IsSilent-append (check_content_commitment_presence record_) _
          (ap has_error (ok-injective _ first) ∙ silent_a) in
      let (crit, _) =
        IsSilent-append (check_crit record_ opts.supported_critical_extensions) _ rest in
      let (merkle, sigs) =
        IsSilent-append (for_some (array_of record_ (codes "merkle")) _) _
          (ap has_error (ok-injective _ others) ∙ silent_d) in
      record {
        version = parse_version-eq record_ version;
        commits = check_commits record_ presence;
        items =
            check_items_under decode_canonical_cbor encode_canonical_cbor opts record_ c items_shape
              items silent_c;
        envelopes = λ values there.
            check_items-HasEnvelope decode_canonical_cbor encode_canonical_cbor opts 0 values c
              (rw there at items) silent_c;
        merkle = λ values there.
            check_merkle-IsCommit 0 values
              (parse_array-shape record_ (codes "merkle") schema_parse_merkle_commit values there
                merkle_shape)
              (rw there at merkle);
        sigs = λ values there.
            check_sigs-IsSig decode_canonical_cbor encode_canonical_cbor opts values
              (parse_array-shape record_ (codes "sigs") schema_parse_sig_entry values there
                sigs_shape)
              (rw there at sigs);
        crit = check_crit-HasCrit record_ opts.supported_critical_extensions crit;
        supersedes = parse_supersedes-eq record_ supersedes;
      }

  module _ (utf8 : List ℕ → Bytes) where
    emit-valid :
        (record_ r : Entries) (issues infos warnings : Issues)
        → emit decode_canonical_cbor encode_canonical_cbor utf8 record_ issues
          ≡ valid r infos warnings
        → (record_ ≡ r) × IsSilent issues
    unfolding emit
    emit-valid record_ r issues infos warnings h =
        elim (Bool-cases (has_error (sort_issues utf8 issues))) [
          | inl fails ↦ absurd (let f = rw fails at h in cc)
          | inr silent ↦
              (let f = rw silent at h in cc, sym (has_error-sort_issues utf8 issues) ∙ silent)
        ]

    pub emit_result-valid :
        (record_ r : Entries) (checked : Result Raised Issues) (infos warnings : Issues)
        → emit_result decode_canonical_cbor encode_canonical_cbor utf8 record_ checked
          ≡ ok (valid r infos warnings)
        → (issues : Issues) × (checked ≡ ok issues) × (record_ ≡ r) × IsSilent issues
    emit_result-valid record_ r (err e) infos warnings h = cc
    emit_result-valid record_ r (ok issues) infos warnings h =
        let (same, silent) = emit-valid record_ r issues infos warnings (ok-injective _ h) in
        (issues, refl, same, silent)

    validate_shaped-IsConformant :
        (v : Value) (r : Entries) (infos warnings : Issues)
        → IsSilent (schema_parse v)
        → validate_shaped decode_canonical_cbor encode_canonical_cbor utf8 opts (as_dict v)
          ≡ ok (valid r infos warnings)
        → (v ≡ dict r) × IsConformant decode_canonical_cbor encode_canonical_cbor opts r
    unfolding schema_parse validate_shaped severity_of
    validate_shaped-IsConformant v r infos warnings shaped h =
        let (d, is_dict, fields) =
          IsSilent-or_else (as_dict v) schema_type_mismatch [] _ refl shaped in
        let (issues, checked, same, silent) =
          emit_result-valid d r _ infos warnings (rw is_dict at h) in
        (
          as_dict-eq v d is_dict ∙ ap dict same,
          subst (IsConformant decode_canonical_cbor encode_canonical_cbor opts) same
              (check_record-IsConformant d issues fields checked silent),
        )

    -- A record that validates, under any options, has version 1 and carries items or commitments; each
    -- item has digests, of 32 bytes and under registered algorithms, and any URIs are of the fetch
    -- set; each `enc` is a map whose encoding is within the bound, with an unsigned scheme and no
    -- unauthenticated cipher under `aead`, and in the strict reading with no unsupported identifier
    -- (nothing is said of its slots, its passphrase block or their MAC); each commitment a root of
    -- 32 bytes and 1 to 2^32 - 1 leaves; each signature entry a detached signature, and no private
    -- key under `cose_key`; each name under `crit` is an extension that is supported and present;
    -- `supersedes` has 32 bytes.
    pub validate-IsConformant :
        (cbor_bytes : Bytes) (r : Entries) (infos warnings : Issues)
        → validate decode_canonical_cbor encode_canonical_cbor utf8 opts cbor_bytes
          ≡ ok (valid r infos warnings)
        → (decode_canonical_cbor cbor_bytes ≡ some (dict r))
          × IsConformant decode_canonical_cbor encode_canonical_cbor opts r
    unfolding validate validate_decoded
    validate-IsConformant cbor_bytes r infos warnings h =
        elim (Option-cases (decode_canonical_cbor cbor_bytes)) [
          | inl fails ↦ absurd (let f = rw fails at h in cc)
          | inr (v, decodes) ↦
              elim (Bool-cases (not (length (collect_non_text_key_map_issues v) == 0))) [
                | inl keys ↦ absurd (let f = rw (decodes, keys) at h in cc)
                | inr no_keys ↦ elim (Bool-cases (not (length (schema_parse v) == 0))) [
                  | inl misshaped ↦ absurd (let f = rw (decodes, no_keys, misshaped) at h in cc)
                  | inr shaped ↦
                      let (is_dict, conformant) =
                        validate_shaped-IsConformant v r infos warnings
                          (IsSilent-length (schema_parse v) shaped)
                          (rw (decodes, no_keys, shaped) at h) in
                      (decodes ∙ ap some is_dict, conformant)
                ]
              ]
        ]

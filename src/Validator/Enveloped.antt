-- ===== src/Validator/Enveloped.antt =====
-- The envelopes of a record that the validator accepts, as far as they are checked in every reading.
use label_309_py.Prelude.{
  ℕ, suc, ◌≤◌, ◌≡◌, refl, sym, subst, ap, ◌∙◌, inl, inr, false, not, Option, none, some, List, [],
  ◌∷◌, ◌++◌, ltb, ltb→le, All, length, Bool-cases, Result, ok, ok-injective, codes, natural,
}
use label_309_py.Bytes.{Bytes}
use label_309_py.ErrorCodes.{
  ErrorCode, severity_of, schema_type_mismatch, schema_missing_required, enc_envelope_too_large,
  enc_requires_content_hash, unauthenticated_cipher_forbidden,
}
use label_309_py.Verdict.{Segment, key, index, Issues, same_severity}
use label_309_py.Verdict.Meaning.{has_error}
use label_309_py.Cbor.{
  Text, Value, integer, dict, Entries, get, as_text, as_dict, as_integer, as_natural, and_then,
}
use label_309_py.Validator.Issuing.{issue_if}
use label_309_py.Validator.Registries.{Options, Raised, recipient_or_strict}
use label_309_py.Validator.Slots.{at, if_there, ◌then_check◌}
use label_309_py.Validator.Envelope.{
  has_registered_hash, is_forbidden, unsupported_identifiers, opaque_issues, dispatch_identifiers,
  dispatch_scheme, with_uint, with_scheme, with_encoded, with_dict, check_envelope, check_item_enc,
}
use label_309_py.Validator.Fields.{check_item_hashes, check_uris_field}
use label_309_py.Validator.Silence.{
  IsSilent, IsSilent-append, IsSilent-issue, IsSilent-issue_if, then_check-eq-ok,
}
use label_309_py.Validator.Inversion.{as_dict-eq, as_integer-eq, as_natural-eq}
use label_309_py.Validator.{if_dict, for_hashes, check_item, check_items}

IsSilent-ok :
    (checked issues : Issues)
    → ◌≡◌ {A = Result Raised Issues} (ok checked) (ok issues)
    → IsSilent issues
    → IsSilent checked
IsSilent-ok checked issues e silent = ap has_error (ok-injective _ e) ∙ silent

module _ (opts : Options) (enc : Entries) (path : List Segment) where
  dispatch_identifiers-supported :
      (unsupported : List (Text × ErrorCode)) (issues : Issues)
      → dispatch_identifiers opts enc path unsupported ≡ ok issues
      → IsSilent issues
      → opts.role ≡ recipient_or_strict
      → unsupported ≡ []
  unfolding dispatch_identifiers opaque_issues has_error same_severity
  dispatch_identifiers-supported [] issues e silent strict = refl
  dispatch_identifiers-supported (u ∷ us) issues e silent strict =
      absurd (let f = IsSilent-ok _ issues (rw strict at e) silent in cc)

  dispatch_scheme-silent :
      (scheme : ℕ) (issues : Issues)
      → dispatch_scheme opts enc path scheme ≡ ok issues
      → IsSilent issues
      → (is_forbidden (and_then (get enc (codes "aead")) as_text) ≡ false)
        × (opts.role ≡ recipient_or_strict → unsupported_identifiers enc scheme ≡ [])
  unfolding dispatch_scheme severity_of
  dispatch_scheme-silent scheme issues e silent =
      elim (Bool-cases (is_forbidden (and_then (get enc (codes "aead")) as_text))) [
        | inl bad ↦ absurd (
            IsSilent-issue unauthenticated_cipher_forbidden _ refl
              (IsSilent-ok _ issues (rw bad at e) silent))
        | inr fine ↦ (
          fine,
          dispatch_identifiers-supported (unsupported_identifiers enc scheme) issues (rw fine at e)
              silent,
        )
      ]

  with_scheme-silent :
      (o : Option Value) (check : ℕ → Result Raised Issues) (issues : Issues)
      → with_scheme o path check ≡ ok issues
      → IsSilent issues
      → (n : ℕ) × (o ≡ some (integer (natural n))) × (check n ≡ ok issues)
  unfolding severity_of
  with_scheme-silent none check issues e silent =
      absurd (IsSilent-issue schema_missing_required path refl (IsSilent-ok _ issues e silent))
  with_scheme-silent (some v) check issues e silent = by_number (as_natural (as_integer v)) refl e
    where
      by_number :
          (n : Option ℕ)
          → as_natural (as_integer v) ≡ n
          → with_uint n path check ≡ ok issues
          → (n : ℕ) × (◌≡◌ {A = Option Value} (some v) (some (integer (natural n))))
            × (check n ≡ ok issues)
      by_number none same f =
          absurd (IsSilent-issue schema_type_mismatch path refl (IsSilent-ok _ issues f silent))
      by_number (some n) same f =
          (n, ap some (as_integer-eq v (natural n) (as_natural-eq (as_integer v) n same)), f)

module _ (decode_canonical_cbor : Bytes → Option Value)
    (encode_canonical_cbor : Value → Option Bytes) (opts : Options) where
  -- A map no larger than the bound, with an unsigned scheme, whose cipher is not of those without
  -- authentication; in the strict reading, its identifiers are supported.
  pub record IsEnvelope (v : Value) : Type 0 where
    pub enc : Entries
    pub is_dict : v ≡ dict enc
    pub bounded :
        (b : Bytes) × (encode_canonical_cbor (dict enc) ≡ some b)
        × (length b ≤ opts.max_enc_envelope_bytes)
    pub scheme : ℕ
    pub is_scheme : get enc (codes "scheme") ≡ some (integer (natural scheme))
    pub authenticated : is_forbidden (and_then (get enc (codes "aead")) as_text) ≡ false
    pub supported : opts.role ≡ recipient_or_strict → unsupported_identifiers enc scheme ≡ []

  abbrev pub HasEnvelope : Entries → Type 0
  HasEnvelope item = (v : Value) → get item (codes "enc") ≡ some v → IsEnvelope v

  check_envelope-IsEnvelope :
      (path : List Segment) (enc : Entries) (issues : Issues)
      → check_envelope encode_canonical_cbor opts path enc ≡ ok issues
      → IsSilent issues
      → IsEnvelope (dict enc)
  unfolding check_envelope severity_of
  check_envelope-IsEnvelope path enc issues e silent =
      by_bytes (encode_canonical_cbor (dict enc)) refl e
    where
      by_bytes :
          (o : Option Bytes)
          → encode_canonical_cbor (dict enc) ≡ o
          → with_encoded o (λ b.
            ok (issue_if (ltb opts.max_enc_envelope_bytes (length b)) enc_envelope_too_large path)
            then_check with_scheme
                (get enc (codes "scheme"))
                (at path (codes "scheme"))
                (dispatch_scheme opts enc path))
            ≡ ok issues
          → IsEnvelope (dict enc)
      by_bytes none same f = absurd (cc)
      by_bytes (some b) same f =
          let (c, d, first, second, joined) = then_check-eq-ok _ _ issues f in
          let (silent_c, silent_d) = IsSilent-append c d (rw joined at silent) in
          let fits =
            IsSilent-issue_if _ enc_envelope_too_large path refl (IsSilent-ok _ c first silent_c) in
          let (n, is_n, dispatched) =
            with_scheme-silent opts enc (at path (codes "scheme")) _ _ d second silent_d in
          let (authenticated, supported) =
            dispatch_scheme-silent opts enc path n d dispatched silent_d in
          record {
            enc = enc;
            is_dict = refl;
            bounded = (b, same, ltb→le opts.max_enc_envelope_bytes (length b) fits);
            scheme = n;
            is_scheme = is_n;
            authenticated = authenticated;
            supported = supported;
          }

  check_item_enc-IsEnvelope :
      (path : List Segment) (hashes : List (Text × Value)) (v : Value) (issues : Issues)
      → check_item_enc encode_canonical_cbor opts path hashes v ≡ ok issues
      → IsSilent issues
      → IsEnvelope v
  unfolding check_item_enc severity_of
  check_item_enc-IsEnvelope path hashes v issues e silent =
      let (a, b, first, second, joined) =
        then_check-eq-ok
          (ok (issue_if (not (has_registered_hash hashes)) enc_requires_content_hash path)) _ issues
          e in
      let (_, silent_b) = IsSilent-append a b (rw joined at silent) in
      by_dict (as_dict v) b refl second silent_b
    where
      by_dict :
          (o : Option Entries) (b : Issues)
          → as_dict v ≡ o
          → with_dict o path (check_envelope encode_canonical_cbor opts path) ≡ ok b
          → IsSilent b
          → IsEnvelope v
      by_dict none b same f s =
          absurd (IsSilent-issue schema_type_mismatch path refl (IsSilent-ok _ b f s))
      by_dict (some d) b same f s =
          subst IsEnvelope (sym (as_dict-eq v d same)) (check_envelope-IsEnvelope path d b f s)

  check_item-HasEnvelope :
      (i : ℕ) (item : Entries) (issues : Issues)
      → check_item decode_canonical_cbor encode_canonical_cbor opts i item ≡ ok issues
      → IsSilent issues
      → HasEnvelope item
  unfolding check_item
  check_item-HasEnvelope i item issues e silent v there =
      let path : List Segment = key (codes "items") ∷ index i ∷ [] in
      let hashes = for_hashes (and_then (get item (codes "hashes")) as_dict) in
      let enc_path = path ++ key (codes "enc") ∷ [] in
      let (a, b, first, second, joined) =
        then_check-eq-ok
          (ok (
            check_item_hashes (path ++ key (codes "hashes") ∷ []) hashes
            ++ check_uris_field item path))
          (if_there (get item (codes "enc"))
            (check_item_enc encode_canonical_cbor opts enc_path hashes))
          issues e in
      let (_, silent_b) = IsSilent-append a b (rw joined at silent) in
      check_item_enc-IsEnvelope enc_path hashes v b (rw there at second) silent_b

  pub check_items-HasEnvelope :
      (i : ℕ) (items : List Value) (issues : Issues)
      → check_items decode_canonical_cbor encode_canonical_cbor opts i items ≡ ok issues
      → IsSilent issues
      → All (λ v. (d : Entries) → as_dict v ≡ some d → HasEnvelope d) items
  unfolding check_items
  check_items-HasEnvelope i [] issues e silent = tt
  check_items-HasEnvelope i (v ∷ items) issues e silent =
      let (a, b, first, second, joined) =
        then_check-eq-ok
          (if_dict (as_dict v) (check_item decode_canonical_cbor encode_canonical_cbor opts i)) _
          issues e in
      let (silent_a, silent_b) = IsSilent-append a b (rw joined at silent) in
      (
        λ d is_dict. check_item-HasEnvelope i d a (rw is_dict at first) silent_a,
        check_items-HasEnvelope (suc i) items b second silent_b,
      )

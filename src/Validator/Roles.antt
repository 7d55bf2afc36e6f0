-- ===== src/Validator/Roles.antt =====
-- The strict reading of envelopes accepts no more than the public one.
use label_309_py.Prelude.{
  ℕ, suc, ◌≡◌, refl, sym, ap, ◌∙◌, inl, inr, not, Option, none, some, List, [], ◌∷◌, ◌++◌, ◌==◌,
  length, Bool-cases, Option-cases, ltb, Result, ok, ok-injective, codes,
}
use label_309_py.Bytes.{Bytes}
use label_309_py.ErrorCodes.{ErrorCode, enc_envelope_too_large, enc_requires_content_hash}
use label_309_py.Verdict.{Segment, key, index, Issues, same_severity}
use label_309_py.Verdict.Meaning.{has_error}
use label_309_py.Cbor.{
  Text, Value, dict, Entries, get, as_text, as_dict, as_natural, as_integer, and_then,
}
use label_309_py.Validator.Registries.{Options, Raised, public, recipient_or_strict}
use label_309_py.Validator.Slots.{
  at, check_slots, check_params, check_passphrase_block, check_scheme1_envelope, if_there,
  ◌then_check◌,
}
use label_309_py.Validator.Envelope.{
  has_registered_hash, is_forbidden, unsupported_identifiers, opaque_issues, check_typed,
  dispatch_identifiers, dispatch_scheme, with_uint, with_scheme, with_encoded, with_dict,
  check_envelope, check_item_enc,
}
use label_309_py.Validator.Issuing.{issue_if, for_each, for_some}
use label_309_py.Validator.Shape.{collect_non_text_key_map_issues, schema_parse}
use label_309_py.Validator.Fields.{
  array_of, check_content_commitment_presence, check_crit, check_unknown_fields, check_item_hashes,
  check_uris_field, check_merkle_commit,
}
use label_309_py.Validator.Silence.{IsSilent, IsSilent-append, then_check-eq-ok}
use label_309_py.Validator.Conformant.{emit_result-valid}
use label_309_py.Validator.{
  valid, for_hashes, check_sigs, if_dict, if_array, check_item, check_items, check_record,
  emit_result, validate_shaped, validate_decoded, validate,
}

abbrev pub strict : Options → Options
strict opts = record opts { role = recipient_or_strict }

abbrev pub lenient : Options → Options
lenient opts = record opts { role = public }

-- A result without errors under the first of two checks is the result of the second.
abbrev Carries : Result Raised Issues → Result Raised Issues → Type 0
Carries first second = (issues : Issues) → first ≡ ok issues → IsSilent issues → second ≡ ok issues

Carries-then_check :
    (a b a' b' : Result Raised Issues)
    → Carries a a'
    → Carries b b'
    → Carries (a then_check b) (a' then_check b')
Carries-then_check a b a' b' f g issues h silent =
    let (x, y, first, second, joined) = then_check-eq-ok a b issues h in
    let (silent_x, silent_y) = IsSilent-append x y (rw joined at silent) in
    rw (f x first silent_x, g y second silent_y, joined) refl

Carries-same : (a a' : Result Raised Issues) → a ≡ a' → Carries a a'
Carries-same a a' same issues h silent = sym same ∙ h

check_typed-role :
    (opts : Options) (enc : Entries) (path : List Segment)
    → check_typed (strict opts) enc path ≡ check_typed (lenient opts) enc path
unfolding check_typed check_scheme1_envelope check_slots check_passphrase_block check_params
check_typed-role opts enc path = refl

module _ (opts : Options) (enc : Entries) (path : List Segment) where
  dispatch_identifiers-role :
      (us : List (Text × ErrorCode))
      → Carries
          (dispatch_identifiers (strict opts) enc path us)
          (dispatch_identifiers (lenient opts) enc path us)
  unfolding dispatch_identifiers opaque_issues has_error same_severity
  dispatch_identifiers-role [] issues h silent = sym (check_typed-role opts enc path) ∙ h
  dispatch_identifiers-role (u ∷ us) issues h silent =
      absurd (let f = ap has_error (ok-injective _ h) ∙ silent in cc)

  dispatch_scheme-role :
      (scheme : ℕ)
      → Carries
          (dispatch_scheme (strict opts) enc path scheme)
          (dispatch_scheme (lenient opts) enc path scheme)
  unfolding dispatch_scheme
  dispatch_scheme-role scheme issues h silent =
      elim (Bool-cases (is_forbidden (and_then (get enc (codes "aead")) as_text))) [
        | inl forbidden ↦ rw forbidden (rw forbidden at h)
        | inr allowed ↦ rw allowed (
            dispatch_identifiers-role (unsupported_identifiers enc scheme) issues (rw allowed at h)
              silent)
      ]

with_uint-Carries :
    (o : Option ℕ) (path : List Segment) (f g : ℕ → Result Raised Issues)
    → ((n : ℕ) → Carries (f n) (g n))
    → Carries (with_uint o path f) (with_uint o path g)
with_uint-Carries none path f g c = Carries-same _ _ refl
with_uint-Carries (some n) path f g c = c n

with_scheme-Carries :
    (o : Option Value) (path : List Segment) (f g : ℕ → Result Raised Issues)
    → ((n : ℕ) → Carries (f n) (g n))
    → Carries (with_scheme o path f) (with_scheme o path g)
with_scheme-Carries none path f g c = Carries-same _ _ refl
with_scheme-Carries (some v) path f g c = with_uint-Carries (as_natural (as_integer v)) path f g c

with_encoded-Carries :
    (o : Option Bytes) (f g : Bytes → Result Raised Issues)
    → ((b : Bytes) → Carries (f b) (g b))
    → Carries (with_encoded o f) (with_encoded o g)
with_encoded-Carries none f g c = Carries-same _ _ refl
with_encoded-Carries (some b) f g c = c b

if_there-Carries :
    (o : Option Value) (f g : Value → Result Raised Issues)
    → ((v : Value) → Carries (f v) (g v))
    → Carries (if_there o f) (if_there o g)
if_there-Carries none f g c = Carries-same _ _ refl
if_there-Carries (some v) f g c = c v

with_dict-Carries :
    (o : Option Entries) (path : List Segment) (f g : Entries → Result Raised Issues)
    → ((d : Entries) → Carries (f d) (g d))
    → Carries (with_dict o path f) (with_dict o path g)
with_dict-Carries none path f g c = Carries-same _ _ refl
with_dict-Carries (some d) path f g c = c d

if_dict-Carries :
    (o : Option Entries) (f g : Entries → Result Raised Issues)
    → ((d : Entries) → Carries (f d) (g d))
    → Carries (if_dict o f) (if_dict o g)
if_dict-Carries none f g c = Carries-same _ _ refl
if_dict-Carries (some d) f g c = c d

if_array-Carries :
    (o : Option (List Value)) (f g : List Value → Result Raised Issues)
    → ((vs : List Value) → Carries (f vs) (g vs))
    → Carries (if_array o f) (if_array o g)
if_array-Carries none f g c = Carries-same _ _ refl
if_array-Carries (some vs) f g c = c vs

module _ (decode_canonical_cbor : Bytes → Option Value)
    (encode_canonical_cbor : Value → Option Bytes) (opts : Options) where
  check_envelope-role :
      (path : List Segment) (enc : Entries)
      → Carries
          (check_envelope encode_canonical_cbor (strict opts) path enc)
          (check_envelope encode_canonical_cbor (lenient opts) path enc)
  unfolding check_envelope
  check_envelope-role path enc = with_encoded-Carries (encode_canonical_cbor (dict enc)) _ _ λ b.
      Carries-then_check
        (ok (issue_if (ltb opts.max_enc_envelope_bytes (length b)) enc_envelope_too_large path))
        (with_scheme (get enc (codes "scheme")) (at path (codes "scheme"))
          (dispatch_scheme (strict opts) enc path))
        (ok (issue_if (ltb opts.max_enc_envelope_bytes (length b)) enc_envelope_too_large path))
        (with_scheme (get enc (codes "scheme")) (at path (codes "scheme"))
          (dispatch_scheme (lenient opts) enc path))
        (Carries-same _ _ refl)
        (with_scheme-Carries (get enc (codes "scheme")) (at path (codes "scheme"))
          (dispatch_scheme (strict opts) enc path) (dispatch_scheme (lenient opts) enc path)
          (dispatch_scheme-role opts enc path))

  check_item_enc-role :
      (path : List Segment) (hashes : List (Text × Value)) (v : Value)
      → Carries
          (check_item_enc encode_canonical_cbor (strict opts) path hashes v)
          (check_item_enc encode_canonical_cbor (lenient opts) path hashes v)
  unfolding check_item_enc
  check_item_enc-role path hashes v =
      Carries-then_check
        (ok (issue_if (not (has_registered_hash hashes)) enc_requires_content_hash path))
        (with_dict (as_dict v) path (check_envelope encode_canonical_cbor (strict opts) path))
        (ok (issue_if (not (has_registered_hash hashes)) enc_requires_content_hash path))
        (with_dict (as_dict v) path (check_envelope encode_canonical_cbor (lenient opts) path))
        (Carries-same _ _ refl)
        (with_dict-Carries (as_dict v) path
          (check_envelope encode_canonical_cbor (strict opts) path)
          (check_envelope encode_canonical_cbor (lenient opts) path) (check_envelope-role path))

  check_item-role :
      (i : ℕ) (item : Entries)
      → Carries
          (check_item decode_canonical_cbor encode_canonical_cbor (strict opts) i item)
          (check_item decode_canonical_cbor encode_canonical_cbor (lenient opts) i item)
  unfolding check_item
  check_item-role i item =
      let path : List Segment = key (codes "items") ∷ index i ∷ [] in
      let hashes = for_hashes (and_then (get item (codes "hashes")) as_dict) in
      let fields : Result Raised Issues = ok (
        check_item_hashes (path ++ key (codes "hashes") ∷ []) hashes
        ++ check_uris_field item path) in
      Carries-then_check fields
        (if_there (get item (codes "enc")) (
          check_item_enc encode_canonical_cbor (strict opts) (path ++ key (codes "enc") ∷ [])
            hashes))
        fields
        (if_there (get item (codes "enc")) (
          check_item_enc encode_canonical_cbor (lenient opts) (path ++ key (codes "enc") ∷ [])
            hashes))
        (Carries-same _ _ refl)
        (if_there-Carries (get item (codes "enc")) _ _
          (check_item_enc-role (path ++ key (codes "enc") ∷ []) hashes))

  check_items-role :
      (i : ℕ) (items : List Value)
      → Carries
          (check_items decode_canonical_cbor encode_canonical_cbor (strict opts) i items)
          (check_items decode_canonical_cbor encode_canonical_cbor (lenient opts) i items)
  unfolding check_items
  check_items-role i [] issues h silent = h
  check_items-role i (v ∷ items) issues h silent =
      Carries-then_check
        (if_dict (as_dict v)
          (check_item decode_canonical_cbor encode_canonical_cbor (strict opts) i))
        (check_items decode_canonical_cbor encode_canonical_cbor (strict opts) (suc i) items)
        (if_dict (as_dict v)
          (check_item decode_canonical_cbor encode_canonical_cbor (lenient opts) i))
        (check_items decode_canonical_cbor encode_canonical_cbor (lenient opts) (suc i) items)
        (if_dict-Carries (as_dict v) _ _ (check_item-role i)) (check_items-role (suc i) items)
        issues h silent

  check_record-role :
      (record_ : Entries)
      → Carries
          (check_record decode_canonical_cbor encode_canonical_cbor (strict opts) record_)
          (check_record decode_canonical_cbor encode_canonical_cbor (lenient opts) record_)
  unfolding check_record
  check_record-role record_ =
      let items = array_of record_ (codes "items") in
      let fields : Result Raised Issues = ok (
        check_content_commitment_presence record_
        ++ (check_crit record_ opts.supported_critical_extensions
            ++ check_unknown_fields record_)) in
      let others : Result Raised Issues = ok (
        for_some (array_of record_ (codes "merkle"))
          (for_each (λ i commit. for_some (as_dict commit) (check_merkle_commit i)) 0)
        ++ for_some (array_of record_ (codes "sigs"))
            (check_sigs decode_canonical_cbor encode_canonical_cbor)) in
      let before =
        if_array items (check_items decode_canonical_cbor encode_canonical_cbor (strict opts) 0) in
      let after =
        if_array items (check_items decode_canonical_cbor encode_canonical_cbor (lenient opts) 0) in
      Carries-then_check fields (before then_check others) fields (after then_check others)
        (Carries-same _ _ refl)
        (Carries-then_check before others after others
          (if_array-Carries items _ _ (check_items-role 0)) (Carries-same _ _ refl))

  module _ (utf8 : List ℕ → Bytes) where
    emit_result-role :
        (record_ r : Entries) (infos warnings : Issues)
        → emit_result decode_canonical_cbor encode_canonical_cbor utf8 record_
            (check_record decode_canonical_cbor encode_canonical_cbor (strict opts) record_)
          ≡ ok (valid r infos warnings)
        → emit_result decode_canonical_cbor encode_canonical_cbor utf8 record_
            (check_record decode_canonical_cbor encode_canonical_cbor (lenient opts) record_)
          ≡ ok (valid r infos warnings)
    emit_result-role record_ r infos warnings h =
        let checked =
          check_record decode_canonical_cbor encode_canonical_cbor (strict opts) record_ in
        let (issues, e, same, silent) =
          emit_result-valid decode_canonical_cbor encode_canonical_cbor opts utf8 record_ r checked
            infos warnings h in
        rw (check_record-role record_ issues e silent)
          (sym (ap (emit_result decode_canonical_cbor encode_canonical_cbor utf8 record_) e) ∙ h)

    validate_shaped-role :
        (o : Option Entries) (r : Entries) (infos warnings : Issues)
        → validate_shaped decode_canonical_cbor encode_canonical_cbor utf8 (strict opts) o
          ≡ ok (valid r infos warnings)
        → validate_shaped decode_canonical_cbor encode_canonical_cbor utf8 (lenient opts) o
          ≡ ok (valid r infos warnings)
    unfolding validate_shaped
    validate_shaped-role none r infos warnings h = h
    validate_shaped-role (some record_) r infos warnings h =
        emit_result-role record_ r infos warnings h

    -- Bytes that validate for a recipient or in strict mode validate in the public reading under the
    -- same bounds, to the same record with the same warnings and informational issues.
    pub validate-role :
        (cbor_bytes : Bytes) (r : Entries) (infos warnings : Issues)
        → validate decode_canonical_cbor encode_canonical_cbor utf8 (strict opts) cbor_bytes
          ≡ ok (valid r infos warnings)
        → validate decode_canonical_cbor encode_canonical_cbor utf8 (lenient opts) cbor_bytes
          ≡ ok (valid r infos warnings)
    unfolding validate validate_decoded
    validate-role cbor_bytes r infos warnings h =
        elim (Option-cases (decode_canonical_cbor cbor_bytes)) [
          | inl fails ↦ rw fails (rw fails at h)
          | inr (v, decodes) ↦
              elim (Bool-cases (not (length (collect_non_text_key_map_issues v) == 0))) [
                | inl keys ↦ rw (decodes, keys) (rw (decodes, keys) at h)
                | inr no_keys ↦ elim (Bool-cases (not (length (schema_parse v) == 0))) [
                  | inl misshaped ↦
                      rw (decodes, no_keys, misshaped) (rw (decodes, no_keys, misshaped) at h)
                  | inr shaped ↦
                      rw (decodes, no_keys, shaped)
                        (validate_shaped-role (as_dict v) r infos warnings
                          (rw (decodes, no_keys, shaped) at h))
                ]
              ]
        ]

-- ===== src/Validator/Envelope.antt =====
-- src/cardanowall/poe_standard/validator.py, _check_item_enc: an envelope is held to the typed shape, or
-- is opaque, by the identifiers that it names. The canonical encoder is a parameter.
use label_309_py.Prelude.{
  ℕ, Bool, true, false, not, ◌||◌, Option, none, some, List, [], ◌∷◌, ◌++◌, ltb, ◌==◌,
  if◌then◌else◌, length, codes, Result, ok, err,
}
use label_309_py.Bytes.{Bytes}
use label_309_py.ErrorCodes.{
  ErrorCode, error, info, schema_type_mismatch, schema_missing_required, enc_requires_content_hash,
  enc_envelope_too_large, unauthenticated_cipher_forbidden, unsupported_envelope_scheme,
  unsupported_kem_alg, unsupported_aead_alg, enc_unsupported,
}
use label_309_py.Verdict.{Segment, Issues}
use label_309_py.Cbor.{
  Text, Value, dict, Entries, get, as_text, as_dict, as_integer, as_natural, and_then, is_some,
}
use label_309_py.Validator.Issuing.{issue, issue_if, for_entries}
use label_309_py.Validator.Registries.{
  Options, ValidatorRole, public, recipient_or_strict, Raised, encode_error, hash_alg_length,
  aead_nonce_length, kem_slot_descriptor,
}
use label_309_py.Validator.Ciphers.{is_unauthenticated_cipher}
use label_309_py.Validator.Slots.{
  at, enc_internal_non_text_key_issues, enc_scheme1_schema_issues, check_scheme1_envelope,
  ◌then_check◌,
}

unfoldable pub has_registered_hash : List (Text × Value) → Bool
has_registered_hash [] = false
has_registered_hash ((alg, digest) ∷ hashes) =
    is_some (hash_alg_length alg) || has_registered_hash hashes

abbrev pub is_forbidden : Option Text → Bool
is_forbidden none = false
is_forbidden (some aead) = is_unauthenticated_cipher aead

-- A text that a registry does not have.
abbrev pub is_unknown {ℓ} : {A : Type ℓ} → (Text → Option A) → Option Text → Bool
is_unknown registry none = false
is_unknown registry (some t) = not (is_some (registry t))

abbrev pub listed : Bool → Text → ErrorCode → List (Text × ErrorCode)
listed true field code = (field, code) ∷ []
listed false field code = []

unfoldable pub unsupported_identifiers : Entries → ℕ → List (Text × ErrorCode)
unsupported_identifiers enc scheme =
    listed (not (scheme == 1)) (codes "scheme") unsupported_envelope_scheme
    ++ (listed (is_unknown kem_slot_descriptor (and_then (get enc (codes "kem")) as_text))
          (codes "kem") unsupported_kem_alg
        ++ listed (is_unknown aead_nonce_length (and_then (get enc (codes "aead")) as_text))
            (codes "aead") unsupported_aead_alg)

-- The disposition of an opaque envelope, by the role.
unfoldable pub opaque_issues : ValidatorRole → List (Text × ErrorCode) → List Segment → Issues
opaque_issues public unsupported path =
    record { code = enc_unsupported; path = path; severity = info } ∷ []
opaque_issues recipient_or_strict unsupported path =
    record { code = enc_unsupported; path = path; severity = error }
    ∷ for_entries (λ (field, code). issue code (at path field)) unsupported

unfoldable pub check_typed : Options → Entries → List Segment → Result Raised Issues
check_typed opts enc path =
    let internal = enc_internal_non_text_key_issues enc path in
    let typed = enc_scheme1_schema_issues enc path in
    if not (length internal == 0)
    then ok internal
    else if not (length typed == 0)
    then ok typed
    else check_scheme1_envelope opts enc path

unfoldable pub dispatch_identifiers :
    Options → Entries → List Segment → List (Text × ErrorCode) → Result Raised Issues
dispatch_identifiers opts enc path [] = check_typed opts enc path
dispatch_identifiers opts enc path (u ∷ us) = ok (opaque_issues opts.role (u ∷ us) path)

-- Behind the scheme, an unsigned integer.
unfoldable pub dispatch_scheme : Options → Entries → List Segment → ℕ → Result Raised Issues
dispatch_scheme opts enc path scheme =
    if is_forbidden (and_then (get enc (codes "aead")) as_text)
    then ok (issue unauthenticated_cipher_forbidden (at path (codes "aead")))
    else dispatch_identifiers opts enc path (unsupported_identifiers enc scheme)

abbrev pub with_uint : Option ℕ → List Segment → (ℕ → Result Raised Issues) → Result Raised Issues
with_uint none path check = ok (issue schema_type_mismatch path)
with_uint (some n) path check = check n

abbrev pub with_scheme :
    Option Value → List Segment → (ℕ → Result Raised Issues) → Result Raised Issues
with_scheme none path check = ok (issue schema_missing_required path)
with_scheme (some v) path check = with_uint (as_natural (as_integer v)) path check

abbrev pub with_encoded : Option Bytes → (Bytes → Result Raised Issues) → Result Raised Issues
with_encoded none check = err encode_error
with_encoded (some b) check = check b

abbrev pub with_dict :
    Option Entries → List Segment → (Entries → Result Raised Issues) → Result Raised Issues
with_dict none path check = ok (issue schema_type_mismatch path)
with_dict (some d) path check = check d

module _ (encode_canonical_cbor : Value → Option Bytes) where
  unfoldable pub check_envelope : Options → List Segment → Entries → Result Raised Issues
  check_envelope opts path enc = with_encoded (encode_canonical_cbor (dict enc)) λ b.
      ok (issue_if (ltb opts.max_enc_envelope_bytes (length b)) enc_envelope_too_large path)
      then_check with_scheme (get enc (codes "scheme")) (at path (codes "scheme"))
          (dispatch_scheme opts enc path)

  -- The digests of the item, and the value under `enc`.
  unfoldable pub check_item_enc :
      Options → List Segment → List (Text × Value) → Value → Result Raised Issues
  check_item_enc opts path hashes raw_enc =
      ok (issue_if (not (has_registered_hash hashes)) enc_requires_content_hash path)
      then_check with_dict (as_dict raw_enc) path (check_envelope opts path)

-- ===== src/Validator/Runs.antt =====
-- Records that validate, that do not, and one on which the validator raises. The decoder answers the
-- record at hand, whatever the bytes.
use label_309_py.Prelude.{
  ℕ, ◌≡◌, ◌↔◌, integer_eq, refl, Option, some, List, [], ◌∷◌, ok, err, codes, natural,
}
use label_309_py.Bytes.{Bytes}
use label_309_py.Fixtures.{toy_digest}
use label_309_py.Verdict.{Segment, key, index}
use label_309_py.Cbor.{
  Text, Value, null, integer, text, bytes, array, dict, value, end, Entries, entry, no_entries,
  text_key,
}
use label_309_py.Validator.Registries.{Options, default_options, key_error}
use label_309_py.Validator.Slots.{enc_internal_non_text_key_issues, enc_scheme1_schema_issues}
use label_309_py.Validator.Envelope.{unsupported_identifiers, check_typed}
use label_309_py.Validator.Raising.{Raises, HasNull, check_typed-Raises_iff}
use label_309_py.Validator.Conformant.{IsConformant, validate-IsConformant}
use label_309_py.Validator.Roles.{strict, lenient, validate-role}
use label_309_py.Validator.{valid, validate}
use label_309_py.Cbor.{get, elements, text_entries, has_other_key, is_member}
use label_309_py.Validator.{
  validate_decoded, validate_shaped, check_record, check_items, check_item, emit, with_severity,
  check_sigs,
}
use label_309_py.Validator.Issuing.{issue_if, for_each, for_entries, issue}
use label_309_py.Validator.Shape.{
  guard_item, guard_entry, guard_field, guard_record, collect_non_text_key_map_issues, closed_map,
  parse_hashes, parse_item_map, schema_parse_item, parse_version, parse_supersedes, parse_record,
  schema_parse, schema_parse_uris,
}
use label_309_py.Validator.Registries.{hash_alg_length, kem_slot_descriptor, aead_nonce_length}
use label_309_py.Bytes.{bytes_eq}
use label_309_py.Validator.Fields.{
  check_content_commitment_presence, check_digest, check_item_hashes, check_uris_field, check_crit,
  check_unknown_fields, is_extension_key, texts_of, check_crit_names, is_malformed_crit,
  is_companion, all_printable,
}
use label_309_py.Validator.Envelope.{
  check_item_enc, has_registered_hash, dispatch_identifiers, dispatch_scheme, check_envelope,
}
use label_309_py.Verdict.Order.{sort_issues, insert_issue}
use label_309_py.Verdict.Meaning.{has_error}
use label_309_py.Verdict.{same_severity}
use label_309_py.ErrorCodes.{severity_of}
use label_309_py.Validator.Ciphers.{
  fold_case, ends_token, starts_with_token, starts_with_any, has_later_mode,
  is_unauthenticated_cipher,
}
use label_309_py.Validator.Slots.{
  guard_passphrase, parse_slot, parse_slots_mac, check_scheme1_envelope, check_nonce,
  check_key_path, check_slots, parse_passphrase,
}

abbrev at_key : Text → Value → Entries → Entries
at_key name v d = entry (text_key name) v d

abbrev plain_item : Value
plain_item = dict (
    at_key (codes "hashes") (dict (at_key (codes "sha2-256") (bytes (toy_digest [])) no_entries))
      no_entries)

abbrev plain_record : Entries
plain_record =
    at_key (codes "v") (integer (natural 1))
      (at_key (codes "items") (array (value plain_item end)) no_entries)

abbrev decode_to : Entries → Bytes → Option Value
decode_to d b = some (dict d)

abbrev no_encoding : Value → Option Bytes
no_encoding v = some []

abbrev same_text : List ℕ → Bytes
same_text t = t

abbrev strict_options : Options
strict_options = strict default_options

plain_valid :
    validate (decode_to plain_record) no_encoding same_text strict_options []
    ≡ ok (valid plain_record [] [])
unfolding get elements text_entries has_other_key is_member validate validate_decoded
    validate_shaped check_record check_items check_item emit with_severity check_sigs issue_if
    for_each for_entries issue guard_item guard_entry guard_field guard_record
    collect_non_text_key_map_issues closed_map parse_hashes parse_item_map schema_parse_item
    parse_version parse_supersedes parse_record schema_parse schema_parse_uris hash_alg_length
    bytes_eq check_content_commitment_presence check_digest check_item_hashes check_uris_field
    check_crit check_unknown_fields is_extension_key texts_of check_crit_names is_malformed_crit
    is_companion all_printable check_item_enc sort_issues insert_issue has_error integer_eq
    same_severity severity_of
plain_valid = refl

abbrev null_kem : Entries
null_kem = at_key (codes "scheme") (integer (natural 1)) (
    at_key (codes "aead") (text (codes "chacha20-poly1305-stream64k")) (
      at_key (codes "kem") null (
        at_key (codes "nonce") (bytes (codes "012345678901234567890123")) (
          at_key (codes "slots") (array (value (dict no_entries) end))
            (at_key (codes "slots_mac") (bytes (toy_digest [])) no_entries)))))

abbrev sealed_record : Entries
sealed_record = at_key (codes "v") (integer (natural 1)) (
    at_key (codes "items")
      (array (
        value
          (dict (
            at_key (codes "hashes")
              (dict (at_key (codes "sha2-256") (bytes (toy_digest [])) no_entries))
              (at_key (codes "enc") (dict null_kem) no_entries)))
          end))
      no_entries)

-- A null under `kem` is present, though the shape takes it for absent.
null_kem_raises :
    validate (decode_to sealed_record) no_encoding same_text default_options [] ≡ err key_error
unfolding get elements text_entries has_other_key is_member validate validate_decoded
    validate_shaped check_record check_items check_item emit with_severity check_sigs issue_if
    for_each for_entries issue guard_item guard_entry guard_field guard_record
    collect_non_text_key_map_issues closed_map parse_hashes parse_item_map schema_parse_item
    parse_version parse_supersedes parse_record schema_parse schema_parse_uris hash_alg_length
    kem_slot_descriptor aead_nonce_length bytes_eq check_content_commitment_presence check_digest
    check_item_hashes check_uris_field check_crit check_unknown_fields is_extension_key texts_of
    check_crit_names is_malformed_crit is_companion all_printable check_item_enc has_registered_hash
    unsupported_identifiers check_typed dispatch_identifiers dispatch_scheme check_envelope
    sort_issues insert_issue has_error integer_eq same_severity severity_of fold_case ends_token
    starts_with_token starts_with_any has_later_mode is_unauthenticated_cipher guard_passphrase
    enc_internal_non_text_key_issues parse_slot parse_slots_mac enc_scheme1_schema_issues
    check_scheme1_envelope check_nonce check_key_path check_slots parse_passphrase
null_kem_raises = refl

null_kem_supported : unsupported_identifiers null_kem 1 ≡ []
unfolding unsupported_identifiers kem_slot_descriptor aead_nonce_length bytes_eq get
null_kem_supported = refl

validate-IsConformant_example :
    (decode_to plain_record [] ≡ some (dict plain_record))
    × IsConformant (decode_to plain_record) no_encoding strict_options plain_record
validate-IsConformant_example =
    validate-IsConformant (decode_to plain_record) no_encoding strict_options same_text []
      plain_record [] [] plain_valid

validate-role_example :
    validate (decode_to plain_record) no_encoding same_text (lenient default_options) []
    ≡ ok (valid plain_record [] [])
validate-role_example =
    validate-role (decode_to plain_record) no_encoding default_options same_text [] plain_record []
      [] plain_valid

abbrev enc_path : List Segment
enc_path = key (codes "items") ∷ index 0 ∷ key (codes "enc") ∷ []

check_typed-Raises_iff_example : Raises (check_typed default_options null_kem enc_path) ↔ (
    (enc_internal_non_text_key_issues null_kem enc_path ≡ [])
    × (enc_scheme1_schema_issues null_kem enc_path ≡ [])
    × HasNull default_options null_kem)
check_typed-Raises_iff_example =
    check_typed-Raises_iff default_options null_kem enc_path 1 null_kem_supported

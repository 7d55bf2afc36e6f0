-- ===== src/ErrorCodes.antt =====
-- src/cardanowall/poe_standard/error_codes.py: the registry of error codes, in its order, with the
-- layer that emits a code and its default severity.
pub mod Registry
use label_309_py.Prelude.{
  ℕ, zero, suc, ◌≡◌, refl, Bool, true, false, List, [], ◌∷◌, if◌then◌else◌, ◌==◌,
}

pub data ErrorCode : Type 0 where
  malformed_cbor schema_type_mismatch schema_missing_required schema_unknown_field
        schema_invalid_literal schema_empty_record hash_digest_length_mismatch unsupported_hash_alg
        unsupported_merkle_commit_alg schema_merkle_leaf_count_invalid invalid_uri chunk_too_large
        unauthenticated_cipher_forbidden unsupported_aead_alg nonce_length_mismatch
        unsupported_envelope_scheme enc_unsupported enc_slots_empty enc_slot_invalid_shape
        unsupported_kem_alg enc_kem_required kem_epk_length_mismatch kem_ct_length_mismatch
        wrap_length_mismatch enc_slots_mac_invalid_length enc_slots_mac_required enc_slots_required
        enc_slots_duplicate_kem_material enc_slots_too_many enc_envelope_too_large
        enc_exclusivity_violation enc_no_key_path enc_requires_content_hash
        enc_passphrase_alg_unsupported enc_passphrase_salt_too_short enc_passphrase_salt_too_long
        enc_passphrase_argon2_params_too_low enc_passphrase_params_exceed_policy
        malformed_sig_cose_sign1 signature_unsupported sig_entry_invalid_shape
        sig_entry_kid_cose_key_conflict sig_private_key_leaked supersedes_tx_invalid_length
        extension_unsupported_critical crit_shape_invalid tx_not_found provider_unavailable
        tx_integrity_mismatch metadata_not_found insufficient_confirmations signature_invalid
        signer_key_unresolved wallet_address_mismatch uri_target_forbidden uri_integrity_mismatch
        uri_provider_integrity_mismatch uri_fetch_failed content_unavailable
        content_fetch_limit_exceeded ciphertext_unavailable service_independence_violation
        wrong_decryption_input_shape wrong_recipient_key tampered_header tampered_ciphertext
        kdf_derivation_failed enc_passphrase_unnormalizable enc_passphrase_empty
        schema_merkle_leaf_count_mismatch schema_merkle_leaves_format_unsupported
        schema_merkle_leaves_malformed merkle_root_mismatch merkle_leaves_unavailable
        merkle_unsupported out_of_profile_skipped :
      ErrorCode

-- `ERROR_CODES`
unfoldable pub error_codes : List ErrorCode
error_codes =
    malformed_cbor ∷ schema_type_mismatch ∷ schema_missing_required ∷ schema_unknown_field
    ∷ schema_invalid_literal ∷ schema_empty_record ∷ hash_digest_length_mismatch
    ∷ unsupported_hash_alg ∷ unsupported_merkle_commit_alg ∷ schema_merkle_leaf_count_invalid
    ∷ invalid_uri ∷ chunk_too_large ∷ unauthenticated_cipher_forbidden ∷ unsupported_aead_alg
    ∷ nonce_length_mismatch ∷ unsupported_envelope_scheme ∷ enc_unsupported ∷ enc_slots_empty
    ∷ enc_slot_invalid_shape ∷ unsupported_kem_alg ∷ enc_kem_required ∷ kem_epk_length_mismatch
    ∷ kem_ct_length_mismatch ∷ wrap_length_mismatch ∷ enc_slots_mac_invalid_length
    ∷ enc_slots_mac_required ∷ enc_slots_required ∷ enc_slots_duplicate_kem_material
    ∷ enc_slots_too_many ∷ enc_envelope_too_large ∷ enc_exclusivity_violation ∷ enc_no_key_path
    ∷ enc_requires_content_hash ∷ enc_passphrase_alg_unsupported ∷ enc_passphrase_salt_too_short
    ∷ enc_passphrase_salt_too_long ∷ enc_passphrase_argon2_params_too_low
    ∷ enc_passphrase_params_exceed_policy ∷ malformed_sig_cose_sign1 ∷ signature_unsupported
    ∷ sig_entry_invalid_shape ∷ sig_entry_kid_cose_key_conflict ∷ sig_private_key_leaked
    ∷ supersedes_tx_invalid_length ∷ extension_unsupported_critical ∷ crit_shape_invalid
    ∷ tx_not_found ∷ provider_unavailable ∷ tx_integrity_mismatch ∷ metadata_not_found
    ∷ insufficient_confirmations ∷ signature_invalid ∷ signer_key_unresolved
    ∷ wallet_address_mismatch ∷ uri_target_forbidden ∷ uri_integrity_mismatch
    ∷ uri_provider_integrity_mismatch ∷ uri_fetch_failed ∷ content_unavailable
    ∷ content_fetch_limit_exceeded ∷ ciphertext_unavailable ∷ service_independence_violation
    ∷ wrong_decryption_input_shape ∷ wrong_recipient_key ∷ tampered_header ∷ tampered_ciphertext
    ∷ kdf_derivation_failed ∷ enc_passphrase_unnormalizable ∷ enc_passphrase_empty
    ∷ schema_merkle_leaf_count_mismatch ∷ schema_merkle_leaves_format_unsupported
    ∷ schema_merkle_leaves_malformed ∷ merkle_root_mismatch ∷ merkle_leaves_unavailable
    ∷ merkle_unsupported ∷ out_of_profile_skipped ∷ []

pub data ErrorCodePart : Type 0 where
  part_a part_b carriage : ErrorCodePart

unfoldable pub error_code_part : ErrorCode → ErrorCodePart
error_code_part malformed_cbor = part_a
error_code_part schema_type_mismatch = part_a
error_code_part schema_missing_required = part_a
error_code_part schema_unknown_field = part_a
error_code_part schema_invalid_literal = part_a
error_code_part schema_empty_record = part_a
error_code_part hash_digest_length_mismatch = part_a
error_code_part unsupported_hash_alg = part_a
error_code_part unsupported_merkle_commit_alg = part_a
error_code_part schema_merkle_leaf_count_invalid = part_a
error_code_part invalid_uri = part_a
error_code_part chunk_too_large = carriage
error_code_part unauthenticated_cipher_forbidden = part_a
error_code_part unsupported_aead_alg = part_a
error_code_part nonce_length_mismatch = part_a
error_code_part unsupported_envelope_scheme = part_a
error_code_part enc_unsupported = part_a
error_code_part enc_slots_empty = part_a
error_code_part enc_slot_invalid_shape = part_a
error_code_part unsupported_kem_alg = part_a
error_code_part enc_kem_required = part_a
error_code_part kem_epk_length_mismatch = part_a
error_code_part kem_ct_length_mismatch = part_a
error_code_part wrap_length_mismatch = part_a
error_code_part enc_slots_mac_invalid_length = part_a
error_code_part enc_slots_mac_required = part_a
error_code_part enc_slots_required = part_a
error_code_part enc_slots_duplicate_kem_material = part_a
error_code_part enc_slots_too_many = part_a
error_code_part enc_envelope_too_large = part_a
error_code_part enc_exclusivity_violation = part_a
error_code_part enc_no_key_path = part_a
error_code_part enc_requires_content_hash = part_a
error_code_part enc_passphrase_alg_unsupported = part_a
error_code_part enc_passphrase_salt_too_short = part_a
error_code_part enc_passphrase_salt_too_long = part_a
error_code_part enc_passphrase_argon2_params_too_low = part_a
error_code_part enc_passphrase_params_exceed_policy = part_a
error_code_part malformed_sig_cose_sign1 = part_a
error_code_part signature_unsupported = part_a
error_code_part sig_entry_invalid_shape = part_a
error_code_part sig_entry_kid_cose_key_conflict = part_a
error_code_part sig_private_key_leaked = part_a
error_code_part supersedes_tx_invalid_length = part_a
error_code_part extension_unsupported_critical = part_a
error_code_part crit_shape_invalid = part_a
error_code_part tx_not_found = part_b
error_code_part provider_unavailable = part_b
error_code_part tx_integrity_mismatch = part_b
error_code_part metadata_not_found = part_b
error_code_part insufficient_confirmations = part_b
error_code_part signature_invalid = part_b
error_code_part signer_key_unresolved = part_b
error_code_part wallet_address_mismatch = part_b
error_code_part uri_target_forbidden = part_b
error_code_part uri_integrity_mismatch = part_b
error_code_part uri_provider_integrity_mismatch = part_b
error_code_part uri_fetch_failed = part_b
error_code_part content_unavailable = part_b
error_code_part content_fetch_limit_exceeded = part_b
error_code_part ciphertext_unavailable = part_b
error_code_part service_independence_violation = part_b
error_code_part wrong_decryption_input_shape = part_b
error_code_part wrong_recipient_key = part_b
error_code_part tampered_header = part_b
error_code_part tampered_ciphertext = part_b
error_code_part kdf_derivation_failed = part_b
error_code_part enc_passphrase_unnormalizable = part_b
error_code_part enc_passphrase_empty = part_b
error_code_part schema_merkle_leaf_count_mismatch = part_b
error_code_part schema_merkle_leaves_format_unsupported = part_b
error_code_part schema_merkle_leaves_malformed = part_b
error_code_part merkle_root_mismatch = part_b
error_code_part merkle_leaves_unavailable = part_b
error_code_part merkle_unsupported = part_b
error_code_part out_of_profile_skipped = part_b

pub data Severity : Type 0 where
  error warning info : Severity

unfoldable pub severity_of : ErrorCode → Severity
severity_of malformed_cbor = error
severity_of schema_type_mismatch = error
severity_of schema_missing_required = error
severity_of schema_unknown_field = error
severity_of schema_invalid_literal = error
severity_of schema_empty_record = error
severity_of hash_digest_length_mismatch = error
severity_of unsupported_hash_alg = error
severity_of unsupported_merkle_commit_alg = error
severity_of schema_merkle_leaf_count_invalid = error
severity_of invalid_uri = error
severity_of chunk_too_large = error
severity_of unauthenticated_cipher_forbidden = error
severity_of unsupported_aead_alg = error
severity_of nonce_length_mismatch = error
severity_of unsupported_envelope_scheme = error
severity_of enc_unsupported = info
severity_of enc_slots_empty = error
severity_of enc_slot_invalid_shape = error
severity_of unsupported_kem_alg = error
severity_of enc_kem_required = error
severity_of kem_epk_length_mismatch = error
severity_of kem_ct_length_mismatch = error
severity_of wrap_length_mismatch = error
severity_of enc_slots_mac_invalid_length = error
severity_of enc_slots_mac_required = error
severity_of enc_slots_required = error
severity_of enc_slots_duplicate_kem_material = error
severity_of enc_slots_too_many = error
severity_of enc_envelope_too_large = error
severity_of enc_exclusivity_violation = error
severity_of enc_no_key_path = error
severity_of enc_requires_content_hash = error
severity_of enc_passphrase_alg_unsupported = error
severity_of enc_passphrase_salt_too_short = error
severity_of enc_passphrase_salt_too_long = error
severity_of enc_passphrase_argon2_params_too_low = error
severity_of enc_passphrase_params_exceed_policy = error
severity_of malformed_sig_cose_sign1 = error
severity_of signature_unsupported = info
severity_of sig_entry_invalid_shape = error
severity_of sig_entry_kid_cose_key_conflict = error
severity_of sig_private_key_leaked = error
severity_of supersedes_tx_invalid_length = error
severity_of extension_unsupported_critical = error
severity_of crit_shape_invalid = error
severity_of tx_not_found = error
severity_of provider_unavailable = error
severity_of tx_integrity_mismatch = error
severity_of metadata_not_found = error
severity_of insufficient_confirmations = info
severity_of signature_invalid = error
severity_of signer_key_unresolved = error
severity_of wallet_address_mismatch = error
severity_of uri_target_forbidden = error
severity_of uri_integrity_mismatch = error
severity_of uri_provider_integrity_mismatch = warning
severity_of uri_fetch_failed = warning
severity_of content_unavailable = error
severity_of content_fetch_limit_exceeded = error
severity_of ciphertext_unavailable = error
severity_of service_independence_violation = error
severity_of wrong_decryption_input_shape = error
severity_of wrong_recipient_key = error
severity_of tampered_header = error
severity_of tampered_ciphertext = error
severity_of kdf_derivation_failed = error
severity_of enc_passphrase_unnormalizable = error
severity_of enc_passphrase_empty = error
severity_of schema_merkle_leaf_count_mismatch = error
severity_of schema_merkle_leaves_format_unsupported = error
severity_of schema_merkle_leaves_malformed = error
severity_of merkle_root_mismatch = error
severity_of merkle_leaves_unavailable = warning
severity_of merkle_unsupported = info
severity_of out_of_profile_skipped = info

unfoldable pub is_dual_severity : ErrorCode → Bool
is_dual_severity enc_unsupported = true
is_dual_severity merkle_leaves_unavailable = true
is_dual_severity merkle_unsupported = true
is_dual_severity out_of_profile_skipped = true
is_dual_severity _ = false

unfoldable pub ErrorCode-discrete : Discrete ErrorCode
ErrorCode-discrete = hlevel

-- The position of a code in a list, the list's length if it is not there.
unfoldable pub index_in : List ErrorCode → ErrorCode → ℕ
index_in [] code = 0
index_in (c ∷ codes) code =
    let rest = suc (index_in codes code) in
    elim (ErrorCode-discrete c code) [ yes _ ↦ 0 | no _ ↦ rest ]

unfoldable pub error_code_registry_index : ErrorCode → ℕ
unfolding index_in ErrorCode-discrete error_codes
error_code_registry_index code = index_in error_codes code

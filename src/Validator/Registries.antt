-- ===== src/Validator/Registries.antt =====
-- src/cardanowall/poe_standard/validator.py: the registries, and the options of `validate`.
use label_309_py.Prelude.{ℕ, Bool, Option, none, some, List, [], ◌∷◌, ◌||◌, if◌then◌else◌, codes}
use label_309_py.Bytes.{bytes_eq}
use label_309_py.ErrorCodes.{ErrorCode, kem_epk_length_mismatch, kem_ct_length_mismatch}
use label_309_py.Cbor.{Text, is_member}

pub data ValidatorRole : Type 0 where
  public recipient_or_strict : ValidatorRole

pub record Argon2Params : Type 0 where
  pub m : ℕ
  pub t : ℕ
  pub p : ℕ

-- `_ResolvedOptions`
pub record Options : Type 0 where
  pub supported_critical_extensions : List Text
  pub role : ValidatorRole
  pub max_slots : ℕ
  pub max_enc_envelope_bytes : ℕ
  pub passphrase_params_ceiling : Option Argon2Params

abbrev pub default_options : Options
default_options = record {
  supported_critical_extensions = [];
  role = public;
  max_slots = 1024;
  max_enc_envelope_bytes = 65536;
  passphrase_params_ceiling = some (record { m = 2097152; t = 16; p = 8 });
}

-- What the validator can raise: a KeyError, a TypeError, or what the encoder raises.
pub data Raised : Type 0 where
  key_error type_error encode_error : Raised

unfoldable pub hash_alg_length : Text → Option ℕ
hash_alg_length alg =
    if bytes_eq alg (codes "sha2-256") || bytes_eq alg (codes "blake2b-256") then some 32 else none

unfoldable pub merkle_commit_alg_length : Text → Option ℕ
merkle_commit_alg_length alg = if bytes_eq alg (codes "rfc9162-sha256") then some 32 else none

unfoldable pub aead_nonce_length : Text → Option ℕ
aead_nonce_length aead =
    if bytes_eq aead (codes "chacha20-poly1305-stream64k") then some 24 else none

pub data KemSlotField : Type 0 where
  epk kem_ct : KemSlotField

pub record KemSlotDescriptor : Type 0 where
  pub field : KemSlotField
  pub field_length : ℕ
  pub wrap_length : ℕ

unfoldable pub kem_slot_descriptor : Text → Option KemSlotDescriptor
kem_slot_descriptor kem =
    let x25519 : KemSlotDescriptor = record { field = epk; field_length = 32; wrap_length = 48 } in
    let hybrid : KemSlotDescriptor = record {
      field = kem_ct;
      field_length = 1120;
      wrap_length = 48;
    } in
    if bytes_eq kem (codes "x25519")
    then some x25519
    else if bytes_eq kem (codes "mlkem768x25519")
    then some hybrid
    else none

abbrev pub field_name : KemSlotField → Text
field_name epk = codes "epk"
field_name kem_ct = codes "kem_ct"

abbrev pub foreign_field : KemSlotField → KemSlotField
foreign_field epk = kem_ct
foreign_field kem_ct = epk

unfoldable pub field_length_code : KemSlotField → ErrorCode
field_length_code epk = kem_epk_length_mismatch
field_length_code kem_ct = kem_ct_length_mismatch

unfoldable pub is_passphrase_kdf_alg : Text → Bool
is_passphrase_kdf_alg alg = is_member alg (codes "argon2id" ∷ [])

abbrev pub uint32_max : ℕ
uint32_max = 4294967295

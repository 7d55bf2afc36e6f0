-- ===== src/Cid.antt =====
-- src/cardanowall/verifier/content_binding.py: the identifiers of ipfs URIs, and the binding of
-- fetched bytes to one. The hash functions are parameters.
pub mod Binding
mod Runs
use label_309_py.Prelude.{
  ℕ, zero, suc, ◌+◌, ◌-◌, ◌*◌, ◌/◌, ◌%◌, ◌^◌, Bool, true, false, not, ◌&&◌, ◌||◌, Option, none,
  some, List, [], ◌∷◌, ◌++◌, map, ltb, ◌==◌, if◌then◌else◌, length, codes,
}
use label_309_py.Bytes.{Bytes, bytes_eq, to_bytes_big}
use label_309_py.Merkle.{bit_length}
use label_309_py.TxBinding.{lower}

abbrev pub Text : Type 0
Text = List ℕ

pub record ParsedCid : Type 0 where
  pub version : ℕ
  pub codec : ℕ
  pub multihash_code : ℕ
  pub digest : Bytes

abbrev pub codec_raw : ℕ
codec_raw = 85

abbrev pub codec_dag_pb : ℕ
codec_dag_pb = 112

abbrev pub multihash_sha2_256 : ℕ
multihash_sha2_256 = 18

abbrev pub multihash_blake2b_256 : ℕ
multihash_blake2b_256 = 45600

abbrev pub b58_alphabet : Text
b58_alphabet = codes "123456789ABCDEFGHJKLMNPQRSTUVWXYZabcdefghijkmnopqrstuvwxyz"

abbrev pub b32_alphabet : Text
b32_alphabet = codes "abcdefghijklmnopqrstuvwxyz234567"

abbrev pub b16_digits : Text
b16_digits = codes "0123456789abcdef"

abbrev pub next_position : Option ℕ → Option ℕ
next_position none = none
next_position (some i) = some (suc i)

-- The place of a character in an alphabet, as in the dictionaries of the program.
unfoldable pub position : Text → ℕ → Option ℕ
position [] c = none
position (a ∷ alphabet) c =
    let later = next_position (position alphabet c) in if a == c then some 0 else later

unfoldable pub base58_value : Text → ℕ → Option ℕ
base58_value [] value = some value
base58_value (c ∷ cs) value = elim (position b58_alphabet c) [
  | none ↦ none
  | some idx ↦ base58_value cs (value * 58 + idx)
]

-- The zero bytes that leading '1' characters stand for.
unfoldable pub leading_zeros : Text → Bytes
leading_zeros [] = []
leading_zeros (c ∷ cs) = let rest = leading_zeros cs in if c == b'1' then 0 ∷ rest else []

abbrev pub base58_bytes : Text → Option ℕ → Option Bytes
base58_bytes s none = none
base58_bytes s (some value) =
    some (leading_zeros s ++ to_bytes_big ((bit_length value + 7) / 8) value)

unfoldable pub base58_decode : Text → Option Bytes
base58_decode s = if length s == 0 then none else base58_bytes s (base58_value s 0)

-- The loop over the characters, with the bits read and how many of them wait.
unfoldable pub base32_loop : Text → ℕ → ℕ → Bytes → Option Bytes
base32_loop [] acc bits out = if acc % 2 ^ bits == 0 then some out else none
base32_loop (c ∷ cs) acc bits out = elim (position b32_alphabet c) [
  | none ↦ none
  | some idx ↦
      let acc' = acc * 32 + idx in
      let full =
        base32_loop cs acc' (bits + 5 - 8) (out ++ (acc' / 2 ^ (bits + 5 - 8)) % 256 ∷ []) in
      let short = base32_loop cs acc' (bits + 5) out in if ltb (bits + 5) 8 then short else full
]

unfoldable pub base32_decode : Text → Option Bytes
base32_decode s = base32_loop s 0 0 []

abbrev pub both_digits : Option ℕ → Option ℕ → Option Bytes → Option Bytes
both_digits (some high) (some low) (some rest) = some ((16 * high + low) ∷ rest)
both_digits (some high) (some low) none = none
both_digits (some high) none rest = none
both_digits none low rest = none

unfoldable pub base16_decode : Text → Option Bytes
base16_decode [] = some []
base16_decode (c ∷ []) = none
base16_decode (c ∷ d ∷ cs) =
    both_digits (position b16_digits c) (position b16_digits d) (base16_decode cs)

-- The value, and what follows it. Below the shift, `|` is the sum.
unfoldable pub read_varint : Bytes → ℕ → ℕ → Option (ℕ × Bytes)
read_varint [] value shift = none
read_varint (byte ∷ rest) value shift =
    let value' = value + (byte % 128) * 2 ^ shift in
    let longer = read_varint rest value' (shift + 7) in
    if ltb 28 shift then none else if ltb byte 128 then some (value', rest) else longer

abbrev pub and_then {ℓ κ} : {A : Type ℓ} {B : Type κ} → Option A → (A → Option B) → Option B
and_then none more = none
and_then (some a) more = more a

-- A CIDv0 after base58: its two-byte header, and the digest.
abbrev pub parse_v0 : Bytes → Option ParsedCid
parse_v0 [] = none
parse_v0 (code ∷ []) = none
parse_v0 (code ∷ size ∷ digest) =
    let parsed : ParsedCid = record {
      version = 0;
      codec = codec_dag_pb;
      multihash_code = multihash_sha2_256;
      digest = digest;
    } in
    if length digest == 32 && code == multihash_sha2_256 && size == 32 then some parsed else none

-- The fields of a CIDv1, one after the other.
unfoldable pub parse_v1 : Bytes → Option ParsedCid
parse_v1 decoded = and_then (read_varint decoded 0 0) λ (version, after_version).
    and_then (if version == 1 then read_varint after_version 0 0 else none) λ (codec, after_codec).
      and_then (read_varint after_codec 0 0) λ (mh_code, after_code).
        and_then (read_varint after_code 0 0) λ (mh_length, digest).
          if length digest == mh_length
          then some
              (record { version = 1; codec = codec; multihash_code = mh_code; digest = digest })
          else none

-- `str.lower` as far as it decides: of the code points beyond ASCII only the Kelvin sign has a lower
-- case of one ASCII character.
abbrev pub lower_body : Text → Text
lower_body body = map (λ c. if c == 8490 then b'k' else c) (lower body)

unfoldable pub decode_multibase : ℕ → Text → Option Bytes
decode_multibase prefix body =
    if prefix == b'b'
    then base32_decode body
    else if prefix == b'B'
    then base32_decode (lower_body body)
    else if prefix == b'f'
    then base16_decode body
    else if prefix == b'F'
    then base16_decode (lower_body body)
    else if prefix == b'z'
    then base58_decode body
    else none

abbrev pub is_v0 : Text → Bool
is_v0 [] = false
is_v0 (q ∷ []) = false
is_v0 (q ∷ m ∷ cs) = q == b'Q' && m == b'm' && length cs == 44

unfoldable pub parse_cid : Text → Option ParsedCid
parse_cid [] = none
parse_cid (prefix ∷ body) =
    if is_v0 (prefix ∷ body)
    then and_then (base58_decode (prefix ∷ body)) parse_v0
    else and_then (decode_multibase prefix body) parse_v1

pub data CidBindingOutcome : Type 0 where
  verified failed unsupported : CidBindingOutcome

abbrev pub compare_digest : Bytes → Bytes → CidBindingOutcome
compare_digest computed digest = if bytes_eq computed digest then verified else failed

module _ (sha256 blake2b_256 : Bytes → Bytes) where
  unfoldable pub bind_parsed : Option ParsedCid → Bytes → CidBindingOutcome
  bind_parsed none data_ = unsupported
  bind_parsed (some parsed) data_ =
      if not (parsed.version == 1 && parsed.codec == codec_raw)
      then unsupported
      else if parsed.multihash_code == multihash_sha2_256
      then compare_digest (sha256 data_) parsed.digest
      else if parsed.multihash_code == multihash_blake2b_256
      then compare_digest (blake2b_256 data_) parsed.digest
      else unsupported

  unfoldable pub verify_ipfs_cid_binding : Text → Text → Bytes → CidBindingOutcome
  verify_ipfs_cid_binding cid path data_ =
      if not (length path == 0) then unsupported else bind_parsed (parse_cid cid) data_

  -- `AcquiredBlob.attributable`, for bytes that were fetched under an ipfs URI.
  unfoldable pub is_bound : Text → Text → Bytes → Bool
  is_bound cid path data_ = elim (verify_ipfs_cid_binding cid path data_) [
    | verified ↦ true
    | failed ↦ false
    | unsupported ↦ false
  ]

-- ===== src/CidProfile.antt =====
-- src/cardanowall/poe_standard/cid_profile.py: which texts are content identifiers of the profile. Its
-- decoders are the program's second ones, looser than those of Cid in places.
use label_309_py.Prelude.{
  ℕ, ◌+◌, ◌-◌, ◌*◌, ◌/◌, ◌%◌, ◌^◌, Bool, false, not, ◌&&◌, ◌||◌, Option, none, some, List, [], ◌∷◌,
  ◌++◌, ltb, ◌==◌, if◌then◌else◌, length, codes,
}
use label_309_py.Bytes.{Bytes, to_bytes_big}
use label_309_py.Merkle.{bit_length}
use label_309_py.Cid.{position, base58_value, leading_zeros}

abbrev pub Text : Type 0
Text = List ℕ

abbrev pub b32_alpha_lower : Text
b32_alpha_lower = codes "abcdefghijklmnopqrstuvwxyz234567"

abbrev pub b32_alpha_upper : Text
b32_alpha_upper = codes "ABCDEFGHIJKLMNOPQRSTUVWXYZ234567"

abbrev pub b16_alpha_lower : Text
b16_alpha_lower = codes "0123456789abcdef"

abbrev pub b16_alpha_upper : Text
b16_alpha_upper = codes "0123456789ABCDEF"

abbrev pub b58_bytes : Text → Option ℕ → Option Bytes
b58_bytes s none = none
b58_bytes s (some n) = some (leading_zeros s ++ to_bytes_big ((bit_length n + 7) / 8) n)

-- The empty text decodes to no bytes, as the loop has it.
unfoldable pub b58_decode : Text → Option Bytes
b58_decode s = b58_bytes s (base58_value s 0)

-- `s.rstrip("=")`
unfoldable pub strip_padding : Text → Text
strip_padding [] = []
strip_padding (c ∷ cs) =
    let rest = strip_padding cs in if length rest == 0 && c == b'=' then [] else c ∷ rest

-- Bits behind the last byte are ignored.
unfoldable pub b32_loop : Text → Text → ℕ → ℕ → Bytes → Option Bytes
b32_loop alphabet [] buffer bits out = some out
b32_loop alphabet (c ∷ cs) buffer bits out = elim (position alphabet c) [
  | none ↦ none
  | some v ↦
      let buffer' = buffer * 32 + v in
      let full =
        b32_loop alphabet cs buffer' (bits + 5 - 8)
          (out ++ (buffer' / 2 ^ (bits + 5 - 8)) % 256 ∷ []) in
      let short = b32_loop alphabet cs buffer' (bits + 5) out in
      if ltb (bits + 5) 8 then short else full
]

unfoldable pub b32_decode : Text → Text → Option Bytes
b32_decode alphabet s = b32_loop alphabet (strip_padding s) 0 0 []

abbrev pub join_digits : Option ℕ → Option ℕ → Option Bytes → Option Bytes
join_digits (some high) (some low) (some rest) = some ((16 * high + low) ∷ rest)
join_digits (some high) (some low) none = none
join_digits (some high) none rest = none
join_digits none low rest = none

unfoldable pub b16_decode : Text → Text → Option Bytes
b16_decode alphabet [] = some []
b16_decode alphabet (c ∷ []) = none
b16_decode alphabet (c ∷ d ∷ cs) =
    join_digits (position alphabet c) (position alphabet d) (b16_decode alphabet cs)

-- The value, and what follows it. Below the shift, `|` is the sum.
unfoldable pub read_varint : Bytes → ℕ → ℕ → Option (ℕ × Bytes)
read_varint [] value shift = none
read_varint (b ∷ rest) value shift =
    let value' = value + (b % 128) * 2 ^ shift in
    let longer = read_varint rest value' (shift + 7) in
    if ltb b 128 then some (value', rest) else if ltb 28 (shift + 7) then none else longer

abbrev pub holds_after : Option (ℕ × Bytes) → (ℕ → Bytes → Bool) → Bool
holds_after none test = false
holds_after (some (value, rest)) test = test value rest

abbrev pub is_cidv0_multihash : Option Bytes → Bool
is_cidv0_multihash none = false
is_cidv0_multihash (some []) = false
is_cidv0_multihash (some (b ∷ [])) = false
is_cidv0_multihash (some (b ∷ c ∷ digest)) = length digest == 32 && b == 18 && c == 32

unfoldable pub is_valid_cidv0 : Text → Bool
is_valid_cidv0 s = is_cidv0_multihash (b58_decode s)

-- `RECOGNISED_CIDV1_CODECS`
unfoldable pub is_recognised_codec : ℕ → Bool
is_recognised_codec codec = codec == 85 || codec == 112 || codec == 113

-- `RECOGNISED_MULTIHASH.get`
unfoldable pub recognised_digest_length : ℕ → Option ℕ
recognised_digest_length code = if code == 18 || code == 45600 then some 32 else none

abbrev pub is_digest : Option ℕ → ℕ → Bytes → Bool
is_digest none size digest = false
is_digest (some expected) size digest = size == expected && length digest == size

abbrev pub decode_prefixed : ℕ → Text → Option Bytes
decode_prefixed prefix rest =
    if prefix == b'b'
    then b32_decode b32_alpha_lower rest
    else if prefix == b'B'
    then b32_decode b32_alpha_upper rest
    else if prefix == b'f'
    then b16_decode b16_alpha_lower rest
    else if prefix == b'F'
    then b16_decode b16_alpha_upper rest
    else if prefix == b'z'
    then b58_decode rest
    else none

-- Version, codec, multihash code and length, and the digest.
unfoldable pub is_cidv1_payload : Option Bytes → Bool
is_cidv1_payload none = false
is_cidv1_payload (some payload) =
    not (ltb (length payload) 4)
    && holds_after (read_varint payload 0 0) λ version rest.
      version == 1
      && holds_after (read_varint rest 0 0) λ codec rest'.
        is_recognised_codec codec
        && holds_after (read_varint rest' 0 0) λ multihash rest''.
          holds_after (read_varint rest'' 0 0)
            λ size digest. is_digest (recognised_digest_length multihash) size digest

unfoldable pub is_valid_cidv1 : Text → Bool
is_valid_cidv1 [] = false
is_valid_cidv1 (prefix ∷ rest) = is_cidv1_payload (decode_prefixed prefix rest)

abbrev pub starts_with_qm : Text → Bool
starts_with_qm [] = false
starts_with_qm (q ∷ []) = false
starts_with_qm (q ∷ m ∷ cs) = q == b'Q' && m == b'm'

unfoldable pub is_valid_cid : Text → Bool
is_valid_cid s =
    if length s == 0 then false else if starts_with_qm s then is_valid_cidv0 s else is_valid_cidv1 s

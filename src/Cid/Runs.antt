-- ===== src/Cid/Runs.antt =====
-- The identifiers at concrete inputs.
use label_309_py.Prelude.{
  ℕ, zero, suc, ◌<◌, All, ◌≡◌, refl, ◌⊎◌, some, none, [], ◌∷◌, if◌then◌else◌, arith, codes,
}
use label_309_py.Bytes.{Bytes, bytes_eq, Collision, to_bytes_big}
use label_309_py.Fixtures.{toy_digest, length-toy_digest, pad}
use label_309_py.Merkle.{bit_length, bit_length_upto}
use label_309_py.TxBinding.{hex, hex_digit}
use label_309_py.Cid.{
  position, base58_value, leading_zeros, base58_decode, base32_loop, base32_decode, base16_decode,
  read_varint, parse_v1, decode_multibase, parse_cid, verified, failed, bind_parsed,
  verify_ipfs_cid_binding,
}
use label_309_py.Cid.Binding.{
  raw_cid, verify_ipfs_cid_binding_unique, verify_ipfs_cid_binding-raw_cid,
}

-- RFC 4648, without the padding.
base32_word : base32_decode (codes "mzxw6ytb") ≡ some (codes "fooba")
unfolding base32_decode base32_loop position
base32_word = refl

-- Bits behind the last byte that are not zero.
base32_stray_bits : base32_decode (codes "mb") ≡ none
unfolding base32_decode base32_loop position
base32_stray_bits = refl

base58_word : base58_decode (codes "1112") ≡ some (0 ∷ 0 ∷ 0 ∷ 1 ∷ [])
unfolding base58_decode base58_value position leading_zeros to_bytes_big bit_length bit_length_upto
base58_word = refl

varint_of_two_bytes : read_varint (160 ∷ 228 ∷ 2 ∷ 7 ∷ []) 0 0 ≡ some (45600, 7 ∷ [])
unfolding read_varint
varint_of_two_bytes = refl

abbrev content : Bytes
content = 5 ∷ 200 ∷ []

own_cid :
    verify_ipfs_cid_binding toy_digest toy_digest (raw_cid (toy_digest content)) [] content
    ≡ verified
unfolding verify_ipfs_cid_binding bind_parsed parse_cid decode_multibase parse_v1 read_varint
    base16_decode position hex hex_digit bytes_eq
own_cid = refl

verify_ipfs_cid_binding_unique_example :
    (content ≡ content) ⊎ (Collision toy_digest ⊎ Collision toy_digest)
verify_ipfs_cid_binding_unique_example =
    verify_ipfs_cid_binding_unique toy_digest toy_digest (raw_cid (toy_digest content)) [] content
      content own_cid own_cid

All-pad : (n : ℕ) (bs : Bytes) → All (λ b. b < 256) bs → All (λ b. b < 256) (pad n bs)
All-pad zero bs h = tt
All-pad (suc n) [] h = (omega arith, All-pad n [] h)
All-pad (suc n) (b ∷ bs) h = (h.0, All-pad n bs h.1)

verify_ipfs_cid_binding-raw_cid_example :
    verify_ipfs_cid_binding toy_digest toy_digest (raw_cid (toy_digest content)) [] (1 ∷ content)
    ≡ (if bytes_eq (toy_digest (1 ∷ content)) (toy_digest content) then verified else failed)
verify_ipfs_cid_binding-raw_cid_example =
    verify_ipfs_cid_binding-raw_cid toy_digest toy_digest (toy_digest content) (1 ∷ content)
      (length-toy_digest content) (All-pad 32 content (omega arith, (omega arith, tt)))

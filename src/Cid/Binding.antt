-- ===== src/Cid/Binding.antt =====
-- Content identifiers bind bytes up to collisions, and those of the raw codec in base 16 bind exactly
-- the bytes with their digest.
use label_309_py.Prelude.{
  ℕ, ◌+◌, ◌*◌, ◌/◌, ◌%◌, ◌<◌, ◌≡◌, ◌≢◌, refl, sym, ◌∙◌, ◌⊎◌, inl, inr, Option, none, some, [], ◌∷◌,
  if◌then◌else◌, All, length, arith, Bool-cases,
}
use label_309_py.Bytes.{Bytes, bytes_eq, bytes_eq-eq, Collision, eq_or_Collision}
use label_309_py.TxBinding.{hex_digit, hex}
use label_309_py.Cid.{
  Text, ParsedCid, verified, failed, compare_digest, bind_parsed, verify_ipfs_cid_binding,
  parse_cid, position, b16_digits, base16_decode, decode_multibase, parse_v1, read_varint,
  codec_raw, multihash_sha2_256,
}

module _ (sha256 blake2b_256 : Bytes → Bytes) where
  compare_digest-verified :
      (computed digest : Bytes) → compare_digest computed digest ≡ verified → computed ≡ digest
  compare_digest-verified computed digest h = elim (Bool-cases (bytes_eq computed digest)) [
    | inl same ↦ bytes_eq-eq computed digest same
    | inr other ↦ absurd (let f = rw other at h in cc)
  ]

  -- Which digest a parsed identifier is compared with.
  bind_parsed-verified :
      (parsed : ParsedCid) (data_ : Bytes)
      → bind_parsed sha256 blake2b_256 (some parsed) data_ ≡ verified
      → ((parsed.multihash_code ≡ multihash_sha2_256) × (sha256 data_ ≡ parsed.digest))
        ⊎ ((parsed.multihash_code ≢ multihash_sha2_256) × (blake2b_256 data_ ≡ parsed.digest))
  unfolding bind_parsed
  bind_parsed-verified parsed data_ h = ground (
    arith,
    compare_digest-verified (sha256 data_) parsed.digest,
    compare_digest-verified (blake2b_256 data_) parsed.digest,
  )

  bind_parsed_unique :
      (parsed : Option ParsedCid) (data₁ data₂ : Bytes)
      → bind_parsed sha256 blake2b_256 parsed data₁ ≡ verified
      → bind_parsed sha256 blake2b_256 parsed data₂ ≡ verified
      → (data₁ ≡ data₂) ⊎ (Collision sha256 ⊎ Collision blake2b_256)
  unfolding bind_parsed
  bind_parsed_unique none data₁ data₂ first second = cc
  bind_parsed_unique (some parsed) data₁ data₂ first second =
      elim (bind_parsed-verified parsed data₁ first) [
        | inl (code, e) ↦ elim (bind_parsed-verified parsed data₂ second) [
          | inl (code', e') ↦ elim (eq_or_Collision sha256 data₁ data₂ (e ∙ sym e')) [
            | inl same ↦ inl same
            | inr c ↦ inr (inl c)
          ]
          | inr (other, e') ↦ absurd (other code)
        ]
        | inr (code, e) ↦ elim (bind_parsed-verified parsed data₂ second) [
          | inl (code', e') ↦ absurd (code code')
          | inr (other, e') ↦ elim (eq_or_Collision blake2b_256 data₁ data₂ (e ∙ sym e')) [
            | inl same ↦ inl same
            | inr c ↦ inr (inr c)
          ]
        ]
      ]

position-hex_digit : (d : ℕ) → d < 16 → position b16_digits (hex_digit d) ≡ some d
unfolding position hex_digit
position-hex_digit d h = ground arith

base16_decode-hex : (bs : Bytes) → All (λ b. b < 256) bs → base16_decode (hex bs) ≡ some bs
unfolding base16_decode hex
base16_decode-hex [] h = refl
base16_decode-hex (b ∷ bs) h =
    let e : 16 * (b / 16) + b % 16 ≡ b = omega arith in
    rw
      (
        position-hex_digit (b / 16) (omega (arith, h.0)),
        position-hex_digit (b % 16) (omega arith),
        base16_decode-hex bs h.1,
        e,
      )
      refl

-- A CIDv1 in base 16 of the raw codec, with a SHA-256 multihash of 32 bytes.
abbrev pub raw_cid : Bytes → Text
raw_cid digest = b'f' ∷ hex (1 ∷ 85 ∷ 18 ∷ 32 ∷ digest)

parse_cid-raw_cid :
    (digest : Bytes)
    → length digest ≡ 32
    → All (λ b. b < 256) digest
    → parse_cid (raw_cid digest)
      ≡ some (record {
        version = 1;
        codec = codec_raw;
        multihash_code = multihash_sha2_256;
        digest = digest;
      })
unfolding parse_cid decode_multibase parse_v1 read_varint hex
parse_cid-raw_cid digest size bytes =
    rw
      (
        base16_decode-hex (1 ∷ 85 ∷ 18 ∷ 32 ∷ digest)
            (omega arith, (omega arith, (omega arith, (omega arith, bytes)))),
        size,
      )
      refl

module _ (sha256 blake2b_256 : Bytes → Bytes) where
  -- Two byte strings that are verified against one identifier are the same, unless two inputs with
  -- one SHA-256 digest or two with one BLAKE2b-256 digest are at hand.
  pub verify_ipfs_cid_binding_unique :
      (cid path : Text) (data₁ data₂ : Bytes)
      → verify_ipfs_cid_binding sha256 blake2b_256 cid path data₁ ≡ verified
      → verify_ipfs_cid_binding sha256 blake2b_256 cid path data₂ ≡ verified
      → (data₁ ≡ data₂) ⊎ (Collision sha256 ⊎ Collision blake2b_256)
  unfolding verify_ipfs_cid_binding
  verify_ipfs_cid_binding_unique cid [] data₁ data₂ first second =
      bind_parsed_unique sha256 blake2b_256 (parse_cid cid) data₁ data₂ first second
  verify_ipfs_cid_binding_unique cid (c ∷ path) data₁ data₂ first second = ground arith

  -- Bytes are verified against the base-16 CIDv1 of the raw codec with a SHA-256 digest of 32 bytes
  -- exactly when they have that digest, and fail the binding otherwise.
  pub verify_ipfs_cid_binding-raw_cid :
      (digest data_ : Bytes)
      → length digest ≡ 32
      → All (λ b. b < 256) digest
      → verify_ipfs_cid_binding sha256 blake2b_256 (raw_cid digest) [] data_
        ≡ (if bytes_eq (sha256 data_) digest then verified else failed)
  unfolding verify_ipfs_cid_binding bind_parsed
  verify_ipfs_cid_binding-raw_cid digest data_ size bytes =
      rw (parse_cid-raw_cid digest size bytes) refl

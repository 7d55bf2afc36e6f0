-- ===== src/Fixtures.antt =====
-- Concrete stand-ins for the libraries that the program calls, for runs of the models: a 32-byte
-- digest and an AEAD with a 16-byte tag, both without any cryptographic strength.
use label_309_py.Prelude.{
  ℕ, zero, suc, ◌+◌, ◌≡◌, refl, sym, ap, ◌∙◌, ◌++◌, [], ◌∷◌, some, none, if◌then◌else◌, length,
  length-append, take, drop, take-append, drop-append, take-append-drop, arith, Bool-cases, inl,
  inr,
}
use label_309_py.Bytes.{Bytes, bytes_eq, bytes_eq-eq, bytes_eq_self}
use label_309_py.Stream.{Encrypt, Decrypt}
use label_309_py.Stream.Layout.{IsAead}

-- The first `n` bytes, with zeros where there are fewer.
abbrev pub pad : ℕ → Bytes → Bytes
pad zero x = []
pad (suc n) [] = 0 ∷ pad n []
pad (suc n) (b ∷ x) = b ∷ pad n x

pub length-pad : (n : ℕ) (x : Bytes) → length (pad n x) ≡ n
length-pad zero x = refl
length-pad (suc n) [] = ap suc (length-pad n [])
length-pad (suc n) (b ∷ x) = ap suc (length-pad n x)

abbrev pub toy_digest : Bytes → Bytes
toy_digest x = pad 32 x

pub length-toy_digest : (x : Bytes) → length (toy_digest x) ≡ 32
length-toy_digest x = length-pad 32 x

abbrev pub toy_encrypt : Encrypt
toy_encrypt key nonce aad p = pad 16 nonce ++ p

unfoldable pub toy_decrypt : Decrypt
toy_decrypt key nonce aad c = if bytes_eq (take 16 c) (pad 16 nonce) then some (drop 16 c) else none

toy_opens :
    (key nonce aad p : Bytes) → toy_decrypt key nonce aad (toy_encrypt key nonce aad p) ≡ some p
unfolding toy_decrypt
toy_opens key nonce aad p =
    let tag = pad 16 nonce in
    rw (
      take-append tag p 16 (sym (length-pad 16 nonce)),
      bytes_eq_self tag,
      drop-append tag p 16 (sym (length-pad 16 nonce)),
    )

toy_only :
    (key nonce aad c p : Bytes)
    → toy_decrypt key nonce aad c ≡ some p
    → c ≡ toy_encrypt key nonce aad p
unfolding toy_decrypt
toy_only key nonce aad c p e = elim (Bool-cases (bytes_eq (take 16 c) (pad 16 nonce))) [
  | inl same ↦
      let rest = rw same at e in
      sym (take-append-drop 16 c) ∙ cc (bytes_eq-eq (take 16 c) (pad 16 nonce) same, rest)
  | inr other ↦ absurd (let none_some = rw other at e in cc)
]

toy_tagged : (key nonce aad p : Bytes) → length (toy_encrypt key nonce aad p) ≡ length p + 16
toy_tagged key nonce aad p = omega (arith, length-append (pad 16 nonce) p, length-pad 16 nonce)

pub toy-IsAead : IsAead toy_encrypt toy_decrypt
toy-IsAead = record { opens = toy_opens; only = toy_only; tagged = toy_tagged }

-- ===== src/Stream/Layout.antt =====
-- The STREAM format of stream.py as an inductive family, and the chunk operations on it.
use label_309_py.Prelude.{ℕ, ◌+◌, ◌≤◌, ◌≡◌, true, false, some, [], ◌++◌, ok, length, arith}
use label_309_py.Bytes.{Bytes}
use label_309_py.Stream.{
  chunk_size, max_counter, chunk_nonce, Machine, Encrypt, Decrypt, seal_chunk, open_chunk,
  check_plaintext, check_sealed,
}

-- Either machine before its final chunk.
abbrev pub running : Bytes → ℕ → Machine
running key counter = record { key = key; counter = counter; finished = false }

abbrev pub stopped : Bytes → ℕ → Machine
stopped key counter = record { key = key; counter = counter; finished = true }

-- `Sealed key n p c`: `c` is the sequence of sealed chunks of `p` whose first has number `n`.
pub data Sealed (encrypt : Encrypt) (key : Bytes) : ℕ → Bytes → Bytes → Type 0 where
  last :
      {counter : ℕ} {plaintext : Bytes}
      → counter ≤ max_counter
      → length plaintext ≤ chunk_size
      → (length plaintext ≡ 0 → counter ≡ 0)
      → Sealed encrypt key counter plaintext (encrypt key (chunk_nonce counter true) [] plaintext)
  more :
      {counter : ℕ} {plaintext rest sealed_rest : Bytes} (chunk : Bytes)
      → counter ≤ max_counter
      → plaintext ≡ chunk ++ rest
      → length chunk ≡ chunk_size
      → 1 ≤ length rest
      → Sealed encrypt key (counter + 1) rest sealed_rest
      → Sealed encrypt key counter plaintext
          (encrypt key (chunk_nonce counter false) [] chunk ++ sealed_rest)

module _ (encrypt : Encrypt) (key : Bytes) (n : ℕ) (p : Bytes) where
  pub seal_chunk_inner :
      n ≤ max_counter
      → length p ≡ chunk_size
      → seal_chunk encrypt (running key n) p false
        ≡ ok (encrypt key (chunk_nonce n false) [] p, running key (n + 1))
  unfolding seal_chunk check_plaintext
  seal_chunk_inner few size = ground arith

  pub seal_chunk_final :
      n ≤ max_counter
      → length p ≤ chunk_size
      → (length p ≡ 0 → n ≡ 0)
      → seal_chunk encrypt (running key n) p true
        ≡ ok (encrypt key (chunk_nonce n true) [] p, stopped key (n + 1))
  unfolding seal_chunk check_plaintext
  seal_chunk_final few size first = ground arith

  pub seal_chunk-inner_inv :
      {sealed : Bytes} {m : Machine}
      → seal_chunk encrypt (running key n) p false ≡ ok (sealed, m)
      → (n ≤ max_counter)
        × (length p ≡ chunk_size)
        × (sealed ≡ encrypt key (chunk_nonce n false) [] p)
        × (m ≡ running key (n + 1))
  unfolding seal_chunk check_plaintext
  seal_chunk-inner_inv e = ground arith

  pub seal_chunk-final_inv :
      {sealed : Bytes} {m : Machine}
      → seal_chunk encrypt (running key n) p true ≡ ok (sealed, m)
      → (n ≤ max_counter)
        × (length p ≤ chunk_size)
        × (length p ≡ 0 → n ≡ 0)
        × (sealed ≡ encrypt key (chunk_nonce n true) [] p)
  unfolding seal_chunk check_plaintext
  seal_chunk-final_inv e = ground arith

-- What the program relies on of the AEAD: a chunk that was encrypted decrypts to its plaintext, a
-- chunk that decrypts is the encryption of the result (the tag is a function of key, nonce and
-- ciphertext), and the tag adds 16 bytes.
pub record IsAead (encrypt : Encrypt) (decrypt : Decrypt) : Type 0 where
  pub opens : (key nonce aad p : Bytes) → decrypt key nonce aad (encrypt key nonce aad p) ≡ some p
  pub only :
      (key nonce aad c p : Bytes) → decrypt key nonce aad c ≡ some p → c ≡ encrypt key nonce aad p
  pub tagged : (key nonce aad p : Bytes) → length (encrypt key nonce aad p) ≡ length p + 16

module _ {encrypt : Encrypt} {decrypt : Decrypt} (aead : IsAead encrypt decrypt) (key : Bytes)
    (n : ℕ) where
  pub open_chunk_inner :
      (p : Bytes)
      → n ≤ max_counter
      → length p ≡ chunk_size
      → open_chunk decrypt (running key n) (encrypt key (chunk_nonce n false) [] p) false
        ≡ ok (p, running key (n + 1))
  unfolding open_chunk check_sealed
  open_chunk_inner p few size =
      ground (
        arith,
        aead.opens key (chunk_nonce n false) [] p,
        aead.tagged key (chunk_nonce n false) [] p,
      )

  pub open_chunk_final :
      (p : Bytes)
      → n ≤ max_counter
      → length p ≤ chunk_size
      → (length p ≡ 0 → n ≡ 0)
      → open_chunk decrypt (running key n) (encrypt key (chunk_nonce n true) [] p) true
        ≡ ok (p, stopped key (n + 1))
  unfolding open_chunk check_sealed
  open_chunk_final p few size first =
      ground
        (arith, aead.opens key (chunk_nonce n true) [] p, aead.tagged key (chunk_nonce n true) [] p)

  pub open_chunk-inner_inv :
      (c : Bytes) {p : Bytes} {m : Machine}
      → open_chunk decrypt (running key n) c false ≡ ok (p, m)
      → (n ≤ max_counter)
        × (length p ≡ chunk_size)
        × (c ≡ encrypt key (chunk_nonce n false) [] p)
        × (m ≡ running key (n + 1))
  unfolding open_chunk check_sealed
  open_chunk-inner_inv c {p} e = ground (
    arith,
    aead.only key (chunk_nonce n false) [] c p,
    aead.tagged key (chunk_nonce n false) [] p,
  )

  pub open_chunk-final_inv :
      (c : Bytes) {p : Bytes} {m : Machine}
      → open_chunk decrypt (running key n) c true ≡ ok (p, m)
      → (n ≤ max_counter)
        × (length p ≤ chunk_size)
        × (length p ≡ 0 → n ≡ 0)
        × (c ≡ encrypt key (chunk_nonce n true) [] p)
  unfolding open_chunk check_sealed
  open_chunk-final_inv c {p} e =
      ground (
        arith,
        aead.only key (chunk_nonce n true) [] c p,
        aead.tagged key (chunk_nonce n true) [] p,
      )

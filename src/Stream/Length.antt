-- ===== src/Stream/Length.antt =====
-- `stream_seal` succeeds below the counter's limit, and `stream_sealed_length` predicts the size.
use label_309_py.Prelude.{
  [], ℕ, zero, suc, ◌+◌, ◌*◌, ◌≤◌, ◌<◌, ◌≡◌, refl, sym, ap, ok, ◌++◌, length, length-append, take,
  drop, length-take_le, length-drop, true, false, take-append-drop, arith, inl, inr, Bool-cases,
  leb, leb→le, leb→lt,
}
use label_309_py.Bytes.{Bytes}
use label_309_py.Stream.{
  chunk_size, max_counter, chunk_nonce, Encrypt, Decrypt, stream_seal, stream_open,
  stream_sealed_length, payload_key_length,
}
use label_309_py.Stream.Layout.{Sealed, last, more, IsAead}
use label_309_py.Stream.RoundTrip.{stream_seal-eq-ok_iff, stream_open-eq-ok_iff}

sealed_length_last : (n : ℕ) → n ≤ chunk_size → stream_sealed_length n ≡ n + 16
unfolding stream_sealed_length
sealed_length_last n h = omega arith

sealed_length_more :
    (n : ℕ)
    → 1 ≤ n
    → stream_sealed_length (chunk_size + n) ≡ chunk_size + 16 + stream_sealed_length n
unfolding stream_sealed_length
sealed_length_more n h = omega arith

Sealed-total :
    (encrypt : Encrypt) (key : Bytes) (fuel n : ℕ) (p : Bytes)
    → length p < fuel
    → n * chunk_size + length p ≤ (max_counter + 1) * chunk_size
    → (length p ≡ 0 → n ≡ 0)
    → (c : Bytes) × Sealed encrypt key n p c
Sealed-total encrypt key zero n p h room first = absurd (omega arith)
Sealed-total encrypt key (suc fuel) n p h room first =
    elim (Bool-cases (leb (length p) chunk_size)) [
      | inl small ↦
          (encrypt key (chunk_nonce n true) [] p, last (ground arith) (leb→le _ _ small) first)
      | inr large ↦
          let big = leb→lt _ _ large in
          let chunk = take chunk_size p in
          let rest = drop chunk_size p in
          let rest_size = length-drop chunk_size p in
          let (c, s) =
            Sealed-total encrypt key fuel (n + 1) rest (omega arith) (omega arith)
              (λ e. absurd (omega arith)) in
          (
            encrypt key (chunk_nonce n false) [] chunk ++ c,
            more chunk (omega arith) (sym (take-append-drop chunk_size p))
                (length-take_le chunk_size p (omega arith)) (omega arith) s,
          )
    ]

module _ {encrypt : Encrypt} {decrypt : Decrypt} (aead : IsAead encrypt decrypt) where
  Sealed-length :
      {key : Bytes} {n : ℕ} {p c : Bytes}
      → Sealed encrypt key n p c
      → length c ≡ stream_sealed_length (length p)
  Sealed-length {key} {n} (last {plaintext = p} few size first) =
      omega (arith, aead.tagged key (chunk_nonce n true) [] p, sealed_length_last (length p) size)
  Sealed-length {key} {n}
        (more {plaintext = p} {rest} {sealed_rest} chunk few parts size some_rest s) =
      let total : length p ≡ chunk_size + length rest =
        omega (arith, ap length parts, length-append chunk rest) in
      omega (
        arith,
        aead.tagged key (chunk_nonce n false) [] chunk,
        length-append (encrypt key (chunk_nonce n false) [] chunk) sealed_rest,
        Sealed-length {n = n + 1} s,
        sealed_length_more (length rest) some_rest,
        ap stream_sealed_length total,
      )

  -- Under the laws of the AEAD, a key of 32 bytes seals every plaintext of at most 2^88 chunks, to
  -- the number of bytes that `stream_sealed_length` predicts, and the result opens to the plaintext.
  pub stream_seal_total :
      (key p : Bytes)
      → length key ≡ payload_key_length
      → length p ≤ (max_counter + 1) * chunk_size
      → (c : Bytes) × (stream_seal encrypt key p ≡ ok c)
        × (length c ≡ stream_sealed_length (length p))
        × (stream_open decrypt key c ≡ ok p)
  stream_seal_total key p size room =
      let (c, s) =
        Sealed-total encrypt key (suc (length p)) 0 p (omega arith) (omega arith) (λ e. refl) in
      (
        c,
        (stream_seal-eq-ok_iff encrypt key p c).1 (size, s),
        Sealed-length s,
        (stream_open-eq-ok_iff aead key c p).1 (size, s),
      )

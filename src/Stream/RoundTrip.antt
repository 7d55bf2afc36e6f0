-- ===== src/Stream/RoundTrip.antt =====
-- `stream_seal` and `stream_open` of stream.py write and read exactly the STREAM format.
use label_309_py.Prelude.{
  suc, ◌≡◌, ◌↔◌, refl, sym, not, [], ltb, ok, length, arith, le→ltb, >>=-eq-ok, ◌>>=◌, ◌>>◌,
  require, subst,
}
use label_309_py.Bytes.{Bytes}
use label_309_py.Stream.{
  tag_size, Machine, Encrypt, Decrypt, seal_loop, open_loop, stream_seal, stream_open, start,
  StreamError, payload_key_length,
}
use label_309_py.Stream.Layout.{running, Sealed, IsAead}
use label_309_py.Stream.Loops.{
  Sealed-seal_loop, seal_loop-Sealed, Sealed-open_loop, open_loop-Sealed, Sealed-tag,
}

start_ok : (key : Bytes) → length key ≡ payload_key_length → start key ≡ ok (running key 0)
unfolding start
start_ok key h = ground arith

start_inv :
    (key : Bytes) {m : Machine}
    → start key ≡ ok m
    → (length key ≡ payload_key_length) × (m ≡ running key 0)
unfolding start
start_inv key e = ground arith

-- `stream_seal` answers `c` exactly when the key has 32 bytes and `c` is in the STREAM format for
-- the plaintext.
pub stream_seal-eq-ok_iff :
    (encrypt : Encrypt) (key p c : Bytes)
    → (stream_seal encrypt key p ≡ ok c)
      ↔ ((length key ≡ payload_key_length) × Sealed encrypt key 0 p c)
unfolding stream_seal
stream_seal-eq-ok_iff encrypt key p c = (sealed, seals)
  where
    sealed :
        (start key >>= λ m. seal_loop encrypt (suc (length p)) m p 0 []) ≡ ok c
        → (length key ≡ payload_key_length) × Sealed encrypt key 0 p c
    sealed e =
        let (m, started, rest) = >>=-eq-ok (start key) _ e in
        let (size, is) = start_inv key started in
        let (c', joins, s) =
          seal_loop-Sealed encrypt (suc (length p)) key p 0 0 [] c (rw is at rest) in
        (size, subst (Sealed encrypt key 0 p) (sym joins) s)

    seals :
        (length key ≡ payload_key_length) × Sealed encrypt key 0 p c
        → (start key >>= λ m. seal_loop encrypt (suc (length p)) m p 0 []) ≡ ok c
    seals (size, s) =
        rw (start_ok key size)
          (Sealed-seal_loop encrypt s (suc (length p)) p 0 [] refl (omega arith))

module _ {encrypt : Encrypt} {decrypt : Decrypt} (aead : IsAead encrypt decrypt) where
  -- `stream_open` answers `p` exactly when the key has 32 bytes and the ciphertext is in the
  -- STREAM format for `p`, under the laws of the AEAD.
  pub stream_open-eq-ok_iff :
      (key c p : Bytes)
      → (stream_open decrypt key c ≡ ok p)
        ↔ ((length key ≡ payload_key_length) × Sealed encrypt key 0 p c)
  unfolding stream_open
  stream_open-eq-ok_iff key c p = (opened, opens)
    where
      opened :
          (start key >>= λ m.
          require (not (ltb (length c) tag_size)) StreamError.tampered
          >> open_loop decrypt (suc (length c)) m c 0 [])
            ≡ ok p
          → (length key ≡ payload_key_length) × Sealed encrypt key 0 p c
      opened e =
          let (m, started, rest) = >>=-eq-ok (start key) _ e in
          let (size, is) = start_inv key started in
          let (u, floor, loops) =
            >>=-eq-ok (require (not (ltb (length c) tag_size)) StreamError.tampered) _ rest in
          let (p', joins, s) =
            open_loop-Sealed aead (suc (length c)) key c 0 0 [] p (rw is at loops) in
          (size, subst (λ (x : Bytes). Sealed encrypt key 0 x c) (sym joins) s)

      opens :
          (length key ≡ payload_key_length) × Sealed encrypt key 0 p c
          → (start key >>= λ m.
              require (not (ltb (length c) tag_size)) StreamError.tampered
              >> open_loop decrypt (suc (length c)) m c 0 [])
            ≡ ok p
      opens (size, s) =
          rw (start_ok key size, le→ltb (length c) tag_size (Sealed-tag aead s))
            (Sealed-open_loop aead s (suc (length c)) c 0 [] refl (omega arith))

  -- Under the laws of the AEAD, opening accepts exactly what sealing writes: a ciphertext opens to `p` under a key if and only
  -- if sealing `p` under that key gives this ciphertext.
  pub stream_open-seal_iff :
      (key c p : Bytes) → (stream_open decrypt key c ≡ ok p) ↔ (stream_seal encrypt key p ≡ ok c)
  stream_open-seal_iff key c p = (
    λ e. (stream_seal-eq-ok_iff encrypt key p c).1 ((stream_open-eq-ok_iff key c p).0 e),
    λ e. (stream_open-eq-ok_iff key c p).1 ((stream_seal-eq-ok_iff encrypt key p c).0 e),
  )

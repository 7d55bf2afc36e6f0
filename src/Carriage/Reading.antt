-- ===== src/Carriage/Reading.antt =====
-- The loop of `reassemble_label_309_value` of carriage.py over chunks in the shortest form.
use label_309_py.Prelude.{
  ℕ, suc, ◌+◌, ◌^◌, ◌≤◌, ◌<◌, ◌≡◌, refl, sym, ap, ◌∙◌, List, [], ◌∷◌, ◌++◌, length, arith, err,
  some, append_assoc, append-nil, length-append, le→ltb, lt→ltb,
}
use label_309_py.Bytes.{Bytes, slice}
use label_309_py.Walker.Position.{At, At-left, At-right, At-length, At-slice}
use label_309_py.Carriage.{
  transport_chunk_max_bytes, chunk_too_large, read_strict_head, read_chunks,
}
use label_309_py.Carriage.Canonical.{canonical_head, length-canonical_head, read_strict_head-At}
use label_309_py.Carriage.Chunks.{AllFit}

-- Definite-length byte strings in their shortest form.
unfoldable pub chunk_items : List Bytes → Bytes
chunk_items [] = []
chunk_items (c ∷ cs) = canonical_head 2 (length c) ++ (c ++ chunk_items cs)

-- The definite-length array of byte strings in its shortest form (RFC 8949 section 4.2.1).
unfoldable pub chunk_array : List Bytes → Bytes
chunk_array chunks = canonical_head 4 (length chunks) ++ chunk_items chunks

module _ (data_ : Bytes) (pos : ℕ) (c : Bytes) where
  -- Where a chunk of fewer than 2^64 bytes stands, its head and its bytes are read.
  read_strict_head-chunk :
      At data_ pos (canonical_head 2 (length c) ++ c)
      → length c < 2 ^ 64
      → (read_strict_head data_ pos
          ≡ some (record {
            mt = 2;
            value = length c;
            payload_start = pos + length (canonical_head 2 (length c));
          }))
        × ((pos + length (canonical_head 2 (length c)) + length c ≤ length data_)
            × (slice data_
                  (pos + length (canonical_head 2 (length c)))
                  (pos + length (canonical_head 2 (length c)) + length c)
                ≡ c))
  read_strict_head-chunk a small =
      let head = canonical_head 2 (length c) in
      (
        read_strict_head-At 2 (length c) (At-left head c a) small,
        (
          omega (
            arith,
            length-append head c,
            length-canonical_head 2 (length c),
            At-length (head ++ c) a
                (omega (arith, length-append head c, length-canonical_head 2 (length c))),
          ),
          At-slice (length c) (At-right head c a) refl,
        ),
      )

  read_chunks-fitting :
      (count : ℕ) (chunks : List Bytes)
      → At data_ pos (canonical_head 2 (length c) ++ c)
      → length c ≤ transport_chunk_max_bytes
      → read_chunks data_ (suc count) pos chunks
        ≡ read_chunks data_ count
            (pos + length (canonical_head 2 (length c) ++ c))
            (chunks ++ c ∷ [])
  unfolding read_chunks
  read_chunks-fitting count chunks a fits =
      let head = canonical_head 2 (length c) in
      let (read, (inside, bytes)) = read_strict_head-chunk a (omega arith) in
      let size : pos + length (head ++ c) ≡ pos + length head + length c =
        omega (arith, length-append head c) in
      rw
        (
          read,
          le→ltb (length data_) (pos + length head + length c) inside,
          le→ltb 64 (length c) fits,
          bytes,
          size,
        )
        refl

  pub read_chunks-oversized :
      (count : ℕ) (chunks : List Bytes)
      → At data_ pos (canonical_head 2 (length c) ++ c)
      → transport_chunk_max_bytes < length c
      → length c < 2 ^ 64
      → read_chunks data_ (suc count) pos chunks ≡ err chunk_too_large
  unfolding read_chunks
  read_chunks-oversized count chunks a large small =
      let head = canonical_head 2 (length c) in
      let (read, (inside, bytes)) = read_strict_head-chunk a small in
      rw
        (
          read,
          le→ltb (length data_) (pos + length head + length c) inside,
          lt→ltb 64 (length c) large,
        )
        refl

pub At-assoc :
    {data_ : Bytes} {pos : ℕ} (x y z : Bytes)
    → At data_ pos (x ++ (y ++ z))
    → At data_ pos ((x ++ y) ++ z)
At-assoc x y z a = record {
  rest = a.rest;
  here = a.here ∙ ap (λ (l : Bytes). l ++ a.rest) (sym (append_assoc x y z));
}

-- The loop reads the chunks of a sequence that fit, one for each turn.
pub read_chunks-chunk_items :
    (data_ : Bytes) (pos count : ℕ) (cs seen : List Bytes)
    → At data_ pos (chunk_items cs)
    → AllFit cs
    → read_chunks data_ (length cs + count) pos seen
      ≡ read_chunks data_ count (pos + length (chunk_items cs)) (seen ++ cs)
unfolding chunk_items
read_chunks-chunk_items data_ pos count [] seen a fits =
    let end : pos + 0 ≡ pos = omega arith in
    let turns : 0 + count ≡ count = omega arith in rw (append-nil seen, end, turns) refl
read_chunks-chunk_items data_ pos count (c ∷ cs) seen a fits =
    let item = canonical_head 2 (length c) ++ c in
    let a' = At-assoc (canonical_head 2 (length c)) c (chunk_items cs) a in
    let turns : suc (length cs) + count ≡ suc (length cs + count) = omega arith in
    let size : pos + length item + length (chunk_items cs) ≡ pos + length (item ++ chunk_items cs) =
      omega (arith, length-append item (chunk_items cs)) in
    rw turns (
      read_chunks-fitting data_ pos c (length cs + count) seen (At-left item (chunk_items cs) a')
        fits.0
      ∙ read_chunks-chunk_items data_ (pos + length item) count cs (seen ++ c ∷ [])
          (At-right item (chunk_items cs) a') fits.1
      ∙ rw
          (
            size,
            append_assoc seen (c ∷ []) cs,
            append_assoc (canonical_head 2 (length c)) c (chunk_items cs),
          )
          refl)

pub At-whole : (x : Bytes) → At x 0 x
At-whole x = record { rest = []; here = sym (append-nil x) }

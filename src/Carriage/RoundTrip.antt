-- ===== src/Carriage/RoundTrip.antt =====
-- `reassemble_label_309_value` of carriage.py on the chunk arrays of the metadata transport.
use label_309_py.Prelude.{
  suc, ◌+◌, ◌^◌, ◌≤◌, ◌<◌, ◌≡◌, refl, ap, ◌∙◌, List, [], ◌∷◌, ◌++◌, length, arith, ok, err,
  append_assoc, length-append, eq→==,
}
use label_309_py.Bytes.{Bytes}
use label_309_py.Walker.Position.{At-left, At-right}
use label_309_py.Carriage.{
  transport_chunk_max_bytes, chunk_too_large, read_chunks, reassemble_label_309_value, join,
  encode_label_309_value,
}
use label_309_py.Carriage.Canonical.{canonical_head, read_strict_head-At}
use label_309_py.Carriage.Chunks.{AllFit, chunk_record_body-IsSplit}
use label_309_py.Carriage.Reading.{
  chunk_items, chunk_array, read_chunks-oversized, At-assoc, read_chunks-chunk_items, At-whole,
}

-- RFC 8949 fixes one encoding of an array of byte strings, whose sizes are below 2^64.
abbrev pub IsCanonical : (List Bytes → Bytes) → Type 0
IsCanonical encode_canonical_cbor =
    (chunks : List Bytes)
    → AllFit chunks
    → length chunks < 2 ^ 64
    → encode_canonical_cbor chunks ≡ chunk_array chunks

-- Reassembly of the chunk array of fewer than 2^64 chunks of at most 64 bytes, empty ones
-- included, gives their concatenation.
pub reassemble_label_309_value-chunk_array :
    (cs : List Bytes)
    → AllFit cs
    → length cs < 2 ^ 64
    → reassemble_label_309_value (chunk_array cs) ≡ ok (join cs)
unfolding reassemble_label_309_value chunk_array read_chunks
reassemble_label_309_value-chunk_array cs fits small =
    let head = canonical_head 4 (length cs) in
    let whole = At-whole (head ++ chunk_items cs) in
    let loop =
      read_chunks-chunk_items (head ++ chunk_items cs) (0 + length head) 0 cs []
        (At-right head (chunk_items cs) whole) fits in
    let turns : length cs + 0 ≡ length cs = omega arith in
    let loop' = rw turns at loop in
    rw
      (
        read_strict_head-At 4 (length cs) (At-left head (chunk_items cs) whole) small,
        loop',
        eq→== (0 + length head + length (chunk_items cs)) (length (head ++ chunk_items cs))
            (omega (arith, length-append head (chunk_items cs))),
      )
      refl

chunk_items-append :
    (cs ds : List Bytes) → chunk_items (cs ++ ds) ≡ chunk_items cs ++ chunk_items ds
unfolding chunk_items
chunk_items-append [] ds = refl
chunk_items-append (c ∷ cs) ds =
    rw
      (
        chunk_items-append cs ds,
        append_assoc (canonical_head 2 (length c)) (c ++ chunk_items cs) (chunk_items ds),
        append_assoc c (chunk_items cs) (chunk_items ds),
      )
      refl

-- In a chunk array of fewer than 2^64 chunks, a first chunk of more than 64 and fewer than 2^64
-- bytes is refused as CHUNK_TOO_LARGE.
pub reassemble_label_309_value-oversized :
    (cs ds : List Bytes) (c : Bytes)
    → AllFit cs
    → transport_chunk_max_bytes < length c
    → length c < 2 ^ 64
    → length cs + suc (length ds) < 2 ^ 64
    → reassemble_label_309_value (chunk_array (cs ++ c ∷ ds)) ≡ err chunk_too_large
unfolding reassemble_label_309_value chunk_array chunk_items
reassemble_label_309_value-oversized cs ds c fits large small few =
    let bad = canonical_head 2 (length c) ++ c in
    let items = chunk_items cs ++ (canonical_head 2 (length c) ++ (c ++ chunk_items ds)) in
    let turns = length-append cs (c ∷ ds) in
    let head = canonical_head 4 (length cs + suc (length ds)) in
    let whole = At-whole (head ++ items) in
    let inner = At-right head items whole in
    let there =
      At-right (chunk_items cs) (canonical_head 2 (length c) ++ (c ++ chunk_items ds)) inner in
    let there' = At-assoc (canonical_head 2 (length c)) c (chunk_items ds) there in
    rw
      (
        turns,
        chunk_items-append cs (c ∷ ds),
        read_strict_head-At 4 (length cs + suc (length ds)) (At-left head items whole) few,
        read_chunks-chunk_items (head ++ items) (0 + length head) (suc (length ds)) cs []
            (At-left (chunk_items cs) (canonical_head 2 (length c) ++ (c ++ chunk_items ds)) inner)
            fits,
        read_chunks-oversized (head ++ items) (0 + length head + length (chunk_items cs)) c
            (length ds) cs (At-left bad (chunk_items ds) there') large small,
      )
      refl

-- A body of at least one and fewer than 2^64 bytes is encoded, and the value reassembles to the
-- body (the CBOR encoder writes byte strings and their array in the shortest form).
pub reassemble-encode_label_309_value :
    (encode_canonical_cbor : List Bytes → Bytes)
    → IsCanonical encode_canonical_cbor
    → (body : Bytes) → 1 ≤ length body
    → length body < 2 ^ 64
    → (value : Bytes) × ((encode_label_309_value encode_canonical_cbor body ≡ ok value)
        × (reassemble_label_309_value value ≡ ok body))
unfolding encode_label_309_value
reassemble-encode_label_309_value encode_canonical_cbor canonical body some_byte small =
    let (chunks, (made, split)) = chunk_record_body-IsSplit body some_byte in
    let few : length chunks < 2 ^ 64 = omega (arith, split.count) in
    (
      encode_canonical_cbor chunks,
      (
        rw made refl,
        rw (canonical chunks split.fits few)
            (reassemble_label_309_value-chunk_array chunks split.fits few ∙ ap ok split.joined),
      ),
    )

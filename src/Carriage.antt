-- ===== src/Carriage.antt =====
-- src/cardanowall/verifier/carriage.py: the chunk-array transport of a record body under metadata
-- label 309. The CBOR encoder (cbor2, behind encode_canonical_cbor) is a parameter.
pub mod Canonical
pub mod Chunks
pub mod Reading
pub mod RoundTrip
mod Runs
use label_309_py.Prelude.{
  ℕ, zero, suc, ◌+◌, ◌/◌, ◌%◌, Bool, true, false, not, Option, none, some, List, [], ◌∷◌, ◌++◌, ltb,
  leb, ◌==◌, if◌then◌else◌, length, get_or, Result, ok, err, ◌>>=◌, ◌>>◌, require,
}
use label_309_py.Bytes.{Bytes, slice, from_bytes_big}

abbrev pub transport_chunk_max_bytes : ℕ
transport_chunk_max_bytes = 64

-- The codes of a `Label309ReassemblyFail`, and the `ValueError` of an empty body.
pub data CarriageError : Type 0 where
  malformed_cbor chunk_too_large empty_body : CarriageError

-- The offsets `range(0, len(body), 64)` that are left, with fuel for one a byte.
unfoldable pub chunks_from : ℕ → Bytes → ℕ → List Bytes
chunks_from zero body offset = []
chunks_from (suc fuel) body offset =
    let next = offset + transport_chunk_max_bytes in
    let more = slice body offset next ∷ chunks_from fuel body next in
    if ltb offset (length body) then more else []

unfoldable pub chunk_record_body : Bytes → Result CarriageError (List Bytes)
chunk_record_body body =
    if length body == 0 then err empty_body else ok (chunks_from (length body) body 0)

unfoldable pub encode_label_309_value : (List Bytes → Bytes) → Bytes → Result CarriageError Bytes
encode_label_309_value encode_canonical_cbor body = do
  chunks ← chunk_record_body body
  ok (encode_canonical_cbor chunks)

pub record StrictHead : Type 0 where
  pub mt : ℕ
  pub value : ℕ
  pub payload_start : ℕ

-- An argument of `n` bytes at `p`, refused if it is at most `limit`.
unfoldable pub strict_argument : Bytes → ℕ → ℕ → ℕ → ℕ → Option StrictHead
strict_argument data_ mt p n limit =
    let value = from_bytes_big 0 (slice data_ p (p + n)) in
    if ltb (length data_) (p + n)
    then none
    else if leb value limit
    then none
    else some (record { mt = mt; value = value; payload_start = p + n })

unfoldable pub read_strict_head : Bytes → ℕ → Option StrictHead
read_strict_head data_ pos =
    let initial = get_or data_ pos 0 in
    let mt = initial / 32 in
    let ai = initial % 32 in
    let p = pos + 1 in
    if leb (length data_) pos
    then none
    else if ltb ai 24
    then some (record { mt = mt; value = ai; payload_start = p })
    else if ai == 24
    then strict_argument data_ mt p 1 23
    else if ai == 25
    then strict_argument data_ mt p 2 0xFF
    else if ai == 26
    then strict_argument data_ mt p 4 0xFFFF
    else if ai == 27
    then strict_argument data_ mt p 8 0xFFFF_FFFF
    else none

abbrev pub decoded : Option StrictHead → Result CarriageError StrictHead
decoded none = err malformed_cbor
decoded (some head) = ok head

unfoldable pub join : List Bytes → Bytes
join [] = []
join (c ∷ cs) = c ++ join cs

-- The loop over the elements that are left: the end position and the chunks in their order.
unfoldable pub read_chunks : Bytes → ℕ → ℕ → List Bytes → Result CarriageError (ℕ × List Bytes)
read_chunks value_bytes zero pos chunks = ok (pos, chunks)
read_chunks value_bytes (suc count) pos chunks = do
  head ← decoded (read_strict_head value_bytes pos)
  require (head.mt == 2) malformed_cbor
  let end = head.payload_start + head.value
  require (not (ltb (length value_bytes) end)) malformed_cbor
  require (not (ltb transport_chunk_max_bytes head.value)) chunk_too_large
  read_chunks value_bytes count end (chunks ++ slice value_bytes head.payload_start end ∷ [])

unfoldable pub reassemble_label_309_value : Bytes → Result CarriageError Bytes
reassemble_label_309_value value_bytes = do
  head ← decoded (read_strict_head value_bytes 0)
  require (head.mt == 4) malformed_cbor
  (pos, chunks) ← read_chunks value_bytes head.value head.payload_start []
  require (pos == length value_bytes) malformed_cbor
  ok (join chunks)

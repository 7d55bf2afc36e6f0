-- ===== src/Walker.antt =====
-- src/cardanowall/verifier/cbor_walker.py: the position-aware walk over raw transaction bytes. A
-- byte is a number below 256; every `MalformedTxCborError` is `malformed`.
pub mod Position
pub mod Format
pub mod Heads
pub mod Skip
pub mod Accepts
use label_309_py.Prelude.{
  ℕ, zero, suc, ◌+◌, ◌-◌, ◌*◌, ◌/◌, ◌%◌, Bool, true, false, not, ◌&&◌, ◌||◌, Option, none, some,
  List, [], ◌∷◌, ◌++◌, ltb, leb, ◌==◌, if◌then◌else◌, length, get_or, Result, ok, err, ◌>>=◌, ◌>>◌,
  require,
}
use label_309_py.Bytes.{Bytes, slice, from_bytes_big}

-- `out_of_fuel` has no counterpart in the program.
pub data WalkError : Type 0 where
  malformed out_of_fuel : WalkError

pub record CborHead : Type 0 where
  pub mt : ℕ
  pub ai : ℕ
  pub payload_start : ℕ
  pub value_u64 : ℕ

-- The `n` bytes of a head's argument at `p`.
unfoldable pub read_argument : Bytes → ℕ → ℕ → ℕ → ℕ → Result WalkError CborHead
read_argument data_ mt ai p n = do
  require (not (ltb (length data_) (p + n))) malformed
  ok (record {
    mt = mt;
    ai = ai;
    payload_start = p + n;
    value_u64 = from_bytes_big 0 (slice data_ p (p + n));
  })

unfoldable pub read_head : Bytes → ℕ → Result WalkError CborHead
read_head data_ pos =
    let head = get_or data_ pos 0 in
    let mt = head / 32 in
    let ai = head % 32 in
    let p = pos + 1 in
    if leb (length data_) pos
    then err malformed
    else if ltb ai 24
    then ok (record { mt = mt; ai = ai; payload_start = p; value_u64 = ai })
    else if ai == 24
    then read_argument data_ mt ai p 1
    else if ai == 25
    then read_argument data_ mt ai p 2
    else if ai == 26
    then read_argument data_ mt ai p 4
    else if ai == 27
    then read_argument data_ mt ai p 8
    else err malformed

-- `for _ in range(count): p = skip(p)`
unfoldable pub skip_times : (ℕ → Result WalkError ℕ) → ℕ → ℕ → Result WalkError ℕ
skip_times skip zero p = ok p
skip_times skip (suc count) p = do p' ← skip p; skip_times skip count p'

-- The dispatch of `_skip_cbor_item` behind the head; `nested count p` skips `count` items at `p`.
unfoldable pub skip_payload : (ℕ → ℕ → Result WalkError ℕ) → Bytes → CborHead → Result WalkError ℕ
skip_payload nested data_ h =
    let p = h.payload_start in
    let string =
      if ltb (length data_) (p + h.value_u64) then err malformed else ok (p + h.value_u64) in
    let simple_value = if ltb (length data_) (p + 1) then err malformed else ok (p + 1) in
    let simple =
      if ltb h.ai 24
      then ok p
      else if h.ai == 24
      then simple_value
      else if h.ai == 25 || h.ai == 26 || h.ai == 27
      then ok p
      else err malformed in
    if h.mt == 0 || h.mt == 1
    then ok p
    else if h.mt == 2 || h.mt == 3
    then string
    else if h.mt == 4
    then nested h.value_u64 p
    else if h.mt == 5
    then nested (h.value_u64 * 2) p
    else if h.mt == 6
    then nested 1 p
    else if h.mt == 7
    then simple
    else err malformed

-- A nested item starts behind at least one byte of head, so the number of bytes is fuel enough.
unfoldable pub skip_cbor_item : ℕ → Bytes → ℕ → Result WalkError ℕ
skip_cbor_item zero data_ pos = err out_of_fuel
skip_cbor_item (suc fuel) data_ pos = do
  h ← read_head data_ pos
  skip_payload (skip_times (skip_cbor_item fuel data_)) data_ h

unfoldable pub skip_item : Bytes → ℕ → Result WalkError ℕ
skip_item data_ pos = skip_cbor_item (suc (length data_)) data_ pos

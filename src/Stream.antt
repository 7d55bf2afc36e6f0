-- ===== src/Stream.antt =====
-- src/cardanowall/_crypto/stream.py: the STREAM chunk format of sealed content. The AEAD is a
-- parameter: `encrypt` and `decrypt` of ChaCha20-Poly1305 (aead.py calls a library), where `none`
-- is its `AeadVerificationError`.
pub mod Layout
pub mod Loops
pub mod RoundTrip
pub mod Length
mod Runs
use label_309_py.Prelude.{
  ℕ, zero, suc, ◌+◌, ◌-◌, ◌*◌, ◌/◌, ◌^◌, Bool, true, false, not, ◌&&◌, ◌||◌, Option, none, some,
  List, [], ◌∷◌, ◌++◌, ltb, leb, ◌==◌, if◌then◌else◌, length, Result, ok, err, ◌>>=◌, ◌>>◌, require,
  max, drop,
}
use label_309_py.Bytes.{Bytes, slice, to_bytes_big}

-- `value_error` is a caller's misuse. `out_of_fuel` has no counterpart in the program.
pub data StreamError : Type 0 where
  value_error tampered out_of_fuel : StreamError

abbrev pub chunk_size : ℕ
chunk_size = 65536

abbrev pub tag_size : ℕ
tag_size = 16

abbrev pub sealed_chunk_size : ℕ
sealed_chunk_size = 65552

abbrev pub payload_key_length : ℕ
payload_key_length = 32

abbrev pub max_counter : ℕ
max_counter = 0xFFFFFFFFFFFFFFFFFFFFFF

unfoldable pub chunk_nonce : ℕ → Bool → Bytes
chunk_nonce counter final = to_bytes_big 11 counter ++ (if final then 1 ∷ [] else 0 ∷ [])

-- The attributes of a `StreamSealer` and of a `StreamOpener`.
pub record Machine : Type 0 where
  pub key : Bytes
  pub counter : ℕ
  pub finished : Bool

unfoldable pub start : Bytes → Result StreamError Machine
start payload_key = do
  require (length payload_key == payload_key_length) value_error
  ok (record { key = payload_key; counter = 0; finished = false })

abbrev pub advance : Machine → Bool → Machine
advance m final = record m { counter = m.counter + 1; finished = final }

abbrev pub Encrypt : Type 0
Encrypt = Bytes → Bytes → Bytes → Bytes → Bytes

abbrev pub Decrypt : Type 0
Decrypt = Bytes → Bytes → Bytes → Bytes → Option Bytes

-- The sizes that a plaintext chunk may have.
unfoldable pub check_plaintext : ℕ → Bytes → Bool → Result StreamError (Unit {0})
check_plaintext counter plaintext true = do
  require (not (ltb chunk_size (length plaintext))) value_error
  require (not (length plaintext == 0 && not (counter == 0))) value_error
check_plaintext counter plaintext false = require (length plaintext == chunk_size) value_error

-- The sizes that a sealed chunk may have.
unfoldable pub check_sealed : Bytes → Bool → Result StreamError (Unit {0})
check_sealed sealed true =
    require (not (ltb (length sealed) tag_size || ltb sealed_chunk_size (length sealed))) tampered
check_sealed sealed false = require (length sealed == sealed_chunk_size) tampered

abbrev pub authentic : Option Bytes → Result StreamError Bytes
authentic none = err tampered
authentic (some plaintext) = ok plaintext

module _ (encrypt : Encrypt) where
  unfoldable pub seal_chunk : Machine → Bytes → Bool → Result StreamError (Bytes × Machine)
  seal_chunk m plaintext final = do
    require (not m.finished) value_error
    require (not (ltb max_counter m.counter)) value_error
    check_plaintext m.counter plaintext final
    ok (encrypt m.key (chunk_nonce m.counter final) [] plaintext, advance m final)

  -- The `while` loop of `stream_seal` and the final chunk after it. A round takes a whole chunk.
  unfoldable pub seal_loop : ℕ → Machine → Bytes → ℕ → Bytes → Result StreamError Bytes
  seal_loop zero m plaintext pos out = err out_of_fuel
  seal_loop (suc fuel) m plaintext pos out =
      let more = do
        (sealed, m') ← seal_chunk m (slice plaintext pos (pos + chunk_size)) false
        seal_loop fuel m' plaintext (pos + chunk_size) (out ++ sealed)
      in let last = do (sealed, m') ← seal_chunk m (drop pos plaintext) true; ok (out ++ sealed)
        in if ltb chunk_size (length plaintext - pos) then more else last

  unfoldable pub stream_seal : Bytes → Bytes → Result StreamError Bytes
  stream_seal payload_key plaintext = do
    m ← start payload_key
    seal_loop (suc (length plaintext)) m plaintext 0 []

module _ (decrypt : Decrypt) where
  unfoldable pub open_chunk : Machine → Bytes → Bool → Result StreamError (Bytes × Machine)
  open_chunk m sealed final = do
    require (not m.finished) tampered
    require (not (ltb max_counter m.counter)) tampered
    check_sealed sealed final
    plaintext ← authentic (decrypt m.key (chunk_nonce m.counter final) [] sealed)
    require (not (final && length plaintext == 0 && not (m.counter == 0))) tampered
    ok (plaintext, advance m final)

  -- The `while True` loop of `stream_open`. A round that goes on takes a whole sealed chunk.
  unfoldable pub open_loop : ℕ → Machine → Bytes → ℕ → Bytes → Result StreamError Bytes
  open_loop zero m ciphertext pos out = err out_of_fuel
  open_loop (suc fuel) m ciphertext pos out =
      let remaining = length ciphertext - pos in
      let final = leb remaining sealed_chunk_size in
      let taken = if final then remaining else sealed_chunk_size in
      do
        (plaintext, m') ← open_chunk m (slice ciphertext pos (pos + taken)) final
        let more = open_loop fuel m' ciphertext (pos + taken) (out ++ plaintext)
        if final then ok (out ++ plaintext) else more

  unfoldable pub stream_open : Bytes → Bytes → Result StreamError Bytes
  stream_open payload_key ciphertext = do
    m ← start payload_key
    require (not (ltb (length ciphertext) tag_size)) tampered
    open_loop (suc (length ciphertext)) m ciphertext 0 []

unfoldable pub stream_sealed_length : ℕ → ℕ
stream_sealed_length plaintext_length =
    let chunk_count = max 1 ((plaintext_length + chunk_size - 1) / chunk_size) in
    plaintext_length + chunk_count * tag_size

-- ===== src/Stream/Runs.antt =====
-- The STREAM theorems at short streams, over the AEAD of Fixtures.
use label_309_py.Prelude.{true, ◌≡◌, refl, ◌↔◌, [], ◌∷◌, ok, err, length, arith}
use label_309_py.Bytes.{Bytes, to_bytes_big, bytes_eq}
use label_309_py.Fixtures.{pad, toy_encrypt, toy_decrypt, toy-IsAead}
use label_309_py.Stream.{
  stream_seal, stream_open, stream_sealed_length, open_loop, open_chunk, start, check_sealed,
  chunk_nonce, tampered,
}
use label_309_py.Stream.Layout.{Sealed}
use label_309_py.Stream.RoundTrip.{stream_seal-eq-ok_iff, stream_open-seal_iff}
use label_309_py.Stream.Length.{stream_seal_total}

abbrev key : Bytes
key = pad 32 (7 ∷ [])

-- A lone tag is the empty stream; a blob below the tag's size is refused.
open_short : stream_open toy_decrypt key (1 ∷ 2 ∷ []) ≡ err tampered
unfolding stream_open start
open_short = refl

open_bad_tag : stream_open toy_decrypt key (pad 16 (9 ∷ [])) ≡ err tampered
unfolding stream_open start open_loop open_chunk check_sealed chunk_nonce toy_decrypt to_bytes_big
    bytes_eq
open_bad_tag = refl

abbrev message : Bytes
message = 5 ∷ 6 ∷ []

abbrev sealed_message : Bytes
sealed_message = toy_encrypt key (chunk_nonce 0 true) [] message

stream_seal-eq-ok_iff_example :
    (stream_seal toy_encrypt key message ≡ ok sealed_message)
    ↔ ((length key ≡ 32) × Sealed toy_encrypt key 0 message sealed_message)
stream_seal-eq-ok_iff_example = stream_seal-eq-ok_iff toy_encrypt key message sealed_message

stream_open-seal_iff_example :
    (stream_open toy_decrypt key sealed_message ≡ ok message)
    ↔ (stream_seal toy_encrypt key message ≡ ok sealed_message)
stream_open-seal_iff_example = stream_open-seal_iff toy-IsAead key sealed_message message

stream_seal_total_example :
    (c : Bytes) × (stream_seal toy_encrypt key message ≡ ok c)
    × (length c ≡ stream_sealed_length (length message))
    × (stream_open toy_decrypt key c ≡ ok message)
stream_seal_total_example = stream_seal_total toy-IsAead key message (omega arith) (omega arith)

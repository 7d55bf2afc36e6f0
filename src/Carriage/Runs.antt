-- ===== src/Carriage/Runs.antt =====
-- The theorems on the metadata transport at concrete bodies and chunks.
use label_309_py.Prelude.{◌≡◌, refl, List, [], ◌∷◌, ok, err, arith}
use label_309_py.Bytes.{Bytes, from_bytes_big}
use label_309_py.Fixtures.{pad, length-pad}
use label_309_py.Carriage.{
  chunk_record_body, reassemble_label_309_value, encode_label_309_value, join, malformed_cbor,
  chunk_too_large, read_strict_head, strict_argument,
}
use label_309_py.Carriage.Chunks.{IsSplit, chunk_record_body-IsSplit}
use label_309_py.Carriage.Reading.{chunk_array}
use label_309_py.Carriage.RoundTrip.{
  reassemble_label_309_value-chunk_array, reassemble_label_309_value-oversized,
  reassemble-encode_label_309_value,
}

-- A byte string on its own and a length that is not minimal are refused.
not_an_array : reassemble_label_309_value (0x41 ∷ 7 ∷ []) ≡ err malformed_cbor
unfolding reassemble_label_309_value read_strict_head
not_an_array = refl

long_form_length : reassemble_label_309_value (0x98 ∷ 1 ∷ 0x41 ∷ 7 ∷ []) ≡ err malformed_cbor
unfolding reassemble_label_309_value read_strict_head strict_argument from_bytes_big
long_form_length = refl

chunk_record_body-IsSplit_example :
    (chunks : List Bytes) × ((chunk_record_body (pad 100 []) ≡ ok chunks)
      × IsSplit (pad 100 []) chunks)
chunk_record_body-IsSplit_example =
    chunk_record_body-IsSplit (pad 100 []) (rw (length-pad 100 []) (omega arith))

reassemble_label_309_value-chunk_array_example :
    reassemble_label_309_value (chunk_array ((1 ∷ 2 ∷ []) ∷ [] ∷ (3 ∷ []) ∷ []))
    ≡ ok (1 ∷ 2 ∷ 3 ∷ [])
unfolding join
reassemble_label_309_value-chunk_array_example =
    reassemble_label_309_value-chunk_array ((1 ∷ 2 ∷ []) ∷ [] ∷ (3 ∷ []) ∷ [])
      (omega arith, (omega arith, (omega arith, tt))) (omega arith)

reassemble_label_309_value-oversized_example :
    reassemble_label_309_value (chunk_array ((1 ∷ []) ∷ pad 65 [] ∷ (3 ∷ []) ∷ []))
    ≡ err chunk_too_large
reassemble_label_309_value-oversized_example =
    reassemble_label_309_value-oversized ((1 ∷ []) ∷ []) ((3 ∷ []) ∷ []) (pad 65 [])
      (omega arith, tt) (omega (arith, length-pad 65 [])) (omega (arith, length-pad 65 []))
      (omega arith)

reassemble-encode_label_309_value_example :
    (value : Bytes) × ((encode_label_309_value chunk_array (1 ∷ 2 ∷ 3 ∷ []) ≡ ok value)
      × (reassemble_label_309_value value ≡ ok (1 ∷ 2 ∷ 3 ∷ [])))
reassemble-encode_label_309_value_example =
    reassemble-encode_label_309_value chunk_array (λ chunks fits few. refl) (1 ∷ 2 ∷ 3 ∷ [])
      (omega arith) (omega arith)

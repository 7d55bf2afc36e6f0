-- ===== src/Transaction/Runs.antt =====
-- Runs of the walker and of the slicer, and their theorems at concrete bytes.
use label_309_py.Prelude.{
  ℕ, ◌+◌, ◌≡◌, ◌≢◌, ◌↔◌, refl, inl, inr, [], ◌∷◌, ok, err, none, arith, ◌*◌, ◌<◌, lt→ltb,
}
use label_309_py.Bytes.{from_bytes_big}
use label_309_py.Walker.{
  skip_item, malformed, out_of_fuel, skip_cbor_item, skip_times, skip_payload, read_head,
  read_argument,
}
use label_309_py.Walker.Format.{IsHead, IsItem, plain, done}
use label_309_py.Walker.Accepts.{Skipped, skip_item-ne-out_of_fuel, skip_item-eq-ok_iff}
use label_309_py.Transaction.{slice_tx_components, unwrap_auxiliary_data}
use label_309_py.Prelude.{some}
use label_309_py.Transaction.{auxiliary_data_hash_from_tx_body}
use label_309_py.Transaction.BodyHash.{auxiliary_data_hash_from_tx_body-entries}
use label_309_py.Transaction.Components.{slice_tx_components-parts, parsed}
use label_309_py.Transaction.Metadata.{Entry, unwrap_auxiliary_data-envelopes, unwrapped}

-- A head whose argument is in its initial byte.
short-IsHead : (mt ai : ℕ) → ai < 24 → IsHead ((mt * 32 + ai) ∷ []) mt ai ai
short-IsHead mt ai h = record {
  argument = [];
  bytes = refl;
  size = inl (h, refl);
  value = rw (lt→ltb ai 24 h);
}

-- The simple value 16 in its two bytes, and 0: the walk takes both for one item.
simple_value_takes_more : skip_item (0xF8 ∷ 16 ∷ 0 ∷ []) 0 ≡ ok 3
unfolding skip_item skip_cbor_item skip_payload read_head read_argument from_bytes_big
simple_value_takes_more = refl

cut_array : skip_item (0x82 ∷ 0 ∷ []) 0 ≡ err malformed
unfolding skip_item skip_cbor_item skip_payload read_head skip_times
cut_array = refl

zero-IsItem : IsItem (0 ∷ [])
zero-IsItem = plain (short-IsHead 0 0 (omega arith)) (inl refl) done

skip_item-ne-out_of_fuel_example : skip_item (0x81 ∷ 0x81 ∷ 0x81 ∷ []) 0 ≢ err out_of_fuel
skip_item-ne-out_of_fuel_example = skip_item-ne-out_of_fuel (0x81 ∷ 0x81 ∷ 0x81 ∷ []) 0

skip_item-eq-ok_iff_example :
    (skip_item (0x81 ∷ 5 ∷ 6 ∷ []) 0 ≡ ok 2) ↔ Skipped (0x81 ∷ 5 ∷ 6 ∷ []) 1 0 2
skip_item-eq-ok_iff_example = skip_item-eq-ok_iff (0x81 ∷ 5 ∷ 6 ∷ []) 0 2

slice_tx_components-parts_example :
    slice_tx_components (0x83 ∷ 0 ∷ 0 ∷ 0 ∷ 9 ∷ []) ≡ parsed (0 ∷ []) (0 ∷ []) 0 []
slice_tx_components-parts_example =
    slice_tx_components-parts (0x83 ∷ []) (0 ∷ []) (0 ∷ []) none 0 [] (9 ∷ []) 3
      (short-IsHead 4 3 (omega arith)) zero-IsItem zero-IsItem tt zero-IsItem

-- {309: 0} in its three envelopes.
abbrev entry : Entry
entry = record { label = 309; key_info = 25; key = 25 ∷ 1 ∷ 53 ∷ []; value = 0 ∷ [] }

key_309 : IsHead (25 ∷ 1 ∷ 53 ∷ []) 0 25 309
unfolding from_bytes_big
key_309 = record {
  argument = 1 ∷ 53 ∷ [];
  bytes = refl;
  size = inr (inr (inl (refl, refl)));
  value = refl;
}

tag_259 : IsHead (0xD9 ∷ 1 ∷ 3 ∷ []) 6 25 259
unfolding from_bytes_big
tag_259 = record {
  argument = 1 ∷ 3 ∷ [];
  bytes = refl;
  size = inr (inr (inl (refl, refl)));
  value = refl;
}

unwrap_auxiliary_data-envelopes_example :
    (unwrap_auxiliary_data (0xA1 ∷ 25 ∷ 1 ∷ 53 ∷ 0 ∷ 7 ∷ []) ≡ unwrapped (entry ∷ []))
    × (unwrap_auxiliary_data (0x82 ∷ 0xA1 ∷ 25 ∷ 1 ∷ 53 ∷ 0 ∷ 7 ∷ []) ≡ unwrapped (entry ∷ []))
    × (unwrap_auxiliary_data (0xD9 ∷ 1 ∷ 3 ∷ 0xA1 ∷ 0 ∷ 0xA1 ∷ 25 ∷ 1 ∷ 53 ∷ 0 ∷ 7 ∷ [])
        ≡ unwrapped (entry ∷ []))
unwrap_auxiliary_data-envelopes_example =
    unwrap_auxiliary_data-envelopes (0xA1 ∷ []) 1 (entry ∷ []) (7 ∷ [])
      (short-IsHead 5 1 (omega arith)) ((key_309, zero-IsItem), tt) (0x82 ∷ []) (0xD9 ∷ 1 ∷ 3 ∷ [])
      (0xA1 ∷ []) (0 ∷ []) 2 25 1 0 0 (short-IsHead 4 2 (omega arith)) tag_259
      (short-IsHead 5 1 (omega arith)) (short-IsHead 0 0 (omega arith))

-- The body {0: 1, 7: h'0a0b'}.
abbrev other_entry : Entry
other_entry = record { label = 0; key_info = 0; key = 0 ∷ []; value = 1 ∷ [] }

one-IsItem : IsItem (1 ∷ [])
one-IsItem = plain (short-IsHead 0 1 (omega arith)) (inl refl) done

auxiliary_data_hash_from_tx_body-entries_example :
    (auxiliary_data_hash_from_tx_body (0xA1 ∷ 0 ∷ 1 ∷ 9 ∷ []) ≡ ok none)
    × (auxiliary_data_hash_from_tx_body (0xA2 ∷ 0 ∷ 1 ∷ 7 ∷ 0x42 ∷ 10 ∷ 11 ∷ 9 ∷ [])
        ≡ ok (some (10 ∷ 11 ∷ [])))
auxiliary_data_hash_from_tx_body-entries_example =
    auxiliary_data_hash_from_tx_body-entries (0xA1 ∷ []) (0xA2 ∷ []) (other_entry ∷ []) (7 ∷ [])
      (0x42 ∷ []) (10 ∷ 11 ∷ []) (9 ∷ []) 1 2 7 2 0
      (((short-IsHead 0 0 (omega arith), one-IsItem), λ same. omega arith), tt)
      (short-IsHead 5 1 (omega arith)) (short-IsHead 5 2 (omega arith))
      (short-IsHead 0 7 (omega arith)) (short-IsHead 2 2 (omega arith))

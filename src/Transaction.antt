-- ===== src/Transaction.antt =====
-- src/cardanowall/verifier/cbor_walker.py: the byte-faithful slices of a transaction, and the
-- label-309 value inside its auxiliary data.
pub mod Components
pub mod Metadata
pub mod BodyHash
mod Runs
use label_309_py.Prelude.{
  ℕ, zero, suc, ◌+◌, Bool, true, false, not, ◌&&◌, ◌||◌, Option, none, some, List, [], ◌∷◌, ◌++◌,
  ltb, leb, ◌==◌, if◌then◌else◌, length, get_or, Result, ok, err, ◌>>=◌, ◌>>◌, require,
}
use label_309_py.Bytes.{Bytes, slice}
use label_309_py.Walker.{CborHead, WalkError, malformed, read_head, skip_item}

abbrev pub cardano_aux_data_tag : ℕ
cardano_aux_data_tag = 259

abbrev pub poe_label : ℕ
poe_label = 309

abbrev pub body_key_aux_data_hash : ℕ
body_key_aux_data_hash = 7

pub record TxComponents : Type 0 where
  pub tx_body : Bytes
  pub witness_set : Bytes
  pub auxiliary_data : Option Bytes

-- The part of `slice_tx_components` behind the head: `four` tells the post-Alonzo shape.
unfoldable pub slice_elements : Bytes → ℕ → Bool → Result WalkError TxComponents
slice_elements tx body_start four = do
  body_end ← skip_item tx body_start
  witness_set_end ← skip_item tx body_end
  pos ← (if four then skip_item tx witness_set_end else ok witness_set_end)
  let tx_body = slice tx body_start body_end
  let witness_set = slice tx body_end witness_set_end
  let absent = ok (record { tx_body = tx_body; witness_set = witness_set; auxiliary_data = none })
  let present = do
    aux_end ← skip_item tx pos
    ok (record {
      tx_body = tx_body;
      witness_set = witness_set;
      auxiliary_data = some (slice tx pos aux_end);
    })
  require (not (leb (length tx) pos)) malformed
  if get_or tx pos 0 == 0xF6 || get_or tx pos 0 == 0xF7 then absent else present

unfoldable pub slice_tx_components : Bytes → Result WalkError TxComponents
slice_tx_components tx_cbor = do
  tx_head ← read_head tx_cbor 0
  require (tx_head.mt == 4) malformed
  require (tx_head.value_u64 == 3 || tx_head.value_u64 == 4) malformed
  slice_elements tx_cbor tx_head.payload_start (tx_head.value_u64 == 4)

-- The loop over the body's entries that are left.
unfoldable pub find_aux_data_hash : Bytes → ℕ → ℕ → Result WalkError (Option Bytes)
find_aux_data_hash tx_body zero pos = ok none
find_aux_data_hash tx_body (suc entries) pos = do
  key_head ← read_head tx_body pos
  value_start ← skip_item tx_body pos
  value_end ← skip_item tx_body value_start
  let found = do
    value_head ← read_head tx_body value_start
    require (value_head.mt == 2) malformed
    ok (some (slice tx_body value_head.payload_start value_end))
  let more = find_aux_data_hash tx_body entries value_end
  if key_head.mt == 0 && key_head.value_u64 == body_key_aux_data_hash then found else more

unfoldable pub auxiliary_data_hash_from_tx_body : Bytes → Result WalkError (Option Bytes)
auxiliary_data_hash_from_tx_body tx_body = do
  body_head ← read_head tx_body 0
  require (body_head.mt == 5) malformed
  find_aux_data_hash tx_body body_head.value_u64 body_head.payload_start

pub record UnwrappedAuxiliaryData : Type 0 where
  pub label_309 : Option Bytes
  pub metadata_labels : List ℕ

-- Python's `list.sort` on integers.
unfoldable pub insert_label : ℕ → List ℕ → List ℕ
insert_label l [] = l ∷ []
insert_label l (m ∷ ms) = if leb l m then l ∷ m ∷ ms else m ∷ insert_label l ms

unfoldable pub sort_labels : List ℕ → List ℕ
sort_labels [] = []
sort_labels (l ∷ ls) = insert_label l (sort_labels ls)

-- The loop over the metadata's entries that are left, with the labels read so far in their order.
unfoldable pub walk_entries :
    Bytes → ℕ → ℕ → List ℕ → Option Bytes → Result WalkError UnwrappedAuxiliaryData
walk_entries aux zero pos labels label_309 =
    ok (record { label_309 = label_309; metadata_labels = sort_labels labels })
walk_entries aux (suc entries) pos labels label_309 = do
  key_head ← read_head aux pos
  require (key_head.mt == 0) malformed
  value_start ← skip_item aux pos
  value_end ← skip_item aux value_start
  walk_entries aux entries value_end (labels ++ key_head.value_u64 ∷ []) (
      if key_head.value_u64 == poe_label then some (slice aux value_start value_end) else label_309)

unfoldable pub walk_metadata_map : Bytes → ℕ → Result WalkError UnwrappedAuxiliaryData
walk_metadata_map aux map_pos = do
  meta_head ← read_head aux map_pos
  require (meta_head.mt == 5) malformed
  walk_entries aux meta_head.value_u64 meta_head.payload_start [] none

unfoldable pub find_tag259_metadata_map : Bytes → ℕ → ℕ → Result WalkError (Option ℕ)
find_tag259_metadata_map aux zero pos = ok none
find_tag259_metadata_map aux (suc entries) pos = do
  key_head ← read_head aux pos
  value_start ← skip_item aux pos
  value_end ← skip_item aux value_start
  let more = find_tag259_metadata_map aux entries value_end
  if key_head.mt == 0 && key_head.value_u64 == 0 then ok (some value_start) else more

unfoldable pub walk_found : Bytes → Option ℕ → Result WalkError UnwrappedAuxiliaryData
walk_found aux none = ok (record { label_309 = none; metadata_labels = [] })
walk_found aux (some pos) = walk_metadata_map aux pos

-- The three envelopes, told apart by the head alone.
unfoldable pub unwrap_tagged : Bytes → CborHead → Result WalkError UnwrappedAuxiliaryData
unwrap_tagged aux head = do
  require (head.value_u64 == cardano_aux_data_tag) malformed
  inner_head ← read_head aux head.payload_start
  require (inner_head.mt == 5) malformed
  found ← find_tag259_metadata_map aux inner_head.value_u64 inner_head.payload_start
  walk_found aux found

unfoldable pub unwrap_array : Bytes → CborHead → Result WalkError UnwrappedAuxiliaryData
unwrap_array aux head = do
  require (head.value_u64 == 2) malformed
  first_head ← read_head aux head.payload_start
  require (first_head.mt == 5) malformed
  walk_metadata_map aux head.payload_start

unfoldable pub unwrap_auxiliary_data : Bytes → Result WalkError UnwrappedAuxiliaryData
unwrap_auxiliary_data aux = do
  head ← read_head aux 0
  let other = if head.mt == 5 then walk_metadata_map aux 0 else err malformed
  let array = if head.mt == 4 then unwrap_array aux head else other
  if head.mt == 6 then unwrap_tagged aux head else array

-- ===== src/Transaction/Metadata.antt =====
-- `unwrap_auxiliary_data` of cbor_walker.py on well-formed maps with unsigned keys.
use label_309_py.Prelude.{
  ℕ, suc, ◌+◌, ◌*◌, ◌≡◌, refl, ◌∙◌, inl, inr, false, none, some, Option, ok, Result, [], ◌∷◌, ◌++◌,
  List, map, length, ◌==◌, arith, if◌then◌else◌, append-nil, append_assoc, All, subst,
}
use label_309_py.Bytes.{Bytes}
use label_309_py.Walker.{WalkError}
use label_309_py.Walker.Position.{At, At-left, At-right}
use label_309_py.Walker.Format.{IsHead, IsItem, Items, Items-append_one, plain, nested, done}
use label_309_py.Walker.Heads.{read_head-At}
use label_309_py.Walker.Accepts.{skip_item-IsItem}
use label_309_py.Transaction.{
  UnwrappedAuxiliaryData, walk_entries, walk_metadata_map, sort_labels, poe_label,
  find_tag259_metadata_map, walk_found, unwrap_tagged, unwrap_array, unwrap_auxiliary_data,
}
use label_309_py.Transaction.Components.{slice_here}

-- A map entry whose key is an unsigned integer.
pub record Entry : Type 0 where
  pub label : ℕ
  pub key_info : ℕ
  pub key : Bytes
  pub value : Bytes

abbrev pub IsEntry : Entry → Type 0
IsEntry e = IsHead e.key 0 e.key_info e.label × IsItem e.value

abbrev pub entries_bytes : List Entry → Bytes
entries_bytes [] = []
entries_bytes (e ∷ es) = e.key ++ (e.value ++ entries_bytes es)

-- The value under label 309, the last one if there are several.
abbrev pub value_309 : Option Bytes → List Entry → Option Bytes
value_309 found [] = found
value_309 found (e ∷ es) = value_309 (if e.label == poe_label then some e.value else found) es

abbrev pub label_of : Entry → ℕ
label_of e = e.label

pub IsHead-IsItem : {key : Bytes} {ai v : ℕ} → IsHead key 0 ai v → IsItem key
IsHead-IsItem {key} h = subst (Items false 1) (append-nil key) (plain h (inl refl) done)

entries-Items :
    (es : List Entry)
    → All IsEntry es
    → (k : ℕ) × (k ≡ length es * 2) × Items false k (entries_bytes es)
entries-Items [] valid = (0, omega arith, done)
entries-Items (e ∷ es) ((key, value), valid) =
    let (k, twice, items) = entries-Items es valid in
    (suc (suc k), omega arith, plain key (inl refl) (item-append e.value value items))
  where
    item-append :
        (x : Bytes) {k : ℕ} {rest : Bytes}
        → IsItem x
        → Items false k rest
        → Items false (suc k) (x ++ rest)
    item-append x item items = Items-append_one item items

metadata-IsItem :
    (head : Bytes) (ai : ℕ) (es : List Entry)
    → IsHead head 5 ai (length es)
    → All IsEntry es
    → IsItem (head ++ entries_bytes es)
metadata-IsItem head ai es h valid =
    let (k, twice, items) = entries-Items es valid in
    subst (λ x. Items false 1 (head ++ x)) (append-nil (entries_bytes es))
      (nested _ h (inr (inl (refl, twice))) items done)

module _ {aux : Bytes} where
  walk_entries-entries :
      (es : List Entry) (pos : ℕ) (labels : List ℕ) (found : Option Bytes)
      → All IsEntry es
      → At aux pos (entries_bytes es)
      → walk_entries aux (length es) pos labels found
        ≡ ok (record {
          label_309 = value_309 found es;
          metadata_labels = sort_labels (labels ++ map label_of es);
        })
  unfolding walk_entries
  walk_entries-entries [] pos labels found valid a = rw (append-nil labels)
  walk_entries-entries (e ∷ es) pos labels found ((key, value), valid) a =
      let rest = At-right e.key _ a in
      let end = pos + length e.key in
      rw
        (
          read_head-At key (At-left e.key _ a),
          skip_item-IsItem e.key pos (IsHead-IsItem key) (At-left e.key _ a),
          skip_item-IsItem e.value end value (At-left e.value _ rest),
          slice_here e.value end (At-left e.value _ rest),
        )
        (walk_entries-entries es (end + length e.value) (labels ++ e.label ∷ []) _ valid
            (At-right e.value _ rest)
          ∙ rw (append_assoc labels (e.label ∷ []) (map label_of es)))

  walk_metadata_map-entries :
      (head : Bytes) (ai : ℕ) (es : List Entry) (pos : ℕ)
      → IsHead head 5 ai (length es)
      → All IsEntry es
      → At aux pos (head ++ entries_bytes es)
      → walk_metadata_map aux pos
        ≡ ok (record {
          label_309 = value_309 none es;
          metadata_labels = sort_labels (map label_of es);
        })
  unfolding walk_metadata_map
  walk_metadata_map-entries head ai es pos h valid a =
      rw (read_head-At h (At-left head _ a))
        (walk_entries-entries es (pos + length head) [] none valid (At-right head _ a))

abbrev pub unwrapped : List Entry → Result WalkError UnwrappedAuxiliaryData
unwrapped es =
    ok (record { label_309 = value_309 none es; metadata_labels = sort_labels (map label_of es) })

module _ {aux : Bytes} (head : Bytes) (ai : ℕ) (es : List Entry) (h : IsHead head 5 ai (length es))
    (valid : All IsEntry es) where
  unwrap_array-At :
      (info pos : ℕ)
      → At aux pos (head ++ entries_bytes es)
      → unwrap_array aux (record { mt = 4; ai = info; payload_start = pos; value_u64 = 2 })
        ≡ unwrapped es
  unfolding unwrap_array
  unwrap_array-At info pos a =
      rw (read_head-At h (At-left head _ a)) (walk_metadata_map-entries head ai es pos h valid a)

  unwrap_tagged-At :
      {outer key : Bytes} {outer_info key_info n : ℕ} (info pos : ℕ)
      → IsHead outer 5 outer_info (suc n)
      → IsHead key 0 key_info 0
      → At aux pos (outer ++ (key ++ (head ++ entries_bytes es)))
      → unwrap_tagged aux (record { mt = 6; ai = info; payload_start = pos; value_u64 = 259 })
        ≡ unwrapped es
  unfolding unwrap_tagged find_tag259_metadata_map walk_found
  unwrap_tagged-At {outer} {key} info pos ho hk a =
      let inner = At-right outer _ a in
      let map_at = At-right key _ inner in
      let item = metadata-IsItem head ai es h valid in
      let start = pos + length outer in
      rw
        (
          read_head-At ho (At-left outer _ a),
          read_head-At hk (At-left key _ inner),
          skip_item-IsItem key start (IsHead-IsItem hk) (At-left key _ inner),
          skip_item-IsItem (head ++ entries_bytes es) (start + length key) item map_at,
        )
        (walk_metadata_map-entries head ai es (start + length key) h valid map_at)

-- A metadata map of entries with unsigned labels and well-formed values gives the value under label
-- 309, the last if there are several, and the sorted labels, in each of the three envelopes: as it
-- is, as the first of two array elements, and under key 0, the first, of a tag-259 map.
pub unwrap_auxiliary_data-envelopes :
    (head : Bytes) (ai : ℕ) (es : List Entry) (trailing : Bytes)
    → IsHead head 5 ai (length es)
    → All IsEntry es
    → (array tag outer key : Bytes) (ai₁ ai₂ ai₃ ai₄ n : ℕ) → IsHead array 4 ai₁ 2
    → IsHead tag 6 ai₂ 259
    → IsHead outer 5 ai₃ (suc n)
    → IsHead key 0 ai₄ 0
    → (unwrap_auxiliary_data ((head ++ entries_bytes es) ++ trailing) ≡ unwrapped es)
      × (unwrap_auxiliary_data ((array ++ (head ++ entries_bytes es)) ++ trailing) ≡ unwrapped es)
      × (unwrap_auxiliary_data ((tag ++ (outer ++ (key ++ (head ++ entries_bytes es)))) ++ trailing)
          ≡ unwrapped es)
unfolding unwrap_auxiliary_data
unwrap_auxiliary_data-envelopes head ai es trailing h valid array tag outer key ai₁ ai₂ ai₃ ai₄ n ha
      ht ho hk =
    let m = head ++ entries_bytes es in
    let a₁ : At (m ++ trailing) 0 m = record { rest = trailing; here = refl } in
    let a₂ : At ((array ++ m) ++ trailing) 0 (array ++ m) = record {
      rest = trailing;
      here = refl;
    } in
    let in₃ = tag ++ (outer ++ (key ++ m)) in
    let a₃ : At (in₃ ++ trailing) 0 in₃ = record { rest = trailing; here = refl } in
    (
      rw (read_head-At h (At-left head _ a₁)) (walk_metadata_map-entries head ai es 0 h valid a₁),
      rw (read_head-At ha (At-left array m a₂))
          (unwrap_array-At head ai es h valid ai₁ (0 + length array) (At-right array m a₂)),
      rw (read_head-At ht (At-left tag _ a₃))
          (unwrap_tagged-At head ai es h valid ai₂ (0 + length tag) ho hk (At-right tag _ a₃)),
    )

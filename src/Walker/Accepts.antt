-- ===== src/Walker/Accepts.antt =====
-- What `_skip_cbor_item` of cbor_walker.py accepts, and that its fuel suffices.
use label_309_py.Prelude.{
  ℕ, zero, suc, ◌+◌, ◌*◌, ◌<◌, ◌≤◌, ◌≡◌, ◌≢◌, refl, sym, ap, ◌∙◌, ◌⊎◌, ◌↔◌, inl, inr, true, [],
  ◌++◌, length, arith, ok, err, >>=-eq-ok, >>=-eq-err, ok-injective, Bool-cases, length-append,
  length-drop, ◌==◌, ◌||◌, ◌&&◌, subst, ==→eq, Result,
}
use label_309_py.Bytes.{Bytes, slice}
use label_309_py.Walker.{
  CborHead, WalkError, out_of_fuel, read_argument, read_head, skip_payload, skip_times,
  skip_cbor_item, skip_item,
}
use label_309_py.Walker.Position.{At, At-append, At-length, slice-At, nil-At}
use label_309_py.Walker.Format.{
  Items, IsItem, IsPlain, Holds, done, plain, string, nested, long_simple,
}
use label_309_py.Walker.Heads.{HeadRead, read_head-HeadRead}
use label_309_py.Walker.Skip.{length-append_three, length-IsHead, Items-skip_times}

-- The ways in which a payload is stepped over.
data PayloadSkipped (nest : ℕ → ℕ → Result WalkError ℕ) (data_ : Bytes) (h : CborHead) (e : ℕ)
    : Type 0 where
  whole : IsPlain h.mt h.ai → e ≡ h.payload_start → PayloadSkipped nest data_ h e
  text :
      (h.mt ≡ 2) ⊎ (h.mt ≡ 3)
      → h.payload_start + h.value_u64 ≤ length data_
      → e ≡ h.payload_start + h.value_u64
      → PayloadSkipped nest data_ h e
  inside :
      (k : ℕ)
      → Holds h.mt h.value_u64 k
      → nest k h.payload_start ≡ ok e
      → PayloadSkipped nest data_ h e
  wide :
      h.mt ≡ 7
      → h.ai ≡ 24
      → h.payload_start + 1 ≤ length data_
      → e ≡ h.payload_start + 1
      → PayloadSkipped nest data_ h e

module _ (nest : ℕ → ℕ → Result WalkError ℕ) (data_ : Bytes) (h : CborHead) where
  skip_payload-PayloadSkipped :
      (e : ℕ) → skip_payload nest data_ h ≡ ok e → PayloadSkipped nest data_ h e
  unfolding skip_payload
  skip_payload-PayloadSkipped e p = elim (Bool-cases (h.mt == 4)) [
    | inl four ↦ inside h.value_u64 (inl (==→eq _ _ four, refl)) (ground arith)
    | inr n4 ↦ elim (Bool-cases (h.mt == 5)) [
      | inl five ↦ inside (h.value_u64 * 2) (inr (inl (==→eq _ _ five, refl))) (ground arith)
      | inr n5 ↦ elim (Bool-cases (h.mt == 6)) [
        | inl six ↦ inside 1 (inr (inr (==→eq _ _ six, refl))) (ground arith)
        | inr n6 ↦ elim (Bool-cases (h.mt == 2 || h.mt == 3)) [
          | inl str ↦ text (ground arith) (ground arith) (ground arith)
          | inr nstr ↦ elim (Bool-cases (h.mt == 7 && h.ai == 24)) [
            | inl two ↦ wide (ground arith) (ground arith) (ground arith) (ground arith)
            | inr other ↦ whole (ground arith) (ground arith)
          ]
        ]
      ]
    ]
  ]

  -- Only a nested walk runs out of fuel.
  skip_payload-fuel :
      skip_payload nest data_ h ≡ err out_of_fuel
      → (k : ℕ) × (nest k h.payload_start ≡ err out_of_fuel)
  unfolding skip_payload
  skip_payload-fuel p = elim (Bool-cases (h.mt == 4)) [
    | inl four ↦ (h.value_u64, ground arith)
    | inr n4 ↦ elim (Bool-cases (h.mt == 5)) [
      | inl five ↦ (h.value_u64 * 2, ground arith)
      | inr n5 ↦ (1, ground arith)
    ]
  ]

read_head-ne-out_of_fuel : (data_ : Bytes) (pos : ℕ) → read_head data_ pos ≢ err out_of_fuel
unfolding read_head read_argument
read_head-ne-out_of_fuel data_ pos p = ground arith

-- The items that a walk from `pos` to `e` has stepped over.
pub record Skipped (data_ : Bytes) (n pos e : ℕ) : Type 0 where
  pub bytes : Bytes
  pub items : Items true n bytes
  pub at : At data_ pos bytes
  pub ends : e ≡ pos + length bytes

-- A head and what follows it, at their positions.
joined :
    {data_ : Bytes} {pos : ℕ} (x y z : Bytes)
    → At data_ pos x
    → At data_ (pos + length x) y
    → At data_ (pos + length x + length y) z
    → At data_ pos (x ++ (y ++ z))
joined x y z a b c = At-append x (y ++ z) a (At-append y z b c)

-- A head, its payload and a walk behind them.
behind :
    {data_ : Bytes} {pos p' e n : ℕ} {h : CborHead} (nest : ℕ → ℕ → Result WalkError ℕ)
    (r : HeadRead data_ pos h)
    → Skipped data_ n p' e
    → (payload : Bytes) → At data_ (pos + length r.head) payload
    → p' ≡ pos + length r.head + length payload
    → ((rest : Bytes) → Items true n rest → Items true (suc n) (r.head ++ (payload ++ rest)))
    → Skipped data_ (suc n) pos e
behind {data_} {pos} {e} {n} nest r s payload there z build =
    let s' : Skipped data_ n (pos + length r.head + length payload) e =
      subst (λ q. Skipped data_ n q e) z s in
    record {
      bytes = r.head ++ (payload ++ s'.bytes);
      items = build s'.bytes s'.items;
      at = joined r.head payload s'.bytes r.at there s'.at;
      ends = omega (arith, s'.ends, length-append_three r.head payload s'.bytes);
    }

-- One item more in front of a walk.
prepend :
    {data_ : Bytes} {pos p' e n : ℕ} {h : CborHead} (nest : ℕ → ℕ → Result WalkError ℕ)
    → HeadRead data_ pos h
    → ((k q e' : ℕ) → nest k q ≡ ok e' → Skipped data_ k q e')
    → PayloadSkipped nest data_ h p'
    → Skipped data_ n p' e
    → Skipped data_ (suc n) pos e
prepend {data_} {pos} {e} {n} nest r inner (whole form z) s =
    let s' : Skipped data_ n (pos + length r.head) e =
      subst (λ q. Skipped data_ n q e) (z ∙ r.ends) s in
    record {
      bytes = r.head ++ s'.bytes;
      items = plain r.is_head form s'.items;
      at = At-append r.head s'.bytes r.at s'.at;
      ends = omega (arith, s'.ends, length-append r.head s'.bytes);
    }
prepend {data_} {pos} {e} {n} {h} nest r inner (text form fits z) s =
    let start = pos + length r.head in
    let (there, size) = slice-At data_ start h.value_u64 (omega (arith, r.ends)) in
    behind nest r s (slice data_ start (start + h.value_u64)) there (omega (arith, r.ends, size))
      (λ rest items. string _ r.is_head form size items)
prepend {data_} {pos} {e} {n} {h} nest r inner (inside k form walk) s =
    let i = inner k h.payload_start _ walk in
    behind nest r s i.bytes (subst (λ q. At data_ q i.bytes) r.ends i.at)
      (omega (arith, r.ends, i.ends)) (λ rest items. nested _ r.is_head form i.items items)
prepend {data_} {pos} {e} {n} {h} nest r inner (wide seven long fits z) s =
    let start = pos + length r.head in
    let (there, size) = slice-At data_ start 1 (omega (arith, r.ends)) in
    behind nest r s (slice data_ start (start + 1)) there (omega (arith, r.ends, size))
      (λ rest items. long_simple _ refl r.is_head seven long size items)

pub skip_times-Skipped :
    (f n : ℕ) (data_ : Bytes) (pos e : ℕ)
    → skip_times (skip_cbor_item f data_) n pos ≡ ok e
    → Skipped data_ n pos e
unfolding skip_times skip_cbor_item
skip_times-Skipped f zero data_ pos e p = record {
  bytes = [];
  items = done;
  at = nil-At data_ pos;
  ends = omega (arith, ok-injective _ p);
}
skip_times-Skipped zero (suc n) data_ pos e p = absurd (cc)
skip_times-Skipped (suc f) (suc n) data_ pos e p =
    let (p', item, rest) = >>=-eq-ok (skip_cbor_item (suc f) data_ pos) _ p in
    let (h, headed, payload) = >>=-eq-ok (read_head data_ pos) _ item in
    let r = read_head-HeadRead data_ pos h headed in
    let s = skip_times-Skipped (suc f) n data_ p' e rest in
    prepend (skip_times (skip_cbor_item f data_)) r (λ k q e'. skip_times-Skipped f k data_ q e')
      (skip_payload-PayloadSkipped _ data_ h p' payload) s

-- With a unit of fuel for each byte left, and one more, no walk runs out of fuel.
skip_times-ne-out_of_fuel :
    (f n : ℕ) (data_ : Bytes) (pos : ℕ)
    → 1 ≤ f
    → length data_ < pos + f
    → skip_times (skip_cbor_item f data_) n pos ≢ err out_of_fuel
unfolding skip_times skip_cbor_item
skip_times-ne-out_of_fuel f zero data_ pos some_fuel h p = absurd (cc)
skip_times-ne-out_of_fuel zero (suc n) data_ pos some_fuel h p = absurd (omega arith)
skip_times-ne-out_of_fuel (suc f) (suc n) data_ pos some_fuel h p =
    elim (>>=-eq-err (skip_cbor_item (suc f) data_ pos) _ p) [
      | inr (p', item, rest) ↦
          let one = skip_times-Skipped (suc f) 1 data_ pos p' (rw item) in
          skip_times-ne-out_of_fuel (suc f) n data_ p' some_fuel (omega (arith, one.ends)) rest
      | inl item ↦ elim (>>=-eq-err (read_head data_ pos) _ item) [
        | inl head ↦ read_head-ne-out_of_fuel data_ pos head
        | inr (h', headed, payload) ↦
            let (k, walk) = skip_payload-fuel _ data_ h' payload in
            let r = read_head-HeadRead data_ pos h' headed in
            let inside_end = At-length r.head r.at (length-IsHead r.is_head) in
            skip_times-ne-out_of_fuel f k data_ h'.payload_start
              (omega (arith, r.ends, inside_end, length-IsHead r.is_head))
              (omega (arith, r.ends, length-IsHead r.is_head)) walk
      ]
    ]

At-short : {data_ : Bytes} {pos : ℕ} (x : Bytes) → At data_ pos x → length x ≤ suc (length data_)
At-short {data_} {pos} x a =
    omega (arith, ap length a.here, length-append x a.rest, length-drop pos data_)

Skipped-length :
    {data_ : Bytes} {n pos e : ℕ} (s : Skipped data_ n pos e) → length s.bytes ≤ suc (length data_)
Skipped-length s = At-short s.bytes s.at

-- `_skip_cbor_item` ends on every input: the walk never runs out of its fuel.
pub skip_item-ne-out_of_fuel : (data_ : Bytes) (pos : ℕ) → skip_item data_ pos ≢ err out_of_fuel
unfolding skip_item skip_times
skip_item-ne-out_of_fuel data_ pos p =
    skip_times-ne-out_of_fuel (suc (length data_)) 1 data_ pos (omega arith) (omega arith) (rw p)

-- `_skip_cbor_item` steps from `pos` to `e` exactly when a well-formed item stands between them,
-- where a two-byte simple value counts as well formed with one byte more.
pub skip_item-eq-ok_iff :
    (data_ : Bytes) (pos e : ℕ) → (skip_item data_ pos ≡ ok e) ↔ Skipped data_ 1 pos e
unfolding skip_item skip_times
skip_item-eq-ok_iff data_ pos e = (
  λ p. skip_times-Skipped (suc (length data_)) 1 data_ pos e (rw p),
  λ s.
      let room = Skipped-length s in
      let (e', item, end) =
        >>=-eq-ok (skip_cbor_item (suc (length data_)) data_ pos) _ (
          Items-skip_times data_ s.items (suc (length data_)) pos s.at room ∙ ap ok (sym s.ends)) in
      item ∙ end,
)

-- A well-formed item is stepped over.
pub skip_item-IsItem :
    {data_ : Bytes} (x : Bytes) (pos : ℕ)
    → IsItem x
    → At data_ pos x
    → skip_item data_ pos ≡ ok (pos + length x)
unfolding skip_item skip_times
skip_item-IsItem {data_} x pos item a =
    let (e, skips, end) =
      >>=-eq-ok (skip_cbor_item (suc (length data_)) data_ pos) _
        (Items-skip_times data_ item (suc (length data_)) pos a (At-short x a)) in
    skips ∙ end

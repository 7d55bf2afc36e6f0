-- ===== src/Walker/Skip.antt =====
-- `_skip_cbor_item` of cbor_walker.py steps over exactly the well-formed items.
use label_309_py.Prelude.{
  ℕ, zero, suc, ◌+◌, ◌<◌, ◌≤◌, ◌≡◌, refl, ap, ◌∙◌, ◌⊎◌, Bool, ◌++◌, length, arith, ok,
  length-append, length-drop, Result,
}
use label_309_py.Bytes.{Bytes}
use label_309_py.Walker.{CborHead, WalkError, skip_payload, skip_times, skip_cbor_item}
use label_309_py.Walker.Position.{At, At-left, At-right, At-length}
use label_309_py.Walker.Format.{
  IsHead, Items, IsPlain, Holds, done, plain, string, nested, long_simple,
}
use label_309_py.Walker.Heads.{read_head-At}

abbrev head_at : ℕ → ℕ → ℕ → ℕ → CborHead
head_at mt ai p v = record { mt = mt; ai = ai; payload_start = p; value_u64 = v }

pub length-IsHead : {head : Bytes} {mt ai v : ℕ} → IsHead head mt ai v → 1 ≤ length head
length-IsHead h = omega (arith, ap length h.bytes)

IsHead-info : {head : Bytes} {mt ai v : ℕ} → IsHead head mt ai v → ai < 28
IsHead-info h = ground arith

module _ (nest : ℕ → ℕ → Result WalkError ℕ) (data_ : Bytes) (mt ai p v : ℕ) where
  payload_plain : ai < 28 → IsPlain mt ai → skip_payload nest data_ (head_at mt ai p v) ≡ ok p
  unfolding skip_payload
  payload_plain few form = ground arith

  payload_string :
      (mt ≡ 2) ⊎ (mt ≡ 3)
      → p + v ≤ length data_
      → skip_payload nest data_ (head_at mt ai p v) ≡ ok (p + v)
  unfolding skip_payload
  payload_string form fits = ground arith

  payload_nested : (k : ℕ) → Holds mt v k → skip_payload nest data_ (head_at mt ai p v) ≡ nest k p
  unfolding skip_payload
  payload_nested k form = ground arith

  payload_long :
      mt ≡ 7
      → ai ≡ 24
      → p + 1 ≤ length data_
      → skip_payload nest data_ (head_at mt ai p v) ≡ ok (p + 1)
  unfolding skip_payload
  payload_long seven long fits = ground arith

end-le :
    {data_ : Bytes} (x : Bytes) (p : ℕ)
    → At data_ p x
    → p ≤ length data_
    → p + length x ≤ length data_
end-le {data_} x p a h =
    omega (arith, ap length a.here, length-append x a.rest, length-drop p data_)

pub length-append_three : (x y z : Bytes) → length (x ++ (y ++ z)) ≡ length x + length y + length z
length-append_three x y z = omega (arith, length-append x (y ++ z), length-append y z)

-- The step of `skip_times` over one item.
module _ (data_ : Bytes) where
  skip_step :
      {p' : ℕ} (f n : ℕ) {head : Bytes} {pos mt ai v : ℕ}
      → IsHead head mt ai v
      → At data_ pos head
      → skip_payload
          (skip_times (skip_cbor_item f data_))
          data_
          (head_at mt ai (pos + length head) v)
        ≡ ok p'
      → skip_times (skip_cbor_item (suc f) data_) (suc n) pos
        ≡ skip_times (skip_cbor_item (suc f) data_) n p'
  unfolding skip_times skip_cbor_item
  skip_step f n h a e = rw (read_head-At h a, e)

  skip_done : (f pos : ℕ) → skip_times (skip_cbor_item f data_) 0 pos ≡ ok pos
  unfolding skip_times
  skip_done f pos = refl

  -- The next part of what stands at `pos`, and where it ends.
  after : (x y : Bytes) (pos : ℕ) → pos + length x + length y ≡ pos + length (x ++ y)
  after x y pos = omega (arith, length-append x y)

  -- Well-formed items are stepped over, with a unit of fuel for each byte.
  pub Items-skip_times :
      {lax : Bool} {n : ℕ} {x : Bytes}
      → Items lax n x
      → (f pos : ℕ) → At data_ pos x
      → length x ≤ f
      → skip_times (skip_cbor_item f data_) n pos ≡ ok (pos + length x)
  Items-skip_times done f pos a le = skip_done f pos ∙ ap ok (omega arith)
  Items-skip_times (plain {head} {rest} h form more) zero pos a le =
      absurd (omega (arith, length-IsHead h, length-append head rest))
  Items-skip_times (plain {n} {head} {rest} h form more) (suc f) pos a le =
      skip_step f n h (At-left head rest a) (payload_plain _ data_ _ _ _ _ (IsHead-info h) form)
      ∙ Items-skip_times more (suc f) (pos + length head) (At-right head rest a)
          (omega (arith, length-append head rest))
      ∙ ap ok (after head rest pos)
  Items-skip_times (string {head} {rest} payload h form size more) zero pos a le =
      absurd (omega (arith, length-IsHead h, length-append head (payload ++ rest)))
  Items-skip_times (string {n} {v} {head} {rest} payload h form size more) (suc f) pos a le =
      let behind = At-right head (payload ++ rest) a in
      let inside = At-length head (At-left head (payload ++ rest) a) (length-IsHead h) in
      let fits = end-le payload (pos + length head) (At-left payload rest behind) inside in
      let rest_at = At-right payload rest behind in
      let sizes = length-append_three head payload rest in
      skip_step f n h (At-left head (payload ++ rest) a)
        (payload_string _ data_ _ _ _ v form (omega arith) ∙ ap ok (omega arith))
      ∙ Items-skip_times more (suc f) (pos + length head + length payload) rest_at
          (omega (arith, sizes))
      ∙ ap ok (omega (arith, sizes))
  Items-skip_times (nested {head} {rest} inner h form items more) zero pos a le =
      absurd (omega (arith, length-IsHead h, length-append head (inner ++ rest)))
  Items-skip_times (nested {n} {k} {head} {rest} inner h form items more) (suc f) pos a le =
      let behind = At-right head (inner ++ rest) a in
      let sizes = length-append_three head inner rest in
      skip_step f n h (At-left head (inner ++ rest) a) (
        payload_nested _ data_ _ _ _ _ k form
        ∙ Items-skip_times items f (pos + length head) (At-left inner rest behind)
            (omega (arith, sizes, length-IsHead h)))
      ∙ Items-skip_times more (suc f) (pos + length head + length inner)
          (At-right inner rest behind) (omega (arith, sizes))
      ∙ ap ok (omega (arith, sizes))
  Items-skip_times (long_simple {head} {rest} extra is_lax h seven long size more) zero pos a le =
      absurd (omega (arith, length-IsHead h, length-append head (extra ++ rest)))
  Items-skip_times (long_simple {n} {head} {rest} extra is_lax h seven long size more) (suc f) pos a
        le =
      let behind = At-right head (extra ++ rest) a in
      let fits = At-length extra (At-left extra rest behind) (omega arith) in
      let sizes = length-append_three head extra rest in
      skip_step f n h (At-left head (extra ++ rest) a)
        (payload_long _ data_ _ _ _ _ seven long (omega arith) ∙ ap ok (omega arith))
      ∙ Items-skip_times more (suc f) (pos + length head + length extra)
          (At-right extra rest behind) (omega (arith, sizes))
      ∙ ap ok (omega (arith, sizes))

-- ===== src/Transaction/Components.antt =====
-- `slice_tx_components` of cbor_walker.py returns the bytes of the transaction's elements.
use label_309_py.Prelude.{
  ℕ, ◌+◌, ◌≡◌, refl, ◌⊎◌, Bool, true, false, none, some, Option, ok, ◌>>=◌, Result, require, [],
  ◌∷◌, ◌++◌, length, ◌==◌, ◌||◌, arith, if◌then◌else◌, lt→leb,
}
use label_309_py.Bytes.{Bytes, slice}
use label_309_py.Walker.{WalkError, malformed, skip_item}
use label_309_py.Walker.Position.{At, At-left, At-right, At-slice, At-length, At-get_or}
use label_309_py.Walker.Format.{IsHead, IsItem}
use label_309_py.Walker.Heads.{read_head-At}
use label_309_py.Walker.Accepts.{skip_item-IsItem}
use label_309_py.Transaction.{TxComponents, slice_elements, slice_tx_components}

-- CBOR null or undefined in the slot of the auxiliary data.
abbrev pub IsAbsent : ℕ → Type 0
IsAbsent b = (b ≡ 0xF6) ⊎ (b ≡ 0xF7)

-- What the slot of the auxiliary data says.
abbrev pub slot : ℕ → Bytes → Option Bytes
slot b aux = if b == 0xF6 || b == 0xF7 then none else some (b ∷ aux)

-- The slice from one position to the end of what stands there.
pub slice_here :
    {data_ : Bytes} (x : Bytes) (pos : ℕ) → At data_ pos x → slice data_ pos (pos + length x) ≡ x
slice_here x pos a = At-slice (length x) a refl

-- The element `is_valid`, which a three-element transaction does not have.
abbrev pub flag_bytes : Option Bytes → Bytes
flag_bytes none = []
flag_bytes (some is_valid) = is_valid

abbrev pub IsFlag : Option Bytes → Type 0
IsFlag none = Unit
IsFlag (some is_valid) = IsItem is_valid

abbrev pub elements : Option Bytes → ℕ
elements none = 3
elements (some is_valid) = 4

abbrev pub has_flag : Option Bytes → Bool
has_flag none = false
has_flag (some is_valid) = true

abbrev pub parsed : Bytes → Bytes → ℕ → Bytes → Result WalkError TxComponents
parsed body witness_set b aux =
    ok (record { tx_body = body; witness_set = witness_set; auxiliary_data = slot b aux })

module _ {tx : Bytes} (pos : ℕ) (body witness_set : Bytes) (b : ℕ) (aux : Bytes) where
  -- Behind the position where the slot of the auxiliary data stands.
  slot_step :
      (p : ℕ)
      → IsItem (b ∷ aux)
      → At tx p (b ∷ aux)
      → (if b == 0xF6 || b == 0xF7
          then ok (record { tx_body = body; witness_set = witness_set; auxiliary_data = none })
          else (skip_item tx p >>= λ e. ok (record {
            tx_body = body;
            witness_set = witness_set;
            auxiliary_data = some (slice tx p e);
          })))
        ≡ parsed body witness_set b aux
  slot_step p item a =
      rw (skip_item-IsItem (b ∷ aux) p item a, slice_here (b ∷ aux) p a) (ground arith)

  slice_elements-parts :
      (valid : Option Bytes)
      → IsItem body
      → IsItem witness_set
      → IsFlag valid
      → IsItem (b ∷ aux)
      → At tx pos (body ++ (witness_set ++ (flag_bytes valid ++ (b ∷ aux))))
      → slice_elements tx pos (has_flag valid) ≡ parsed body witness_set b aux
  unfolding slice_elements
  slice_elements-parts none body_item witness_set_item flag aux_item a =
      let body_at = At-left body _ a in
      let witness_at = At-left witness_set _ (At-right body _ a) in
      let aux_at = At-right witness_set _ (At-right body _ a) in
      let end = pos + length body + length witness_set in
      let inside = At-length (b ∷ aux) aux_at (omega arith) in
      rw
        (
          skip_item-IsItem body pos body_item body_at,
          skip_item-IsItem witness_set (pos + length body) witness_set_item witness_at,
          lt→leb (length tx) end (omega arith),
          At-get_or aux_at,
          slice_here body pos body_at,
          slice_here witness_set (pos + length body) witness_at,
        )
        (slot_step end aux_item aux_at)
  slice_elements-parts (some is_valid) body_item witness_set_item flag aux_item a =
      let body_at = At-left body _ a in
      let witness_at = At-left witness_set _ (At-right body _ a) in
      let flag_at = At-right witness_set _ (At-right body _ a) in
      let aux_at = At-right is_valid _ flag_at in
      let end = pos + length body + length witness_set + length is_valid in
      let inside = At-length (b ∷ aux) aux_at (omega arith) in
      rw
        (
          skip_item-IsItem body pos body_item body_at,
          skip_item-IsItem witness_set (pos + length body) witness_set_item witness_at,
          skip_item-IsItem is_valid (pos + length body + length witness_set) flag
              (At-left is_valid _ flag_at),
          lt→leb (length tx) end (omega arith),
          At-get_or aux_at,
          slice_here body pos body_at,
          slice_here witness_set (pos + length body) witness_at,
        )
        (slot_step end aux_item aux_at)

-- On an array of three or four well-formed elements, whatever follows it, the components are
-- exactly the bytes of the body, of the witness set and of the auxiliary data, the last `none`
-- where they are CBOR null or undefined.
pub slice_tx_components-parts :
    (head body witness_set : Bytes) (valid : Option Bytes) (b : ℕ) (aux trailing : Bytes) (ai : ℕ)
    → IsHead head 4 ai (elements valid)
    → IsItem body
    → IsItem witness_set
    → IsFlag valid
    → IsItem (b ∷ aux)
    → slice_tx_components
        ((head ++ (body ++ (witness_set ++ (flag_bytes valid ++ (b ∷ aux))))) ++ trailing)
      ≡ parsed body witness_set b aux
unfolding slice_tx_components
slice_tx_components-parts head body witness_set valid b aux trailing ai h body_item witness_set_item
      flag aux_item =
    let all = body ++ (witness_set ++ (flag_bytes valid ++ (b ∷ aux))) in
    let a : At ((head ++ all) ++ trailing) 0 (head ++ all) = record {
      rest = trailing;
      here = refl;
    } in
    let start : 0 + length head ≡ length head = omega arith in
    rw (read_head-At h (At-left head all a)) (
      three_or_four valid (slice_elements ((head ++ all) ++ trailing) (0 + length head)) (
        slice_elements-parts (0 + length head) body witness_set b aux valid body_item
          witness_set_item flag aux_item (At-right head all a)))
  where
    three_or_four :
        (valid : Option Bytes) (f : Bool → Result WalkError TxComponents)
        {s : Result WalkError TxComponents}
        → f (has_flag valid) ≡ s
        → (require (elements valid == 3 || elements valid == 4) malformed >>= λ _.
            f (elements valid == 4))
          ≡ s
    three_or_four none f e = e
    three_or_four (some is_valid) f e = e

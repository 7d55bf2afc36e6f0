-- ===== src/Merkle/Refine.antt =====
-- `_root_unchecked` and `_audit_path` of merkle_sha2_256.py against RFC 9162's definitions.
use label_309_py.Prelude.{
  ℕ, zero, suc, ◌^◌, ◌≤◌, ◌≡◌, ◌↔◌, refl, sym, ap, ◌∙◌, false, ok, List, [], ◌∷◌, arith, length,
  length-append, take, drop, take-append, drop-append, ne→==, ◌==◌, take-append-drop,
  length-take_le, length-drop, subst,
}
use label_309_py.Bytes.{Bytes}
use label_309_py.Merkle.{hash_leaf, hash_node, root_upto, root_unchecked, largest_pow2_lt}
use label_309_py.Merkle.Spec.{IsSplit, TreeHash, single, node}
use label_309_py.Merkle.Fold.{split-IsLevel}
use label_309_py.Merkle.Shift.{
  pow2_suc, pow2_pos, lt-pow2, IsLevel, IsLevel-of, largest_pow2_lt-level,
}

-- Every list of two leaves or more has its RFC split.
pub record Split (leaves : List Bytes) : Type 0 where
  pub j : ℕ
  pub left : List Bytes
  pub right : List Bytes
  pub is_split : IsSplit j leaves left right

Split-at :
    (leaves : List Bytes) (t : ℕ) → 2 ≤ length leaves → IsLevel t (length leaves) → Split leaves
Split-at leaves zero h level = absurd (omega arith)
Split-at leaves (suc j) h (lo, hi) = record {
  j = j;
  left = take (2 ^ j) leaves;
  right = drop (2 ^ j) leaves;
  is_split = record {
    parts = sym (take-append-drop (2 ^ j) leaves);
    left_full = length-take_le (2 ^ j) leaves (omega arith);
    right_some = omega (arith, length-drop (2 ^ j) leaves);
    right_fits = omega (arith, length-drop (2 ^ j) leaves, pow2_suc j);
  };
}

pub split : (leaves : List Bytes) → 2 ≤ length leaves → Split leaves
split leaves h =
    let (t, le, level) =
      IsLevel-of (length leaves) (length leaves) (omega arith)
        (omega (arith, lt-pow2 (length leaves))) in
    Split-at leaves t h level

pub left_shorter :
    {j n : ℕ} {leaves left right : List Bytes}
    → IsSplit j leaves left right
    → length leaves ≤ suc n
    → (length left ≤ n) × (length right ≤ n) × (1 ≤ length left)
left_shorter {j} {left} {right} s h =
    let total = ap length s.parts ∙ length-append left right in
    (omega arith, omega (arith, pow2_pos j), omega (arith, pow2_pos j))

-- One step of either recursion, at the split.
pub split_step :
    {leaves left right : List Bytes} (j : ℕ)
    → IsSplit j leaves left right
    → ((length leaves == 1) ≡ false)
      × (largest_pow2_lt (length leaves) ≡ ok (2 ^ j))
      × (take (2 ^ j) leaves ≡ left)
      × (drop (2 ^ j) leaves ≡ right)
split_step {leaves} {left} {right} j s =
    let level = split-IsLevel s in
    (
      ne→== (length leaves) 1 (λ e. omega (arith, level.0, pow2_pos j)),
      largest_pow2_lt-level j (length leaves) level,
      ap (take (2 ^ j)) s.parts ∙ take-append left right (2 ^ j) (sym s.left_full),
      ap (drop (2 ^ j)) s.parts ∙ drop-append left right (2 ^ j) (sym s.left_full),
    )

module _ (sha256 : Bytes → Bytes) where
  pub TreeHash-upto :
      (n : ℕ) (leaves : List Bytes)
      → 1 ≤ length leaves
      → length leaves ≤ n
      → (h : Bytes) × TreeHash sha256 leaves h
  TreeHash-upto zero leaves lo hi = absurd (omega arith)
  TreeHash-upto (suc n) [] lo hi = absurd (omega arith)
  TreeHash-upto (suc n) (d ∷ []) lo hi = (hash_leaf sha256 d, single d)
  TreeHash-upto (suc n) (d ∷ e ∷ ds) lo hi =
      let s = split (d ∷ e ∷ ds) (omega arith) in
      let (left_le, right_le, left_some) = left_shorter s.is_split hi in
      let (hl, l) = TreeHash-upto n s.left left_some left_le in
      let (hr, r) = TreeHash-upto n s.right s.is_split.right_some right_le in
      (hash_node sha256 hl hr, node s.j s.is_split l r)

  pub TreeHash-root_upto :
      {leaves : List Bytes} {h : Bytes}
      → TreeHash sha256 leaves h
      → (f : ℕ) → length leaves ≤ f
      → root_upto sha256 f leaves ≡ ok h
  unfolding root_upto
  TreeHash-root_upto (single d) zero le = absurd (omega arith)
  TreeHash-root_upto (single d) (suc f) le = refl
  TreeHash-root_upto (node j s l r) zero le = absurd (omega (arith, split-IsLevel s))
  TreeHash-root_upto (node j s l r) (suc f) le =
      let (many, k, left_eq, right_eq) = split_step j s in
      let (left_le, right_le, left_some) = left_shorter s le in
      rw (
        many,
        k,
        left_eq,
        right_eq,
        TreeHash-root_upto l f left_le,
        TreeHash-root_upto r f right_le,
      )

  nil-ne-ok : {h : Bytes} → ¬ (root_upto sha256 1 [] ≡ ok h)
  unfolding root_upto largest_pow2_lt
  nil-ne-ok e = cc

  -- `_root_unchecked` answers `h` exactly when `h` is the RFC 9162 tree hash of the leaves.
  pub root_unchecked-eq-ok_iff :
      (leaves : List Bytes) (h : Bytes)
      → (root_unchecked sha256 leaves ≡ ok h) ↔ TreeHash sha256 leaves h
  unfolding root_unchecked
  root_unchecked-eq-ok_iff leaves h = (from_root leaves, λ t. TreeHash-root_upto t _ (omega arith))
    where
      from_root :
          (leaves : List Bytes)
          → root_upto sha256 (suc (length leaves)) leaves ≡ ok h
          → TreeHash sha256 leaves h
      from_root [] e = absurd (nil-ne-ok e)
      from_root (d ∷ ds) e =
          let (g, t) = TreeHash-upto (suc (length ds)) (d ∷ ds) (omega arith) (omega arith) in
          subst (TreeHash sha256 (d ∷ ds))
            (cc (e, TreeHash-root_upto t (suc (suc (length ds))) (omega arith))) t

  pub root_total :
      (leaves : List Bytes)
      → 1 ≤ length leaves
      → (h : Bytes) × (root_unchecked sha256 leaves ≡ ok h)
  root_total leaves some_leaf =
      let (h, t) = TreeHash-upto (length leaves) leaves some_leaf (omega arith) in
      (h, (root_unchecked-eq-ok_iff leaves h).1 t)

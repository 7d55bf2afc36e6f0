-- ===== src/Merkle/Paths.antt =====
-- `_audit_path` of merkle_sha2_256.py against RFC 9162's audit path.
use label_309_py.Prelude.{
  ℕ, zero, suc, ◌+◌, ◌-◌, ◌^◌, ◌≤◌, ◌<◌, ◌≡◌, refl, ap, ◌∙◌, ok, List, [], ◌∷◌, ◌++◌, arith, length,
  length-append, get_or, lt→ltb, le→ltb, ltb, Bool-cases, ltb→lt, ltb→le, inl, inr,
  get_or-append_left, get_or-append_right,
}
use label_309_py.Bytes.{Bytes}
use label_309_py.Merkle.{hash_leaf, hash_node, root_unchecked, audit_path_upto}
use label_309_py.Merkle.Spec.{TreeHash, AuditPath, single, node, alone, on_left, on_right}
use label_309_py.Merkle.Fold.{split-IsLevel}
use label_309_py.Merkle.Refine.{split, left_shorter, split_step, TreeHash-upto, TreeHash-root_upto}

-- A leaf's audit path, and the hash that it leads to.
pub record Audited (sha256 : Bytes → Bytes) (leaves : List Bytes) (i : ℕ) (d : Bytes) : Type 0 where
  pub path : List Bytes
  pub root : Bytes
  pub is_path : AuditPath sha256 leaves i d path root

module _ (sha256 : Bytes → Bytes) where
  pub AuditPath-TreeHash :
      {leaves path : List Bytes} {i : ℕ} {d h : Bytes}
      → AuditPath sha256 leaves i d path h
      → TreeHash sha256 leaves h
  AuditPath-TreeHash (alone d z) = single d
  AuditPath-TreeHash (on_left j s p r) = node j s (AuditPath-TreeHash p) r
  AuditPath-TreeHash (on_right j s z l p) = node j s l (AuditPath-TreeHash p)

  pub Audited-upto :
      (n : ℕ) (leaves : List Bytes) (i : ℕ)
      → i < length leaves
      → length leaves ≤ n
      → Audited sha256 leaves i (get_or leaves i [])
  Audited-upto zero leaves i lo hi = absurd (omega arith)
  Audited-upto (suc n) [] i lo hi = absurd (omega arith)
  Audited-upto (suc n) (d ∷ []) zero lo hi = record {
    path = [];
    root = hash_leaf sha256 d;
    is_path = alone d refl;
  }
  Audited-upto (suc n) (d ∷ []) (suc i) lo hi = absurd (omega arith)
  Audited-upto (suc n) (d ∷ e ∷ ds) i lo hi =
      let s = split (d ∷ e ∷ ds) (omega arith) in
      let (left_le, right_le, left_some) = left_shorter s.is_split hi in
      elim (Bool-cases (ltb i (2 ^ s.j))) [
        | inl below ↦
            let inside : i < length s.left =
              omega (arith, ltb→lt i (2 ^ s.j) below, s.is_split.left_full) in
            let (hr, r) = TreeHash-upto sha256 n s.right s.is_split.right_some right_le in
            let p = Audited-upto n s.left i inside left_le in
            let same =
              ap (λ (l : List Bytes). get_or l i []) s.is_split.parts
              ∙ get_or-append_left s.left s.right i [] inside in
            record {
              path = p.path ++ hr ∷ [];
              root = hash_node sha256 p.root hr;
              is_path = rw same (on_left s.j s.is_split p.is_path r);
            }
        | inr above ↦
            let beyond : 2 ^ s.j ≤ i = ltb→le i (2 ^ s.j) above in
            let total = ap length s.is_split.parts ∙ length-append s.left s.right in
            let index : i ≡ 2 ^ s.j + (i - 2 ^ s.j) = omega arith in
            let (hl, l) = TreeHash-upto sha256 n s.left left_some left_le in
            let p =
              Audited-upto n s.right (i - 2 ^ s.j) (omega (arith, s.is_split.left_full)) right_le in
            let same =
              ap (λ (l : List Bytes). get_or l i []) s.is_split.parts
              ∙ get_or-append_right s.left s.right (i - 2 ^ s.j) i []
                  (omega (arith, s.is_split.left_full)) in
            record {
              path = p.path ++ hl ∷ [];
              root = hash_node sha256 hl p.root;
              is_path = rw same (on_right s.j s.is_split index l p.is_path);
            }
      ]

  AuditPath-lt :
      {leaves path : List Bytes} {i : ℕ} {d h : Bytes}
      → AuditPath sha256 leaves i d path h
      → i < length leaves
  AuditPath-lt (alone d z) = omega arith
  AuditPath-lt (on_left {left} {right} j s p r) =
      omega (arith, AuditPath-lt p, ap length s.parts, length-append left right)
  AuditPath-lt (on_right {left} {right} j s z l p) =
      omega (arith, AuditPath-lt p, ap length s.parts, length-append left right, s.left_full)

  pub AuditPath-audit_path_upto :
      {leaves path : List Bytes} {i : ℕ} {d h : Bytes}
      → AuditPath sha256 leaves i d path h
      → (f : ℕ) → length leaves ≤ f
      → audit_path_upto sha256 f leaves i ≡ ok path
  unfolding audit_path_upto root_unchecked
  AuditPath-audit_path_upto (alone d z) zero le = absurd (omega arith)
  AuditPath-audit_path_upto (alone d z) (suc f) le = refl
  AuditPath-audit_path_upto (on_left j s p r) zero le = absurd (omega (arith, split-IsLevel s))
  AuditPath-audit_path_upto {i} (on_left {right} j s p r) (suc f) le =
      let (many, k, left_eq, right_eq) = split_step j s in
      let (left_le, right_le, left_some) = left_shorter s le in
      let inside = lt→ltb i (2 ^ j) (omega (arith, AuditPath-lt p, s.left_full)) in
      rw (
        many,
        k,
        left_eq,
        right_eq,
        inside,
        AuditPath-audit_path_upto p f left_le,
        TreeHash-root_upto sha256 r (suc (length right)) (omega arith),
      )
  AuditPath-audit_path_upto (on_right j s z l p) zero le = absurd (omega (arith, split-IsLevel s))
  AuditPath-audit_path_upto {i = k'} (on_right {left} {i} j s z l p) (suc f) le =
      let (many, k, left_eq, right_eq) = split_step j s in
      let (left_le, right_le, left_some) = left_shorter s le in
      let outside = le→ltb k' (2 ^ j) (omega arith) in
      let rest : k' - 2 ^ j ≡ i = omega arith in
      rw (
        many,
        k,
        left_eq,
        right_eq,
        outside,
        rest,
        AuditPath-audit_path_upto p f right_le,
        TreeHash-root_upto sha256 l (suc (length left)) (omega arith),
      )

-- ===== src/Merkle/Inclusion.antt =====
-- The public entry points of merkle_sha2_256.py together: a proof that is made verifies, and a
-- proof that verifies is the one that would be made, unless SHA-256 has a collision.
use label_309_py.Prelude.{
  ℕ, zero, suc, ◌+◌, ◌-◌, ◌*◌, ◌≤◌, ◌<◌, ◌^◌, ◌≡◌, refl, sym, ap, ◌∙◌, ◌⊎◌, inl, inr, Option, true,
  none, some, ok, List, [], ◌∷◌, ◌++◌, arith, length, get_or, ◌==◌, Bool-cases, ==→eq, ne→==, eq→==,
  append-nil, >>=-eq-ok, ok-injective,
}
use label_309_py.Bytes.{Bytes, Collision, bytes_eq-eq, bytes_eq_self}
use label_309_py.Merkle.{
  hash_leaf, fold_proof, all_digests, validate_leaves, validate_tree_range, max_tree_size,
  root_unchecked, audit_path, merkle_sha2_256_root, merkle_sha2_256_inclusion_proof, verify_shaped,
  merkle_sha2_256_verify_inclusion, same_digest, digest_length,
}
use label_309_py.Merkle.Shift.{IsLevel-of, lt-pow2}
use label_309_py.Merkle.Spec.{TreeHash, AuditPath, single, node, alone, on_left, on_right}
use label_309_py.Merkle.Fold.{fold-edge}
use label_309_py.Merkle.Refine.{root_unchecked-eq-ok_iff}
use label_309_py.Merkle.Paths.{Audited-upto, AuditPath-TreeHash, AuditPath-audit_path_upto}
use label_309_py.Merkle.Injective.{
  all_digests-cons, length-hash_node, length-hash_leaf, hash_leaf-injective, fold_proof-injective,
}

-- What the guards of `merkle_sha2_256_inclusion_proof` let through.
pub record InRange (leaves : List Bytes) (i : ℕ) : Type 0 where
  pub some_leaf : 1 ≤ length leaves
  pub few : length leaves ≤ max_tree_size
  pub digests : all_digests leaves ≡ true
  pub index : i < length leaves

range-guards : (i n : ℕ) → validate_tree_range i n ≡ ok tt → (1 ≤ n) × (n ≤ max_tree_size) × (i < n)
unfolding validate_tree_range
range-guards i n e = ground arith

range_ok : (i n : ℕ) → n ≤ max_tree_size → i < n → validate_tree_range i n ≡ ok tt
unfolding validate_tree_range
range_ok i n few lt = ground arith

leaves-guards :
    (leaves : List Bytes)
    → validate_leaves leaves ≡ ok tt
    → (1 ≤ length leaves) × (all_digests leaves ≡ true)
unfolding validate_leaves
leaves-guards leaves e = ground arith

leaves_ok :
    (leaves : List Bytes)
    → 1 ≤ length leaves
    → all_digests leaves ≡ true
    → validate_leaves leaves ≡ ok tt
unfolding validate_leaves
leaves_ok leaves lo digests = ground arith

all_digests-append :
    (p q : List Bytes) → all_digests p ≡ true → all_digests q ≡ true → all_digests (p ++ q) ≡ true
unfolding all_digests
all_digests-append [] q dp dq = dq
all_digests-append (x ∷ p) q dp dq = ground (arith, all_digests-append p q)

all_digests_one : (x : Bytes) → length x ≡ 32 → all_digests (x ∷ []) ≡ true
unfolding all_digests
all_digests_one x h = ground arith

get_or_digest :
    (leaves : List Bytes) (i : ℕ)
    → all_digests leaves ≡ true
    → i < length leaves
    → length (get_or leaves i []) ≡ 32
get_or_digest [] i d h = absurd (omega arith)
get_or_digest (x ∷ xs) zero d h = (all_digests-cons x xs d).0
get_or_digest (x ∷ xs) (suc i) d h = get_or_digest xs i (all_digests-cons x xs d).1 (omega arith)

module _ (sha256 : Bytes → Bytes) where
  -- The fold over a whole tree ends at both counters 0, with the root.
  fold-AuditPath :
      {leaves path : List Bytes} {i : ℕ} {d h : Bytes}
      → AuditPath sha256 leaves i d path h
      → 1 ≤ length leaves
      → fold_proof sha256 i (length leaves - 1) (hash_leaf sha256 d) path ≡ some h
  fold-AuditPath {leaves} {path} {i} {h} p lo =
      let n = length leaves in
      let (t, le, level) = IsLevel-of n n lo (omega (arith, lt-pow2 n)) in
      let here : 2 ^ t * 0 + i ≡ i = omega arith in
      let last : 2 ^ t * 0 + (n - 1) ≡ n - 1 = omega arith in
      rw (here, last, append-nil) at (fold-edge sha256 p t 0 [] level) ∙ ended h
    where
      ended : (h : Bytes) → fold_proof sha256 0 0 h [] ≡ some h
      ended h = unfold fold_proof in refl

  verify_shaped-fold :
      (leaf : Bytes) (i n : ℕ) (proof : List Bytes) (root : Bytes)
      → i < n
      → verify_shaped sha256 leaf i n proof root
        ≡ same_digest (fold_proof sha256 i (n - 1) (hash_leaf sha256 leaf) proof) root
  unfolding verify_shaped fold_proof
  verify_shaped-fold leaf i n [] root h = elim (Bool-cases (n == 1)) [
    | inl one ↦ let first : i ≡ 0 = omega (arith, ==→eq n 1 one) in rw (one, first, ==→eq n 1 one)
    | inr many ↦ rw many
  ]
  verify_shaped-fold leaf i n (s ∷ proof) root h = elim (Bool-cases (n == 1)) [
    | inl one ↦ rw (one, ne→== (suc (length proof)) 0 (λ e. omega arith), ==→eq n 1 one)
    | inr many ↦ rw many
  ]

  -- What the entry points answer on leaves and an index that pass the guards.
  record Honest (leaves : List Bytes) (i : ℕ) : Type 0 where
    path : List Bytes
    root : Bytes
    proves : merkle_sha2_256_inclusion_proof sha256 leaves i ≡ ok path
    roots : merkle_sha2_256_root sha256 leaves ≡ ok root
    is_path : AuditPath sha256 leaves i (get_or leaves i []) path root
    folds :
        fold_proof sha256 i (length leaves - 1) (hash_leaf sha256 (get_or leaves i [])) path
        ≡ some root

  honest : {leaves : List Bytes} {i : ℕ} → InRange leaves i → Honest leaves i
  unfolding merkle_sha2_256_inclusion_proof merkle_sha2_256_root
  honest {leaves} {i} r =
      let n = length leaves in
      let a = Audited-upto sha256 n leaves i r.index (omega arith) in
      let guard = leaves_ok leaves r.some_leaf r.digests in
      record {
        path = a.path;
        root = a.root;
        proves =
            rw (guard, range_ok i n r.few r.index)
              (unfold audit_path in
                AuditPath-audit_path_upto sha256 a.is_path (suc n) (omega arith));
        roots = rw guard (
            (root_unchecked-eq-ok_iff sha256 leaves a.root).1
              (AuditPath-TreeHash sha256 a.is_path));
        is_path = a.is_path;
        folds = fold-AuditPath a.is_path r.some_leaf;
      }

  module _ (sha256_length : (x : Bytes) → length (sha256 x) ≡ 32) where
    pub length-TreeHash :
        {leaves : List Bytes} {h : Bytes} → TreeHash sha256 leaves h → length h ≡ 32
    length-TreeHash (single d) = length-hash_leaf sha256 sha256_length d
    length-TreeHash (node {hl} {hr} j s l r) = length-hash_node sha256 sha256_length hl hr

    AuditPath-digests :
        {leaves path : List Bytes} {i : ℕ} {d h : Bytes}
        → AuditPath sha256 leaves i d path h
        → all_digests path ≡ true
    AuditPath-digests (alone d z) = unfold all_digests in refl
    AuditPath-digests (on_left {path} {hr} j s p r) =
        all_digests-append path (hr ∷ []) (AuditPath-digests p)
          (all_digests_one hr (length-TreeHash r))
    AuditPath-digests (on_right {path} {hl} j s z l p) =
        all_digests-append path (hl ∷ []) (AuditPath-digests p)
          (all_digests_one hl (length-TreeHash l))

    -- For leaves of 32 bytes each, at least one and at most 2^32 - 1 of them, and an index among
    -- them: the inclusion proof and the root are computed, and the proof verifies against the root.
    pub verify-inclusion_proof :
        (leaves : List Bytes) (i : ℕ)
        → InRange leaves i
        → (path : List Bytes) × (root : Bytes) × (merkle_sha2_256_inclusion_proof sha256 leaves i
            ≡ ok path)
          × (merkle_sha2_256_root sha256 leaves ≡ ok root)
          × (merkle_sha2_256_verify_inclusion sha256
                (get_or leaves i [])
                i
                (length leaves)
                path
                root
              ≡ ok true)
    unfolding merkle_sha2_256_verify_inclusion
    verify-inclusion_proof leaves i r =
        let h = honest r in
        let n = length leaves in
        let leaf = get_or leaves i [] in
        let leaf_size =
          eq→== (length leaf) digest_length (get_or_digest leaves i r.digests r.index) in
        let root_size =
          eq→== (length h.root) digest_length
            (length-TreeHash (AuditPath-TreeHash sha256 h.is_path)) in
        let shaped = verify_shaped-fold leaf i n h.path h.root r.index in
        (
          h.path,
          h.root,
          h.proves,
          h.roots,
          rw (
            range_ok i n r.few r.index,
            leaf_size,
            root_size,
            AuditPath-digests h.is_path,
            shaped,
            h.folds,
            bytes_eq_self h.root,
          ),
        )

    same_digest-some : (o : Option Bytes) (root : Bytes) → same_digest o root ≡ true → o ≡ some root
    same_digest-some none root e = cc
    same_digest-some (some r) root e = ap some (bytes_eq-eq r root e)

    -- What a proof that verifies has passed.
    verified :
        (leaf : Bytes) (i n : ℕ) (proof : List Bytes) (root : Bytes)
        → merkle_sha2_256_verify_inclusion sha256 leaf i n proof root ≡ ok true
        → (validate_tree_range i n ≡ ok tt)
          × (all_digests proof ≡ true)
          × (verify_shaped sha256 leaf i n proof root ≡ true)
    unfolding merkle_sha2_256_verify_inclusion
    verified leaf i n proof root e = ground arith

    pub root-guards :
        (leaves : List Bytes) (root : Bytes)
        → merkle_sha2_256_root sha256 leaves ≡ ok root
        → (all_digests leaves ≡ true) × (root_unchecked sha256 leaves ≡ ok root)
    unfolding merkle_sha2_256_root
    root-guards leaves root e =
        let (u, guard, rest) = >>=-eq-ok (validate_leaves leaves) _ e in
        ((leaves-guards leaves guard).1, rest)

    -- Against the root of a list of leaves, only the proof that the SDK makes for a leaf verifies,
    -- and only for that leaf, unless two inputs with one SHA-256 digest are at hand.
    pub verify_inclusion_sound :
        (leaves : List Bytes) (leaf : Bytes) (i : ℕ) (proof : List Bytes) (root : Bytes)
        → merkle_sha2_256_root sha256 leaves ≡ ok root
        → merkle_sha2_256_verify_inclusion sha256 leaf i (length leaves) proof root ≡ ok true
        → ((leaf ≡ get_or leaves i [])
            × (merkle_sha2_256_inclusion_proof sha256 leaves i ≡ ok proof))
          ⊎ Collision sha256
    verify_inclusion_sound leaves leaf i proof root roots verifies =
        let n = length leaves in
        let (range, dp, shaped) = verified leaf i n proof root verifies in
        let (lo, few, lt) = range-guards i n range in
        let (digests, sized) = root-guards leaves root roots in
        let h = honest (record { some_leaf = lo; few = few; digests = digests; index = lt }) in
        let same_root : h.root ≡ root = ok-injective _ (sym h.roots ∙ roots) in
        let folds =
          same_digest-some _ root (sym (verify_shaped-fold leaf i n proof root lt) ∙ shaped) in
        elim (fold_proof-injective sha256 sha256_length proof h.path i (n - 1) _ _ root dp
          (AuditPath-digests h.is_path) (length-hash_leaf sha256 sha256_length leaf)
          (length-hash_leaf sha256 sha256_length (get_or leaves i [])) folds
          (h.folds ∙ ap some same_root)) [
            | inr c ↦ inr c
            | inl (same_leaf, same_path) ↦
                elim (hash_leaf-injective sha256 leaf (get_or leaves i []) same_leaf) [
                  | inl e ↦ inl (e, h.proves ∙ ap ok (sym same_path))
                  | inr c ↦ inr c
                ]
          ]

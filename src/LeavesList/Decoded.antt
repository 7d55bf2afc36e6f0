-- ===== src/LeavesList/Decoded.antt =====
-- What a leaves-list file that decodes carries.
use label_309_py.Prelude.{
  ℕ, ◌≡◌, refl, sym, ap, ◌∙◌, ◌⊎◌, Bool, true, ◌==◌, ==→eq, Option, none, some, List, length, codes,
  require, false, Result, ok, err, >>=-eq-ok, ok-injective, subst,
}
use label_309_py.Bytes.{Bytes, Collision, bytes_eq-eq, bytes_eq_self}
use label_309_py.Merkle.{MerkleError, merkle_sha2_256_root}
use label_309_py.Merkle.Roots.{root-injective}
use label_309_py.Cbor.{Value, Entries, get, not_none, and_then, as_dict, as_integer, as_natural}
use label_309_py.LeavesList.{
  LeavesListError, LeavesList, malformed, leaf_count_mismatch, as_digest, read_alg, lift_tree,
  or_raise, check_format, read_leaf_array, read_leaf_count, check_root, read_leaves_list,
  decode_leaves_list,
}

pub require-eq : (b : Bool) (e : LeavesListError) → require b e ≡ ok tt → b ≡ true
require-eq true e h = refl
require-eq false e h = absurd (cc)

pub or_raise-eq-ok {ℓ} :
    {A : Type ℓ} (o : Option A) (e : LeavesListError) (a : A) → or_raise o e ≡ ok a → o ≡ some a
or_raise-eq-ok none e a h = absurd (cc)
or_raise-eq-ok (some b) e a h = ap some (ok-injective _ h)

lift_tree-eq-ok {ℓ} :
    {A : Type ℓ} (r : Result MerkleError A) (a : A) → lift_tree r ≡ ok a → r ≡ ok a
lift_tree-eq-ok (err e) a h = absurd (cc)
lift_tree-eq-ok (ok b) a h = ap ok (ok-injective _ h)

read_leaf_count-eq :
    (d : Entries) (leaves : List Bytes) (n : ℕ)
    → read_leaf_count d leaves ≡ ok n
    → n ≡ length leaves
unfolding read_leaf_count
read_leaf_count-eq d leaves n h =
    let (m, read, rest) =
      >>=-eq-ok (or_raise (as_natural (and_then (get d (codes "leaf_count")) as_integer)) malformed)
        _ h in
    let (u, counted, same) = >>=-eq-ok (require (m == length leaves) leaf_count_mismatch) _ rest in
    sym (ok-injective _ same) ∙ ==→eq m (length leaves) (require-eq _ _ counted)

module _ (sha256 : Bytes → Bytes) where
  pub check_root-eq :
      (leaves : List Bytes) (root : Bytes)
      → check_root sha256 leaves root ≡ ok tt
      → merkle_sha2_256_root sha256 leaves ≡ ok root
  unfolding check_root
  check_root-eq leaves root h =
      let (recomputed, computed, same) =
        >>=-eq-ok (lift_tree (merkle_sha2_256_root sha256 leaves)) _ h in
      lift_tree-eq-ok _ _ computed ∙ ap ok (bytes_eq-eq recomputed root (require-eq _ _ same))

  pub check_root-rooted :
      (leaves : List Bytes) (root : Bytes)
      → merkle_sha2_256_root sha256 leaves ≡ ok root
      → check_root sha256 leaves root ≡ ok tt
  unfolding check_root
  check_root-rooted leaves root h = rw (h, bytes_eq_self root)

  -- Its root is that of its leaves, and its count their number.
  pub record IsConsistent (l : LeavesList) : Type 0 where
    pub rooted : merkle_sha2_256_root sha256 l.leaves ≡ ok l.root
    pub counted : l.leaf_count ≡ length l.leaves

  read_leaves_list-IsConsistent :
      (d : Entries) (l : LeavesList) → read_leaves_list sha256 d ≡ ok l → IsConsistent l
  unfolding read_leaves_list
  read_leaves_list-IsConsistent d l h =
      let (u, format, h1) = >>=-eq-ok (check_format d) _ h in
      let (root, is_root, h2) =
        >>=-eq-ok (or_raise (and_then (get d (codes "root")) as_digest) malformed) _ h1 in
      let (leaves, is_leaves, h3) = >>=-eq-ok (read_leaf_array d) _ h2 in
      let (leaf_count, counts, h4) = >>=-eq-ok (read_leaf_count d leaves) _ h3 in
      let (leaf_alg, alg, h5) = >>=-eq-ok (read_alg (not_none (get d (codes "leaf_alg")))) _ h4 in
      let (w, rooted, same) = >>=-eq-ok (check_root sha256 leaves root) _ h5 in
      subst IsConsistent (ok-injective _ same) (record {
        rooted = check_root-eq leaves root rooted;
        counted = read_leaf_count-eq d leaves leaf_count counts;
      })

  module _ (decode_canonical_cbor : Bytes → Option Value) where
    pub decode_leaves_list-IsConsistent :
        (data_ : Bytes) (l : LeavesList)
        → decode_leaves_list sha256 decode_canonical_cbor data_ ≡ ok l
        → IsConsistent l
    unfolding decode_leaves_list
    decode_leaves_list-IsConsistent data_ l h =
        let (d, is_dict, rest) =
          >>=-eq-ok (or_raise (and_then (decode_canonical_cbor data_) as_dict) malformed) _ h in
        read_leaves_list-IsConsistent d l rest

    -- Two files that decode with one root carry the same leaves, unless two inputs with one SHA-256
    -- digest are at hand (the digest has 32 bytes).
    pub decode_leaves_list_unique :
        (sha256_length : (x : Bytes) → length (sha256 x) ≡ 32) (data_ data' : Bytes)
        (l m : LeavesList)
        → decode_leaves_list sha256 decode_canonical_cbor data_ ≡ ok l
        → decode_leaves_list sha256 decode_canonical_cbor data' ≡ ok m
        → l.root ≡ m.root
        → (l.leaves ≡ m.leaves) ⊎ Collision sha256
    decode_leaves_list_unique sha256_length data_ data' l m dl dm same =
        let cl = decode_leaves_list-IsConsistent data_ l dl in
        let cm = decode_leaves_list-IsConsistent data' m dm in
        root-injective sha256 sha256_length l.leaves m.leaves l.root cl.rooted
          (cm.rooted ∙ ap ok (sym same))

-- ===== src/Merkle.antt =====
-- src/cardanowall/_crypto/merkle_sha2_256.py: the RFC 9162 Merkle tree over SHA-256. The digest
-- function is the parameter `sha256`; an index and a size are natural numbers.
pub mod Shift
pub mod Spec
pub mod Fold
pub mod Refine
pub mod Paths
pub mod Injective
pub mod Inclusion
pub mod Roots
mod Runs
use label_309_py.Prelude.{
  ℕ, zero, suc, ◌+◌, ◌-◌, ◌*◌, ◌/◌, ◌%◌, ◌^◌, ◌≤◌, ◌<◌, Bool, true, false, ◌&&◌, ◌||◌, not, Option,
  none, some, List, [], ◌∷◌, ◌++◌, ltb, leb, ◌==◌, if◌then◌else◌, length, take, drop, get_or,
  Result, ok, err, ◌>>=◌, ◌>>◌, require,
}
use label_309_py.Bytes.{Bytes, bytes_eq}

-- The reasons of a `MerkleError`. `out_of_fuel` has no counterpart in the program.
pub data MerkleError : Type 0 where
  empty_tree wrong_leaf_length no_power_below tree_size_range index_range out_of_fuel : MerkleError

abbrev pub digest_length : ℕ
digest_length = 32

abbrev pub max_tree_size : ℕ
max_tree_size = 0xFFFFFFFF

unfoldable pub validate_tree_range : ℕ → ℕ → Result MerkleError (Unit {0})
validate_tree_range index tree_size = do
  require (not (ltb tree_size 1 || ltb max_tree_size tree_size)) tree_size_range
  require (ltb index tree_size) index_range

-- Python's `int.bit_length`, with fuel above the result.
unfoldable pub bit_length_upto : ℕ → ℕ → ℕ
bit_length_upto zero n = 0
bit_length_upto (suc f) n = let more = suc (bit_length_upto f (n / 2)) in if n == 0 then 0 else more

unfoldable pub bit_length : ℕ → ℕ
unfolding bit_length_upto
bit_length n = bit_length_upto n n

unfoldable pub largest_pow2_lt : ℕ → Result MerkleError ℕ
largest_pow2_lt n = if ltb n 2 then err no_power_below else ok (2 ^ (bit_length (n - 1) - 1))

unfoldable pub all_digests : List Bytes → Bool
all_digests [] = true
all_digests (d ∷ ds) = length d == digest_length && all_digests ds

unfoldable pub validate_leaves : List Bytes → Result MerkleError (Unit {0})
unfolding all_digests
validate_leaves leaves = do
  require (not (length leaves == 0)) empty_tree
  require (all_digests leaves) wrong_leaf_length

-- The inner loop of the fold: both counters are shifted while `fn` is even and not 0.
unfoldable pub climb : ℕ → ℕ → ℕ → ℕ × ℕ
climb zero fn sn = (fn, sn)
climb (suc f) fn sn =
    let more = climb f (fn / 2) (sn / 2) in if fn % 2 == 0 && not (fn == 0) then more else (fn, sn)

abbrev pub same_digest : Option Bytes → Bytes → Bool
same_digest none root = false
same_digest (some r) root = bytes_eq r root

module _ (sha256 : Bytes → Bytes) where
  unfoldable pub hash_leaf : Bytes → Bytes
  hash_leaf d = sha256 (0 ∷ d)

  unfoldable pub hash_node : Bytes → Bytes → Bytes
  hash_node left right = sha256 (1 ∷ left ++ right)

  -- The slices are shorter than the list, so its length is fuel enough.
  unfoldable pub root_upto : ℕ → List Bytes → Result MerkleError Bytes
  root_upto zero leaves = err out_of_fuel
  root_upto (suc f) leaves =
      let split = do
        k ← largest_pow2_lt (length leaves)
        left ← root_upto f (take k leaves)
        right ← root_upto f (drop k leaves)
        ok (hash_node left right)
      in if length leaves == 1 then ok (hash_leaf (get_or leaves 0 [])) else split

  unfoldable pub root_unchecked : List Bytes → Result MerkleError Bytes
  root_unchecked leaves = root_upto (suc (length leaves)) leaves

  unfoldable pub audit_path_upto : ℕ → List Bytes → ℕ → Result MerkleError (List Bytes)
  audit_path_upto zero leaves i = err out_of_fuel
  audit_path_upto (suc f) leaves i =
      let split = do
        k ← largest_pow2_lt (length leaves)
        let in_left = do
          path ← audit_path_upto f (take k leaves) i
          sibling ← root_unchecked (drop k leaves)
          ok (path ++ sibling ∷ [])
        let in_right = do
          path ← audit_path_upto f (drop k leaves) (i - k)
          sibling ← root_unchecked (take k leaves)
          ok (path ++ sibling ∷ [])
        if ltb i k then in_left else in_right
      in if length leaves == 1 then ok [] else split

  unfoldable pub audit_path : List Bytes → ℕ → Result MerkleError (List Bytes)
  audit_path leaves i = audit_path_upto (suc (length leaves)) leaves i

  unfoldable pub merkle_sha2_256_root : List Bytes → Result MerkleError Bytes
  merkle_sha2_256_root leaves = do validate_leaves leaves; root_unchecked leaves

  unfoldable pub merkle_sha2_256_inclusion_proof : List Bytes → ℕ → Result MerkleError (List Bytes)
  merkle_sha2_256_inclusion_proof leaves index = do
    validate_leaves leaves
    validate_tree_range index (length leaves)
    audit_path leaves index

  -- The loop over the siblings; `none` is its early `return False` and the one for a proof that is
  -- too short.
  unfoldable pub fold_proof : ℕ → ℕ → Bytes → List Bytes → Option Bytes
  fold_proof fn sn r [] = if sn == 0 then some r else none
  fold_proof fn sn r (s ∷ proof) =
      let (fn', sn') = climb fn fn sn in
      let right = fold_proof (fn' / 2) (sn' / 2) (hash_node s r) proof in
      let left = fold_proof (fn / 2) (sn / 2) (hash_node r s) proof in
      let step = if fn % 2 == 1 || fn == sn then right else left in if sn == 0 then none else step

  unfoldable pub verify_shaped : Bytes → ℕ → ℕ → List Bytes → Bytes → Bool
  verify_shaped leaf index tree_size proof root =
      let single =
        if not (length proof == 0) || not (index == 0)
        then false
        else bytes_eq (hash_leaf leaf) root in
      let folded = same_digest (fold_proof index (tree_size - 1) (hash_leaf leaf) proof) root in
      if tree_size == 1 then single else folded

  unfoldable pub merkle_sha2_256_verify_inclusion :
      Bytes → ℕ → ℕ → List Bytes → Bytes → Result MerkleError Bool
  merkle_sha2_256_verify_inclusion leaf index tree_size proof root = do
    validate_tree_range index tree_size
    ok (
        if length leaf == digest_length && length root == digest_length && all_digests proof
        then verify_shaped leaf index tree_size proof root
        else false)

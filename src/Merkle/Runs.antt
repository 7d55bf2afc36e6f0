-- ===== src/Merkle/Runs.antt =====
-- The Merkle theorems at a tree of three leaves, over the digest of Fixtures.
use label_309_py.Prelude.{◌≡◌, refl, ◌⊎◌, ◌↔◌, List, [], ◌∷◌, ok, err, true, length, get_or, arith}
use label_309_py.Bytes.{Bytes, Collision, bytes_eq}
use label_309_py.Fixtures.{pad, toy_digest, length-toy_digest}
use label_309_py.Merkle.{
  merkle_sha2_256_root, merkle_sha2_256_inclusion_proof, merkle_sha2_256_verify_inclusion,
  root_unchecked, hash_leaf, hash_node, all_digests, largest_pow2_lt, bit_length, tree_size_range,
  root_upto, validate_leaves, validate_tree_range, verify_shaped, fold_proof, climb,
}
use label_309_py.Merkle.Spec.{TreeHash}
use label_309_py.Merkle.Refine.{root_unchecked-eq-ok_iff}
use label_309_py.Merkle.Inclusion.{InRange, verify-inclusion_proof, verify_inclusion_sound}

abbrev leaves : List Bytes
leaves = pad 32 (1 ∷ []) ∷ pad 32 (2 ∷ []) ∷ pad 32 (3 ∷ []) ∷ []

abbrev root : Bytes
root = pad 32 (1 ∷ 1 ∷ 0 ∷ 1 ∷ [])

root_of_three : merkle_sha2_256_root toy_digest leaves ≡ ok root
unfolding merkle_sha2_256_root root_unchecked hash_leaf hash_node largest_pow2_lt bit_length
    root_upto validate_leaves
root_of_three = refl

leaves-InRange : InRange leaves 2
unfolding all_digests
leaves-InRange = record {
  some_leaf = omega arith;
  few = omega arith;
  digests = refl;
  index = omega arith;
}

proof_of_third :
    merkle_sha2_256_verify_inclusion toy_digest
      (pad 32 (3 ∷ []))
      2
      3
      (pad 32 (1 ∷ 0 ∷ 1 ∷ []) ∷ [])
      root
    ≡ ok true
unfolding merkle_sha2_256_verify_inclusion validate_tree_range verify_shaped all_digests fold_proof
    climb hash_leaf hash_node bytes_eq
proof_of_third = refl

-- A size outside the safe range is refused, not folded.
oversized_tree :
    merkle_sha2_256_verify_inclusion toy_digest [] 0 0x100000000 [] [] ≡ err tree_size_range
unfolding merkle_sha2_256_verify_inclusion validate_tree_range
oversized_tree = refl

root_unchecked-eq-ok_iff_example :
    (root_unchecked toy_digest leaves ≡ ok root) ↔ TreeHash toy_digest leaves root
root_unchecked-eq-ok_iff_example = root_unchecked-eq-ok_iff toy_digest leaves root

verify-inclusion_proof_example :
    (path : List Bytes) × (top : Bytes) × (merkle_sha2_256_inclusion_proof toy_digest leaves 2
      ≡ ok path)
    × (merkle_sha2_256_root toy_digest leaves ≡ ok top)
    × (merkle_sha2_256_verify_inclusion toy_digest (get_or leaves 2 []) 2 (length leaves) path top
        ≡ ok true)
verify-inclusion_proof_example =
    verify-inclusion_proof toy_digest length-toy_digest leaves 2 leaves-InRange

verify_inclusion_sound_example :
    ((pad 32 (3 ∷ []) ≡ get_or leaves 2 [])
      × (merkle_sha2_256_inclusion_proof toy_digest leaves 2 ≡ ok (pad 32 (1 ∷ 0 ∷ 1 ∷ []) ∷ [])))
    ⊎ Collision toy_digest
verify_inclusion_sound_example =
    verify_inclusion_sound toy_digest length-toy_digest leaves (pad 32 (3 ∷ [])) 2
      (pad 32 (1 ∷ 0 ∷ 1 ∷ []) ∷ []) root root_of_three proof_of_third

-- ===== src/Merkle/Roots.antt =====
-- Lists of leaves with one root.
use label_309_py.Prelude.{◌≡◌, refl, sym, ap, ◌∙◌, ◌⊎◌, inl, inr, ok, List, [], ◌∷◌, ◌++◌, length}
use label_309_py.Bytes.{Bytes, Collision, eq_or_Collision}
use label_309_py.Merkle.{hash_leaf, hash_node, merkle_sha2_256_root}
use label_309_py.Merkle.Spec.{TreeHash, single, node}
use label_309_py.Merkle.Refine.{root_unchecked-eq-ok_iff}
use label_309_py.Merkle.Injective.{hash_leaf-injective, hash_node-injective}
use label_309_py.Merkle.Inclusion.{length-TreeHash, root-guards}

module _ (sha256 : Bytes → Bytes) where
  leaf_node-Collision :
      (d a b : Bytes) → hash_leaf sha256 d ≡ hash_node sha256 a b → Collision sha256
  unfolding hash_leaf hash_node
  leaf_node-Collision d a b h = elim (eq_or_Collision sha256 (0 ∷ d) (1 ∷ a ++ b) h) [
    | inl same ↦ absurd (cc)
    | inr c ↦ c
  ]

  module _ (sha256_length : (x : Bytes) → length (sha256 x) ≡ 32) where
    TreeHash-injective :
        {leaves others : List Bytes} {h k : Bytes}
        → TreeHash sha256 leaves h
        → TreeHash sha256 others k
        → h ≡ k
        → (leaves ≡ others) ⊎ Collision sha256
    TreeHash-injective (single d) (single e) same = elim (hash_leaf-injective sha256 d e same) [
      | inl p ↦ inl (ap (λ (x : Bytes). x ∷ []) p)
      | inr c ↦ inr c
    ]
    TreeHash-injective (single d) (node {hl} {hr} j s l r) same =
        inr (leaf_node-Collision d hl hr same)
    TreeHash-injective (node {hl} {hr} j s l r) (single d) same =
        inr (leaf_node-Collision d hl hr (sym same))
    TreeHash-injective (node {left = a} {right = b} {hl} {hr} j s l r)
          (node {left = c} {right = d} {hl = kl} {hr = kr} i t m q) same =
        let sizes =
          length-TreeHash sha256 sha256_length l ∙ sym (length-TreeHash sha256 sha256_length m) in
        elim (hash_node-injective sha256 hl hr kl kr sizes same) [
          | inr x ↦ inr x
          | inl (pl, pr) ↦ elim (TreeHash-injective l m pl) [
            | inr x ↦ inr x
            | inl pa ↦ elim (TreeHash-injective r q pr) [
              | inr x ↦ inr x
              | inl pb ↦ inl (
                  s.parts
                  ∙ ap (λ (x : List Bytes). x ++ b) pa
                  ∙ ap (λ (x : List Bytes). c ++ x) pb
                  ∙ sym t.parts)
            ]
          ]
        ]

    pub root-injective :
        (leaves others : List Bytes) (root : Bytes)
        → merkle_sha2_256_root sha256 leaves ≡ ok root
        → merkle_sha2_256_root sha256 others ≡ ok root
        → (leaves ≡ others) ⊎ Collision sha256
    root-injective leaves others root e f =
        TreeHash-injective
          ((root_unchecked-eq-ok_iff sha256 leaves root).0
            (root-guards sha256 sha256_length leaves root e).1)
          ((root_unchecked-eq-ok_iff sha256 others root).0
            (root-guards sha256 sha256_length others root f).1)
          refl

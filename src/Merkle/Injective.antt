-- ===== src/Merkle/Injective.antt =====
-- The verification fold of merkle_sha2_256.py determines its inputs, up to a SHA-256 collision.
use label_309_py.Prelude.{
  ℕ, ◌%◌, ◌≡◌, ◌⊎◌, inl, inr, true, some, List, [], ◌∷◌, ◌++◌, arith, length, ◌==◌, ◌||◌,
  Bool-cases,
}
use label_309_py.Bytes.{Bytes, Collision, eq_or_Collision, append-cancel}
use label_309_py.Merkle.{hash_leaf, hash_node, fold_proof, all_digests}

pub all_digests-cons :
    (x : Bytes) (p : List Bytes)
    → all_digests (x ∷ p) ≡ true
    → (length x ≡ 32) × (all_digests p ≡ true)
unfolding all_digests
all_digests-cons x p h = ground arith

module _ (sha256 : Bytes → Bytes) where
  pub hash_leaf-injective :
      (d e : Bytes) → hash_leaf sha256 d ≡ hash_leaf sha256 e → (d ≡ e) ⊎ Collision sha256
  unfolding hash_leaf
  hash_leaf-injective d e h = elim (eq_or_Collision sha256 (0 ∷ d) (0 ∷ e) h) [
    | inl p ↦ inl (cc)
    | inr c ↦ inr c
  ]

  pub hash_node-injective :
      (a b c d : Bytes)
      → length a ≡ length c
      → hash_node sha256 a b ≡ hash_node sha256 c d
      → ((a ≡ c) × (b ≡ d)) ⊎ Collision sha256
  unfolding hash_node
  hash_node-injective a b c d size h = elim (eq_or_Collision sha256 (1 ∷ a ++ b) (1 ∷ c ++ d) h) [
    | inl p ↦ inl (append-cancel a b c d size (cc))
    | inr x ↦ inr x
  ]

  -- What two steps with one result have in common.
  step-injective :
      (a b c d : Bytes) (p q : List Bytes)
      → length a ≡ length c
      → ((hash_node sha256 a b ≡ hash_node sha256 c d) × (p ≡ q)) ⊎ Collision sha256
      → ((a ≡ c) × (b ≡ d) × (p ≡ q)) ⊎ Collision sha256
  step-injective a b c d p q size (inr x) = inr x
  step-injective a b c d p q size (inl (same, rest)) =
      elim (hash_node-injective a b c d size same) [
        | inl parts ↦ inl (parts.0, parts.1, rest)
        | inr x ↦ inr x
      ]

  module _ (sha256_length : (x : Bytes) → length (sha256 x) ≡ 32) where
    pub length-hash_node : (a b : Bytes) → length (hash_node sha256 a b) ≡ 32
    unfolding hash_node
    length-hash_node a b = sha256_length _

    pub length-hash_leaf : (a : Bytes) → length (hash_leaf sha256 a) ≡ 32
    unfolding hash_leaf
    length-hash_leaf a = sha256_length _

    pub fold_proof-injective :
        (p q : List Bytes) (fn sn : ℕ) (r t h : Bytes)
        → all_digests p ≡ true
        → all_digests q ≡ true
        → length r ≡ 32
        → length t ≡ 32
        → fold_proof sha256 fn sn r p ≡ some h
        → fold_proof sha256 fn sn t q ≡ some h
        → ((r ≡ t) × (p ≡ q)) ⊎ Collision sha256
    unfolding fold_proof all_digests
    fold_proof-injective [] [] fn sn r t h dp dq lr lt e g = inl (ground arith)
    fold_proof-injective [] (y ∷ q) fn sn r t h dp dq lr lt e g = absurd (ground arith)
    fold_proof-injective (x ∷ p) [] fn sn r t h dp dq lr lt e g = absurd (ground arith)
    fold_proof-injective (x ∷ p) (y ∷ q) fn sn r t h dp dq lr lt e g = elim (Bool-cases (sn == 0)) [
      | inl z ↦ absurd (ground arith)
      | inr nz ↦ elim (Bool-cases (fn % 2 == 1 || fn == sn)) [
        | inl right ↦
            elim (step-injective x r y t p q
              (omega (arith, all_digests-cons x p dp, all_digests-cons y q dq))
              (fold_proof-injective p q _ _ _ _ h (all_digests-cons x p dp).1
                (all_digests-cons y q dq).1 (length-hash_node x r) (length-hash_node y t)
                (rw (nz, right) at e) (rw (nz, right) at g))) [
                  | inl (a, b, c) ↦ inl (b, cc)
                  | inr c ↦ inr c
                ]
        | inr left ↦
            elim (step-injective r x t y p q (omega arith) (
              fold_proof-injective p q _ _ _ _ h (all_digests-cons x p dp).1
                (all_digests-cons y q dq).1 (length-hash_node r x) (length-hash_node t y)
                (rw (nz, left) at e) (rw (nz, left) at g))) [
                  | inl (a, b, c) ↦ inl (a, cc)
                  | inr c ↦ inr c
                ]
      ]
    ]

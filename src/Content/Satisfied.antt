-- ===== src/Content/Satisfied.antt =====
-- When bytes satisfy the `hashes` of an item, without reference to recompute_item_hashes of items.py.
use label_309_py.Prelude.{
  ◌≡◌, ◌≢◌, refl, ◌⊎◌, inl, inr, true, false, ◌==◌, List, [], ◌∷◌, All, Bool-cases, length, codes,
  arith,
}
use label_309_py.Bytes.{Bytes, bytes_eq, bytes_eq-eq, bytes_eq_self}
use label_309_py.Content.{Text, entry_matches, entries_match, recompute_item_hashes}

module _ (sha256 blake2b_256 : Bytes → Bytes) (data_ : Bytes) where
  -- The digest is that of the bytes, by one of the two algorithms.
  abbrev pub Matches : Text × Bytes → Type 0
  Matches (alg, digest) =
      ((alg ≡ codes "sha2-256") × (sha256 data_ ≡ digest))
      ⊎ ((alg ≡ codes "blake2b-256") × (blake2b_256 data_ ≡ digest))

  entry_matches-Matches :
      (entry : Text × Bytes) → entry_matches sha256 blake2b_256 data_ entry ≡ true → Matches entry
  unfolding entry_matches
  entry_matches-Matches (alg, digest) h = elim (Bool-cases (bytes_eq alg (codes "sha2-256"))) [
    | inl sha ↦ inl (bytes_eq-eq alg _ sha, bytes_eq-eq _ digest (rw sha at h))
    | inr other ↦ elim (Bool-cases (bytes_eq alg (codes "blake2b-256"))) [
      | inl blake ↦ inr (bytes_eq-eq alg _ blake, bytes_eq-eq _ digest (rw (other, blake) at h))
      | inr neither ↦ absurd (let f = rw (other, neither) at h in cc)
    ]
  ]

  Matches-entry_matches :
      (entry : Text × Bytes) → Matches entry → entry_matches sha256 blake2b_256 data_ entry ≡ true
  unfolding entry_matches bytes_eq
  Matches-entry_matches (alg, digest) (inl (is_sha, same)) =
      rw (is_sha, same) (bytes_eq_self digest)
  Matches-entry_matches (alg, digest) (inr (is_blake, same)) =
      rw (is_blake, same) (bytes_eq_self digest)

  entries_match-All :
      (hashes : List (Text × Bytes))
      → entries_match sha256 blake2b_256 hashes data_ ≡ true
      → All Matches hashes
  unfolding entries_match
  entries_match-All [] h = tt
  entries_match-All (entry ∷ hashes) h =
      elim (Bool-cases (entry_matches sha256 blake2b_256 data_ entry)) [
        | inl matches ↦
            (entry_matches-Matches entry matches, entries_match-All hashes (rw matches at h))
        | inr fails ↦ absurd (let f = rw fails at h in cc)
      ]

  All-entries_match :
      (hashes : List (Text × Bytes))
      → All Matches hashes
      → entries_match sha256 blake2b_256 hashes data_ ≡ true
  unfolding entries_match
  All-entries_match [] h = refl
  All-entries_match (entry ∷ hashes) h =
      rw (Matches-entry_matches entry h.0) (All-entries_match hashes h.1)

module _ (sha256 blake2b_256 : Bytes → Bytes) (hashes : List (Text × Bytes)) where
  -- There are digests, and every one of them is that of the bytes.
  abbrev pub Satisfies : Bytes → Type 0
  Satisfies data_ = (hashes ≢ []) × All (Matches sha256 blake2b_256 data_) hashes

  abbrev pub Fails : Bytes → Type 0
  Fails data_ = ¬ Satisfies data_

  filled : (h : List (Text × Bytes)) → (length h == 0) ≡ false → h ≢ []
  filled [] e same = absurd (cc)
  filled (x ∷ h) e same = absurd (cc)

  not_filled : (h : List (Text × Bytes)) → (length h == 0) ≡ true → h ≡ []
  not_filled [] e = refl
  not_filled (x ∷ h) e = absurd (ground arith)

  pub recompute_item_hashes-Satisfies :
      (data_ : Bytes)
      → recompute_item_hashes sha256 blake2b_256 hashes data_ ≡ true
      → Satisfies data_
  unfolding recompute_item_hashes
  recompute_item_hashes-Satisfies data_ h = elim (Bool-cases (length hashes == 0)) [
    | inl no_hash ↦ absurd (let f = rw no_hash at h in cc)
    | inr some_hash ↦ (
      filled hashes some_hash,
      entries_match-All sha256 blake2b_256 data_ hashes (rw some_hash at h),
    )
  ]

  pub Satisfies-recompute_item_hashes :
      (data_ : Bytes)
      → Satisfies data_
      → recompute_item_hashes sha256 blake2b_256 hashes data_ ≡ true
  unfolding recompute_item_hashes
  Satisfies-recompute_item_hashes data_ (some_hash, all) = elim (Bool-cases (length hashes == 0)) [
    | inl no_hash ↦ absurd (some_hash (not_filled hashes no_hash))
    | inr more ↦ rw more (All-entries_match sha256 blake2b_256 data_ hashes all)
  ]

  pub recompute_item_hashes-Fails :
      (data_ : Bytes) → recompute_item_hashes sha256 blake2b_256 hashes data_ ≡ false → Fails data_
  recompute_item_hashes-Fails data_ h good =
      absurd (cc (Satisfies-recompute_item_hashes data_ good, h))

  pub Fails-recompute_item_hashes :
      (data_ : Bytes) → Fails data_ → recompute_item_hashes sha256 blake2b_256 hashes data_ ≡ false
  Fails-recompute_item_hashes data_ h =
      elim (Bool-cases (recompute_item_hashes sha256 blake2b_256 hashes data_)) [
        | inl good ↦ absurd (h (recompute_item_hashes-Satisfies data_ good))
        | inr fails ↦ fails
      ]

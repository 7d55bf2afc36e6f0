-- ===== src/Content/Checked.antt =====
-- What the content check of items.py says of the blobs that the sources bring.
use label_309_py.Prelude.{
  ◌≡◌, refl, ap, subst, ◌⊎◌, inl, inr, true, false, List, [], ◌∷◌, ◌++◌, All, Bool-cases,
}
use label_309_py.Bytes.{Bytes}
use label_309_py.Verdict.{Segment, Issues}
use label_309_py.Content.Satisfied.{
  Satisfies, Fails, recompute_item_hashes-Satisfies, recompute_item_hashes-Fails,
  Fails-recompute_item_hashes,
}
use label_309_py.Content.{
  Text, AcquiredBlob, SourceStep, issue, blob, limit_exceeded, ContentCheck, checked, mismatched,
  not_checked, recompute_item_hashes, check_blobs,
}

-- Over what bytes have to be to satisfy a claim, and to fail it.
module _ (Good Bad : Bytes → Type 0) where
  abbrev pub IsMatch : AcquiredBlob → Type 0
  IsMatch b = Good b.bytes

  abbrev pub IsMismatch : AcquiredBlob → Type 0
  IsMismatch b = Bad b.bytes

  -- A step that settles nothing: an issue, or bytes that do not match and cannot be attributed.
  abbrev pub Passes : SourceStep → Type 0
  Passes (issue code path) = Unit
  Passes (blob b) = IsMismatch b × (b.attributable ≡ false)
  Passes limit_exceeded = ⊥

  -- The first step that settles the claim.
  pub record Settles (P : SourceStep → Type 0) (steps : List SourceStep) : Type 0 where
    pub before : List SourceStep
    pub step : SourceStep
    pub after : List SourceStep
    pub split : steps ≡ before ++ step ∷ after
    pub passed : All Passes before
    pub settled : P step

  abbrev pub BlobThat : (AcquiredBlob → Type 0) → SourceStep → Type 0
  BlobThat P (issue code path) = ⊥
  BlobThat P (blob b) = P b
  BlobThat P limit_exceeded = ⊥

  abbrev pub IsLimit : SourceStep → Type 0
  IsLimit (issue code path) = ⊥
  IsLimit (blob b) = ⊥
  IsLimit limit_exceeded = Unit

  -- The three outcomes, which exclude one another.
  abbrev pub Explains : ContentCheck → List SourceStep → Type 0
  Explains checked steps = Settles (BlobThat IsMatch) steps
  Explains mismatched steps = Settles (BlobThat λ b. IsMismatch b × (b.attributable ≡ true)) steps
  Explains not_checked steps = Settles IsLimit steps ⊎ All Passes steps

  Settles-cons :
      {P : SourceStep → Type 0} (s : SourceStep) (steps : List SourceStep)
      → Passes s
      → Settles P steps
      → Settles P (s ∷ steps)
  Settles-cons s steps passes h = record {
    before = s ∷ h.before;
    step = h.step;
    after = h.after;
    split = ap (λ (l : List SourceStep). s ∷ l) h.split;
    passed = (passes, h.passed);
    settled = h.settled;
  }

  pub Settles-first :
      {P : SourceStep → Type 0} (s : SourceStep) (steps : List SourceStep)
      → P s
      → Settles P (s ∷ steps)
  Settles-first s steps here = record {
    before = [];
    step = s;
    after = steps;
    split = refl;
    passed = tt;
    settled = here;
  }

  pub Explains-cons :
      (outcome : ContentCheck) (s : SourceStep) (steps : List SourceStep)
      → Passes s
      → Explains outcome steps
      → Explains outcome (s ∷ steps)
  Explains-cons checked s steps passes h = Settles-cons s steps passes h
  Explains-cons mismatched s steps passes h = Settles-cons s steps passes h
  Explains-cons not_checked s steps passes (inl h) = inl (Settles-cons s steps passes h)
  Explains-cons not_checked s steps passes (inr h) = inr (passes, h)

module _ (sha256 blake2b_256 : Bytes → Bytes) (hashes : List (Text × Bytes)) where
  abbrev Good : Bytes → Type 0
  Good = Satisfies sha256 blake2b_256 hashes

  abbrev Bad : Bytes → Type 0
  Bad = Fails sha256 blake2b_256 hashes

  -- A claim is `checked` only by a first blob that satisfies the hashes, which are one or more and
  -- all match, whatever the sources behind it bring; it is `mismatched` only by a first attributable
  -- blob that does not satisfy them, and `not_checked` only where the fetch ceiling is met or the
  -- sources are exhausted. Every blob before that does not satisfy them and cannot be attributed.
  pub check_blobs-Explains :
      (base_path : List Segment) (steps : List SourceStep) (issues : Issues)
      → Explains
          (Satisfies sha256 blake2b_256 hashes)
          (Fails sha256 blake2b_256 hashes)
          (check_blobs sha256 blake2b_256 hashes base_path steps issues).0
          steps
  unfolding check_blobs
  check_blobs-Explains base_path [] issues = inr tt
  check_blobs-Explains base_path (limit_exceeded ∷ steps) issues =
      inl (Settles-first Good Bad limit_exceeded steps tt)
  check_blobs-Explains base_path (issue code path ∷ steps) issues =
      Explains-cons Good Bad _ (issue code path) steps tt (check_blobs-Explains base_path steps _)
  check_blobs-Explains base_path (blob b ∷ steps) issues =
      elim (Bool-cases (recompute_item_hashes sha256 blake2b_256 hashes b.bytes)) [
        | inl matches ↦
            let good = recompute_item_hashes-Satisfies sha256 blake2b_256 hashes b.bytes matches in
            simp matches (Settles-first Good Bad (blob b) steps good)
        | inr fails ↦
            let bad = recompute_item_hashes-Fails sha256 blake2b_256 hashes b.bytes fails in
            elim (Bool-cases b.attributable) [
              | inl own ↦ simp (fails, own) (Settles-first Good Bad (blob b) steps (bad, own))
              | inr other ↦
                  simp (fails, other)
                    (Explains-cons Good Bad _ (blob b) steps (bad, other)
                      (check_blobs-Explains base_path steps _))
            ]
      ]

  -- An attributable blob that does not satisfy the hashes settles the claim.
  check_blobs-attributable :
      (base_path : List Segment) (before : List SourceStep) (b : AcquiredBlob)
      (after : List SourceStep) (issues : Issues)
      → All (Passes Good Bad) before
      → Bad b.bytes
      → b.attributable ≡ true
      → (check_blobs sha256 blake2b_256 hashes base_path (before ++ blob b ∷ after) issues).0
        ≡ mismatched
  unfolding check_blobs
  check_blobs-attributable base_path [] b after issues passed bad own =
      simp (Fails-recompute_item_hashes sha256 blake2b_256 hashes b.bytes bad, own) refl
  check_blobs-attributable base_path (issue code path ∷ before) b after issues passed bad own =
      check_blobs-attributable base_path before b after _ passed.1 bad own
  check_blobs-attributable base_path (limit_exceeded ∷ before) b after issues passed bad own =
      absurd (passed.0)
  check_blobs-attributable base_path (blob c ∷ before) b after issues ((fails, other), passed) bad
        own =
      simp (Fails-recompute_item_hashes sha256 blake2b_256 hashes c.bytes fails, other)
        (check_blobs-attributable base_path before b after _ passed bad own)

  -- What makes a claim `mismatched`.
  abbrev pub IsBlamed : List SourceStep → Type 0
  IsBlamed steps =
      Settles Good Bad (BlobThat Good Bad λ b. Bad b.bytes × (b.attributable ≡ true)) steps

  pub IsBlamed-mismatched :
      (base_path : List Segment) (steps : List SourceStep) (issues : Issues)
      → IsBlamed steps
      → (check_blobs sha256 blake2b_256 hashes base_path steps issues).0 ≡ mismatched
  IsBlamed-mismatched base_path steps issues h =
      by_step h.before h.step h.after h.split h.passed h.settled
    where
      by_step :
          (before : List SourceStep) (step : SourceStep) (after : List SourceStep)
          → steps ≡ before ++ step ∷ after
          → All (Passes Good Bad) before
          → BlobThat Good Bad (λ b. Bad b.bytes × (b.attributable ≡ true)) step
          → (check_blobs sha256 blake2b_256 hashes base_path steps issues).0 ≡ mismatched
      by_step before (issue code path) after split passed s = absurd s
      by_step before limit_exceeded after split passed s = absurd s
      by_step before (blob b) after split passed (bad, own) =
          rw split (check_blobs-attributable base_path before b after issues passed bad own)

  pub mismatched-IsBlamed :
      (base_path : List Segment) (steps : List SourceStep) (issues : Issues)
      → (check_blobs sha256 blake2b_256 hashes base_path steps issues).0 ≡ mismatched
      → IsBlamed steps
  mismatched-IsBlamed base_path steps issues h =
      subst (λ (c : ContentCheck). Explains Good Bad c steps) h
        (check_blobs-Explains base_path steps issues)

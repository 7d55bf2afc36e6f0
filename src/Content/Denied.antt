-- ===== src/Content/Denied.antt =====
-- Denied hosts among the sources of content, in items.py and fetch.py.
use label_309_py.Prelude.{
  ℕ, ◌≡◌, refl, sym, ◌∙◌, inl, inr, Bool, true, none, List, [], ◌∷◌, ◌++◌, All, Bool-cases, ◌==◌,
  length, codes,
}
use label_309_py.Bytes.{Bytes}
use label_309_py.ErrorCodes.{service_independence_violation, severity_of}
use label_309_py.Verdict.{
  Segment, key, index, Issues, Item, add, failed, verdict_from_issues, is_network_class,
  same_severity,
}
use label_309_py.Verdict.Meaning.{condemned, or_true}
use label_309_py.Content.{
  Text, FetchOutcome, denied, SourceStep, issue, blob, limit_exceeded, Address, Gateways,
  recompute_item_hashes, check_blobs, fetched_step, check_item_content,
}
use label_309_py.Content.Satisfied.{Satisfies, Fails, Fails-recompute_item_hashes}
use label_309_py.Content.Checked.{Passes}
use label_309_py.Content.Blame.{
  condemned-add, condemned-failed, item_sources, item_sources-nil, with_uris, nil-ne_append,
}

module _ (sha256 blake2b_256 : Bytes → Bytes) (hashes : List (Text × Bytes))
    (base_path : List Segment) where
  check_blobs-condemned :
      (steps : List SourceStep) (issues : Issues)
      → condemned issues ≡ true
      → condemned (check_blobs sha256 blake2b_256 hashes base_path steps issues).1 ≡ true
  unfolding check_blobs
  check_blobs-condemned [] issues h = condemned-add issues _ base_path ∙ rw h refl
  check_blobs-condemned (limit_exceeded ∷ steps) issues h =
      condemned-add issues _ base_path ∙ rw h refl
  check_blobs-condemned (issue code path ∷ steps) issues h =
      check_blobs-condemned steps (add issues code path none)
        (condemned-add issues code path ∙ rw h refl)
  check_blobs-condemned (blob b ∷ steps) issues h =
      elim (Bool-cases (recompute_item_hashes sha256 blake2b_256 hashes b.bytes)) [
        | inl matches ↦ simp matches h
        | inr fails ↦ elim (Bool-cases b.attributable) [
          | inl own ↦ simp (fails, own) (condemned-add issues _ base_path ∙ rw h refl)
          | inr other ↦
              simp (fails, other)
                (check_blobs-condemned steps _ (condemned-add issues _ _ ∙ rw h refl))
        ]
      ]

  check_blobs-denied :
      (before : List SourceStep) (path : List Segment) (after : List SourceStep) (issues : Issues)
      → All (Passes (Satisfies sha256 blake2b_256 hashes) (Fails sha256 blake2b_256 hashes)) before
      → condemned
          (check_blobs sha256 blake2b_256 hashes base_path
            (before ++ issue service_independence_violation path ∷ after)
            issues).1
        ≡ true
  unfolding check_blobs severity_of same_severity is_network_class
  check_blobs-denied [] path after issues passed =
      check_blobs-condemned after (add issues service_independence_violation path none)
        (condemned-add issues service_independence_violation path ∙ or_true (condemned issues))
  check_blobs-denied (issue code other ∷ before) path after issues passed =
      check_blobs-denied before path after (add issues code other none) passed.1
  check_blobs-denied (limit_exceeded ∷ before) path after issues passed = absurd (passed.0)
  check_blobs-denied (blob c ∷ before) path after issues ((fails, other), passed) =
      simp (Fails-recompute_item_hashes sha256 blake2b_256 hashes c.bytes fails, other)
        (check_blobs-denied before path after _ passed)

module _ (sha256 blake2b_256 : Bytes → Bytes) (fetch : ℕ → Text → FetchOutcome)
    (is_bound : Text → Text → Bytes → Bool) (gateways : Gateways) (item : Item) (item_index : ℕ)
    (issues : Issues) where
  abbrev base_path : List Segment
  base_path = key (codes "items") ∷ index item_index ∷ []

  -- The step of a fetch at `url`, among the sources of the item.
  abbrev pub step_of : ℕ → Address → Text → SourceStep
  step_of uri_index address url =
      fetched_step fetch is_bound gateways base_path uri_index address (fetch uri_index url)

  -- Where content is fetched, a fetch that meets a denied host makes the verdict `failed`, if no
  -- source before it has settled the claim, whatever the sources behind it bring, also if one of them
  -- satisfies the hashes.
  pub check_item_content-denied :
      (before : List SourceStep) (uri_index : ℕ) (address : Address) (url : Text)
      (after : List SourceStep)
      → item_sources sha256 blake2b_256 fetch is_bound gateways item item_index true issues
        ≡ before ++ step_of uri_index address url ∷ after
      → All
          (Passes (Satisfies sha256 blake2b_256 item.hashes) (Fails sha256 blake2b_256 item.hashes))
          before
      → fetch uri_index url ≡ denied
      → verdict_from_issues
          (check_item_content sha256 blake2b_256 fetch is_bound gateways item item_index true
            issues).1
        ≡ failed
  unfolding fetched_step
  check_item_content-denied before uri_index address url after split passed meets =
      elim (Bool-cases (length item.uris == 0)) [
        | inl no_uri ↦ absurd (
            nil-ne_append before _ after (
              sym (
                item_sources-nil sha256 blake2b_256 fetch is_bound gateways item item_index true
                  issues no_uri)
              ∙ split))
        | inr some_uri ↦
            with_uris sha256 blake2b_256 fetch is_bound gateways item item_index true issues refl
              some_uri
            ∙ condemned-failed _ (
                rw (split, meets)
                  (check_blobs-denied sha256 blake2b_256 item.hashes base_path before _ after issues
                    passed))
      ]

-- ===== src/Verdict/Order.antt =====
-- src/cardanowall/verifier/verify.py, _sort_issues: the order of the issues in a report. The UTF-8
-- encoding of a key is a parameter.
use mathlib.Core.List.{Perm}
use mathlib.Core.List.Perm
use label_309_py.Prelude.{
  ℕ, ◌≡◌, refl, sym, ap, ◌∙◌, inl, inr, Bool, true, false, ◌||◌, List, [], ◌∷◌, leb, ltb, ◌==◌,
  if◌then◌else◌, arith, Bool-cases,
}
use label_309_py.Bytes.{Bytes}
use label_309_py.ErrorCodes.{error_code_registry_index, error}
use label_309_py.Verdict.{
  Segment, key, index, VerifierIssue, Issues, verdict_from_issues, same_severity,
}
use label_309_py.Verdict.Meaning.{is_condemning, condemned, has_error, judge-eq}

-- The order of Python's `bytes`.
unfoldable pub bytes_leq : Bytes → Bytes → Bool
bytes_leq [] b = true
bytes_leq (x ∷ a) [] = false
bytes_leq (x ∷ a) (y ∷ b) = let later = bytes_leq a b in if x == y then later else ltb x y

-- The order of tuples: by the first part, and by the second where the first ones are equal.
abbrev pub then_by : Bool → Bool → Bool → Bool
then_by leq geq later = if leq then (if geq then later else true) else false

module _ (utf8 : List ℕ → Bytes) where
  -- The order of `_segment_key`.
  unfoldable pub segment_leq : Segment → Segment → Bool
  segment_leq (index i) (index j) = leb i j
  segment_leq (index i) (key b) = true
  segment_leq (key a) (index j) = false
  segment_leq (key a) (key b) = bytes_leq (utf8 a) (utf8 b)

  unfoldable pub path_leq : List Segment → List Segment → Bool
  path_leq [] q = true
  path_leq (s ∷ p) [] = false
  path_leq (s ∷ p) (t ∷ q) = then_by (segment_leq s t) (segment_leq t s) (path_leq p q)

  unfoldable pub issue_leq : VerifierIssue → VerifierIssue → Bool
  issue_leq a b =
      then_by (path_leq a.path b.path) (path_leq b.path a.path)
        (leb (error_code_registry_index a.code) (error_code_registry_index b.code))

  -- `sorted` is stable: an issue goes before the later ones with its key.
  unfoldable pub insert_issue : VerifierIssue → Issues → Issues
  insert_issue a [] = a ∷ []
  insert_issue a (b ∷ issues) =
      let later = insert_issue a issues in if issue_leq a b then a ∷ b ∷ issues else b ∷ later

  unfoldable pub sort_issues : Issues → Issues
  sort_issues [] = []
  sort_issues (a ∷ issues) = insert_issue a (sort_issues issues)

bytes_leq_total : (a b : Bytes) → bytes_leq a b ≡ false → bytes_leq b a ≡ true
unfolding bytes_leq
bytes_leq_total [] b h = cc
bytes_leq_total (x ∷ a) [] h = refl
bytes_leq_total (x ∷ a) (y ∷ b) h = ground (arith, bytes_leq_total a b)

then_by_total :
    (leq geq later later' : Bool)
    → (leq ≡ false → geq ≡ true)
    → (later ≡ false → later' ≡ true)
    → then_by leq geq later ≡ false
    → then_by geq leq later' ≡ true
then_by_total true true later later' h i e = i e
then_by_total true false later later' h i e = cc
then_by_total false true later later' h i e = refl
then_by_total false false later later' h i e = h refl

leb_total : (i j : ℕ) → leb i j ≡ false → leb j i ≡ true
leb_total i j h = ground arith

module _ (utf8 : List ℕ → Bytes) where
  segment_leq_total : (s t : Segment) → segment_leq utf8 s t ≡ false → segment_leq utf8 t s ≡ true
  unfolding segment_leq
  segment_leq_total (index i) (index j) h = leb_total i j h
  segment_leq_total (index i) (key b) h = cc
  segment_leq_total (key a) (index j) h = refl
  segment_leq_total (key a) (key b) h = bytes_leq_total (utf8 a) (utf8 b) h

  path_leq_total : (p q : List Segment) → path_leq utf8 p q ≡ false → path_leq utf8 q p ≡ true
  unfolding path_leq
  path_leq_total [] q h = cc
  path_leq_total (s ∷ p) [] h = refl
  path_leq_total (s ∷ p) (t ∷ q) h =
      then_by_total _ _ _ _ (segment_leq_total s t) (path_leq_total p q) h

  issue_leq_total : (a b : VerifierIssue) → issue_leq utf8 a b ≡ false → issue_leq utf8 b a ≡ true
  unfolding issue_leq
  issue_leq_total a b h =
      then_by_total _ _ _ _ (path_leq_total a.path b.path)
        (leb_total (error_code_registry_index a.code) (error_code_registry_index b.code)) h

  -- Not before the issue ahead of it.
  abbrev pub IsAfter : VerifierIssue → Issues → Type 0
  IsAfter a [] = Unit {0}
  IsAfter a (b ∷ issues) = issue_leq utf8 a b ≡ true

  abbrev pub IsOrdered : Issues → Type 0
  IsOrdered [] = Unit {0}
  IsOrdered (a ∷ issues) = IsAfter a issues × IsOrdered issues

  insert_issue-IsAfter :
      (a b : VerifierIssue) (issues : Issues)
      → issue_leq utf8 b a ≡ true
      → IsAfter b issues
      → IsAfter b (insert_issue utf8 a issues)
  unfolding insert_issue
  insert_issue-IsAfter a b [] h i = h
  insert_issue-IsAfter a b (c ∷ issues) h i = elim (Bool-cases (issue_leq utf8 a c)) [
    | inl first ↦ rw first h
    | inr later ↦ rw later i
  ]

  insert_issue-IsOrdered :
      (a : VerifierIssue) (issues : Issues)
      → IsOrdered issues
      → IsOrdered (insert_issue utf8 a issues)
  unfolding insert_issue
  insert_issue-IsOrdered a [] h = (tt, tt)
  insert_issue-IsOrdered a (b ∷ issues) h = elim (Bool-cases (issue_leq utf8 a b)) [
    | inl first ↦ rw first (first, h)
    | inr later ↦ rw later (
      insert_issue-IsAfter a b issues (issue_leq_total a b later) h.0,
      insert_issue-IsOrdered a issues h.1,
    )
  ]

  insert_issue-Perm :
      (a : VerifierIssue) (issues : Issues) → Perm (insert_issue utf8 a issues) (a ∷ issues)
  unfolding insert_issue
  insert_issue-Perm a [] = Perm.refl (a ∷ [])
  insert_issue-Perm a (b ∷ issues) = elim (Bool-cases (issue_leq utf8 a b)) [
    | inl first ↦ rw first (Perm.refl (a ∷ b ∷ issues))
    | inr later ↦
        rw later (Perm.trans (Perm.cons b (insert_issue-Perm a issues)) (Perm.swap a b issues))
  ]

  -- Each issue goes before the next in the comparison.
  pub sort_issues-IsOrdered :
      (issues : Issues)
      → Perm (sort_issues utf8 issues) issues × IsOrdered (sort_issues utf8 issues)
  unfolding sort_issues
  sort_issues-IsOrdered [] = (Perm.refl [], tt)
  sort_issues-IsOrdered (a ∷ issues) =
      let (same, ordered) = sort_issues-IsOrdered issues in
      (
        Perm.trans (insert_issue-Perm a (sort_issues utf8 issues)) (Perm.cons a same),
        insert_issue-IsOrdered a _ ordered,
      )

or_swap : (a b c : Bool) → (a || (b || c)) ≡ (b || (a || c))
or_swap true true c = refl
or_swap true false c = refl
or_swap false b c = refl

module _ (utf8 : List ℕ → Bytes) where
  condemned-insert_issue :
      (a : VerifierIssue) (issues : Issues)
      → condemned (insert_issue utf8 a issues) ≡ (is_condemning a || condemned issues)
  unfolding insert_issue condemned
  condemned-insert_issue a [] = refl
  condemned-insert_issue a (b ∷ issues) = elim (Bool-cases (issue_leq utf8 a b)) [
    | inl first ↦ rw first refl
    | inr later ↦
        rw (later, condemned-insert_issue a issues)
          (or_swap (is_condemning b) (is_condemning a) (condemned issues))
  ]

  has_error-insert_issue :
      (a : VerifierIssue) (issues : Issues)
      → has_error (insert_issue utf8 a issues)
        ≡ (same_severity a.severity error || has_error issues)
  unfolding insert_issue has_error
  has_error-insert_issue a [] = refl
  has_error-insert_issue a (b ∷ issues) = elim (Bool-cases (issue_leq utf8 a b)) [
    | inl first ↦ rw first refl
    | inr later ↦
        rw (later, has_error-insert_issue a issues)
          (or_swap (same_severity b.severity error) (same_severity a.severity error)
            (has_error issues))
  ]

  condemned-sort_issues : (issues : Issues) → condemned (sort_issues utf8 issues) ≡ condemned issues
  unfolding sort_issues condemned
  condemned-sort_issues [] = refl
  condemned-sort_issues (a ∷ issues) =
      condemned-insert_issue a (sort_issues utf8 issues)
      ∙ ap (λ (b : Bool). is_condemning a || b) (condemned-sort_issues issues)

  pub has_error-sort_issues :
      (issues : Issues) → has_error (sort_issues utf8 issues) ≡ has_error issues
  unfolding sort_issues has_error
  has_error-sort_issues [] = refl
  has_error-sort_issues (a ∷ issues) =
      has_error-insert_issue a (sort_issues utf8 issues)
      ∙ ap (λ (b : Bool). same_severity a.severity error || b) (has_error-sort_issues issues)

  -- The verdict is that of the issues in the order in which a report lists them.
  pub verdict_from_issues-sort_issues :
      (issues : Issues) → verdict_from_issues (sort_issues utf8 issues) ≡ verdict_from_issues issues
  unfolding verdict_from_issues
  verdict_from_issues-sort_issues issues =
      judge-eq (sort_issues utf8 issues) false
      ∙ rw (condemned-sort_issues issues, has_error-sort_issues issues)
          (sym (judge-eq issues false))

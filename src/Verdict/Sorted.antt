-- ===== src/Verdict/Sorted.antt =====
-- The order of a report, without reference to the comparisons of `_sort_issues`: by path, integers
-- before texts, integers by value, texts by their UTF-8 bytes, and by the registry on one path.
use mathlib.Core.List.{Perm}
use label_309_py.Prelude.{
  ℕ, ◌≤◌, ◌<◌, ◌≡◌, refl, sym, ◌⊎◌, inl, inr, true, false, Bool, List, [], ◌∷◌, ◌==◌, arith,
  Bool-cases, leb→le,
}
use label_309_py.Bytes.{Bytes}
use label_309_py.ErrorCodes.{error_code_registry_index}
use label_309_py.Verdict.{Segment, key, index, VerifierIssue, Issues}
use label_309_py.Verdict.Order.{
  bytes_leq, then_by, segment_leq, path_leq, issue_leq, sort_issues, IsOrdered,
  sort_issues-IsOrdered,
}

-- Less at the first place where they differ, or a proper prefix.
abbrev pub BytesLess : Bytes → Bytes → Type 0
BytesLess [] [] = ⊥
BytesLess [] (y ∷ b) = Unit
BytesLess (x ∷ a) [] = ⊥
BytesLess (x ∷ a) (y ∷ b) = (x < y) ⊎ ((x ≡ y) × BytesLess a b)

bytes_leq-cases : (a b : Bytes) → bytes_leq a b ≡ true → BytesLess a b ⊎ (a ≡ b)
unfolding bytes_leq
bytes_leq-cases [] [] h = inr refl
bytes_leq-cases [] (y ∷ b) h = inl tt
bytes_leq-cases (x ∷ a) [] h = absurd (cc)
bytes_leq-cases (x ∷ a) (y ∷ b) h = elim (Bool-cases (x == y)) [
  | inl same ↦
      let heads : x ≡ y = ground arith in
      elim (bytes_leq-cases a b (rw same at h)) [
        | inl less ↦ inl (inr (heads, less))
        | inr equal ↦ inr (cc)
      ]
  | inr other ↦ let less : x < y = ground arith in inl (inl less)
]

bytes_leq_self : (a : Bytes) → bytes_leq a a ≡ true
unfolding bytes_leq
bytes_leq_self [] = refl
bytes_leq_self (x ∷ a) = ground (arith, bytes_leq_self a)

then_by-cases :
    (leq geq later : Bool)
    → then_by leq geq later ≡ true
    → (leq ≡ true) × (geq ≡ true → later ≡ true)
then_by-cases true true later h = (refl, λ g. h)
then_by-cases true false later h = (refl, λ g. absurd (cc))
then_by-cases false geq later h = absurd (cc)

module _ (utf8 : List ℕ → Bytes) where
  abbrev pub SegmentLess : Segment → Segment → Type 0
  SegmentLess (index i) (index j) = i < j
  SegmentLess (index i) (key b) = Unit
  SegmentLess (key a) (index j) = ⊥
  SegmentLess (key a) (key b) = BytesLess (utf8 a) (utf8 b)

  abbrev pub SameSegment : Segment → Segment → Type 0
  SameSegment (index i) (index j) = i ≡ j
  SameSegment (index i) (key b) = ⊥
  SameSegment (key a) (index j) = ⊥
  SameSegment (key a) (key b) = utf8 a ≡ utf8 b

  -- Less at the first segment where they differ, or a proper prefix.
  abbrev pub PathLess : List Segment → List Segment → Type 0
  PathLess [] [] = ⊥
  PathLess [] (t ∷ q) = Unit
  PathLess (s ∷ p) [] = ⊥
  PathLess (s ∷ p) (t ∷ q) = SegmentLess s t ⊎ (SameSegment s t × PathLess p q)

  abbrev pub SamePath : List Segment → List Segment → Type 0
  SamePath [] [] = Unit
  SamePath [] (t ∷ q) = ⊥
  SamePath (s ∷ p) [] = ⊥
  SamePath (s ∷ p) (t ∷ q) = SameSegment s t × SamePath p q

  abbrev pub IsBefore : VerifierIssue → VerifierIssue → Type 0
  IsBefore a b =
      PathLess a.path b.path
      ⊎ (SamePath a.path b.path
          × (error_code_registry_index a.code ≤ error_code_registry_index b.code))

  -- Each issue is before the next.
  abbrev pub IsSorted : Issues → Type 0
  IsSorted [] = Unit
  IsSorted (a ∷ []) = Unit
  IsSorted (a ∷ b ∷ issues) = IsBefore a b × IsSorted (b ∷ issues)

  segment_leq-cases :
      (s t : Segment) → segment_leq utf8 s t ≡ true → SegmentLess s t ⊎ SameSegment s t
  unfolding segment_leq
  segment_leq-cases (index i) (index j) h = elim (Bool-cases (i == j)) [
    | inl same ↦ inr (ground arith)
    | inr other ↦ inl (ground arith)
  ]
  segment_leq-cases (index i) (key b) h = inl tt
  segment_leq-cases (key a) (index j) h = absurd (cc)
  segment_leq-cases (key a) (key b) h = bytes_leq-cases (utf8 a) (utf8 b) h

  SameSegment-leq : (s t : Segment) → SameSegment s t → segment_leq utf8 t s ≡ true
  unfolding segment_leq
  SameSegment-leq (index i) (index j) h = ground arith
  SameSegment-leq (index i) (key b) h = absurd h
  SameSegment-leq (key a) (index j) h = absurd h
  SameSegment-leq (key a) (key b) h = rw h (bytes_leq_self (utf8 b))

  path_leq-cases : (p q : List Segment) → path_leq utf8 p q ≡ true → PathLess p q ⊎ SamePath p q
  unfolding path_leq
  path_leq-cases [] [] h = inr tt
  path_leq-cases [] (t ∷ q) h = inl tt
  path_leq-cases (s ∷ p) [] h = absurd (cc)
  path_leq-cases (s ∷ p) (t ∷ q) h =
      let (leq, later) =
        then_by-cases (segment_leq utf8 s t) (segment_leq utf8 t s) (path_leq utf8 p q) h in
      elim (segment_leq-cases s t leq) [
        | inl less ↦ inl (inl less)
        | inr same ↦ elim (path_leq-cases p q (later (SameSegment-leq s t same))) [
          | inl less ↦ inl (inr (same, less))
          | inr equal ↦ inr (same, equal)
        ]
      ]

  SameSegment-sym : (s t : Segment) → SameSegment s t → SameSegment t s
  SameSegment-sym (index i) (index j) h = sym h
  SameSegment-sym (index i) (key b) h = h
  SameSegment-sym (key a) (index j) h = h
  SameSegment-sym (key a) (key b) h = sym h

  SamePath-leq : (p q : List Segment) → SamePath p q → path_leq utf8 q p ≡ true
  unfolding path_leq
  SamePath-leq [] [] h = refl
  SamePath-leq [] (t ∷ q) h = absurd h
  SamePath-leq (s ∷ p) [] h = absurd h
  SamePath-leq (s ∷ p) (t ∷ q) (same, later) =
      rw (SameSegment-leq s t same, SameSegment-leq t s (SameSegment-sym s t same))
        (SamePath-leq p q later)

  issue_leq-IsBefore : (a b : VerifierIssue) → issue_leq utf8 a b ≡ true → IsBefore a b
  unfolding issue_leq
  issue_leq-IsBefore a b h =
      let (leq, later) =
        then_by-cases (path_leq utf8 a.path b.path) (path_leq utf8 b.path a.path) _ h in
      elim (path_leq-cases a.path b.path leq) [
        | inl less ↦ inl less
        | inr same ↦ inr (same, leb→le _ _ (later (SamePath-leq a.path b.path same)))
      ]

  IsOrdered-IsSorted : (issues : Issues) → IsOrdered utf8 issues → IsSorted issues
  IsOrdered-IsSorted [] h = tt
  IsOrdered-IsSorted (a ∷ []) h = tt
  IsOrdered-IsSorted (a ∷ b ∷ issues) h =
      (issue_leq-IsBefore a b h.0, IsOrdered-IsSorted (b ∷ issues) h.1)

  -- The issues of a report are those of the run, reordered such that the path of each is less than the
  -- path of the next, or the same with no greater place in the registry. Paths compare segment by
  -- segment, a prefix first, an integer before a text, integers by value and texts by UTF-8 bytes.
  pub sort_issues-IsSorted :
      (issues : Issues) → Perm (sort_issues utf8 issues) issues × IsSorted (sort_issues utf8 issues)
  sort_issues-IsSorted issues =
      let (same, ordered) = sort_issues-IsOrdered utf8 issues in
      (same, IsOrdered-IsSorted _ ordered)

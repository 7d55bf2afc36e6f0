-- ===== src/Validator/Silence.antt =====
-- Checks that report no error, and what that says of the tests in them.
use label_309_py.Prelude.{
  ℕ, suc, ◌≡◌, refl, Bool, true, false, not, ◌||◌, Option, none, some, List, [], ◌∷◌, ◌++◌, ◌==◌,
  All, length, arith, Result, ok, err,
}
use label_309_py.ErrorCodes.{ErrorCode, error, severity_of}
use label_309_py.Verdict.{Segment, Issues, same_severity}
use label_309_py.Verdict.Meaning.{has_error}
use label_309_py.Validator.Issuing.{issue, issue_if, for_each, for_entries, or_else}
use label_309_py.Validator.Registries.{Raised}
use label_309_py.Validator.Slots.{◌then_check◌}

-- Warnings and informational issues do not count.
abbrev pub IsSilent : Issues → Type 0
IsSilent issues = has_error issues ≡ false

or_false : (a b : Bool) → (a || b) ≡ false → (a ≡ false) × (b ≡ false)
or_false true b h = (h, cc)
or_false false b h = (refl, h)

pub IsSilent-append : (a b : Issues) → IsSilent (a ++ b) → IsSilent a × IsSilent b
unfolding has_error
IsSilent-append [] b h = (refl, h)
IsSilent-append (i ∷ a) b h =
    let (first, rest) = or_false (same_severity i.severity error) (has_error (a ++ b)) h in
    let (more, last) = IsSilent-append a b rest in (rw (first, more) refl, last)

pub IsSilent-issue :
    (code : ErrorCode) (path : List Segment)
    → severity_of code ≡ error
    → ¬ (IsSilent (issue code path))
unfolding has_error issue same_severity
IsSilent-issue code path e h = let f = rw e at h in cc

pub IsSilent-issue_if :
    (test : Bool) (code : ErrorCode) (path : List Segment)
    → severity_of code ≡ error
    → IsSilent (issue_if test code path)
    → test ≡ false
unfolding issue_if
IsSilent-issue_if true code path e h = absurd (IsSilent-issue code path e h)
IsSilent-issue_if false code path e h = refl

-- Both lists of checks, where a silent check says `P`.
pub IsSilent-for_each {ℓ κ} :
    {A : Type ℓ} (P : A → Type κ) (check : ℕ → A → Issues) (i : ℕ) (xs : List A)
    → ((j : ℕ) (x : A) → IsSilent (check j x) → P x)
    → IsSilent (for_each check i xs)
    → All P xs
unfolding for_each
IsSilent-for_each P check i [] says h = tt
IsSilent-for_each P check i (x ∷ xs) says h =
    let (first, rest) = IsSilent-append (check i x) (for_each check (suc i) xs) h in
    (says i x first, IsSilent-for_each P check (suc i) xs says rest)

pub IsSilent-for_entries {ℓ κ} :
    {A : Type ℓ} (P : A → Type κ) (check : A → Issues) (xs : List A)
    → ((x : A) → IsSilent (check x) → P x)
    → IsSilent (for_entries check xs)
    → All P xs
unfolding for_entries
IsSilent-for_entries P check [] says h = tt
IsSilent-for_entries P check (x ∷ xs) says h =
    let (first, rest) = IsSilent-append (check x) (for_entries check xs) h in
    (says x first, IsSilent-for_entries P check xs says rest)

pub IsSilent-or_else {ℓ} :
    {A : Type ℓ} (o : Option A) (code : ErrorCode) (path : List Segment) (check : A → Issues)
    → severity_of code ≡ error
    → IsSilent (or_else o (issue code path) check)
    → (a : A) × (o ≡ some a) × IsSilent (check a)
IsSilent-or_else none code path check e h = absurd (IsSilent-issue code path e h)
IsSilent-or_else (some a) code path check e h = (a, refl, h)

-- An empty list of issues is silent.
pub IsSilent-length : (issues : Issues) → not (length issues == 0) ≡ false → IsSilent issues
unfolding has_error
IsSilent-length [] h = refl
IsSilent-length (i ∷ issues) h = absurd (ground arith)

pub then_check-eq-ok :
    (first second : Result Raised Issues) (issues : Issues)
    → (first then_check second) ≡ ok issues
    → (a b : Issues) × (first ≡ ok a) × (second ≡ ok b) × (issues ≡ a ++ b)
then_check-eq-ok (err e) second issues h = cc
then_check-eq-ok (ok a) (err e) issues h = cc
then_check-eq-ok (ok a) (ok b) issues h = (a, b, refl, refl, cc)

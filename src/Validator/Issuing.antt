-- ===== src/Validator/Issuing.antt =====
-- src/cardanowall/poe_standard/validator.py, _issue. A check is a function to the issues that it appends
-- to the list; a ValidationIssue has the fields of a VerifierIssue, its message left out.
use label_309_py.Prelude.{ℕ, suc, Bool, Option, none, some, List, [], ◌∷◌, ◌++◌, if◌then◌else◌}
use label_309_py.ErrorCodes.{ErrorCode, severity_of}
use label_309_py.Verdict.{Segment, Issues}

unfoldable pub issue : ErrorCode → List Segment → Issues
issue code path = record { code = code; path = path; severity = severity_of code } ∷ []

unfoldable pub issue_if : Bool → ErrorCode → List Segment → Issues
issue_if test code path = if test then issue code path else []

-- `for i, x in enumerate(xs)`, from an index on.
unfoldable pub for_each {ℓ} : {A : Type ℓ} → (ℕ → A → Issues) → ℕ → List A → Issues
for_each check i [] = []
for_each check i (x ∷ xs) = check i x ++ for_each check (suc i) xs

unfoldable pub for_entries {ℓ} : {A : Type ℓ} → (A → Issues) → List A → Issues
for_entries check [] = []
for_entries check (x ∷ xs) = check x ++ for_entries check xs

-- A check of a value that may be absent.
abbrev pub for_some {ℓ} : {A : Type ℓ} → Option A → (A → Issues) → Issues
for_some none check = []
for_some (some a) check = check a

-- A check of a value of one type, and the issues where it has another.
abbrev pub or_else {ℓ} : {A : Type ℓ} → Option A → Issues → (A → Issues) → Issues
or_else none otherwise check = otherwise
or_else (some a) otherwise check = check a

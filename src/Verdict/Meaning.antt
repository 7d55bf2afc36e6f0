-- ===== src/Verdict/Meaning.antt =====
-- What the verdict of verify.py says of the issues.
use label_309_py.Prelude.{
  ◌≡◌, ◌↔◌, refl, ◌∙◌, ◌⊎◌, inl, inr, Bool, true, false, not, ◌&&◌, ◌||◌, [], ◌∷◌, if◌then◌else◌,
  All, Bool-cases,
}
use label_309_py.ErrorCodes.{Severity, error, warning, info}
use label_309_py.Verdict.{
  VerifierIssue, Issues, Verdict, valid, pending, unverifiable, failed, judge, verdict_from_issues,
  is_network_class, same_severity,
}

-- An error that is the record's.
abbrev pub is_condemning : VerifierIssue → Bool
is_condemning issue = same_severity issue.severity error && not (is_network_class issue.code)

unfoldable pub condemned : Issues → Bool
condemned [] = false
condemned (issue ∷ issues) = is_condemning issue || condemned issues

unfoldable pub has_error : Issues → Bool
has_error [] = false
has_error (issue ∷ issues) = same_severity issue.severity error || has_error issues

pub or_true : (b : Bool) → (b || true) ≡ true
or_true true = refl
or_true false = refl

-- The verdict by the two readings of the issues, whatever their order.
pub judge-eq :
    (issues : Issues) (saw : Bool)
    → judge issues saw ≡ (
        if condemned issues
        then failed
        else if saw || has_error issues
        then unverifiable
        else valid)
unfolding judge condemned has_error
judge-eq [] true = refl
judge-eq [] false = refl
judge-eq (issue ∷ issues) saw = elim (Bool-cases (same_severity issue.severity error)) [
  | inr mild ↦ rw mild (judge-eq issues saw)
  | inl e ↦ elim (Bool-cases (is_network_class issue.code)) [
    | inr own ↦ rw (e, own) refl
    | inl network ↦ rw (e, network) (judge-eq issues true ∙ rw or_true refl)
  ]
]

abbrev pub Any : (VerifierIssue → Type 0) → Issues → Type 0
Any P [] = ⊥
Any P (issue ∷ issues) = P issue ⊎ Any P issues

abbrev pub IsError : VerifierIssue → Type 0
IsError issue = issue.severity ≡ error

-- An error of a network, policy or provider class, which never condemns the record.
abbrev pub IsNetwork : VerifierIssue → Type 0
IsNetwork issue = is_network_class issue.code ≡ true

same_severity-eq :
    (severity : Severity) → (same_severity severity error ≡ true) ↔ (severity ≡ error)
unfolding same_severity
same_severity-eq error = (λ h. refl, λ h. refl)
same_severity-eq warning = (λ h. cc, λ h. cc)
same_severity-eq info = (λ h. cc, λ h. cc)

is_condemning-eq :
    (issue : VerifierIssue) → is_condemning issue ≡ true → IsError issue × (¬ (IsNetwork issue))
is_condemning-eq issue c = elim (Bool-cases (same_severity issue.severity error)) [
  | inr mild ↦ absurd (let no_ = rw mild at c in cc)
  | inl e ↦
      let own = rw e at c in
      ((same_severity-eq issue.severity).0 e, λ network. let no_ = rw network at own in cc)
]

blameless : (issue : VerifierIssue) → is_condemning issue ≡ false → IsError issue → IsNetwork issue
blameless issue mild e =
    let own = rw ((same_severity-eq issue.severity).1 e) at mild in
    elim (Bool-cases (is_network_class issue.code)) [
      | inl network ↦ network
      | inr other ↦ absurd (let no_ = rw other at own in cc)
    ]

has_error-Any : (issues : Issues) → has_error issues ≡ true → Any IsError issues
unfolding has_error
has_error-Any [] h = cc
has_error-Any (issue ∷ issues) h = elim (Bool-cases (same_severity issue.severity error)) [
  | inl e ↦ inl ((same_severity-eq issue.severity).0 e)
  | inr mild ↦ inr (has_error-Any issues (rw mild at h))
]

has_error-All : (issues : Issues) → has_error issues ≡ false → All (λ i. ¬ (IsError i)) issues
unfolding has_error
has_error-All [] h = tt
has_error-All (issue ∷ issues) h = elim (Bool-cases (same_severity issue.severity error)) [
  | inl e ↦ absurd (let some_ = rw e at h in cc)
  | inr mild ↦
      (λ e. cc ((same_severity-eq issue.severity).1 e, mild), has_error-All issues (rw mild at h))
]

condemned-Any :
    (issues : Issues) → condemned issues ≡ true → Any (λ i. IsError i × (¬ (IsNetwork i))) issues
unfolding condemned
condemned-Any [] h = cc
condemned-Any (issue ∷ issues) h = elim (Bool-cases (is_condemning issue)) [
  | inl c ↦ inl (is_condemning-eq issue c)
  | inr mild ↦ inr (condemned-Any issues (rw mild at h))
]

condemned-All :
    (issues : Issues) → condemned issues ≡ false → All (λ i. IsError i → IsNetwork i) issues
unfolding condemned
condemned-All [] h = tt
condemned-All (issue ∷ issues) h = elim (Bool-cases (is_condemning issue)) [
  | inl c ↦ absurd (let some_ = rw c at h in cc)
  | inr mild ↦ (blameless issue mild, condemned-All issues (rw mild at h))
]

-- What the issues have to be for a verdict.
abbrev pub Explains : Verdict → Issues → Type 0
Explains failed issues = Any (λ i. IsError i × (¬ (IsNetwork i))) issues
Explains unverifiable issues = Any IsError issues × All (λ i. IsError i → IsNetwork i) issues
Explains valid issues = All (λ i. ¬ (IsError i)) issues
Explains pending issues = ⊥

-- The verdict is `failed` only with an error that is no network error, `unverifiable` only with errors
-- that are all network errors, and `valid` only without any error; it is never `pending`.
pub verdict_from_issues-Explains : (issues : Issues) → Explains (verdict_from_issues issues) issues
unfolding verdict_from_issues
verdict_from_issues-Explains issues = elim (Bool-cases (condemned issues)) [
  | inl c ↦ rw (judge-eq issues false, c) (condemned-Any issues c)
  | inr own ↦ elim (Bool-cases (has_error issues)) [
    | inl e ↦ rw (judge-eq issues false, own, e) (has_error-Any issues e, condemned-All issues own)
    | inr none_ ↦ rw (judge-eq issues false, own, none_) (has_error-All issues none_)
  ]
]

-- ===== src/Verdict/Profiles.antt =====
-- The fields above a profile, in profile.py.
use label_309_py.Prelude.{
  ℕ, suc, ◌≡◌, ◌≢◌, ◌↔◌, refl, inl, inr, Bool, true, false, not, ◌&&◌, Option, none, some, List, [],
  ◌∷◌, ◌++◌, All, Bool-cases,
}
use label_309_py.Bytes.{Bytes}
use label_309_py.ErrorCodes.{error}
use label_309_py.Verdict.{
  VerifierIssue, Issues, Item, PoeRecord, Profile, core, signed, sealed, recipient_sealed,
  profile_at_least, profile_rank, skipped_items, out_of_profile_issues, any_sealed,
  detect_conformance_profile, is_present, judge, verdict_from_issues, same_severity,
}

any_sealed-skipped_items :
    (items : List Item) (i : ℕ) → any_sealed items ≡ true → skipped_items items i ≢ []
unfolding any_sealed skipped_items
any_sealed-skipped_items [] i h = cc
any_sealed-skipped_items (item ∷ items) i h = elim (Bool-cases (is_present item.enc)) [
  | inl here ↦ rw here (λ e. cc)
  | inr there ↦ rw there (any_sealed-skipped_items items (suc i) (rw there at h))
]

skipped_items-nil :
    (items : List Item) (i : ℕ) → any_sealed items ≡ false → skipped_items items i ≡ []
unfolding any_sealed skipped_items
skipped_items-nil [] i h = refl
skipped_items-nil (item ∷ items) i h = elim (Bool-cases (is_present item.enc)) [
  | inl here ↦ absurd (let no_ = rw here at h in cc)
  | inr there ↦ rw there (skipped_items-nil items (suc i) (rw there at h))
]

append-ne_nil : (xs ys : Issues) → ys ≢ [] → xs ++ ys ≢ []
append-ne_nil [] ys h = h
append-ne_nil (x ∷ xs) ys h = λ e. cc

module _ (items : List Item) where
  open_nil_iff :
      (sigs : Option (List Bytes)) (profile : Profile)
      → sigs ≢ some []
      → any_sealed items ≡ false
      → (out_of_profile_issues (record { items = items; sigs = sigs }) profile ≡ []) ↔ (
          profile_at_least profile
            (detect_conformance_profile (record { items = items; sigs = sigs }))
          ≡ true)
  unfolding out_of_profile_issues detect_conformance_profile profile_at_least profile_rank
  open_nil_iff (some []) profile present no_sealed = absurd (present refl)
  open_nil_iff none core present no_sealed =
      rw (no_sealed, skipped_items-nil items 0 no_sealed) (λ e. refl, λ e. refl)
  open_nil_iff none signed present no_sealed =
      rw (no_sealed, skipped_items-nil items 0 no_sealed) (λ e. refl, λ e. refl)
  open_nil_iff none sealed present no_sealed = rw no_sealed (λ e. refl, λ e. refl)
  open_nil_iff none recipient_sealed present no_sealed = rw no_sealed (λ e. refl, λ e. refl)
  open_nil_iff (some (s ∷ sigs)) core present no_sealed = rw no_sealed (λ e. cc, λ e. cc)
  open_nil_iff (some (s ∷ sigs)) signed present no_sealed =
      rw (no_sealed, skipped_items-nil items 0 no_sealed) (λ e. refl, λ e. refl)
  open_nil_iff (some (s ∷ sigs)) sealed present no_sealed = rw no_sealed (λ e. refl, λ e. refl)
  open_nil_iff (some (s ∷ sigs)) recipient_sealed present no_sealed =
      rw no_sealed (λ e. refl, λ e. refl)

  sealed_nil_iff :
      (sigs : Option (List Bytes)) (profile : Profile)
      → any_sealed items ≡ true
      → (out_of_profile_issues (record { items = items; sigs = sigs }) profile ≡ []) ↔ (
          profile_at_least profile
            (detect_conformance_profile (record { items = items; sigs = sigs }))
          ≡ true)
  unfolding out_of_profile_issues detect_conformance_profile profile_at_least profile_rank
  sealed_nil_iff sigs core some_sealed =
      rw some_sealed
        (λ e. absurd (append-ne_nil _ _ (any_sealed-skipped_items items 0 some_sealed) e), λ e. cc)
  sealed_nil_iff sigs signed some_sealed =
      rw some_sealed (λ e. absurd (any_sealed-skipped_items items 0 some_sealed e), λ e. cc)
  sealed_nil_iff sigs sealed some_sealed = rw some_sealed (λ e. refl, λ e. refl)
  sealed_nil_iff sigs recipient_sealed some_sealed = rw some_sealed (λ e. refl, λ e. refl)

-- A record whose `sigs`, if present, is not empty has no field above a profile exactly when the
-- profile is at least the one that detect_conformance_profile finds for the record.
pub out_of_profile_issues-nil_iff :
    (poe : PoeRecord) (profile : Profile)
    → poe.sigs ≢ some []
    → (out_of_profile_issues poe profile ≡ [])
      ↔ (profile_at_least profile (detect_conformance_profile poe) ≡ true)
out_of_profile_issues-nil_iff poe profile present = elim (Bool-cases (any_sealed poe.items)) [
  | inl some_sealed ↦ sealed_nil_iff poe.items poe.sigs profile some_sealed
  | inr no_sealed ↦ open_nil_iff poe.items poe.sigs profile present no_sealed
]

IsMild : VerifierIssue → Type 0
IsMild issue = same_severity issue.severity error ≡ false

judge-append_mild :
    (issues mild : Issues) (saw : Bool)
    → All IsMild mild
    → judge (issues ++ mild) saw ≡ judge issues saw
unfolding judge IsMild
judge-append_mild [] [] saw h = refl
judge-append_mild [] (m ∷ mild) saw h = rw h.0 (judge-append_mild [] mild saw h.1)
judge-append_mild (issue ∷ issues) mild saw h =
    rw (judge-append_mild issues mild saw h, judge-append_mild issues mild true h) refl

skipped_items-IsMild : (items : List Item) (i : ℕ) → All IsMild (skipped_items items i)
unfolding skipped_items IsMild same_severity
skipped_items-IsMild [] i = tt
skipped_items-IsMild (item ∷ items) i = elim (Bool-cases (is_present item.enc)) [
  | inl here ↦ rw here (refl, skipped_items-IsMild items (suc i))
  | inr there ↦ rw there (skipped_items-IsMild items (suc i))
]

out_of_profile_issues-IsMild :
    (poe : PoeRecord) (profile : Profile) → All IsMild (out_of_profile_issues poe profile)
unfolding out_of_profile_issues IsMild same_severity
out_of_profile_issues-IsMild poe profile =
    elim (Bool-cases (not (profile_at_least profile signed) && is_present poe.sigs)) [
      | inl s ↦ elim (Bool-cases (not (profile_at_least profile sealed))) [
        | inl below ↦ rw (s, below) (refl, skipped_items-IsMild poe.items 0)
        | inr above ↦ rw (s, above) (refl, tt)
      ]
      | inr n ↦ elim (Bool-cases (not (profile_at_least profile sealed))) [
        | inl below ↦ rw (n, below) (skipped_items-IsMild poe.items 0)
        | inr above ↦ rw (n, above) tt
      ]
    ]

-- The issues on the fields above a profile change no verdict.
verdict_from_issues-out_of_profile :
    (issues : Issues) (poe : PoeRecord) (profile : Profile)
    → verdict_from_issues (issues ++ out_of_profile_issues poe profile) ≡ verdict_from_issues issues
unfolding verdict_from_issues
verdict_from_issues-out_of_profile issues poe profile =
    judge-append_mild issues (out_of_profile_issues poe profile) false
      (out_of_profile_issues-IsMild poe profile)

-- ===== src/Verdict/Runs.antt =====
-- Verdicts and profiles of small runs.
use label_309_py.Prelude.{ℕ, List, ◌≡◌, ◌↔◌, refl, true, some, [], ◌∷◌, codes}
use label_309_py.ErrorCodes.{
  content_unavailable, hash_digest_length_mismatch, error, uri_fetch_failed,
}
use label_309_py.Verdict.{
  VerifierIssue, Issues, index, key, PoeRecord, core, profile_at_least, out_of_profile_issues,
  detect_conformance_profile, verdict_from_issues, judge, same_severity, is_network_class, failed,
}
use mathlib.Core.List.{Perm}
use label_309_py.Verdict.Order.{sort_issues, verdict_from_issues-sort_issues}
use label_309_py.Verdict.Sorted.{IsSorted, sort_issues-IsSorted}
use label_309_py.Verdict.Meaning.{Explains, verdict_from_issues-Explains}
use label_309_py.Verdict.Profiles.{out_of_profile_issues-nil_iff}

abbrev unavailable : VerifierIssue
unavailable = record { code = content_unavailable; path = []; severity = error }

abbrev wrong_length : VerifierIssue
wrong_length = record { code = hash_digest_length_mismatch; path = []; severity = error }

one_of_each : verdict_from_issues (unavailable ∷ wrong_length ∷ []) ≡ failed
unfolding verdict_from_issues judge same_severity is_network_class
one_of_each = refl

abbrev signed_record : PoeRecord
signed_record = record { items = []; sigs = some ((1 ∷ []) ∷ []) }

verdict_from_issues-Explains_example :
    Explains (verdict_from_issues (unavailable ∷ [])) (unavailable ∷ [])
verdict_from_issues-Explains_example = verdict_from_issues-Explains (unavailable ∷ [])

out_of_profile_issues-nil_iff_example :
    (out_of_profile_issues signed_record core ≡ [])
    ↔ (profile_at_least core (detect_conformance_profile signed_record) ≡ true)
out_of_profile_issues-nil_iff_example = out_of_profile_issues-nil_iff signed_record core (λ e. cc)

abbrev same_text : List ℕ → List ℕ
same_text t = t

abbrev three_issues : Issues
three_issues =
    record { code = uri_fetch_failed; path = key (codes "items") ∷ index 1 ∷ []; severity = error }
    ∷ record {
      code = hash_digest_length_mismatch;
      path = key (codes "items") ∷ index 0 ∷ [];
      severity = error;
    }
    ∷ unavailable
    ∷ []

sort_issues-IsSorted_example :
    Perm (sort_issues same_text three_issues) three_issues
    × IsSorted same_text (sort_issues same_text three_issues)
sort_issues-IsSorted_example = sort_issues-IsSorted same_text three_issues

verdict_from_issues-sort_issues_example :
    verdict_from_issues (sort_issues same_text three_issues) ≡ verdict_from_issues three_issues
verdict_from_issues-sort_issues_example = verdict_from_issues-sort_issues same_text three_issues

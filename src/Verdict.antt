-- ===== src/Verdict.antt =====
-- src/cardanowall/verifier/types.py, profile.py and verify.py: the issues of a verification run, its
-- profiles and its verdict. The messages of issues are left out.
pub mod Meaning
pub mod Profiles
pub mod Order
pub mod Sorted
mod Runs
use label_309_py.Prelude.{
  ℕ, zero, suc, Bool, true, false, not, ◌&&◌, ◌||◌, Option, none, some, List, [], ◌∷◌, ◌++◌, leb,
  ◌==◌, if◌then◌else◌, length, codes,
}
use label_309_py.Bytes.{Bytes, bytes_eq}
use label_309_py.ErrorCodes.{
  ErrorCode, tx_not_found, provider_unavailable, tx_integrity_mismatch, content_unavailable,
  content_fetch_limit_exceeded, ciphertext_unavailable, merkle_leaves_unavailable,
  uri_target_forbidden, out_of_profile_skipped, malformed_cbor, Severity, error, warning, info,
  severity_of, ErrorCode-discrete,
}

-- A segment of a path, with the code points of a key.
pub data Segment : Type 0 where
  key : List ℕ → Segment
  index : ℕ → Segment

pub record VerifierIssue : Type 0 where
  pub code : ErrorCode
  pub path : List Segment
  pub severity : Severity

-- `IssueSink`: the issues in the order in which they were added.
abbrev pub Issues : Type 0
Issues = List VerifierIssue

abbrev pub or_default : Option Severity → ErrorCode → Severity
or_default none code = severity_of code
or_default (some severity) code = severity

unfoldable pub add : Issues → ErrorCode → List Segment → Option Severity → Issues
add issues code path severity =
    issues ++ record { code = code; path = path; severity = or_default severity code } ∷ []

unfoldable pub same_segment : Segment → Segment → Bool
same_segment (key a) (key b) = bytes_eq a b
same_segment (index a) (index b) = a == b
same_segment (key a) (index b) = false
same_segment (index a) (key b) = false

unfoldable pub same_path : List Segment → List Segment → Bool
same_path [] [] = true
same_path (s ∷ p) (t ∷ q) = same_segment s t && same_path p q
same_path [] (t ∷ q) = false
same_path (s ∷ p) [] = false

unfoldable pub same_severity : Severity → Severity → Bool
same_severity error error = true
same_severity warning warning = true
same_severity info info = true
same_severity _ _ = false

unfoldable pub same_code : ErrorCode → ErrorCode → Bool
same_code a b = elim (ErrorCode-discrete a b) [ yes _ ↦ true | no _ ↦ false ]

unfoldable pub holds_issue : Issues → ErrorCode → List Segment → Severity → Bool
holds_issue [] code path severity = false
holds_issue (existing ∷ issues) code path severity =
    (same_code existing.code code
      && same_path existing.path path
      && same_severity existing.severity severity)
    || holds_issue issues code path severity

unfoldable pub add_once : Issues → ErrorCode → List Segment → Option Severity → Issues
add_once issues code path severity =
    if holds_issue issues code path (or_default severity code)
    then issues
    else add issues code path severity

-- `code in NETWORK_CLASS_CODES`
unfoldable pub is_network_class : ErrorCode → Bool
is_network_class malformed_cbor = false
is_network_class tx_not_found = true
is_network_class provider_unavailable = true
is_network_class tx_integrity_mismatch = true
is_network_class content_unavailable = true
is_network_class content_fetch_limit_exceeded = true
is_network_class ciphertext_unavailable = true
is_network_class merkle_leaves_unavailable = true
is_network_class uri_target_forbidden = true
is_network_class _ = false

pub data Verdict : Type 0 where
  valid pending unverifiable failed : Verdict

unfoldable pub exit_code_for_verdict : Verdict → ℕ
exit_code_for_verdict valid = 0
exit_code_for_verdict failed = 1
exit_code_for_verdict unverifiable = 2
exit_code_for_verdict pending = 3

-- The loop over the issues that are left, with `saw_network_error`.
unfoldable pub judge : Issues → Bool → Verdict
judge [] saw_network_error = if saw_network_error then unverifiable else valid
judge (issue ∷ issues) saw_network_error =
    let skip = judge issues saw_network_error in
    let saw = judge issues true in
    if not (same_severity issue.severity error)
    then skip
    else if not (is_network_class issue.code)
    then failed
    else saw

unfoldable pub verdict_from_issues : Issues → Verdict
verdict_from_issues issues = judge issues false

pub data Profile : Type 0 where
  core signed sealed recipient_sealed : Profile

-- `_PROFILE_RANK`
unfoldable pub profile_rank : Profile → ℕ
profile_rank core = 0
profile_rank signed = 1
profile_rank sealed = 2
profile_rank recipient_sealed = 3

unfoldable pub profile_at_least : Profile → Profile → Bool
profile_at_least actual required = leb (profile_rank required) (profile_rank actual)

-- An entry of a record's `items`, with what this part of the verifier reads of it: the algorithms and
-- digests of `hashes`, `uris`, and the sealed envelope as it stands.
pub record Item : Type 0 where
  pub hashes : List (List ℕ × Bytes)
  pub uris : List (List ℕ)
  pub enc : Option Bytes

pub record PoeRecord : Type 0 where
  pub items : List Item
  pub sigs : Option (List Bytes)

abbrev pub is_present {ℓ} : {A : Type ℓ} → Option A → Bool
is_present none = false
is_present (some a) = true

-- The items from position `i` on whose envelope a profile does not read.
unfoldable pub skipped_items : List Item → ℕ → Issues
skipped_items [] i = []
skipped_items (item ∷ items) i =
    let rest = skipped_items items (suc i) in
    let issue : VerifierIssue = record {
      code = out_of_profile_skipped;
      path = key (codes "items") ∷ index i ∷ key (codes "enc") ∷ [];
      severity = info;
    } in
    if is_present item.enc then issue ∷ rest else rest

unfoldable pub out_of_profile_issues : PoeRecord → Profile → Issues
out_of_profile_issues poe profile =
    let sigs_issue : VerifierIssue = record {
      code = out_of_profile_skipped;
      path = key (codes "sigs") ∷ [];
      severity = info;
    } in
    let sigs =
      if not (profile_at_least profile signed) && is_present poe.sigs
      then sigs_issue ∷ []
      else [] in
    let items = if not (profile_at_least profile sealed) then skipped_items poe.items 0 else [] in
    sigs ++ items

unfoldable pub any_sealed : List Item → Bool
any_sealed [] = false
any_sealed (item ∷ items) = is_present item.enc || any_sealed items

-- `len(record.get("sigs") or ()) > 0`
abbrev pub has_sigs : Option (List Bytes) → Bool
has_sigs none = false
has_sigs (some []) = false
has_sigs (some (s ∷ sigs)) = true

unfoldable pub detect_conformance_profile : PoeRecord → Profile
detect_conformance_profile poe =
    if any_sealed poe.items then sealed else if has_sigs poe.sigs then signed else core

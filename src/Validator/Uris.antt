-- ===== src/Validator/Uris.antt =====
-- src/cardanowall/poe_standard/validator.py, fetch_set_uri_rejection and _check_uris: the URIs from
-- which content may be fetched.
use label_309_py.Prelude.{
  ℕ, Bool, true, false, not, ◌&&◌, ◌||◌, Option, none, some, List, [], ◌∷◌, ◌++◌, ◌==◌,
  if◌then◌else◌, length, codes,
}
use label_309_py.Bytes.{bytes_eq}
use label_309_py.TxBinding.{lower}
use label_309_py.ErrorCodes.{schema_type_mismatch, invalid_uri}
use label_309_py.Verdict.{Segment, index, Issues}
use label_309_py.Content.{is_letter, is_digit, is_txid_char, all_chars, span}
use label_309_py.CidProfile.{is_valid_cid}
use label_309_py.Validator.Issuing.{issue, issue_if, for_each}

abbrev pub Text : Type 0
Text = List ℕ

-- The reasons, which fetch_set_uri_rejection gives as texts.
pub data UriRejection : Type 0 where
  fragment not_absolute not_a_txid not_a_cid unsupported_scheme : UriRejection

unfoldable pub contains : ℕ → Text → Bool
contains c [] = false
contains c (d ∷ ds) = d == c || contains c ds

abbrev pub put_first : ℕ → Option (Text × Text) → Option (Text × Text)
put_first c none = none
put_first c (some (head, rest)) = some (c ∷ head, rest)

abbrev pub starts_separator : Text → Bool
starts_separator (a ∷ b ∷ c ∷ cs) = bytes_eq (a ∷ b ∷ c ∷ []) (codes "://")
starts_separator [] = false
starts_separator (a ∷ []) = false
starts_separator (a ∷ b ∷ []) = false

abbrev pub behind_separator : Text → Text
behind_separator (a ∷ b ∷ c ∷ cs) = cs
behind_separator [] = []
behind_separator (a ∷ []) = []
behind_separator (a ∷ b ∷ []) = []

-- What stands before the first "://" and behind it.
unfoldable pub split_separator : Text → Option (Text × Text)
split_separator [] = none
split_separator (c ∷ cs) =
    let later = put_first c (split_separator cs) in
    if starts_separator (c ∷ cs) then some ([], behind_separator (c ∷ cs)) else later

-- `[a-z]` without regard to case, which in Python also matches four letters beyond ASCII.
unfoldable pub is_scheme_letter : ℕ → Bool
is_scheme_letter c = is_letter c || c == 304 || c == 305 || c == 383 || c == 8490

unfoldable pub is_scheme : Text → Bool
is_scheme [] = false
is_scheme (c ∷ cs) =
    is_scheme_letter c
    && all_chars (λ d. is_scheme_letter d || is_digit d || d == b'+' || d == b'.' || d == b'-') cs

unfoldable pub is_arweave_txid : Text → Bool
is_arweave_txid body = length body == 43 && all_chars is_txid_char body

-- `rest.split("/", 1)[0]`
unfoldable pub first_segment : Text → Text
first_segment rest = (span (λ c. not (c == b'/')) rest).0

unfoldable pub reject_parts : Option (Text × Text) → Option UriRejection
reject_parts none = some not_absolute
reject_parts (some (scheme, rest)) =
    if not (is_scheme scheme)
    then some not_absolute
    else if bytes_eq (lower scheme) (codes "ar")
    then (if is_arweave_txid rest then none else some not_a_txid)
    else if bytes_eq (lower scheme) (codes "ipfs")
    then (if is_valid_cid (first_segment rest) then none else some not_a_cid)
    else some unsupported_scheme

unfoldable pub fetch_set_uri_rejection : Text → Option UriRejection
fetch_set_uri_rejection uri =
    if contains b'#' uri then some fragment else reject_parts (split_separator uri)

abbrev pub is_rejected : Option UriRejection → Bool
is_rejected none = false
is_rejected (some reason) = true

unfoldable pub is_fetch_set_uri : Text → Bool
is_fetch_set_uri uri = not (is_rejected (fetch_set_uri_rejection uri))

unfoldable pub is_arweave_tx_uri : Text → Bool
is_arweave_tx_uri (a ∷ r ∷ colon ∷ s ∷ t ∷ body) =
    bytes_eq (a ∷ r ∷ colon ∷ s ∷ t ∷ []) (codes "ar://") && is_arweave_txid body
is_arweave_tx_uri _ = false

unfoldable pub check_one_uri : Text → List Segment → Issues
check_one_uri uri path = issue_if (is_rejected (fetch_set_uri_rejection uri)) invalid_uri path

unfoldable pub check_uris : List Text → List Segment → Issues
check_uris uris base_path =
    if length uris == 0
    then issue schema_type_mismatch base_path
    else for_each (λ i uri. check_one_uri uri (base_path ++ index i ∷ [])) 0 uris

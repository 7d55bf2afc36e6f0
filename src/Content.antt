-- ===== src/Content.antt =====
-- src/cardanowall/verifier/fetch.py, iterate_blob_sources, and src/cardanowall/verifier/items.py: the
-- bytes for a claim, source by source, and the check of an item's hashes on them. What a fetch
-- answers, by the position of its URI and its URL, is a parameter, as are the hash functions and the
-- binding of bytes to an IPFS content identifier.
pub mod Satisfied
pub mod Checked
pub mod Blame
pub mod Denied
mod Runs
use label_309_py.Prelude.{
  ℕ, zero, suc, ◌+◌, Bool, true, false, not, ◌&&◌, ◌||◌, Option, none, some, List, [], ◌∷◌, ◌++◌,
  map, ltb, leb, ◌==◌, if◌then◌else◌, length, codes,
}
use label_309_py.Bytes.{Bytes, bytes_eq}
use label_309_py.TxBinding.{lower}
use label_309_py.ErrorCodes.{
  ErrorCode, uri_target_forbidden, service_independence_violation, uri_fetch_failed,
  uri_integrity_mismatch, uri_provider_integrity_mismatch, content_unavailable,
  content_fetch_limit_exceeded,
}
use label_309_py.Verdict.{Segment, key, index, Issues, add, Item}

abbrev pub Text : Type 0
Text = List ℕ

-- The exceptions that are told apart, any other one, and a response with its status.
pub data FetchOutcome : Type 0 where
  too_large denied broken : FetchOutcome
  response : ℕ → Bytes → FetchOutcome

pub record AcquiredBlob : Type 0 where
  pub bytes : Bytes
  pub uri_index : Option ℕ
  pub attributable : Bool

-- What the generator does between two of its consumer's steps: an issue that it adds, a blob, or its
-- end at the fetch ceiling.
pub data SourceStep : Type 0 where
  issue : ErrorCode → List Segment → SourceStep
  blob : AcquiredBlob → SourceStep
  limit_exceeded : SourceStep

pub data Address : Type 0 where
  ar : Text → Address
  ipfs : Text → Text → Address

unfoldable pub is_letter : ℕ → Bool
is_letter c = (leb b'A' c && leb c b'Z') || (leb b'a' c && leb c b'z')

unfoldable pub is_digit : ℕ → Bool
is_digit c = leb b'0' c && leb c b'9'

-- `[A-Za-z0-9+.-]`
unfoldable pub is_scheme_char : ℕ → Bool
is_scheme_char c = is_letter c || is_digit c || c == b'+' || c == b'.' || c == b'-'

-- `[A-Za-z0-9_-]`
unfoldable pub is_txid_char : ℕ → Bool
is_txid_char c = is_letter c || is_digit c || c == b'_' || c == b'-'

unfoldable pub all_chars : (ℕ → Bool) → Text → Bool
all_chars test [] = true
all_chars test (c ∷ cs) = test c && all_chars test cs

-- The longest prefix of characters of a kind, and the rest.
unfoldable pub span : (ℕ → Bool) → Text → Text × Text
span test [] = ([], [])
span test (c ∷ cs) =
    let (head, rest) = span test cs in if test c then (c ∷ head, rest) else ([], c ∷ cs)

abbrev pub starts_with_letter : Text → Bool
starts_with_letter [] = false
starts_with_letter (c ∷ cs) = is_letter c

unfoldable pub after_scheme : Text → Text → Option (Text × Text)
after_scheme scheme (a ∷ b ∷ c ∷ rest) =
    if bytes_eq (a ∷ b ∷ c ∷ []) (codes "://") then some (scheme, rest) else none
after_scheme scheme [] = none
after_scheme scheme (a ∷ []) = none
after_scheme scheme (a ∷ b ∷ []) = none

-- `^([A-Za-z][A-Za-z0-9+.-]*)://`, as the scheme and what follows.
unfoldable pub split_uri : Text → Option (Text × Text)
split_uri uri =
    let (scheme, rest) = span is_scheme_char uri in
    if starts_with_letter scheme then after_scheme scheme rest else none

unfoldable pub parse_address : Option (Text × Text) → Option Address
parse_address none = none
parse_address (some (scheme, rest)) =
    let (address, path) = span (λ c. not (c == b'/')) rest in
    if bytes_eq (lower scheme) (codes "ar")
    then (if length rest == 43 && all_chars is_txid_char rest then some (ar rest) else none)
    else if bytes_eq (lower scheme) (codes "ipfs")
    then some (ipfs address path)
    else none

unfoldable pub parse_fetch_uri : Text → Option Address
parse_fetch_uri uri = parse_address (split_uri uri)

unfoldable pub ends_with_slash : Text → Bool
ends_with_slash [] = false
ends_with_slash (c ∷ []) = c == b'/'
ends_with_slash (c ∷ d ∷ cs) = ends_with_slash (d ∷ cs)

unfoldable pub join_gateway : Text → Text → Text
join_gateway base suffix = if ends_with_slash base then base ++ suffix else base ++ b'/' ∷ suffix

pub record Gateways : Type 0 where
  pub arweave : List Text
  pub ipfs : List Text

module _ (fetch : ℕ → Text → FetchOutcome) (is_bound : Text → Text → Bytes → Bool)
    (gateways : Gateways) (base_path : List Segment) where
  abbrev pub uri_path : ℕ → List Segment
  uri_path uri_index = base_path ++ key (codes "uris") ∷ index uri_index ∷ []

  -- `AcquiredBlob.attributable` of fetched bytes.
  abbrev pub is_attributable : Address → Bytes → Bool
  is_attributable (ar txid) data_ = false
  is_attributable (ipfs cid path) data_ = is_bound cid path data_

  unfoldable pub fetched_step : ℕ → Address → FetchOutcome → SourceStep
  fetched_step uri_index address too_large = limit_exceeded
  fetched_step uri_index address denied = issue service_independence_violation (uri_path uri_index)
  fetched_step uri_index address broken = issue uri_fetch_failed (uri_path uri_index)
  fetched_step uri_index address (response status data_) =
      let acquired : AcquiredBlob = record {
        bytes = data_;
        uri_index = some uri_index;
        attributable = is_attributable address data_;
      } in
      if not (status == 200) then issue uri_fetch_failed (uri_path uri_index) else blob acquired

  unfoldable pub gateway_steps : ℕ → Address → Text → List Text → List SourceStep
  gateway_steps uri_index address suffix [] = []
  gateway_steps uri_index address suffix (gateway ∷ rest) =
      fetched_step uri_index address (fetch uri_index (join_gateway gateway suffix))
      ∷ gateway_steps uri_index address suffix rest

  unfoldable pub address_steps : ℕ → Option Address → List SourceStep
  address_steps uri_index none = issue uri_target_forbidden (uri_path uri_index) ∷ []
  address_steps uri_index (some (ar txid)) = gateway_steps uri_index (ar txid) txid gateways.arweave
  address_steps uri_index (some (ipfs cid path)) =
      let steps =
        gateway_steps uri_index (ipfs cid path) (codes "ipfs/" ++ (cid ++ path)) gateways.ipfs in
      if length gateways.ipfs == 0
      then issue uri_target_forbidden (uri_path uri_index) ∷ []
      else steps

  unfoldable pub uri_steps : List Text → ℕ → List SourceStep
  uri_steps [] uri_index = []
  uri_steps (uri ∷ uris) uri_index =
      address_steps uri_index (parse_fetch_uri uri) ++ uri_steps uris (suc uri_index)

  abbrev pub supplied : Option Bytes → List SourceStep
  supplied none = []
  supplied (some data_) =
      blob (record { bytes = data_; uri_index = none; attributable = true }) ∷ []

  -- The steps of the generator, if its consumer asks for all of them; none is taken behind its end.
  unfoldable pub iterate_blob_sources : Option Bytes → List Text → Bool → List SourceStep
  iterate_blob_sources out_of_band uris allow_fetch =
      supplied out_of_band ++ (if allow_fetch then uri_steps uris 0 else [])

pub data ContentCheck : Type 0 where
  checked mismatched not_checked : ContentCheck

abbrev pub blob_path : List Segment → Option ℕ → List Segment
blob_path base_path none = base_path
blob_path base_path (some uri_index) = base_path ++ key (codes "uris") ∷ index uri_index ∷ []

module _ (sha256 blake2b_256 : Bytes → Bytes) where
  unfoldable pub entry_matches : Bytes → Text × Bytes → Bool
  entry_matches data_ (alg, digest) =
      if bytes_eq alg (codes "sha2-256")
      then bytes_eq (sha256 data_) digest
      else if bytes_eq alg (codes "blake2b-256")
      then bytes_eq (blake2b_256 data_) digest
      else false

  unfoldable pub entries_match : List (Text × Bytes) → Bytes → Bool
  entries_match [] data_ = true
  entries_match (entry ∷ entries) data_ = entry_matches data_ entry && entries_match entries data_

  unfoldable pub recompute_item_hashes : List (Text × Bytes) → Bytes → Bool
  recompute_item_hashes hashes data_ =
      if length hashes == 0 then false else entries_match hashes data_

  -- The loop over the blobs, with the issues of the generator on its way.
  unfoldable pub check_blobs :
      List (Text × Bytes) → List Segment → List SourceStep → Issues → ContentCheck × Issues
  check_blobs hashes base_path [] issues =
      (not_checked, add issues content_unavailable base_path none)
  check_blobs hashes base_path (limit_exceeded ∷ steps) issues =
      (not_checked, add issues content_fetch_limit_exceeded base_path none)
  check_blobs hashes base_path (issue code path ∷ steps) issues =
      check_blobs hashes base_path steps (add issues code path none)
  check_blobs hashes base_path (blob b ∷ steps) issues =
      let rest =
        check_blobs hashes base_path steps
          (add issues uri_provider_integrity_mismatch (blob_path base_path b.uri_index) none) in
      if recompute_item_hashes hashes b.bytes
      then (checked, issues)
      else if b.attributable
      then (mismatched, add issues uri_integrity_mismatch base_path none)
      else rest

module _ (sha256 blake2b_256 : Bytes → Bytes) (fetch : ℕ → Text → FetchOutcome)
    (is_bound : Text → Text → Bytes → Bool) (gateways : Gateways) where
  unfoldable pub check_item_content : Item → ℕ → Bool → Issues → ContentCheck × Issues
  check_item_content item item_index fetch_content issues =
      let base_path = key (codes "items") ∷ index item_index ∷ [] in
      let steps = iterate_blob_sources fetch is_bound gateways base_path none item.uris true in
      if not fetch_content
      then (not_checked, issues)
      else if length item.uris == 0
      then (not_checked, issues)
      else check_blobs sha256 blake2b_256 item.hashes base_path steps issues

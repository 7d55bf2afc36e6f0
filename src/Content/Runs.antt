-- ===== src/Content/Runs.antt =====
-- Checks of an item with two Arweave gateways. The digest is a stand-in.
use label_309_py.Prelude.{
  ℕ, ◌≡◌, ◌≢◌, ◌↔◌, ◌⊎◌, refl, true, false, Bool, none, some, [], ◌∷◌, ◌++◌, codes, if◌then◌else◌,
}
use label_309_py.Bytes.{Bytes, bytes_eq}
use label_309_py.Fixtures.{toy_digest}
use label_309_py.Verdict.{Item, failed, verdict_from_issues}
use label_309_py.Content.{
  Text, FetchOutcome, denied, response, Gateways, checked, check_item_content, check_blobs,
  recompute_item_hashes, entries_match, entry_matches, blob, AcquiredBlob,
}
use label_309_py.TxBinding.{lower}
use label_309_py.Content.{
  SourceStep, ar, fetched_step, iterate_blob_sources, uri_steps, address_steps, gateway_steps,
  join_gateway, ends_with_slash, parse_fetch_uri, split_uri, parse_address, span, is_scheme_char,
  is_letter, is_digit, after_scheme, all_chars, is_txid_char,
}
use label_309_py.Content.Satisfied.{Satisfies, Fails}
use label_309_py.Content.Checked.{Explains, check_blobs-Explains}
use label_309_py.Content.Blame.{
  item_sources, verdict_after, IsCondemned, check_item_content-verdict,
}
use label_309_py.Content.Denied.{step_of, check_item_content-denied}

abbrev two_gateways : Gateways
two_gateways = record { arweave = codes "a/" ∷ codes "b" ∷ []; ipfs = [] }

abbrev txid : Text
txid = codes "0123456789012345678901234567890123456789012"

abbrev note : Item
note = record {
  hashes = (codes "sha2-256", toy_digest (1 ∷ 2 ∷ [])) ∷ [];
  uris = (codes "ar://" ++ txid) ∷ [];
  enc = none;
}

abbrev never_bound : Text → Text → Bytes → Bool
never_bound cid path data_ = false

-- The first gateway serves other bytes, the second the right ones.
abbrev second_is_right : ℕ → Text → FetchOutcome
second_is_right i url =
    response 200 (if bytes_eq url (codes "a/" ++ txid) then 9 ∷ [] else 1 ∷ 2 ∷ [])

not_denied : (i : ℕ) (url : Text) → second_is_right i url ≢ denied
not_denied i url = cc

check_item_content-verdict_example :
    (verdict_after toy_digest toy_digest second_is_right never_bound two_gateways note 0 true []
      ≡ failed)
    ↔ ((verdict_from_issues [] ≡ failed)
        ⊎ IsCondemned toy_digest toy_digest second_is_right never_bound two_gateways note 0 true [])
check_item_content-verdict_example =
    check_item_content-verdict toy_digest toy_digest second_is_right never_bound two_gateways note 0
      true [] not_denied

abbrev other_bytes : AcquiredBlob
other_bytes = record { bytes = 9 ∷ []; uri_index = some 0; attributable = true }

check_blobs-Explains_example :
    Explains
      (Satisfies toy_digest toy_digest note.hashes)
      (Fails toy_digest toy_digest note.hashes)
      (check_blobs toy_digest toy_digest note.hashes [] (blob other_bytes ∷ []) []).0
      (blob other_bytes ∷ [])
check_blobs-Explains_example =
    check_blobs-Explains toy_digest toy_digest note.hashes [] (blob other_bytes ∷ []) []

-- The first gateway is denied, the second serves the committed bytes.
abbrev first_is_denied : ℕ → Text → FetchOutcome
first_is_denied i url =
    if bytes_eq url (codes "a/" ++ txid) then denied else response 200 (1 ∷ 2 ∷ [])

abbrev step_at : Text → SourceStep
step_at url =
    step_of toy_digest toy_digest first_is_denied never_bound two_gateways note 0 [] 0 (ar txid) url

denied_first :
    item_sources toy_digest toy_digest first_is_denied never_bound two_gateways note 0 true []
    ≡ step_at (codes "a/" ++ txid) ∷ step_at (codes "b/" ++ txid) ∷ []
unfolding iterate_blob_sources uri_steps address_steps gateway_steps join_gateway ends_with_slash
    parse_fetch_uri split_uri parse_address span is_scheme_char is_letter is_digit after_scheme
    all_chars is_txid_char lower bytes_eq
denied_first = refl

meets_denied : first_is_denied 0 (codes "a/" ++ txid) ≡ denied
unfolding bytes_eq
meets_denied = refl

check_item_content-denied_example :
    verdict_from_issues
      (check_item_content toy_digest toy_digest first_is_denied never_bound two_gateways note 0 true
        []).1
    ≡ failed
check_item_content-denied_example =
    check_item_content-denied toy_digest toy_digest first_is_denied never_bound two_gateways note 0
      [] [] 0 (ar txid) (codes "a/" ++ txid) (step_at (codes "b/" ++ txid) ∷ []) denied_first tt
      meets_denied

still_checked :
    (check_item_content toy_digest toy_digest first_is_denied never_bound two_gateways note 0 true
      []).0
    ≡ checked
unfolding check_item_content fetched_step check_blobs recompute_item_hashes entries_match
    entry_matches bytes_eq
still_checked = rw denied_first refl

-- ===== src/MerkleCheck.antt =====
-- src/cardanowall/verifier/merkle.py: the check of a Merkle commitment against the leaves-list files
-- that its sources bring. The canonical decoder, SHA-256 and the sources' fetches are parameters.
pub mod Opened
mod Runs
use label_309_py.Prelude.{
  ℕ, Bool, true, false, not, ◌&&◌, Option, none, some, List, [], ◌∷◌, ◌++◌, ◌==◌, if◌then◌else◌,
  codes, Result, ok, err,
}
use label_309_py.Bytes.{Bytes, bytes_eq}
use label_309_py.ErrorCodes.{
  ErrorCode, unsupported_merkle_commit_alg, schema_merkle_leaf_count_mismatch,
  schema_merkle_leaves_format_unsupported, schema_merkle_leaves_malformed, merkle_root_mismatch,
  uri_provider_integrity_mismatch,
}
use label_309_py.Verdict.{Segment, key, index, Issues, add}
use label_309_py.Merkle.{MerkleError, merkle_sha2_256_root}
use label_309_py.Cbor.{Value, is_some}
use label_309_py.LeavesList.{
  LeavesListError, malformed, format_unsupported, leaf_count_mismatch, root_mismatch, unencodable,
  tree_error, LeavesList, default_tree_alg, decode_leaves_list,
}
use label_309_py.Content.{
  Text, FetchOutcome, AcquiredBlob, SourceStep, issue, blob, limit_exceeded, Gateways, ContentCheck,
  checked, mismatched, not_checked, blob_path, iterate_blob_sources,
}

pub record MerkleCommit : Type 0 where
  pub alg : Text
  pub root : Bytes
  pub leaf_count : ℕ
  pub uris : List Text

pub record MerkleUnavailableMarker : Type 0 where
  pub path : List Segment
  pub limit_exceeded : Bool

pub record MerkleCommitOutcome : Type 0 where
  pub content_check : ContentCheck
  pub unavailable : Option MerkleUnavailableMarker

-- The code of a file that does not decode.
unfoldable pub failure_code : LeavesListError → ErrorCode
failure_code malformed = schema_merkle_leaves_malformed
failure_code format_unsupported = schema_merkle_leaves_format_unsupported
failure_code leaf_count_mismatch = schema_merkle_leaf_count_mismatch
failure_code root_mismatch = merkle_root_mismatch
failure_code unencodable = schema_merkle_leaves_malformed
failure_code (tree_error reason) = schema_merkle_leaves_malformed

-- No error comes here: the decoder has computed the root of these leaves.
abbrev pub same_root : Result MerkleError Bytes → Bytes → Bool
same_root (err reason) root = false
same_root (ok recomputed) root = bytes_eq recomputed root

abbrev pub unavailable_at : List Segment → Bool → MerkleCommitOutcome
unavailable_at path limit = record {
  content_check = not_checked;
  unavailable = some (record { path = path; limit_exceeded = limit });
}

abbrev pub settled_as : ContentCheck → MerkleCommitOutcome
settled_as check = record { content_check = check; unavailable = none }

-- What a blob settles, by the code that it fails with.
abbrev pub settle :
    Option ErrorCode
    → Bool
    → List Segment
    → Issues
    → MerkleCommitOutcome × Issues
    → MerkleCommitOutcome × Issues
settle none attributable base_path issues rest = (settled_as checked, issues)
settle (some code) true base_path issues rest =
    (settled_as mismatched, add issues code base_path none)
settle (some code) false base_path issues rest = rest

module _ (sha256 : Bytes → Bytes) (decode_canonical_cbor : Bytes → Option Value) where
  unfoldable pub check_decoded : MerkleCommit → Result LeavesListError LeavesList → Option ErrorCode
  check_decoded commit (err reason) = some (failure_code reason)
  check_decoded commit (ok l) =
      if not (l.leaf_count == commit.leaf_count)
      then some schema_merkle_leaf_count_mismatch
      else if not (same_root (merkle_sha2_256_root sha256 l.leaves) commit.root)
      then some merkle_root_mismatch
      else none

  unfoldable pub validate_leaves_document : MerkleCommit → Bytes → Option ErrorCode
  validate_leaves_document commit data_ =
      check_decoded commit (decode_leaves_list sha256 decode_canonical_cbor data_)

  -- The loop over the blobs, with the issues of the generator on its way.
  unfoldable pub check_leaves_blobs :
      MerkleCommit → List Segment → List SourceStep → Issues → MerkleCommitOutcome × Issues
  check_leaves_blobs commit base_path [] issues = (unavailable_at base_path false, issues)
  check_leaves_blobs commit base_path (limit_exceeded ∷ steps) issues =
      (unavailable_at base_path true, issues)
  check_leaves_blobs commit base_path (issue code path ∷ steps) issues =
      check_leaves_blobs commit base_path steps (add issues code path none)
  check_leaves_blobs commit base_path (blob b ∷ steps) issues =
      settle (validate_leaves_document commit b.bytes) b.attributable base_path issues (
        check_leaves_blobs commit base_path steps
          (add issues uri_provider_integrity_mismatch (blob_path base_path b.uri_index) none))

  module _ (fetch : ℕ → Text → FetchOutcome) (is_bound : Text → Text → Bytes → Bool)
      (gateways : Gateways) where
    abbrev pub commit_sources : MerkleCommit → ℕ → Bool → Option Bytes → List SourceStep
    commit_sources commit commit_index fetch_content out_of_band =
        iterate_blob_sources fetch is_bound gateways
          (key (codes "merkle") ∷ index commit_index ∷ []) out_of_band commit.uris fetch_content

    unfoldable pub check_merkle_commit :
        MerkleCommit → ℕ → Bool → Option Bytes → Issues → MerkleCommitOutcome × Issues
    check_merkle_commit commit commit_index fetch_content out_of_band issues =
        let base_path : List Segment = key (codes "merkle") ∷ index commit_index ∷ [] in
        if not (bytes_eq commit.alg default_tree_alg)
        then (
          settled_as not_checked,
          add issues unsupported_merkle_commit_alg (base_path ++ key (codes "alg") ∷ []) none,
        )
        else if not fetch_content && not (is_some out_of_band)
        then (settled_as not_checked, issues)
        else check_leaves_blobs commit base_path
            (commit_sources commit commit_index fetch_content out_of_band) issues

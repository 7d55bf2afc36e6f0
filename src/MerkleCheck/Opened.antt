-- ===== src/MerkleCheck/Opened.antt =====
-- A Merkle commitment that is checked.
use label_309_py.Prelude.{
  ◌≡◌, refl, inl, inr, Bool, true, false, not, Bool-cases, Option, none, some, List, [], ◌∷◌,
  length, ok,
}
use label_309_py.Bytes.{Bytes}
use label_309_py.ErrorCodes.{ErrorCode}
use label_309_py.Verdict.{Segment, Issues}
use label_309_py.Merkle.{merkle_sha2_256_root}
use label_309_py.Cbor.{Value, is_some}
use label_309_py.LeavesList.{LeavesList, decode_leaves_list}
use label_309_py.Content.{AcquiredBlob, SourceStep, issue, blob, limit_exceeded}
use label_309_py.Content.Checked.{Explains, Settles-first, Explains-cons}
use label_309_py.MerkleCheck.{
  MerkleCommit, MerkleCommitOutcome, validate_leaves_document, settle, check_leaves_blobs,
}

module _ (sha256 : Bytes → Bytes) (decode_canonical_cbor : Bytes → Option Value)
    (commit : MerkleCommit) where
  -- The bytes are a leaves-list file with as many leaves as the commitment says and with its root.
  pub record Opens (data_ : Bytes) : Type 0 where
    pub list : LeavesList
    pub decodes : decode_leaves_list sha256 decode_canonical_cbor data_ ≡ ok list
    pub counted : length list.leaves ≡ commit.leaf_count
    pub rooted : merkle_sha2_256_root sha256 list.leaves ≡ ok commit.root

  abbrev pub opens : Bytes → Bool
  opens data_ = not (is_some (validate_leaves_document sha256 decode_canonical_cbor commit data_))

  abbrev pub IsOpen : Bytes → Type 0
  IsOpen data_ = opens data_ ≡ true

  abbrev pub IsClosed : Bytes → Type 0
  IsClosed data_ = opens data_ ≡ false

  settle-Explains :
      (failure : Option ErrorCode) (b : AcquiredBlob) (base_path : List Segment)
      (steps : List SourceStep) (issues : Issues) (rest : MerkleCommitOutcome × Issues)
      → validate_leaves_document sha256 decode_canonical_cbor commit b.bytes ≡ failure
      → Explains IsOpen IsClosed rest.0.content_check steps
      → Explains IsOpen IsClosed
          (settle failure b.attributable base_path issues rest).0.content_check
          (blob b ∷ steps)
  settle-Explains none b base_path steps issues rest same h =
      Settles-first IsOpen IsClosed (blob b) steps (rw same)
  settle-Explains (some code) b base_path steps issues rest same h =
      elim (Bool-cases b.attributable) [
        | inl own ↦ simp own (Settles-first IsOpen IsClosed (blob b) steps (rw same, own))
        | inr other ↦
            simp other
              (Explains-cons IsOpen IsClosed rest.0.content_check (blob b) steps (rw same, other) h)
      ]

  -- A commitment is `checked` only by a first file that opens it, `mismatched` only by a first
  -- attributable one that does not, and `not_checked` only where the fetch ceiling is met or the
  -- sources are exhausted; every file before that does not open it and cannot be attributed.
  pub check_leaves_blobs-Explains :
      (base_path : List Segment) (steps : List SourceStep) (issues : Issues)
      → Explains IsOpen IsClosed
          (check_leaves_blobs sha256 decode_canonical_cbor commit base_path steps
            issues).0.content_check
          steps
  unfolding check_leaves_blobs
  check_leaves_blobs-Explains base_path [] issues = inr tt
  check_leaves_blobs-Explains base_path (limit_exceeded ∷ steps) issues =
      inl (Settles-first IsOpen IsClosed limit_exceeded steps tt)
  check_leaves_blobs-Explains base_path (issue code path ∷ steps) issues =
      Explains-cons IsOpen IsClosed _ (issue code path) steps tt
        (check_leaves_blobs-Explains base_path steps _)
  check_leaves_blobs-Explains base_path (blob b ∷ steps) issues =
      settle-Explains _ b base_path steps issues _ refl
        (check_leaves_blobs-Explains base_path steps _)

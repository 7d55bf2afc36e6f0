-- ===== src/LeavesList.antt =====
-- src/cardanowall/_crypto/merkle_leaves_list.py: the file of the leaves behind a Merkle commitment.
-- The canonical decoder and encoder and SHA-256 are parameters.
pub mod Decoded
pub mod RoundTrip
use label_309_py.Prelude.{
  ℕ, not, Option, none, some, List, [], ◌∷◌, ◌==◌, if◌then◌else◌, length, codes, natural, Result,
  ok, err, ◌>>=◌, ◌>>◌, require,
}
use label_309_py.Bytes.{Bytes, bytes_eq}
use label_309_py.Merkle.{MerkleError, all_digests, merkle_sha2_256_root}
use label_309_py.Cbor.{
  Text, Value, text, integer, bytes, array, dict, Values, end, value, Entries, no_entries, entry,
  text_key, get, not_none, as_text, as_bytes, as_array, as_dict, as_integer, as_natural, and_then,
}

-- `MerkleLeavesListError`, and the exceptions of the Merkle tree and of the encoder.
pub data LeavesListError : Type 0 where
  malformed format_unsupported leaf_count_mismatch root_mismatch unencodable : LeavesListError
  tree_error : MerkleError → LeavesListError

abbrev pub leaves_list_format_v1 : Text
leaves_list_format_v1 = codes "cardano-poe-merkle-leaves-v1"

abbrev pub default_tree_alg : Text
default_tree_alg = codes "rfc9162-sha256"

-- What is decoded, its two constant fields left out.
pub record LeavesList : Type 0 where
  pub root : Bytes
  pub leaves : List Bytes
  pub leaf_count : ℕ
  pub leaf_alg : Option Text

abbrev pub or_raise {ℓ} : {A : Type ℓ} → Option A → LeavesListError → Result LeavesListError A
or_raise none reason = err reason
or_raise (some a) reason = ok a

abbrev pub as_digest : Value → Option Bytes
as_digest v = and_then (as_bytes v) λ b. if length b == 32 then some b else none

unfoldable pub read_leaves : List Value → Option (List Bytes)
read_leaves [] = some []
read_leaves (v ∷ vs) =
    and_then (as_digest v) λ leaf. and_then (read_leaves vs) λ leaves. some (leaf ∷ leaves)

unfoldable pub check_format : Entries → Result LeavesListError (Unit {0})
check_format d = do
  format ← or_raise (and_then (get d (codes "format")) as_text) malformed
  require (bytes_eq format leaves_list_format_v1) format_unsupported
  tree_alg ← or_raise (and_then (get d (codes "tree_alg")) as_text) malformed
  require (bytes_eq tree_alg default_tree_alg) malformed

unfoldable pub read_leaf_array : Entries → Result LeavesListError (List Bytes)
read_leaf_array d = do
  leaves_raw ← or_raise (and_then (get d (codes "leaves")) as_array) malformed
  require (not (length leaves_raw == 0)) malformed
  or_raise (read_leaves leaves_raw) malformed

unfoldable pub read_leaf_count : Entries → List Bytes → Result LeavesListError ℕ
read_leaf_count d leaves = do
  leaf_count ← or_raise (as_natural (and_then (get d (codes "leaf_count")) as_integer)) malformed
  require (leaf_count == length leaves) leaf_count_mismatch
  ok leaf_count

abbrev pub read_alg : Option Value → Result LeavesListError (Option Text)
read_alg none = ok none
read_alg (some v) = do t ← or_raise (as_text v) malformed; ok (some t)

abbrev pub lift_tree {ℓ} : {A : Type ℓ} → Result MerkleError A → Result LeavesListError A
lift_tree (err reason) = err (tree_error reason)
lift_tree (ok a) = ok a

unfoldable pub values_of : List Bytes → Values
values_of [] = end
values_of (leaf ∷ leaves) = value (bytes leaf) (values_of leaves)

abbrev pub leaf_alg_entry : Option Text → Entries
leaf_alg_entry none = no_entries
leaf_alg_entry (some leaf_alg) = entry (text_key (codes "leaf_alg")) (text leaf_alg) no_entries

-- The dict that is encoded.
unfoldable pub leaves_entries : List Bytes → Bytes → Option Text → Entries
leaves_entries leaves root leaf_alg =
    entry (text_key (codes "format")) (text leaves_list_format_v1) (
      entry (text_key (codes "tree_alg")) (text default_tree_alg) (
        entry (text_key (codes "root")) (bytes root) (
          entry (text_key (codes "leaves")) (array (values_of leaves)) (
            entry (text_key (codes "leaf_count")) (integer (natural (length leaves)))
              (leaf_alg_entry leaf_alg)))))

unfoldable pub encode_leaves_list :
    (Value → Option Bytes) → List Bytes → Bytes → Option Text → Result LeavesListError Bytes
encode_leaves_list encode_canonical_cbor leaves root leaf_alg = do
  require (length root == 32) malformed
  require (not (length leaves == 0)) malformed
  require (all_digests leaves) malformed
  or_raise (encode_canonical_cbor (dict (leaves_entries leaves root leaf_alg))) unencodable

module _ (sha256 : Bytes → Bytes) where
  unfoldable pub check_root : List Bytes → Bytes → Result LeavesListError (Unit {0})
  check_root leaves root = do
    recomputed_root ← lift_tree (merkle_sha2_256_root sha256 leaves)
    require (bytes_eq recomputed_root root) root_mismatch

  unfoldable pub read_leaves_list : Entries → Result LeavesListError LeavesList
  read_leaves_list d = do
    check_format d
    root ← or_raise (and_then (get d (codes "root")) as_digest) malformed
    leaves ← read_leaf_array d
    leaf_count ← read_leaf_count d leaves
    leaf_alg ← read_alg (not_none (get d (codes "leaf_alg")))
    check_root leaves root
    ok (record { root = root; leaves = leaves; leaf_count = leaf_count; leaf_alg = leaf_alg })

  unfoldable pub decode_leaves_list :
      (Bytes → Option Value) → Bytes → Result LeavesListError LeavesList
  decode_leaves_list decode_canonical_cbor data_ = do
    d ← or_raise (and_then (decode_canonical_cbor data_) as_dict) malformed
    read_leaves_list d

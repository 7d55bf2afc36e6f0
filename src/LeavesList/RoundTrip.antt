-- ===== src/LeavesList/RoundTrip.antt =====
-- A leaves-list file is decoded to what was encoded.
use label_309_py.Prelude.{
  suc, ◌≡◌, ◌↔◌, refl, sym, ap, ◌∙◌, true, not, ◌==◌, ==→eq, eq→==, Option, none, some, List, [],
  ◌∷◌, length, ok, ◌>>◌, require, >>=-eq-ok, codes,
}
use label_309_py.Bytes.{Bytes, bytes_eq}
use label_309_py.Merkle.{all_digests, merkle_sha2_256_root}
use label_309_py.Merkle.Injective.{all_digests-cons}
use label_309_py.Cbor.{Text, Value, Entries, dict, get, elements, and_then, not_none}
use label_309_py.LeavesList.{
  LeavesList, malformed, read_leaves, values_of, leaves_entries, encode_leaves_list, check_format,
  read_leaf_array, read_leaf_count, read_alg, leaf_alg_entry, as_digest, check_root,
  read_leaves_list, decode_leaves_list,
}
use label_309_py.LeavesList.Decoded.{check_root-eq, check_root-rooted, require-eq, or_raise-eq-ok}

-- What is encoded of `d` is decoded to a dict with the same fields, in an order of its own.
abbrev pub ReadsBack : (Bytes → Option Value) → (Value → Option Bytes) → Entries → Type 0
ReadsBack decode_canonical_cbor encode_canonical_cbor d =
    (b : Bytes)
    → encode_canonical_cbor (dict d) ≡ some b
    → (d' : Entries) × (decode_canonical_cbor b ≡ some (dict d'))
      × ((name : Text) → get d' name ≡ get d name)

length-values_of : (leaves : List Bytes) → length (elements (values_of leaves)) ≡ length leaves
unfolding elements values_of
length-values_of [] = refl
length-values_of (leaf ∷ leaves) = ap suc (length-values_of leaves)

read_leaves-values_of :
    (leaves : List Bytes)
    → all_digests leaves ≡ true
    → read_leaves (elements (values_of leaves)) ≡ some leaves
unfolding elements values_of read_leaves all_digests
read_leaves-values_of [] h = refl
read_leaves-values_of (leaf ∷ leaves) h =
    let (sized, more) = all_digests-cons leaf leaves h in
    rw (eq→== (length leaf) 32 sized, read_leaves-values_of leaves more)

alg_entry :
    (leaf_alg : Option Text)
    → read_alg (not_none (get (leaf_alg_entry leaf_alg) (codes "leaf_alg"))) ≡ ok leaf_alg
unfolding get bytes_eq
alg_entry none = refl
alg_entry (some leaf_alg) = refl

module _ (sha256 : Bytes → Bytes) (leaves : List Bytes) (root : Bytes)
    (leaf_alg : Option Text) where
  abbrev pub as_decoded : LeavesList
  as_decoded = record {
    root = root;
    leaves = leaves;
    leaf_count = length leaves;
    leaf_alg = leaf_alg;
  }

  abbrev pub fields : Entries
  fields = leaves_entries leaves root leaf_alg

  module _ (d : Entries) (same : (name : Text) → get d name ≡ get fields name) where
    read_format : check_format d ≡ ok tt
    unfolding check_format leaves_entries get bytes_eq
    read_format = rw (same (codes "format"), same (codes "tree_alg"))

    read_root : length root ≡ 32 → and_then (get d (codes "root")) as_digest ≡ some root
    unfolding leaves_entries get bytes_eq
    read_root sized = rw (same (codes "root"), eq→== (length root) 32 sized)

    read_array :
        not (length leaves == 0) ≡ true → all_digests leaves ≡ true → read_leaf_array d ≡ ok leaves
    unfolding read_leaf_array leaves_entries get bytes_eq
    read_array some_leaf digests = rw (
      same (codes "leaves"),
      length-values_of leaves,
      some_leaf,
      read_leaves-values_of leaves digests,
    )

    read_count : read_leaf_count d leaves ≡ ok (length leaves)
    unfolding read_leaf_count leaves_entries get bytes_eq
    read_count = rw (same (codes "leaf_count"), eq→== (length leaves) (length leaves) refl)

    read_leaf_alg : read_alg (not_none (get d (codes "leaf_alg"))) ≡ ok leaf_alg
    unfolding leaves_entries get bytes_eq
    read_leaf_alg = rw (same (codes "leaf_alg")) (alg_entry leaf_alg)

    read_back :
        length root ≡ 32
        → not (length leaves == 0) ≡ true
        → all_digests leaves ≡ true
        → read_leaves_list sha256 d ≡ (check_root sha256 leaves root >> ok as_decoded)
    unfolding read_leaves_list
    read_back sized some_leaf digests =
        rw (read_format, read_root sized, read_array some_leaf digests, read_count, read_leaf_alg)

  -- What an encoded list has passed.
  record IsEncoded (encode_canonical_cbor : Value → Option Bytes) (data_ : Bytes) : Type 0 where
    sized : length root ≡ 32
    some_leaf : not (length leaves == 0) ≡ true
    digests : all_digests leaves ≡ true
    encoded : encode_canonical_cbor (dict fields) ≡ some data_

  encode_leaves_list-IsEncoded :
      (encode_canonical_cbor : Value → Option Bytes) (data_ : Bytes)
      → encode_leaves_list encode_canonical_cbor leaves root leaf_alg ≡ ok data_
      → IsEncoded encode_canonical_cbor data_
  unfolding encode_leaves_list
  encode_leaves_list-IsEncoded encode_canonical_cbor data_ h =
      let (u, sized, h1) = >>=-eq-ok (require (length root == 32) malformed) _ h in
      let (v, some_leaf, h2) = >>=-eq-ok (require (not (length leaves == 0)) malformed) _ h1 in
      let (w, digests, h3) = >>=-eq-ok (require (all_digests leaves) malformed) _ h2 in
      record {
        sized = ==→eq (length root) 32 (require-eq _ _ sized);
        some_leaf = require-eq _ _ some_leaf;
        digests = require-eq _ _ digests;
        encoded = or_raise-eq-ok _ _ _ h3;
      }

  -- A file that is encoded from leaves and a root decodes to these exactly when the root is that of
  -- the leaves (what the canonical encoder makes of its dict, the decoder reads to the same fields).
  pub decode-encode_leaves_list :
      (decode_canonical_cbor : Bytes → Option Value) (encode_canonical_cbor : Value → Option Bytes)
      → ReadsBack decode_canonical_cbor encode_canonical_cbor fields
      → (data_ : Bytes) → encode_leaves_list encode_canonical_cbor leaves root leaf_alg ≡ ok data_
      → (decode_leaves_list sha256 decode_canonical_cbor data_ ≡ ok as_decoded)
        ↔ (merkle_sha2_256_root sha256 leaves ≡ ok root)
  unfolding decode_leaves_list
  decode-encode_leaves_list decode_canonical_cbor encode_canonical_cbor reads data_ h =
      let e = encode_leaves_list-IsEncoded encode_canonical_cbor data_ h in
      let (d, decodes, same) = reads data_ e.encoded in
      let back = read_back d same e.sized e.some_leaf e.digests in
      (
        λ read.
            check_root-eq sha256 leaves root
              (>>=-eq-ok (check_root sha256 leaves root) _ (sym back ∙ rw decodes at read)).1,
        λ rooted. rw (decodes, back, check_root-rooted sha256 leaves root rooted),
      )

-- ===== src/MerkleCheck/Runs.antt =====
-- A leaves-list file of two leaves, and the commitment that it opens.
use label_309_py.Prelude.{
  ℕ, ◌≡◌, ◌↔◌, ◌⊎◌, refl, ap, Bool, false, ◌==◌, if◌then◌else◌, Option, none, some, List, [], ◌∷◌,
  length, codes, ok,
}
use label_309_py.Bytes.{Bytes, Collision}
use label_309_py.Fixtures.{pad, toy_digest, length-toy_digest}
use label_309_py.Merkle.{
  merkle_sha2_256_root, root_unchecked, hash_leaf, hash_node, largest_pow2_lt, bit_length,
  root_upto, validate_leaves, all_digests,
}
use label_309_py.Cbor.{Text, Value, dict}
use label_309_py.LeavesList.{
  default_tree_alg, leaves_entries, encode_leaves_list, decode_leaves_list,
}
use label_309_py.LeavesList.Decoded.{decode_leaves_list_unique}
use label_309_py.LeavesList.RoundTrip.{ReadsBack, as_decoded, decode-encode_leaves_list}
use label_309_py.Content.{FetchOutcome, broken, Gateways}
use label_309_py.MerkleCheck.{MerkleCommit}

abbrev two_leaves : List Bytes
two_leaves = pad 32 (1 ∷ []) ∷ pad 32 (2 ∷ []) ∷ []

abbrev two_root : Bytes
two_root = pad 32 (1 ∷ 0 ∷ 1 ∷ [])

two_rooted : merkle_sha2_256_root toy_digest two_leaves ≡ ok two_root
unfolding merkle_sha2_256_root root_unchecked hash_leaf hash_node largest_pow2_lt bit_length
    root_upto validate_leaves
two_rooted = refl

abbrev leaf_alg : Option Text
leaf_alg = some (codes "sha2-256")

-- A file of one byte names the algorithm of its leaves, any other file does not.
abbrev decode_two : Bytes → Option Value
decode_two b =
    some (dict (leaves_entries two_leaves two_root (if length b == 1 then leaf_alg else none)))

abbrev encode_one : Bytes → Value → Option Bytes
encode_one b v = some b

reads_named :
    ReadsBack decode_two (encode_one (7 ∷ [])) (leaves_entries two_leaves two_root leaf_alg)
reads_named b same =
    let is_b : b ≡ 7 ∷ [] = cc in
    (leaves_entries two_leaves two_root leaf_alg, ap decode_two is_b, λ name. refl)

reads_unnamed : ReadsBack decode_two (encode_one []) (leaves_entries two_leaves two_root none)
reads_unnamed b same =
    let is_b : b ≡ [] = cc in
    (leaves_entries two_leaves two_root none, ap decode_two is_b, λ name. refl)

encodes_named : encode_leaves_list (encode_one (7 ∷ [])) two_leaves two_root leaf_alg ≡ ok (7 ∷ [])
unfolding encode_leaves_list all_digests
encodes_named = refl

encodes_unnamed : encode_leaves_list (encode_one []) two_leaves two_root none ≡ ok []
unfolding encode_leaves_list all_digests
encodes_unnamed = refl

decode-encode_leaves_list_example :
    (decode_leaves_list toy_digest decode_two (7 ∷ [])
      ≡ ok (as_decoded toy_digest two_leaves two_root leaf_alg))
    ↔ (merkle_sha2_256_root toy_digest two_leaves ≡ ok two_root)
decode-encode_leaves_list_example =
    decode-encode_leaves_list toy_digest two_leaves two_root leaf_alg decode_two
      (encode_one (7 ∷ [])) reads_named (7 ∷ []) encodes_named

named_decodes :
    decode_leaves_list toy_digest decode_two (7 ∷ [])
    ≡ ok (as_decoded toy_digest two_leaves two_root leaf_alg)
named_decodes =
    (decode-encode_leaves_list toy_digest two_leaves two_root leaf_alg decode_two
        (encode_one (7 ∷ [])) reads_named (7 ∷ []) encodes_named).1
      two_rooted

unnamed_decodes :
    decode_leaves_list toy_digest decode_two []
    ≡ ok (as_decoded toy_digest two_leaves two_root none)
unnamed_decodes =
    (decode-encode_leaves_list toy_digest two_leaves two_root none decode_two (encode_one [])
        reads_unnamed [] encodes_unnamed).1
      two_rooted

decode_leaves_list_unique_example : (two_leaves ≡ two_leaves) ⊎ Collision toy_digest
decode_leaves_list_unique_example =
    decode_leaves_list_unique toy_digest decode_two length-toy_digest (7 ∷ []) []
      (as_decoded toy_digest two_leaves two_root leaf_alg)
      (as_decoded toy_digest two_leaves two_root none) named_decodes unnamed_decodes refl

abbrev two_commit : MerkleCommit
two_commit = record { alg = default_tree_alg; root = two_root; leaf_count = 2; uris = [] }

abbrev offline_fetch : ℕ → Text → FetchOutcome
offline_fetch i url = broken

abbrev never_bound : Text → Text → Bytes → Bool
never_bound cid path b = false

abbrev no_gateways : Gateways
no_gateways = record { arweave = []; ipfs = [] }

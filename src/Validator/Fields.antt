-- ===== src/Validator/Fields.antt =====
-- src/cardanowall/poe_standard/validator.py, the domain checks of the fields of a record that are no
-- envelope and no signature, and is_extension_key of src/cardanowall/poe_standard/schema.py.
use label_309_py.Prelude.{
  ℕ, Bool, true, false, not, ◌&&◌, ◌||◌, Option, none, some, List, [], ◌∷◌, ◌++◌, leb, ◌==◌,
  if◌then◌else◌, length, codes, suc,
}
use label_309_py.ErrorCodes.{
  schema_empty_record, schema_type_mismatch, schema_unknown_field, unsupported_hash_alg,
  hash_digest_length_mismatch, unsupported_merkle_commit_alg, schema_merkle_leaf_count_invalid,
  crit_shape_invalid, extension_unsupported_critical,
}
use label_309_py.Verdict.{Segment, key, index, Issues}
use label_309_py.Cbor.{
  Text, Value, Entries, get, text_entries, is_member, not_none, as_text, as_bytes, as_array,
  as_integer, as_natural, and_then, is_some,
}
use label_309_py.Validator.Issuing.{issue, issue_if, for_entries, for_some, or_else}
use label_309_py.Validator.Registries.{hash_alg_length, merkle_commit_alg_length, uint32_max}
use label_309_py.Validator.Uris.{check_uris}

abbrev pub is_lower_letter : ℕ → Bool
is_lower_letter c = leb b'a' c && leb c b'z'

-- No control character: `[^\x00-\x1f\x7f-\x9f]`
abbrev pub is_printable : ℕ → Bool
is_printable c = not (leb c 31 || (leb 127 c && leb c 159))

unfoldable pub all_printable : Text → Bool
all_printable [] = true
all_printable (c ∷ cs) = is_printable c && all_printable cs

abbrev pub is_suffix : Text → Bool
is_suffix cs = not (length cs == 0) && all_printable cs

-- Behind at least one letter: further letters, a dash and a suffix. The vendor form `x-…` is one of
-- these.
unfoldable pub is_companion : Text → Bool
is_companion [] = false
is_companion (c ∷ cs) = (c == b'-' && is_suffix cs) || (is_lower_letter c && is_companion cs)

abbrev pub is_vendor : Text → Bool
is_vendor (x ∷ dash ∷ cs) = x == b'x' && dash == b'-' && is_suffix cs
is_vendor [] = false
is_vendor (x ∷ []) = false

abbrev pub is_companion_key : Text → Bool
is_companion_key [] = false
is_companion_key (c ∷ cs) = is_lower_letter c && is_companion cs

unfoldable pub is_extension_key : Text → Bool
is_extension_key name = is_vendor name || is_companion_key name

abbrev pub top_level_base_keys : List Text
top_level_base_keys =
    codes "v"
    ∷ codes "items"
    ∷ codes "merkle"
    ∷ codes "supersedes"
    ∷ codes "sigs"
    ∷ codes "crit"
    ∷ []

-- The array under a field, if one is there.
abbrev pub array_of : Entries → Text → Option (List Value)
array_of record_ field = and_then (get record_ field) as_array

abbrev pub is_empty_array : Option (List Value) → Bool
is_empty_array none = false
is_empty_array (some []) = true
is_empty_array (some (v ∷ vs)) = false

abbrev pub has_elements : Option (List Value) → Bool
has_elements none = false
has_elements (some []) = false
has_elements (some (v ∷ vs)) = true

unfoldable pub check_content_commitment_presence : Entries → Issues
check_content_commitment_presence record_ =
    let items = array_of record_ (codes "items") in
    let merkle = array_of record_ (codes "merkle") in
    if not (has_elements items) && not (has_elements merkle)
    then issue schema_empty_record []
    else issue_if (is_empty_array items) schema_type_mismatch (key (codes "items") ∷ [])
      ++ issue_if (is_empty_array merkle) schema_type_mismatch (key (codes "merkle") ∷ [])

unfoldable pub check_digest : List Segment → Text → Value → Issues
check_digest path alg digest =
    or_else (hash_alg_length alg) (issue unsupported_hash_alg (path ++ key alg ∷ [])) λ expected.
      for_some (as_bytes digest) λ b.
        issue_if (not (length b == expected)) hash_digest_length_mismatch (path ++ key alg ∷ [])

-- The entries of `hashes`; its keys are texts behind the pre-guard.
unfoldable pub check_item_hashes : List Segment → List (Text × Value) → Issues
check_item_hashes path hashes =
    if length hashes == 0
    then issue schema_type_mismatch path
    else for_entries (λ (alg, digest). check_digest path alg digest) hashes

abbrev pub put_text : Option Text → List Text → List Text
put_text none ts = ts
put_text (some t) ts = t ∷ ts

-- The texts of an array of texts.
unfoldable pub texts_of : List Value → List Text
texts_of [] = []
texts_of (v ∷ vs) = put_text (as_text v) (texts_of vs)

unfoldable pub check_uris_field : Entries → List Segment → Issues
check_uris_field entries path =
    for_some (and_then (not_none (get entries (codes "uris"))) as_array)
      λ uris. check_uris (texts_of uris) (path ++ key (codes "uris") ∷ [])

unfoldable pub check_commit_alg : Entries → List Segment → Issues
check_commit_alg commit path = for_some (and_then (get commit (codes "alg")) as_text) λ alg.
    or_else (merkle_commit_alg_length alg)
      (issue unsupported_merkle_commit_alg (path ++ key (codes "alg") ∷ []))
      λ expected. for_some (and_then (get commit (codes "root")) as_bytes) λ b.
        issue_if (not (length b == expected)) hash_digest_length_mismatch
          (path ++ key (codes "root") ∷ [])

unfoldable pub check_leaf_count : Entries → List Segment → Issues
check_leaf_count commit path =
    or_else (as_natural (and_then (get commit (codes "leaf_count")) as_integer))
      (issue schema_type_mismatch (path ++ key (codes "leaf_count") ∷ []))
      λ n.
        issue_if (not (leb 1 n && leb n uint32_max)) schema_merkle_leaf_count_invalid
          (path ++ key (codes "leaf_count") ∷ [])

unfoldable pub check_merkle_commit : ℕ → Entries → Issues
check_merkle_commit i commit =
    let path : List Segment = key (codes "merkle") ∷ index i ∷ [] in
    check_commit_alg commit path ++ (check_leaf_count commit path ++ check_uris_field commit path)

-- Whether an entry of `crit` has a reason to be refused, after the names before it.
unfoldable pub is_malformed_crit : Entries → List Text → Text → Bool
is_malformed_crit record_ seen name =
    is_member name top_level_base_keys
    || not (is_extension_key name)
    || not (is_some (get record_ name))
    || is_member name seen

unfoldable pub check_crit_names : Entries → List Text → ℕ → List Text → List Text → Issues
check_crit_names record_ supported i seen [] = []
check_crit_names record_ supported i seen (name ∷ names) =
    (if is_malformed_crit record_ seen name
      then issue crit_shape_invalid (key (codes "crit") ∷ index i ∷ [])
      else issue_if (not (is_member name supported)) extension_unsupported_critical
          (key (codes "crit") ∷ index i ∷ []))
    ++ check_crit_names record_ supported (suc i) (name ∷ seen) names

unfoldable pub check_crit : Entries → List Text → Issues
check_crit record_ supported = for_some (array_of record_ (codes "crit")) λ crit.
    if length crit == 0
    then issue schema_type_mismatch (key (codes "crit") ∷ [])
    else check_crit_names record_ supported 0 [] (texts_of crit)

unfoldable pub check_unknown_fields : Entries → Issues
check_unknown_fields record_ =
    for_entries
      (λ (name, v).
        issue_if (not (is_member name top_level_base_keys || is_extension_key name))
          schema_unknown_field (key name ∷ []))
      (text_entries record_)

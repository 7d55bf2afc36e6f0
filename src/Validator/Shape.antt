-- ===== src/Validator/Shape.antt =====
-- src/cardanowall/poe_standard/validator.py, the pre-guard and the schema parse: the types of the fields
-- of a decoded record.
use label_309_py.Prelude.{
  ℕ, Bool, false, not, Option, none, some, List, [], ◌∷◌, ◌++◌, ◌==◌, if◌then◌else◌, length, codes,
  natural, integer_eq,
}
use label_309_py.Bytes.{bytes_eq}
use label_309_py.ErrorCodes.{
  ErrorCode, schema_type_mismatch, schema_missing_required, schema_invalid_literal,
  schema_unknown_field, supersedes_tx_invalid_length, sig_entry_invalid_shape,
}
use label_309_py.Verdict.{Segment, key, index, Issues}
use label_309_py.Cbor.{
  Text, Value, null, bool, integer, text, bytes, array, dict, other, Entries, get, text_entries,
  has_other_key, is_member, not_none, as_text, as_bytes, as_array, as_dict, as_integer, and_then,
  is_some,
}
use label_309_py.Validator.Issuing.{issue, issue_if, for_each, for_entries, for_some, or_else}

abbrev pub has_non_text_key : Option Value → Bool
has_non_text_key (some (dict d)) = has_other_key d
has_non_text_key (some null) = false
has_non_text_key (some (bool b)) = false
has_non_text_key (some (integer n)) = false
has_non_text_key (some (text t)) = false
has_non_text_key (some (bytes b)) = false
has_non_text_key (some (array a)) = false
has_non_text_key (some (other n)) = false
has_non_text_key none = false

-- The maps in an item.
unfoldable pub guard_item : List Segment → Entries → Issues
guard_item path item =
    issue_if (has_non_text_key (get item (codes "hashes"))) schema_type_mismatch
      (path ++ key (codes "hashes") ∷ [])
    ++ issue_if (has_non_text_key (get item (codes "enc"))) schema_type_mismatch
        (path ++ key (codes "enc") ∷ [])

unfoldable pub guard_entry : Text → ℕ → Value → Issues
guard_entry field i entry =
    let path : List Segment = key field ∷ index i ∷ [] in
    if has_non_text_key (some entry)
    then issue schema_type_mismatch path
    else if not (bytes_eq field (codes "items"))
    then []
    else for_some (as_dict entry) (guard_item path)

unfoldable pub guard_field : Entries → Text → Issues
guard_field record_ field =
    for_some (and_then (get record_ field) as_array) (for_each (guard_entry field) 0)

unfoldable pub guard_record : Entries → Issues
guard_record record_ =
    if has_other_key record_
    then issue schema_type_mismatch []
    else guard_field record_ (codes "items")
      ++ (guard_field record_ (codes "merkle") ++ guard_field record_ (codes "sigs"))

unfoldable pub collect_non_text_key_map_issues : Value → Issues
collect_non_text_key_map_issues decoded = for_some (as_dict decoded) guard_record

-- The keys of a closed map; behind the pre-guard all keys are texts.
unfoldable pub closed_map : Entries → List Text → ErrorCode → List Segment → Issues
closed_map entries allowed code path =
    for_entries (λ (name, v). issue_if (not (is_member name allowed)) code (path ++ key name ∷ []))
      (text_entries entries)

-- A field that has to be there, with a value of one type.
abbrev pub required_field {ℓ} :
    {A : Type ℓ}
    → Entries
    → Text
    → (Value → Option A)
    → ErrorCode
    → ErrorCode
    → List Segment
    → Issues
required_field entries name read missing mismatch path =
    or_else (get entries name) (issue missing (path ++ key name ∷ []))
      λ v. issue_if (not (is_some (read v))) mismatch (path ++ key name ∷ [])

unfoldable pub schema_parse_uris : List Segment → Value → Issues
schema_parse_uris path uris = or_else (as_array uris) (issue schema_type_mismatch path) (
    for_each
      (λ i uri. issue_if (not (is_some (as_text uri))) schema_type_mismatch (path ++ index i ∷ []))
      0)

unfoldable pub parse_hashes : List Segment → Value → Issues
parse_hashes path hashes = or_else (as_dict hashes) (issue schema_type_mismatch path) λ entries.
    for_entries
      (λ (alg, digest).
        issue_if (not (is_some (as_bytes digest))) schema_type_mismatch (path ++ key alg ∷ []))
      (text_entries entries)

unfoldable pub parse_item_map : List Segment → Entries → Issues
parse_item_map path item =
    closed_map item (codes "hashes" ∷ codes "uris" ∷ codes "enc" ∷ []) schema_unknown_field path
    ++ (or_else (get item (codes "hashes"))
          (issue schema_missing_required (path ++ key (codes "hashes") ∷ []))
          (parse_hashes (path ++ key (codes "hashes") ∷ []))
        ++ for_some (not_none (get item (codes "uris")))
            (schema_parse_uris (path ++ key (codes "uris") ∷ [])))

unfoldable pub schema_parse_item : List Segment → Value → Issues
schema_parse_item path item =
    or_else (as_dict item) (issue schema_type_mismatch path) (parse_item_map path)

unfoldable pub parse_commit_map : List Segment → Entries → Issues
parse_commit_map path commit =
    closed_map commit (codes "alg" ∷ codes "root" ∷ codes "leaf_count" ∷ codes "uris" ∷ [])
      schema_unknown_field path
    ++ (required_field commit (codes "alg") as_text schema_missing_required schema_type_mismatch
          path
        ++ (required_field commit (codes "root") as_bytes schema_missing_required
              schema_type_mismatch path
            ++ (required_field commit (codes "leaf_count") as_integer schema_missing_required
                  schema_type_mismatch path
                ++ for_some (not_none (get commit (codes "uris")))
                    (schema_parse_uris (path ++ key (codes "uris") ∷ [])))))

unfoldable pub schema_parse_merkle_commit : List Segment → Value → Issues
schema_parse_merkle_commit path commit =
    or_else (as_dict commit) (issue schema_type_mismatch path) (parse_commit_map path)

unfoldable pub parse_sig_map : List Segment → Entries → Issues
parse_sig_map path sig =
    closed_map sig (codes "cose_sign1" ∷ codes "cose_key" ∷ []) sig_entry_invalid_shape path
    ++ (required_field sig (codes "cose_sign1") as_bytes sig_entry_invalid_shape
          sig_entry_invalid_shape path
        ++ for_some (not_none (get sig (codes "cose_key"))) λ v.
          issue_if (not (is_some (as_bytes v))) sig_entry_invalid_shape
            (path ++ key (codes "cose_key") ∷ []))

unfoldable pub schema_parse_sig_entry : List Segment → Value → Issues
schema_parse_sig_entry path entry =
    or_else (as_dict entry) (issue sig_entry_invalid_shape path) (parse_sig_map path)

-- An array under a field of the record, if one is there.
abbrev pub parse_array : Entries → Text → (List Segment → Value → Issues) → Issues
parse_array record_ field parse = for_some (not_none (get record_ field)) λ v.
    or_else (as_array v) (issue schema_type_mismatch (key field ∷ []))
      (for_each (λ i entry. parse (key field ∷ index i ∷ []) entry) 0)

unfoldable pub parse_version : Entries → Issues
parse_version record_ =
    or_else (get record_ (codes "v")) (issue schema_missing_required (key (codes "v") ∷ [])) λ v.
      or_else (as_integer v) (issue schema_invalid_literal (key (codes "v") ∷ []))
        λ n. issue_if (not (integer_eq n (natural 1))) schema_invalid_literal (key (codes "v") ∷ [])

unfoldable pub parse_supersedes : Entries → Issues
parse_supersedes record_ = for_some (not_none (get record_ (codes "supersedes"))) λ v.
    or_else (as_bytes v) (issue schema_type_mismatch (key (codes "supersedes") ∷ [])) λ b.
      issue_if (not (length b == 32)) supersedes_tx_invalid_length (key (codes "supersedes") ∷ [])

unfoldable pub parse_record : Entries → Issues
parse_record record_ =
    parse_version record_
    ++ (parse_array record_ (codes "items") schema_parse_item
        ++ (parse_array record_ (codes "merkle") schema_parse_merkle_commit
            ++ (parse_supersedes record_
                ++ (parse_array record_ (codes "sigs") schema_parse_sig_entry
                    ++ parse_array record_ (codes "crit") (λ path name.
                      issue_if (not (is_some (as_text name))) schema_type_mismatch path)))))

unfoldable pub schema_parse : Value → Issues
schema_parse decoded = or_else (as_dict decoded) (issue schema_type_mismatch []) parse_record

-- ===== src/Validator/Listed.antt =====
-- The entries of the arrays of a record that the validator accepts.
use label_309_py.Prelude.{
  ℕ, suc, ◌≡◌, refl, ap, ◌∙◌, Option, some, List, [], ◌∷◌, ◌++◌, ◌==◌, if◌then◌else◌, All, length,
  ok, ok-injective, codes,
}
use label_309_py.Bytes.{Bytes}
use label_309_py.ErrorCodes.{
  sig_entry_invalid_shape, severity_of, schema_type_mismatch, schema_missing_required,
}
use label_309_py.Verdict.{Segment, key, index, Issues}
use label_309_py.Verdict.Meaning.{has_error}
use label_309_py.Cbor.{Text, Value, dict, Entries, get, not_none, as_array, as_dict, and_then}
use label_309_py.Validator.Issuing.{issue, for_each, for_some, or_else}
use label_309_py.Validator.Registries.{Options}
use label_309_py.Validator.Shape.{
  parse_hashes, parse_array, schema_parse_item, schema_parse_merkle_commit, schema_parse_sig_entry,
  parse_item_map, closed_map,
}
use label_309_py.Validator.Signatures.{check_sig_entry}
use label_309_py.Validator.Fields.{
  array_of, check_item_hashes, check_uris_field, check_merkle_commit,
}
use label_309_py.Validator.Silence.{
  IsSilent, IsSilent-append, IsSilent-for_each, IsSilent-or_else, then_check-eq-ok,
}
use label_309_py.Validator.Signed.{IsSig, check_sig_entry-IsSig}
use label_309_py.Validator.Inversion.{as_array-eq, as_dict-eq, and_then-eq-some, All-both}
use label_309_py.Validator.Accepted.{check_item_hashes-IsHashes, check_uris_field-HasUris}
use label_309_py.Validator.Sound.{IsItem, IsCommit, check_merkle_commit-IsCommit}
use label_309_py.Validator.{for_hashes, if_array, check_item, check_items, check_sigs}

-- A dict with a property.
abbrev pub AsDict : (Entries → Type 0) → Value → Type 0
AsDict P v = (d : Entries) × (v ≡ dict d) × P d

-- Everything that stands under a field, where an array does.
abbrev pub AllUnder : Entries → Text → (Entries → Type 0) → Type 0
AllUnder record_ field P =
    (values : List Value) → array_of record_ field ≡ some values → All (AsDict P) values

-- The hashes of an item that has the shape.
parse_hashes-dict :
    (item : Entries) (path : List Segment)
    → IsSilent (
        or_else
          (get item (codes "hashes"))
          (issue schema_missing_required (path ++ key (codes "hashes") ∷ []))
          (parse_hashes (path ++ key (codes "hashes") ∷ [])))
    → (h : Entries) × (get item (codes "hashes") ≡ some (dict h))
      × IsSilent (parse_hashes (path ++ key (codes "hashes") ∷ []) (dict h))
unfolding parse_hashes severity_of
parse_hashes-dict item path shaped =
    let (v, there, typed) =
      IsSilent-or_else (get item (codes "hashes")) schema_missing_required _ _ refl shaped in
    let (h, is_dict, entries_) = IsSilent-or_else (as_dict v) schema_type_mismatch _ _ refl typed in
    (h, there ∙ ap some (as_dict-eq v h is_dict), entries_)

module _ (decode_canonical_cbor : Bytes → Option Value)
    (encode_canonical_cbor : Value → Option Bytes) (opts : Options) where
  check_item-IsItem :
      (i : ℕ) (item : Entries) (path : List Segment) (issues : Issues)
      → IsSilent (parse_item_map path item)
      → check_item decode_canonical_cbor encode_canonical_cbor opts i item ≡ ok issues
      → IsSilent issues
      → IsItem item
  unfolding parse_item_map check_item
  check_item-IsItem i item path issues shaped e silent =
      let (_, shaped') = IsSilent-append (closed_map item _ _ path) _ shaped in
      let (hashes_shape, uris_shape) =
        IsSilent-append (or_else (get item (codes "hashes")) _ _) _ shaped' in
      let (h, there, digests) = parse_hashes-dict item path hashes_shape in
      let (a, b, first, second, joined) = then_check-eq-ok _ _ issues e in
      let (silent_a, _) = IsSilent-append a b (rw joined at silent) in
      let path' : List Segment = key (codes "items") ∷ index i ∷ [] in
      let hashes = for_hashes (and_then (get item (codes "hashes")) as_dict) in
      let (hashes_check, uris_check) =
        IsSilent-append (check_item_hashes (path' ++ key (codes "hashes") ∷ []) hashes)
          (check_uris_field item path') (ap has_error (ok-injective _ first) ∙ silent_a) in
      record {
        hashes = (
          h,
          there,
          check_item_hashes-IsHashes (path' ++ key (codes "hashes") ∷ [])
              (path ++ key (codes "hashes") ∷ []) h digests (rw there at hashes_check),
        );
        uris =
            check_uris_field-HasUris item path' (path ++ key (codes "uris") ∷ []) uris_shape
              uris_check;
      }

  check_items-IsItem :
      (i : ℕ) (items : List Value) (issues : Issues)
      → All (λ v. (path : List Segment) × IsSilent (schema_parse_item path v)) items
      → check_items decode_canonical_cbor encode_canonical_cbor opts i items ≡ ok issues
      → IsSilent issues
      → All (AsDict IsItem) items
  unfolding check_items schema_parse_item severity_of
  check_items-IsItem i [] issues shaped e silent = tt
  check_items-IsItem i (v ∷ items) issues ((path, shape), shaped) e silent =
      let (d, is_dict, entries_) =
        IsSilent-or_else (as_dict v) schema_type_mismatch path _ refl shape in
      let (a, b, first, second, joined) = then_check-eq-ok _ _ issues e in
      let (silent_a, silent_b) = IsSilent-append a b (rw joined at silent) in
      (
        (
          d,
          as_dict-eq v d is_dict,
          check_item-IsItem i d path a entries_ (rw is_dict at first) silent_a,
        ),
        check_items-IsItem (suc i) items b shaped second silent_b,
      )

array_of-not_none :
    (record_ : Entries) (field : Text) (values : List Value)
    → array_of record_ field ≡ some values
    → (v : Value) × (not_none (get record_ field) ≡ some v) × (as_array v ≡ some values)
array_of-not_none record_ field values h =
    let (v, there, is_array) = and_then-eq-some (get record_ field) as_array values h in
    let (a, same, _) = as_array-eq v values is_array in (v, rw (there, same) refl, is_array)

-- The entries of an array have the shape that its parser asks for.
pub parse_array-shape :
    (record_ : Entries) (field : Text) (parse : List Segment → Value → Issues) (values : List Value)
    → array_of record_ field ≡ some values
    → IsSilent (parse_array record_ field parse)
    → All (λ v. (path : List Segment) × IsSilent (parse path v)) values
parse_array-shape record_ field parse values h shaped =
    let (v, there, is_array) = array_of-not_none record_ field values h in
    IsSilent-for_each _ _ 0 values (λ j u k. (key field ∷ index j ∷ [], k))
      (rw (there, is_array) at shaped)

pub check_merkle-IsCommit :
    (i : ℕ) (values : List Value)
    → All (λ v. (path : List Segment) × IsSilent (schema_parse_merkle_commit path v)) values
    → IsSilent (for_each (λ j v. for_some (as_dict v) (check_merkle_commit j)) i values)
    → All (AsDict IsCommit) values
unfolding schema_parse_merkle_commit severity_of
check_merkle-IsCommit i values shaped h =
    All-both _ (λ v. (j : ℕ) × IsSilent (for_some (as_dict v) (check_merkle_commit j))) _ values
      (λ v (path, shape) (j, silent).
        let (d, is_dict, fields) =
          IsSilent-or_else (as_dict v) schema_type_mismatch path _ refl shape in
        (
          d,
          as_dict-eq v d is_dict,
          check_merkle_commit-IsCommit d j path fields (rw is_dict at silent),
        ))
      shaped (IsSilent-for_each _ _ i values (λ j v k. (j, k)) h)

module _ (decode_canonical_cbor : Bytes → Option Value)
    (encode_canonical_cbor : Value → Option Bytes) (opts : Options) where
  pub check_sigs-IsSig :
      (values : List Value)
      → All (λ v. (path : List Segment) × IsSilent (schema_parse_sig_entry path v)) values
      → IsSilent (check_sigs decode_canonical_cbor encode_canonical_cbor values)
      → All (AsDict (IsSig decode_canonical_cbor encode_canonical_cbor)) values
  unfolding check_sigs schema_parse_sig_entry severity_of
  check_sigs-IsSig values shaped h =
      let (_, each) = IsSilent-append (if length values == 0 then _ else []) _ h in
      All-both _
        (λ v.
          (j : ℕ) × IsSilent (
            for_some (as_dict v)
              (λ d. check_sig_entry decode_canonical_cbor encode_canonical_cbor d j)))
        _ values
        (λ v (path, shape) (j, silent).
          let (d, is_dict, fields) =
            IsSilent-or_else (as_dict v) sig_entry_invalid_shape path _ refl shape in
          (
            d,
            as_dict-eq v d is_dict,
            check_sig_entry-IsSig decode_canonical_cbor encode_canonical_cbor d j
                (rw is_dict at silent),
          ))
        shaped (IsSilent-for_each _ _ 0 values (λ j v k. (j, k)) each)

  -- The issues of the items, for any record.
  pub check_items_under :
      (record_ : Entries) (issues : Issues)
      → IsSilent (parse_array record_ (codes "items") schema_parse_item)
      → if_array
          (array_of record_ (codes "items"))
          (check_items decode_canonical_cbor encode_canonical_cbor opts 0)
        ≡ ok issues
      → IsSilent issues
      → AllUnder record_ (codes "items") IsItem
  check_items_under record_ issues shaped e silent values there =
      check_items-IsItem decode_canonical_cbor encode_canonical_cbor opts 0 values issues
        (parse_array-shape record_ (codes "items") schema_parse_item values there shaped)
        (rw there at e) silent

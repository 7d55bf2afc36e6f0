-- ===== src/Validator.antt =====
-- src/cardanowall/poe_standard/validator.py, `validate`: the structural validator of a record body. The
-- canonical decoder and encoder and UTF-8 are parameters. What its steps raise is the `err` of the
-- result: the program means to raise nothing.
pub mod Issuing
pub mod Uris
pub mod Shape
pub mod Registries
pub mod Ciphers
pub mod Slots
pub mod Envelope
pub mod Signatures
pub mod Fields
pub mod Silence
pub mod Inversion
pub mod Accepted
pub mod Sound
pub mod Shaped
pub mod Raising
pub mod Signed
pub mod Listed
pub mod Enveloped
pub mod Conformant
pub mod Roles
mod Runs
use label_309_py.Prelude.{
  ℕ, zero, suc, Bool, true, false, not, ◌&&◌, ◌||◌, Option, none, some, List, [], ◌∷◌, ◌++◌, ◌==◌,
  if◌then◌else◌, length, codes, Result, ok, err,
}
use label_309_py.Bytes.{Bytes}
use label_309_py.ErrorCodes.{
  ErrorCode, error, warning, info, schema_type_mismatch, malformed_cbor, Severity,
}
use label_309_py.Verdict.{VerifierIssue, Segment, key, index, Issues, same_severity}
use label_309_py.Verdict.Meaning.{has_error}
use label_309_py.Verdict.Order.{sort_issues}
use label_309_py.Cbor.{Value, Entries, get, text_entries, not_none, as_array, as_dict, and_then}
use label_309_py.Validator.Issuing.{issue, for_each, for_some}
use label_309_py.Validator.Shape.{collect_non_text_key_map_issues, schema_parse}
use label_309_py.Validator.Registries.{Options, Raised}
use label_309_py.Validator.Slots.{◌then_check◌, if_there}
use label_309_py.Validator.Envelope.{check_item_enc}
use label_309_py.Validator.Signatures.{check_sig_entry}
use label_309_py.Validator.Fields.{
  array_of, check_content_commitment_presence, check_item_hashes, check_uris_field,
  check_merkle_commit, check_crit, check_unknown_fields, is_empty_array,
}

-- `ValidateOk`, with its informational issues and its warnings, and `ValidateFail`.
pub data ValidateResult : Type 0 where
  valid : Entries → Issues → Issues → ValidateResult
  invalid : Issues → ValidateResult

unfoldable pub with_severity : Severity → Issues → Issues
with_severity severity [] = []
with_severity severity (i ∷ issues) =
    let rest = with_severity severity issues in
    if same_severity i.severity severity then i ∷ rest else rest

abbrev pub for_hashes : Option Entries → List (List ℕ × Value)
for_hashes none = []
for_hashes (some hashes) = text_entries hashes

abbrev pub if_dict : Option Entries → (Entries → Result Raised Issues) → Result Raised Issues
if_dict none check = ok []
if_dict (some d) check = check d

abbrev pub if_array :
    Option (List Value) → (List Value → Result Raised Issues) → Result Raised Issues
if_array none check = ok []
if_array (some values) check = check values

module _ (decode_canonical_cbor : Bytes → Option Value)
    (encode_canonical_cbor : Value → Option Bytes) where
  unfoldable pub check_item : Options → ℕ → Entries → Result Raised Issues
  check_item opts i item =
      let path : List Segment = key (codes "items") ∷ index i ∷ [] in
      let hashes = for_hashes (and_then (get item (codes "hashes")) as_dict) in
      ok
        (check_item_hashes (path ++ key (codes "hashes") ∷ []) hashes ++ check_uris_field item path)
      then_check if_there (get item (codes "enc"))
          (check_item_enc encode_canonical_cbor opts (path ++ key (codes "enc") ∷ []) hashes)

  -- The items, each a dict behind the shape.
  unfoldable pub check_items : Options → ℕ → List Value → Result Raised Issues
  check_items opts i [] = ok []
  check_items opts i (item ∷ items) =
      if_dict (as_dict item) (check_item opts i) then_check check_items opts (suc i) items

  unfoldable pub check_sigs : List Value → Issues
  check_sigs sigs =
      (if length sigs == 0 then issue schema_type_mismatch (key (codes "sigs") ∷ []) else [])
      ++ for_each
          (λ i sig.
            for_some (as_dict sig)
              (λ d. check_sig_entry decode_canonical_cbor encode_canonical_cbor d i))
          0 sigs

  -- The checks of step 3.
  unfoldable pub check_record : Options → Entries → Result Raised Issues
  check_record opts record_ =
      ok (
        check_content_commitment_presence record_
        ++ (check_crit record_ opts.supported_critical_extensions ++ check_unknown_fields record_))
      then_check (if_array (array_of record_ (codes "items")) (check_items opts 0)
          then_check ok (
              for_some (array_of record_ (codes "merkle"))
                (for_each (λ i commit. for_some (as_dict commit) (check_merkle_commit i)) 0)
              ++ for_some (array_of record_ (codes "sigs")) check_sigs))

  module _ (utf8 : List ℕ → Bytes) where
    -- Step 4.
    unfoldable pub emit : Entries → Issues → ValidateResult
    emit record_ issues =
        let sorted = sort_issues utf8 issues in
        if has_error sorted
        then invalid sorted
        else valid record_ (with_severity info sorted) (with_severity warning sorted)

    abbrev pub emit_result : Entries → Result Raised Issues → Result Raised ValidateResult
    emit_result record_ (err e) = err e
    emit_result record_ (ok issues) = ok (emit record_ issues)

    unfoldable pub validate_shaped : Options → Option Entries → Result Raised ValidateResult
    validate_shaped opts none = ok (invalid [])
    validate_shaped opts (some record_) = emit_result record_ (check_record opts record_)

    unfoldable pub validate_decoded : Options → Option Value → Result Raised ValidateResult
    validate_decoded opts none = ok (invalid (issue malformed_cbor []))
    validate_decoded opts (some decoded) =
        let keys = collect_non_text_key_map_issues decoded in
        let shape = schema_parse decoded in
        if not (length keys == 0)
        then ok (invalid (sort_issues utf8 keys))
        else if not (length shape == 0)
        then ok (invalid (sort_issues utf8 shape))
        else validate_shaped opts (as_dict decoded)

    unfoldable pub validate : Options → Bytes → Result Raised ValidateResult
    validate opts cbor_bytes = validate_decoded opts (decode_canonical_cbor cbor_bytes)

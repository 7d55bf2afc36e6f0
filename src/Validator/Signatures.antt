-- ===== src/Validator/Signatures.antt =====
-- src/cardanowall/poe_standard/validator.py, _check_sig_entry and _inspect_cose_key, with decode_cose_sign1
-- of src/cardanowall/_crypto/cose_sign1.py: the signature entries of a record. The canonical decoder and
-- encoder are parameters.
use label_309_py.Prelude.{
  ℕ, Bool, true, false, not, ◌&&◌, ◌||◌, Option, none, some, List, [], ◌∷◌, ◌++◌, ◌==◌,
  if◌then◌else◌, length, Integer, natural, negative, integer_eq, codes,
}
use label_309_py.Bytes.{Bytes, bytes_eq}
use label_309_py.ErrorCodes.{
  info, malformed_sig_cose_sign1, signature_unsupported, sig_private_key_leaked,
  sig_entry_kid_cose_key_conflict,
}
use label_309_py.Verdict.{VerifierIssue, Segment, key, index, Issues}
use label_309_py.Cbor.{
  text_key, number_key, other_key, Value, null, bool, integer, text, bytes, array, dict, other,
  Entries, no_entries, entry, elements, get, get_number, not_none, as_bytes, as_dict, and_then,
  is_some,
}
use label_309_py.Validator.Issuing.{issue, issue_if}

-- What the validator reads of a CoseSign1Decoded: the protected header, and whether the payload is null.
pub record CoseSign1 : Type 0 where
  pub protected_header : Entries
  pub payload : Option Bytes

abbrev pub is_empty_dict : Entries → Bool
is_empty_dict no_entries = true
is_empty_dict (entry k v _) = false

-- `payload_raw`, null or bytes.
abbrev pub read_payload : Value → Option (Option Bytes)
read_payload null = some none
read_payload (bytes b) = some (some b)
read_payload (bool b) = none
read_payload (integer n) = none
read_payload (text t) = none
read_payload (array a) = none
read_payload (dict d) = none
read_payload (other n) = none

-- The label -4, an `int` and no `bool`.
unfoldable pub has_private_label : Entries → Bool
has_private_label no_entries = false
has_private_label (entry (number_key n) v rest) =
    integer_eq n (negative 3) || has_private_label rest
has_private_label (entry (text_key name) v rest) = has_private_label rest
has_private_label (entry (other_key n) v rest) = has_private_label rest

-- `v == n` for an integer, where v is no bool.
abbrev pub equals_integer : Option Value → Integer → Bool
equals_integer (some (integer m)) n = integer_eq m n
equals_integer (some (other (some m))) n = integer_eq m n
equals_integer (some (other none)) n = false
equals_integer (some null) n = false
equals_integer (some (bool b)) n = false
equals_integer (some (text t)) n = false
equals_integer (some (bytes b)) n = false
equals_integer (some (array a)) n = false
equals_integer (some (dict d)) n = false
equals_integer none n = false

abbrev pub has_length : Option Bytes → ℕ → Bool
has_length none n = false
has_length (some b) n = length b == n

abbrev pub cose_key_map : Value → Entries
cose_key_map (dict d) = d
cose_key_map null = no_entries
cose_key_map (bool b) = no_entries
cose_key_map (integer n) = no_entries
cose_key_map (text t) = no_entries
cose_key_map (bytes b) = no_entries
cose_key_map (array a) = no_entries
cose_key_map (other n) = no_entries

-- A decoded COSE_Key.
unfoldable pub inspect_key_map : Entries → List Segment → Issues
inspect_key_map key_map path =
    if has_private_label key_map
    then issue sig_private_key_leaked path
    else issue_if
        (not (
          equals_integer (get_number key_map (natural 1)) (natural 1)
          && equals_integer (get_number key_map (negative 0)) (natural 6)
          && has_length (and_then (get_number key_map (negative 1)) as_bytes) 32))
        malformed_sig_cose_sign1 path

-- `alg`, an `int` among -8 and -19.
abbrev pub is_known_sig_alg : Option Value → Bool
is_known_sig_alg (some (integer n)) = integer_eq n (negative 7) || integer_eq n (negative 18)
is_known_sig_alg (some null) = false
is_known_sig_alg (some (bool b)) = false
is_known_sig_alg (some (text t)) = false
is_known_sig_alg (some (bytes b)) = false
is_known_sig_alg (some (array a)) = false
is_known_sig_alg (some (dict d)) = false
is_known_sig_alg (some (other n)) = false
is_known_sig_alg none = false

abbrev pub matches_encoding : Option Bytes → Bytes → Bool
matches_encoding none b = false
matches_encoding (some canonical) b = bytes_eq canonical b

module _ (decode_canonical_cbor : Bytes → Option Value)
    (encode_canonical_cbor : Value → Option Bytes) where
  abbrev pub inspect_decoded : Option Value → List Segment → Issues
  inspect_decoded none path = issue malformed_sig_cose_sign1 path
  inspect_decoded (some v) path = inspect_key_map (cose_key_map v) path

  unfoldable pub inspect_cose_key : Bytes → List Segment → Issues
  inspect_cose_key key_bytes path = inspect_decoded (decode_canonical_cbor key_bytes) path

  -- A protected header that is not empty: a canonical map with an entry.
  unfoldable pub decode_protected : Bytes → Option Entries
  decode_protected protected_bytes =
      and_then (and_then (decode_canonical_cbor protected_bytes) as_dict) λ d.
        if is_empty_dict d
        then none
        else if matches_encoding (encode_canonical_cbor (dict d)) protected_bytes
        then some d
        else none

  abbrev pub decode_header : Bytes → Option Entries
  decode_header protected_bytes =
      if length protected_bytes == 0 then some no_entries else decode_protected protected_bytes

  -- The four parts. Every exception is a malformed signature to the validator.
  unfoldable pub decode_parts : List Value → Option CoseSign1
  decode_parts (protected ∷ unprotected ∷ payload ∷ signature ∷ []) =
      and_then (as_bytes protected) λ protected_bytes. and_then (as_dict unprotected) λ _.
        and_then (read_payload payload) λ read.
          if has_length (as_bytes signature) 64
          then and_then (decode_header protected_bytes)
              (λ header. some (record { protected_header = header; payload = read }))
          else none
  decode_parts [] = none
  decode_parts (a ∷ []) = none
  decode_parts (a ∷ b ∷ []) = none
  decode_parts (a ∷ b ∷ c ∷ []) = none
  decode_parts (a ∷ b ∷ c ∷ d ∷ e ∷ vs) = none

  abbrev pub array_elements : Value → Option (List Value)
  array_elements (array a) = some (elements a)
  array_elements null = none
  array_elements (bool b) = none
  array_elements (integer n) = none
  array_elements (text t) = none
  array_elements (bytes b) = none
  array_elements (dict d) = none
  array_elements (other n) = none

  unfoldable pub decode_cose_sign1 : Bytes → Option CoseSign1
  decode_cose_sign1 data_ =
      and_then (and_then (decode_canonical_cbor data_) array_elements) decode_parts

  -- The checks of a decoded signature, with whether the entry has a cose_key.
  unfoldable pub check_cose : List Segment → Bool → Option CoseSign1 → Issues
  check_cose path has_cose_key none = issue malformed_sig_cose_sign1 path
  check_cose path has_cose_key (some cose) =
      let unsupported : VerifierIssue = record {
        code = signature_unsupported;
        path = path;
        severity = info;
      } in
      let algorithm =
        if is_known_sig_alg (get_number cose.protected_header (natural 1))
        then []
        else unsupported ∷ [] in
      let conflict =
        issue_if
          (has_length (and_then (get_number cose.protected_header (natural 4)) as_bytes) 32
            && has_cose_key)
          sig_entry_kid_cose_key_conflict path in
      if is_some cose.payload then issue malformed_sig_cose_sign1 path else algorithm ++ conflict

  abbrev pub inspect_entry_key : Option Bytes → List Segment → Issues
  inspect_entry_key none path = []
  inspect_entry_key (some b) path = inspect_cose_key b path

  -- `entry["cose_sign1"]` is a byte string behind the shape.
  unfoldable pub check_sig_entry : Entries → ℕ → Issues
  check_sig_entry sig i =
      let path : List Segment = key (codes "sigs") ∷ index i ∷ [] in
      let cose_key = and_then (not_none (get sig (codes "cose_key"))) as_bytes in
      let key_issues = inspect_entry_key cose_key (path ++ key (codes "cose_key") ∷ []) in
      let cose = and_then (and_then (get sig (codes "cose_sign1")) as_bytes) decode_cose_sign1 in
      if not (length key_issues == 0) then key_issues else check_cose path (is_some cose_key) cose

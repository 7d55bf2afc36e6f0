-- ===== src/Validator/Slots.antt =====
-- src/cardanowall/poe_standard/validator.py: the typed envelope of scheme 1, its shape and the rules on
-- its slots and its passphrase.
use label_309_py.Prelude.{
  ℕ, suc, Bool, false, not, ◌&&◌, ◌||◌, Option, none, some, List, [], ◌∷◌, ◌++◌, ltb, ◌==◌,
  if◌then◌else◌, length, codes, Result, ok, err,
}
use label_309_py.Bytes.{Bytes}
use label_309_py.ErrorCodes.{
  ErrorCode, schema_type_mismatch, schema_missing_required, schema_unknown_field,
  enc_slot_invalid_shape, enc_slots_mac_invalid_length, enc_passphrase_salt_too_short,
  enc_passphrase_salt_too_long, nonce_length_mismatch, enc_exclusivity_violation,
  enc_slots_mac_required, enc_slots_required, enc_kem_required, enc_no_key_path, enc_slots_empty,
  enc_slots_too_many, enc_slots_duplicate_kem_material, wrap_length_mismatch,
  enc_passphrase_alg_unsupported, enc_passphrase_argon2_params_too_low,
  enc_passphrase_params_exceed_policy,
}
use label_309_py.Verdict.{Segment, key, index, Issues}
use label_309_py.Cbor.{
  Text, Value, Entries, get, is_member, not_none, as_text, as_bytes, as_array, as_dict, as_integer,
  as_natural, and_then, is_some,
}
use label_309_py.Validator.Issuing.{issue, issue_if, for_each, for_some, or_else}
use label_309_py.Validator.Registries.{
  Options, Raised, key_error, type_error, Argon2Params, KemSlotDescriptor, aead_nonce_length,
  kem_slot_descriptor, field_name, foreign_field, field_length_code, is_passphrase_kdf_alg,
  uint32_max,
}
use label_309_py.Validator.Shape.{has_non_text_key, closed_map, required_field}

-- `path` with a field behind it.
abbrev pub at : List Segment → Text → List Segment
at path name = path ++ key name ∷ []

abbrev pub has : Entries → Text → Bool
has enc name = is_some (get enc name)

unfoldable pub guard_passphrase : List Segment → Option Value → Issues
guard_passphrase path passphrase =
    if has_non_text_key passphrase
    then issue schema_type_mismatch path
    else for_some (and_then passphrase as_dict) λ pp.
      issue_if (has_non_text_key (get pp (codes "params"))) schema_type_mismatch
        (at path (codes "params"))

unfoldable pub enc_internal_non_text_key_issues : Entries → List Segment → Issues
enc_internal_non_text_key_issues enc path =
    for_some (and_then (get enc (codes "slots")) as_array) (
      for_each
        (λ i slot.
          issue_if (has_non_text_key (some slot)) schema_type_mismatch
            (at path (codes "slots") ++ index i ∷ []))
        0)
    ++ guard_passphrase (at path (codes "passphrase")) (get enc (codes "passphrase"))

-- A field of a slot that is there is a byte string.
abbrev pub slot_bytes_field : Entries → List Segment → Text → Issues
slot_bytes_field slot path name =
    for_some (not_none (get slot name))
      λ v. issue_if (not (is_some (as_bytes v))) enc_slot_invalid_shape (at path name)

unfoldable pub parse_slot : List Segment → Value → Issues
parse_slot path slot = or_else (as_dict slot) (issue enc_slot_invalid_shape path) λ d.
    slot_bytes_field d path (codes "epk")
    ++ (slot_bytes_field d path (codes "kem_ct") ++ slot_bytes_field d path (codes "wrap"))

unfoldable pub parse_salt : List Segment → Option Value → Issues
parse_salt path salt = or_else (and_then salt as_bytes) (issue schema_type_mismatch path) λ b.
    if ltb (length b) 16
    then issue enc_passphrase_salt_too_short path
    else if ltb 64 (length b)
    then issue enc_passphrase_salt_too_long path
    else []

unfoldable pub parse_passphrase : List Segment → Value → Issues
parse_passphrase path passphrase =
    or_else (as_dict passphrase) (issue schema_type_mismatch path) λ pp.
      closed_map pp (codes "alg" ∷ codes "salt" ∷ codes "params" ∷ []) schema_unknown_field path
      ++ (required_field pp (codes "alg") as_text schema_missing_required schema_type_mismatch path
          ++ (parse_salt (at path (codes "salt")) (get pp (codes "salt"))
              ++ required_field pp (codes "params") as_dict schema_missing_required
                  schema_type_mismatch path))

abbrev pub enc_scheme1_keys : List Text
enc_scheme1_keys =
    codes "scheme"
    ∷ codes "aead"
    ∷ codes "kem"
    ∷ codes "nonce"
    ∷ codes "slots"
    ∷ codes "slots_mac"
    ∷ codes "passphrase"
    ∷ []

unfoldable pub parse_slots_mac : List Segment → Value → Issues
parse_slots_mac path slots_mac =
    or_else (as_bytes slots_mac) (issue schema_type_mismatch path)
      λ b. issue_if (not (length b == 32)) enc_slots_mac_invalid_length path

unfoldable pub enc_scheme1_schema_issues : Entries → List Segment → Issues
enc_scheme1_schema_issues enc path =
    closed_map enc enc_scheme1_keys schema_unknown_field path
    ++ (required_field enc (codes "aead") as_text schema_missing_required schema_type_mismatch path
        ++ (required_field enc (codes "nonce") as_bytes schema_missing_required schema_type_mismatch
              path
            ++ (for_some (not_none (get enc (codes "kem"))) (λ v.
                  issue_if (not (is_some (as_text v))) schema_type_mismatch (at path (codes "kem")))
                ++ (for_some (not_none (get enc (codes "slots"))) (λ v.
                      or_else (as_array v) (issue schema_type_mismatch (at path (codes "slots"))) (
                        for_each
                          (λ i slot. parse_slot (at path (codes "slots") ++ index i ∷ []) slot) 0))
                    ++ (for_some (not_none (get enc (codes "slots_mac")))
                          (parse_slots_mac (at path (codes "slots_mac")))
                        ++ for_some (not_none (get enc (codes "passphrase")))
                            (parse_passphrase (at path (codes "passphrase"))))))))

-- The required field of a slot, at its length.
unfoldable pub check_slot_field : Entries → Text → ℕ → ErrorCode → List Segment → Issues
check_slot_field slot name size code path =
    or_else (and_then (not_none (get slot name)) as_bytes)
      (issue enc_slot_invalid_shape (at path name))
      λ b. issue_if (not (length b == size)) code (at path name)

unfoldable pub check_slot_shape : Entries → KemSlotDescriptor → List Segment → Issues
check_slot_shape slot d path =
    issue_if (has slot (field_name (foreign_field d.field))) enc_slot_invalid_shape
      (at path (field_name (foreign_field d.field)))
    ++ (closed_map slot (codes "epk" ∷ codes "kem_ct" ∷ codes "wrap" ∷ []) enc_slot_invalid_shape
          path
        ++ (check_slot_field slot (field_name d.field) d.field_length (field_length_code d.field)
              path
            ++ check_slot_field slot (codes "wrap") d.wrap_length wrap_length_mismatch path))

-- The encapsulation material of a slot, and the material of the slots before it.
unfoldable pub material : Value → KemSlotDescriptor → Option Bytes
material slot d = and_then (and_then (as_dict slot) λ s. get s (field_name d.field)) as_bytes

abbrev pub add_material : Option Bytes → List Bytes → List Bytes
add_material none seen = seen
add_material (some b) seen = b ∷ seen

unfoldable pub check_slot_list :
    KemSlotDescriptor → List Segment → ℕ → List Bytes → List Value → Issues
check_slot_list d path i seen [] = []
check_slot_list d path i seen (slot ∷ slots) =
    for_some (as_dict slot) (λ s. check_slot_shape s d (path ++ index i ∷ []))
    ++ (for_some (material slot d) (λ b.
          issue_if (is_member b seen) enc_slots_duplicate_kem_material
            (at (path ++ index i ∷ []) (field_name d.field)))
        ++ check_slot_list d path (suc i) (add_material (material slot d) seen) slots)

-- `KEM_SLOT_DESCRIPTORS[enc["kem"]]`
abbrev pub lookup_descriptor : Option Text → Option KemSlotDescriptor
lookup_descriptor kem = and_then kem kem_slot_descriptor

abbrev pub with_descriptor :
    Option KemSlotDescriptor → (KemSlotDescriptor → Issues) → Result Raised Issues
with_descriptor none walk = err key_error
with_descriptor (some d) walk = ok (walk d)

-- `len` raises on a null. No other type than an array comes behind the shape.
abbrev pub with_slots :
    Option (List Value) → (List Value → Result Raised Issues) → Result Raised Issues
with_slots none check = err type_error
with_slots (some slots) check = check slots

unfoldable pub check_slots : Options → Entries → List Segment → Value → Result Raised Issues
check_slots opts enc path v = with_slots (as_array v) λ slots.
    if length slots == 0
    then ok (issue enc_slots_empty path)
    else if ltb opts.max_slots (length slots)
    then ok (issue enc_slots_too_many path)
    else if has enc (codes "kem")
    then with_descriptor (lookup_descriptor (and_then (get enc (codes "kem")) as_text))
        (λ d. check_slot_list d path 0 [] slots)
    else ok []

abbrev pub ceiling_of : Option Argon2Params → (Argon2Params → ℕ) → ℕ → Bool
ceiling_of none of n = false
ceiling_of (some params) of n = ltb (of params) n

unfoldable pub check_param_value : ℕ → (ℕ → Bool) → List Segment → ℕ → Issues
check_param_value floor exceeds path n =
    if ltb uint32_max n
    then issue schema_type_mismatch path
    else if ltb n floor
    then issue enc_passphrase_argon2_params_too_low path
    else issue_if (exceeds n) enc_passphrase_params_exceed_policy path

unfoldable pub check_param : Entries → Text → ℕ → (ℕ → Bool) → List Segment → Issues
check_param params name floor exceeds path =
    or_else (get params name) (issue schema_missing_required (at path name)) λ v.
      or_else (as_natural (as_integer v)) (issue schema_type_mismatch (at path name))
        (check_param_value floor exceeds (at path name))

unfoldable pub check_params : Options → List Segment → Entries → Issues
check_params opts path params =
    closed_map params (codes "m" ∷ codes "t" ∷ codes "p" ∷ []) schema_unknown_field path
    ++ (check_param params (codes "m") 65536 (ceiling_of opts.passphrase_params_ceiling (λ c. c.m))
          path
        ++ (check_param params (codes "t") 3 (ceiling_of opts.passphrase_params_ceiling (λ c. c.t))
              path
            ++ check_param params (codes "p") 1
                (ceiling_of opts.passphrase_params_ceiling (λ c. c.p)) path))

unfoldable pub check_passphrase_block : Options → List Segment → Entries → Issues
check_passphrase_block opts path pp = for_some (and_then (get pp (codes "alg")) as_text) λ alg.
    if not (is_passphrase_kdf_alg alg)
    then issue enc_passphrase_alg_unsupported (at path (codes "alg"))
    else for_some (and_then (get pp (codes "params")) as_dict)
        (check_params opts (at path (codes "params")))

-- A subscript of a null raises.
abbrev pub check_passphrase : Options → List Segment → Option Entries → Result Raised Issues
check_passphrase opts path none = err type_error
check_passphrase opts path (some pp) = ok (check_passphrase_block opts path pp)

abbrev pub if_there : Option Value → (Value → Result Raised Issues) → Result Raised Issues
if_there none check = ok []
if_there (some v) check = check v

-- The issues of two checks, one after the other.
infixr 60 ◌then_check◌
abbrev pub ◌then_check◌ : Result Raised Issues → Result Raised Issues → Result Raised Issues
(err e) then_check second = err e
(ok issues) then_check (err e) = err e
(ok issues) then_check (ok more) = ok (issues ++ more)

unfoldable pub check_key_path : Entries → List Segment → Issues
check_key_path enc path =
    let has_slots = has enc (codes "slots") in
    let has_slots_mac = has enc (codes "slots_mac") in
    let has_passphrase = has enc (codes "passphrase") in
    let has_kem = has enc (codes "kem") in
    issue_if (has_passphrase && (has_slots || has_slots_mac || has_kem)) enc_exclusivity_violation
      path
    ++ (issue_if (has_slots && not has_slots_mac) enc_slots_mac_required path
        ++ (issue_if (has_slots_mac && not has_slots) enc_slots_required path
            ++ (issue_if (has_slots && not has_kem) enc_kem_required path
                ++ issue_if (not has_slots && not has_passphrase) enc_no_key_path path)))

-- The length that the registry has for `aead`.
unfoldable pub check_nonce : Entries → List Segment → Issues
check_nonce enc path =
    for_some (and_then (and_then (get enc (codes "aead")) as_text) aead_nonce_length) λ expected.
      for_some (and_then (get enc (codes "nonce")) as_bytes)
        λ b. issue_if (not (length b == expected)) nonce_length_mismatch (at path (codes "nonce"))

unfoldable pub check_scheme1_envelope : Options → Entries → List Segment → Result Raised Issues
check_scheme1_envelope opts enc path =
    ok (check_nonce enc path ++ check_key_path enc path)
    then_check (if_there (get enc (codes "slots")) (check_slots opts enc (at path (codes "slots")))
        then_check if_there (get enc (codes "passphrase"))
            (λ v. check_passphrase opts (at path (codes "passphrase")) (as_dict v)))

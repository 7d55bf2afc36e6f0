-- ===== src/Validator/Signed.antt =====
-- What the signature entries and the critical extensions of an accepted record are.
use label_309_py.Prelude.{
  ℕ, suc, ◌≡◌, ◌≢◌, refl, ap, ◌∙◌, inl, inr, Bool, true, false, not, Option, none, some, List, [],
  ◌∷◌, ◌++◌, ◌==◌, All, length, arith, Bool-cases, Option-cases, codes,
}
use label_309_py.Bytes.{Bytes}
use label_309_py.ErrorCodes.{
  severity_of, schema_type_mismatch, crit_shape_invalid, extension_unsupported_critical,
  malformed_sig_cose_sign1, sig_private_key_leaked,
}
use label_309_py.Verdict.{Segment, key, index}
use label_309_py.Cbor.{
  Text, Value, bytes, dict, Entries, get, not_none, as_bytes, and_then, is_member, is_some,
}
use label_309_py.Validator.Issuing.{issue_if}
use label_309_py.Validator.Fields.{
  texts_of, array_of, top_level_base_keys, is_extension_key, is_malformed_crit, check_crit_names,
  check_crit,
}
use label_309_py.Validator.Signatures.{
  CoseSign1, has_private_label, inspect_key_map, inspect_cose_key, inspect_entry_key,
  decode_cose_sign1, check_cose, check_sig_entry,
}
use label_309_py.Validator.Silence.{
  IsSilent, IsSilent-append, IsSilent-issue, IsSilent-issue_if, IsSilent-length,
}
use label_309_py.Validator.Inversion.{as_bytes-eq, and_then-eq-some}

-- A name in `crit`: an extension that the deployment supports, and the record has.
abbrev pub IsSupported : Entries → List Text → Text → Type 0
IsSupported record_ supported name =
    (is_member name supported ≡ true)
    × (is_extension_key name ≡ true)
    × (is_member name top_level_base_keys ≡ false)
    × ((v : Value) × (get record_ name ≡ some v))

crit_name :
    (record_ : Entries) (supported seen : List Text) (name : Text)
    → is_malformed_crit record_ seen name ≡ false
    → not (is_member name supported) ≡ false
    → IsSupported record_ supported name
unfolding is_malformed_crit
crit_name record_ supported seen name shape h = elim (Option-cases (get record_ name)) [
  | inl absent ↦ absurd (let f = rw absent at shape in ground (arith))
  | inr (v, there) ↦ (ground arith, ground arith, ground arith, (v, there))
]

check_crit_names-IsSupported :
    (record_ : Entries) (supported : List Text) (i : ℕ) (seen names : List Text)
    → IsSilent (check_crit_names record_ supported i seen names)
    → All (IsSupported record_ supported) names
unfolding check_crit_names severity_of
check_crit_names-IsSupported record_ supported i seen [] h = tt
check_crit_names-IsSupported record_ supported i seen (name ∷ names) h =
    let (first, rest) =
      IsSilent-append _ (check_crit_names record_ supported (suc i) (name ∷ seen) names) h in
    elim (Bool-cases (is_malformed_crit record_ seen name)) [
      | inl malformed ↦ absurd (IsSilent-issue crit_shape_invalid _ refl (rw malformed at first))
      | inr shape ↦ (
        crit_name record_ supported seen name shape
            (IsSilent-issue_if _ extension_unsupported_critical _ refl (rw shape at first)),
        check_crit_names-IsSupported record_ supported (suc i) (name ∷ seen) names rest,
      )
    ]

-- What stands under `crit`, where an array does: some names, each of them supported.
abbrev pub HasCrit : Entries → List Text → Type 0
HasCrit record_ supported =
    (names : List Value)
    → array_of record_ (codes "crit") ≡ some names
    → (names ≢ []) × All (IsSupported record_ supported) (texts_of names)

pub check_crit-HasCrit :
    (record_ : Entries) (supported : List Text)
    → IsSilent (check_crit record_ supported)
    → HasCrit record_ supported
unfolding check_crit severity_of
check_crit-HasCrit record_ supported h [] there =
    absurd (IsSilent-issue schema_type_mismatch _ refl (rw there at h))
check_crit-HasCrit record_ supported h (v ∷ vs) there = elim (Bool-cases (length (v ∷ vs) == 0)) [
  | inl empty ↦ absurd (ground arith)
  | inr filled ↦ (
    λ e. cc,
    check_crit_names-IsSupported record_ supported 0 [] (texts_of (v ∷ vs))
        (rw (there, filled) at h),
  )
]

issue_if_nil :
    (test : Bool) (path : List Segment)
    → IsSilent (issue_if test malformed_sig_cose_sign1 path)
    → issue_if test malformed_sig_cose_sign1 path ≡ []
unfolding issue_if severity_of
issue_if_nil true path h = absurd (IsSilent-issue malformed_sig_cose_sign1 path refl h)
issue_if_nil false path h = refl

inspect_key_map_silent :
    (k : Entries) (path : List Segment)
    → IsSilent (inspect_key_map k path)
    → (has_private_label k ≡ false) × (inspect_key_map k path ≡ [])
unfolding inspect_key_map severity_of
inspect_key_map_silent k path h = elim (Bool-cases (has_private_label k)) [
  | inl leaks ↦ absurd (IsSilent-issue sig_private_key_leaked path refl (rw leaks at h))
  | inr keeps ↦ (keeps, rw keeps (issue_if_nil _ path (rw keeps at h)))
]

module _ (decode_canonical_cbor : Bytes → Option Value)
    (encode_canonical_cbor : Value → Option Bytes) where
  -- A signature entry: a detached signature, and no private key.
  pub record IsSig (d : Entries) : Type 0 where
    pub detached :
        (b : Bytes) × (cose : CoseSign1) × (get d (codes "cose_sign1") ≡ some (bytes b))
        × (decode_cose_sign1 decode_canonical_cbor encode_canonical_cbor b ≡ some cose)
        × (cose.payload ≡ none)
    pub keeps_key :
        (b : Bytes) (k : Entries)
        → get d (codes "cose_key") ≡ some (bytes b)
        → decode_canonical_cbor b ≡ some (dict k)
        → has_private_label k ≡ false

  inspect_entry_key_silent :
      (o : Option Bytes) (path : List Segment)
      → IsSilent (inspect_entry_key decode_canonical_cbor encode_canonical_cbor o path)
      → inspect_entry_key decode_canonical_cbor encode_canonical_cbor o path ≡ []
  unfolding inspect_cose_key severity_of
  inspect_entry_key_silent none path h = refl
  inspect_entry_key_silent (some b) path h = elim (Option-cases (decode_canonical_cbor b)) [
    | inl fails ↦ absurd (IsSilent-issue malformed_sig_cose_sign1 path refl (rw fails at h))
    | inr (v, decodes) ↦ rw decodes (inspect_key_map_silent _ path (rw decodes at h)).1
  ]

  inspect_entry_key-keeps :
      (b : Bytes) (k : Entries) (path : List Segment)
      → decode_canonical_cbor b ≡ some (dict k)
      → IsSilent (inspect_entry_key decode_canonical_cbor encode_canonical_cbor (some b) path)
      → has_private_label k ≡ false
  unfolding inspect_cose_key
  inspect_entry_key-keeps b k path decodes h = (inspect_key_map_silent k path (rw decodes at h)).0

  check_cose_detached :
      (path : List Segment) (has_key : Bool) (o : Option CoseSign1)
      → IsSilent (check_cose decode_canonical_cbor encode_canonical_cbor path has_key o)
      → (cose : CoseSign1) × (o ≡ some cose) × (cose.payload ≡ none)
  unfolding check_cose severity_of
  check_cose_detached path has_key none h =
      absurd (IsSilent-issue malformed_sig_cose_sign1 path refl h)
  check_cose_detached path has_key (some cose) h = elim (Option-cases cose.payload) [
    | inl detached ↦ (cose, refl, detached)
    | inr (b, attached) ↦
        absurd (IsSilent-issue malformed_sig_cose_sign1 path refl (simp attached at h))
  ]

  pub check_sig_entry-IsSig :
      (d : Entries) (i : ℕ)
      → IsSilent (check_sig_entry decode_canonical_cbor encode_canonical_cbor d i)
      → IsSig d
  unfolding check_sig_entry
  check_sig_entry-IsSig d i h =
      let path : List Segment = key (codes "sigs") ∷ index i ∷ [] in
      let cose_key = and_then (not_none (get d (codes "cose_key"))) as_bytes in
      let key_issues =
        inspect_entry_key decode_canonical_cbor encode_canonical_cbor cose_key
          (path ++ key (codes "cose_key") ∷ []) in
      let silent_key : IsSilent key_issues = elim (Bool-cases (not (length key_issues == 0))) [
        | inl some_ ↦ rw some_ at h
        | inr none_ ↦ IsSilent-length key_issues none_
      ] in
      let nil =
        inspect_entry_key_silent cose_key (path ++ key (codes "cose_key") ∷ []) silent_key in
      let (cose, decodes, detached) = check_cose_detached path (is_some cose_key) _ (rw nil at h) in
      let (b, is_b, decodes_b) =
        and_then-eq-some (and_then (get d (codes "cose_sign1")) as_bytes)
          (decode_cose_sign1 decode_canonical_cbor encode_canonical_cbor) cose decodes in
      let (v, there, is_bytes) = and_then-eq-some (get d (codes "cose_sign1")) as_bytes b is_b in
      record {
        detached = (b, cose, there ∙ ap some (as_bytes-eq v b is_bytes), decodes_b, detached);
        keeps_key = λ b' k there' decodes'.
            inspect_entry_key-keeps b' k (path ++ key (codes "cose_key") ∷ []) decodes'
              (rw there' at silent_key);
      }

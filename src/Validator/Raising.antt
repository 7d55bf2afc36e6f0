-- ===== src/Validator/Raising.antt =====
-- Which envelopes make the validator raise.
use label_309_py.Prelude.{
  ℕ, ◌≤◌, ◌≡◌, ◌≢◌, ◌↔◌, refl, ap, ◌∙◌, ◌⊎◌, inl, inr, false, not, Option, none, some, List, [],
  ◌∷◌, ◌++◌, ◌==◌, ltb, length, arith, Bool-cases, Option-cases, ltb→le, le→ltb, Result, ok, err,
  codes,
}
use label_309_py.Verdict.{Segment, Issues}
use label_309_py.Cbor.{Text, Value, null, Entries, get, as_text, as_array, as_dict, and_then}
use label_309_py.Validator.Registries.{
  Options, Raised, key_error, type_error, KemSlotDescriptor, kem_slot_descriptor,
}
use label_309_py.Validator.Slots.{
  at, enc_internal_non_text_key_issues, enc_scheme1_schema_issues, check_nonce, check_key_path,
  check_slots, check_scheme1_envelope, check_passphrase, if_there, ◌then_check◌,
}
use label_309_py.Validator.Envelope.{unsupported_identifiers, check_typed}
use label_309_py.Validator.Silence.{IsSilent-length}
use label_309_py.Validator.Shaped.{IsShaped, enc_scheme1_schema_issues-IsShaped, field_cases}

length-ne_nil {ℓ} : {A : Type ℓ} (xs : List A) → (length xs == 0) ≡ false → xs ≢ []
length-ne_nil [] h e = cc
length-ne_nil (x ∷ xs) h e = cc

length-nil {ℓ} : {A : Type ℓ} (xs : List A) → not (length xs == 0) ≡ false → xs ≡ []
length-nil [] h = refl
length-nil (x ∷ xs) h = absurd (ground arith)

length-filled {ℓ} : {A : Type ℓ} (xs : List A) → xs ≢ [] → (length xs == 0) ≡ false
length-filled [] h = absurd (h refl)
length-filled (x ∷ xs) h = ground arith

-- A null where the checks behind the shape expect a value: under `slots`, under `passphrase`, or under
-- `kem` with slots to walk.
abbrev pub HasNull : Options → Entries → Type 0
HasNull opts enc =
    (get enc (codes "slots") ≡ some null)
    ⊎ ((get enc (codes "passphrase") ≡ some null)
        ⊎ ((get enc (codes "kem") ≡ some null)
            × ((v : Value) × (vs : List Value) × (get enc (codes "slots") ≡ some v)
                × (as_array v ≡ some vs)
                × (vs ≢ [])
                × (length vs ≤ opts.max_slots))))

abbrev pub Raises : Result Raised Issues → Type 0
Raises r = (e : Raised) × (r ≡ err e)

then_check-Raises :
    (first second : Result Raised Issues)
    → Raises (first then_check second)
    → Raises first ⊎ Raises second
then_check-Raises (err e) second h = inl (e, refl)
then_check-Raises (ok a) (err e) h = inr (e, refl)
then_check-Raises (ok a) (ok b) (e, h) = absurd (cc)

Raises-then_check :
    (first second : Result Raised Issues)
    → Raises first ⊎ Raises second
    → Raises (first then_check second)
Raises-then_check (err e) second h = (e, refl)
Raises-then_check (ok a) (err e) h = (e, refl)
Raises-then_check (ok a) (ok b) (inl (e, h)) = absurd (cc)
Raises-then_check (ok a) (ok b) (inr (e, h)) = absurd (cc)

not_Raises-ok : (a : Issues) → ¬ (Raises (ok a))
not_Raises-ok a (e, h) = cc

-- A kem that is a text is in the registry where nothing is unsupported.
known_kem :
    (enc : Entries) (scheme : ℕ) (t : Text)
    → unsupported_identifiers enc scheme ≡ []
    → and_then (get enc (codes "kem")) as_text ≡ some t
    → (d : KemSlotDescriptor) × (kem_slot_descriptor t ≡ some d)
unfolding unsupported_identifiers
known_kem enc scheme t supported is_t = elim (Option-cases (kem_slot_descriptor t)) [
  | inr found ↦ found
  | inl unknown ↦ elim (Bool-cases (not (scheme == 1))) [
    | inl other_ ↦ absurd (let f = rw (other_, is_t, unknown) at supported in cc)
    | inr one ↦ absurd (let f = rw (one, is_t, unknown) at supported in cc)
  ]
]

module _ (opts : Options) (enc : Entries) (path : List Segment) (scheme : ℕ)
    (supported : unsupported_identifiers enc scheme ≡ []) where
  -- The slots raise only on a null.
  check_slots-Raises :
      (v : Value)
      → IsShaped enc
      → get enc (codes "slots") ≡ some v
      → Raises (check_slots opts enc (at path (codes "slots")) v)
      → HasNull opts enc
  unfolding check_slots
  check_slots-Raises v shaped there (e, h) =
      elim (field_cases as_array v (λ w is_w. shaped.slots w (rw there is_w))) [
        | inl is_null ↦ inl (there ∙ ap some is_null)
        | inr (vs, is_array) ↦ elim (Bool-cases (length vs == 0)) [
          | inl empty ↦ absurd (let f = rw (is_array, empty) at h in cc)
          | inr filled ↦ elim (Bool-cases (ltb opts.max_slots (length vs))) [
            | inl many ↦ absurd (let f = rw (is_array, filled, many) at h in cc)
            | inr few ↦ elim (Option-cases (get enc (codes "kem"))) [
              | inl no_kem ↦ absurd (let f = rw (is_array, filled, few, no_kem) at h in cc)
              | inr (k, is_kem) ↦
                  elim (field_cases as_text k (λ w is_w. shaped.kem w (rw is_kem is_w))) [
                    | inl is_null ↦ inr (
                        inr (
                          is_kem ∙ ap some is_null,
                          (v, vs, there, is_array, length-ne_nil vs filled, ltb→le _ _ few),
                        ))
                    | inr (t, is_text) ↦
                        let (d, known) = known_kem enc scheme t supported (rw is_kem is_text) in
                        absurd
                          (let f = rw (is_array, filled, few, is_kem, is_text, known) at h in cc)
                  ]
            ]
          ]
        ]
      ]

  check_passphrase-Raises :
      (v : Value)
      → IsShaped enc
      → get enc (codes "passphrase") ≡ some v
      → Raises (check_passphrase opts (at path (codes "passphrase")) (as_dict v))
      → HasNull opts enc
  check_passphrase-Raises v shaped there (e, h) =
      elim (field_cases as_dict v (λ w is_w. shaped.passphrase w (rw there is_w))) [
        | inl is_null ↦ inr (inl (there ∙ ap some is_null))
        | inr (d, is_dict) ↦ absurd (let f = rw is_dict at h in cc)
      ]

  if_there-Raises :
      (o : Option Value) (check : Value → Result Raised Issues)
      → Raises (if_there o check)
      → (v : Value) × (o ≡ some v) × Raises (check v)
  if_there-Raises none check (e, h) = cc
  if_there-Raises (some v) check r = (v, refl, r)

  abbrev fields_part : Result Raised Issues
  fields_part = ok (check_nonce enc path ++ check_key_path enc path)

  abbrev slots_part : Result Raised Issues
  slots_part = if_there (get enc (codes "slots")) (check_slots opts enc (at path (codes "slots")))

  abbrev passphrase_part : Result Raised Issues
  passphrase_part =
      if_there (get enc (codes "passphrase"))
        (λ v. check_passphrase opts (at path (codes "passphrase")) (as_dict v))

  -- The envelope raises where one of its parts does.
  parts-Raises :
      Raises (check_scheme1_envelope opts enc path) ↔ (Raises slots_part ⊎ Raises passphrase_part)
  unfolding check_scheme1_envelope
  parts-Raises = (
    λ r. elim (then_check-Raises fields_part (slots_part then_check passphrase_part) r) [
      | inl first ↦ absurd (not_Raises-ok _ first)
      | inr rest ↦ then_check-Raises slots_part passphrase_part rest
    ],
    λ r.
        Raises-then_check fields_part (slots_part then_check passphrase_part)
          (inr (Raises-then_check slots_part passphrase_part r)),
  )

  check_scheme1_envelope-HasNull :
      IsShaped enc → Raises (check_scheme1_envelope opts enc path) → HasNull opts enc
  check_scheme1_envelope-HasNull shaped r = elim (parts-Raises.0 r) [
    | inl slots ↦
        let (v, there, raises) =
          if_there-Raises (get enc (codes "slots")) (check_slots opts enc (at path (codes "slots")))
            slots in
        check_slots-Raises v shaped there raises
    | inr passphrase ↦
        let (v, there, raises) =
          if_there-Raises (get enc (codes "passphrase"))
            (λ v. check_passphrase opts (at path (codes "passphrase")) (as_dict v)) passphrase in
        check_passphrase-Raises v shaped there raises
  ]

  HasNull-check_scheme1_envelope : HasNull opts enc → Raises (check_scheme1_envelope opts enc path)
  unfolding check_slots
  HasNull-check_scheme1_envelope (inl slots) = parts-Raises.1 (inl (type_error, rw slots refl))
  HasNull-check_scheme1_envelope (inr (inl passphrase)) =
      parts-Raises.1 (inr (type_error, rw passphrase refl))
  HasNull-check_scheme1_envelope (inr (inr (kem, (v, vs, slots, is_array, filled, few)))) =
      let not_empty = length-filled vs filled in
      let bounded = le→ltb opts.max_slots (length vs) few in
      parts-Raises.1 (inl (key_error, rw (slots, is_array, not_empty, bounded, kem) refl))

  -- An envelope of supported identifiers makes the validator raise exactly when it has the typed shape
  -- and a null under `slots` or under `passphrase`, or under `kem` with one slot or more to walk, no
  -- more than the bound.
  pub check_typed-Raises_iff : Raises (check_typed opts enc path) ↔ (
      (enc_internal_non_text_key_issues enc path ≡ [])
      × (enc_scheme1_schema_issues enc path ≡ [])
      × HasNull opts enc)
  unfolding check_typed
  check_typed-Raises_iff = (
    λ r. elim (Bool-cases (not (length (enc_internal_non_text_key_issues enc path) == 0))) [
      | inl keys ↦ absurd (not_Raises-ok _ (rw keys at r))
      | inr no_keys ↦ elim (Bool-cases (not (length (enc_scheme1_schema_issues enc path) == 0))) [
        | inl misshaped ↦ absurd (not_Raises-ok _ (rw (no_keys, misshaped) at r))
        | inr shaped ↦ (
          length-nil _ no_keys,
          length-nil _ shaped,
          check_scheme1_envelope-HasNull
              (enc_scheme1_schema_issues-IsShaped enc path (IsSilent-length _ shaped))
              (rw (no_keys, shaped) at r),
        )
      ]
    ],
    λ (no_keys, shaped, nulls). rw (no_keys, shaped) (HasNull-check_scheme1_envelope nulls),
  )

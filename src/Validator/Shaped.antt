-- ===== src/Validator/Shaped.antt =====
-- What the typed shape of an envelope says of its fields that may be absent.
use label_309_py.Prelude.{
  ◌≡◌, refl, ap, ◌∙◌, ◌⊎◌, inl, inr, Option, none, some, List, Option-cases, codes,
}
use label_309_py.ErrorCodes.{severity_of, schema_type_mismatch}
use label_309_py.Verdict.{Segment}
use label_309_py.Cbor.{
  Text, Value, null, bool, integer, text, bytes, array, dict, other, Entries, get, not_none,
  as_text, as_bytes, as_array, as_dict,
}
use label_309_py.Validator.Issuing.{for_some}
use label_309_py.Validator.Shape.{closed_map, required_field}
use label_309_py.Validator.Slots.{parse_passphrase, enc_scheme1_keys, enc_scheme1_schema_issues}
use label_309_py.Validator.Silence.{IsSilent, IsSilent-append, IsSilent-issue_if, IsSilent-or_else}
use label_309_py.Validator.Inversion.{is_some-eq}

not_none-null : (o : Option Value) → not_none o ≡ none → (o ≡ none) ⊎ (o ≡ some null)
not_none-null none h = inl refl
not_none-null (some null) h = inr refl
not_none-null (some (bool b)) h = cc
not_none-null (some (integer n)) h = cc
not_none-null (some (text t)) h = cc
not_none-null (some (bytes b)) h = cc
not_none-null (some (array a)) h = cc
not_none-null (some (dict d)) h = cc
not_none-null (some (other n)) h = cc

not_none-some : (v w : Value) → not_none (some v) ≡ some w → v ≡ w
not_none-some null w h = cc
not_none-some (bool b) w h = cc
not_none-some (integer n) w h = cc
not_none-some (text t) w h = cc
not_none-some (bytes b) w h = cc
not_none-some (array a) w h = cc
not_none-some (dict d) w h = cc
not_none-some (other n) w h = cc

-- What the shape says of a field that may be absent.
pub record IsShaped (enc : Entries) : Type 0 where
  pub kem :
      (v : Value) → not_none (get enc (codes "kem")) ≡ some v → (t : Text) × (as_text v ≡ some t)
  pub slots :
      (v : Value)
      → not_none (get enc (codes "slots")) ≡ some v
      → (vs : List Value) × (as_array v ≡ some vs)
  pub passphrase :
      (v : Value)
      → not_none (get enc (codes "passphrase")) ≡ some v
      → (d : Entries) × (as_dict v ≡ some d)

pub enc_scheme1_schema_issues-IsShaped :
    (enc : Entries) (path : List Segment)
    → IsSilent (enc_scheme1_schema_issues enc path)
    → IsShaped enc
unfolding enc_scheme1_schema_issues parse_passphrase severity_of
enc_scheme1_schema_issues-IsShaped enc path h =
    let (_, s₁) = IsSilent-append (closed_map enc enc_scheme1_keys _ path) _ h in
    let (_, s₂) = IsSilent-append (required_field enc (codes "aead") as_text _ _ path) _ s₁ in
    let (_, s₃) = IsSilent-append (required_field enc (codes "nonce") as_bytes _ _ path) _ s₂ in
    let (kem, s₄) = IsSilent-append (for_some (not_none (get enc (codes "kem"))) _) _ s₃ in
    let (slots, s₅) = IsSilent-append (for_some (not_none (get enc (codes "slots"))) _) _ s₄ in
    let (_, passphrase) =
      IsSilent-append (for_some (not_none (get enc (codes "slots_mac"))) _) _ s₅ in
    record {
      kem = λ v there. is_some-eq _ (IsSilent-issue_if _ _ _ refl (rw there at kem));
      slots = λ v there.
          let (vs, e, _) =
            IsSilent-or_else (as_array v) schema_type_mismatch _ _ refl (rw there at slots) in
          (vs, e);
      passphrase = λ v there.
          let (d, e, _) =
            IsSilent-or_else (as_dict v) schema_type_mismatch _ _ refl (rw there at passphrase) in
          (d, e);
    }

-- A field that is null, or that the shape reads.
pub field_cases {ℓ} :
    {A : Type ℓ} (read : Value → Option A) (v : Value)
    → ((w : Value) → not_none (some v) ≡ some w → (a : A) × (read w ≡ some a))
    → (v ≡ null) ⊎ ((a : A) × (read v ≡ some a))
field_cases read v h = elim (Option-cases (not_none (some v))) [
  | inl is_none ↦ elim (not_none-null (some v) is_none) [
    | inl absurd_ ↦ absurd (cc)
    | inr is_null ↦ inl (cc)
  ]
  | inr (w, is_w) ↦ let (a, reads) = h w is_w in inr (a, ap read (not_none-some v w is_w) ∙ reads)
]

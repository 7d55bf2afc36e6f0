-- ===== src/Validator/Accepted.antt =====
-- What a record is that the validator accepts.
use label_309_py.Prelude.{
  ℕ, ◌≡◌, ◌≢◌, refl, ap, ◌∙◌, ◌⊎◌, inl, inr, false, not, Option, none, some, List, [], ◌∷◌, ◌++◌,
  ◌==◌, All, length, arith, Bool-cases, codes,
}
use label_309_py.Bytes.{Bytes, bytes_eq, bytes_eq-eq}
use label_309_py.ErrorCodes.{severity_of, schema_type_mismatch, unsupported_hash_alg}
use label_309_py.Verdict.{Segment, key}
use label_309_py.Cbor.{
  Text, Value, text, bytes, array, dict, Values, Entries, elements, get, text_entries, not_none,
  as_text, as_bytes, as_array, is_some,
}
use label_309_py.Validator.Issuing.{issue_if, for_some}
use label_309_py.Validator.Registries.{hash_alg_length}
use label_309_py.Validator.Uris.{
  UriRejection, is_rejected, fetch_set_uri_rejection, check_one_uri, check_uris,
}
use label_309_py.Validator.Shape.{parse_hashes, schema_parse_uris}
use label_309_py.Validator.Fields.{
  put_text, check_digest, check_item_hashes, texts_of, check_uris_field,
}
use label_309_py.Validator.Silence.{
  IsSilent, IsSilent-issue, IsSilent-issue_if, IsSilent-for_each, IsSilent-for_entries,
  IsSilent-or_else,
}
use label_309_py.Validator.Inversion.{as_array-eq, as_text-eq, as_bytes-eq, is_some-eq, All-both}

abbrev pub IsHashAlg : Text → Type 0
IsHashAlg alg = (alg ≡ codes "sha2-256") ⊎ (alg ≡ codes "blake2b-256")

hash_alg_length-eq : (alg : Text) (n : ℕ) → hash_alg_length alg ≡ some n → IsHashAlg alg × (n ≡ 32)
unfolding hash_alg_length
hash_alg_length-eq alg n h = elim (Bool-cases (bytes_eq alg (codes "sha2-256"))) [
  | inl sha ↦ (inl (bytes_eq-eq _ _ sha), let e = rw sha at h in cc)
  | inr other_ ↦ elim (Bool-cases (bytes_eq alg (codes "blake2b-256"))) [
    | inl blake ↦ (inr (bytes_eq-eq _ _ blake), let e = rw (other_, blake) at h in cc)
    | inr none_ ↦ absurd (let e = rw (other_, none_) at h in cc)
  ]
]

-- An entry of `hashes`: 32 bytes under a registered algorithm.
abbrev pub IsDigest : Text × Value → Type 0
IsDigest (alg, digest) = (b : Bytes) × (digest ≡ bytes b) × (length b ≡ 32) × IsHashAlg alg

pub not-==→eq : (m n : ℕ) → not (m == n) ≡ false → m ≡ n
not-==→eq m n h = ground arith

check_digest-IsDigest :
    (path path' : List Segment) (e : Text × Value)
    → IsSilent (issue_if (not (is_some (as_bytes e.1))) schema_type_mismatch path')
    → IsSilent (check_digest path e.0 e.1)
    → IsDigest e
unfolding check_digest severity_of
check_digest-IsDigest path path' (alg, digest) shaped h =
    let (b, is_bytes) = is_some-eq _ (IsSilent-issue_if _ _ path' refl shaped) in
    let (n, known, fits) = IsSilent-or_else (hash_alg_length alg) unsupported_hash_alg _ _ refl h in
    let (registered, size) = hash_alg_length-eq alg n known in
    let same = not-==→eq _ _ (IsSilent-issue_if _ _ _ refl (rw is_bytes at fits)) in
    (b, as_bytes-eq digest b is_bytes, same ∙ size, registered)

-- A map of digests that is not empty.
abbrev pub IsHashes : Entries → Type 0
IsHashes hashes = (text_entries hashes ≢ []) × All IsDigest (text_entries hashes)

length-ne_nil {ℓ} : {A : Type ℓ} (xs : List A) → (length xs == 0) ≡ false → xs ≢ []
length-ne_nil [] h e = cc
length-ne_nil (x ∷ xs) h e = cc

pub check_item_hashes-IsHashes :
    (path path' : List Segment) (hashes : Entries)
    → IsSilent (parse_hashes path' (dict hashes))
    → IsSilent (check_item_hashes path (text_entries hashes))
    → IsHashes hashes
unfolding parse_hashes check_item_hashes severity_of
check_item_hashes-IsHashes path path' hashes shaped h =
    elim (Bool-cases (length (text_entries hashes) == 0)) [
      | inl empty ↦ absurd (IsSilent-issue schema_type_mismatch path refl (rw empty at h))
      | inr filled ↦ (
        length-ne_nil _ filled,
        All-both
            (λ e. IsSilent (
              issue_if (not (is_some (as_bytes e.1))) schema_type_mismatch (path' ++ key e.0 ∷ [])))
            (λ e. IsSilent (check_digest path e.0 e.1)) IsDigest (text_entries hashes)
            (λ e. check_digest-IsDigest path (path' ++ key e.0 ∷ []) e)
            (IsSilent-for_entries _ _ (text_entries hashes) (λ e k. k) shaped)
            (IsSilent-for_entries _ _ (text_entries hashes) (λ e k. k) (rw filled at h)),
      )
    ]

-- A text that is in the fetch set.
abbrev pub IsFetchable : Value → Type 0
IsFetchable v = (t : Text) × (v ≡ text t) × (fetch_set_uri_rejection t ≡ none)

not_rejected : (o : Option UriRejection) → is_rejected o ≡ false → o ≡ none
not_rejected none h = refl
not_rejected (some reason) h = cc

texts_of-IsFetchable :
    (vs : List Value)
    → All (λ v. (t : Text) × (as_text v ≡ some t)) vs
    → All (λ t. fetch_set_uri_rejection t ≡ none) (texts_of vs)
    → All IsFetchable vs
unfolding texts_of
texts_of-IsFetchable [] shaped h = tt
texts_of-IsFetchable (v ∷ vs) ((t, is_text), shaped) h =
    let h' = rw (put_text, is_text) at h in
    ((t, as_text-eq v t is_text, h'.0), texts_of-IsFetchable vs shaped h'.1)

-- What stands under `uris`, unless nothing or null does: an array of texts in the fetch set, not empty.
abbrev pub HasUris : Entries → Type 0
HasUris d =
    (v : Value)
    → not_none (get d (codes "uris")) ≡ some v
    → (a : Values) × (v ≡ array a) × (elements a ≢ []) × All IsFetchable (elements a)

check_uris-IsFetchable :
    (path : List Segment) (vs : List Value)
    → All (λ v. (t : Text) × (as_text v ≡ some t)) vs
    → IsSilent (check_uris (texts_of vs) path)
    → (vs ≢ []) × All IsFetchable vs
unfolding check_uris check_one_uri severity_of
check_uris-IsFetchable path vs shaped h = elim (Bool-cases (length (texts_of vs) == 0)) [
  | inl empty ↦ absurd (IsSilent-issue schema_type_mismatch path refl (rw empty at h))
  | inr filled ↦ (
    λ e. length-ne_nil (texts_of vs) filled (unfold texts_of in ap texts_of e),
    texts_of-IsFetchable vs shaped (
        IsSilent-for_each (λ t. fetch_set_uri_rejection t ≡ none) _ 0 (texts_of vs)
          (λ j t k. not_rejected _ (IsSilent-issue_if _ _ _ refl k)) (rw filled at h)),
  )
]

pub check_uris_field-HasUris :
    (d : Entries) (path path' : List Segment)
    → IsSilent (for_some (not_none (get d (codes "uris"))) (schema_parse_uris path'))
    → IsSilent (check_uris_field d path)
    → HasUris d
unfolding schema_parse_uris check_uris_field severity_of
check_uris_field-HasUris d path path' shaped h v there =
    let (vs, is_array, texts) =
      IsSilent-or_else (as_array v) schema_type_mismatch path' _ refl (rw there at shaped) in
    let (a, is_array', same) = as_array-eq v vs is_array in
    let found =
      check_uris-IsFetchable (path ++ key (codes "uris") ∷ []) vs
        (IsSilent-for_each _ _ 0 vs (λ j u k. is_some-eq _ (IsSilent-issue_if _ _ _ refl k)) texts)
        (rw (there, is_array) at h) in
    let found' = rw same at found in (a, is_array', found'.0, found'.1)

-- ===== src/Content/Blame.antt =====
-- The content check of items.py and the verdict: only an attributable mismatch and a denied host
-- condemn the record.
use label_309_py.Prelude.{
  ℕ, suc, ◌≡◌, ◌≢◌, ◌↔◌, refl, sym, ap, ◌∙◌, ◌⊎◌, arith, inl, inr, Bool, true, false, not, ◌&&◌,
  ◌||◌, Option, none, some, List, [], ◌∷◌, ◌++◌, if◌then◌else◌, All, Bool-cases, ◌==◌, length,
  codes,
}
use label_309_py.Bytes.{Bytes}
use label_309_py.ErrorCodes.{ErrorCode, severity_of, error}
use label_309_py.Verdict.{
  Verdict, Segment, key, index, Issues, Item, add, failed, valid, unverifiable, verdict_from_issues,
  is_network_class, same_severity,
}
use label_309_py.Verdict.Meaning.{condemned, is_condemning, judge-eq, or_true}
use label_309_py.Content.{
  Text, FetchOutcome, too_large, denied, broken, response, SourceStep, issue, blob, limit_exceeded,
  ContentCheck, checked, not_checked, mismatched, Address, ar, ipfs, Gateways,
  recompute_item_hashes, check_blobs, check_item_content, fetched_step, gateway_steps,
  address_steps, uri_steps, parse_fetch_uri, iterate_blob_sources, join_gateway,
}
use label_309_py.Content.Checked.{IsBlamed, IsBlamed-mismatched, mismatched-IsBlamed}

length-nil {ℓ} : {A : Type ℓ} (xs : List A) → (length xs == 0) ≡ true → xs ≡ []
length-nil [] h = refl
length-nil (x ∷ xs) h = absurd (ground arith)

or_false : (b : Bool) → (b || false) ≡ b
or_false true = refl
or_false false = refl

or_assoc : (a b c : Bool) → ((a || b) || c) ≡ (a || (b || c))
or_assoc true b c = refl
or_assoc false b c = refl

-- A code whose default severity does not make it an error of the record.
abbrev IsMildCode : ErrorCode → Type 0
IsMildCode code = (same_severity (severity_of code) error && not (is_network_class code)) ≡ false

pub condemned-add :
    (issues : Issues) (code : ErrorCode) (path : List Segment)
    → condemned (add issues code path none) ≡ (
        condemned issues || (same_severity (severity_of code) error && not (is_network_class code)))
unfolding condemned add
condemned-add [] code path = or_false _
condemned-add (i ∷ issues) code path =
    ap (λ (b : Bool). is_condemning i || b) (condemned-add issues code path)
    ∙ sym (or_assoc (is_condemning i) (condemned issues) _)

condemned-add_mild :
    (issues : Issues) (code : ErrorCode) (path : List Segment)
    → IsMildCode code
    → condemned (add issues code path none) ≡ condemned issues
condemned-add_mild issues code path mild =
    condemned-add issues code path
    ∙ ap (λ (b : Bool). condemned issues || b) mild
    ∙ or_false (condemned issues)

unsettled : (saw : Bool) → (if saw then unverifiable else valid) ≢ failed
unsettled true h = cc
unsettled false h = cc

failed-condemned : (issues : Issues) → verdict_from_issues issues ≡ failed → condemned issues ≡ true
unfolding verdict_from_issues
failed-condemned issues h = elim (Bool-cases (condemned issues)) [
  | inl c ↦ c
  | inr own ↦ absurd (unsettled _ (rw own at (sym (judge-eq issues false) ∙ h)))
]

pub condemned-failed :
    (issues : Issues) → condemned issues ≡ true → verdict_from_issues issues ≡ failed
unfolding verdict_from_issues
condemned-failed issues h = judge-eq issues false ∙ rw h refl

abbrev IsMildStep : SourceStep → Type 0
IsMildStep (issue code path) = IsMildCode code
IsMildStep (blob b) = Unit
IsMildStep limit_exceeded = Unit

module _ (sha256 blake2b_256 : Bytes → Bytes) (hashes : List (Text × Bytes))
    (base_path : List Segment) where
  check_blobs-mild :
      (steps : List SourceStep) (issues : Issues)
      → All IsMildStep steps
      → (check_blobs sha256 blake2b_256 hashes base_path steps issues).0 ≢ mismatched
      → condemned (check_blobs sha256 blake2b_256 hashes base_path steps issues).1
        ≡ condemned issues
  unfolding check_blobs severity_of same_severity is_network_class
  check_blobs-mild [] issues mild h = condemned-add_mild issues _ base_path refl
  check_blobs-mild (limit_exceeded ∷ steps) issues mild h =
      condemned-add_mild issues _ base_path refl
  check_blobs-mild (issue code path ∷ steps) issues mild h =
      check_blobs-mild steps (add issues code path none) mild.1 h
      ∙ condemned-add_mild issues code path mild.0
  check_blobs-mild (blob b ∷ steps) issues mild h =
      elim (Bool-cases (recompute_item_hashes sha256 blake2b_256 hashes b.bytes)) [
        | inl matches ↦ simp matches refl
        | inr fails ↦ elim (Bool-cases b.attributable) [
          | inl own ↦ absurd (h (simp (fails, own) refl))
          | inr other ↦
              simp (fails, other)
                (check_blobs-mild steps _ mild.1 (λ e. h (simp (fails, other) e))
                  ∙ condemned-add_mild issues _ _ refl)
        ]
      ]

  check_blobs-mismatched :
      (steps : List SourceStep) (issues : Issues)
      → (check_blobs sha256 blake2b_256 hashes base_path steps issues).0 ≡ mismatched
      → condemned (check_blobs sha256 blake2b_256 hashes base_path steps issues).1 ≡ true
  unfolding check_blobs severity_of same_severity is_network_class
  check_blobs-mismatched [] issues h = cc
  check_blobs-mismatched (limit_exceeded ∷ steps) issues h = cc
  check_blobs-mismatched (issue code path ∷ steps) issues h =
      check_blobs-mismatched steps (add issues code path none) h
  check_blobs-mismatched (blob b ∷ steps) issues h =
      elim (Bool-cases (recompute_item_hashes sha256 blake2b_256 hashes b.bytes)) [
        | inl matches ↦ absurd (let no_ = simp matches at h in cc)
        | inr fails ↦ elim (Bool-cases b.attributable) [
          | inl own ↦
              simp (fails, own) (condemned-add issues _ base_path ∙ or_true (condemned issues))
          | inr other ↦
              simp (fails, other) (check_blobs-mismatched steps _ (simp (fails, other) at h))
        ]
      ]

All-append {ℓ} :
    {A : Type ℓ} (P : A → Type 0) (xs ys : List A) → All P xs → All P ys → All P (xs ++ ys)
All-append P [] ys h k = k
All-append P (x ∷ xs) ys h k = (h.0, All-append P xs ys h.1 k)

module _ (fetch : ℕ → Text → FetchOutcome) (is_bound : Text → Text → Bytes → Bool)
    (gateways : Gateways) (none_denied : (i : ℕ) (url : Text) → fetch i url ≢ denied)
    (base_path : List Segment) where
  fetched_step-mild :
      (i : ℕ) (address : Address) (outcome : FetchOutcome)
      → outcome ≢ denied
      → IsMildStep (fetched_step fetch is_bound gateways base_path i address outcome)
  unfolding fetched_step severity_of same_severity is_network_class
  fetched_step-mild i address too_large h = tt
  fetched_step-mild i address denied h = absurd (h refl)
  fetched_step-mild i address broken h = refl
  fetched_step-mild i address (response status data_) h = elim (Bool-cases (status == 200)) [
    | inl found ↦ rw found tt
    | inr other ↦ rw other refl
  ]

  gateway_steps-mild :
      (i : ℕ) (address : Address) (suffix : Text) (gs : List Text)
      → All IsMildStep (gateway_steps fetch is_bound gateways base_path i address suffix gs)
  unfolding gateway_steps
  gateway_steps-mild i address suffix [] = tt
  gateway_steps-mild i address suffix (g ∷ gs) = (
    fetched_step-mild i address _ (none_denied i (join_gateway g suffix)),
    gateway_steps-mild i address suffix gs,
  )

  address_steps-mild :
      (i : ℕ) (address : Option Address)
      → All IsMildStep (address_steps fetch is_bound gateways base_path i address)
  unfolding address_steps severity_of same_severity is_network_class
  address_steps-mild i none = (refl, tt)
  address_steps-mild i (some (ar txid)) = gateway_steps-mild i (ar txid) txid gateways.arweave
  address_steps-mild i (some (ipfs cid path)) = elim (Bool-cases (length gateways.ipfs == 0)) [
    | inl no_gateway ↦ rw no_gateway (refl, tt)
    | inr some_ ↦ rw some_ (gateway_steps-mild i (ipfs cid path) _ gateways.ipfs)
  ]

  uri_steps-mild :
      (uris : List Text) (i : ℕ)
      → All IsMildStep (uri_steps fetch is_bound gateways base_path uris i)
  unfolding uri_steps
  uri_steps-mild [] i = tt
  uri_steps-mild (uri ∷ uris) i =
      All-append IsMildStep _ _ (address_steps-mild i (parse_fetch_uri uri))
        (uri_steps-mild uris (suc i))

mismatched-or_not : (c : ContentCheck) → (c ≡ mismatched) ⊎ (c ≢ mismatched)
mismatched-or_not checked = inr (λ e. cc)
mismatched-or_not mismatched = inl refl
mismatched-or_not not_checked = inr (λ e. cc)

pub nil-ne_append {ℓ} : {A : Type ℓ} (xs : List A) (y : A) (ys : List A) → ¬ ([] ≡ xs ++ y ∷ ys)
nil-ne_append [] y ys e = cc
nil-ne_append (x ∷ xs) y ys e = cc

module _ (sha256 blake2b_256 : Bytes → Bytes) (hashes : List (Text × Bytes))
    (base_path : List Segment) where
  check_blobs-verdict :
      (steps : List SourceStep) (issues : Issues)
      → All IsMildStep steps
      → (verdict_from_issues (check_blobs sha256 blake2b_256 hashes base_path steps issues).1
          ≡ failed)
        ↔ ((verdict_from_issues issues ≡ failed) ⊎ IsBlamed sha256 blake2b_256 hashes steps)
  check_blobs-verdict steps issues mild =
      elim (mismatched-or_not (check_blobs sha256 blake2b_256 hashes base_path steps issues).0) [
        | inl blamed ↦
            let blame =
              mismatched-IsBlamed sha256 blake2b_256 hashes base_path steps issues blamed in
            let fails =
              check_blobs-mismatched sha256 blake2b_256 hashes base_path steps issues blamed in
            (λ v. inr blame, λ c. condemned-failed _ fails)
        | inr not_blamed ↦
            let same =
              check_blobs-mild sha256 blake2b_256 hashes base_path steps issues mild not_blamed in
            (
              λ v. inl (condemned-failed issues (sym same ∙ failed-condemned _ v)),
              λ c. elim c [
                | inl v ↦ condemned-failed _ (same ∙ failed-condemned issues v)
                | inr blame ↦ absurd (
                    not_blamed
                      (IsBlamed-mismatched sha256 blake2b_256 hashes base_path steps issues blame))
              ],
            )
      ]

module _ (sha256 blake2b_256 : Bytes → Bytes) (fetch : ℕ → Text → FetchOutcome)
    (is_bound : Text → Text → Bytes → Bool) (gateways : Gateways) (item : Item) (item_index : ℕ)
    (fetch_content : Bool) (issues : Issues) where
  abbrev pub item_sources : List SourceStep
  item_sources =
      iterate_blob_sources fetch is_bound gateways (key (codes "items") ∷ index item_index ∷ [])
        none item.uris true

  abbrev pub verdict_after : Verdict
  verdict_after =
      verdict_from_issues
        (check_item_content sha256 blake2b_256 fetch is_bound gateways item item_index fetch_content
          issues).1

  -- The sources of an item without URIs.
  pub item_sources-nil : (length item.uris == 0) ≡ true → item_sources ≡ []
  unfolding iterate_blob_sources uri_steps
  item_sources-nil h = rw (length-nil item.uris h) refl

  -- The first source that settles the claim brings attributable bytes that do not satisfy the hashes.
  abbrev pub IsCondemned : Type 0
  IsCondemned = (fetch_content ≡ true) × IsBlamed sha256 blake2b_256 item.hashes item_sources

  unblamed : (length item.uris == 0) ≡ true → ¬ IsBlamed sha256 blake2b_256 item.hashes item_sources
  unblamed no_uri b =
      nil-ne_append b.before b.step b.after (sym (item_sources-nil no_uri) ∙ b.split)

  unfetched : fetch_content ≡ false → verdict_after ≡ verdict_from_issues issues
  unfolding check_item_content
  unfetched off = rw off refl

  without_uris :
      fetch_content ≡ true
      → (length item.uris == 0) ≡ true
      → verdict_after ≡ verdict_from_issues issues
  unfolding check_item_content
  without_uris on no_uri = rw (on, no_uri) refl

  pub with_uris :
      fetch_content ≡ true
      → (length item.uris == 0) ≡ false
      → verdict_after
        ≡ verdict_from_issues
            (check_blobs sha256 blake2b_256 item.hashes
              (key (codes "items") ∷ index item_index ∷ [])
              item_sources
              issues).1
  unfolding check_item_content
  with_uris on some_uri = rw (on, some_uri) refl

  item_sources-mild : ((i : ℕ) (url : Text) → fetch i url ≢ denied) → All IsMildStep item_sources
  unfolding iterate_blob_sources
  item_sources-mild none_denied = uri_steps-mild fetch is_bound gateways none_denied _ item.uris 0

  -- Where no fetch meets a denied host, the check of an item's content makes the verdict `failed`
  -- exactly if it was `failed` before, or if content is fetched and the first source that settles the
  -- claim brings attributable bytes that do not satisfy the hashes. Bytes satisfy them where there is
  -- a digest, and every one is that of the bytes by SHA-256 or BLAKE2b-256.
  pub check_item_content-verdict :
      ((i : ℕ) (url : Text) → fetch i url ≢ denied)
      → (verdict_after ≡ failed) ↔ ((verdict_from_issues issues ≡ failed) ⊎ IsCondemned)
  check_item_content-verdict none_denied = elim (Bool-cases fetch_content) [
    | inr off ↦ (
      λ v. inl (sym (unfetched off) ∙ v),
      λ c. elim c [ inl v ↦ unfetched off ∙ v | inr (on, _) ↦ absurd (cc) ],
    )
    | inl on ↦ elim (Bool-cases (length item.uris == 0)) [
      | inl no_uri ↦ (
        λ v. inl (sym (without_uris on no_uri) ∙ v),
        λ c. elim c [
          | inl v ↦ without_uris on no_uri ∙ v
          | inr (_, b) ↦ absurd (unblamed no_uri b)
        ],
      )
      | inr some_uri ↦
          let same =
            check_blobs-verdict sha256 blake2b_256 item.hashes _ item_sources issues
              (item_sources-mild none_denied) in
          (
            λ v. elim (same.0 (sym (with_uris on some_uri) ∙ v)) [
              | inl w ↦ inl w
              | inr b ↦ inr (on, b)
            ],
            λ c. elim c [
              | inl w ↦ with_uris on some_uri ∙ same.1 (inl w)
              | inr (_, b) ↦ with_uris on some_uri ∙ same.1 (inr b)
            ],
          )
    ]
  ]

-- ===== src/TxBinding/Accepts.antt =====
-- Which bytes `bind_transaction_bytes` of tx_binding.py accepts.
use label_309_py.Prelude.{
  ℕ, ◌/◌, ◌%◌, ◌≡◌, ◌⊎◌, ◌↔◌, refl, sym, ap, ◌∙◌, inl, inr, Option, none, some, List, [], ◌∷◌,
  Result, ok, err, >>=-eq-ok, ok-injective, Bool-cases, arith,
}
use label_309_py.Bytes.{Bytes, bytes_eq, bytes_eq-eq, bytes_eq_self, Collision, eq_or_Collision}
use label_309_py.Walker.{WalkError}
use label_309_py.Transaction.{auxiliary_data_hash_from_tx_body}
use label_309_py.TxBinding.{
  hex, hex_digit, lower, committed_hash, bind_auxiliary_data, bind_transaction_bytes,
}

abbrev pub digest_of : (Bytes → Bytes) → Option Bytes → Option Bytes
digest_of blake2b_256 none = none
digest_of blake2b_256 (some auxiliary_data) = some (blake2b_256 auxiliary_data)

-- The body has the requested hash, and commits to the hash of the auxiliary data, or to none where
-- there are none.
abbrev pub IsBound : (Bytes → Bytes) → List ℕ → Bytes → Option Bytes → Type 0
IsBound blake2b_256 requested tx_body auxiliary_data =
    (hex (blake2b_256 tx_body) ≡ lower requested)
    × (auxiliary_data_hash_from_tx_body tx_body ≡ ok (digest_of blake2b_256 auxiliary_data))

module _ (blake2b_256 : Bytes → Bytes) where
  bind_auxiliary_data-eq-ok :
      (auxiliary_data committed : Option Bytes)
      → bind_auxiliary_data blake2b_256 auxiliary_data committed ≡ ok tt
      → committed ≡ digest_of blake2b_256 auxiliary_data
  unfolding bind_auxiliary_data
  bind_auxiliary_data-eq-ok none none e = refl
  bind_auxiliary_data-eq-ok none (some c) e = absurd (cc)
  bind_auxiliary_data-eq-ok (some a) none e = absurd (cc)
  bind_auxiliary_data-eq-ok (some a) (some c) e = elim (Bool-cases (bytes_eq (blake2b_256 a) c)) [
    | inl same ↦ ap some (sym (bytes_eq-eq _ _ same))
    | inr other ↦ absurd (let refused = rw other at e in cc)
  ]

  bind_auxiliary_data-digest_of :
      (auxiliary_data : Option Bytes)
      → bind_auxiliary_data blake2b_256 auxiliary_data (digest_of blake2b_256 auxiliary_data)
        ≡ ok tt
  unfolding bind_auxiliary_data
  bind_auxiliary_data-digest_of none = refl
  bind_auxiliary_data-digest_of (some a) = rw (bytes_eq_self (blake2b_256 a)) refl

hex_digit-injective : (d e : ℕ) → hex_digit d ≡ hex_digit e → d ≡ e
unfolding hex_digit
hex_digit-injective d e h = ground arith

hex-injective : (xs ys : Bytes) → hex xs ≡ hex ys → xs ≡ ys
unfolding hex
hex-injective [] [] h = refl
hex-injective [] (y ∷ ys) h = cc
hex-injective (x ∷ xs) [] h = cc
hex-injective (x ∷ xs) (y ∷ ys) h =
    let high = hex_digit-injective (x / 16) (y / 16) (cc) in
    let low = hex_digit-injective (x % 16) (y % 16) (cc) in
    let first : x ≡ y = omega (arith, high, low) in
    let rest = hex-injective xs ys (cc) in rw (first, rest) refl

committed_hash-eq-ok :
    (answer : Result WalkError (Option Bytes)) (committed : Option Bytes)
    → committed_hash answer ≡ ok committed
    → answer ≡ ok committed
unfolding committed_hash
committed_hash-eq-ok (ok c) committed e = ap ok (ok-injective _ e)
committed_hash-eq-ok (err c) committed e = absurd (cc)

module _ (blake2b_256 : Bytes → Bytes) (requested : List ℕ) (tx_body : Bytes)
    (auxiliary_data : Option Bytes) where
  -- Transaction bytes are accepted exactly when the body has the requested hash in either case of
  -- its digits, and commits to the hash of the auxiliary data, or to none where there are none.
  pub bind_transaction_bytes-eq-ok_iff :
      (bind_transaction_bytes blake2b_256 requested tx_body auxiliary_data ≡ ok tt)
      ↔ IsBound blake2b_256 requested tx_body auxiliary_data
  unfolding bind_transaction_bytes committed_hash
  bind_transaction_bytes-eq-ok_iff = (
    λ e. elim (Bool-cases (bytes_eq (hex (blake2b_256 tx_body)) (lower requested))) [
      | inr other ↦ absurd (let refused = rw other at e in cc)
      | inl same ↦
          let (committed, answer, bound) =
            >>=-eq-ok (committed_hash (auxiliary_data_hash_from_tx_body tx_body)) _
              (rw same at e) in
          (
            bytes_eq-eq _ _ same,
            committed_hash-eq-ok _ committed answer
                ∙ ap ok (bind_auxiliary_data-eq-ok blake2b_256 auxiliary_data committed bound),
          )
    ],
    λ (hash, commits).
        rw (hash, bytes_eq_self (lower requested), commits)
          (bind_auxiliary_data-digest_of blake2b_256 auxiliary_data),
  )

digest_of-eq :
    (blake2b_256 : Bytes → Bytes) (a b : Option Bytes)
    → digest_of blake2b_256 a ≡ digest_of blake2b_256 b
    → (a ≡ b) ⊎ Collision blake2b_256
digest_of-eq blake2b_256 none none e = inl refl
digest_of-eq blake2b_256 none (some y) e = absurd (cc)
digest_of-eq blake2b_256 (some x) none e = absurd (cc)
digest_of-eq blake2b_256 (some x) (some y) e = elim (eq_or_Collision blake2b_256 x y (cc)) [
  | inl same ↦ inl (ap some same)
  | inr collision ↦ inr collision
]

-- Two responses that are accepted for one requested hash have the same body and the same auxiliary
-- data, unless two inputs with one BLAKE2b-256 digest are at hand.
pub bind_transaction_bytes_unique :
    (blake2b_256 : Bytes → Bytes) (requested : List ℕ) (body₁ body₂ : Bytes)
    (aux₁ aux₂ : Option Bytes)
    → bind_transaction_bytes blake2b_256 requested body₁ aux₁ ≡ ok tt
    → bind_transaction_bytes blake2b_256 requested body₂ aux₂ ≡ ok tt
    → ((body₁ ≡ body₂) × (aux₁ ≡ aux₂)) ⊎ Collision blake2b_256
bind_transaction_bytes_unique blake2b_256 requested body₁ body₂ aux₁ aux₂ first second =
    let (hash₁, commits₁) =
      (bind_transaction_bytes-eq-ok_iff blake2b_256 requested body₁ aux₁).0 first in
    let (hash₂, commits₂) =
      (bind_transaction_bytes-eq-ok_iff blake2b_256 requested body₂ aux₂).0 second in
    elim (eq_or_Collision blake2b_256 body₁ body₂ (hex-injective _ _ (hash₁ ∙ sym hash₂))) [
      | inr collision ↦ inr collision
      | inl same ↦
          let digests = sym commits₁ ∙ ap auxiliary_data_hash_from_tx_body same ∙ commits₂ in
          elim (digest_of-eq blake2b_256 aux₁ aux₂ (ok-injective _ digests)) [
            | inr collision ↦ inr collision
            | inl equal ↦ inl (same, equal)
          ]
    ]

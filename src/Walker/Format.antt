-- ===== src/Walker/Format.antt =====
-- RFC 8949 items of definite length, as far as cbor_walker.py looks at them.
use label_309_py.Prelude.{
  ℕ, zero, suc, ◌+◌, ◌*◌, ◌<◌, ◌≡◌, ◌⊎◌, Bool, true, false, [], ◌∷◌, ◌++◌, length, ltb,
  if◌then◌else◌, append_assoc, append-nil, subst, refl, arith,
}
use label_309_py.Bytes.{Bytes, from_bytes_big}

-- The number of bytes that follow the initial byte of a head.
abbrev pub ArgumentLength : ℕ → ℕ → Type 0
ArgumentLength ai n =
    ((ai < 24) × (n ≡ 0))
    ⊎ ((ai ≡ 24) × (n ≡ 1))
    ⊎ ((ai ≡ 25) × (n ≡ 2))
    ⊎ ((ai ≡ 26) × (n ≡ 4))
    ⊎ ((ai ≡ 27) × (n ≡ 8))

-- `head` is the head of major type `mt` and additional information `ai` with argument `v`.
pub record IsHead (head : Bytes) (mt ai v : ℕ) : Type 0 where
  pub argument : Bytes
  pub bytes : head ≡ (mt * 32 + ai) ∷ argument
  pub size : ArgumentLength ai (length argument)
  pub value : v ≡ (if ltb ai 24 then ai else from_bytes_big 0 argument)

-- The heads that are whole items: integers, and simple values and floats without the two-byte form.
abbrev pub IsPlain : ℕ → ℕ → Type 0
IsPlain mt ai = (mt ≡ 0) ⊎ (mt ≡ 1) ⊎ ((mt ≡ 7) × (¬ (ai ≡ 24)))

-- How many items an array, a map or a tag holds.
abbrev pub Holds : ℕ → ℕ → ℕ → Type 0
Holds mt v k = ((mt ≡ 4) × (k ≡ v)) ⊎ ((mt ≡ 5) × (k ≡ v * 2)) ⊎ ((mt ≡ 6) × (k ≡ 1))

-- `Items lax n x`: the bytes `x` are `n` well-formed items. Under `lax` a two-byte simple value takes
-- one more byte, as the walker reads it.
pub data Items (lax : Bool) : ℕ → Bytes → Type 0 where
  done : Items lax zero []
  plain :
      {n mt ai v : ℕ} {head rest : Bytes}
      → IsHead head mt ai v
      → IsPlain mt ai
      → Items lax n rest
      → Items lax (suc n) (head ++ rest)
  string :
      {n mt ai v : ℕ} {head rest : Bytes} (payload : Bytes)
      → IsHead head mt ai v
      → (mt ≡ 2) ⊎ (mt ≡ 3)
      → length payload ≡ v
      → Items lax n rest
      → Items lax (suc n) (head ++ (payload ++ rest))
  nested :
      {n k mt ai v : ℕ} {head rest : Bytes} (inner : Bytes)
      → IsHead head mt ai v
      → Holds mt v k
      → Items lax k inner
      → Items lax n rest
      → Items lax (suc n) (head ++ (inner ++ rest))
  long_simple :
      {n mt ai v : ℕ} {head rest : Bytes} (extra : Bytes)
      → lax ≡ true
      → IsHead head mt ai v
      → mt ≡ 7
      → ai ≡ 24
      → length extra ≡ 1
      → Items lax n rest
      → Items lax (suc n) (head ++ (extra ++ rest))

-- One well-formed item.
abbrev pub IsItem : Bytes → Type 0
IsItem x = Items false 1 x

Items-zero : {lax : Bool} {n : ℕ} {x : Bytes} → Items lax n x → n ≡ 0 → x ≡ []
Items-zero done z = refl
Items-zero (plain h form more) z = absurd (omega arith)
Items-zero (string payload h form size more) z = absurd (omega arith)
Items-zero (nested inner h form items more) z = absurd (omega arith)
Items-zero (long_simple extra l h seven long size more) z = absurd (omega arith)

-- What ends in nothing, put in front of `y`.
drop_end : (x rest y : Bytes) → rest ≡ [] → x ++ y ≡ (x ++ rest) ++ y
drop_end x rest y z = rw (z, append-nil)

drop_end_two : (x u rest y : Bytes) → rest ≡ [] → x ++ (u ++ y) ≡ (x ++ (u ++ rest)) ++ y
drop_end_two x u rest y z = rw (z, append-nil, append_assoc)

-- One item in front of items, where `m` is 1.
prepend_item :
    {lax : Bool} {m : ℕ} {x : Bytes} {n : ℕ} {y : Bytes}
    → Items lax m x
    → m ≡ 1
    → Items lax n y
    → Items lax (suc n) (x ++ y)
prepend_item done one j = absurd (omega arith)
prepend_item {lax} {n} {y} (plain {head} {rest} h form more) one j =
    subst (Items lax (suc n)) (drop_end head rest y (Items-zero more (omega arith)))
      (plain h form j)
prepend_item {lax} {n} {y} (string {head} {rest} payload h form size more) one j =
    subst (Items lax (suc n)) (drop_end_two head payload rest y (Items-zero more (omega arith)))
      (string payload h form size j)
prepend_item {lax} {n} {y} (nested {head} {rest} inner h form items more) one j =
    subst (Items lax (suc n)) (drop_end_two head inner rest y (Items-zero more (omega arith)))
      (nested inner h form items j)
prepend_item {lax} {n} {y} (long_simple {head} {rest} extra l h seven long size more) one j =
    subst (Items lax (suc n)) (drop_end_two head extra rest y (Items-zero more (omega arith)))
      (long_simple extra l h seven long size j)

pub Items-append_one :
    {lax : Bool} {x y : Bytes} {n : ℕ} → Items lax 1 x → Items lax n y → Items lax (suc n) (x ++ y)
Items-append_one i j = prepend_item i refl j

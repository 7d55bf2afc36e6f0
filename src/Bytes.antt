-- ===== src/Bytes.antt =====
-- Byte strings: Python's `bytes` as lists of numbers, its slices, and `hmac.compare_digest`, which
-- answers as `==` does.
use label_309_py.Prelude.{
  ℕ, zero, suc, ◌+◌, ◌-◌, ◌*◌, ◌/◌, ◌%◌, ◌^◌, ◌<◌, ◌≡◌, refl, ap, ◌⊎◌, inl, inr, Bool, true, false,
  ◌&&◌, List, [], ◌∷◌, ◌++◌, arith, ◌==◌, length, length-append, take, drop,
}
use native.Mathlib.Nat.{pow-suc}
use native.Mathlib.Decide.{ℕ_discrete}

abbrev pub Bytes : Type 0
Bytes = List ℕ

-- `data[a:b]`
abbrev pub slice : Bytes → ℕ → ℕ → Bytes
slice data_ a b = take (b - a) (drop a data_)

unfoldable pub bytes_eq : Bytes → Bytes → Bool
bytes_eq [] [] = true
bytes_eq (x ∷ xs) (y ∷ ys) = x == y && bytes_eq xs ys
bytes_eq [] (y ∷ ys) = false
bytes_eq (x ∷ xs) [] = false

pub bytes_eq-eq : (xs ys : Bytes) → bytes_eq xs ys ≡ true → xs ≡ ys
unfolding bytes_eq
bytes_eq-eq [] [] h = refl
bytes_eq-eq (x ∷ xs) (y ∷ ys) h = ground (arith, bytes_eq-eq xs ys)
bytes_eq-eq [] (y ∷ ys) h = cc
bytes_eq-eq (x ∷ xs) [] h = cc

pub bytes_eq_self : (xs : Bytes) → bytes_eq xs xs ≡ true
unfolding bytes_eq
bytes_eq_self [] = refl
bytes_eq_self (x ∷ xs) = ground (arith, bytes_eq_self xs)

pub bytes_eq-ne : (xs ys : Bytes) → bytes_eq xs ys ≡ false → ¬ (xs ≡ ys)
bytes_eq-ne xs ys h same = cc (bytes_eq_self ys, ap (λ (x : Bytes). bytes_eq x ys) same, h)

pub Bytes-discrete : Discrete Bytes
Bytes-discrete = hlevel ℕ_discrete

-- Two splits of one string at the same place have the same parts.
pub append-cancel : (a b c d : Bytes) → length a ≡ length c → a ++ b ≡ c ++ d → (a ≡ c) × (b ≡ d)
append-cancel [] b [] d h e = (refl, e)
append-cancel [] b (y ∷ c) d h e = absurd (omega arith)
append-cancel (x ∷ a) b [] d h e = absurd (omega arith)
append-cancel (x ∷ a) b (y ∷ c) d h e = ground (arith, append-cancel a b c d (omega arith))

-- Two different inputs with one digest.
abbrev pub Collision : (Bytes → Bytes) → Type 0
Collision hash = (x y : Bytes) × (¬ (x ≡ y)) × (hash x ≡ hash y)

pub eq_or_Collision :
    (hash : Bytes → Bytes) (x y : Bytes) → hash x ≡ hash y → (x ≡ y) ⊎ Collision hash
eq_or_Collision hash x y e = elim (Bytes-discrete x y) [ yes p ↦ inl p | no n ↦ inr (x, y, n, e) ]

-- `x.to_bytes(k, "big")`, for an `x` that fits.
unfoldable pub to_bytes_big : ℕ → ℕ → Bytes
to_bytes_big zero x = []
to_bytes_big (suc k) x = to_bytes_big k (x / 256) ++ (x % 256) ∷ []

-- `int.from_bytes(data, "big")`, after the number read so far.
unfoldable pub from_bytes_big : ℕ → Bytes → ℕ
from_bytes_big acc [] = acc
from_bytes_big acc (b ∷ bs) = from_bytes_big (acc * 256 + b) bs

pub length-to_bytes_big : (k x : ℕ) → length (to_bytes_big k x) ≡ k
unfolding to_bytes_big
length-to_bytes_big zero x = refl
length-to_bytes_big (suc k) x = omega (
  arith,
  length-append (to_bytes_big k (x / 256)) ((x % 256) ∷ []),
  length-to_bytes_big k (x / 256),
)

from_bytes_big-append :
    (acc : ℕ) (bs : Bytes) (b : ℕ)
    → from_bytes_big acc (bs ++ b ∷ []) ≡ from_bytes_big acc bs * 256 + b
unfolding from_bytes_big
from_bytes_big-append acc [] b = refl
from_bytes_big-append acc (c ∷ bs) b = from_bytes_big-append (acc * 256 + c) bs b

pub from_bytes_big-to_bytes_big : (k x : ℕ) → x < 256 ^ k → from_bytes_big 0 (to_bytes_big k x) ≡ x
unfolding to_bytes_big
from_bytes_big-to_bytes_big zero x h = unfold from_bytes_big in omega arith
from_bytes_big-to_bytes_big (suc k) x h = omega (
  arith,
  from_bytes_big-append 0 (to_bytes_big k (x / 256)) (x % 256),
  from_bytes_big-to_bytes_big k (x / 256) (omega (arith, pow-suc 256 k)),
)

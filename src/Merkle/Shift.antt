-- ===== src/Merkle/Shift.antt =====
-- Powers of two, shifts, and the split point `_largest_pow2_lt` of merkle_sha2_256.py.
use label_309_py.Prelude.{
  ℕ, zero, suc, ◌+◌, ◌-◌, ◌*◌, ◌/◌, ◌%◌, ◌^◌, ◌≤◌, ◌<◌, ◌≡◌, refl, ap, ◌∙◌, ◌⊎◌, inl, inr, ok, ltb,
  ltb→lt, ltb→le, ◌==◌, arith, Bool-cases, le→ltb, eq→==, ne→==, not, ◌&&◌,
}
use label_309_py.Merkle.{bit_length_upto, bit_length, largest_pow2_lt, climb}
use native.Mathlib.Nat.{two-pow-succ, one-le-pow, pow-le-pow_right}

pub pow2_suc : (j : ℕ) → 2 ^ suc j ≡ 2 ^ j + 2 ^ j
pow2_suc j = two-pow-succ j

pub pow2_pos : (j : ℕ) → 1 ≤ 2 ^ j
pow2_pos j = one-le-pow j 2 (omega arith)

-- `x >> j`
unfoldable pub shift : ℕ → ℕ → ℕ
shift zero x = x
shift (suc j) x = shift j x / 2

pub shift-le : (j b x : ℕ) → 2 ^ j * b ≤ x → b ≤ shift j x
unfolding shift
shift-le zero b x h = omega arith
shift-le (suc j) b x h =
    omega (arith, shift-le j (2 * b) x (omega (arith, ap (λ (t : ℕ). t * b) (pow2_suc j))))

pub shift-lt : (j b x : ℕ) → x < 2 ^ j * b → shift j x < b
unfolding shift
shift-lt zero b x h = omega arith
shift-lt (suc j) b x h =
    omega (arith, shift-lt j (2 * b) x (omega (arith, ap (λ (t : ℕ). t * b) (pow2_suc j))))

-- The size of a tree with `t` levels above its leaves.
abbrev pub IsLevel : ℕ → ℕ → Type 0
IsLevel zero n = n ≡ 1
IsLevel (suc t) n = (2 ^ t < n) × (n ≤ 2 ^ suc t)

pub lt-pow2 : (j : ℕ) → j < 2 ^ j
lt-pow2 zero = omega arith
lt-pow2 (suc j) = omega (arith, lt-pow2 j, pow2_suc j)

bit_length_upto-zero : (f : ℕ) → bit_length_upto f 0 ≡ 0
unfolding bit_length_upto
bit_length_upto-zero zero = refl
bit_length_upto-zero (suc f) = refl

bit_length_upto-eq : (f m j : ℕ) → j < f → 2 ^ j ≤ m → m < 2 ^ suc j → bit_length_upto f m ≡ suc j
unfolding bit_length_upto
bit_length_upto-eq zero m j h lo hi = absurd (omega arith)
bit_length_upto-eq (suc f) m zero h lo hi =
    let one : m ≡ 1 = omega (arith) in rw one (ap suc (bit_length_upto-zero f))
bit_length_upto-eq (suc f) m (suc j) h lo hi =
    ground (arith, pow2_suc j, pow2_suc (suc j), pow2_pos j, bit_length_upto-eq f (m / 2) j)

-- The split point is the power of two that the level of the tree names.
pub largest_pow2_lt-level : (j n : ℕ) → IsLevel (suc j) n → largest_pow2_lt n ≡ ok (2 ^ j)
unfolding largest_pow2_lt bit_length
largest_pow2_lt-level j n (lo, hi) =
    let big =
      bit_length_upto-eq (n - 1) (n - 1) j (omega (arith, lt-pow2 j)) (omega arith)
        (omega (arith, pow2_pos (suc j))) in
    let size = le→ltb n 2 (omega (arith, pow2_pos j)) in
    rw (size, big) (let e : suc j - 1 ≡ j = omega arith in rw e)

pub IsLevel-of : (j n : ℕ) → 1 ≤ n → n ≤ 2 ^ j → (t : ℕ) × (t ≤ j) × IsLevel t n
IsLevel-of zero n lo hi = (0, omega arith, omega arith)
IsLevel-of (suc j) n lo hi = elim (Bool-cases (ltb (2 ^ j) n)) [
  | inl big ↦ (suc j, omega arith, (ltb→lt (2 ^ j) n big, hi))
  | inr small ↦
      let (t, le, level) = IsLevel-of j n lo (ltb→le (2 ^ j) n small) in (t, omega arith, level)
]

pow2-not-between : (t j n : ℕ) → n ≤ 2 ^ suc t → 2 ^ j < n → ¬ (t < j)
pow2-not-between t j n hi lo h = absurd (omega (arith, pow-le-pow_right {n = 2} (omega arith) h))

-- A tree has one level.
pub IsLevel-unique : (t j n : ℕ) → IsLevel t n → 2 ^ j < n → n ≤ 2 ^ suc j → t ≡ suc j
IsLevel-unique zero j n level lo hi = absurd (omega (arith, pow2_pos j))
IsLevel-unique (suc t) j n (low, high) lo hi =
    omega (arith, pow2-not-between t j n high lo, pow2-not-between j t n hi low)

half_double : (x : ℕ) → 2 * x / 2 ≡ x
half_double x = omega arith

pub pow2-mul_pos : (s c : ℕ) → 1 ≤ c → 1 ≤ 2 ^ s * c
pow2-mul_pos s c h = grind (arith, pow2_pos s)

climb_even : (f x : ℕ) → 1 ≤ x → climb (suc f) (2 * x) (2 * x) ≡ climb f x x
unfolding climb
climb_even f x h =
    rw (eq→== (2 * x % 2) 0 (omega arith), ne→== (2 * x) 0 (λ e. omega arith), half_double x)

-- The inner loop stops at the odd part.
pub climb-odd : (s f c : ℕ) → s ≤ f → c % 2 ≡ 1 → climb f (2 ^ s * c) (2 ^ s * c) ≡ (c, c)
unfolding climb
climb-odd zero zero c h odd = ground arith
climb-odd zero (suc f) c h odd = ground arith
climb-odd (suc s) zero c h odd = absurd (omega arith)
climb-odd (suc s) (suc f) c h odd =
    let double : 2 ^ suc s * c ≡ 2 * (2 ^ s * c) =
      omega (arith, ap (λ (t : ℕ). t * c) (pow2_suc s)) in
    rw double (
      climb_even f (2 ^ s * c) (pow2-mul_pos s c (omega arith)) ∙ climb-odd s f c (omega arith) odd)

-- The fuel of the inner loop is enough: it ends by its own test.
pub climb-stops : (f fn sn : ℕ) → fn ≤ f → ((climb f fn sn).0 % 2 ≡ 1) ⊎ ((climb f fn sn).0 ≡ 0)
unfolding climb
climb-stops zero fn sn h = inr (omega arith)
climb-stops (suc f) fn sn h = elim (Bool-cases (fn % 2 == 0 && not (fn == 0))) [
  | inl more ↦ rw more (climb-stops f (fn / 2) (sn / 2) (ground arith))
  | inr done ↦ rw done (ground arith)
]

pub climb-odd_stays : (f c y : ℕ) → c % 2 ≡ 1 → climb f c y ≡ (c, y)
unfolding climb
climb-odd_stays zero c y odd = refl
climb-odd_stays (suc f) c y odd = ground arith

pub le-pow2_mul : (t c : ℕ) → 1 ≤ c → t ≤ 2 ^ t * c
le-pow2_mul t c h = grind (arith, lt-pow2 t)

pub pow2-mul : (t s c : ℕ) → 2 ^ t * (2 ^ s * c) ≡ 2 ^ (t + s) * c
pow2-mul zero s c = let e : zero + s ≡ s = omega arith in rw e (omega arith)
pow2-mul (suc t) s c =
    let e : suc t + s ≡ suc (t + s) = omega arith in
    rw e (
      omega (
        arith,
        ap (λ (x : ℕ). x * (2 ^ s * c)) (pow2_suc t),
        ap (λ (x : ℕ). x * c) (pow2_suc (t + s)),
        pow2-mul t s c,
      ))

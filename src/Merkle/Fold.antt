-- ===== src/Merkle/Fold.antt =====
-- The verification fold of merkle_sha2_256.py on an honest audit path.
use label_309_py.Prelude.{
  ℕ, Bool, zero, suc, ◌+◌, ◌-◌, ◌*◌, ◌/◌, ◌%◌, ◌^◌, ◌≤◌, ◌<◌, ◌≡◌, refl, ap, ◌∙◌, true, false, List,
  [], ◌∷◌, ◌++◌, append_assoc, arith, length, length-append, eq→==, ne→==, ◌==◌, ◌||◌,
}
use label_309_py.Bytes.{Bytes}
use label_309_py.Merkle.{hash_leaf, hash_node, fold_proof}
use label_309_py.Merkle.Spec.{IsSplit, AuditPath, alone, on_left, on_right}
use label_309_py.Merkle.Shift.{
  pow2_suc, pow2_pos, shift, shift-le, shift-lt, IsLevel, IsLevel-of, IsLevel-unique, climb-odd,
  climb-odd_stays, pow2-mul_pos, pow2-mul, le-pow2_mul,
}

or-true : (b : Bool) → (b || true) ≡ true
or-true true = refl
or-true false = refl

split-ne-one :
    {k : ℕ} {leaves left right : List Bytes}
    → IsSplit k leaves left right
    → ¬ (length leaves ≡ 2 ^ 0)
split-ne-one {k} {left} {right} split size =
    omega (arith, ap length split.parts, length-append left right, pow2_pos k)

pub split-IsLevel :
    {k : ℕ} {leaves left right : List Bytes}
    → IsSplit k leaves left right
    → IsLevel (suc k) (length leaves)
split-IsLevel {k} {left} {right} split =
    let total = ap length split.parts ∙ length-append left right in
    (omega arith, omega (arith, pow2_suc k))

-- The two halves of a full tree.
split-halves :
    {k : ℕ} {leaves left right : List Bytes} (j : ℕ)
    → IsSplit k leaves left right
    → length leaves ≡ 2 ^ suc j
    → (length left ≡ 2 ^ j) × (length right ≡ 2 ^ j)
split-halves {k} {left} {right} j split size =
    let total = ap length split.parts ∙ length-append left right in
    let same =
      IsLevel-unique (suc k) j _ (split-IsLevel split) (omega (arith, pow2_suc j, pow2_pos j))
        (omega arith) in
    let power = ap (λ (t : ℕ). 2 ^ t) same in
    (omega (arith, pow2_suc k, pow2_suc j), omega (arith, pow2_suc k, pow2_suc j))

split-sizes :
    {k : ℕ} {leaves left right : List Bytes} (t : ℕ)
    → IsSplit k leaves left right
    → IsLevel (suc t) (length leaves)
    → (length left ≡ 2 ^ t) × (length right ≤ 2 ^ t)
split-sizes {k} t split level =
    let same = IsLevel-unique (suc k) t _ (split-IsLevel split) level.0 level.1 in
    let power = ap (λ (x : ℕ). 2 ^ x) same in
    (omega (arith, pow2_suc k, pow2_suc t), omega (arith, pow2_suc k, pow2_suc t))

module _ (sha256 : Bytes → Bytes) where
  fold_left_step :
      (a sn : ℕ) (r s : Bytes) (proof : List Bytes)
      → 2 * a < sn
      → fold_proof sha256 (2 * a) sn r (s ∷ proof)
        ≡ fold_proof sha256 a (sn / 2) (hash_node sha256 r s) proof
  unfolding fold_proof
  fold_left_step a sn r s proof h =
      let half : 2 * a / 2 ≡ a = omega arith in
      rw (
        ne→== sn 0 (λ e. omega arith),
        ne→== (2 * a % 2) 1 (λ e. omega arith),
        ne→== (2 * a) sn (λ e. omega arith),
        half,
      )

  fold_right_step :
      (a sn : ℕ) (r s : Bytes) (proof : List Bytes)
      → 0 < sn
      → fold_proof sha256 (2 * a + 1) sn r (s ∷ proof)
        ≡ fold_proof sha256 a (sn / 2) (hash_node sha256 s r) proof
  unfolding fold_proof
  fold_right_step a sn r s proof h =
      let half : (2 * a + 1) / 2 ≡ a = omega arith in
      rw (
        ne→== sn 0 (λ e. omega arith),
        eq→== ((2 * a + 1) % 2) 1 (omega arith),
        climb-odd_stays (2 * a + 1) (2 * a + 1) sn (omega arith),
        half,
      )

  fold_edge_step :
      (t a : ℕ) (r s : Bytes) (proof : List Bytes)
      → let end = 2 ^ t * (2 * a + 1) in
        fold_proof sha256 end end r (s ∷ proof) ≡ fold_proof sha256 a a (hash_node sha256 s r) proof
  unfolding fold_proof
  fold_edge_step t a r s proof =
      let half : (2 * a + 1) / 2 ≡ a = omega arith in
      let end = 2 ^ t * (2 * a + 1) in
      rw (
        ne→== end 0 (λ e. omega (arith, pow2-mul_pos t (2 * a + 1) (omega arith))),
        eq→== end end refl,
        or-true (end % 2 == 1),
        climb-odd t end (2 * a + 1) (le-pow2_mul t (2 * a + 1) (omega arith)) (omega arith),
        half,
      )

  -- Inside a larger tree: the siblings of a full subtree of `2 ^ j` leaves, the `a`-th of its size,
  -- fold to its hash, and the counters to its position.
  fold-full :
      {leaves path : List Bytes} {i : ℕ} {d h : Bytes}
      → AuditPath sha256 leaves i d path h
      → (j a sn : ℕ) (rest : List Bytes) → length leaves ≡ 2 ^ j
      → 2 ^ j * (a + 1) ≤ sn
      → fold_proof sha256 (2 ^ j * a + i) sn (hash_leaf sha256 d) (path ++ rest)
        ≡ fold_proof sha256 a (shift j sn) h rest
  unfolding shift
  fold-full {i} (alone d z) zero a sn rest size fits =
      let start : 2 ^ 0 * a + i ≡ a = omega arith in rw start
  fold-full (alone d z) (suc j) a sn rest size fits = absurd (omega (arith, pow2_suc j, pow2_pos j))
  fold-full (on_left k split p q) zero a sn rest size fits = absurd (split-ne-one split size)
  fold-full (on_left {path} {i} {hl} {hr} k split p q) (suc j) a sn rest size fits =
      let (left_size, right_size) = split-halves j split size in
      let start : 2 ^ suc j * a + i ≡ 2 ^ j * (2 * a) + i =
        omega (arith, ap (λ (t : ℕ). t * a) (pow2_suc j)) in
      let room : 2 ^ j * (2 * a + 2) ≤ sn =
        omega (arith, ap (λ (t : ℕ). t * (a + 1)) (pow2_suc j)) in
      rw (start, append_assoc path (hr ∷ []) rest)
        (fold-full p j (2 * a) sn (hr ∷ rest) left_size (omega (arith, pow2_pos j))
          ∙ fold_left_step a (shift j sn) hl hr rest
              (omega (arith, shift-le j (2 * a + 2) sn room)))
  fold-full (on_right k split z q p) zero a sn rest size fits = absurd (split-ne-one split size)
  fold-full {i = position} (on_right {path} {i} {hl} {hr} k split z q p) (suc j) a sn rest size
        fits =
      let (left_size, right_size) = split-halves j split size in
      let start : 2 ^ suc j * a + position ≡ 2 ^ j * (2 * a + 1) + i =
        omega (arith, ap (λ (t : ℕ). t * a) (pow2_suc j), split.left_full) in
      let room : 2 ^ j * (2 * a + 2) ≤ sn =
        omega (arith, ap (λ (t : ℕ). t * (a + 1)) (pow2_suc j)) in
      rw (start, append_assoc path (hl ∷ []) rest)
        (fold-full p j (2 * a + 1) sn (hl ∷ rest) right_size (omega arith)
          ∙ fold_right_step a (shift j sn) hr hl rest
              (omega (arith, shift-le j (2 * a + 2) sn room)))

  -- At the right edge of a larger tree: both counters end at the position of the part.
  pub fold-edge :
      {leaves path : List Bytes} {i : ℕ} {d h : Bytes}
      → AuditPath sha256 leaves i d path h
      → (t a : ℕ) (rest : List Bytes) → IsLevel t (length leaves)
      → fold_proof sha256
          (2 ^ t * a + i)
          (2 ^ t * a + (length leaves - 1))
          (hash_leaf sha256 d)
          (path ++ rest)
        ≡ fold_proof sha256 a a h rest
  fold-edge {i} (alone d z) zero a rest level =
      let index : 2 ^ 0 * a + i ≡ a = omega arith in
      let last : 2 ^ 0 * a + (1 - 1) ≡ a = omega arith in rw (index, last)
  fold-edge (alone d z) (suc t) a rest level = absurd (omega (arith, pow2_pos t))
  fold-edge (on_left k split p q) zero a rest level = absurd (split-ne-one split level)
  fold-edge {leaves} {i} (on_left {path} {hl} {hr} k split p q) (suc t) a rest level =
      let (left_size, right_size) = split-sizes t split level in
      let last = 2 ^ suc t * a + (length leaves - 1) in
      let double = ap (λ (x : ℕ). x * a) (pow2_suc t) in
      let start : 2 ^ suc t * a + i ≡ 2 ^ t * (2 * a) + i = omega arith in
      let from : 2 ^ t * (2 * a + 1) ≤ last = omega arith in
      let upto : last < 2 ^ t * (2 * a + 2) = omega (arith, level.1, pow2_suc t) in
      let here = shift-le t (2 * a + 1) last from in
      let half : shift t last / 2 ≡ a = omega (arith, shift-lt t (2 * a + 2) last upto) in
      rw (start, append_assoc path (hr ∷ []) rest)
        (fold-full p t (2 * a) last (hr ∷ rest) left_size from
          ∙ fold_left_step a (shift t last) hl hr rest (omega arith)
          ∙ rw half)
  fold-edge (on_right k split z q p) zero a rest level = absurd (split-ne-one split level)
  fold-edge {leaves} {i = position} (on_right {left} {right} {path} {i} {hl} {hr} k split z q p)
        (suc t) a rest level =
      let (left_size, right_size) = split-sizes t split level in
      let (u, below, sub_level) = IsLevel-of t (length right) split.right_some right_size in
      let s = t - u in
      let b = 2 ^ s * (2 * a + 1) in
      let sum : u + (t - u) ≡ t = omega arith in
      let block : 2 ^ u * b ≡ 2 ^ t * (2 * a + 1) = pow2-mul u s (2 * a + 1) ∙ rw sum in
      let double = ap (λ (x : ℕ). x * a) (pow2_suc t) in
      let start : 2 ^ suc t * a + position ≡ 2 ^ u * b + i =
        omega (arith, split.left_full, left_size, z) in
      let last : 2 ^ suc t * a + (length leaves - 1) ≡ 2 ^ u * b + (length right - 1) =
        omega
          (arith, ap length split.parts, length-append left right, left_size, split.right_some) in
      rw (start, last, append_assoc path (hl ∷ []) rest)
        (fold-edge p u b (hl ∷ rest) sub_level ∙ fold_edge_step s a hr hl rest)

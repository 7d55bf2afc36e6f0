-- ===== src/Carriage/Canonical.antt =====
-- The shortest head of RFC 8949 section 4.2.1, and `_read_strict_head` of carriage.py on it.
use label_309_py.Prelude.{
  ℕ, suc, ◌+◌, ◌*◌, ◌/◌, ◌%◌, ◌^◌, ◌≤◌, ◌<◌, ◌≡◌, refl, some, [], ◌∷◌, leb, if◌then◌else◌, length,
  arith, le→ltb, lt→ltb, lt→leb, leb→lt, leb→le, Bool-cases, inl, inr, get_or,
}
use label_309_py.Bytes.{Bytes, to_bytes_big, length-to_bytes_big, from_bytes_big-to_bytes_big}
use label_309_py.Walker.Position.{At, At-left, At-right, At-length, At-slice, At-get_or}
use label_309_py.Carriage.{strict_argument, read_strict_head}

-- The head of major type `mt` with argument `n` below 2^64 in its shortest form.
unfoldable pub canonical_head : ℕ → ℕ → Bytes
canonical_head mt n =
    if leb n 23
    then (mt * 32 + n) ∷ []
    else if leb n 0xFF
    then (mt * 32 + 24) ∷ to_bytes_big 1 n
    else if leb n 0xFFFF
    then (mt * 32 + 25) ∷ to_bytes_big 2 n
    else if leb n 0xFFFF_FFFF
    then (mt * 32 + 26) ∷ to_bytes_big 4 n
    else (mt * 32 + 27) ∷ to_bytes_big 8 n

pub length-canonical_head : (mt n : ℕ) → 1 ≤ length (canonical_head mt n)
unfolding canonical_head
length-canonical_head mt n = ground arith

module _ {data_ : Bytes} {pos : ℕ} (mt n : ℕ) where
  strict_argument-At :
      (k limit : ℕ)
      → 1 ≤ k
      → At data_ pos (to_bytes_big k n)
      → n < 256 ^ k
      → limit < n
      → strict_argument data_ mt pos k limit
        ≡ some (record { mt = mt; value = n; payload_start = pos + k })
  unfolding strict_argument
  strict_argument-At k limit some_byte a small large =
      let size = length-to_bytes_big k n in
      let fits = At-length (to_bytes_big k n) a (omega arith) in
      rw (
        le→ltb (length data_) (pos + k) (omega arith),
        At-slice k a (omega arith),
        from_bytes_big-to_bytes_big k n small,
        lt→leb n limit large,
      )

module _ {data_ : Bytes} {pos : ℕ} (mt n : ℕ) where
  -- A first byte with argument size `ai` selects the reader of an argument of `k` bytes.
  strict_argument-At_next :
      (ai k limit : ℕ)
      → 1 ≤ k
      → At data_ pos ((mt * 32 + ai) ∷ to_bytes_big k n)
      → n < 256 ^ k
      → limit < n
      → strict_argument data_ mt (pos + 1) k limit
        ≡ some
            (record { mt = mt; value = n; payload_start = pos + suc (length (to_bytes_big k n)) })
  strict_argument-At_next ai k limit some_byte a small large =
      let e : pos + suc (length (to_bytes_big k n)) ≡ pos + 1 + k =
        omega (arith, length-to_bytes_big k n) in
      rw e (
        strict_argument-At mt n k limit some_byte
          (At-right ((mt * 32 + ai) ∷ []) (to_bytes_big k n) a) small large)

  read_strict_head-first :
      (ai : ℕ) (argument : Bytes)
      → ai < 28
      → At data_ pos ((mt * 32 + ai) ∷ argument)
      → (get_or data_ pos 0 / 32 ≡ mt) × ((get_or data_ pos 0 % 32 ≡ ai) × (pos < length data_))
  read_strict_head-first ai argument hi a =
      let first = At-left ((mt * 32 + ai) ∷ []) argument a in
      let byte = At-get_or first in
      let inside = At-length ((mt * 32 + ai) ∷ []) first (omega arith) in
      (rw byte (omega arith), (rw byte (omega arith), omega (arith, inside)))

  -- The shortest head of a number below 2^64 is read back.
  pub read_strict_head-At :
      At data_ pos (canonical_head mt n)
      → n < 2 ^ 64
      → read_strict_head data_ pos
        ≡ some (record { mt = mt; value = n; payload_start = pos + length (canonical_head mt n) })
  unfolding canonical_head read_strict_head
  read_strict_head-At a small = elim (Bool-cases (leb n 23)) [
    | inl direct ↦
        let a' = rw direct at a in
        let le = leb→le n 23 direct in
        let (type_, (info, inside)) = read_strict_head-first n [] (omega arith) a' in
        rw (direct, type_, info, lt→leb (length data_) pos inside, lt→ltb n 24 (omega arith)) refl
    | inr d24 ↦ elim (Bool-cases (leb n 0xFF)) [
      | inl one ↦
          let a' = rw (d24, one) at a in
          let (type_, (info, inside)) =
            read_strict_head-first 24 (to_bytes_big 1 n) (omega arith) a' in
          rw (d24, one, type_, info, lt→leb (length data_) pos inside)
            (strict_argument-At_next 24 1 23 (omega arith) a' (omega (arith, leb→le n 0xFF one))
              (leb→lt n 23 d24))
      | inr d25 ↦ elim (Bool-cases (leb n 0xFFFF)) [
        | inl two ↦
            let a' = rw (d24, d25, two) at a in
            let (type_, (info, inside)) =
              read_strict_head-first 25 (to_bytes_big 2 n) (omega arith) a' in
            rw (d24, d25, two, type_, info, lt→leb (length data_) pos inside)
              (strict_argument-At_next 25 2 0xFF (omega arith) a'
                (omega (arith, leb→le n 0xFFFF two)) (leb→lt n 0xFF d25))
        | inr d26 ↦ elim (Bool-cases (leb n 0xFFFF_FFFF)) [
          | inl four ↦
              let a' = rw (d24, d25, d26, four) at a in
              let (type_, (info, inside)) =
                read_strict_head-first 26 (to_bytes_big 4 n) (omega arith) a' in
              rw (d24, d25, d26, four, type_, info, lt→leb (length data_) pos inside)
                (strict_argument-At_next 26 4 0xFFFF (omega arith) a'
                  (omega (arith, leb→le n 0xFFFF_FFFF four)) (leb→lt n 0xFFFF d26))
          | inr d27 ↦
              let a' = rw (d24, d25, d26, d27) at a in
              let (type_, (info, inside)) =
                read_strict_head-first 27 (to_bytes_big 8 n) (omega arith) a' in
              rw (d24, d25, d26, d27, type_, info, lt→leb (length data_) pos inside)
                (strict_argument-At_next 27 8 0xFFFF_FFFF (omega arith) a' (omega arith)
                  (leb→lt n 0xFFFF_FFFF d27))
        ]
      ]
    ]
  ]

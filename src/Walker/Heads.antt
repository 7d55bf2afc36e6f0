-- ===== src/Walker/Heads.antt =====
-- `_read_head` of cbor_walker.py reads exactly the heads of RFC 8949.
use label_309_py.Prelude.{
  ℕ, ◌+◌, ◌*◌, ◌/◌, ◌%◌, ◌<◌, ◌≤◌, ◌≡◌, refl, ap, inl, inr, [], ◌∷◌, length, ltb, leb, ◌==◌, arith,
  get_or, ok, lt→ltb, le→ltb, lt→leb, Bool-cases, ltb→lt, ltb→le, ok-injective, leb→lt, ==→eq,
}
use label_309_py.Bytes.{Bytes, slice, from_bytes_big}
use label_309_py.Walker.{CborHead, read_argument, read_head}
use label_309_py.Walker.Position.{
  At, At-left, At-right, At-append, At-length, At-slice, At-get_or, slice-At, byte-At,
}
use label_309_py.Walker.Format.{IsHead, ArgumentLength}

IsHead-ai : {head : Bytes} {mt ai v : ℕ} → IsHead head mt ai v → ai < 28
IsHead-ai h = ground arith

read_argument-At :
    {data_ argument : Bytes} {p : ℕ} (mt ai n : ℕ)
    → At data_ p argument
    → n ≡ length argument
    → 1 ≤ n
    → read_argument data_ mt ai p n
      ≡ ok (record {
        mt = mt;
        ai = ai;
        payload_start = p + n;
        value_u64 = from_bytes_big 0 argument;
      })
unfolding read_argument
read_argument-At {data_} {argument} {p} mt ai n a h some_byte = rw (
  le→ltb (length data_) (p + n) (omega (arith, At-length argument a (omega arith))),
  At-slice n a h,
)

-- A head that stands at a position is read from there.
pub read_head-At :
    {data_ head : Bytes} {pos mt ai v : ℕ}
    → IsHead head mt ai v
    → At data_ pos head
    → read_head data_ pos
      ≡ ok (record { mt = mt; ai = ai; payload_start = pos + length head; value_u64 = v })
unfolding read_head
read_head-At {data_} {head} {pos} {mt} {ai} {v} h a =
    let a' = rw h.bytes at a in
    let first = At-left ((mt * 32 + ai) ∷ []) h.argument a' in
    let argument = At-right ((mt * 32 + ai) ∷ []) h.argument a' in
    let byte = At-get_or first in
    let inside = At-length ((mt * 32 + ai) ∷ []) first (omega arith) in
    let type_ : (mt * 32 + ai) / 32 ≡ mt = omega (arith, IsHead-ai h) in
    let info : (mt * 32 + ai) % 32 ≡ ai = omega (arith, IsHead-ai h) in
    let size = ap length h.bytes in
    let value = h.value in
    rw (byte, type_, info, lt→leb (length data_) pos (omega arith))
      (elim h.size [
        | inl (small, z) ↦ ground arith
        | inr (inl (form, n)) ↦ ground (arith, read_argument-At mt ai 1 argument)
        | inr (inr (inl (form, n))) ↦ ground (arith, read_argument-At mt ai 2 argument)
        | inr (inr (inr (inl (form, n)))) ↦ ground (arith, read_argument-At mt ai 4 argument)
        | inr (inr (inr (inr (form, n)))) ↦ ground (arith, read_argument-At mt ai 8 argument)
      ])

-- What reading a head at `pos` to `h` says of the bytes.
pub record HeadRead (data_ : Bytes) (pos : ℕ) (h : CborHead) : Type 0 where
  pub head : Bytes
  pub is_head : IsHead head h.mt h.ai h.value_u64
  pub at : At data_ pos head
  pub ends : h.payload_start ≡ pos + length head

module _ (data_ : Bytes) (pos : ℕ) (inside : pos < length data_) where
  HeadRead-short :
      (h : CborHead)
      → get_or data_ pos 0 % 32 < 24
      → record {
        mt = get_or data_ pos 0 / 32;
        ai = get_or data_ pos 0 % 32;
        payload_start = pos + 1;
        value_u64 = get_or data_ pos 0 % 32;
      }
        ≡ h
      → HeadRead data_ pos h
  HeadRead-short h small e = rw (← e) (record {
    head = get_or data_ pos 0 ∷ [];
    is_head = record {
      argument = [];
      bytes = ap (λ (b : ℕ). b ∷ []) (omega arith);
      size = inl (small, refl);
      value = rw (lt→ltb _ _ small);
    };
    at = byte-At data_ pos inside;
    ends = refl;
  })

  HeadRead-long :
      (h : CborHead) (n : ℕ)
      → 24 ≤ get_or data_ pos 0 % 32
      → ArgumentLength (get_or data_ pos 0 % 32) n
      → read_argument data_ (get_or data_ pos 0 / 32) (get_or data_ pos 0 % 32) (pos + 1) n ≡ ok h
      → HeadRead data_ pos h
  unfolding read_argument
  HeadRead-long h n long form e = elim (Bool-cases (ltb (length data_) (pos + 1 + n))) [
    | inl cut ↦ absurd (let refused = rw cut at e in cc)
    | inr fits ↦
        let b = get_or data_ pos 0 in
        let argument = slice data_ (pos + 1) (pos + 1 + n) in
        let (there, size) = slice-At data_ (pos + 1) n (ltb→le _ _ fits) in
        rw (← ok-injective _ (rw fits at e)) (record {
          head = b ∷ argument;
          is_head = record {
            argument = argument;
            bytes = ap (λ (x : ℕ). x ∷ argument) (omega arith);
            size = rw size form;
            value = rw (le→ltb _ _ long);
          };
          at = At-append (b ∷ []) argument (byte-At data_ pos inside) there;
          ends = omega (arith, size);
        })
  ]

-- What is read from a position is a head that stands there.
pub read_head-HeadRead :
    (data_ : Bytes) (pos : ℕ) (h : CborHead) → read_head data_ pos ≡ ok h → HeadRead data_ pos h
unfolding read_head
read_head-HeadRead data_ pos h e =
    let ai = get_or data_ pos 0 % 32 in
    elim (Bool-cases (leb (length data_) pos)) [
      | inl beyond ↦ absurd (let refused = rw beyond at e in cc)
      | inr inside ↦
          let lt = leb→lt _ _ inside in
          let long = HeadRead-long data_ pos lt h in
          elim (Bool-cases (ltb ai 24)) [
            | inl small ↦
                HeadRead-short data_ pos lt h (ltb→lt _ _ small)
                  (ok-injective _ (rw (inside, small) at e))
            | inr large ↦
                let ge = ltb→le _ _ large in
                elim (Bool-cases (ai == 24)) [
                  | inl y ↦ long 1 ge (inr (inl (==→eq _ _ y, refl))) (rw (inside, large, y) at e)
                  | inr n24 ↦ elim (Bool-cases (ai == 25)) [
                    | inl y ↦
                        long 2 ge (inr (inr (inl (==→eq _ _ y, refl))))
                          (rw (inside, large, n24, y) at e)
                    | inr n25 ↦ elim (Bool-cases (ai == 26)) [
                      | inl y ↦
                          long 4 ge (inr (inr (inr (inl (==→eq _ _ y, refl)))))
                            (rw (inside, large, n24, n25, y) at e)
                      | inr n26 ↦ elim (Bool-cases (ai == 27)) [
                        | inl y ↦
                            long 8 ge (inr (inr (inr (inr (==→eq _ _ y, refl)))))
                              (rw (inside, large, n24, n25, n26, y) at e)
                        | inr n27 ↦
                            absurd (let refused = rw (inside, large, n24, n25, n26, n27) at e in cc)
                      ]
                    ]
                  ]
                ]
          ]
    ]

-- ===== src/Walker/Position.antt =====
-- What stands at a position of a byte string, and what reads there.
use label_309_py.Prelude.{
  ℕ, zero, suc, ◌+◌, ◌-◌, ◌≤◌, ◌<◌, ◌≡◌, refl, sym, ap, ◌∙◌, [], ◌∷◌, ◌++◌, append_assoc, arith,
  length, length-append, length-drop, drop, get_or, take-append, drop-append, drop-drop,
  take-append-drop, length-take_le,
}
use label_309_py.Bytes.{Bytes, slice}

-- `x` stands at `pos`.
pub record At (data_ : Bytes) (pos : ℕ) (x : Bytes) : Type 0 where
  pub rest : Bytes
  pub here : drop pos data_ ≡ x ++ rest

module _ {data_ : Bytes} {pos : ℕ} where
  pub At-left : (x y : Bytes) → At data_ pos (x ++ y) → At data_ pos x
  At-left x y a = record { rest = y ++ a.rest; here = a.here ∙ append_assoc x y a.rest }

  pub At-right : (x y : Bytes) → At data_ pos (x ++ y) → At data_ (pos + length x) y
  At-right x y a =
      let step = ap (drop (length x)) (a.here ∙ append_assoc x y a.rest) in
      record {
        rest = a.rest;
        here =
            sym (drop-drop pos (length x) data_)
            ∙ step
            ∙ drop-append x (y ++ a.rest) (length x) refl;
      }

  pub At-append :
      (x y : Bytes) → At data_ pos x → At data_ (pos + length x) y → At data_ pos (x ++ y)
  At-append x y a b =
      let follows =
        sym (drop-append x a.rest (length x) refl)
        ∙ ap (drop (length x)) (sym a.here)
        ∙ drop-drop pos (length x) data_
        ∙ b.here in
      record {
        rest = b.rest;
        here = a.here ∙ ap (λ (l : Bytes). x ++ l) follows ∙ sym (append_assoc x y b.rest);
      }

  pub At-length : (x : Bytes) → At data_ pos x → 1 ≤ length x → pos + length x ≤ length data_
  At-length x a h = omega (arith, ap length a.here, length-append x a.rest, length-drop pos data_)

  pub At-slice : {x : Bytes} (n : ℕ) → At data_ pos x → n ≡ length x → slice data_ pos (pos + n) ≡ x
  At-slice {x} n a h =
      let e : pos + n - pos ≡ n = omega arith in rw (e, a.here) (take-append x a.rest n h)

get_or-drop : (data_ : Bytes) (pos : ℕ) → get_or data_ pos 0 ≡ get_or (drop pos data_) 0 0
get_or-drop [] zero = refl
get_or-drop [] (suc pos) = refl
get_or-drop (b ∷ bs) zero = refl
get_or-drop (b ∷ bs) (suc pos) = get_or-drop bs pos

pub At-get_or : {data_ x : Bytes} {pos b : ℕ} → At data_ pos (b ∷ x) → get_or data_ pos 0 ≡ b
At-get_or {data_} {pos} a = get_or-drop data_ pos ∙ ap (λ (l : Bytes). get_or l 0 0) a.here

-- Whatever lies within the bytes stands there.
pub slice-At :
    (data_ : Bytes) (pos n : ℕ)
    → pos + n ≤ length data_
    → At data_ pos (slice data_ pos (pos + n)) × (length (slice data_ pos (pos + n)) ≡ n)
slice-At data_ pos n h =
    let e : pos + n - pos ≡ n = omega arith in
    rw e (
      record { rest = drop n (drop pos data_); here = sym (take-append-drop n (drop pos data_)) },
      length-take_le n (drop pos data_) (omega (arith, length-drop pos data_)),
    )

drop-lt :
    (data_ : Bytes) (pos : ℕ)
    → pos < length data_
    → drop pos data_ ≡ get_or data_ pos 0 ∷ drop (suc pos) data_
drop-lt [] pos h = absurd (omega arith)
drop-lt (b ∷ bs) zero h = refl
drop-lt (b ∷ bs) (suc pos) h = drop-lt bs pos (omega arith)

pub byte-At :
    (data_ : Bytes) (pos : ℕ) → pos < length data_ → At data_ pos (get_or data_ pos 0 ∷ [])
byte-At data_ pos h = record { rest = drop (suc pos) data_; here = drop-lt data_ pos h }

pub nil-At : (data_ : Bytes) (pos : ℕ) → At data_ pos []
nil-At data_ pos = record { rest = drop pos data_; here = refl }

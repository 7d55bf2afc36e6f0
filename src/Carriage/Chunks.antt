-- ===== src/Carriage/Chunks.antt =====
-- The producer's split of a record body, `chunk_record_body` of carriage.py.
use label_309_py.Prelude.{
  ℕ, zero, suc, ◌+◌, ◌-◌, ◌/◌, ◌≤◌, ◌≡◌, refl, ap, ◌∙◌, List, [], ◌∷◌, ◌++◌, length, take, drop,
  ltb, arith, inl, inr, Bool-cases, ltb→lt, ltb→le, ok, take-append-drop, drop-drop, length-drop,
  ne→==,
}
use label_309_py.Bytes.{Bytes}
use label_309_py.Carriage.{transport_chunk_max_bytes, chunks_from, chunk_record_body, join}

-- Every chunk fits a metadata byte string.
abbrev pub AllFit : List Bytes → Type 0
AllFit [] = Unit
AllFit (c ∷ cs) = (length c ≤ transport_chunk_max_bytes) × AllFit cs

-- What the split of the bytes `left` promises: nothing lost, every chunk fits, no chunk too many.
pub record IsSplit (left : Bytes) (chunks : List Bytes) : Type 0 where
  pub joined : join chunks ≡ left
  pub fits : AllFit chunks
  pub count : length chunks ≡ (length left + 63) / 64

drop-long : (body : Bytes) (n : ℕ) → length body ≤ n → drop n body ≡ []
drop-long [] zero h = refl
drop-long [] (suc n) h = refl
drop-long (b ∷ body) zero h = absurd (omega arith)
drop-long (b ∷ body) (suc n) h = drop-long body n (omega arith)

length-take_min :
    (n : ℕ) (x : Bytes) → (length (take n x) ≤ n) × (length x ≤ n → length (take n x) ≡ length x)
length-take_min zero [] = (omega arith, λ h. refl)
length-take_min zero (b ∷ x) = (omega arith, λ h. absurd (omega arith))
length-take_min (suc n) [] = (omega arith, λ h. refl)
length-take_min (suc n) (b ∷ x) =
    let (le, all) = length-take_min n x in (omega (arith, le), λ h. ap suc (all (omega arith)))

IsSplit-nil : (left : Bytes) → left ≡ [] → IsSplit left []
unfolding join
IsSplit-nil left e = rw e (record { joined = refl; fits = tt; count = refl })

IsSplit-cons :
    (left : Bytes) (chunks : List Bytes)
    → 1 ≤ length left
    → IsSplit (drop 64 left) chunks
    → IsSplit left (take 64 left ∷ chunks)
unfolding join
IsSplit-cons left chunks some_byte s = record {
  joined = ap (λ (r : Bytes). take 64 left ++ r) s.joined ∙ take-append-drop 64 left;
  fits = ((length-take_min 64 left).0, s.fits);
  count = omega (arith, s.count, length-drop 64 left);
}

chunks_from-IsSplit :
    (fuel : ℕ) (body : Bytes) (offset : ℕ)
    → length body ≤ fuel + offset
    → IsSplit (drop offset body) (chunks_from fuel body offset)
unfolding chunks_from
chunks_from-IsSplit zero body offset h =
    IsSplit-nil (drop offset body) (drop-long body offset (omega arith))
chunks_from-IsSplit (suc fuel) body offset h =
    let rest = chunks_from-IsSplit fuel body (offset + 64) (omega arith) in
    let width : offset + 64 - offset ≡ 64 = omega arith in
    elim (Bool-cases (ltb offset (length body))) [
      | inl left ↦
          let lt = ltb→lt _ _ left in
          rw (left, width)
            (IsSplit-cons (drop offset body) (chunks_from fuel body (offset + 64))
              (omega (arith, length-drop offset body)) (rw (drop-drop offset 64 body) rest))
      | inr over ↦
          rw over (IsSplit-nil (drop offset body) (drop-long body offset (ltb→le _ _ over)))
    ]

-- A body that is not empty is split into chunks of at most 64 bytes that join to it, a 64th of
-- its length of them, rounded up.
pub chunk_record_body-IsSplit :
    (body : Bytes)
    → 1 ≤ length body
    → (chunks : List Bytes) × ((chunk_record_body body ≡ ok chunks) × IsSplit body chunks)
unfolding chunk_record_body
chunk_record_body-IsSplit body some_byte = (
  chunks_from (length body) body 0,
  (
    rw (ne→== (length body) 0 (λ e. omega arith)) refl,
    chunks_from-IsSplit (length body) body 0 (omega arith),
  ),
)

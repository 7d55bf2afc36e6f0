-- ===== src/Validator/Inversion.antt =====
-- What a value is, by what is read of it.
use label_309_py.Prelude.{
  ℕ, ◌≡◌, refl, false, not, Option, none, some, List, [], ◌∷◌, All, Integer, natural, negative,
}
use label_309_py.Bytes.{Bytes}
use label_309_py.Cbor.{
  Text, Value, null, bool, integer, text, bytes, array, dict, other, Values, Entries, elements,
  not_none, as_text, as_bytes, as_array, as_dict, as_integer, as_natural, and_then, is_some,
}

pub as_text-eq : (v : Value) (t : Text) → as_text v ≡ some t → v ≡ text t
as_text-eq (text u) t h = cc
as_text-eq null t h = cc
as_text-eq (bool b) t h = cc
as_text-eq (integer n) t h = cc
as_text-eq (bytes b) t h = cc
as_text-eq (array a) t h = cc
as_text-eq (dict d) t h = cc
as_text-eq (other n) t h = cc

pub as_bytes-eq : (v : Value) (b : Bytes) → as_bytes v ≡ some b → v ≡ bytes b
as_bytes-eq (bytes c) b h = cc
as_bytes-eq null b h = cc
as_bytes-eq (bool c) b h = cc
as_bytes-eq (integer n) b h = cc
as_bytes-eq (text t) b h = cc
as_bytes-eq (array a) b h = cc
as_bytes-eq (dict d) b h = cc
as_bytes-eq (other n) b h = cc

pub as_dict-eq : (v : Value) (d : Entries) → as_dict v ≡ some d → v ≡ dict d
as_dict-eq (dict e) d h = cc
as_dict-eq null d h = cc
as_dict-eq (bool c) d h = cc
as_dict-eq (integer n) d h = cc
as_dict-eq (text t) d h = cc
as_dict-eq (array a) d h = cc
as_dict-eq (bytes b) d h = cc
as_dict-eq (other n) d h = cc

pub as_integer-eq : (v : Value) (n : Integer) → as_integer v ≡ some n → v ≡ integer n
as_integer-eq (integer m) n h = cc
as_integer-eq null n h = cc
as_integer-eq (bool c) n h = cc
as_integer-eq (dict d) n h = cc
as_integer-eq (text t) n h = cc
as_integer-eq (array a) n h = cc
as_integer-eq (bytes b) n h = cc
as_integer-eq (other m) n h = cc

pub as_natural-eq : (o : Option Integer) (n : ℕ) → as_natural o ≡ some n → o ≡ some (natural n)
as_natural-eq none n h = cc
as_natural-eq (some (natural m)) n h = cc
as_natural-eq (some (negative m)) n h = cc

pub and_then-eq-some {ℓ κ} :
    {A : Type ℓ} {B : Type κ} (o : Option A) (f : A → Option B) (b : B)
    → and_then o f ≡ some b
    → (a : A) × (o ≡ some a) × (f a ≡ some b)
and_then-eq-some none f b h = cc
and_then-eq-some (some a) f b h = (a, refl, h)

pub is_some-eq {ℓ} : {A : Type ℓ} (o : Option A) → not (is_some o) ≡ false → (a : A) × (o ≡ some a)
is_some-eq none h = cc
is_some-eq (some a) h = (a, refl)

pub All-both {ℓ κ} :
    {A : Type ℓ} (P Q R : A → Type κ) (xs : List A)
    → ((x : A) → P x → Q x → R x)
    → All P xs
    → All Q xs
    → All R xs
All-both P Q R [] f h k = tt
All-both P Q R (x ∷ xs) f h k = (f x h.0 k.0, All-both P Q R xs f h.1 k.1)

pub as_array-eq :
    (v : Value) (vs : List Value)
    → as_array v ≡ some vs
    → (a : Values) × (v ≡ array a) × (vs ≡ elements a)
as_array-eq (array a) vs h = (a, refl, cc)
as_array-eq null vs h = cc
as_array-eq (bool c) vs h = cc
as_array-eq (integer n) vs h = cc
as_array-eq (text t) vs h = cc
as_array-eq (dict d) vs h = cc
as_array-eq (bytes b) vs h = cc
as_array-eq (other n) vs h = cc

pub not_none-eq : (o : Option Value) (v : Value) → not_none o ≡ some v → o ≡ some v
not_none-eq none v h = cc
not_none-eq (some null) v h = cc
not_none-eq (some (bool b)) v h = h
not_none-eq (some (integer n)) v h = h
not_none-eq (some (text t)) v h = h
not_none-eq (some (bytes b)) v h = h
not_none-eq (some (array a)) v h = h
not_none-eq (some (dict d)) v h = h
not_none-eq (some (other n)) v h = h

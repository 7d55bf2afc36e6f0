-- ===== src/Cbor.antt =====
-- What src/cardanowall/_crypto/cbor.py decodes: the Python objects of a CBOR item, as far as the
-- program tells them apart. The decoder and the encoder (cbor2) are parameters of what uses them.
use label_309_py.Prelude.{
  ℕ, Bool, true, false, ◌||◌, Option, none, some, List, [], ◌∷◌, if◌then◌else◌, Integer, natural,
  negative, integer_eq,
}
use label_309_py.Bytes.{Bytes, bytes_eq}

abbrev pub Text : Type 0
Text = List ℕ

-- A key of a dict. Python's True is equal to 1, and so is a decimal of that value: `other` has the
-- integer that a key of any other type is equal to, if there is one.
pub data Key : Type 0 where
  text_key : Text → Key
  number_key : Integer → Key
  other_key : Option Integer → Key

mutual
  pub data Value : Type 0 where
    null : Value
    bool : Bool → Value
    integer : Integer → Value
    text : Text → Value
    bytes : Bytes → Value
    array : Values → Value
    dict : Entries → Value
    -- an object of any other type, with the integer that it is equal to
    other : Option Integer → Value

  pub data Values : Type 0 where
    end : Values
    value : Value → Values → Values

  pub data Entries : Type 0 where
    no_entries : Entries
    entry : Key → Value → Entries → Entries

unfoldable pub elements : Values → List Value
elements end = []
elements (value v vs) = v ∷ elements vs

-- `dict.get`, with a text
unfoldable pub get : Entries → Text → Option Value
get no_entries k = none
get (entry (text_key name) v entries) k = if bytes_eq name k then some v else get entries k
get (entry (number_key n) v entries) k = get entries k
get (entry (other_key n) v entries) k = get entries k

abbrev pub equals_number : Key → Integer → Bool
equals_number (text_key name) n = false
equals_number (number_key m) n = integer_eq m n
equals_number (other_key (some m)) n = integer_eq m n
equals_number (other_key none) n = false

-- `dict.get`, with an integer
unfoldable pub get_number : Entries → Integer → Option Value
get_number no_entries n = none
get_number (entry k v entries) n = if equals_number k n then some v else get_number entries n

-- The text keys with their values, in the order of the dict.
unfoldable pub text_entries : Entries → List (Text × Value)
text_entries no_entries = []
text_entries (entry (text_key name) v entries) = (name, v) ∷ text_entries entries
text_entries (entry (number_key n) v entries) = text_entries entries
text_entries (entry (other_key n) v entries) = text_entries entries

unfoldable pub has_other_key : Entries → Bool
has_other_key no_entries = false
has_other_key (entry (text_key name) v entries) = has_other_key entries
has_other_key (entry (number_key n) v _) = true
has_other_key (entry (other_key n) v _) = true

-- A text in a set of texts.
unfoldable pub is_member : Text → List Text → Bool
is_member t [] = false
is_member t (u ∷ us) = bytes_eq t u || is_member t us

-- A value that is there and is not null: `value is not None` behind `dict.get`.
abbrev pub not_none : Option Value → Option Value
not_none none = none
not_none (some null) = none
not_none (some (bool b)) = some (bool b)
not_none (some (integer n)) = some (integer n)
not_none (some (text t)) = some (text t)
not_none (some (bytes b)) = some (bytes b)
not_none (some (array a)) = some (array a)
not_none (some (dict d)) = some (dict d)
not_none (some (other n)) = some (other n)

-- What `isinstance` tells apart.
abbrev pub as_text : Value → Option Text
as_text (text t) = some t
as_text null = none
as_text (bool b) = none
as_text (integer n) = none
as_text (bytes b) = none
as_text (array a) = none
as_text (dict d) = none
as_text (other n) = none

abbrev pub as_bytes : Value → Option Bytes
as_bytes (bytes b) = some b
as_bytes null = none
as_bytes (bool b) = none
as_bytes (integer n) = none
as_bytes (text t) = none
as_bytes (array a) = none
as_bytes (dict d) = none
as_bytes (other n) = none

abbrev pub as_array : Value → Option (List Value)
as_array (array a) = some (elements a)
as_array null = none
as_array (bool b) = none
as_array (integer n) = none
as_array (text t) = none
as_array (bytes b) = none
as_array (dict d) = none
as_array (other n) = none

abbrev pub as_dict : Value → Option Entries
as_dict (dict d) = some d
as_dict null = none
as_dict (bool b) = none
as_dict (integer n) = none
as_dict (text t) = none
as_dict (bytes b) = none
as_dict (array a) = none
as_dict (other n) = none

-- An `int` that is no `bool`.
abbrev pub as_integer : Value → Option Integer
as_integer (integer n) = some n
as_integer null = none
as_integer (bool b) = none
as_integer (text t) = none
as_integer (bytes b) = none
as_integer (array a) = none
as_integer (dict d) = none
as_integer (other n) = none

abbrev pub as_natural : Option Integer → Option ℕ
as_natural none = none
as_natural (some (natural n)) = some n
as_natural (some (negative n)) = none

-- The same behind a lookup.
abbrev pub and_then {ℓ κ} : {A : Type ℓ} {B : Type κ} → Option A → (A → Option B) → Option B
and_then none f = none
and_then (some a) f = f a

abbrev pub is_some {ℓ} : {A : Type ℓ} → Option A → Bool
is_some none = false
is_some (some a) = true

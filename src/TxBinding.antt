-- ===== src/TxBinding.antt =====
-- src/cardanowall/verifier/tx_binding.py: the check that fetched transaction bytes are those of the
-- requested transaction. BLAKE2b-256 is a parameter; a text is the list of its code points.
pub mod Accepts
mod Runs
use label_309_py.Prelude.{
  ℕ, ◌+◌, ◌/◌, ◌%◌, ◌&&◌, Option, none, some, List, [], ◌∷◌, ltb, leb, if◌then◌else◌, Result, ok,
  err, ◌>>=◌, ◌>>◌, require,
}
use label_309_py.Bytes.{Bytes, bytes_eq}
use label_309_py.Walker.{WalkError}
use label_309_py.Transaction.{auxiliary_data_hash_from_tx_body}

-- The `check` of a `TxBindingFail`.
pub data BindingCheck : Type 0 where
  tx_hash auxiliary_data_hash : BindingCheck

-- `bytes.hex`
unfoldable pub hex_digit : ℕ → ℕ
hex_digit d = if ltb d 10 then 48 + d else 87 + d

unfoldable pub hex : Bytes → List ℕ
hex [] = []
hex (b ∷ bs) = hex_digit (b / 16) ∷ hex_digit (b % 16) ∷ hex bs

-- `str.lower` on ASCII; no other code point has a hexadecimal digit as its lower case.
unfoldable pub lower : List ℕ → List ℕ
lower [] = []
lower (c ∷ cs) = (if leb 65 c && leb c 90 then c + 32 else c) ∷ lower cs

-- A malformed body fails the check of the auxiliary data's hash.
unfoldable pub committed_hash : Result WalkError (Option Bytes) → Result BindingCheck (Option Bytes)
committed_hash (ok committed) = ok committed
committed_hash (err e) = err auxiliary_data_hash

unfoldable pub bind_auxiliary_data :
    (Bytes → Bytes) → Option Bytes → Option Bytes → Result BindingCheck (Unit {0})
bind_auxiliary_data blake2b_256 none none = ok tt
bind_auxiliary_data blake2b_256 none (some committed) = err auxiliary_data_hash
bind_auxiliary_data blake2b_256 (some auxiliary_data) none = err auxiliary_data_hash
bind_auxiliary_data blake2b_256 (some auxiliary_data) (some committed) =
    require (bytes_eq (blake2b_256 auxiliary_data) committed) auxiliary_data_hash

unfoldable pub bind_transaction_bytes :
    (Bytes → Bytes) → List ℕ → Bytes → Option Bytes → Result BindingCheck (Unit {0})
bind_transaction_bytes blake2b_256 requested_tx_hash_hex tx_body auxiliary_data = do
  require (bytes_eq (hex (blake2b_256 tx_body)) (lower requested_tx_hash_hex)) tx_hash
  committed ← committed_hash (auxiliary_data_hash_from_tx_body tx_body)
  bind_auxiliary_data blake2b_256 auxiliary_data committed

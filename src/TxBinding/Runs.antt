-- ===== src/TxBinding/Runs.antt =====
-- The binding of a transaction body {7: hash} to auxiliary data with that hash.
use label_309_py.Prelude.{◌≡◌, ◌↔◌, ◌⊎◌, refl, [], ◌∷◌, Option, some, none, ok, err}
use label_309_py.Bytes.{Bytes, bytes_eq, from_bytes_big, Collision}
use label_309_py.Fixtures.{toy_digest}
use label_309_py.Walker.{
  read_head, read_argument, skip_item, skip_cbor_item, skip_payload, skip_times,
}
use label_309_py.Transaction.{auxiliary_data_hash_from_tx_body, find_aux_data_hash}
use label_309_py.TxBinding.{
  hex, hex_digit, lower, committed_hash, bind_auxiliary_data, bind_transaction_bytes,
  auxiliary_data_hash,
}
use label_309_py.TxBinding.Accepts.{
  IsBound, bind_transaction_bytes-eq-ok_iff, bind_transaction_bytes_unique,
}

abbrev auxiliary : Bytes
auxiliary = 0xA1 ∷ 25 ∷ 1 ∷ 53 ∷ 0 ∷ []

abbrev body : Bytes
body = 0xA1 ∷ 7 ∷ 0x58 ∷ 32 ∷ toy_digest auxiliary

bound : bind_transaction_bytes toy_digest (hex (toy_digest body)) body (some auxiliary) ≡ ok tt
unfolding bind_transaction_bytes hex hex_digit lower committed_hash bind_auxiliary_data bytes_eq
    auxiliary_data_hash_from_tx_body find_aux_data_hash read_head read_argument skip_item
    skip_cbor_item skip_payload skip_times from_bytes_big
bound = refl

nothing_carried :
    bind_transaction_bytes toy_digest (hex (toy_digest body)) body none ≡ err auxiliary_data_hash
unfolding bind_transaction_bytes hex hex_digit lower committed_hash bind_auxiliary_data bytes_eq
    auxiliary_data_hash_from_tx_body find_aux_data_hash read_head read_argument skip_item
    skip_cbor_item skip_payload skip_times from_bytes_big
nothing_carried = refl

bind_transaction_bytes-eq-ok_iff_example :
    (bind_transaction_bytes toy_digest (hex (toy_digest body)) body (some auxiliary) ≡ ok tt)
    ↔ IsBound toy_digest (hex (toy_digest body)) body (some auxiliary)
bind_transaction_bytes-eq-ok_iff_example =
    bind_transaction_bytes-eq-ok_iff toy_digest (hex (toy_digest body)) body (some auxiliary)

bind_transaction_bytes_unique_example :
    ((body ≡ body) × (◌≡◌ {A = Option Bytes} (some auxiliary) (some auxiliary)))
    ⊎ Collision toy_digest
bind_transaction_bytes_unique_example =
    bind_transaction_bytes_unique toy_digest (hex (toy_digest body)) body body (some auxiliary)
      (some auxiliary) bound bound

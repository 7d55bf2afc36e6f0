-- ===== src/Transaction/BodyHash.antt =====
-- `auxiliary_data_hash_from_tx_body` of cbor_walker.py on transaction bodies with unsigned keys.
use label_309_py.Prelude.{
  ℕ, suc, ◌+◌, ◌≡◌, ◌≢◌, refl, ◌∙◌, inl, List, [], ◌∷◌, ◌++◌, All, length, none, some, ok, false,
  arith, subst, append-nil, ne→==, length-append,
}
use label_309_py.Bytes.{Bytes}
use label_309_py.Walker.Position.{At, At-left, At-right, At-slice}
use label_309_py.Walker.Format.{IsHead, Items, string, done}
use label_309_py.Walker.Heads.{read_head-At}
use label_309_py.Walker.Accepts.{skip_item-IsItem}
use label_309_py.Transaction.{
  body_key_aux_data_hash, find_aux_data_hash, auxiliary_data_hash_from_tx_body,
}
use label_309_py.Transaction.Metadata.{Entry, IsEntry, entries_bytes, IsHead-IsItem}

-- An entry with another key than the hash's.
abbrev pub IsOtherEntry : Entry → Type 0
IsOtherEntry e = IsEntry e × (e.label ≢ body_key_aux_data_hash)

module _ {tx_body : Bytes} where
  -- The loop passes over entries with other keys.
  find_aux_data_hash-others :
      (es : List Entry) (count pos : ℕ)
      → All IsOtherEntry es
      → At tx_body pos (entries_bytes es)
      → find_aux_data_hash tx_body (length es + count) pos
        ≡ find_aux_data_hash tx_body count (pos + length (entries_bytes es))
  unfolding find_aux_data_hash
  find_aux_data_hash-others [] count pos other a =
      let end : pos + 0 ≡ pos = omega arith in
      let turns : 0 + count ≡ count = omega arith in rw (end, turns) refl
  find_aux_data_hash-others (e ∷ es) count pos (((key, value), other_key), others) a =
      let rest = At-right e.key _ a in
      let end = pos + length e.key in
      let turns : suc (length es) + count ≡ suc (length es + count) = omega arith in
      let size : pos + length (e.key ++ (e.value ++ entries_bytes es))
          ≡ end + length e.value + length (entries_bytes es) =
        omega (
          arith,
          length-append e.key (e.value ++ entries_bytes es),
          length-append e.value (entries_bytes es),
        ) in
      rw
        (
          turns,
          size,
          read_head-At key (At-left e.key _ a),
          skip_item-IsItem e.key pos (IsHead-IsItem key) (At-left e.key _ a),
          skip_item-IsItem e.value end value (At-left e.value _ rest),
          ne→== e.label 7 other_key,
        )
        (find_aux_data_hash-others es count (end + length e.value) others (At-right e.value _ rest))

  -- The entry of the hash ends the loop.
  find_aux_data_hash-here :
      (key head hash : Bytes) (key_info info count pos : ℕ)
      → IsHead key 0 key_info 7
      → IsHead head 2 info (length hash)
      → At tx_body pos (key ++ (head ++ hash))
      → find_aux_data_hash tx_body (suc count) pos ≡ ok (some hash)
  unfolding find_aux_data_hash
  find_aux_data_hash-here key head hash key_info info count pos hk hh a =
      let value = At-right key _ a in
      let start = pos + length key in
      let item =
        subst (λ x. Items false 1 (head ++ x)) (append-nil hash)
          (string hash hh (inl refl) refl done) in
      let end : start + length (head ++ hash) ≡ start + length head + length hash =
        omega (arith, length-append head hash) in
      rw
        (
          read_head-At hk (At-left key _ a),
          skip_item-IsItem key pos (IsHead-IsItem hk) (At-left key _ a),
          skip_item-IsItem (head ++ hash) start item value,
          read_head-At hh (At-left head hash value),
          end,
          At-slice (length hash) (At-right head hash value) refl,
        )
        refl

-- In a transaction body whose keys are unsigned integers, with well-formed values, the first entry
-- under key 7 gives the payload of its byte string, whatever follows it, and there is no hash where
-- no entry has key 7.
pub auxiliary_data_hash_from_tx_body-entries :
    (head with_hash : Bytes) (es : List Entry) (key string_head hash trailing : Bytes)
    (ai₁ ai₂ ai₃ ai₄ n : ℕ)
    → All IsOtherEntry es
    → IsHead head 5 ai₁ (length es)
    → IsHead with_hash 5 ai₂ (length es + suc n)
    → IsHead key 0 ai₃ 7
    → IsHead string_head 2 ai₄ (length hash)
    → (auxiliary_data_hash_from_tx_body ((head ++ entries_bytes es) ++ trailing) ≡ ok none)
      × (auxiliary_data_hash_from_tx_body
            ((with_hash ++ (entries_bytes es ++ (key ++ (string_head ++ hash)))) ++ trailing)
          ≡ ok (some hash))
unfolding auxiliary_data_hash_from_tx_body find_aux_data_hash
auxiliary_data_hash_from_tx_body-entries head with_hash es key string_head hash trailing ai₁ ai₂ ai₃
      ai₄ n others h₁ h₂ hk hh =
    let plain_body = head ++ entries_bytes es in
    let a₁ : At (plain_body ++ trailing) 0 plain_body = record { rest = trailing; here = refl } in
    let body = with_hash ++ (entries_bytes es ++ (key ++ (string_head ++ hash))) in
    let a₂ : At (body ++ trailing) 0 body = record { rest = trailing; here = refl } in
    let inner = At-right with_hash _ a₂ in
    let turns : length es + 0 ≡ length es = omega arith in
    let loop =
      find_aux_data_hash-others {tx_body = plain_body ++ trailing} es 0 (0 + length head) others
        (At-right head _ a₁) in
    let none_found = rw turns at loop in
    (
      rw (read_head-At h₁ (At-left head _ a₁)) none_found,
      rw (read_head-At h₂ (At-left with_hash _ a₂)) (
          find_aux_data_hash-others es (suc n) (0 + length with_hash) others
            (At-left (entries_bytes es) _ inner)
          ∙ find_aux_data_hash-here key string_head hash ai₃ ai₄ n
              (0 + length with_hash + length (entries_bytes es)) hk hh
              (At-right (entries_bytes es) _ inner)),
    )

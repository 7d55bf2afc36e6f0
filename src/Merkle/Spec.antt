-- ===== src/Merkle/Spec.antt =====
-- RFC 9162 section 2.1.1 as inductive families: the tree hash of a list of leaves, and the audit
-- path of one of them.
use label_309_py.Prelude.{ℕ, ◌+◌, ◌^◌, ◌≤◌, ◌≡◌, List, [], ◌∷◌, ◌++◌, length}
use label_309_py.Bytes.{Bytes}
use label_309_py.Merkle.{hash_leaf, hash_node}

-- A list of more than `2 ^ j` and at most `2 ^ (j + 1)` leaves is cut after `2 ^ j` of them.
pub record IsSplit (j : ℕ) (leaves left right : List Bytes) : Type 0 where
  pub parts : leaves ≡ left ++ right
  pub left_full : length left ≡ 2 ^ j
  pub right_some : 1 ≤ length right
  pub right_fits : length right ≤ 2 ^ j

module _ (sha256 : Bytes → Bytes) where
  pub data TreeHash : List Bytes → Bytes → Type 0 where
    single : (d : Bytes) → TreeHash (d ∷ []) (hash_leaf sha256 d)
    node :
        {leaves left right : List Bytes} {hl hr : Bytes} (j : ℕ)
        → IsSplit j leaves left right
        → TreeHash left hl
        → TreeHash right hr
        → TreeHash leaves (hash_node sha256 hl hr)

  -- `AuditPath leaves i d path root`: `d` is leaf number `i`, and `path` its siblings up to `root`.
  pub data AuditPath : List Bytes → ℕ → Bytes → List Bytes → Bytes → Type 0 where
    alone : (d : Bytes) {i : ℕ} → i ≡ 0 → AuditPath (d ∷ []) i d [] (hash_leaf sha256 d)
    on_left :
        {leaves left right path : List Bytes} {i : ℕ} {d hl hr : Bytes} (j : ℕ)
        → IsSplit j leaves left right
        → AuditPath left i d path hl
        → TreeHash right hr
        → AuditPath leaves i d (path ++ hr ∷ []) (hash_node sha256 hl hr)
    on_right :
        {leaves left right path : List Bytes} {i k : ℕ} {d hl hr : Bytes} (j : ℕ)
        → IsSplit j leaves left right
        → k ≡ 2 ^ j + i
        → TreeHash left hl
        → AuditPath right i d path hr
        → AuditPath leaves k d (path ++ hl ∷ []) (hash_node sha256 hl hr)

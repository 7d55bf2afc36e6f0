-- ===== src/Validator/Sound.antt =====
-- What the items and the commitments of an accepted record are.
use label_309_py.Prelude.{
  ℕ, ◌≤◌, ◌≡◌, refl, ap, ◌∙◌, inl, inr, false, not, ◌&&◌, Option, some, List, [], ◌∷◌, ◌++◌, leb,
  length, arith, Bool-cases, codes, natural,
}
use label_309_py.Bytes.{Bytes, bytes_eq, bytes_eq-eq}
use label_309_py.ErrorCodes.{
  severity_of, schema_type_mismatch, schema_missing_required, unsupported_merkle_commit_alg,
  hash_digest_length_mismatch,
}
use label_309_py.Verdict.{Segment, key, index}
use label_309_py.Cbor.{
  Text, Value, text, bytes, integer, dict, Entries, get, as_text, as_bytes, as_integer, as_natural,
  and_then,
}
use label_309_py.Validator.Registries.{merkle_commit_alg_length, uint32_max}
use label_309_py.Validator.Shape.{parse_commit_map, required_field, closed_map}
use label_309_py.Validator.Fields.{check_commit_alg, check_leaf_count, check_merkle_commit}
use label_309_py.Validator.Silence.{IsSilent, IsSilent-append, IsSilent-issue_if, IsSilent-or_else}
use label_309_py.Validator.Inversion.{
  as_text-eq, as_bytes-eq, as_integer-eq, as_natural-eq, and_then-eq-some, is_some-eq,
}
use label_309_py.Validator.Accepted.{IsHashes, HasUris, check_uris_field-HasUris, not-==→eq}

-- A field that has to be there is there, with a value of its type.
pub required_field-eq {ℓ} :
    {A : Type ℓ} (d : Entries) (name : Text) (read : Value → Option A) (path : List Segment)
    → IsSilent (required_field d name read schema_missing_required schema_type_mismatch path)
    → (v : Value) × (a : A) × (get d name ≡ some v) × (read v ≡ some a)
unfolding severity_of
required_field-eq d name read path h =
    let (v, there, typed) = IsSilent-or_else (get d name) schema_missing_required _ _ refl h in
    let (a, is_a) = is_some-eq (read v) (IsSilent-issue_if _ _ _ refl typed) in (v, a, there, is_a)

abbrev pub rfc9162 : Text
rfc9162 = codes "rfc9162-sha256"

-- A commitment: the registered algorithm, a root of 32 bytes, and a count of 1 to 2^32 - 1 leaves.
pub record IsCommit (d : Entries) : Type 0 where
  pub alg : get d (codes "alg") ≡ some (text rfc9162)
  pub root : (b : Bytes) × (get d (codes "root") ≡ some (bytes b)) × (length b ≡ 32)
  pub leaf_count :
      (n : ℕ) × (get d (codes "leaf_count") ≡ some (integer (natural n)))
      × (1 ≤ n)
      × (n ≤ uint32_max)
  pub uris : HasUris d

merkle_commit_alg_length-eq :
    (alg : Text) (n : ℕ) → merkle_commit_alg_length alg ≡ some n → (alg ≡ rfc9162) × (n ≡ 32)
unfolding merkle_commit_alg_length
merkle_commit_alg_length-eq alg n h = elim (Bool-cases (bytes_eq alg (codes "rfc9162-sha256"))) [
  | inl known ↦ (bytes_eq-eq _ _ known, let e = rw known at h in cc)
  | inr unknown ↦ absurd (let e = rw unknown at h in cc)
]

check_commit_alg-eq :
    (d : Entries) (path : List Segment) (alg : Text) (root : Bytes)
    → get d (codes "alg") ≡ some (text alg)
    → get d (codes "root") ≡ some (bytes root)
    → IsSilent (check_commit_alg d path)
    → (alg ≡ rfc9162) × (length root ≡ 32)
unfolding check_commit_alg severity_of
check_commit_alg-eq d path alg root is_alg is_root h =
    let (n, known, fits) =
      IsSilent-or_else (merkle_commit_alg_length alg) unsupported_merkle_commit_alg _ _ refl
        (rw is_alg at h) in
    let (same, size) = merkle_commit_alg_length-eq alg n known in
    (
      same,
      not-==→eq _ _ (IsSilent-issue_if _ hash_digest_length_mismatch _ refl (rw is_root at fits))
          ∙ size,
    )

in_range : (n m : ℕ) → not (leb 1 n && leb n m) ≡ false → (1 ≤ n) × (n ≤ m)
in_range n m h = ground arith

check_leaf_count-eq :
    (d : Entries) (path : List Segment)
    → IsSilent (check_leaf_count d path)
    → (n : ℕ) × (get d (codes "leaf_count") ≡ some (integer (natural n)))
      × (1 ≤ n)
      × (n ≤ uint32_max)
unfolding check_leaf_count severity_of
check_leaf_count-eq d path h =
    let (n, is_n, ranged) =
      IsSilent-or_else (as_natural (and_then (get d (codes "leaf_count")) as_integer))
        schema_type_mismatch _ _ refl h in
    let (v, there, is_v) =
      and_then-eq-some (get d (codes "leaf_count")) as_integer (natural n)
        (as_natural-eq _ n is_n) in
    let (low, high) = in_range n uint32_max (IsSilent-issue_if _ _ _ refl ranged) in
    (n, there ∙ ap some (as_integer-eq v (natural n) is_v), low, high)

pub check_merkle_commit-IsCommit :
    (d : Entries) (i : ℕ) (path : List Segment)
    → IsSilent (parse_commit_map path d)
    → IsSilent (check_merkle_commit i d)
    → IsCommit d
unfolding parse_commit_map check_merkle_commit
check_merkle_commit-IsCommit d i path shaped h =
    let (_, shaped') = IsSilent-append (closed_map d _ _ path) _ shaped in
    let (alg_shape, shaped'') =
      IsSilent-append (required_field d (codes "alg") as_text _ _ path) _ shaped' in
    let (root_shape, shaped''') =
      IsSilent-append (required_field d (codes "root") as_bytes _ _ path) _ shaped'' in
    let (_, uris_shape) =
      IsSilent-append (required_field d (codes "leaf_count") as_integer _ _ path) _ shaped''' in
    let (a, alg, is_a, alg_text) = required_field-eq d (codes "alg") as_text path alg_shape in
    let (r, root, is_r, root_bytes) = required_field-eq d (codes "root") as_bytes path root_shape in
    let path' : List Segment = key (codes "merkle") ∷ index i ∷ [] in
    let (alg_check, rest) = IsSilent-append (check_commit_alg d path') _ h in
    let (count_check, uris_check) = IsSilent-append (check_leaf_count d path') _ rest in
    let there = is_a ∙ ap some (as_text-eq a alg alg_text) in
    let there' = is_r ∙ ap some (as_bytes-eq r root root_bytes) in
    let (same, size) = check_commit_alg-eq d path' alg root there there' alg_check in
    record {
      alg = there ∙ ap (λ (t : Text). some (text t)) same;
      root = (root, there', size);
      leaf_count = check_leaf_count-eq d path' count_check;
      uris =
          check_uris_field-HasUris d path' (path ++ key (codes "uris") ∷ []) uris_shape uris_check;
    }

-- An item: digests, and URIs that may be fetched.
pub record IsItem (d : Entries) : Type 0 where
  pub hashes : (h : Entries) × (get d (codes "hashes") ≡ some (dict h)) × IsHashes h
  pub uris : HasUris d

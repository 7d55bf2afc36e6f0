-- ===== src/Stream/Loops.antt =====
-- The loops of `stream_seal` and `stream_open` of stream.py, and the STREAM format.
use label_309_py.Prelude.{
  ℕ, zero, suc, ◌+◌, ◌-◌, ◌≤◌, ◌<◌, ◌≡◌, refl, sym, ap, ◌∙◌, true, false, [], ◌++◌, ltb, leb, ok,
  length, arith, inl, inr, append_assoc, take, drop, length-append, length-drop, take-append,
  drop-append, drop-drop, take-append-drop, take_all, Bool-cases, lt→ltb, le→ltb, ltb→lt, le→leb,
  lt→leb, >>=-eq-ok, ok-injective, subst,
}
use label_309_py.Bytes.{Bytes, slice}
use label_309_py.Stream.{
  chunk_size, tag_size, sealed_chunk_size, chunk_nonce, Encrypt, Decrypt, seal_chunk, open_chunk,
  seal_loop, open_loop,
}
use label_309_py.Stream.Layout.{
  running, Sealed, last, more, IsAead, seal_chunk_inner, seal_chunk_final, seal_chunk-inner_inv,
  seal_chunk-final_inv, open_chunk_inner, open_chunk_final, open_chunk-inner_inv,
  open_chunk-final_inv,
}

-- A slice at `pos` is a part of what stands behind `pos`.
slice_at : (data_ : Bytes) (pos n : ℕ) → slice data_ pos (pos + n) ≡ take n (drop pos data_)
slice_at data_ pos n = let e : pos + n - pos ≡ n = omega arith in rw e

-- Only the empty stream has an empty chunk.
Sealed-later :
    {encrypt : Encrypt} {key : Bytes} {n : ℕ} {p c : Bytes}
    → Sealed encrypt key n p c
    → 1 ≤ n
    → 1 ≤ length p
Sealed-later (last {plaintext = p} few size first) h = ground arith
Sealed-later (more {rest} chunk few parts size some_rest s) h =
    omega (arith, ap length parts, length-append chunk rest)

module _ (encrypt : Encrypt) where
  pub Sealed-seal_loop :
      {key : Bytes} {n : ℕ} {p c : Bytes}
      → Sealed encrypt key n p c
      → (fuel : ℕ) (plaintext : Bytes) (pos : ℕ) (out : Bytes) → drop pos plaintext ≡ p
      → length p < fuel
      → seal_loop encrypt fuel (running key n) plaintext pos out ≡ ok (out ++ c)
  unfolding seal_loop
  Sealed-seal_loop s zero plaintext pos out at h = absurd (omega arith)
  Sealed-seal_loop {key} {n} (last {plaintext = p} few size first) (suc fuel) plaintext pos out at
        h =
      let rest = sym (length-drop pos plaintext) ∙ ap length at in
      rw (
        le→ltb chunk_size (length plaintext - pos) (omega arith),
        at,
        seal_chunk_final encrypt key n p few size first,
      )
  Sealed-seal_loop {key} {n}
        (more {plaintext = p} {rest} {sealed_rest} chunk few parts size some_rest s) (suc fuel)
        plaintext pos out at h =
      let total =
        sym (length-drop pos plaintext) ∙ ap length (at ∙ parts) ∙ length-append chunk rest in
      let head =
        slice_at plaintext pos chunk_size
        ∙ ap (take chunk_size) (at ∙ parts)
        ∙ take-append chunk rest chunk_size (sym size) in
      let tail =
        sym (drop-drop pos chunk_size plaintext)
        ∙ ap (drop chunk_size) (at ∙ parts)
        ∙ drop-append chunk rest chunk_size (sym size) in
      rw (
        lt→ltb chunk_size (length plaintext - pos) (omega arith),
        head,
        seal_chunk_inner encrypt key n chunk few size,
        Sealed-seal_loop {n = n + 1} s fuel plaintext (pos + chunk_size)
            (out ++ encrypt key (chunk_nonce n false) [] chunk) tail
            (omega (arith, ap length parts, length-append chunk rest)),
        append_assoc,
      )

  pub seal_loop-Sealed :
      (fuel : ℕ) (key plaintext : Bytes) (n pos : ℕ) (out z : Bytes)
      → seal_loop encrypt fuel (running key n) plaintext pos out ≡ ok z
      → (c : Bytes) × (z ≡ out ++ c) × Sealed encrypt key n (drop pos plaintext) c
  unfolding seal_loop
  seal_loop-Sealed zero key plaintext n pos out z e = absurd (cc)
  seal_loop-Sealed (suc fuel) key plaintext n pos out z e =
      elim (Bool-cases (ltb chunk_size (length plaintext - pos))) [
        | inr short ↦
            let (a, sealing, rest) =
              >>=-eq-ok (seal_chunk encrypt (running key n) (drop pos plaintext) true) _
                (rw short at e) in
            let (few, size, first, is) =
              seal_chunk-final_inv encrypt key n (drop pos plaintext) sealing in
            (
              encrypt key (chunk_nonce n true) [] (drop pos plaintext),
              cc (rest, is),
              last few size first,
            )
        | inl long ↦
            let chunk = slice plaintext pos (pos + chunk_size) in
            let (a, sealing, rest) =
              >>=-eq-ok (seal_chunk encrypt (running key n) chunk false) _ (rw long at e) in
            let (few, size, is, next) = seal_chunk-inner_inv encrypt key n chunk sealing in
            let (c, joins, s) =
              seal_loop-Sealed fuel key plaintext (n + 1) (pos + chunk_size) (out ++ a.0) z
                (rw next at rest) in
            let parts = sym (
              rw (← slice_at plaintext pos chunk_size, drop-drop pos chunk_size plaintext) at
                (take-append-drop chunk_size (drop pos plaintext))) in
            (
              encrypt key (chunk_nonce n false) [] chunk ++ c,
              joins ∙ append_assoc out a.0 c ∙ ap (λ (x : Bytes). out ++ (x ++ c)) is,
              more chunk few parts size
                  (omega (arith, ltb→lt _ _ long, length-drop (pos + chunk_size) plaintext)) s,
            )
      ]

module _ {encrypt : Encrypt} {decrypt : Decrypt} (aead : IsAead encrypt decrypt) where
  pub Sealed-tag :
      {key : Bytes} {n : ℕ} {p c : Bytes} → Sealed encrypt key n p c → tag_size ≤ length c
  Sealed-tag {key} {n} (last {plaintext = p} few size first) =
      omega (arith, aead.tagged key (chunk_nonce n true) [] p)
  Sealed-tag {key} {n} (more {sealed_rest} chunk few parts size some_rest s) = omega (
    arith,
    aead.tagged key (chunk_nonce n false) [] chunk,
    length-append (encrypt key (chunk_nonce n false) [] chunk) sealed_rest,
  )

  pub Sealed-open_loop :
      {key : Bytes} {n : ℕ} {p c : Bytes}
      → Sealed encrypt key n p c
      → (fuel : ℕ) (ciphertext : Bytes) (pos : ℕ) (out : Bytes) → drop pos ciphertext ≡ c
      → length c < fuel
      → open_loop decrypt fuel (running key n) ciphertext pos out ≡ ok (out ++ p)
  unfolding open_loop
  Sealed-open_loop s zero ciphertext pos out at h = absurd (omega arith)
  Sealed-open_loop {key} {n} (last {plaintext = p} few size first) (suc fuel) ciphertext pos out at
        h =
      let c = encrypt key (chunk_nonce n true) [] p in
      let rest = sym (length-drop pos ciphertext) ∙ ap length at in
      let tag = aead.tagged key (chunk_nonce n true) [] p in
      let whole =
        slice_at ciphertext pos (length ciphertext - pos)
        ∙ ap (take (length ciphertext - pos)) at
        ∙ take_all (length ciphertext - pos) c (omega arith) in
      rw (
        le→leb (length ciphertext - pos) sealed_chunk_size (omega arith),
        whole,
        open_chunk_final aead key n p few size first,
      )
  Sealed-open_loop {key} {n}
        (more {plaintext = p} {rest} {sealed_rest} chunk few parts size some_rest s) (suc fuel)
        ciphertext pos out at h =
      let head = encrypt key (chunk_nonce n false) [] chunk in
      let tag = aead.tagged key (chunk_nonce n false) [] chunk in
      let total =
        sym (length-drop pos ciphertext) ∙ ap length at ∙ length-append head sealed_rest in
      let first =
        slice_at ciphertext pos sealed_chunk_size
        ∙ ap (take sealed_chunk_size) at
        ∙ take-append head sealed_rest sealed_chunk_size (omega arith) in
      let tail =
        sym (drop-drop pos sealed_chunk_size ciphertext)
        ∙ ap (drop sealed_chunk_size) at
        ∙ drop-append head sealed_rest sealed_chunk_size (omega arith) in
      rw (
        lt→leb (length ciphertext - pos) sealed_chunk_size (omega (arith, Sealed-tag s)),
        first,
        open_chunk_inner aead key n chunk few size,
        Sealed-open_loop {n = n + 1} s fuel ciphertext (pos + sealed_chunk_size) (out ++ chunk) tail
            (omega (arith, length-append head sealed_rest)),
        append_assoc,
        parts,
      )

  pub open_loop-Sealed :
      (fuel : ℕ) (key ciphertext : Bytes) (n pos : ℕ) (out z : Bytes)
      → open_loop decrypt fuel (running key n) ciphertext pos out ≡ ok z
      → (p : Bytes) × (z ≡ out ++ p) × Sealed encrypt key n p (drop pos ciphertext)
  unfolding open_loop
  open_loop-Sealed zero key ciphertext n pos out z e = absurd (cc)
  open_loop-Sealed (suc fuel) key ciphertext n pos out z e =
      elim (Bool-cases (leb (length ciphertext - pos) sealed_chunk_size)) [
        | inl final ↦
            let remaining = length ciphertext - pos in
            let chunk = slice ciphertext pos (pos + remaining) in
            let (a, opening, rest) =
              >>=-eq-ok (open_chunk decrypt (running key n) chunk true) _ (rw final at e) in
            let (few, size, first, is) = open_chunk-final_inv aead key n chunk opening in
            let whole =
              slice_at ciphertext pos remaining
              ∙ take_all remaining (drop pos ciphertext)
                  (omega (arith, length-drop pos ciphertext)) in
            (
              a.0,
              sym (ok-injective _ rest),
              subst (Sealed encrypt key n a.0) (sym is ∙ whole) (last few size first),
            )
        | inr inner ↦
            let chunk = slice ciphertext pos (pos + sealed_chunk_size) in
            let (a, opening, rest) =
              >>=-eq-ok (open_chunk decrypt (running key n) chunk false) _ (rw inner at e) in
            let (few, size, is, next) = open_chunk-inner_inv aead key n chunk opening in
            let (p, joins, s) =
              open_loop-Sealed fuel key ciphertext (n + 1) (pos + sealed_chunk_size) (out ++ a.0) z
                (rw next at rest) in
            let parts =
              rw
                (
                  ← slice_at ciphertext pos sealed_chunk_size,
                  drop-drop pos sealed_chunk_size ciphertext,
                )
                at (take-append-drop sealed_chunk_size (drop pos ciphertext)) in
            (
              a.0 ++ p,
              joins ∙ append_assoc out a.0 p,
              subst (Sealed encrypt key n (a.0 ++ p))
                  (ap (λ (x : Bytes). x ++ drop (pos + sealed_chunk_size) ciphertext) (sym is)
                    ∙ parts)
                  (more a.0 few refl size (Sealed-later s (omega arith)) s),
            )
      ]

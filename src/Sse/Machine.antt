-- ===== src/Sse/Machine.antt =====
-- `_SseParser.feed` of poe_events.py, and a machine that takes one byte at a time.
use label_309_py.Prelude.{
  ℕ, zero, suc, ◌<◌, ◌≡◌, refl, sym, ap, ◌∙◌, inl, inr, Option, none, some, List, [], ◌∷◌, ◌++◌,
  append_assoc, append-nil, ltb, ◌==◌, if◌then◌else◌, length, length-append, require, not, ◌>>◌, ok,
  err, ◌>>=◌, All, fun_ext, arith, subst, >>=-eq-ok, ok-injective, Bool-cases, ==→eq, ==→ne, ne→==,
}
use label_309_py.Bytes.{Bytes}
use label_309_py.Sse.{
  Text, SseParser, Pending, Fed, newline, max_line_bytes, line_limit, handle_line, strip_return,
  split_line, feed_turn, feed_loop, feed, with_event, add_event, SseEvent,
}

abbrev pub HasNoNewline : Bytes → Type 0
HasNoNewline = All (λ b. ¬ (b ≡ newline))

pub HasNoNewline-snoc :
    (line : Bytes) (b : ℕ) → HasNoNewline line → ¬ (b ≡ newline) → HasNoNewline (line ++ b ∷ [])
HasNoNewline-snoc [] b h n = (n, tt)
HasNoNewline-snoc (c ∷ line) b h n = (h.0, HasNoNewline-snoc line b h.1 n)

pub split_line-line : (line : Bytes) → HasNoNewline line → split_line line ≡ none
unfolding split_line
split_line-line [] h = refl
split_line-line (b ∷ line) h = rw (ne→== b newline h.0, split_line-line line h.1) refl

pub split_line-append :
    (line rest : Bytes)
    → HasNoNewline line
    → split_line (line ++ newline ∷ rest) ≡ some (line, rest)
unfolding split_line
split_line-append [] rest h = refl
split_line-append (b ∷ line) rest h = rw (ne→== b newline h.0, split_line-append line rest h.1) refl

module _ (decode_utf8 : Bytes → Text) where
  -- A line ends.
  abbrev pub end_line : SseParser → (Pending → Fed) → Fed
  end_line p more = do
    require (not (ltb max_line_bytes (length p.buffer))) line_limit
    (event, pending) ← handle_line decode_utf8 p.pending (strip_return p.buffer)
    fed ← more pending
    with_event event fed

  -- The machine: a byte joins the line in the buffer, or ends it. At the end of the bytes the line
  -- that is left is measured.
  unfoldable pub run : SseParser → Bytes → Fed
  run p [] = if ltb max_line_bytes (length p.buffer) then err line_limit else ok ([], p)
  run p (b ∷ bs) =
      let turn = end_line p (λ pending. run (record { buffer = []; pending = pending }) bs) in
      let joined = run (record { buffer = p.buffer ++ b ∷ []; pending = p.pending }) bs in
      if b == newline then turn else joined

  feed_loop-run :
      (rest line : Bytes) (pending : Pending) (fuel : ℕ)
      → HasNoNewline line
      → length rest < fuel
      → feed_loop decode_utf8 fuel (record { buffer = line ++ rest; pending = pending })
        ≡ run (record { buffer = line; pending = pending }) rest
  unfolding feed_loop feed_turn run
  feed_loop-run rest line pending zero clean enough = absurd (omega arith)
  feed_loop-run [] line pending (suc fuel) clean enough =
      rw (append-nil line, split_line-line line clean) refl
  feed_loop-run (b ∷ rest) line pending (suc fuel) clean enough = elim (Bool-cases (b == newline)) [
    | inl ends ↦
        let again = λ (pending' : Pending). feed_loop-run rest [] pending' fuel tt (omega arith) in
        rw (ends, ==→eq b newline ends, split_line-append line rest clean)
          (ap (end_line (record { buffer = line; pending = pending })) (fun_ext again))
    | inr joins ↦
        rw (joins, ← append_assoc line (b ∷ []) rest)
          (feed_loop-run rest (line ++ b ∷ []) pending (suc fuel)
            (HasNoNewline-snoc line b clean (==→ne b newline joins)) (omega arith))
  ]

  -- Whatever the parser holds, if its buffer holds no newline, `feed` does what the machine does on
  -- the bytes of the chunk.
  pub feed-run :
      (p : SseParser) (chunk : Bytes)
      → HasNoNewline p.buffer
      → feed decode_utf8 p chunk ≡ run p chunk
  unfolding feed
  feed-run p chunk clean =
      feed_loop-run chunk p.buffer p.pending (suc (length (p.buffer ++ chunk))) clean
        (omega (arith, length-append p.buffer chunk))

  -- A line that ends leaves an event or none, and what the bytes behind it do.
  pub end_line-eq-ok :
      (p : SseParser) (more : Pending → Fed) (events : List SseEvent) (q : SseParser)
      → end_line p more ≡ ok (events, q)
      → (event : Option SseEvent) × (pending : Pending) × (later : List SseEvent) × (handle_line
            decode_utf8 p.pending
            (strip_return p.buffer)
          ≡ ok (event, pending))
        × (more pending ≡ ok (later, q))
        × (events ≡ add_event event later)
  end_line-eq-ok p more events q e = elim (Bool-cases (ltb max_line_bytes (length p.buffer))) [
    | inl long ↦ absurd (let refused = rw long at e in cc)
    | inr short ↦
        let ((event, pending), handled, rest) =
          >>=-eq-ok (handle_line decode_utf8 p.pending (strip_return p.buffer)) _ (rw short at e) in
        let ((later, q'), fed, last) = >>=-eq-ok (more pending) _ rest in
        let same = ok-injective _ last in
        (
          event,
          pending,
          later,
          handled,
          fed
              ∙ ap (λ (s : SseParser). ok (later, s))
                  (ap (λ (f : List SseEvent × SseParser). f.1) same),
          sym (ap (λ (f : List SseEvent × SseParser). f.0) same),
        )
  ]

  pub run-HasNoNewline :
      (bs : Bytes) (p : SseParser) (events : List SseEvent) (q : SseParser)
      → HasNoNewline p.buffer
      → run p bs ≡ ok (events, q)
      → HasNoNewline q.buffer
  unfolding run
  run-HasNoNewline [] p events q clean e =
      elim (Bool-cases (ltb max_line_bytes (length p.buffer))) [
        | inl long ↦ absurd (let refused = rw long at e in cc)
        | inr short ↦
            let same = ok-injective _ (rw short at e) in
            subst (λ (s : SseParser). HasNoNewline s.buffer)
              (ap (λ (f : List SseEvent × SseParser). f.1) same) clean
      ]
  run-HasNoNewline (b ∷ bs) p events q clean e = elim (Bool-cases (b == newline)) [
    | inl ends ↦
        let (event, pending, later, handled, fed, same) =
          end_line-eq-ok p _ events q (rw ends at e) in
        run-HasNoNewline bs (record { buffer = []; pending = pending }) later q tt fed
    | inr joins ↦
        run-HasNoNewline bs (record { buffer = p.buffer ++ b ∷ []; pending = p.pending }) events q
          (HasNoNewline-snoc p.buffer b clean (==→ne b newline joins)) (rw joins at e)
  ]

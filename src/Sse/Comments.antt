-- ===== src/Sse/Comments.antt =====
-- `_SseParser` of poe_events.py on keepalive comments: a colon alone and a blank line.
use label_309_py.Prelude.{
  ℕ, zero, suc, ◌+◌, ◌≤◌, ◌≡◌, refl, ◌∙◌, inl, inr, none, [], ◌∷◌, ltb, leb, if◌then◌else◌, ok, err,
  ◌>>=◌, arith, Bool-cases, ltb→lt, ltb→le, le→leb, lt→leb,
}
use label_309_py.Bytes.{Bytes}
use label_309_py.Sse.{
  Text, SseParser, Fed, with_event, event_limit, max_event_bytes, newline, colon, handle_line,
  dispatch, strip_return, starts_with_colon, feed,
}
use label_309_py.Sse.Machine.{run, feed-run}

unfoldable pub comments : ℕ → Bytes
comments zero = []
comments (suc n) = colon ∷ newline ∷ newline ∷ comments n

-- A parser between two events that has counted `k` bytes.
abbrev pub counted : ℕ → SseParser
counted k = record {
  buffer = [];
  pending = record { event_name = []; data_lines = []; event_id = none; event_bytes = k };
}

with_event-none : (fed : Fed) → ((fed >>= λ f. with_event none f) >>= λ f. with_event none f) ≡ fed
with_event-none (err e) = refl
with_event-none (ok (events, p)) = refl

module _ (decode_utf8 : Bytes → Text) (ascii : decode_utf8 (colon ∷ []) ≡ colon ∷ []) where
  run-comment :
      (k : ℕ) (rest : Bytes)
      → run decode_utf8 (counted k) (colon ∷ newline ∷ newline ∷ rest) ≡ (
          if ltb max_event_bytes (k + 1)
          then err event_limit
          else run decode_utf8 (counted (k + 1)) rest)
  unfolding run handle_line dispatch strip_return starts_with_colon
  run-comment k rest = elim (Bool-cases (ltb max_event_bytes (k + 1))) [
    | inl full ↦ rw full refl
    | inr room ↦ rw (room, ascii) (with_event-none (run decode_utf8 (counted (k + 1)) rest))
  ]

  run-comments :
      (n k : ℕ)
      → k ≤ max_event_bytes
      → run decode_utf8 (counted k) (comments n)
        ≡ (if leb (k + n) max_event_bytes then ok ([], counted (k + n)) else err event_limit)
  unfolding comments
  run-comments zero k h =
      let e : k + 0 ≡ k = omega arith in rw (e, le→leb k max_event_bytes h) (unfold run in refl)
  run-comments (suc n) k h = elim (Bool-cases (ltb max_event_bytes (k + 1))) [
    | inl full ↦
        let lt = ltb→lt _ _ full in
        run-comment k (comments n)
        ∙ rw (full, lt→leb (k + suc n) max_event_bytes (omega arith)) refl
    | inr room ↦
        let e : k + suc n ≡ k + 1 + n = omega arith in
        run-comment k (comments n) ∙ rw (room, e) (run-comments n (k + 1) (ltb→le _ _ room))
  ]

  -- Keepalive comments deliver no event, and each of them counts against the limit of an event, until
  -- the one after 262144 comments is refused as an event that is too long (a colon decodes to itself).
  pub feed-comments :
      (n : ℕ)
      → feed decode_utf8 (counted 0) (comments n)
        ≡ (if leb n max_event_bytes then ok ([], counted n) else err event_limit)
  feed-comments n =
      let e : 0 + n ≡ n = omega arith in
      feed-run decode_utf8 (counted 0) (comments n) tt ∙ rw e at (run-comments n 0 (omega arith))

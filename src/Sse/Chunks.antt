-- ===== src/Sse/Chunks.antt =====
-- The boundaries between the chunks of a response mean nothing to `_SseParser` of poe_events.py.
use label_309_py.Prelude.{
  ℕ, ◌<◌, ◌≡◌, refl, sym, ap, ◌∙◌, inl, inr, Bool, true, false, not, Option, none, some, List, [],
  ◌∷◌, ◌++◌, ltb, ◌==◌, length, length-append, Result, ok, err, ◌>>=◌, ◌>>◌, require, arith,
  Bool-cases, fun_ext, lt→ltb, ltb→lt,
}
use label_309_py.Bytes.{Bytes}
use label_309_py.Sse.{
  SseEvent, SseError, SseParser, Pending, Fed, newline, max_line_bytes, line_limit, handle_line,
  strip_return, feed, with_event, add_event,
}
use label_309_py.Sse.Machine.{HasNoNewline, run, end_line, feed-run, run-HasNoNewline}

-- What follows a feed: the events are put together.
abbrev pub then_feed : Fed → (SseParser → Fed) → Fed
then_feed fed more = do (events, p) ← fed; (later, q) ← more p; ok (events ++ later, q)

then_feed_nil : (fed : Fed) → (fed >>= λ (later, q). ok (later, q)) ≡ fed
then_feed_nil (err e) = refl
then_feed_nil (ok (later, q)) = refl

add_event-append :
    (event : Option SseEvent) (events : List SseEvent) (fed : Fed)
    → (fed >>= λ (later, q). ok (add_event event events ++ later, q))
      ≡ (fed >>= λ (later, q). with_event event (events ++ later, q))
add_event-append event events (err e) = refl
add_event-append none events (ok fed) = refl
add_event-append (some event) events (ok fed) = refl

then_feed-with_event :
    (event : Option SseEvent) (fed : Fed) (more : SseParser → Fed)
    → then_feed (fed >>= λ f. with_event event f) more
      ≡ (then_feed fed more >>= λ f. with_event event f)
then_feed-with_event event (err e) more = refl
then_feed-with_event event (ok (events, p)) more =
    elim (more p)
      as (λ fed.
        (fed >>= λ (later, q). ok (add_event event events ++ later, q))
        ≡ ((fed >>= λ (later, q). ok (events ++ later, q)) >>= λ f. with_event event f)) [
          | err e ↦ refl
          | ok fed ↦ add_event-append event events (ok fed)
        ]

-- What a chain of a feed's turn does behind it can be done inside the turn.
then_feed-turn :
    (fits : Bool) (handled : Result SseError (Option SseEvent × Pending)) (rest : Pending → Fed)
    (more : SseParser → Fed)
    → then_feed
        (require fits line_limit
          >> (handled >>= λ (event, pending). rest pending >>= λ f. with_event event f))
        more
      ≡ (require fits line_limit
          >> (handled >>= λ (event, pending).
              then_feed (rest pending) more >>= λ f. with_event event f))
then_feed-turn false handled rest more = refl
then_feed-turn true (err e) rest more = refl
then_feed-turn true (ok (event, pending)) rest more = then_feed-with_event event (rest pending) more

module _ (decode_utf8 : Bytes → List ℕ) where
  -- A line that is too long is an error, whatever follows it.
  run-too_long :
      (bs : Bytes) (p : SseParser)
      → max_line_bytes < length p.buffer
      → run decode_utf8 p bs ≡ err line_limit
  unfolding run
  run-too_long [] p long = rw (lt→ltb max_line_bytes (length p.buffer) long) refl
  run-too_long (b ∷ bs) p long = elim (Bool-cases (b == newline)) [
    | inl ends ↦ rw (ends, lt→ltb max_line_bytes (length p.buffer) long) refl
    | inr joins ↦ rw joins (
        run-too_long bs (record { buffer = p.buffer ++ b ∷ []; pending = p.pending })
          (omega (arith, length-append p.buffer (b ∷ []))))
  ]

  run-append :
      (s t : Bytes) (p : SseParser)
      → run decode_utf8 p (s ++ t) ≡ then_feed (run decode_utf8 p s) (λ q. run decode_utf8 q t)
  unfolding run
  run-append [] t p = elim (Bool-cases (ltb max_line_bytes (length p.buffer))) [
    | inl long ↦ rw (long, run-too_long t p (ltb→lt _ _ long)) refl
    | inr short ↦ rw short (sym (then_feed_nil (run decode_utf8 p t)))
  ]
  run-append (b ∷ s) t p = elim (Bool-cases (b == newline)) [
    | inr joins ↦
        rw joins (run-append s t (record { buffer = p.buffer ++ b ∷ []; pending = p.pending }))
    | inl ends ↦ rw ends (
        ap (end_line decode_utf8 p)
          (fun_ext λ pending. run-append s t (record { buffer = []; pending = pending }))
        ∙ sym (
            then_feed-turn (not (ltb max_line_bytes (length p.buffer)))
              (handle_line decode_utf8 p.pending (strip_return p.buffer))
              (λ pending. run decode_utf8 (record { buffer = []; pending = pending }) s)
              (λ q. run decode_utf8 q t)))
  ]

  then_feed-clean :
      (fed : Fed) (t : Bytes)
      → ((events : List SseEvent) (q : SseParser) → fed ≡ ok (events, q) → HasNoNewline q.buffer)
      → then_feed fed (λ q. run decode_utf8 q t) ≡ then_feed fed (λ q. feed decode_utf8 q t)
  then_feed-clean (err e) t clean = refl
  then_feed-clean (ok (events, q)) t clean =
      ap (λ (f : Fed). f >>= λ (later, r). ok (events ++ later, r))
        (sym (feed-run decode_utf8 q t (clean events q refl)))

  -- Feeding a parser two chunks, one after the other, gives the events and the state, or the error,
  -- that feeding their concatenation gives, if the buffer holds no newline, as between two feeds.
  pub feed-append :
      (p : SseParser) (s t : Bytes)
      → HasNoNewline p.buffer
      → feed decode_utf8 p (s ++ t) ≡ then_feed (feed decode_utf8 p s) (λ q. feed decode_utf8 q t)
  feed-append p s t clean =
      feed-run decode_utf8 p (s ++ t) clean
      ∙ run-append s t p
      ∙ then_feed-clean (run decode_utf8 p s) t
          (λ events q e. run-HasNoNewline decode_utf8 s p events q clean e)
      ∙ rw (feed-run decode_utf8 p s clean) refl

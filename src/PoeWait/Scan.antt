-- ===== src/PoeWait/Scan.antt =====
-- `_wait_loop` of poe_events.py, and one scan over the events of all its connections.
use label_309_py.Prelude.{
  ℕ, suc, ◌≡◌, refl, sym, ap, ◌∙◌, Bool, not, ◌||◌, Option, none, some, List, [], ◌∷◌, ◌++◌, map,
  ok, err, if◌then◌else◌, fun_ext, false,
}
use label_309_py.Bytes.{Bytes}
use label_309_py.Sse.{Text, SseEvent, SseParser, Fed, new_parser, feed, is_empty}
use label_309_py.PoeWait.{
  JsonValue, PoeWaitTarget, Attempt, busy, unavailable, rejected, streaming, WaitState, Waiting,
  waiting, reached, poe_failed, http_error, WaitOutcome, handle_event, handle_events, while_waiting,
  after_events, after_feed, read_chunks, attempt_once, after_attempt, wait_loop,
}

-- What the connections bring, in order: an event that is delivered, or a definitive rejection.
pub data Item : Type 0 where
  event : SseEvent → Item
  rejection : ℕ → Item

module _ (decode_utf8 : Bytes → Text) where
  -- The events of a feed and those of the feeds behind it.
  abbrev pub events_then : (SseParser → List SseEvent) → Fed → List SseEvent
  events_then more (err e) = []
  events_then more (ok fed) = fed.0 ++ more fed.1

  -- The events of a stream, up to a framing violation.
  unfoldable pub fed_events : List Bytes → SseParser → List SseEvent
  fed_events [] parser = []
  fed_events (chunk ∷ chunks) parser =
      events_then (fed_events chunks) (feed decode_utf8 parser chunk)

  unfoldable pub items_of : Attempt → List Item
  items_of (busy retry_after) = []
  items_of unavailable = []
  items_of (rejected status) = rejection status ∷ []
  items_of (streaming chunks) = map event (fed_events chunks new_parser)

  unfoldable pub items : List (Attempt × (ℕ → ℕ)) → List Item
  items [] = []
  items ((attempt, jitter) ∷ attempts) = items_of attempt ++ items attempts

-- The id to resume from behind these items.
unfoldable pub last_id : Option Text → List Item → Option Text
last_id id [] = id
last_id id (event e ∷ rest) = last_id (elim e.id [ none ↦ id | some new ↦ some new ]) rest
last_id id (rejection status ∷ rest) = last_id id rest

module _ (json_loads : Text → Option JsonValue) (target : PoeWaitTarget) where
  -- One scan, without connections.
  unfoldable pub scan : List Item → WaitState → Waiting
  scan [] s = waiting s
  scan (event e ∷ rest) s = while_waiting (handle_event json_loads target e s) (λ s'. scan rest s')
  scan (rejection status ∷ rest) s = http_error status

  while_waiting_assoc :
      (w : Waiting) (f g : WaitState → Waiting)
      → while_waiting (while_waiting w f) g ≡ while_waiting w (λ s. while_waiting (f s) g)
  while_waiting_assoc (waiting s) f g = refl
  while_waiting_assoc (reached snapshot) f g = refl
  while_waiting_assoc (poe_failed snapshot) f g = refl
  while_waiting_assoc (http_error status) f g = refl

  while_waiting-waiting : (w : Waiting) → while_waiting w waiting ≡ w
  while_waiting-waiting (waiting s) = refl
  while_waiting-waiting (reached snapshot) = refl
  while_waiting-waiting (poe_failed snapshot) = refl
  while_waiting-waiting (http_error status) = refl

  pub scan-append :
      (xs ys : List Item) (s : WaitState) → scan (xs ++ ys) s ≡ while_waiting (scan xs s) (scan ys)
  unfolding scan
  scan-append [] ys s = refl
  scan-append (event e ∷ xs) ys s =
      ap (while_waiting (handle_event json_loads target e s)) (fun_ext (scan-append xs ys))
      ∙ sym (while_waiting_assoc (handle_event json_loads target e s) (scan xs) (scan ys))
  scan-append (rejection status ∷ xs) ys s = refl

  scan-map_event :
      (es : List SseEvent) (s : WaitState)
      → scan (map event es) s ≡ handle_events json_loads target es s
  unfolding scan handle_events
  scan-map_event [] s = refl
  scan-map_event (e ∷ es) s =
      ap (while_waiting (handle_event json_loads target e s)) (fun_ext (scan-map_event es))

  handle_events-append :
      (xs ys : List SseEvent) (s : WaitState)
      → handle_events json_loads target (xs ++ ys) s
        ≡ while_waiting (handle_events json_loads target xs s) (handle_events json_loads target ys)
  unfolding handle_events
  handle_events-append [] ys s = refl
  handle_events-append (e ∷ xs) ys s =
      ap (while_waiting (handle_event json_loads target e s)) (fun_ext (handle_events-append xs ys))
      ∙ sym (
          while_waiting_assoc (handle_event json_loads target e s)
            (handle_events json_loads target xs) (handle_events json_loads target ys))

  after_events-while_waiting :
      (w : Waiting) (more : WaitState → Waiting × Bool)
      → (after_events more w).0 ≡ while_waiting w (λ s. (more s).0)
  unfolding after_events
  after_events-while_waiting (waiting s) more = refl
  after_events-while_waiting (reached snapshot) more = refl
  after_events-while_waiting (poe_failed snapshot) more = refl
  after_events-while_waiting (http_error status) more = refl

module _ (decode_utf8 : Bytes → Text) (json_loads : Text → Option JsonValue)
    (target : PoeWaitTarget) where
  after_feed-events_then :
      (fed : Fed) (more : SseParser → WaitState → Bool → Waiting × Bool)
      (events : SseParser → List SseEvent) (s : WaitState) (delivered : Bool)
      → ((p : SseParser) (s' : WaitState) (d : Bool)
          → (more p s' d).0 ≡ handle_events json_loads target (events p) s')
      → (after_feed json_loads target more s delivered fed).0
        ≡ handle_events json_loads target (events_then decode_utf8 events fed) s
  unfolding after_feed
  after_feed-events_then (err e) more events s delivered same = unfold handle_events in refl
  after_feed-events_then (ok (now, parser)) more events s delivered same =
      after_events-while_waiting json_loads target (handle_events json_loads target now s) _
      ∙ ap (while_waiting (handle_events json_loads target now s))
          (fun_ext λ s'. same parser s' (delivered || not (is_empty now)))
      ∙ sym (handle_events-append json_loads target now (events parser) s)

  read_chunks-handle_events :
      (chunks : List Bytes) (parser : SseParser) (s : WaitState) (delivered : Bool)
      → (read_chunks decode_utf8 json_loads target chunks parser s delivered).0
        ≡ handle_events json_loads target (fed_events decode_utf8 chunks parser) s
  unfolding read_chunks fed_events
  read_chunks-handle_events [] parser s delivered = unfold handle_events in refl
  read_chunks-handle_events (chunk ∷ chunks) parser s delivered =
      after_feed-events_then (feed decode_utf8 parser chunk)
        (read_chunks decode_utf8 json_loads target chunks) (fed_events decode_utf8 chunks) s
        delivered (read_chunks-handle_events chunks)

  attempt_once-scan :
      (attempt : Attempt) (s : WaitState)
      → (attempt_once decode_utf8 json_loads target attempt s).0
        ≡ scan json_loads target (items_of decode_utf8 attempt) s
  unfolding attempt_once items_of scan
  attempt_once-scan (busy retry_after) s = refl
  attempt_once-scan unavailable s = refl
  attempt_once-scan (rejected status) s = refl
  attempt_once-scan (streaming chunks) s =
      read_chunks-handle_events chunks new_parser s false
      ∙ sym (scan-map_event json_loads target (fed_events decode_utf8 chunks new_parser) s)

  after_attempt-while_waiting :
      (sent : Option Text) (delay : ℕ) (more : WaitState → WaitOutcome) (w : Waiting)
      → (after_attempt sent delay more w).result ≡ while_waiting w (λ s. (more s).result)
  unfolding after_attempt
  after_attempt-while_waiting sent delay more (waiting s) = refl
  after_attempt-while_waiting sent delay more (reached snapshot) = refl
  after_attempt-while_waiting sent delay more (poe_failed snapshot) = refl
  after_attempt-while_waiting sent delay more (http_error status) = refl

  -- A wait over any sequence of attempts, with whatever delays, comes to what one scan over the
  -- events that they deliver and their definitive rejections comes to.
  pub wait_loop-scan :
      (attempts : List (Attempt × (ℕ → ℕ))) (s : WaitState) (ladder_idx : ℕ)
      → (wait_loop decode_utf8 json_loads target attempts s ladder_idx).result
        ≡ scan json_loads target (items decode_utf8 attempts) s
  unfolding wait_loop items
  wait_loop-scan [] s ladder_idx = unfold scan in refl
  wait_loop-scan ((attempt, jitter) ∷ attempts) s ladder_idx =
      let first = attempt_once decode_utf8 json_loads target attempt s in
      let idx : ℕ = if first.1 then 0 else ladder_idx in
      after_attempt-while_waiting s.last_event_id _ _ first.0
      ∙ ap (while_waiting first.0) (fun_ext λ s'. wait_loop-scan attempts s' (suc idx))
      ∙ ap (λ (w : Waiting). while_waiting w (scan json_loads target (items decode_utf8 attempts)))
          (attempt_once-scan attempt s)
      ∙ sym (
          scan-append json_loads target (items_of decode_utf8 attempt) (items decode_utf8 attempts)
            s)

-- ===== src/PoeWait/Live.antt =====
-- When `_wait_loop` of poe_events.py ends, and from which id it resumes until then.
use label_309_py.Prelude.{
  ℕ, ◌≡◌, ◌≢◌, refl, sym, ap, ◌∙◌, ◌⊎◌, inl, inr, true, false, Option, none, some, List, [], ◌∷◌,
  ◌++◌, All, Bool-cases, codes, subst, get_elem?, length, suc,
}
use label_309_py.Bytes.{Bytes, bytes_eq, bytes_eq-eq, bytes_eq-ne}
use label_309_py.Sse.{Text, SseEvent}
use label_309_py.PoeWait.{
  JsonValue, PoeStatusSnapshot, PoeWaitTarget, Attempt, WaitState, Waiting, waiting, reached,
  poe_failed, http_error, handle_event, handle_snapshot, while_waiting, wait_loop, parse_snapshot,
  target_reached, WaitOutcome, after_attempt,
}
use label_309_py.PoeWait.Scan.{
  Item, event, rejection, items, scan, scan-append, wait_loop-scan, last_id,
}

abbrev pub IsEvent : Item → Type 0
IsEvent (event e) = Unit
IsEvent (rejection status) = ⊥

-- The wait has ended with a snapshot: one of a failed record, or one that reaches the target.
abbrev pub IsConcluded : PoeWaitTarget → Waiting → Type 0
IsConcluded target (waiting s) = ⊥
IsConcluded target (reached snapshot) =
    (target_reached snapshot.status target ≡ true) × (snapshot.status ≢ codes "failed")
IsConcluded target (poe_failed snapshot) = snapshot.status ≡ codes "failed"
IsConcluded target (http_error status) = ⊥

-- An event that a wait for `target` cannot pass by.
pub record IsConclusive (json_loads : Text → Option JsonValue) (target : PoeWaitTarget)
    (e : SseEvent) : Type 0 where
  pub snapshot : PoeStatusSnapshot
  pub not_ping : bytes_eq e.name (codes "ping") ≡ false
  pub parsed : parse_snapshot json_loads e.data_ ≡ some snapshot
  pub final_ : (snapshot.status ≡ codes "failed") ⊎ (target_reached snapshot.status target ≡ true)

module _ (json_loads : Text → Option JsonValue) (target : PoeWaitTarget) where
  handle_snapshot-cases :
      (s : WaitState) (snapshot : Option PoeStatusSnapshot)
      → ((s' : WaitState) × (handle_snapshot json_loads target s snapshot ≡ waiting s')
          × (s'.last_event_id ≡ s.last_event_id))
        ⊎ IsConcluded target (handle_snapshot json_loads target s snapshot)
  unfolding handle_snapshot
  handle_snapshot-cases s none = inl (s, refl, refl)
  handle_snapshot-cases s (some snapshot) =
      elim (Bool-cases (bytes_eq snapshot.status (codes "failed"))) [
        | inl failed ↦ rw failed (inr (bytes_eq-eq _ _ failed))
        | inr other ↦ elim (Bool-cases (target_reached snapshot.status target)) [
          | inl there ↦ rw (other, there) (inr (there, bytes_eq-ne snapshot.status _ other))
          | inr not_yet ↦
              rw (other, not_yet) (inl (record s { last_snapshot = some snapshot }, refl, refl))
        ]
      ]

  -- An event is passed by, and its id kept, or it ends the wait.
  handle_event-cases :
      (e : SseEvent) (s : WaitState)
      → ((s' : WaitState) × (handle_event json_loads target e s ≡ waiting s')
          × (s'.last_event_id ≡ elim e.id [ none ↦ s.last_event_id | some new ↦ some new ]))
        ⊎ IsConcluded target (handle_event json_loads target e s)
  unfolding handle_event
  handle_event-cases e s = elim (Bool-cases (bytes_eq e.name (codes "ping"))) [
    | inl ping ↦ rw ping (inl (_, refl, refl))
    | inr other ↦ rw other (handle_snapshot-cases _ (parse_snapshot json_loads e.data_))
  ]

  handle_event-IsConclusive :
      (e : SseEvent) (s : WaitState)
      → IsConclusive json_loads target e
      → IsConcluded target (handle_event json_loads target e s)
  unfolding handle_event handle_snapshot
  handle_event-IsConclusive e s c =
      rw (c.not_ping, c.parsed)
        (elim (Bool-cases (bytes_eq c.snapshot.status (codes "failed"))) [
          | inl failed ↦ rw failed (bytes_eq-eq _ _ failed)
          | inr other ↦
              let ne = bytes_eq-ne c.snapshot.status (codes "failed") other in
              elim c.final_ [
                | inl same ↦ absurd (ne same)
                | inr there ↦ rw (other, there) (there, ne)
              ]
        ])

  IsConcluded-while_waiting :
      (w : Waiting) (more : WaitState → Waiting)
      → IsConcluded target w
      → IsConcluded target (while_waiting w more)
  IsConcluded-while_waiting (waiting s) more c = absurd c
  IsConcluded-while_waiting (reached snapshot) more c = c
  IsConcluded-while_waiting (poe_failed snapshot) more c = c
  IsConcluded-while_waiting (http_error status) more c = absurd c

  IsConcluded-not_waiting : (w : Waiting) (s : WaitState) → IsConcluded target w → w ≢ waiting s
  IsConcluded-not_waiting (waiting s') s c h = absurd c
  IsConcluded-not_waiting (reached snapshot) s c h = cc
  IsConcluded-not_waiting (poe_failed snapshot) s c h = cc
  IsConcluded-not_waiting (http_error status) s c h = absurd c

  -- Behind events, a scan goes on or has been concluded.
  scan-cases :
      (xs : List Item) (s : WaitState)
      → All IsEvent xs
      → ((s' : WaitState) × (scan json_loads target xs s ≡ waiting s'))
        ⊎ IsConcluded target (scan json_loads target xs s)
  unfolding scan
  scan-cases [] s h = inl (s, refl)
  scan-cases (event e ∷ xs) s h = elim (handle_event-cases e s) [
    | inl (s', on, id) ↦ rw on (scan-cases xs s' h.1)
    | inr concluded ↦ inr (
        IsConcluded-while_waiting (handle_event json_loads target e s) (scan json_loads target xs)
          concluded)
  ]
  scan-cases (rejection status ∷ xs) s h = absurd (h.0)

  scan-last_id :
      (xs : List Item) (s s' : WaitState)
      → scan json_loads target xs s ≡ waiting s'
      → s'.last_event_id ≡ last_id s.last_event_id xs
  unfolding scan last_id
  scan-last_id [] s s' h =
      let same : s ≡ s' = cc in ap (λ (x : WaitState). x.last_event_id) (sym same)
  scan-last_id (event e ∷ xs) s s' h = elim (handle_event-cases e s) [
    | inl (next, on, id) ↦ scan-last_id xs next s' (rw on at h) ∙ ap (λ i. last_id i xs) id
    | inr concluded ↦ absurd (
        IsConcluded-not_waiting _ s'
          (IsConcluded-while_waiting (handle_event json_loads target e s)
            (scan json_loads target xs) concluded)
          h)
  ]
  scan-last_id (rejection status ∷ xs) s s' h = cc

module _ (decode_utf8 : Bytes → Text) (json_loads : Text → Option JsonValue)
    (target : PoeWaitTarget) (attempts : List (Attempt × (ℕ → ℕ))) (s : WaitState)
    (ladder_idx : ℕ) where
  -- If the attempts deliver, with no definitive rejection before it, an event with a snapshot that
  -- has failed or reaches the target, the wait ends with a failed snapshot, or with one that has not
  -- failed and reaches the target.
  pub wait_loop-IsConcluded :
      (before : List Item) (e : SseEvent) (after : List Item)
      → items decode_utf8 attempts ≡ before ++ event e ∷ after
      → All IsEvent before
      → IsConclusive json_loads target e
      → IsConcluded target (wait_loop decode_utf8 json_loads target attempts s ladder_idx).result
  wait_loop-IsConcluded before e after split no_rejection conclusive =
      let whole =
        wait_loop-scan decode_utf8 json_loads target attempts s ladder_idx
        ∙ ap (λ (l : List Item). scan json_loads target l s) split
        ∙ scan-append json_loads target before (event e ∷ after) s in
      subst (IsConcluded target) (sym whole)
        (elim (scan-cases json_loads target before s no_rejection) [
          | inl (s', on) ↦ rw on (
              unfold scan in
              IsConcluded-while_waiting json_loads target (handle_event json_loads target e s')
                (scan json_loads target after)
                (handle_event-IsConclusive json_loads target e s' conclusive))
          | inr concluded ↦
              IsConcluded-while_waiting json_loads target (scan json_loads target before s) _
                concluded
        ])

  -- While a wait goes on, its id is that of the last event with one among all that the attempts have
  -- delivered, or the one that it began with.
  wait_loop-last_id :
      (s' : WaitState)
      → (wait_loop decode_utf8 json_loads target attempts s ladder_idx).result ≡ waiting s'
      → s'.last_event_id ≡ last_id s.last_event_id (items decode_utf8 attempts)
  wait_loop-last_id s' h =
      scan-last_id json_loads target (items decode_utf8 attempts) s s'
        (sym (wait_loop-scan decode_utf8 json_loads target attempts s ladder_idx) ∙ h)

module _ (decode_utf8 : Bytes → Text) (json_loads : Text → Option JsonValue)
    (target : PoeWaitTarget) where
  first_request :
      (sent : Option Text) (delay : ℕ) (more : WaitState → WaitOutcome) (w : Waiting)
      → get_elem? (after_attempt sent delay more w).requests 0 ≡ some sent
  unfolding after_attempt
  first_request sent delay more (waiting s) = refl
  first_request sent delay more (reached snapshot) = refl
  first_request sent delay more (poe_failed snapshot) = refl
  first_request sent delay more (http_error status) = refl

  -- What follows an attempt behind which the wait goes on.
  after_attempt-waiting :
      (sent : Option Text) (delay : ℕ) (more : WaitState → WaitOutcome) (w : Waiting)
      (s' : WaitState)
      → (after_attempt sent delay more w).result ≡ waiting s'
      → (s : WaitState) × (w ≡ waiting s) × ((more s).result ≡ waiting s')
  unfolding after_attempt
  after_attempt-waiting sent delay more (waiting s) s' h = (s, refl, h)
  after_attempt-waiting sent delay more (reached snapshot) s' h = absurd (cc)
  after_attempt-waiting sent delay more (poe_failed snapshot) s' h = absurd (cc)
  after_attempt-waiting sent delay more (http_error status) s' h = absurd (cc)

  next_request :
      (sent : Option Text) (delay : ℕ) (more : WaitState → WaitOutcome) (w : Waiting)
      (s : WaitState) (n : ℕ)
      → w ≡ waiting s
      → get_elem? (after_attempt sent delay more w).requests (suc n) ≡ get_elem? (more s).requests n
  unfolding after_attempt
  next_request sent delay more w s n on = rw on refl

  later_request :
      (done : List (Attempt × (ℕ → ℕ))) (next : Attempt × (ℕ → ℕ)) (rest : List (Attempt × (ℕ → ℕ)))
      (s s' : WaitState) (ladder_idx : ℕ)
      → (wait_loop decode_utf8 json_loads target done s ladder_idx).result ≡ waiting s'
      → get_elem?
          (wait_loop decode_utf8 json_loads target (done ++ next ∷ rest) s ladder_idx).requests
          (length done)
        ≡ some s'.last_event_id
  unfolding wait_loop
  later_request [] next rest s s' ladder_idx h =
      let same : s ≡ s' = cc in
      first_request s.last_event_id _ _ _ ∙ ap (λ (x : WaitState). some x.last_event_id) same
  later_request ((attempt, jitter) ∷ done) next rest s s' ladder_idx h =
      let (now, on, later) = after_attempt-waiting s.last_event_id _ _ _ s' h in
      next_request s.last_event_id _ _ _ now (length done) on
      ∙ later_request done next rest now s' _ later

  -- Each request of a wait carries the id of the last event with one among all that the attempts
  -- before it have delivered, or the id that the wait began with, if the wait goes on behind them.
  pub requests-last_id :
      (done : List (Attempt × (ℕ → ℕ))) (next : Attempt × (ℕ → ℕ)) (rest : List (Attempt × (ℕ → ℕ)))
      (s s' : WaitState) (ladder_idx : ℕ)
      → (wait_loop decode_utf8 json_loads target done s ladder_idx).result ≡ waiting s'
      → get_elem?
          (wait_loop decode_utf8 json_loads target (done ++ next ∷ rest) s ladder_idx).requests
          (length done)
        ≡ some (last_id s.last_event_id (items decode_utf8 done))
  requests-last_id done next rest s s' ladder_idx h =
      later_request done next rest s s' ladder_idx h
      ∙ ap some (wait_loop-last_id decode_utf8 json_loads target done s ladder_idx s' h)

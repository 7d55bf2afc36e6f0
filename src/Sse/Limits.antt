-- ===== src/Sse/Limits.antt =====
-- What `_SseParser` of poe_events.py holds between two feeds.
use label_309_py.Prelude.{
  ℕ, suc, ◌+◌, ◌≤◌, ◌≡◌, sym, ap, ◌∙◌, inl, inr, not, Option, none, some, List, [], ◌∷◌, ◌++◌, ltb,
  ◌==◌, length, ok, ◌&&◌, arith, Bool-cases, ltb→le, ok-injective, ==→ne, subst,
}
use label_309_py.Bytes.{Bytes, bytes_eq, bytes_eq-eq}
use label_309_py.Sse.{
  Text, SseEvent, SseParser, Pending, newline, max_line_bytes, max_event_bytes, handle_line,
  strip_return, dispatch, is_empty, is_none, set_field, read_field, partition, strip_space,
  starts_with_colon, event_field, data_field, id_field, has_nul, feed,
}
use label_309_py.Sse.Machine.{HasNoNewline, HasNoNewline-snoc, run, end_line-eq-ok, feed-run}

-- The characters of the lines, with one for each line.
abbrev pub lines_size : List Text → ℕ
lines_size [] = 0
lines_size (l ∷ ls) = suc (length l) + lines_size ls

abbrev pub id_size : Option Text → ℕ
id_size none = 0
id_size (some id) = length id

-- All that the parser holds of an event is paid for by bytes of its lines, which are limited.
pub record IsPaid (p : Pending) : Type 0 where
  pub paid : length p.event_name + lines_size p.data_lines + id_size p.event_id ≤ p.event_bytes
  pub limited : p.event_bytes ≤ max_event_bytes

pub record IsBounded (p : SseParser) : Type 0 where
  pub clean : HasNoNewline p.buffer
  pub short : length p.buffer ≤ max_line_bytes
  pub event : IsPaid p.pending

length-partition :
    (line : Text) → length (partition line).0 + length (partition line).1 ≤ length line
unfolding partition
length-partition [] = omega arith
length-partition (c ∷ cs) = ground (arith, length-partition cs)

length-strip_space : (x : Text) → length (strip_space x) ≤ length x
unfolding strip_space
length-strip_space [] = omega arith
length-strip_space (c ∷ cs) = ground arith

lines_size-append :
    (ls : List Text) (l : Text) → lines_size (ls ++ l ∷ []) ≡ lines_size ls + suc (length l)
lines_size-append [] l = omega arith
lines_size-append (m ∷ ls) l = omega (arith, lines_size-append ls l)

-- A field is paid for by its name and its value.
set_field-paid :
    (p : Pending) (name value : Text) (paid : ℕ)
    → length p.event_name + lines_size p.data_lines + id_size p.event_id ≤ paid
    → length (set_field p name value).event_name
        + lines_size (set_field p name value).data_lines
        + id_size (set_field p name value).event_id
      ≤ paid + (length name + length value)
unfolding set_field
set_field-paid p name value paid h = elim (Bool-cases (bytes_eq name event_field)) [
  | inl e ↦ rw e (omega arith)
  | inr not_event ↦ elim (Bool-cases (bytes_eq name data_field)) [
    | inl d ↦
        rw (not_event, d)
          (omega (
            arith,
            lines_size-append p.data_lines value,
            ap length (bytes_eq-eq name data_field d),
          ))
    | inr not_data ↦ elim (Bool-cases (bytes_eq name id_field && not (has_nul value))) [
      | inl i ↦ rw (not_event, not_data, i) (omega arith)
      | inr other ↦ rw (not_event, not_data, other) (omega arith)
    ]
  ]
]

dispatch-IsPaid : (p : Pending) → IsPaid p → IsPaid (dispatch p).1
unfolding dispatch
dispatch-IsPaid p h =
    elim (Bool-cases (is_empty p.event_name && is_empty p.data_lines && is_none p.event_id)) [
      | inl nothing ↦ rw nothing h
      | inr something ↦ rw something (omega arith)
    ]

length-strip_return : (x : Bytes) → length (strip_return x) ≤ length x
unfolding strip_return
length-strip_return [] = omega arith
length-strip_return (b ∷ []) = ground arith
length-strip_return (b ∷ c ∷ bs) = omega (arith, length-strip_return (c ∷ bs))

-- UTF-8 has at most one character for each byte, replacement characters included.
module _ (decode_utf8 : Bytes → Text)
    (no_longer : (x : Bytes) → length (decode_utf8 x) ≤ length x) where
  read_field-paid :
      (p : Pending) (raw : Bytes) (paid : ℕ)
      → length p.event_name + lines_size p.data_lines + id_size p.event_id ≤ paid
      → length (read_field p (decode_utf8 raw)).event_name
          + lines_size (read_field p (decode_utf8 raw)).data_lines
          + id_size (read_field p (decode_utf8 raw)).event_id
        ≤ paid + length raw
  unfolding read_field
  read_field-paid p raw paid h =
      let line = decode_utf8 raw in
      omega (
        arith,
        no_longer raw,
        length-partition line,
        length-strip_space (partition line).1,
        set_field-paid p (partition line).0 (strip_space (partition line).1) paid h,
      )

  read_field-event_bytes :
      (p : Pending) (line : Text) → (read_field p line).event_bytes ≡ p.event_bytes
  unfolding read_field set_field
  read_field-event_bytes p line = ground arith

  handle_line-IsPaid :
      (p : Pending) (raw : Bytes) (event : Option SseEvent) (q : Pending)
      → IsPaid p
      → handle_line decode_utf8 p raw ≡ ok (event, q)
      → IsPaid q
  unfolding handle_line
  handle_line-IsPaid p raw event q h e = elim (Bool-cases (is_empty raw)) [
    | inl blank ↦
        let same = ok-injective _ (rw blank at e) in
        subst IsPaid (ap (λ (r : Option SseEvent × Pending). r.1) same) (dispatch-IsPaid p h)
    | inr line ↦ elim (Bool-cases (ltb max_event_bytes (p.event_bytes + length raw))) [
      | inl long ↦ absurd (let refused = rw (line, long) at e in cc)
      | inr short ↦
          let within = ltb→le max_event_bytes (p.event_bytes + length raw) short in
          let p' : Pending = record p { event_bytes = p.event_bytes + length raw } in
          elim (Bool-cases (starts_with_colon (decode_utf8 raw))) [
            | inl comment ↦
                let same = ok-injective _ (rw (line, short, comment) at e) in
                subst IsPaid (ap (λ (r : Option SseEvent × Pending). r.1) same)
                  (record { paid = omega arith; limited = within })
            | inr field ↦
                let same = ok-injective _ (rw (line, short, field) at e) in
                let size = read_field-event_bytes p' (decode_utf8 raw) in
                subst IsPaid (ap (λ (r : Option SseEvent × Pending). r.1) same) (record {
                  paid = rw size (read_field-paid p' raw p.event_bytes h.paid);
                  limited = rw size within;
                })
          ]
    ]
  ]

  run-IsBounded :
      (bs : Bytes) (p : SseParser) (events : List SseEvent) (q : SseParser)
      → HasNoNewline p.buffer
      → IsPaid p.pending
      → run decode_utf8 p bs ≡ ok (events, q)
      → IsBounded q
  unfolding run
  run-IsBounded [] p events q clean h e = elim (Bool-cases (ltb max_line_bytes (length p.buffer))) [
    | inl long ↦ absurd (let refused = rw long at e in cc)
    | inr short ↦
        let same = ok-injective _ (rw short at e) in
        subst IsBounded (ap (λ (f : List SseEvent × SseParser). f.1) same) (record {
          clean = clean;
          short = ltb→le max_line_bytes (length p.buffer) short;
          event = h;
        })
  ]
  run-IsBounded (b ∷ bs) p events q clean h e = elim (Bool-cases (b == newline)) [
    | inl ends ↦
        let (event, pending, later, handled, fed, same) =
          end_line-eq-ok decode_utf8 p _ events q (rw ends at e) in
        run-IsBounded bs (record { buffer = []; pending = pending }) later q tt
          (handle_line-IsPaid p.pending (strip_return p.buffer) event pending h handled) fed
    | inr joins ↦
        run-IsBounded bs (record { buffer = p.buffer ++ b ∷ []; pending = p.pending }) events q
          (HasNoNewline-snoc p.buffer b clean (==→ne b newline joins)) h (rw joins at e)
  ]

  -- A feed that succeeds on a parser within its limits leaves it within them: no newline and at most
  -- 65536 bytes in the buffer, and of the event that is being read no more than 262144 characters,
  -- one for each data line included (decoding makes no text longer than its bytes).
  pub feed-IsBounded :
      (p : SseParser) (chunk : Bytes) (events : List SseEvent) (q : SseParser)
      → IsBounded p
      → feed decode_utf8 p chunk ≡ ok (events, q)
      → IsBounded q
  feed-IsBounded p chunk events q h e =
      run-IsBounded chunk p events q h.clean h.event
        (sym (feed-run decode_utf8 p chunk h.clean) ∙ e)

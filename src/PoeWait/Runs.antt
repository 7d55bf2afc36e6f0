-- ===== src/PoeWait/Runs.antt =====
-- Waits over short streams. Bytes decode to themselves, and a payload's text is its status.
use label_309_py.Prelude.{
  get_elem?, ℕ, ◌≡◌, refl, some, none, Option, List, [], ◌∷◌, ◌++◌, inr, true, false, codes,
}
use label_309_py.Bytes.{Bytes, bytes_eq}
use label_309_py.Sse.{
  Text, SseEvent, feed, feed_loop, feed_turn, split_line, handle_line, strip_return,
  starts_with_colon, read_field, set_field, partition, has_nul, strip_space, dispatch,
  name_or_message, join_lines,
}
use label_309_py.PoeWait.{
  JsonValue, string, object, field, no_fields, confirmed, Attempt, busy, unavailable, streaming,
  WaitState, waiting, wait_loop, PoeStatusSnapshot, natural, after_attempt, attempt_once,
  delay_after, read_chunks, backoff, after_feed, after_events, handle_events, get, handle_event,
  handle_snapshot, normalize_status, parse_snapshot, read_int, read_payload, read_snapshot,
  read_str, target_reached,
}
use label_309_py.PoeWait.Scan.{event, items, items_of, fed_events, scan, wait_loop-scan, last_id}
use label_309_py.PoeWait.Live.{IsConcluded, IsConclusive, wait_loop-IsConcluded, requests-last_id}

abbrev same : Bytes → Text
same x = x

abbrev status_only : Text → Option JsonValue
status_only text = some (object (field (codes "status") (string text) no_fields))

abbrev exact : ℕ → ℕ
exact delay = delay

abbrev fresh : WaitState
fresh = record { last_event_id = none; last_snapshot = none }

abbrev attempts : List (Attempt × (ℕ → ℕ))
attempts =
    (unavailable, exact)
    ∷ (streaming (codes "id: 1\ndata: submi" ∷ codes "tted\n\n" ∷ []), exact)
    ∷ (busy (some 9000), exact)
    ∷ []

abbrev last_attempt : List (Attempt × (ℕ → ℕ))
last_attempt = (streaming (codes "data: confirmed\n\n" ∷ []), exact) ∷ []

-- The delays start again behind a stream that delivers an event, and a longer retry-after is kept.
delays : (wait_loop same status_only confirmed attempts fresh 0).sleeps ≡ 1000 ∷ 1000 ∷ 9000 ∷ []
unfolding wait_loop feed feed_loop feed_turn split_line handle_line strip_return starts_with_colon
    read_field set_field partition has_nul strip_space dispatch name_or_message join_lines
    after_attempt attempt_once delay_after read_chunks backoff after_feed after_events handle_events
    get handle_event handle_snapshot normalize_status parse_snapshot read_int read_payload
    read_snapshot read_str target_reached bytes_eq
delays = refl

wait_loop-scan_example :
    (wait_loop same status_only confirmed attempts fresh 0).result
    ≡ scan status_only confirmed (items same attempts) fresh
wait_loop-scan_example = wait_loop-scan same status_only confirmed attempts fresh 0

abbrev confirmed_event : SseEvent
confirmed_event = record { name = codes "message"; data_ = codes "confirmed"; id = none }

abbrev of_status : Text → PoeStatusSnapshot
of_status status = record {
  id = [];
  status = status;
  tx_hash = none;
  block_height = none;
  block_time = none;
  num_confirmations = natural 0;
  request_id = none;
}

delivered : items same last_attempt ≡ [] ++ event confirmed_event ∷ []
unfolding items items_of fed_events feed feed_loop feed_turn split_line handle_line strip_return
    starts_with_colon read_field set_field partition has_nul strip_space dispatch name_or_message
    join_lines bytes_eq
delivered = refl

confirmed_parses :
    parse_snapshot status_only (codes "confirmed") ≡ some (of_status (codes "confirmed"))
unfolding get normalize_status parse_snapshot read_int read_payload read_snapshot read_str bytes_eq
confirmed_parses = refl

reaches : target_reached (codes "confirmed") confirmed ≡ true
unfolding target_reached bytes_eq
reaches = refl

not_ping : bytes_eq (codes "message") (codes "ping") ≡ false
unfolding bytes_eq
not_ping = refl

confirmed_event-IsConclusive : IsConclusive status_only confirmed confirmed_event
confirmed_event-IsConclusive = record {
  snapshot = of_status (codes "confirmed");
  not_ping = not_ping;
  parsed = confirmed_parses;
  final_ = inr reaches;
}

wait_loop-IsConcluded_example :
    IsConcluded confirmed (wait_loop same status_only confirmed last_attempt fresh 0).result
wait_loop-IsConcluded_example =
    wait_loop-IsConcluded same status_only confirmed last_attempt fresh 0 [] confirmed_event []
      delivered tt confirmed_event-IsConclusive

abbrev resuming : WaitState
resuming = record {
  last_event_id = some (codes "1");
  last_snapshot = some (of_status (codes "confirming"));
}

goes_on : (wait_loop same status_only confirmed attempts fresh 0).result ≡ waiting resuming
unfolding wait_loop feed feed_loop feed_turn split_line handle_line strip_return starts_with_colon
    read_field set_field partition has_nul strip_space dispatch name_or_message join_lines
    after_attempt attempt_once delay_after read_chunks backoff after_feed after_events handle_events
    get handle_event handle_snapshot normalize_status parse_snapshot read_int read_payload
    read_snapshot read_str target_reached bytes_eq
goes_on = refl

-- The request behind the three attempts resumes from the id that the second has brought.
requests-last_id_example :
    get_elem? (wait_loop same status_only confirmed (attempts ++ last_attempt) fresh 0).requests 3
    ≡ some (last_id none (items same attempts))
requests-last_id_example =
    requests-last_id same status_only confirmed attempts
      (streaming (codes "data: confirmed\n\n" ∷ []), exact) [] fresh resuming 0 goes_on

-- ===== src/PoeWait.antt =====
-- src/cardanowall/client/poe_events.py: the snapshots in the events, and the loop that reconnects
-- until a record reaches a status. json.loads and bytes.decode are parameters; the network's answers
-- and the jitter come as a list of attempts, and times are numbers of milliseconds.
pub mod Scan
pub mod Live
mod Runs
use label_309_py.Prelude.{
  ℕ, zero, suc, ◌+◌, min, max, Bool, true, false, not, ◌||◌, Option, none, some, List, [], ◌∷◌,
  if◌then◌else◌, get_or, Result, ok, err, codes, Integer, natural,
}
use label_309_py.Bytes.{Bytes, bytes_eq}
use label_309_py.Sse.{Text, SseEvent, SseParser, SseError, Fed, new_parser, is_empty, feed}

-- The values of json.loads; a float is never read.
mutual
  pub data JsonValue : Type 0 where
    null float : JsonValue
    bool : Bool → JsonValue
    integer : Integer → JsonValue
    string : Text → JsonValue
    array : JsonItems → JsonValue
    object : JsonFields → JsonValue

  pub data JsonItems : Type 0 where
    end : JsonItems
    item : JsonValue → JsonItems → JsonItems

  pub data JsonFields : Type 0 where
    no_fields : JsonFields
    field : Text → JsonValue → JsonFields → JsonFields

pub record PoeStatusSnapshot : Type 0 where
  pub id : Text
  pub status : Text
  pub tx_hash : Option Text
  pub block_height : Option Integer
  pub block_time : Option Text
  pub num_confirmations : Integer
  pub request_id : Option Text

unfoldable pub normalize_status : Text → Text
normalize_status status =
    if bytes_eq status (codes "submitted")
    then codes "confirming"
    else if bytes_eq status (codes "permanent_failure")
    then codes "failed"
    else status

-- `dict.get`
unfoldable pub get : JsonFields → Text → Option JsonValue
get no_fields key = none
get (field name value fields) key = if bytes_eq name key then some value else get fields key

abbrev pub as_str : Option JsonValue → Option Text
as_str (some (string s)) = some s
as_str (some null) = none
as_str (some float) = none
as_str (some (bool b)) = none
as_str (some (integer n)) = none
as_str (some (array items)) = none
as_str (some (object _)) = none
as_str none = none

abbrev pub as_int : Option JsonValue → Option Integer
as_int (some (integer n)) = some n
as_int (some (string s)) = none
as_int (some null) = none
as_int (some float) = none
as_int (some (bool b)) = none
as_int (some (array items)) = none
as_int (some (object _)) = none
as_int none = none

unfoldable pub read_str : JsonFields → Text → Option Text
read_str payload key = as_str (get payload key)

unfoldable pub read_int : JsonFields → Text → Option Integer
read_int payload key = as_int (get payload key)

abbrev pub or_else {ℓ} : {A : Type ℓ} → Option A → A → A
or_else none d = d
or_else (some a) d = a

-- A payload that is an object with a string under "status".
unfoldable pub read_snapshot : JsonFields → Option Text → Option PoeStatusSnapshot
read_snapshot payload none = none
read_snapshot payload (some status) = some (record {
  id = or_else (read_str payload (codes "id")) [];
  status = normalize_status status;
  tx_hash = read_str payload (codes "tx_hash");
  block_height = read_int payload (codes "block_height");
  block_time = read_str payload (codes "block_time");
  num_confirmations = or_else (read_int payload (codes "num_confirmations")) (natural 0);
  request_id = read_str payload (codes "request_id");
})

unfoldable pub read_payload : Option JsonValue → Option PoeStatusSnapshot
read_payload (some (object payload)) = read_snapshot payload (read_str payload (codes "status"))
read_payload (some null) = none
read_payload (some float) = none
read_payload (some (bool b)) = none
read_payload (some (integer n)) = none
read_payload (some (string s)) = none
read_payload (some (array items)) = none
read_payload none = none

-- `json_loads` answers `none` where json.loads raises JSONDecodeError.
unfoldable pub parse_snapshot : (Text → Option JsonValue) → Text → Option PoeStatusSnapshot
parse_snapshot json_loads data_ = if is_empty data_ then none else read_payload (json_loads data_)

pub data PoeWaitTarget : Type 0 where
  submitted confirmed : PoeWaitTarget

unfoldable pub target_reached : Text → PoeWaitTarget → Bool
target_reached status submitted =
    bytes_eq status (codes "confirming") || bytes_eq status (codes "confirmed")
target_reached status confirmed = bytes_eq status (codes "confirmed")

-- What a connection comes to. A stream that breaks off is one that ends: the loop treats a network
-- failure as it does a clean end.
pub data Attempt : Type 0 where
  -- status 429, with its retry-after
  busy : Option ℕ → Attempt
  -- a status of 500 or more, or no response
  unavailable : Attempt
  -- any other status that is no success
  rejected : ℕ → Attempt
  streaming : List Bytes → Attempt

-- `_WaitState`, and the id to resume from.
pub record WaitState : Type 0 where
  pub last_event_id : Option Text
  pub last_snapshot : Option PoeStatusSnapshot

-- How a wait ends, and what it knows while it goes on.
pub data Waiting : Type 0 where
  waiting : WaitState → Waiting
  reached : PoeStatusSnapshot → Waiting
  poe_failed : PoeStatusSnapshot → Waiting
  http_error : ℕ → Waiting

-- `_BACKOFF_SECONDS`, in milliseconds.
unfoldable pub backoff : ℕ → ℕ
backoff ladder_idx = get_or (1000 ∷ 2000 ∷ 5000 ∷ 15000 ∷ 30000 ∷ []) (min ladder_idx 4) 0

unfoldable pub delay_after : (ℕ → ℕ) → ℕ → Option ℕ → ℕ
delay_after jitter ladder_idx retry_after =
    max (jitter (backoff ladder_idx)) (or_else retry_after 0)

pub record WaitOutcome : Type 0 where
  -- the last-event-id of each request
  pub requests : List (Option Text)
  pub sleeps : List ℕ
  pub result : Waiting

abbrev pub while_waiting : Waiting → (WaitState → Waiting) → Waiting
while_waiting (waiting s) more = more s
while_waiting (reached snapshot) more = reached snapshot
while_waiting (poe_failed snapshot) more = poe_failed snapshot
while_waiting (http_error status) more = http_error status

-- What a stream has come to, and whether it has delivered an event.
abbrev pub Streamed : Type 0
Streamed = Waiting × Bool

unfoldable pub after_events : (WaitState → Streamed) → Waiting → Streamed
after_events more (waiting s) = more s
after_events more (reached snapshot) = (reached snapshot, true)
after_events more (poe_failed snapshot) = (poe_failed snapshot, true)
after_events more (http_error status) = (http_error status, true)

abbrev pub retry_after_of : Attempt → Option ℕ
retry_after_of (busy retry_after) = retry_after
retry_after_of unavailable = none
retry_after_of (rejected status) = none
retry_after_of (streaming chunks) = none

unfoldable pub after_attempt : Option Text → ℕ → (WaitState → WaitOutcome) → Waiting → WaitOutcome
after_attempt sent delay more (waiting s) =
    let o = more s in
    record { requests = sent ∷ o.requests; sleeps = delay ∷ o.sleeps; result = o.result }
after_attempt sent delay more (reached snapshot) = record {
  requests = sent ∷ [];
  sleeps = [];
  result = reached snapshot;
}
after_attempt sent delay more (poe_failed snapshot) = record {
  requests = sent ∷ [];
  sleeps = [];
  result = poe_failed snapshot;
}
after_attempt sent delay more (http_error status) = record {
  requests = sent ∷ [];
  sleeps = [];
  result = http_error status;
}

module _ (json_loads : Text → Option JsonValue) (target : PoeWaitTarget) where
  -- A snapshot, in a state that has its event's id.
  unfoldable pub handle_snapshot : WaitState → Option PoeStatusSnapshot → Waiting
  handle_snapshot s none = waiting s
  handle_snapshot s (some snapshot) =
      if bytes_eq snapshot.status (codes "failed")
      then poe_failed snapshot
      else if target_reached snapshot.status target
      then reached snapshot
      else waiting (record s { last_snapshot = some snapshot })

  unfoldable pub handle_event : SseEvent → WaitState → Waiting
  handle_event event s =
      let s' : WaitState = record s {
        last_event_id = elim event.id [ none ↦ s.last_event_id | some id ↦ some id ];
      } in
      if bytes_eq event.name (codes "ping")
      then waiting s'
      else handle_snapshot s' (parse_snapshot json_loads event.data_)

  unfoldable pub handle_events : List SseEvent → WaitState → Waiting
  handle_events [] s = waiting s
  handle_events (event ∷ events) s =
      while_waiting (handle_event event s) (λ s'. handle_events events s')

  -- A framing violation ends the stream, and the events of its feed are lost.
  unfoldable pub after_feed :
      (SseParser → WaitState → Bool → Streamed) → WaitState → Bool → Fed → Streamed
  after_feed more s delivered (err e) = (waiting s, delivered)
  after_feed more s delivered (ok (events, parser)) =
      after_events (λ s'. more parser s' (delivered || not (is_empty events)))
        (handle_events events s)

module _ (decode_utf8 : Bytes → Text) (json_loads : Text → Option JsonValue)
    (target : PoeWaitTarget) where
  -- The chunks of a response.
  unfoldable pub read_chunks : List Bytes → SseParser → WaitState → Bool → Streamed
  read_chunks [] parser s delivered = (waiting s, delivered)
  read_chunks (chunk ∷ chunks) parser s delivered =
      after_feed json_loads target (read_chunks chunks) s delivered (feed decode_utf8 parser chunk)

  unfoldable pub attempt_once : Attempt → WaitState → Streamed
  attempt_once (busy retry_after) s = (waiting s, false)
  attempt_once unavailable s = (waiting s, false)
  attempt_once (rejected status) s = (http_error status, false)
  attempt_once (streaming chunks) s = read_chunks chunks new_parser s false

  -- Each attempt comes with the jitter of the delay behind it.
  unfoldable pub wait_loop : List (Attempt × (ℕ → ℕ)) → WaitState → ℕ → WaitOutcome
  wait_loop [] s ladder_idx = record { requests = []; sleeps = []; result = waiting s }
  wait_loop ((attempt, jitter) ∷ attempts) s ladder_idx =
      let (now, delivered) = attempt_once attempt s in
      let idx = if delivered then 0 else ladder_idx in
      let delay = delay_after jitter idx (retry_after_of attempt) in
      after_attempt s.last_event_id delay (λ s'. wait_loop attempts s' (suc idx)) now

-- ===== src/Sse.antt =====
-- src/cardanowall/client/poe_events.py, the class _SseParser: server-sent events out of response
-- bytes. A text is the list of its code points, and `decode_utf8` is bytes.decode with replacement.
pub mod Machine
pub mod Chunks
pub mod Limits
pub mod Comments
mod Runs
use label_309_py.Prelude.{
  ℕ, zero, suc, ◌+◌, Bool, true, false, not, ◌&&◌, ◌||◌, Option, none, some, List, [], ◌∷◌, ◌++◌,
  ltb, ◌==◌, if◌then◌else◌, length, Result, ok, err, ◌>>=◌, ◌>>◌, require,
}
use label_309_py.Bytes.{Bytes, bytes_eq}

abbrev pub Text : Type 0
Text = List ℕ

abbrev pub max_line_bytes : ℕ
max_line_bytes = 65536

abbrev pub max_event_bytes : ℕ
max_event_bytes = 262144

-- The messages of `_SseProtocolError`; `out_of_fuel` has no counterpart in the program.
pub data SseError : Type 0 where
  line_limit event_limit out_of_fuel : SseError

pub record SseEvent : Type 0 where
  pub name : Text
  pub data_ : Text
  pub id : Option Text

-- The fields of the parser that belong to the event that is being read.
pub record Pending : Type 0 where
  pub event_name : Text
  pub data_lines : List Text
  pub event_id : Option Text
  pub event_bytes : ℕ

pub record SseParser : Type 0 where
  pub buffer : Bytes
  pub pending : Pending

abbrev pub new_parser : SseParser
new_parser = record {
  buffer = [];
  pending = record { event_name = []; data_lines = []; event_id = none; event_bytes = 0 };
}

abbrev pub is_empty {ℓ} : {A : Type ℓ} → List A → Bool
is_empty [] = true
is_empty (x ∷ xs) = false

abbrev pub is_none {ℓ} : {A : Type ℓ} → Option A → Bool
is_none none = true
is_none (some x) = false

abbrev pub newline : ℕ
newline = 10

abbrev pub colon : ℕ
colon = 58

-- `"\n".join`
unfoldable pub join_lines : List Text → Text
join_lines [] = []
join_lines (l ∷ []) = l
join_lines (l ∷ m ∷ ms) = l ++ newline ∷ join_lines (m ∷ ms)

-- `self._event_name or "message"`
unfoldable pub name_or_message : Text → Text
name_or_message [] = b'm' ∷ b'e' ∷ b's' ∷ b's' ∷ b'a' ∷ b'g' ∷ b'e' ∷ []
name_or_message (c ∷ cs) = c ∷ cs

-- A dispatch without an event leaves `event_bytes` as it is.
unfoldable pub dispatch : Pending → Option SseEvent × Pending
dispatch p =
    let event : SseEvent = record {
      name = name_or_message p.event_name;
      data_ = join_lines p.data_lines;
      id = p.event_id;
    } in
    let cleared : Pending = record {
      event_name = [];
      data_lines = [];
      event_id = none;
      event_bytes = 0;
    } in
    if is_empty p.event_name && is_empty p.data_lines && is_none p.event_id
    then (none, p)
    else (some event, cleared)

-- `line.partition(":")`, without the separator.
unfoldable pub partition : Text → Text × Text
partition [] = ([], [])
partition (c ∷ cs) =
    let (name, value) = partition cs in if c == colon then ([], cs) else (c ∷ name, value)

unfoldable pub strip_space : Text → Text
strip_space [] = []
strip_space (c ∷ cs) = if c == b' ' then cs else c ∷ cs

-- `"\x00" in value`
unfoldable pub has_nul : Text → Bool
has_nul [] = false
has_nul (c ∷ cs) = c == 0 || has_nul cs

abbrev pub event_field : Text
event_field = b'e' ∷ b'v' ∷ b'e' ∷ b'n' ∷ b't' ∷ []

abbrev pub data_field : Text
data_field = b'd' ∷ b'a' ∷ b't' ∷ b'a' ∷ []

abbrev pub id_field : Text
id_field = b'i' ∷ b'd' ∷ []

unfoldable pub set_field : Pending → Text → Text → Pending
set_field p name value =
    if bytes_eq name event_field
    then record p { event_name = value }
    else if bytes_eq name data_field
    then record p { data_lines = p.data_lines ++ value ∷ [] }
    else if bytes_eq name id_field && not (has_nul value)
    then record p { event_id = some value }
    else p

-- A decoded line that is no comment.
unfoldable pub read_field : Pending → Text → Pending
read_field p line = let (name, value) = partition line in set_field p name (strip_space value)

unfoldable pub starts_with_colon : Text → Bool
starts_with_colon [] = false
starts_with_colon (c ∷ cs) = c == colon

module _ (decode_utf8 : Bytes → Text) where
  unfoldable pub handle_line : Pending → Bytes → Result SseError (Option SseEvent × Pending)
  handle_line p raw =
      let event_bytes = p.event_bytes + length raw in
      let p' = record p { event_bytes = event_bytes } in
      let line = decode_utf8 raw in
      if is_empty raw
      then ok (dispatch p)
      else if ltb max_event_bytes event_bytes
      then err event_limit
      else ok (none, (if starts_with_colon line then p' else read_field p' line))

abbrev pub put_first : ℕ → Option (Bytes × Bytes) → Option (Bytes × Bytes)
put_first b none = none
put_first b (some (line, rest)) = some (b ∷ line, rest)

-- What stands before the first newline, and behind it.
unfoldable pub split_line : Bytes → Option (Bytes × Bytes)
split_line [] = none
split_line (b ∷ bs) = if b == newline then some ([], bs) else put_first b (split_line bs)

-- `raw[:-1]` if `raw.endswith(b"\r")`
unfoldable pub strip_return : Bytes → Bytes
strip_return [] = []
strip_return (b ∷ []) = if b == 13 then [] else b ∷ []
strip_return (b ∷ c ∷ bs) = b ∷ strip_return (c ∷ bs)

abbrev pub Fed : Type 0
Fed = Result SseError (List SseEvent × SseParser)

abbrev pub add_event : Option SseEvent → List SseEvent → List SseEvent
add_event none events = events
add_event (some event) events = event ∷ events

abbrev pub with_event : Option SseEvent → List SseEvent × SseParser → Fed
with_event event (events, p) = ok (add_event event events, p)

module _ (decode_utf8 : Bytes → Text) where
  -- A turn of the loop of `feed`, with the turns behind it.
  unfoldable pub feed_turn : (SseParser → Fed) → SseParser → Option (Bytes × Bytes) → Fed
  feed_turn more p none =
      if ltb max_line_bytes (length p.buffer) then err line_limit else ok ([], p)
  feed_turn more p (some (line, rest)) = do
    require (not (ltb max_line_bytes (length line))) line_limit
    (event, pending) ← handle_line decode_utf8 p.pending (strip_return line)
    fed ← more (record { buffer = rest; pending = pending })
    with_event event fed

  -- Each turn takes a newline out of the buffer.
  unfoldable pub feed_loop : ℕ → SseParser → Fed
  feed_loop zero p = err out_of_fuel
  feed_loop (suc fuel) p = feed_turn (feed_loop fuel) p (split_line p.buffer)

  unfoldable pub feed : SseParser → Bytes → Fed
  feed p chunk =
      let buffer = p.buffer ++ chunk in
      feed_loop (suc (length buffer)) (record p { buffer = buffer })

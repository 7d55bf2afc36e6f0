-- ===== src/Sse/Runs.antt =====
-- The parser on short streams, and its theorems there. Bytes decode to themselves.
use label_309_py.Prelude.{◌≡◌, refl, some, [], ◌∷◌, ◌++◌, ok, err, arith, codes, leb, if◌then◌else◌}
use label_309_py.Bytes.{Bytes, bytes_eq}
use label_309_py.Sse.{
  Text, SseEvent, new_parser, feed, feed_loop, feed_turn, split_line, handle_line, strip_return,
  starts_with_colon, read_field, set_field, partition, has_nul, strip_space, dispatch,
  name_or_message, join_lines, max_event_bytes, event_limit,
}
use label_309_py.Sse.Chunks.{then_feed, feed-append}
use label_309_py.Sse.Limits.{IsBounded, feed-IsBounded}
use label_309_py.Sse.Comments.{comments, counted, feed-comments}

abbrev same : Bytes → Text
same x = x

abbrev stream : Bytes
stream = codes "id: 7\nevent: state\ndata: a\r\ndata:b\n\n: ping\n"

abbrev state_event : SseEvent
state_event = record { name = codes "state"; data_ = codes "a\nb"; id = some (codes "7") }

one_event : feed same new_parser stream ≡ ok (state_event ∷ [], counted 6)
unfolding feed feed_loop feed_turn split_line handle_line strip_return starts_with_colon read_field
    set_field partition has_nul strip_space dispatch name_or_message join_lines bytes_eq
one_event = refl

feed-append_example :
    feed same new_parser (codes "data: a\n" ++ codes "\ndata: b")
    ≡ then_feed (feed same new_parser (codes "data: a\n")) (λ q. feed same q (codes "\ndata: b"))
feed-append_example = feed-append same new_parser (codes "data: a\n") (codes "\ndata: b") tt

feed-IsBounded_example : IsBounded (counted 6)
feed-IsBounded_example =
    feed-IsBounded same (λ x. omega arith) new_parser stream (state_event ∷ []) (counted 6)
      (omega arith) one_event

feed-comments_example :
    feed same (counted 0) (comments 3)
    ≡ (if leb 3 max_event_bytes then ok ([], counted 3) else err event_limit)
feed-comments_example = feed-comments same refl 3

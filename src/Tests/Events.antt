-- ===== src/Tests/Events.antt =====
-- Server-sent events and decimal text, run on concrete inputs.
use erikslund_http_embedded.Prelude.{
  ◌≡◌, refl, none, some, List, [], ◌∷◌, ◌++◌, map, arith, codes, Lacks, split, ok, ◌≤◌, ◌↔◌, length,
}
use erikslund_http_embedded.Sse.Channel.Limits.{
  Act, IsSound, new_channel, published_or, run_channel, run_channel-IsSound, sent_event, subscribed,
  acts,
}
use erikslund_http_embedded.Sse.Channel.{
  ChannelState, close_all, close_subscribers, is_alive_at, prune_dead, subscriber_count,
  tick_locked, update_all, update, subscribe, publish, shutdown,
}
use erikslund_http_embedded.Sse.Subscriber.Bounds.{Event, pulled, published, ticked, happens, run}
use erikslund_http_embedded.Sse.Subscriber.Delivery.{
  IsDelivered, all_offers, serve-IsDelivered, serve,
}
use erikslund_http_embedded.Sse.Subscriber.{
  SseOptions, begin_close, close_locked, enqueue_behind, make_room, maybe_heartbeat, on_attached,
  on_detached, push_back_locked, subscriber, joined, pull, enqueue, heartbeat,
}
use erikslund_http_embedded.Sse.Frame.{
  add_frame_bytes, add_three, append_data_lines, append_event_name, append_lines_from,
  build_event_frame, build_retry_frame, cut_line, event_frame_size, lines_size_from, name_byte,
  skip_lf, cr, lf, data_field_prefix,
}
use erikslund_http_embedded.Sse.Frame.Text.{build_event_frame_lem, lines_of, name_lines}
use erikslund_http_embedded.Text.Decimal.{digits_from, parse_decimal-decimal, decimal}
use erikslund_http_embedded.Sse.Channel.Publish.{publish_lem, Reaches}
use erikslund_http_embedded.Request.Length.{parse_decimal}
use erikslund_http_embedded.Method.{get}
use erikslund_http_embedded.Sse.Frame.Size.{event_frame_size_iff}
use erikslund_http_embedded.Sse.Subscriber.Within.{IsWithin, run-IsWithin}

abbrev few_options : SseOptions
few_options = record {
  max_subscribers = 1;
  max_queued_bytes_per_subscriber = 30;
  max_event_bytes = 100;
  heartbeat_interval = 5;
  retry_hint = 2;
}

event_runs : Unit {0}
unfolding digits_from decimal skip_lf cut_line append_lines_from append_data_lines name_byte
    append_event_name add_frame_bytes add_three lines_size_from event_frame_size build_event_frame
    build_retry_frame push_back_locked close_locked subscriber joined pull on_attached on_detached
    make_room enqueue_behind enqueue begin_close heartbeat maybe_heartbeat happens run serve
    all_offers update is_alive_at prune_dead update_all subscribe publish subscriber_count
    close_subscribers close_all shutdown tick_locked acts run_channel
event_runs = tt

parse_decimal_example : parse_decimal (decimal 1024) ≡ ok 1024
parse_decimal_example = parse_decimal-decimal 1024 (omega arith)

build_event_frame_example :
    (split lf (build_event_frame (codes "up\n") (codes "a\nb"))
      ≡ name_lines (codes "up\n")
        ++ (map (λ line. data_field_prefix ++ line) (lines_of (codes "a\nb")) ++ ([] ∷ [] ∷ [])))
    × Lacks cr (build_event_frame (codes "up\n") (codes "a\nb"))
build_event_frame_example = build_event_frame_lem (codes "up\n") (codes "a\nb")

event_frame_tests :
    (build_event_frame (codes "up") (codes "a\nb") ≡ codes "event: up\ndata: a\ndata: b\n\n")
    × (build_retry_frame 2 ≡ codes "retry: 2000\n\n")
    × (event_frame_size (codes "up") (codes "a\nb") 27 ≡ some 27)
    × (event_frame_size (codes "up") (codes "a\nb") 26 ≡ none)
unfolding event_runs
event_frame_tests = (refl, refl, refl, refl)

abbrev some_events : List Event
some_events =
    published (codes "data: 1\n\n")
    ∷ published (codes "data: 2\n\n")
    ∷ pulled 1
    ∷ ticked 7
    ∷ pulled 8
    ∷ []

subscriber_life_example : IsWithin few_options (run some_events (subscriber few_options 0))
subscriber_life_example = run-IsWithin few_options 0 some_events

serve_example :
    IsDelivered
      (serve some_events [] (subscriber few_options 0)).0
      (serve some_events [] (subscriber few_options 0)).1
      (build_retry_frame 2 ∷ all_offers some_events)
serve_example = serve-IsDelivered few_options 0 some_events

serve_tests :
    (serve some_events [] (subscriber few_options 0)).0
    ≡ codes "data: 1\n\ndata: 2\n\n: heartbeat\n\n"
unfolding event_runs
serve_tests = refl

event_frame_size_example :
    (event_frame_size (codes "up") (codes "a\nb") 27 ≡ some 27)
    ↔ ((27 ≡ length (build_event_frame (codes "up") (codes "a\nb"))) × (27 ≤ 27))
event_frame_size_example = event_frame_size_iff (codes "up") (codes "a\nb") 27 27

abbrev some_acts : List Act
some_acts = subscribed 0 get ∷ subscribed 1 get ∷ sent_event [] (codes "x") ∷ []

run_channel_example : IsSound (run_channel some_acts (new_channel few_options))
run_channel_example = run_channel-IsSound few_options some_acts

abbrev one_subscriber : ChannelState
one_subscriber = run_channel (subscribed 0 get ∷ []) (new_channel few_options)

abbrev after_event : ChannelState
after_event = published_or (publish [] (codes "x") one_subscriber) one_subscriber

event_is_published : publish [] (codes "x") one_subscriber ≡ some after_event
unfolding event_runs
event_is_published = refl

publish_example : Reaches (build_event_frame [] (codes "x")) one_subscriber after_event 0
publish_example =
    publish_lem few_options (subscribed 0 get ∷ []) [] (codes "x") after_event 0 event_is_published

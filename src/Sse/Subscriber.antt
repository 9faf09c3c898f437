-- ===== src/Sse/Subscriber.antt =====
-- `SseSubscriber` of src/sse.cpp: the frames that wait for one client. A notifier is there or not;
-- an operation says whether it calls `notify`. Shared frames are their bytes.
pub mod Room
pub mod Limit
pub mod Bounds
pub mod Within
pub mod Offer
pub mod Delivery
use erikslund_http_embedded.Prelude.{
  ℕ, Bytes, codes, length, ◌+◌, ◌-◌, Bool, true, false, not, ◌&&◌, ◌||◌, List, [], ◌∷◌, ◌++◌, ltb,
  leb, ◌==◌, if◌then◌else◌, is_empty,
}
use erikslund_http_embedded.Sse.Frame.{build_retry_frame}

pub record SseOptions : Type 0 where
  pub max_subscribers : ℕ
  pub max_queued_bytes_per_subscriber : ℕ
  pub max_event_bytes : ℕ
  pub heartbeat_interval : ℕ
  pub retry_hint : ℕ

pub record SseSubscriber : Type 0 where
  pub queue : List Bytes
  pub queued_bytes : ℕ
  pub max_queued_bytes : ℕ
  pub heartbeat_interval : ℕ
  pub has_notifier : Bool
  pub last_write : ℕ
  pub consecutive_overflows : ℕ
  pub closed : Bool
  pub detached : Bool

abbrev pub heartbeat_frame : Bytes
heartbeat_frame = codes ": heartbeat\n\n"

abbrev pub overflows_before_disconnect : ℕ
overflows_before_disconnect = 4

unfoldable pub push_back_locked : SseSubscriber → Bytes → SseSubscriber
push_back_locked s frame = record s {
  queued_bytes = s.queued_bytes + length frame;
  queue = s.queue ++ (frame ∷ []);
}

unfoldable pub close_locked : SseSubscriber → SseSubscriber
close_locked s = record s { closed = true; queue = []; queued_bytes = 0 }

-- The members as they are initialised, and the constructor, at a time.
abbrev pub just_made : SseOptions → ℕ → SseSubscriber
just_made options now = record {
  queue = [];
  queued_bytes = 0;
  max_queued_bytes = options.max_queued_bytes_per_subscriber;
  heartbeat_interval = options.heartbeat_interval;
  has_notifier = false;
  last_write = now;
  consecutive_overflows = 0;
  closed = false;
  detached = false;
}

unfoldable pub subscriber : SseOptions → ℕ → SseSubscriber
unfolding push_back_locked build_retry_frame
subscriber options now =
    let retry = build_retry_frame options.retry_hint in
    if ltb 0 options.retry_hint && leb (length retry) options.max_queued_bytes_per_subscriber
    then push_back_locked (just_made options now) retry
    else just_made options now

pub data Pull : Type 0 where
  wrote idle finished : Pull

-- The frames, one after the other.
unfoldable pub joined : List Bytes → Bytes
joined [] = []
joined (frame ∷ frames) = frame ++ joined frames

-- What is pulled, the output with it, and the state behind.
unfoldable pub pull : ℕ → Bytes → SseSubscriber → Pull × Bytes × SseSubscriber
unfolding joined
pull now out s = if is_empty s.queue then (if s.closed then finished else idle, out, s) else (
  wrote,
  out ++ joined s.queue,
  record s { queue = []; queued_bytes = 0; consecutive_overflows = 0; last_write = now },
)

unfoldable pub on_attached : SseSubscriber → SseSubscriber
on_attached s = record s { has_notifier = true }

unfoldable pub on_detached : SseSubscriber → SseSubscriber
on_detached s = record s {
  detached = true;
  closed = true;
  has_notifier = false;
  queue = [];
  queued_bytes = 0;
}

-- The loop of `enqueue` that makes room: the queue, its bytes, and whether a frame was dropped.
unfoldable pub make_room : ℕ → ℕ → List Bytes → ℕ → Bool → List Bytes × ℕ × Bool
make_room size maximum [] bytes dropped = ([], bytes, dropped)
make_room size maximum (frame ∷ queue) bytes dropped =
    let rest = make_room size maximum queue (bytes - length frame) true in
    if ltb (maximum - bytes) size then rest else (frame ∷ queue, bytes, dropped)

-- Behind the loop: the push, and the count of overflows.
unfoldable pub enqueue_behind : SseSubscriber → Bytes → List Bytes × ℕ × Bool → SseSubscriber
unfolding push_back_locked close_locked
enqueue_behind s frame (queue, bytes, dropped) =
    let pushed = push_back_locked (record s { queue = queue; queued_bytes = bytes }) frame in
    let counted = record pushed { consecutive_overflows = pushed.consecutive_overflows + 1 } in
    if dropped
    then if leb overflows_before_disconnect counted.consecutive_overflows
      then close_locked counted
      else counted
    else pushed

-- The state behind, and whether the notifier is called.
unfoldable pub enqueue : SseSubscriber → Bytes → SseSubscriber × Bool
unfolding make_room enqueue_behind close_locked
enqueue s frame =
    if s.closed
    then (s, false)
    else if ltb s.max_queued_bytes (length frame)
    then (close_locked s, s.has_notifier)
    else (
      enqueue_behind s frame
          (make_room (length frame) s.max_queued_bytes s.queue s.queued_bytes false),
      s.has_notifier,
    )

unfoldable pub begin_close : SseSubscriber → SseSubscriber × Bool
begin_close s = (record s { closed = true }, s.has_notifier)

abbrev pub alive : SseSubscriber → Bool
alive s = not s.closed && not s.detached

-- What a heartbeat that is due does.
unfoldable pub heartbeat : ℕ → SseSubscriber → SseSubscriber
unfolding close_locked push_back_locked
heartbeat now s =
    let behind =
      if ltb s.max_queued_bytes (length heartbeat_frame)
      then close_locked s
      else push_back_locked s heartbeat_frame in
    record behind { last_write = now }

unfoldable pub maybe_heartbeat : ℕ → SseSubscriber → SseSubscriber × Bool
unfolding heartbeat
maybe_heartbeat now s =
    if s.closed || s.detached || s.heartbeat_interval == 0
    then (s, false)
    else if ltb (now - s.last_write) s.heartbeat_interval
    then (s, false)
    else if not (is_empty s.queue)
    then (s, false)
    else (heartbeat now s, s.has_notifier)

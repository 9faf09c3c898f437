-- ===== src/Sse/Subscriber/Within.antt =====
-- The queue of a subscriber stays within the options that it was made with.
use erikslund_http_embedded.Sse.Subscriber.Room.{total}
use erikslund_http_embedded.Prelude.{ℕ, ◌≤◌, ◌≡◌, refl, ◌∙◌, true, false, List, [], ◌∷◌, arith}
use erikslund_http_embedded.Sse.Subscriber.Bounds.{
  attached, detached, closing, pulled, published, ticked, happens, run, Event, IsBounded,
  happens-IsBounded, subscriber-IsBounded,
}
use erikslund_http_embedded.Sse.Subscriber.{
  subscriber, SseOptions, SseSubscriber, on_attached, on_detached, begin_close,
}
use erikslund_http_embedded.Sse.Subscriber.Limit.{
  enqueue-limit, maybe_heartbeat-limit, pull-limit, subscriber-limit,
}

-- A subscriber that was made with some options: the count of its bytes is that of the frames that
-- wait, these are within the limit of the options, none waits for one that is detached, and one that is
-- still open counts at most three overflows.
pub record IsWithin (options : SseOptions) (s : SseSubscriber) : Type 0 where
  pub counted : s.queued_bytes ≡ total s.queue
  pub within : total s.queue ≤ options.max_queued_bytes_per_subscriber
  pub limit : s.max_queued_bytes ≡ options.max_queued_bytes_per_subscriber
  pub gone : s.detached ≡ true → (s.closed ≡ true) × (s.queue ≡ [])
  pub patient : s.closed ≡ false → s.consecutive_overflows ≤ 3

bounded-IsWithin :
    (options : SseOptions) (s : SseSubscriber)
    → IsBounded s
    → s.max_queued_bytes ≡ options.max_queued_bytes_per_subscriber
    → IsWithin options s
bounded-IsWithin options s v e = record {
  counted = v.counted;
  within = omega (arith, v.within, v.counted, e);
  limit = e;
  gone = v.gone;
  patient = λ c. omega (arith, v.patient c);
}

pub within-IsBounded : (options : SseOptions) (s : SseSubscriber) → IsWithin options s → IsBounded s
within-IsBounded options s w = record {
  counted = w.counted;
  within = omega (arith, w.within, w.counted, w.limit);
  gone = w.gone;
  patient = λ c. omega (arith, w.patient c);
}

happens-limit :
    (e : Event) (s : SseSubscriber) → (happens e s).max_queued_bytes ≡ s.max_queued_bytes
unfolding happens on_attached on_detached begin_close
happens-limit (pulled now) s = pull-limit now s
happens-limit attached s = refl
happens-limit detached s = refl
happens-limit closing s = refl
happens-limit (published frame) s = enqueue-limit s frame
happens-limit (ticked now) s = maybe_heartbeat-limit now s

pub happens-IsWithin :
    (options : SseOptions) (e : Event) (s : SseSubscriber)
    → IsWithin options s
    → IsWithin options (happens e s)
happens-IsWithin options e s w =
    bounded-IsWithin options (happens e s) (happens-IsBounded e s (within-IsBounded options s w))
      (happens-limit e s ∙ w.limit)

pub subscriber-IsWithin :
    (options : SseOptions) (now : ℕ) → IsWithin options (subscriber options now)
subscriber-IsWithin options now =
    bounded-IsWithin options (subscriber options now) (subscriber-IsBounded options now)
      (subscriber-limit options now)

run-keeps :
    (options : SseOptions) (events : List Event) (s : SseSubscriber)
    → IsWithin options s
    → IsWithin options (run events s)
unfolding run
run-keeps options [] s w = w
run-keeps options (e ∷ events) s w =
    run-keeps options events (happens e s) (happens-IsWithin options e s w)

-- Whatever happens to a subscriber, in any order, the count of its bytes is that of the frames that
-- wait, they are within the limit of the options that it was made with, none waits for one that is
-- detached, and one that is still open counts at most three overflows.
pub run-IsWithin :
    (options : SseOptions) (now : ℕ) (events : List Event)
    → IsWithin options (run events (subscriber options now))
run-IsWithin options now events =
    run-keeps options events (subscriber options now) (subscriber-IsWithin options now)

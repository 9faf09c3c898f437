-- ===== src/Sse/Subscriber/Bounds.antt =====
-- The queue of a subscriber stays within its bytes.
use erikslund_http_embedded.Prelude.{
  ℕ, Bytes, length, ◌+◌, ◌-◌, ◌≤◌, ◌<◌, ◌≡◌, refl, ap, ◌∙◌, inl, inr, Bool, true, false, not, ◌||◌,
  List, [], ◌∷◌, arith, ltb, Bool-cases, is_empty, leb, ◌==◌, ◌&&◌, if_true, if_false,
}
use erikslund_http_embedded.Sse.Subscriber.{
  SseSubscriber, make_room, overflows_before_disconnect, close_locked, enqueue_behind,
  push_back_locked, begin_close, heartbeat_frame, maybe_heartbeat, on_attached, on_detached, pull,
  enqueue, heartbeat, SseOptions, subscriber, just_made,
}
use erikslund_http_embedded.Sse.Frame.{build_retry_frame}
use erikslund_http_embedded.Sse.Subscriber.Room.{
  total, MakesRoom, make_room-MakesRoom, total-append,
}
use erikslund_http_embedded.Sse.Subscriber.Limit.{enqueue_closed, enqueue_live, enqueue_too_long}

-- The count of bytes is right, the queue within its limit, a detached subscriber closed with nothing in
-- its queue, and an open one has not overflowed so often in a row that it is to be closed.
pub record IsBounded (s : SseSubscriber) : Type 0 where
  pub counted : s.queued_bytes ≡ total s.queue
  pub within : s.queued_bytes ≤ s.max_queued_bytes
  pub gone : s.detached ≡ true → (s.closed ≡ true) × (s.queue ≡ [])
  pub patient : s.closed ≡ false → s.consecutive_overflows < overflows_before_disconnect

push_back-IsBounded :
    (s : SseSubscriber) (frame : Bytes)
    → IsBounded s
    → s.closed ≡ false
    → s.queued_bytes + length frame ≤ s.max_queued_bytes
    → IsBounded (push_back_locked s frame)
unfolding push_back_locked total
push_back-IsBounded s frame v live h = record {
  counted = omega (arith, v.counted, total-append s.queue (frame ∷ []));
  within = h;
  gone = λ d. absurd (ground (arith, v.gone d));
  patient = v.patient;
}

close-IsBounded : (s : SseSubscriber) → IsBounded (close_locked s)
unfolding close_locked total
close-IsBounded s = record {
  counted = refl;
  within = omega arith;
  gone = λ d. (refl, refl);
  patient = λ c. absurd (ground arith);
}

enqueue_behind-IsBounded :
    (s : SseSubscriber) (frame : Bytes) (lost : List Bytes) (left : List Bytes × ℕ × Bool)
    → IsBounded s
    → s.closed ≡ false
    → MakesRoom (length frame) s.max_queued_bytes s.queue lost false left
    → IsBounded (enqueue_behind s frame left)
unfolding enqueue_behind push_back_locked
enqueue_behind-IsBounded s frame lost (queue, bytes, dropped) v live m =
    let room = record s { queue = queue; queued_bytes = bytes } in
    let w : IsBounded room = record {
      counted = m.counts;
      within = omega (arith, m.fits, m.counts);
      gone = λ d. absurd (ground (arith, v.gone d));
      patient = v.patient;
    } in
    let pushed = push_back-IsBounded room frame w live (omega (arith, m.fits, m.counts)) in
    elim (Bool-cases dropped) [
      | inr e ↦ rw e pushed
      | inl e ↦ elim (Bool-cases (leb overflows_before_disconnect (s.consecutive_overflows + 1))) [
        | inl f ↦ rw e (
            rw f (
              close-IsBounded (record (push_back_locked room frame) {
                consecutive_overflows = s.consecutive_overflows + 1;
              })))
        | inr f ↦ rw e (
            rw f (record {
              counted = pushed.counted;
              within = pushed.within;
              gone = pushed.gone;
              patient = λ c. ground arith;
            }))
      ]
    ]

pub enqueue-IsBounded :
    (s : SseSubscriber) (frame : Bytes) → IsBounded s → IsBounded (enqueue s frame).0
enqueue-IsBounded s frame v = elim (Bool-cases s.closed) [
  | inl e ↦ rw (enqueue_closed s frame e) v
  | inr e ↦ elim (Bool-cases (ltb s.max_queued_bytes (length frame))) [
    | inl f ↦ rw (enqueue_too_long s frame e f) (close-IsBounded s)
    | inr f ↦
        let (lost, m) =
          make_room-MakesRoom (length frame) s.max_queued_bytes s.queue s.queued_bytes false
            (ground arith) v.counted v.within in
        rw (enqueue_live s frame e f) (
          enqueue_behind-IsBounded s frame lost
            (make_room (length frame) s.max_queued_bytes s.queue s.queued_bytes false) v e m)
  ]
]

total-nil : total [] ≡ 0
unfolding total
total-nil = refl

heartbeat-IsBounded :
    (now : ℕ) (s : SseSubscriber)
    → IsBounded s
    → s.closed ≡ false
    → s.queue ≡ []
    → IsBounded (heartbeat now s)
unfolding heartbeat
heartbeat-IsBounded now s v live none_waits =
    elim (Bool-cases (ltb s.max_queued_bytes (length heartbeat_frame))) [
      | inl e ↦ rw e (
          let w = close-IsBounded s in
          record { counted = w.counted; within = w.within; gone = w.gone; patient = w.patient })
      | inr e ↦
          let empty : s.queued_bytes ≡ 0 = v.counted ∙ (ap total none_waits ∙ total-nil) in
          let w = push_back-IsBounded s heartbeat_frame v live (ground (arith, empty)) in
          rw e
            (record { counted = w.counted; within = w.within; gone = w.gone; patient = w.patient })
    ]

-- What happens to a subscriber, by whatever thread.
pub data Event : Type 0 where
  pulled : ℕ → Event
  attached detached closing : Event
  published : Bytes → Event
  ticked : ℕ → Event

unfoldable pub happens : Event → SseSubscriber → SseSubscriber
unfolding pull on_attached on_detached begin_close enqueue maybe_heartbeat
happens (pulled now) s = (pull now [] s).2
happens attached s = on_attached s
happens detached s = on_detached s
happens closing s = (begin_close s).0
happens (published frame) s = (enqueue s frame).0
happens (ticked now) s = (maybe_heartbeat now s).0

pull-IsBounded : (now : ℕ) (s : SseSubscriber) → IsBounded s → IsBounded (pull now [] s).2
unfolding pull total
pull-IsBounded now s v = elim (Bool-cases (is_empty s.queue)) [
  | inl e ↦ rw e v
  | inr e ↦ rw e (record {
    counted = refl;
    within = omega arith;
    gone = λ d. ((v.gone d).0, refl);
    patient = λ c. omega arith;
  })
]

pub heartbeat_due-IsBounded :
    (now : ℕ) (s : SseSubscriber) → IsBounded s → IsBounded (maybe_heartbeat now s).0
unfolding maybe_heartbeat
heartbeat_due-IsBounded now s v =
    elim (Bool-cases (s.closed || s.detached || s.heartbeat_interval == 0)) [
      | inl e ↦ simp e v
      | inr e ↦ elim (Bool-cases (ltb (now - s.last_write) s.heartbeat_interval)) [
        | inl f ↦ simp (e, f) v
        | inr f ↦ elim (Bool-cases (not (is_empty s.queue))) [
          | inl g ↦ simp (e, f, g) v
          | inr g ↦ simp (e, f, g) (heartbeat-IsBounded now s v (ground arith) (ground arith))
        ]
      ]
    ]

pub happens-IsBounded : (e : Event) (s : SseSubscriber) → IsBounded s → IsBounded (happens e s)
unfolding happens on_attached on_detached begin_close total
happens-IsBounded (pulled now) s v = pull-IsBounded now s v
happens-IsBounded attached s v = record {
  counted = v.counted;
  within = v.within;
  gone = v.gone;
  patient = v.patient;
}
happens-IsBounded detached s v = record {
  counted = refl;
  within = omega arith;
  gone = λ d. (refl, refl);
  patient = λ c. absurd (ground arith);
}
happens-IsBounded closing s v = record {
  counted = v.counted;
  within = v.within;
  gone = λ d. (refl, (v.gone d).1);
  patient = λ c. absurd (ground arith);
}
happens-IsBounded (published frame) s v = enqueue-IsBounded s frame v
happens-IsBounded (ticked now) s v = heartbeat_due-IsBounded now s v

unfoldable pub run : List Event → SseSubscriber → SseSubscriber
unfolding happens
run [] s = s
run (e ∷ events) s = run events (happens e s)

just_made-IsBounded : (options : SseOptions) (now : ℕ) → IsBounded (just_made options now)
unfolding total
just_made-IsBounded options now = record {
  counted = refl;
  within = omega arith;
  gone = λ d. absurd (ground arith);
  patient = λ c. omega arith;
}

pub subscriber-IsBounded : (options : SseOptions) (now : ℕ) → IsBounded (subscriber options now)
unfolding subscriber
subscriber-IsBounded options now =
    let retry = build_retry_frame options.retry_hint in
    elim (Bool-cases
      (ltb 0 options.retry_hint && leb (length retry) options.max_queued_bytes_per_subscriber)) [
        | inl e ↦ rw (if_true _ _ e) (
            push_back-IsBounded (just_made options now) retry (just_made-IsBounded options now) refl
              (ground arith))
        | inr e ↦ rw (if_false _ _ e) (just_made-IsBounded options now)
      ]

-- ===== src/Sse/Subscriber/Limit.antt =====
-- The branches of `enqueue`, and that the limit of a subscriber is the one of its options, whatever is done to it.
use erikslund_http_embedded.Prelude.{
  ℕ, ◌+◌, ◌-◌, ◌≡◌, refl, inl, inr, Bool, false, not, ◌&&◌, ◌||◌, List, [], ltb, leb, ◌==◌,
  Bool-cases, if_true, if_false, Bytes, is_empty, length, ap, ◌∙◌, true,
}
use erikslund_http_embedded.Sse.Subscriber.{
  SseOptions, SseSubscriber, close_locked, enqueue_behind, heartbeat_frame, make_room,
  maybe_heartbeat, overflows_before_disconnect, push_back_locked, subscriber, pull, enqueue,
  heartbeat,
}
use erikslund_http_embedded.Sse.Frame.{build_retry_frame}

enqueue_behind-limit :
    (s : SseSubscriber) (frame : Bytes) (left : List Bytes × ℕ × Bool)
    → (enqueue_behind s frame left).max_queued_bytes ≡ s.max_queued_bytes
unfolding enqueue_behind push_back_locked close_locked
enqueue_behind-limit s frame (queue, bytes, dropped) = elim (Bool-cases dropped) [
  | inr e ↦ rw e refl
  | inl e ↦ elim (Bool-cases (leb overflows_before_disconnect (s.consecutive_overflows + 1))) [
    | inl f ↦ rw e (rw f refl)
    | inr f ↦ rw e (rw f refl)
  ]
]

-- The three branches of `enqueue`.
pub enqueue_closed : (s : SseSubscriber) (frame : Bytes) → s.closed ≡ true → (enqueue s frame).0 ≡ s
unfolding enqueue
enqueue_closed s frame e = ap (λ (z : SseSubscriber × Bool). z.0) (if_true _ _ e)

pub enqueue_too_long :
    (s : SseSubscriber) (frame : Bytes)
    → s.closed ≡ false
    → ltb s.max_queued_bytes (length frame) ≡ true
    → (enqueue s frame).0 ≡ close_locked s
unfolding enqueue
enqueue_too_long s frame e f =
    ap (λ (z : SseSubscriber × Bool). z.0) (if_false _ _ e ∙ if_true _ _ f)

pub enqueue_live :
    (s : SseSubscriber) (frame : Bytes)
    → s.closed ≡ false
    → ltb s.max_queued_bytes (length frame) ≡ false
    → (enqueue s frame).0
      ≡ enqueue_behind s frame
          (make_room (length frame) s.max_queued_bytes s.queue s.queued_bytes false)
unfolding enqueue
enqueue_live s frame e f = ap (λ (z : SseSubscriber × Bool). z.0) (if_false _ _ e ∙ if_false _ _ f)

pub enqueue-limit :
    (s : SseSubscriber) (frame : Bytes) → (enqueue s frame).0.max_queued_bytes ≡ s.max_queued_bytes
enqueue-limit s frame = elim (Bool-cases s.closed) [
  | inl e ↦ ap (λ (z : SseSubscriber). z.max_queued_bytes) (enqueue_closed s frame e)
  | inr e ↦ elim (Bool-cases (ltb s.max_queued_bytes (length frame))) [
    | inl f ↦
        ap (λ (z : SseSubscriber). z.max_queued_bytes) (enqueue_too_long s frame e f)
        ∙ (unfold close_locked in refl)
    | inr f ↦
        ap (λ (z : SseSubscriber). z.max_queued_bytes) (enqueue_live s frame e f)
        ∙ enqueue_behind-limit s frame
            (make_room (length frame) s.max_queued_bytes s.queue s.queued_bytes false)
  ]
]

heartbeat-limit :
    (now : ℕ) (s : SseSubscriber) → (heartbeat now s).max_queued_bytes ≡ s.max_queued_bytes
unfolding heartbeat close_locked push_back_locked
heartbeat-limit now s = elim (Bool-cases (ltb s.max_queued_bytes (length heartbeat_frame))) [
  | inl e ↦ rw e refl
  | inr e ↦ rw e refl
]

pub maybe_heartbeat-limit :
    (now : ℕ) (s : SseSubscriber) → (maybe_heartbeat now s).0.max_queued_bytes ≡ s.max_queued_bytes
unfolding maybe_heartbeat
maybe_heartbeat-limit now s =
    elim (Bool-cases (s.closed || s.detached || s.heartbeat_interval == 0)) [
      | inl e ↦ simp e refl
      | inr e ↦ elim (Bool-cases (ltb (now - s.last_write) s.heartbeat_interval)) [
        | inl f ↦ simp (e, f) refl
        | inr f ↦ elim (Bool-cases (not (is_empty s.queue))) [
          | inl g ↦ simp (e, f, g) refl
          | inr g ↦ simp (e, f, g) (heartbeat-limit now s)
        ]
      ]
    ]

pub pull-limit :
    (now : ℕ) (s : SseSubscriber) → (pull now [] s).2.max_queued_bytes ≡ s.max_queued_bytes
unfolding pull
pull-limit now s = elim (Bool-cases (is_empty s.queue)) [ inl e ↦ rw e refl | inr e ↦ rw e refl ]

pub subscriber-limit :
    (options : SseOptions) (now : ℕ)
    → (subscriber options now).max_queued_bytes ≡ options.max_queued_bytes_per_subscriber
unfolding subscriber push_back_locked
subscriber-limit options now =
    let retry = build_retry_frame options.retry_hint in
    elim (Bool-cases
      (ltb 0 options.retry_hint && leb (length retry) options.max_queued_bytes_per_subscriber)) [
        | inl e ↦ rw (if_true _ _ e) refl
        | inr e ↦ rw (if_false _ _ e) refl
      ]

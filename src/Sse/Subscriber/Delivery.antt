-- ===== src/Sse/Subscriber/Delivery.antt =====
-- What a client is sent: whole frames, in the order in which they were offered.
use erikslund_http_embedded.Prelude.{
  ℕ, Bytes, length, List, ◌+◌, ◌≡◌, refl, sym, ap, subst, ◌∙◌, inl, inr, Bool, false, [], ◌∷◌, ◌++◌,
  append_assoc, arith, ltb, leb, Bool-cases, ◌-◌, not, ◌&&◌, ◌||◌, append-nil, ◌==◌, if_true,
  if_false, is_empty,
}
use mathlib.Core.List.{Sublist}
use erikslund_http_embedded.Sse.Subscriber.{
  enqueue, SseSubscriber, pull, joined, heartbeat_frame, close_locked, enqueue_behind,
  overflows_before_disconnect, push_back_locked, SseOptions, begin_close, maybe_heartbeat,
  on_attached, on_detached, subscriber, heartbeat,
}
use erikslund_http_embedded.Sse.Subscriber.Bounds.{
  happens, Event, pulled, published, ticked, IsBounded, happens-IsBounded, subscriber-IsBounded,
  attached, detached, closing,
}
use erikslund_http_embedded.Sse.Frame.{build_retry_frame}
use erikslund_http_embedded.Sse.Subscriber.Room.{make_room-MakesRoom}
use erikslund_http_embedded.Sse.Subscriber.Limit.{enqueue_closed, enqueue_live, enqueue_too_long}
use mathlib.Core.List.Sublist

nil-Sublist : (xs : List Bytes) → Sublist [] xs
nil-Sublist [] = Sublist.refl []
nil-Sublist (x ∷ xs) = Sublist.cons x (nil-Sublist xs)

append_right-Sublist : (xs ys : List Bytes) → Sublist ys (xs ++ ys)
append_right-Sublist xs ys = Sublist.append (nil-Sublist xs) (Sublist.refl ys)

append_left-Sublist : (xs ys : List Bytes) → Sublist xs (xs ++ ys)
append_left-Sublist [] ys = nil-Sublist ys
append_left-Sublist (x ∷ xs) ys = Sublist.cons-cons x (append_left-Sublist xs ys)

joined-append : (xs ys : List Bytes) → joined (xs ++ ys) ≡ joined xs ++ joined ys
unfolding joined
joined-append [] ys = refl
joined-append (x ∷ xs) ys =
    ap (λ z. x ++ z) (joined-append xs ys) ∙ sym (append_assoc x (joined xs) (joined ys))

-- The frames that an event offers to the client.
abbrev pub offers : Event → List Bytes
offers (published frame) = frame ∷ []
offers (ticked now) = heartbeat_frame ∷ []
offers _ = []

-- What an event sends.
abbrev pub sends : Event → SseSubscriber → Bytes → Bytes
sends (pulled now) s out = (pull now out s).1
sends _ s out = out

-- The output behind some events, and the state.
unfoldable pub serve : List Event → Bytes → SseSubscriber → Bytes × SseSubscriber
unfolding happens pull
serve [] out s = (out, s)
serve (e ∷ events) out s = serve events (sends e s out) (happens e s)

unfoldable pub all_offers : List Event → List Bytes
all_offers [] = []
all_offers (e ∷ events) = offers e ++ all_offers events

enqueue_behind-queue :
    (s : SseSubscriber) (frame : Bytes) (lost : List Bytes) (left : List Bytes × ℕ × Bool)
    → s.queue ≡ lost ++ left.0
    → Sublist (enqueue_behind s frame left).queue (s.queue ++ (frame ∷ []))
unfolding enqueue_behind push_back_locked close_locked
enqueue_behind-queue s frame lost (queue, bytes, dropped) e =
    let whole : Sublist (queue ++ (frame ∷ [])) (s.queue ++ (frame ∷ [])) =
      subst (λ z. Sublist (queue ++ (frame ∷ [])) (z ++ (frame ∷ []))) (sym e)
        (Sublist.append (append_right-Sublist lost queue) (Sublist.refl (frame ∷ []))) in
    elim (Bool-cases dropped) [
      | inr d ↦ rw d whole
      | inl d ↦ elim (Bool-cases (leb overflows_before_disconnect (s.consecutive_overflows + 1))) [
        | inl f ↦ rw d (rw f (nil-Sublist (s.queue ++ (frame ∷ []))))
        | inr f ↦ rw d (rw f whole)
      ]
    ]

enqueue-queue :
    (s : SseSubscriber) (frame : Bytes)
    → IsBounded s
    → Sublist (enqueue s frame).0.queue (s.queue ++ (frame ∷ []))
enqueue-queue s frame v = elim (Bool-cases s.closed) [
  | inl e ↦ rw (enqueue_closed s frame e) (append_left-Sublist s.queue (frame ∷ []))
  | inr e ↦ elim (Bool-cases (ltb s.max_queued_bytes (length frame))) [
    | inl f ↦
        rw (enqueue_too_long s frame e f)
          (unfold close_locked in nil-Sublist (s.queue ++ (frame ∷ [])))
    | inr f ↦
        let (lost, m) =
          make_room-MakesRoom (length frame) s.max_queued_bytes s.queue s.queued_bytes false
            (ground arith) v.counted v.within in
        rw (enqueue_live s frame e f) (enqueue_behind-queue s frame lost _ m.parts)
  ]
]

heartbeat-queue :
    (now : ℕ) (s : SseSubscriber)
    → Sublist (maybe_heartbeat now s).0.queue (s.queue ++ (heartbeat_frame ∷ []))
unfolding maybe_heartbeat heartbeat close_locked push_back_locked
heartbeat-queue now s =
    let stays = append_left-Sublist s.queue (heartbeat_frame ∷ []) in
    elim (Bool-cases (s.closed || s.detached || s.heartbeat_interval == 0)) [
      | inl e ↦ simp e stays
      | inr e ↦ elim (Bool-cases (ltb (now - s.last_write) s.heartbeat_interval)) [
        | inl f ↦ simp (e, f) stays
        | inr f ↦ elim (Bool-cases (not (is_empty s.queue))) [
          | inl g ↦ simp (e, f, g) stays
          | inr g ↦ elim (Bool-cases (ltb s.max_queued_bytes (length heartbeat_frame))) [
            | inl k ↦ simp (e, f, g, k) (nil-Sublist (s.queue ++ (heartbeat_frame ∷ [])))
            | inr k ↦ simp (e, f, g, k) (Sublist.refl (s.queue ++ (heartbeat_frame ∷ [])))
          ]
        ]
      ]
    ]

-- The output is whole frames, which with those that wait are some of the frames that were offered.
pub record IsDelivered (out : Bytes) (s : SseSubscriber) (offered : List Bytes) : Type 0 where
  pub sent : List Bytes
  pub output : out ≡ joined sent
  pub in_order : Sublist (sent ++ s.queue) offered

-- An event that only adds to the queue what it offers.
later-IsDelivered :
    (out : Bytes) (s s' : SseSubscriber) (offered more : List Bytes)
    → IsDelivered out s offered
    → Sublist s'.queue (s.queue ++ more)
    → IsDelivered out s' (offered ++ more)
later-IsDelivered out s s' offered more v q = record {
  sent = v.sent;
  output = v.output;
  in_order = Sublist.trans (Sublist.append (Sublist.refl v.sent) q) (
      subst (λ z. Sublist z (offered ++ more)) (append_assoc v.sent s.queue more)
        (Sublist.append v.in_order (Sublist.refl more)));
}

pull-IsDelivered :
    (now : ℕ) (out : Bytes) (s : SseSubscriber) (offered : List Bytes)
    → IsDelivered out s offered
    → IsDelivered (pull now out s).1 (pull now [] s).2 offered
unfolding pull
pull-IsDelivered now out s offered v = elim (Bool-cases (is_empty s.queue)) [
  | inl e ↦ simp e v
  | inr e ↦ simp e (record {
    sent = v.sent ++ s.queue;
    output = ap (λ z. z ++ joined s.queue) v.output ∙ sym (joined-append v.sent s.queue);
    in_order = subst (λ z. Sublist z offered) (sym (append-nil (v.sent ++ s.queue))) v.in_order;
  })
]

happens-IsDelivered :
    (e : Event) (out : Bytes) (s : SseSubscriber) (offered : List Bytes)
    → IsBounded s
    → IsDelivered out s offered
    → IsDelivered (sends e s out) (happens e s) (offered ++ offers e)
unfolding happens on_attached on_detached begin_close
happens-IsDelivered (pulled now) out s offered b v =
    rw (append-nil offered) (pull-IsDelivered now out s offered v)
happens-IsDelivered attached out s offered b v =
    later-IsDelivered out s _ offered [] v (append_left-Sublist s.queue [])
happens-IsDelivered detached out s offered b v =
    later-IsDelivered out s _ offered [] v (nil-Sublist (s.queue ++ []))
happens-IsDelivered closing out s offered b v =
    later-IsDelivered out s _ offered [] v (append_left-Sublist s.queue [])
happens-IsDelivered (published frame) out s offered b v =
    later-IsDelivered out s (enqueue s frame).0 offered (frame ∷ []) v (enqueue-queue s frame b)
happens-IsDelivered (ticked now) out s offered b v =
    later-IsDelivered out s (maybe_heartbeat now s).0 offered (heartbeat_frame ∷ []) v
      (heartbeat-queue now s)

serve-keeps :
    (events : List Event) (out : Bytes) (s : SseSubscriber) (offered : List Bytes)
    → IsBounded s
    → IsDelivered out s offered
    → IsDelivered (serve events out s).0 (serve events out s).1 (offered ++ all_offers events)
unfolding serve all_offers
serve-keeps [] out s offered b v = rw (append-nil offered) v
serve-keeps (e ∷ events) out s offered b v =
    subst
      (λ z.
        IsDelivered (serve events (sends e s out) (happens e s)).0
          (serve events (sends e s out) (happens e s)).1 z)
      (append_assoc offered (offers e) (all_offers events))
      (serve-keeps events (sends e s out) (happens e s) (offered ++ offers e)
        (happens-IsBounded e s b) (happens-IsDelivered e out s offered b v))

first_offers-IsDelivered :
    (options : SseOptions) (now : ℕ)
    → IsDelivered [] (subscriber options now) (build_retry_frame options.retry_hint ∷ [])
unfolding subscriber joined push_back_locked
first_offers-IsDelivered options now =
    elim (Bool-cases (
      ltb 0 options.retry_hint
      && leb (length (build_retry_frame options.retry_hint))
          options.max_queued_bytes_per_subscriber)) [
            | inl e ↦ rw (if_true _ _ e) (record {
              sent = [];
              output = refl;
              in_order = Sublist.refl (build_retry_frame options.retry_hint ∷ []);
            })
            | inr e ↦ rw (if_false _ _ e) (record {
              sent = [];
              output = refl;
              in_order = nil-Sublist (build_retry_frame options.retry_hint ∷ []);
            })
          ]

-- Whatever happens to a subscriber, what its client is sent is whole frames, each at most once and in
-- the order in which they were offered: the retry hint, then what was published and the heartbeats.
pub serve-IsDelivered :
    (options : SseOptions) (now : ℕ) (events : List Event)
    → IsDelivered
        (serve events [] (subscriber options now)).0
        (serve events [] (subscriber options now)).1
        (build_retry_frame options.retry_hint ∷ all_offers events)
serve-IsDelivered options now events =
    serve-keeps events [] (subscriber options now) (build_retry_frame options.retry_hint ∷ [])
      (subscriber-IsBounded options now) (first_offers-IsDelivered options now)

-- ===== src/Sse/Channel/Stores.antt =====
-- What holds of all subscribers of a channel, made with its options.
use erikslund_http_embedded.Prelude.{
  ℕ, zero, suc, ◌≡◌, sym, subst, inl, inr, false, not, some, List, [], ◌∷◌, ◌++◌, arith, leb, ◌==◌,
  Bool-cases, Option-cases, Bytes, length, get_elem?, All,
}
use erikslund_http_embedded.Sse.Channel.Limits.{
  Act, closed_all, published_or, run_channel, sent_event, shut_down, subscribed, touched, acts,
}
use erikslund_http_embedded.Sse.Channel.{
  ChannelState, close_all, close_subscribers, prune_dead, update_all, update, subscribe, publish,
  shutdown,
}
use erikslund_http_embedded.Sse.Subscriber.Bounds.{closing, published, happens}
use erikslund_http_embedded.Sse.Subscriber.{
  SseOptions, SseSubscriber, subscriber, enqueue, begin_close,
}
use erikslund_http_embedded.Sse.Frame.{build_event_frame, event_frame_size}
use erikslund_http_embedded.Method.{Method, head}
use erikslund_http_embedded.Sse.Subscriber.Within.{IsWithin, happens-IsWithin, subscriber-IsWithin}

module _ (P : SseSubscriber → Type 0) (f : SseSubscriber → SseSubscriber)
    (keeps : (s : SseSubscriber) → P s → P (f s)) where
  update-All : (store : List SseSubscriber) (i : ℕ) → All P store → All P (update store i f)
  unfolding update
  update-All [] i h = tt
  update-All (s ∷ store) zero (p, h) = (keeps s p, h)
  update-All (s ∷ store) (suc i) (p, h) = (p, update-All store i h)

  update_all-All :
      (store : List SseSubscriber) (ids : List ℕ) → All P store → All P (update_all store ids f)
  unfolding update_all
  update_all-All store [] h = h
  update_all-All store (i ∷ ids) h = update_all-All (update store i f) ids (update-All store i h)

All-behind :
    (P : SseSubscriber → Type 0) (store : List SseSubscriber) (s : SseSubscriber)
    → All P store
    → P s
    → All P (store ++ (s ∷ []))
All-behind P [] s h p = (p, tt)
All-behind P (x ∷ store) s (q, h) p = (q, All-behind P store s h p)

pub All-at :
    (P : SseSubscriber → Type 0) (store : List SseSubscriber) (i : ℕ) (s : SseSubscriber)
    → All P store
    → get_elem? store i ≡ some s
    → P s
All-at P [] i s h e = cc
All-at P (x ∷ store) zero s (p, h) e = subst P (ground (arith, e)) p
All-at P (x ∷ store) (suc i) s (p, h) e = All-at P store i s h e

-- The options of a channel are the ones it was made with, and each subscriber is within them.
pub record AllWithin (chosen : SseOptions) (c : ChannelState) : Type 0 where
  pub same : c.options ≡ chosen
  pub all_within : All (IsWithin chosen) c.store

publish-AllWithin :
    (chosen : SseOptions) (event payload : Bytes) (c c' : ChannelState)
    → publish event payload c ≡ some c'
    → AllWithin chosen c
    → AllWithin chosen c'
unfolding publish happens
publish-AllWithin chosen event payload c c' h v =
    elim (Option-cases (event_frame_size event payload c.options.max_event_bytes)) [
      | inl e ↦ absurd (ground arith)
      | inr (n, e) ↦
          let live = prune_dead c.store c.subscribers in
          let frame = build_event_frame event payload in
          let store = update_all c.store live (λ s. (enqueue s frame).0) in
          let reached : record c { store = store; subscribers = live } ≡ c' = ground arith in
          subst (AllWithin chosen) reached (record {
            same = v.same;
            all_within =
                update_all-All (IsWithin chosen) (λ s. (enqueue s frame).0)
                  (happens-IsWithin chosen (published frame)) c.store live v.all_within;
          })
    ]

subscribe-AllWithin :
    (chosen : SseOptions) (now : ℕ) (method : Method) (c : ChannelState)
    → AllWithin chosen c
    → AllWithin chosen (subscribe now method c).1
unfolding subscribe
subscribe-AllWithin chosen now method c v = elim (Bool-cases (method == head)) [
  | inl e ↦ rw e v
  | inr e ↦ elim (Bool-cases (not c.accepting)) [
    | inl f ↦ simp (e, f) v
    | inr f ↦
        elim (Bool-cases
          (leb c.options.max_subscribers (length (prune_dead c.store c.subscribers)))) [
            | inl g ↦ simp (e, f, g) (record { same = v.same; all_within = v.all_within })
            | inr g ↦
                simp (e, f, g)
                  (record {
                    same = v.same;
                    all_within =
                        All-behind (IsWithin chosen) c.store (subscriber c.options now) v.all_within
                          (subst (λ o. IsWithin chosen (subscriber o now)) (sym v.same)
                            (subscriber-IsWithin chosen now));
                  })
          ]
  ]
]

close_subscribers-AllWithin :
    (chosen : SseOptions) (c : ChannelState)
    → AllWithin chosen c
    → AllWithin chosen (close_subscribers c)
unfolding close_subscribers happens
close_subscribers-AllWithin chosen c v = record {
  same = v.same;
  all_within =
      update_all-All (IsWithin chosen) (λ s. (begin_close s).0) (happens-IsWithin chosen closing)
        c.store c.subscribers v.all_within;
}

acts-AllWithin :
    (chosen : SseOptions) (a : Act) (c : ChannelState)
    → AllWithin chosen c
    → AllWithin chosen (acts a c)
unfolding acts close_all shutdown
acts-AllWithin chosen (subscribed now method) c v = subscribe-AllWithin chosen now method c v
acts-AllWithin chosen (sent_event event payload) c v =
    elim (Option-cases (publish event payload c)) [
      | inl e ↦ subst (λ z. AllWithin chosen (published_or z c)) (sym e) v
      | inr (c', e) ↦
          subst (λ z. AllWithin chosen (published_or z c)) (sym e)
            (publish-AllWithin chosen event payload c c' e v)
    ]
acts-AllWithin chosen closed_all c v = close_subscribers-AllWithin chosen c v
acts-AllWithin chosen shut_down c v =
    close_subscribers-AllWithin chosen (record c { accepting = false })
      (record { same = v.same; all_within = v.all_within })
acts-AllWithin chosen (touched i e) c v = record {
  same = v.same;
  all_within =
      update-All (IsWithin chosen) (happens e) (happens-IsWithin chosen e) c.store i v.all_within;
}

pub run_channel-AllWithin :
    (chosen : SseOptions) (more : List Act) (c : ChannelState)
    → AllWithin chosen c
    → AllWithin chosen (run_channel more c)
unfolding run_channel
run_channel-AllWithin chosen [] c v = v
run_channel-AllWithin chosen (a ∷ more) c v =
    run_channel-AllWithin chosen more (acts a c) (acts-AllWithin chosen a c v)

-- ===== src/Sse/Channel/Publish.antt =====
-- Whom an event reaches.
use erikslund_http_embedded.Prelude.{
  ℕ, Bytes, length, get_elem?, zero, suc, ◌+◌, ◌<◌, ◌≡◌, refl, sym, ap, ◌∙◌, inl, inr, Bool, false,
  ◌&&◌, ◌||◌, some, List, [], ◌∷◌, arith, ◌==◌, if◌then◌else◌, Bool-cases, Option-cases, if_true,
  if_false, subst, ◌⊎◌, true, none,
}
use erikslund_http_embedded.Sse.Channel.{
  ChannelState, publish, prune_dead, update, update_all, is_alive_at,
}
use erikslund_http_embedded.Sse.Channel.Limits.{
  Ascends, IsSound, prune-Ascends, Act, new_channel, run_channel, run_channel-IsSound,
}
use erikslund_http_embedded.Sse.Subscriber.{SseSubscriber, enqueue, SseOptions, alive}
use erikslund_http_embedded.Sse.Frame.{build_event_frame, event_frame_size}
use erikslund_http_embedded.Sse.Channel.Stores.{All-at, AllWithin, run_channel-AllWithin}
use erikslund_http_embedded.Sse.Subscriber.Offer.{IsOffered, enqueue-IsOffered}
use erikslund_http_embedded.Sse.Subscriber.Within.{IsWithin}
use mathlib.Core.Option

pub is_listed : ℕ → List ℕ → Bool
is_listed j [] = false
is_listed j (i ∷ ids) = i == j || is_listed j ids

at-update :
    (store : List SseSubscriber) (i j : ℕ) (f : SseSubscriber → SseSubscriber)
    → get_elem? (update store i f) j
      ≡ (if i == j then Option.map f (get_elem? store j) else get_elem? store j)
unfolding update
at-update [] i j f = ground arith
at-update (s ∷ store) zero zero f = refl
at-update (s ∷ store) zero (suc j) f = ground arith
at-update (s ∷ store) (suc i) zero f = ground arith
at-update (s ∷ store) (suc i) (suc j) f = ground (arith, at-update store i j f)

not_listed :
    (low high j : ℕ) (ids : List ℕ) → Ascends low high ids → j < low → is_listed j ids ≡ false
unfolding is_listed
not_listed low high j [] v h = refl
not_listed low high j (i ∷ ids) (a, b, v) h =
    ground (arith, not_listed (i + 1) high j ids v (omega arith))

at-update_all :
    (store : List SseSubscriber) (low high j : ℕ) (ids : List ℕ) (f : SseSubscriber → SseSubscriber)
    → Ascends low high ids
    → get_elem? (update_all store ids f) j
      ≡ (if is_listed j ids then Option.map f (get_elem? store j) else get_elem? store j)
unfolding update_all is_listed
at-update_all store low high j [] f v = refl
at-update_all store low high j (i ∷ ids) f (a, b, v) =
    let ih = at-update_all (update store i f) (i + 1) high j ids f v in
    elim (Bool-cases (i == j)) [
      | inl e ↦
          let other : is_listed j ids ≡ false = not_listed (i + 1) high j ids v (ground arith) in
          ih
          ∙ (if_false _ _ other
              ∙ (at-update store i j f
                  ∙ (if_true _ _ e
                      ∙ sym (if_true {b = is_listed j (i ∷ ids)} _ _ (ground (arith, e))))))
      | inr e ↦ let moved = at-update store i j f ∙ if_false _ _ e in ih ∙ rw (moved, e) refl
    ]

listed-prune_dead :
    (store : List SseSubscriber) (j : ℕ) (ids : List ℕ)
    → is_listed j (prune_dead store ids) ≡ (is_listed j ids && is_alive_at store j)
unfolding prune_dead is_listed
listed-prune_dead store j [] = refl
listed-prune_dead store j (i ∷ ids) = elim (Bool-cases (i == j)) [
  | inl e ↦
      let same : i ≡ j = ground arith in rw same (ground (arith, listed-prune_dead store j ids))
  | inr e ↦ ground (arith, listed-prune_dead store j ids)
]

publish_step :
    (event payload : Bytes) (c c' : ChannelState) (j : ℕ)
    → IsSound c
    → publish event payload c ≡ some c'
    → get_elem? c'.store j ≡ (
        if is_listed j c.subscribers && is_alive_at c.store j
        then Option.map (λ s. (enqueue s (build_event_frame event payload)).0) (get_elem? c.store j)
        else get_elem? c.store j)
unfolding publish
publish_step event payload c c' j v h =
    elim (Option-cases (event_frame_size event payload c.options.max_event_bytes)) [
      | inl e ↦ absurd (ground arith)
      | inr (n, e) ↦
          let live = prune_dead c.store c.subscribers in
          let put : SseSubscriber → SseSubscriber =
            λ s. (enqueue s (build_event_frame event payload)).0 in
          let same : record c { store = update_all c.store live put; subscribers = live } ≡ c' =
            ground arith in
          ap (λ (z : ChannelState). get_elem? z.store j) (sym same)
          ∙ (at-update_all c.store 0 (length c.store) j live put
                (prune-Ascends c.store 0 (length c.store) c.subscribers v.known)
              ∙ ap (λ b. if b then Option.map put (get_elem? c.store j) else get_elem? c.store j)
                  (listed-prune_dead c.store j c.subscribers))
    ]

-- A subscriber that the channel does not list, or that is closed or detached.
abbrev pub IsPassedOver : ChannelState → ℕ → Type 0
IsPassedOver c j =
    (is_listed j c.subscribers ≡ false)
    ⊎ ((get_elem? c.store j ≡ none)
        ⊎ ((s : SseSubscriber) × (get_elem? c.store j ≡ some s)
            × ((s.closed ≡ true) ⊎ (s.detached ≡ true))))

-- What a published frame does to the subscriber at an index.
abbrev pub Reaches : Bytes → ChannelState → ChannelState → ℕ → Type 0
Reaches frame c c' j =
    (IsPassedOver c j × (get_elem? c'.store j ≡ get_elem? c.store j))
    ⊎ ((s : SseSubscriber) × (s' : SseSubscriber) × (is_listed j c.subscribers ≡ true)
        × (get_elem? c.store j ≡ some s)
        × (s.closed ≡ false)
        × (s.detached ≡ false)
        × (get_elem? c'.store j ≡ some s')
        × IsOffered c.options.max_queued_bytes_per_subscriber frame s s')

alive_at :
    (store : List SseSubscriber) (j : ℕ) (s : SseSubscriber)
    → get_elem? store j ≡ some s
    → is_alive_at store j ≡ alive s
unfolding is_alive_at
alive_at store j s e = rw (is_alive_at, e) refl

not_alive :
    (store : List SseSubscriber) (j : ℕ) → get_elem? store j ≡ none → is_alive_at store j ≡ false
unfolding is_alive_at
not_alive store j e = rw (is_alive_at, e) refl

Reaches-listed :
    (options : SseOptions) (frame : Bytes) (c c' : ChannelState) (j : ℕ) (s : SseSubscriber)
    → AllWithin options c
    → get_elem? c'.store j ≡ (
        if is_listed j c.subscribers && is_alive_at c.store j
        then Option.map (λ s. (enqueue s frame).0) (get_elem? c.store j)
        else get_elem? c.store j)
    → get_elem? c.store j ≡ some s
    → is_listed j c.subscribers ≡ true
    → Reaches frame c c' j
Reaches-listed options frame c c' j s v step at listed = elim (Bool-cases (alive s)) [
  | inl e ↦
      let reached : (is_listed j c.subscribers && is_alive_at c.store j) ≡ true =
        ground (arith, alive_at c.store j s at, listed, e) in
      inr (
        s,
        (enqueue s frame).0,
        listed,
        at,
        ground arith,
        ground arith,
        step ∙ (if_true _ _ reached ∙ ap (Option.map (λ s. (enqueue s frame).0)) at),
        subst (λ o. IsOffered o.max_queued_bytes_per_subscriber frame s (enqueue s frame).0)
            (sym v.same)
            (enqueue-IsOffered options s frame
              (All-at (IsWithin options) c.store j s v.all_within at) (ground arith)),
      )
  | inr e ↦
      let passed : (is_listed j c.subscribers && is_alive_at c.store j) ≡ false =
        ground (arith, alive_at c.store j s at, e) in
      inl (inr (inr (s, at, ground arith)), step ∙ if_false _ _ passed)
]

Reaches-step :
    (options : SseOptions) (frame : Bytes) (c c' : ChannelState) (j : ℕ)
    → AllWithin options c
    → get_elem? c'.store j ≡ (
        if is_listed j c.subscribers && is_alive_at c.store j
        then Option.map (λ s. (enqueue s frame).0) (get_elem? c.store j)
        else get_elem? c.store j)
    → Reaches frame c c' j
Reaches-step options frame c c' j v step = elim (Bool-cases (is_listed j c.subscribers)) [
  | inr e ↦
      let passed : (is_listed j c.subscribers && is_alive_at c.store j) ≡ false =
        ground (arith, e) in
      inl (inl e, step ∙ if_false _ _ passed)
  | inl e ↦ elim (Option-cases (get_elem? c.store j)) [
    | inl none_there ↦
        let passed : (is_listed j c.subscribers && is_alive_at c.store j) ≡ false =
          ground (arith, not_alive c.store j none_there) in
        inl (inr (inl none_there), step ∙ if_false _ _ passed)
    | inr (s, at) ↦ Reaches-listed options frame c c' j s v step at e
  ]
]

-- In whatever state a channel has come to, publishing an event leaves every subscriber that is not
-- listed, or is closed or detached, as it is. To any other its frame is offered: a frame over the
-- limit of the options closes it with an empty queue; otherwise the fewest of the oldest frames that
-- make room for it are lost, and it waits once, behind those that are left, or, where frames were lost
-- for the fourth time in a row, the subscriber is closed with an empty queue.
pub publish_lem :
    (options : SseOptions) (more : List Act) (event payload : Bytes) (c' : ChannelState) (j : ℕ)
    → publish event payload (run_channel more (new_channel options)) ≡ some c'
    → Reaches (build_event_frame event payload) (run_channel more (new_channel options)) c' j
publish_lem options more event payload c' j h =
    let c = run_channel more (new_channel options) in
    Reaches-step options (build_event_frame event payload) c c' j
      (run_channel-AllWithin options more (new_channel options)
        (record { same = refl; all_within = tt }))
      (publish_step event payload c c' j (run_channel-IsSound options more) h)

-- ===== src/Sse/Channel/Limits.antt =====
-- A channel holds no more subscribers than it may, and an event reaches each that is alive once.
use erikslund_http_embedded.Prelude.{
  ℕ, length, zero, suc, ◌+◌, ◌≤◌, ◌<◌, ◌≡◌, refl, sym, ap, subst, ◌∙◌, inl, inr, not, List, [], ◌∷◌,
  ◌++◌, arith, leb, ◌==◌, Bool-cases, length-append, true, none, some, Option-cases, Bytes, Option,
}
use erikslund_http_embedded.Method.{Method, head, options}
use erikslund_http_embedded.Sse.Channel.{
  ChannelState, subscribe, prune_dead, update, update_all, is_alive_at, close_all,
  close_subscribers, publish, shutdown,
}
use erikslund_http_embedded.Sse.Subscriber.{SseSubscriber, subscriber, SseOptions, enqueue}
use erikslund_http_embedded.Sse.Subscriber.Bounds.{Event, happens}
use erikslund_http_embedded.Sse.Frame.{build_event_frame, event_frame_size}

-- Indices in ascending order, none below the first bound and all below the second.
abbrev pub Ascends : ℕ → ℕ → List ℕ → Type 0
Ascends low high [] = Unit
Ascends low high (i ∷ ids) = (low ≤ i) × (i < high) × Ascends (i + 1) high ids

pub record IsSound (c : ChannelState) : Type 0 where
  pub few : length c.subscribers ≤ c.options.max_subscribers
  pub known : Ascends 0 (length c.store) c.subscribers

Ascends-lower :
    (low low' high : ℕ) (ids : List ℕ) → low' ≤ low → Ascends low high ids → Ascends low' high ids
Ascends-lower low low' high [] l v = tt
Ascends-lower low low' high (i ∷ ids) l (a, b, v) = (omega arith, b, v)

pub prune-Ascends :
    (store : List SseSubscriber) (low high : ℕ) (ids : List ℕ)
    → Ascends low high ids
    → Ascends low high (prune_dead store ids)
unfolding prune_dead
prune-Ascends store low high [] v = tt
prune-Ascends store low high (i ∷ ids) (a, b, v) = elim (Bool-cases (is_alive_at store i)) [
  | inl e ↦ rw e (a, b, prune-Ascends store (i + 1) high ids v)
  | inr e ↦ rw e (
      Ascends-lower (i + 1) low high (prune_dead store ids) (omega arith)
        (prune-Ascends store (i + 1) high ids v))
]

length-prune_dead :
    (store : List SseSubscriber) (ids : List ℕ) → length (prune_dead store ids) ≤ length ids
unfolding prune_dead
length-prune_dead store [] = omega arith
length-prune_dead store (i ∷ ids) = ground (arith, length-prune_dead store ids)

Ascends-append :
    (low high : ℕ) (ids : List ℕ)
    → low ≤ high
    → Ascends low high ids
    → Ascends low (high + 1) (ids ++ (high ∷ []))
Ascends-append low high [] l v = (l, omega arith, tt)
Ascends-append low high (i ∷ ids) l (a, b, v) =
    (a, omega arith, Ascends-append (i + 1) high ids (omega arith) v)

length-update :
    (store : List SseSubscriber) (i : ℕ) (f : SseSubscriber → SseSubscriber)
    → length (update store i f) ≡ length store
unfolding update
length-update [] i f = refl
length-update (s ∷ store) zero f = refl
length-update (s ∷ store) (suc i) f = ap suc (length-update store i f)

length-update_all :
    (store : List SseSubscriber) (ids : List ℕ) (f : SseSubscriber → SseSubscriber)
    → length (update_all store ids f) ≡ length store
unfolding update_all
length-update_all store [] f = refl
length-update_all store (i ∷ ids) f =
    length-update_all (update store i f) ids f ∙ length-update store i f

subscribe-IsSound :
    (now : ℕ) (method : Method) (c : ChannelState) → IsSound c → IsSound (subscribe now method c).1
unfolding subscribe
subscribe-IsSound now method c v =
    let live = prune_dead c.store c.subscribers in
    let kept = prune-Ascends c.store 0 (length c.store) c.subscribers v.known in
    let fewer = length-prune_dead c.store c.subscribers in
    elim (Bool-cases (method == head)) [
      | inl e ↦ rw e v
      | inr e ↦ elim (Bool-cases (not c.accepting)) [
        | inl f ↦ simp (e, f) v
        | inr f ↦ elim (Bool-cases (leb c.options.max_subscribers (length live))) [
          | inl g ↦ simp (e, f, g) (record { few = omega (arith, v.few, fewer); known = kept })
          | inr g ↦
              simp (e, f, g)
                (record {
                  few = ground (arith, length-append live (length c.store ∷ []));
                  known =
                      subst (λ n. Ascends 0 n (live ++ (length c.store ∷ [])))
                        (sym (length-append c.store (subscriber c.options now ∷ [])))
                        (Ascends-append 0 (length c.store) live (omega arith) kept);
                })
        ]
      ]
    ]

same_length-IsSound :
    (c : ChannelState) (store : List SseSubscriber)
    → IsSound c
    → length store ≡ length c.store
    → IsSound (record c { store = store; subscribers = prune_dead c.store c.subscribers })
same_length-IsSound c store v e = record {
  few = omega (arith, v.few, length-prune_dead c.store c.subscribers);
  known =
      subst (λ n. Ascends 0 n (prune_dead c.store c.subscribers)) (sym e)
        (prune-Ascends c.store 0 (length c.store) c.subscribers v.known);
}

publish-IsSound :
    (event payload : Bytes) (c : ChannelState) {c' : ChannelState}
    → publish event payload c ≡ some c'
    → IsSound c
    → IsSound c'
unfolding publish
publish-IsSound event payload c {c'} h v =
    elim (Option-cases (event_frame_size event payload c.options.max_event_bytes)) [
      | inl e ↦ absurd (ground arith)
      | inr (n, e) ↦
          let live = prune_dead c.store c.subscribers in
          let frame = build_event_frame event payload in
          let store = update_all c.store live (λ s. (enqueue s frame).0) in
          let same : record c { store = store; subscribers = live } ≡ c' = ground arith in
          subst IsSound same (
            same_length-IsSound c store v
              (length-update_all c.store live (λ s. (enqueue s frame).0)))
    ]

-- What happens to a channel: the calls of its users, and what its subscribers' connections and the
-- heartbeat pump do to a subscriber.
pub data Act : Type 0 where
  subscribed : ℕ → Method → Act
  sent_event : Bytes → Bytes → Act
  closed_all shut_down : Act
  touched : ℕ → Event → Act

-- After an event, or after the exception in its place.
abbrev pub published_or : Option ChannelState → ChannelState → ChannelState
published_or none c = c
published_or (some c') c = c'

unfoldable pub acts : Act → ChannelState → ChannelState
unfolding subscribe publish close_all shutdown update happens
acts (subscribed now method) c = (subscribe now method c).1
acts (sent_event event payload) c = published_or (publish event payload c) c
acts closed_all c = close_all c
acts shut_down c = shutdown c
acts (touched i e) c = record c { store = update c.store i (happens e) }

acts-IsSound : (a : Act) (c : ChannelState) → IsSound c → IsSound (acts a c)
unfolding acts close_all shutdown close_subscribers
acts-IsSound (subscribed now method) c v = subscribe-IsSound now method c v
acts-IsSound (sent_event event payload) c v = elim (Option-cases (publish event payload c)) [
  | inl e ↦ subst (λ z. IsSound (published_or z c)) (sym e) v
  | inr (c', e) ↦
      subst (λ z. IsSound (published_or z c)) (sym e) (publish-IsSound event payload c e v)
]
acts-IsSound closed_all c v = record { few = omega arith; known = tt }
acts-IsSound shut_down c v = record { few = omega arith; known = tt }
acts-IsSound (touched i e) c v = record {
  few = v.few;
  known =
      subst (λ n. Ascends 0 n c.subscribers) (sym (length-update c.store i (happens e))) v.known;
}

abbrev pub new_channel : SseOptions → ChannelState
new_channel options = record { options = options; store = []; subscribers = []; accepting = true }

unfoldable pub run_channel : List Act → ChannelState → ChannelState
unfolding acts
run_channel [] c = c
run_channel (a ∷ more) c = run_channel more (acts a c)

run_channel-keeps : (more : List Act) (c : ChannelState) → IsSound c → IsSound (run_channel more c)
unfolding run_channel
run_channel-keeps [] c v = v
run_channel-keeps (a ∷ more) c v = run_channel-keeps more (acts a c) (acts-IsSound a c v)

-- Whatever its users, its subscribers and the pump do to a channel, in any order, it never lists more
-- subscribers than it may, and lists each that it lists once.
pub run_channel-IsSound :
    (options : SseOptions) (more : List Act) → IsSound (run_channel more (new_channel options))
run_channel-IsSound options more =
    run_channel-keeps more (new_channel options) (record { few = omega arith; known = tt })

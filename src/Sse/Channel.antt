-- ===== src/Sse/Channel.antt =====
-- `SseChannel::State` of src/sse.cpp, and the tick of its heartbeat pump. Subscribers are shared with
-- their connections, so they stand in a store, the channel holds their indices, and a new one has an
-- index that no other had. Calls of notifiers have no place here.
pub mod Limits
pub mod Stores
pub mod Publish
use erikslund_http_embedded.Prelude.{
  ℕ, Bytes, length, get_elem?, zero, suc, Bool, false, not, Option, none, some, List, [], ◌∷◌, ◌++◌,
  leb, ◌==◌, if◌then◌else◌,
}
use erikslund_http_embedded.Method.{Method, head}
use erikslund_http_embedded.Sse.Frame.{event_frame_size, build_event_frame}
use erikslund_http_embedded.Sse.Subscriber.{
  SseSubscriber, SseOptions, subscriber, alive, enqueue, begin_close, maybe_heartbeat,
}

pub record ChannelState : Type 0 where
  pub options : SseOptions
  pub store : List SseSubscriber
  pub subscribers : List ℕ
  pub accepting : Bool

-- The subscriber at an index is changed by a function.
unfoldable pub update :
    List SseSubscriber → ℕ → (SseSubscriber → SseSubscriber) → List SseSubscriber
update [] i f = []
update (s ∷ store) zero f = f s ∷ store
update (s ∷ store) (suc i) f = s ∷ update store i f

unfoldable pub is_alive_at : List SseSubscriber → ℕ → Bool
is_alive_at store i = elim (get_elem? store i) [ none ↦ false | some s ↦ alive s ]

unfoldable pub prune_dead : List SseSubscriber → List ℕ → List ℕ
unfolding is_alive_at
prune_dead store [] = []
prune_dead store (i ∷ ids) =
    let rest = prune_dead store ids in if is_alive_at store i then i ∷ rest else rest

unfoldable pub update_all :
    List SseSubscriber → List ℕ → (SseSubscriber → SseSubscriber) → List SseSubscriber
unfolding update
update_all store [] f = store
update_all store (i ∷ ids) f = update_all (update store i f) ids f

-- How a request to subscribe is answered.
pub data SubscribeReply : Type 0 where
  probe channel_closed subscriber_limit : SubscribeReply
  stream : ℕ → SubscribeReply

unfoldable pub subscribe : ℕ → Method → ChannelState → SubscribeReply × ChannelState
unfolding prune_dead
subscribe now method c =
    let live = prune_dead c.store c.subscribers in
    let id = length c.store in
    if method == head
    then (probe, c)
    else if not c.accepting
    then (channel_closed, c)
    else if leb c.options.max_subscribers (length live)
    then (subscriber_limit, record c { subscribers = live })
    else (
      stream id,
      record c {
        store = c.store ++ (subscriber c.options now ∷ []);
        subscribers = live ++ (id ∷ []);
      },
    )

-- `none` is the exception for an event over the limit.
unfoldable pub publish : Bytes → Bytes → ChannelState → Option ChannelState
unfolding prune_dead update_all
publish event payload c = elim (event_frame_size event payload c.options.max_event_bytes) [
  | none ↦ none
  | some frame_size ↦
      let frame = build_event_frame event payload in
      let live = prune_dead c.store c.subscribers in
      some (record c {
        store = update_all c.store live (λ s. (enqueue s frame).0);
        subscribers = live;
      })
]

unfoldable pub subscriber_count : ChannelState → ℕ
unfolding prune_dead
subscriber_count c = length (prune_dead c.store c.subscribers)

unfoldable pub close_subscribers : ChannelState → ChannelState
unfolding update_all
close_subscribers c = record c {
  store = update_all c.store c.subscribers (λ s. (begin_close s).0);
  subscribers = [];
}

unfoldable pub close_all : ChannelState → ChannelState
unfolding close_subscribers
close_all c = close_subscribers c

unfoldable pub shutdown : ChannelState → ChannelState
unfolding close_subscribers
shutdown c = close_subscribers (record c { accepting = false })

-- The pump's list, and what a tick does to it and to the subscribers.
unfoldable pub tick_locked : ℕ → List SseSubscriber → List ℕ → List SseSubscriber × List ℕ
unfolding prune_dead update_all
tick_locked now store ids =
    let live = prune_dead store ids in
    (update_all store live (λ s. (maybe_heartbeat now s).0), live)

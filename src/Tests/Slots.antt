-- ===== src/Tests/Slots.antt =====
-- Runs of the admission of connections: src/server_state.cpp.
use erikslund_http_embedded.Tests.{program}
use erikslund_http_embedded.Prelude.{◌≡◌, refl, [], ◌∷◌, err}
use erikslund_http_embedded.Peer.{no_peer}
use erikslund_http_embedded.Admission.{admit, release, ServerState, global_limit, source_limit}
use erikslund_http_embedded.Admission.Slots.{IsAccounted}
use erikslund_http_embedded.Admission.Accounting.{slot_of, admit-Outcome, Outcome}
use erikslund_http_embedded.Admission.Release.{
  idle, Reachable, starts, opens, refuses, closes, Reachable-IsAccounted, HasLimits,
}

abbrev after_one : ServerState
after_one = record {
  max_connections = 2;
  max_connections_per_source = 1;
  active_connections = 1;
  source_connections = (no_peer.bytes, 1) ∷ [];
}

after_one-Reachable : Reachable 2 1 after_one (slot_of no_peer ∷ [])
unfolding program
after_one-Reachable =
    refuses after_one (slot_of no_peer ∷ []) no_peer source_limit
      (opens (idle 2 1) after_one [] (slot_of no_peer) no_peer starts refl) refl

Reachable_example :
    IsAccounted (release after_one (slot_of no_peer)) []
    × HasLimits 2 1 (release after_one (slot_of no_peer))
Reachable_example =
    Reachable-IsAccounted 2 1 (release after_one (slot_of no_peer)) []
      (closes after_one (slot_of no_peer) [] [] after_one-Reachable)

after_one-IsAccounted : IsAccounted after_one (slot_of no_peer ∷ [])
after_one-IsAccounted =
    (Reachable-IsAccounted 2 1 after_one (slot_of no_peer ∷ []) after_one-Reachable).0

admit_example : Outcome after_one (slot_of no_peer ∷ []) no_peer
admit_example = admit-Outcome after_one (slot_of no_peer ∷ []) no_peer after_one-IsAccounted

slot_tests :
    (admit after_one no_peer ≡ err source_limit)
    × (admit (idle 0 1) no_peer ≡ err global_limit)
    × (release after_one (slot_of no_peer) ≡ idle 2 1)
unfolding program
slot_tests = (refl, refl, refl)

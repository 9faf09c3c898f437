-- ===== src/Admission/Accounting.antt =====
-- Every admission and every release keeps the counts right.
use erikslund_http_embedded.Prelude.{
  ℕ, Bytes, List, Bool-cases, ◌≡◌, ◌≤◌, ◌+◌, ◌<◌, refl, sym, ap, subst, ◌∙◌, inl, inr, true, false,
  not, some, ◌∷◌, arith, leb, leb→le, bytes_eq, bytes_eq_iff, bytes_eq_refl, length, ok, err, ◌>>◌,
}
use erikslund_http_embedded.Peer.{PeerAddress}
use erikslund_http_embedded.Admission.{
  find, admit, ServerState, Slot, global_limit, insert_or_assign, source_count, source_limit,
}
use erikslund_http_embedded.Admission.Slots.{
  entry, held, IsAccounted, find-insert, find-insert_other, insert-Distinct,
}

-- The slot that an admitted peer gets.
abbrev pub slot_of : PeerAddress → Slot
slot_of peer = record { source = peer.bytes; source_counted = not peer.is_unix }

source_count-held :
    (s : ServerState) (slots : List Slot) (key : Bytes)
    → IsAccounted s slots
    → source_count key s.source_connections ≡ held key slots
unfolding source_count entry
source_count-held s slots key v = ground (arith, v.entries key)

pub entry_next : (n : ℕ) → entry (n + 1) ≡ some (n + 1)
unfolding entry
entry_next n = ground arith

pub held_same :
    (slot : Slot) (slots : List Slot)
    → slot.source_counted ≡ true
    → held slot.source (slot ∷ slots) ≡ held slot.source slots + 1
unfolding held
held_same slot slots h = rw (h, bytes_eq_refl slot.source) refl

pub held_other :
    (slot : Slot) (key : Bytes) (slots : List Slot)
    → bytes_eq slot.source key ≡ false
    → held key (slot ∷ slots) ≡ held key slots
unfolding held
held_other slot key slots h = ground (arith, h)

pub held_uncounted :
    (slot : Slot) (key : Bytes) (slots : List Slot)
    → slot.source_counted ≡ false
    → held key (slot ∷ slots) ≡ held key slots
unfolding held
held_uncounted slot key slots h = ground (arith, h)

-- What is true of the key of a slot and of all others is true of every key.
pub by_key :
    (P : Bytes → Type 0) (source key : Bytes)
    → P source
    → (bytes_eq source key ≡ false → P key)
    → P key
by_key P source key p q = elim (Bool-cases (bytes_eq source key)) [
  | inl e ↦ subst P ((bytes_eq_iff source key).0 e) p
  | inr e ↦ q e
]

admit_counted :
    (s : ServerState) (slots : List Slot) (slot : Slot)
    → IsAccounted s slots
    → slot.source_counted ≡ true
    → length slots < s.max_connections
    → held slot.source slots < s.max_connections_per_source
    → IsAccounted
        (record s {
          active_connections = s.active_connections + 1;
          source_connections =
              insert_or_assign slot.source (held slot.source slots + 1) s.source_connections;
        })
        (slot ∷ slots)
admit_counted s slots slot v c l h = record {
  counted = omega (arith, v.counted);
  entries = λ key.
      by_key
        (λ k.
          find k (insert_or_assign slot.source (held slot.source slots + 1) s.source_connections)
          ≡ entry (held k (slot ∷ slots)))
        slot.source key
        (find-insert slot.source (held slot.source slots + 1) s.source_connections
          ∙ (sym (entry_next (held slot.source slots)) ∙ ap entry (sym (held_same slot slots c))))
        (λ e.
          find-insert_other slot.source key (held slot.source slots + 1) s.source_connections e
          ∙ (v.entries key ∙ ap entry (sym (held_other slot key slots e))));
  distinct =
      insert-Distinct slot.source (held slot.source slots + 1) s.source_connections v.distinct;
  bounded = omega (arith, l);
  source_bounded = λ key.
      by_key (λ k. held k (slot ∷ slots) ≤ s.max_connections_per_source) slot.source key
        (omega (arith, held_same slot slots c, h))
        (λ e. omega (arith, held_other slot key slots e, v.source_bounded key));
}

admit_uncounted :
    (s : ServerState) (slots : List Slot) (slot : Slot)
    → IsAccounted s slots
    → slot.source_counted ≡ false
    → length slots < s.max_connections
    → IsAccounted (record s { active_connections = s.active_connections + 1 }) (slot ∷ slots)
admit_uncounted s slots slot v c l = record {
  counted = omega (arith, v.counted);
  entries = λ key. v.entries key ∙ ap entry (sym (held_uncounted slot key slots c));
  distinct = v.distinct;
  bounded = omega (arith, l);
  source_bounded = λ key. omega (arith, held_uncounted slot key slots c, v.source_bounded key);
}

-- The three outcomes of an admission, by the slots that are held.
pub data Outcome (s : ServerState) (slots : List Slot) (peer : PeerAddress) : Type 0 where
  full : s.max_connections ≤ length slots → admit s peer ≡ err global_limit → Outcome s slots peer
  source_full :
      length slots < s.max_connections
      → peer.is_unix ≡ false
      → s.max_connections_per_source ≤ held peer.bytes slots
      → admit s peer ≡ err source_limit
      → Outcome s slots peer
  admitted :
      (s' : ServerState)
      → admit s peer ≡ ok (slot_of peer, s')
      → length slots < s.max_connections
      → (peer.is_unix ≡ false → held peer.bytes slots < s.max_connections_per_source)
      → IsAccounted s' (slot_of peer ∷ slots)
      → Outcome s slots peer

-- Under right counts, `admit` refuses a peer for the global limit exactly when as many slots are held
-- as there may be, for the source limit exactly when there is room but the peer has an address and its
-- source holds all that a source may; else it hands out a slot, and the counts are right with it.
pub admit-Outcome :
    (s : ServerState) (slots : List Slot) (peer : PeerAddress)
    → IsAccounted s slots
    → Outcome s slots peer
unfolding admit
admit-Outcome s slots peer v = elim (Bool-cases (leb s.max_connections s.active_connections)) [
  | inl e ↦
      full (omega (arith, v.counted, leb→le s.max_connections s.active_connections e))
        (rw (e, ◌>>◌) refl)
  | inr e ↦
      let room : length slots < s.max_connections = ground (arith, v.counted) in
      elim (Bool-cases (peer.is_unix)) [
        | inl u ↦
            admitted (record s { active_connections = s.active_connections + 1 }) (rw (e, u) refl)
              room (λ k. absurd (ground arith))
              (admit_uncounted s slots (slot_of peer) v (rw u refl) room)
        | inr u ↦
            elim (Bool-cases
              (leb s.max_connections_per_source (source_count peer.bytes s.source_connections))) [
                | inl f ↦
                    source_full room u (ground (arith, source_count-held s slots peer.bytes v))
                      (rw (e, u, f) refl)
                | inr f ↦
                    let same = source_count-held s slots peer.bytes v in
                    let less : held peer.bytes slots < s.max_connections_per_source =
                      ground (arith, same) in
                    admitted
                      (record s {
                        active_connections = s.active_connections + 1;
                        source_connections =
                            insert_or_assign peer.bytes (held peer.bytes slots + 1)
                              s.source_connections;
                      })
                      (rw (e, u, f, same) refl) room (λ _. less)
                      (admit_counted s slots (slot_of peer) v (rw u refl) room less)
              ]
      ]
]

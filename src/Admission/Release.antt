-- ===== src/Admission/Release.antt =====
-- Giving a slot back, and every state that admissions and releases reach.
use erikslund_http_embedded.Prelude.{
  ℕ, Bytes, List, Bool-cases, ◌≡◌, ◌≤◌, ◌+◌, ◌-◌, ◌<◌, refl, sym, ap, subst, ◌∙◌, inl, inr, true,
  false, none, some, [], ◌∷◌, ◌++◌, arith, ltb, leb, bytes_eq, length, length-append, ok, err,
}
use erikslund_http_embedded.Peer.{PeerAddress}
use erikslund_http_embedded.Admission.{
  find, erase, admit, release, ServerState, AdmissionRejection, Counts, Slot, insert_or_assign,
}
use erikslund_http_embedded.Admission.Slots.{
  entry, held, IsAccounted, Distinct, erase-Distinct, find-erase, find-erase_other, find-insert,
  find-insert_other, insert-Distinct,
}
use erikslund_http_embedded.Admission.Accounting.{
  admit-Outcome, admitted, full, source_full, slot_of, by_key, entry_next, held_other, held_same,
  held_uncounted,
}

held_moved :
    (key : Bytes) (slot : Slot) (before after : List Slot)
    → held key (before ++ (slot ∷ after)) ≡ held key (slot ∷ (before ++ after))
unfolding held
held_moved key slot [] after = refl
held_moved key slot (b ∷ before) after = ground (arith, held_moved key slot before after)

length_moved :
    (slot : Slot) (before after : List Slot)
    → length (before ++ (slot ∷ after)) ≡ length (before ++ after) + 1
length_moved slot before after =
    omega (arith, length-append before (slot ∷ after), length-append before after)

moved-IsAccounted :
    (s : ServerState) (slot : Slot) (before after : List Slot)
    → IsAccounted s (before ++ (slot ∷ after))
    → IsAccounted s (slot ∷ (before ++ after))
moved-IsAccounted s slot before after v = record {
  counted = omega (arith, v.counted, length_moved slot before after);
  entries = λ key. v.entries key ∙ ap entry (held_moved key slot before after);
  distinct = v.distinct;
  bounded = omega (arith, v.bounded, length_moved slot before after);
  source_bounded = λ key. omega (arith, v.source_bounded key, held_moved key slot before after);
}

entry_zero : entry 0 ≡ none
unfolding entry
entry_zero = refl

entry_positive : (n : ℕ) → 0 < n → some (n + 1 - 1) ≡ entry n
unfolding entry
entry_positive n h = ground arith

-- What is true of both counts that a slot can leave behind for its source.
release_source :
    (s : ServerState) (slot : Slot) (rest : List Slot) (counts : Counts)
    → IsAccounted s (slot ∷ rest)
    → slot.source_counted ≡ true
    → find slot.source counts ≡ entry (held slot.source rest)
    → ((key : Bytes)
        → bytes_eq slot.source key ≡ false
        → find key counts ≡ find key s.source_connections)
    → Distinct counts
    → IsAccounted
        (record s { active_connections = s.active_connections - 1; source_connections = counts })
        rest
release_source s slot rest counts v c here elsewhere d = record {
  counted = omega (arith, v.counted);
  entries = λ key.
      by_key (λ k. find k counts ≡ entry (held k rest)) slot.source key here
        (λ e. elsewhere key e ∙ (v.entries key ∙ ap entry (held_other slot key rest e)));
  distinct = d;
  bounded = omega (arith, v.bounded);
  source_bounded = λ key.
      by_key (λ k. held k rest ≤ s.max_connections_per_source) slot.source key
        (omega (arith, held_same slot rest c, v.source_bounded slot.source))
        (λ e. omega (arith, held_other slot key rest e, v.source_bounded key));
}

release_front :
    (s : ServerState) (slot : Slot) (rest : List Slot)
    → IsAccounted s (slot ∷ rest)
    → IsAccounted (release s slot) rest
unfolding release
release_front s slot rest v =
    let some_active : ltb 0 s.active_connections ≡ true = ground (arith, v.counted) in
    elim (Bool-cases slot.source_counted) [
      | inr u ↦
          rw (some_active, u)
            (record {
              counted = omega (arith, v.counted);
              entries = λ key. v.entries key ∙ ap entry (held_uncounted slot key rest u);
              distinct = v.distinct;
              bounded = omega (arith, v.bounded);
              source_bounded =
                  λ key. omega (arith, held_uncounted slot key rest u, v.source_bounded key);
            })
      | inl u ↦
          let count = held slot.source rest in
          let found : find slot.source s.source_connections ≡ some (count + 1) =
            v.entries slot.source ∙ (ap entry (held_same slot rest u) ∙ entry_next count) in
          elim (Bool-cases (leb (count + 1) 1)) [
            | inl f ↦
                let gone : count ≡ 0 = ground arith in
                rw (u, found, f, some_active)
                  (release_source s slot rest (erase slot.source s.source_connections) v u
                    (find-erase slot.source s.source_connections v.distinct
                      ∙ (sym entry_zero ∙ ap entry (sym gone)))
                    (λ key e. find-erase_other slot.source key s.source_connections e)
                    (erase-Distinct slot.source s.source_connections v.distinct))
            | inr f ↦
                rw (u, found, f, some_active)
                  (release_source s slot rest
                    (insert_or_assign slot.source (count + 1 - 1) s.source_connections) v u
                    (find-insert slot.source (count + 1 - 1) s.source_connections
                      ∙ entry_positive count (ground arith))
                    (λ key e.
                      find-insert_other slot.source key (count + 1 - 1) s.source_connections e)
                    (insert-Distinct slot.source (count + 1 - 1) s.source_connections v.distinct))
          ]
    ]

-- Giving back any slot that is held, in whatever order the connections end, leaves counts that are
-- right for the slots that remain.
pub release-IsAccounted :
    (s : ServerState) (slot : Slot) (before after : List Slot)
    → IsAccounted s (before ++ (slot ∷ after))
    → IsAccounted (release s slot) (before ++ after)
release-IsAccounted s slot before after v =
    release_front s slot (before ++ after) (moved-IsAccounted s slot before after v)

abbrev pub idle : ℕ → ℕ → ServerState
idle max_connections max_connections_per_source = record {
  max_connections = max_connections;
  max_connections_per_source = max_connections_per_source;
  active_connections = 0;
  source_connections = [];
}

-- The states of a server, with the slots that its connections hold.
pub data Reachable (m per_source : ℕ) : ServerState → List Slot → Type 0 where
  starts : Reachable m per_source (idle m per_source) []
  opens :
      (s s' : ServerState) (slots : List Slot) (slot : Slot) (peer : PeerAddress)
      → Reachable m per_source s slots
      → admit s peer ≡ ok (slot, s')
      → Reachable m per_source s' (slot ∷ slots)
  refuses :
      (s : ServerState) (slots : List Slot) (peer : PeerAddress) (why : AdmissionRejection)
      → Reachable m per_source s slots
      → admit s peer ≡ err why
      → Reachable m per_source s slots
  closes :
      (s : ServerState) (slot : Slot) (before after : List Slot)
      → Reachable m per_source s (before ++ (slot ∷ after))
      → Reachable m per_source (release s slot) (before ++ after)

idle-IsAccounted : (m per_source : ℕ) → IsAccounted (idle m per_source) []
unfolding find held entry
idle-IsAccounted m per_source = record {
  counted = refl;
  entries = λ key. refl;
  distinct = tt;
  bounded = omega arith;
  source_bounded = λ key. omega arith;
}

admit_keeps :
    (s s' : ServerState) (slots : List Slot) (slot : Slot) (peer : PeerAddress)
    → admit s peer ≡ ok (slot, s')
    → IsAccounted s slots
    → IsAccounted s' (slot ∷ slots)
admit_keeps s s' slots slot peer h v = elim (admit-Outcome s slots peer v) [
  | full _ e ↦ cc
  | source_full _ _ _ e ↦ cc
  | admitted t e _ _ w ↦
      let same : (slot_of peer, t) ≡ (slot, s') = ground arith in
      subst (λ (z : Slot × ServerState). IsAccounted z.1 (z.0 ∷ slots)) same w
]

-- The limits are those of the server.
pub record HasLimits (m per_source : ℕ) (s : ServerState) : Type 0 where
  pub total : s.max_connections ≡ m
  pub each : s.max_connections_per_source ≡ per_source

admit-HasLimits :
    (m per_source : ℕ) (s s' : ServerState) (slot : Slot) (peer : PeerAddress)
    → admit s peer ≡ ok (slot, s')
    → HasLimits m per_source s
    → HasLimits m per_source s'
unfolding admit
admit-HasLimits m per_source s s' slot peer h v = record {
  total = ground (arith, v.total);
  each = ground (arith, v.each);
}

release-HasLimits :
    (m per_source : ℕ) (s : ServerState) (slot : Slot)
    → HasLimits m per_source s
    → HasLimits m per_source (release s slot)
unfolding release
release-HasLimits m per_source s slot v = record {
  total = ground (arith, v.total);
  each = ground (arith, v.each);
}

-- In every state that a server reaches from an idle one by admissions, refusals and releases in any
-- order, the limits are unchanged, both kinds of counts are exactly those of the slots that are
-- held, and neither limit is exceeded.
pub Reachable-IsAccounted :
    (m per_source : ℕ) (s : ServerState) (slots : List Slot)
    → Reachable m per_source s slots
    → IsAccounted s slots × HasLimits m per_source s
Reachable-IsAccounted m per_source _ _ starts =
    (idle-IsAccounted m per_source, record { total = refl; each = refl })
Reachable-IsAccounted m per_source _ _ (opens t s slots slot peer r h) =
    let (v, l) = Reachable-IsAccounted m per_source t slots r in
    (admit_keeps t s slots slot peer h v, admit-HasLimits m per_source t s slot peer h l)
Reachable-IsAccounted m per_source _ _ (refuses s slots peer why r h) =
    Reachable-IsAccounted m per_source s slots r
Reachable-IsAccounted m per_source _ _ (closes t slot before after r) =
    let (v, l) = Reachable-IsAccounted m per_source t (before ++ (slot ∷ after)) r in
    (release-IsAccounted t slot before after v, release-HasLimits m per_source t slot l)

-- ===== src/Admission.antt =====
-- src/server_state.cpp: the slots that connections hold. The mutex makes each operation one step;
-- the ordered map of counts is an association list. Counts are C++'s `unsigned`, which the maxima
-- bound, so that no increment wraps. The catch of `release`, which only logs, has no place here.
pub mod Slots
pub mod Accounting
pub mod Release
use erikslund_http_embedded.Prelude.{
  ◌>>◌, ◌>>=◌, ℕ, Bytes, Bool, Option, List, ◌+◌, ◌-◌, not, none, some, [], ◌∷◌, ltb, leb,
  if◌then◌else◌, bytes_eq, Result, ok, err, fail_if,
}
use erikslund_http_embedded.Peer.{PeerAddress}

pub data AdmissionRejection : Type 0 where
  global_limit source_limit : AdmissionRejection

abbrev pub Counts : Type 0
Counts = List (Bytes × ℕ)

-- `std::map::find`
unfoldable pub find : Bytes → Counts → Option ℕ
find key [] = none
find key ((k, n) ∷ counts) = if bytes_eq k key then some n else find key counts

-- `std::map::insert_or_assign`
unfoldable pub insert_or_assign : Bytes → ℕ → Counts → Counts
insert_or_assign key value [] = (key, value) ∷ []
insert_or_assign key value ((k, n) ∷ counts) =
    if bytes_eq k key then (k, value) ∷ counts else (k, n) ∷ insert_or_assign key value counts

-- `std::map::erase` of a key's entry.
unfoldable pub erase : Bytes → Counts → Counts
erase key [] = []
erase key ((k, n) ∷ counts) = if bytes_eq k key then counts else (k, n) ∷ erase key counts

pub record ServerState : Type 0 where
  pub max_connections : ℕ
  pub max_connections_per_source : ℕ
  pub active_connections : ℕ
  pub source_connections : Counts

-- What a `ConnectionAdmission` that owns its slot keeps of it.
pub record Slot : Type 0 where
  pub source : Bytes
  pub source_counted : Bool

-- `entry == end() ? 0U : entry->second`
unfoldable pub source_count : Bytes → Counts → ℕ
unfolding find
source_count key counts = elim (find key counts) [ none ↦ 0 | some n ↦ n ]

-- The part of `admit` for a peer that has an address.
unfoldable pub count_source : ServerState → Bytes → Result AdmissionRejection Counts
unfolding source_count insert_or_assign
count_source s source =
    let count = source_count source s.source_connections in
    if leb s.max_connections_per_source count
    then err source_limit
    else ok (insert_or_assign source (count + 1) s.source_connections)

-- `ServerState::admit`
unfoldable pub admit : ServerState → PeerAddress → Result AdmissionRejection (Slot × ServerState)
unfolding count_source
admit s peer = do
  fail_if (leb s.max_connections s.active_connections) global_limit
  counts ← if peer.is_unix then ok s.source_connections else count_source s peer.bytes
  ok (
    record { source = peer.bytes; source_counted = not peer.is_unix },
    record s { active_connections = s.active_connections + 1; source_connections = counts },
  )

-- `ServerState::release`
unfoldable pub release : ServerState → Slot → ServerState
unfolding find erase insert_or_assign
release s slot =
    let active =
      if ltb 0 s.active_connections then s.active_connections - 1 else s.active_connections in
    let counted = record s { active_connections = active } in
    if slot.source_counted
    then elim (find slot.source s.source_connections) [
      | none ↦ counted
      | some n ↦
          if leb n 1
          then record counted { source_connections = erase slot.source s.source_connections }
          else record counted {
            source_connections = insert_or_assign slot.source (n - 1) s.source_connections;
          }
    ]
    else counted

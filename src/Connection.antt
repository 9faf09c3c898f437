-- ===== src/Connection.antt =====
-- src/connection.cpp, what is modelled of it: how the vectors of a response are written. What the
-- transport answers to each call is given, as a list in the order of the calls.
pub mod Wire
pub mod Phases
use erikslund_http_embedded.Prelude.{
  ℕ, ◌+◌, ◌-◌, not, Option, none, some, List, [], ◌∷◌, ◌++◌, ltb, leb, ◌==◌, if◌then◌else◌, Bytes,
  is_empty, length, take, drop,
}

pub data TransportStatus : Type 0 where
  transport_ok want_read want_write transport_closed transport_error : TransportStatus

pub record TransportResult : Type 0 where
  pub status : TransportStatus
  pub bytes : ℕ

pub data EpollInterest : Type 0 where
  done quiescent read write read_write : EpollInterest

-- The vectors behind an offset.
unfoldable pub batch : ℕ → List Bytes → List Bytes
batch skipped [] = []
batch skipped (entry ∷ entries) =
    let later = batch (skipped - length entry) entries in
    let here = drop skipped entry ∷ batch 0 entries in
    if leb (length entry) skipped then later else here

unfoldable pub pending_bytes : List Bytes → ℕ
pending_bytes [] = 0
pending_bytes (entry ∷ entries) = length entry + pending_bytes entries

-- The bytes that a transport takes of a batch.
unfoldable pub flatten : List Bytes → Bytes
flatten [] = []
flatten (entry ∷ entries) = entry ++ flatten entries

-- Where the loop of `drive_write` stops: it waits, the connection is over, all is written, or no more
-- answers are given.
pub data WriteEnd : Type 0 where
  interested : EpollInterest → WriteEnd
  all_written out_of_answers : WriteEnd

-- How an answer ends the loop, if it does.
unfoldable pub stops : TransportResult → Option EpollInterest
stops result = elim result.status [
  | want_write ↦ some write
  | want_read ↦ some read
  | transport_closed ↦ some done
  | transport_error ↦ some done
  | transport_ok ↦ if result.bytes == 0 then some write else none
]

-- The loop: the vectors, the offset and what has reached the transport; the same three behind it.
unfoldable pub write_loop : List TransportResult → List Bytes → ℕ → Bytes → WriteEnd × ℕ × Bytes
unfolding batch pending_bytes flatten stops
write_loop [] vectors write_offset wire = (
  if ltb write_offset (pending_bytes vectors) then out_of_answers else all_written,
  write_offset,
  wire,
)
write_loop (result ∷ results) vectors write_offset wire =
    let pieces = batch write_offset vectors in
    let rest =
      write_loop results vectors (write_offset + result.bytes)
        (wire ++ take result.bytes (flatten pieces)) in
    if not (ltb write_offset (pending_bytes vectors))
    then (all_written, write_offset, wire)
    else if is_empty pieces
    then (all_written, write_offset, wire)
    else elim (stops result) [
      | some interest ↦ (interested interest, write_offset, wire)
      | none ↦ rest
    ]

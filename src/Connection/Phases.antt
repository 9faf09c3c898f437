-- ===== src/Connection/Phases.antt =====
-- The phases of a connection of src/connection.cpp and their deadlines: what each part of the drive
-- functions does to the state, the deadlines and the stream. A time is a number, and 0 is the time that
-- stands for none; the clock is an argument.
pub mod Deadlines
use erikslund_http_embedded.Prelude.{
  ℕ, ◌+◌, Bool, true, false, not, ◌&&◌, ◌||◌, ltb, ◌==◌, if◌then◌else◌,
}

pub data ConnectionState : Type 0 where
  handshaking reading_headers reading_body writing streaming closing : ConnectionState

-- The members of `ServerOptions` that the phases read.
pub record ServerOptions : Type 0 where
  pub handshake_timeout : ℕ
  pub header_timeout : ℕ
  pub body_timeout : ℕ
  pub write_timeout : ℕ
  pub keep_alive_idle : ℕ
  pub request_deadline : ℕ
  pub stream_idle_timeout : ℕ
  pub max_requests_per_connection : ℕ

-- `has_stream` and `has_notifier` say that the pointers are not null, `detached` how often the source
-- was told that it is detached, and `shutdowns` how often the transport was shut down.
pub record Connection : Type 0 where
  pub state : ConnectionState
  pub deadline : ℕ
  pub request_deadline : ℕ
  pub requests_served : ℕ
  pub saw_any_bytes : Bool
  pub stream_waiting_for_write_progress : Bool
  pub has_stream : Bool
  pub has_notifier : Bool
  pub detached : ℕ
  pub shutdowns : ℕ

abbrev pub is_streaming : ConnectionState → Bool
is_streaming streaming = true
is_streaming _ = false

abbrev pub is_closing : ConnectionState → Bool
is_closing closing = true
is_closing _ = false

unfoldable pub arm_deadline : ℕ → ℕ → Connection → Connection
arm_deadline now budget c = record c {
  deadline =
      (if not (c.request_deadline == 0)
          && not (is_streaming c.state)
          && ltb c.request_deadline (now + budget)
        then c.request_deadline
        else now + budget);
}

-- The budget of a phase.
unfoldable pub budget_of : ServerOptions → Connection → ConnectionState → ℕ
budget_of options c handshaking = options.handshake_timeout
budget_of options c reading_headers =
    if not c.saw_any_bytes && ltb 0 c.requests_served
    then options.keep_alive_idle
    else options.header_timeout
budget_of options c reading_body = options.body_timeout
budget_of options c writing = options.write_timeout
budget_of options c streaming = options.stream_idle_timeout
budget_of options c closing = options.write_timeout

unfoldable pub enter_state : ServerOptions → ℕ → ConnectionState → Connection → Connection
unfolding arm_deadline budget_of
enter_state options now next c =
    arm_deadline now (budget_of options c next) (record c { state = next })

unfoldable pub release_stream_source : Connection → Connection
release_stream_source c = record c {
  stream_waiting_for_write_progress = false;
  has_stream = false;
  has_notifier = false;
  detached = c.detached + (if c.has_stream then 1 else 0);
}

unfoldable pub begin_close : ServerOptions → ℕ → Connection → Connection
unfolding release_stream_source enter_state
begin_close options now c =
    let released = release_stream_source c in
    if is_closing c.state
    then c
    else enter_state options now closing (record released { shutdowns = released.shutdowns + 1 })

-- The constructor: the members as they are initialised, in the first phase.
unfoldable pub connection : ServerOptions → ℕ → Connection
unfolding enter_state
connection options now = enter_state options now handshaking (record {
  state = handshaking;
  deadline = 0;
  request_deadline = 0;
  requests_served = 0;
  saw_any_bytes = false;
  stream_waiting_for_write_progress = false;
  has_stream = false;
  has_notifier = false;
  detached = 0;
  shutdowns = 0;
})

-- Bytes have been read in `drive_read_headers`.
unfoldable pub headers_read : ServerOptions → ℕ → Connection → Connection
unfolding arm_deadline
headers_read options now c =
    if c.saw_any_bytes
    then c
    else arm_deadline now options.header_timeout
        (record c { saw_any_bytes = true; request_deadline = now + options.request_deadline })

-- The end of `dispatch_and_serialize`, with the source of the response where it is a stream, and the
-- phase that follows each call of it.
unfoldable pub response_ready : ServerOptions → ℕ → Bool → Connection → Connection
unfolding enter_state
response_ready options now streams c =
    enter_state options now writing
      (record c { has_stream = c.has_stream || streams; request_deadline = 0 })

-- `drive_write` behind its loop, where a stream starts.
unfoldable pub stream_starts : ServerOptions → ℕ → Connection → Connection
unfolding enter_state
stream_starts options now c = enter_state options now streaming (record c { has_notifier = true })

-- `drive_write` behind its loop, where a response is complete: whether the connection is kept, and
-- whether bytes of a next request wait.
unfoldable pub response_completed : ServerOptions → ℕ → Bool → Bool → Connection → Connection
unfolding release_stream_source begin_close enter_state
response_completed options now keep_alive waiting c =
    let served = release_stream_source (record c { requests_served = c.requests_served + 1 }) in
    if not (keep_alive && ltb served.requests_served options.max_requests_per_connection)
    then begin_close options now served
    else enter_state options now reading_headers (record served {
      saw_any_bytes = waiting;
      request_deadline = (if waiting then now + options.request_deadline else 0);
    })

-- The loop of `drive_stream` over the vectors: a blocked call, a call that took bytes, and its end.
unfoldable pub stream_blocked : ServerOptions → ℕ → Connection → Connection
unfolding arm_deadline
stream_blocked options now c =
    if c.stream_waiting_for_write_progress
    then c
    else arm_deadline now options.write_timeout
        (record c { stream_waiting_for_write_progress = true })

unfoldable pub stream_progressed : ServerOptions → ℕ → Connection → Connection
unfolding arm_deadline
stream_progressed options now c =
    arm_deadline now options.write_timeout (record c { stream_waiting_for_write_progress = false })

unfoldable pub stream_drained : ServerOptions → ℕ → Connection → Connection
unfolding arm_deadline
stream_drained options now c =
    arm_deadline now options.stream_idle_timeout
      (record c { stream_waiting_for_write_progress = false })

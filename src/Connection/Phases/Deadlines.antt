-- ===== src/Connection/Phases/Deadlines.antt =====
-- What holds of a connection in each phase.
use erikslund_http_embedded.Prelude.{
  ℕ, ◌+◌, ◌≤◌, ◌<◌, ◌≡◌, refl, ◌⊎◌, inl, inr, Bool, true, false, arith, Bool-cases, if_false,
  if_true, not, ◌&&◌, ltb, if◌then◌else◌,
}
use erikslund_http_embedded.Connection.Phases.{
  ConnectionState, Connection, ServerOptions, arm_deadline, enter_state, headers_read, is_closing,
  is_streaming, reading_body, reading_headers, release_stream_source, response_completed,
  response_ready, stream_blocked, stream_drained, stream_progressed, stream_starts, handshaking,
  writing, streaming, closing, begin_close, connection,
}

abbrev pub count : Bool → ℕ
count true = 1
count false = 0

abbrev is_reading : ConnectionState → Bool
is_reading reading_headers = true
is_reading reading_body = true
is_reading _ = false

-- What can happen to a connection, with how many stream sources it was handed so far. An exception of a
-- handler or of a source, an error of the parser or of the transport, and an expired deadline lead to
-- a response that is ready or to a close.
pub data Reach (options : ServerOptions) : ℕ → Connection → Type 0 where
  opened : (now : ℕ) → Reach options 0 (connection options now)
  shaken :
      {n : ℕ} {c : Connection} (now : ℕ)
      → Reach options n c
      → c.state ≡ handshaking
      → Reach options n (enter_state options now reading_headers c)
  got_bytes :
      {n : ℕ} {c : Connection} (now : ℕ)
      → Reach options n c
      → c.state ≡ reading_headers
      → Reach options n (headers_read options now c)
  body_awaited :
      {n : ℕ} {c : Connection} (now : ℕ)
      → Reach options n c
      → c.state ≡ reading_headers
      → Reach options n (enter_state options now reading_body c)
  answered :
      {n : ℕ} {c : Connection} (now : ℕ) (streams : Bool)
      → Reach options n c
      → is_reading c.state ≡ true
      → Reach options (n + count streams) (response_ready options now streams c)
  started :
      {n : ℕ} {c : Connection} (now : ℕ)
      → Reach options n c
      → c.state ≡ writing
      → c.has_stream ≡ true
      → Reach options n (stream_starts options now c)
  completed :
      {n : ℕ} {c : Connection} (now : ℕ) (keep_alive waiting : Bool)
      → Reach options n c
      → c.state ≡ writing
      → Reach options n (response_completed options now keep_alive waiting c)
  blocked :
      {n : ℕ} {c : Connection} (now : ℕ)
      → Reach options n c
      → c.state ≡ streaming
      → Reach options n (stream_blocked options now c)
  progressed :
      {n : ℕ} {c : Connection} (now : ℕ)
      → Reach options n c
      → c.state ≡ streaming
      → Reach options n (stream_progressed options now c)
  drained :
      {n : ℕ} {c : Connection} (now : ℕ)
      → Reach options n c
      → c.state ≡ streaming
      → Reach options n (stream_drained options now c)
  released :
      {n : ℕ} {c : Connection}
      → Reach options n c
      → c.state ≡ streaming
      → Reach options n (release_stream_source c)
  closed :
      {n : ℕ} {c : Connection} (now : ℕ)
      → Reach options n c
      → Reach options n (begin_close options now c)

pub record IsConsistent (n : ℕ) (c : Connection) : Type 0 where
  -- Outside a stream no deadline is behind that of the request.
  pub clamped :
      is_streaming c.state ≡ false → 0 < c.request_deadline → c.deadline ≤ c.request_deadline
  -- Only a stream has a notifier.
  pub notified : c.has_notifier ≡ true → c.state ≡ streaming
  -- No source is held while a request is read, nor by a connection that closes.
  pub unread : is_reading c.state ≡ true → c.has_stream ≡ false
  pub unshaken : c.state ≡ handshaking → c.has_stream ≡ false
  pub let_go : c.state ≡ closing → c.has_stream ≡ false
  -- Each source is detached once, or is held.
  pub detached_once : n ≡ c.detached + count c.has_stream
  -- The transport is shut down once, by the close.
  pub shut_once : c.shutdowns ≡ count (is_closing c.state)

enter_state-clamps :
    (options : ServerOptions) (now : ℕ) (next : ConnectionState) (c : Connection)
    → is_streaming next ≡ false
    → 0 < c.request_deadline
    → (enter_state options now next c).deadline ≤ c.request_deadline
unfolding enter_state arm_deadline
enter_state-clamps options now next c s r = ground (arith, s, r)

begin_close-IsConsistent :
    (options : ServerOptions) (now n : ℕ) (c : Connection)
    → n ≡ c.detached + count c.has_stream
    → c.shutdowns ≡ count (is_closing c.state)
    → IsConsistent n c ⊎ (is_closing c.state ≡ false)
    → IsConsistent n (begin_close options now c)
unfolding begin_close release_stream_source
begin_close-IsConsistent options now n c d s v = elim (Bool-cases (is_closing c.state)) [
  | inl e ↦ elim v [ inl w ↦ rw e w | inr other ↦ absurd (ground (arith, e, other)) ]
  | inr e ↦
      let released = release_stream_source c in
      rw (if_false _ _ e) (record {
        clamped = λ k r.
            enter_state-clamps options now closing
              (record released { shutdowns = released.shutdowns + 1 }) refl r;
        notified = λ k. absurd (unfold enter_state arm_deadline in ground arith);
        unread = λ k. refl;
        unshaken = λ k. refl;
        let_go = λ k. refl;
        detached_once = unfold enter_state arm_deadline in ground (arith, d);
        shut_once = unfold enter_state arm_deadline in ground (arith, s, e);
      })
]

-- A stream whose deadline is set again.
rearmed-IsConsistent :
    (now budget n : ℕ) (c : Connection) (waiting : Bool)
    → c.state ≡ streaming
    → IsConsistent n c
    → IsConsistent n
        (arm_deadline now budget (record c { stream_waiting_for_write_progress = waiting }))
unfolding arm_deadline
rearmed-IsConsistent now budget n c waiting s v = record {
  clamped = λ k h. absurd (ground (arith, s));
  notified = v.notified;
  unread = v.unread;
  unshaken = v.unshaken;
  let_go = v.let_go;
  detached_once = v.detached_once;
  shut_once = v.shut_once;
}

-- Whatever happens to a connection, its deadline is not behind that of its request but in a stream, only a
-- stream has a notifier, no stream source is held while a request is read or when the connection
-- closes, each source is told once that it is detached unless it is still held, and the transport is
-- shut down once, when the connection closes.
pub Reach-IsConsistent :
    (options : ServerOptions) {n : ℕ} {c : Connection} → Reach options n c → IsConsistent n c
unfolding connection headers_read response_ready stream_starts response_completed stream_blocked
    stream_progressed stream_drained release_stream_source enter_state arm_deadline
Reach-IsConsistent options (opened now) = record {
  clamped = λ k r. absurd (omega arith);
  notified = λ k. absurd (ground arith);
  unread = λ k. refl;
  unshaken = λ k. refl;
  let_go = λ k. refl;
  detached_once = refl;
  shut_once = refl;
}
Reach-IsConsistent options (shaken {n} {c} now r s) =
    let v = Reach-IsConsistent options r in
    record {
      clamped = λ k h. enter_state-clamps options now reading_headers c refl h;
      notified = λ k. absurd (ground (arith, v.notified k, s));
      unread = λ k. v.unshaken s;
      unshaken = λ k. v.unshaken s;
      let_go = λ k. v.unshaken s;
      detached_once = v.detached_once;
      shut_once = ground (arith, v.shut_once, s);
    }
Reach-IsConsistent options (got_bytes {n} {c} now r s) =
    let v = Reach-IsConsistent options r in
    elim (Bool-cases c.saw_any_bytes) [
      | inl e ↦ rw (if_true _ _ e) v
      | inr e ↦ rw (if_false _ _ e) (record {
        clamped = λ k h. ground (arith, s);
        notified = v.notified;
        unread = v.unread;
        unshaken = v.unshaken;
        let_go = v.let_go;
        detached_once = v.detached_once;
        shut_once = v.shut_once;
      })
    ]
Reach-IsConsistent options (body_awaited {n} {c} now r s) =
    let v = Reach-IsConsistent options r in
    record {
      clamped = λ k h. enter_state-clamps options now reading_body c refl h;
      notified = λ k. absurd (ground (arith, v.notified k, s));
      unread = λ k. v.unread (ground (arith, s));
      unshaken = λ k. v.unread (ground (arith, s));
      let_go = λ k. v.unread (ground (arith, s));
      detached_once = v.detached_once;
      shut_once = ground (arith, v.shut_once, s);
    }
Reach-IsConsistent options (answered {n} {c} now streams r s) =
    let v = Reach-IsConsistent options r in
    record {
      clamped = λ k h. absurd (omega (arith, h));
      notified = λ k. absurd (ground (arith, v.notified k, s));
      unread = λ k. absurd (ground arith);
      unshaken = λ k. absurd (ground arith);
      let_go = λ k. absurd (ground arith);
      detached_once = ground (arith, v.detached_once, v.unread s);
      shut_once = ground (arith, v.shut_once, s);
    }
Reach-IsConsistent options (started {n} {c} now r s h) =
    let v = Reach-IsConsistent options r in
    record {
      clamped = λ k q. absurd (ground arith);
      notified = λ k. refl;
      unread = λ k. absurd (ground arith);
      unshaken = λ k. absurd (ground arith);
      let_go = λ k. absurd (ground arith);
      detached_once = v.detached_once;
      shut_once = ground (arith, v.shut_once, s);
    }
Reach-IsConsistent options (completed {n} {c} now keep_alive waiting r s) =
    let v = Reach-IsConsistent options r in
    let served = release_stream_source (record c { requests_served = c.requests_served + 1 }) in
    let told : n ≡ served.detached + count served.has_stream = ground (arith, v.detached_once) in
    elim (Bool-cases
      (not (keep_alive && ltb served.requests_served options.max_requests_per_connection))) [
        | inl e ↦ rw (if_true _ _ e) (
            begin_close-IsConsistent options now n served told v.shut_once
              (inr (ground (arith, s))))
        | inr e ↦
            let next = record served {
              saw_any_bytes = waiting;
              request_deadline = (if waiting then now + options.request_deadline else 0);
            } in
            rw (if_false _ _ e) (record {
              clamped = λ k h. enter_state-clamps options now reading_headers next refl h;
              notified = λ k. absurd (ground arith);
              unread = λ k. refl;
              unshaken = λ k. refl;
              let_go = λ k. refl;
              detached_once = told;
              shut_once = ground (arith, v.shut_once, s);
            })
      ]
Reach-IsConsistent options (blocked {n} {c} now r s) =
    elim (Bool-cases c.stream_waiting_for_write_progress) [
      | inl e ↦ rw (if_true _ _ e) (Reach-IsConsistent options r)
      | inr e ↦
          rw (if_false _ _ e) (
            rearmed-IsConsistent now options.write_timeout n c true s
              (Reach-IsConsistent options r))
    ]
Reach-IsConsistent options (progressed {n} {c} now r s) =
    rearmed-IsConsistent now options.write_timeout n c false s (Reach-IsConsistent options r)
Reach-IsConsistent options (drained {n} {c} now r s) =
    rearmed-IsConsistent now options.stream_idle_timeout n c false s (Reach-IsConsistent options r)
Reach-IsConsistent options (released {n} {c} r s) =
    let v = Reach-IsConsistent options r in
    record {
      clamped = λ k h. absurd (ground (arith, s));
      notified = λ k. s;
      unread = λ k. refl;
      unshaken = λ k. refl;
      let_go = λ k. refl;
      detached_once = ground (arith, v.detached_once);
      shut_once = v.shut_once;
    }
Reach-IsConsistent options (closed {n} {c} now r) =
    let v = Reach-IsConsistent options r in
    begin_close-IsConsistent options now n c v.detached_once v.shut_once (inl v)

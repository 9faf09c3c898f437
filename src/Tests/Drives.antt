-- ===== src/Tests/Drives.antt =====
-- Writes and phases of a connection, run on concrete inputs.
use erikslund_http_embedded.Prelude.{ℕ, ◌≡◌, refl, List, [], ◌∷◌, arith, Bytes, codes, take, ◌<◌}
use erikslund_http_embedded.Connection.{
  transport_ok, want_write, TransportResult, all_written, pending_bytes, write_loop, write, batch,
  flatten, interested, stops,
}
use erikslund_http_embedded.Connection.Wire.{
  IsWritten, IsHonest, write_loop-IsWritten, write_loop-ends, Takes,
}
use erikslund_http_embedded.Connection.Phases.{
  Connection, ServerOptions, arm_deadline, budget_of, enter_state, headers_read, reading_body,
  reading_headers, release_stream_source, response_completed, response_ready, stream_blocked,
  stream_drained, stream_progressed, stream_starts, begin_close, connection,
}
use erikslund_http_embedded.Connection.Phases.Deadlines.{Reach, IsConsistent, Reach-IsConsistent}

drive_runs : Unit {0}
unfolding batch pending_bytes flatten stops write_loop arm_deadline budget_of enter_state
    release_stream_source begin_close connection headers_read response_ready stream_starts
    response_completed stream_blocked stream_progressed stream_drained
drive_runs = tt

abbrev two_vectors : List Bytes
two_vectors = codes "head" ∷ codes "body" ∷ []

abbrev took : ℕ → TransportResult
took n = record { status = transport_ok; bytes = n }

abbrev two_answers : List TransportResult
two_answers = took 5 ∷ took 3 ∷ []

two_answers-IsHonest : IsHonest two_answers 0 (pending_bytes two_vectors)
unfolding drive_runs
two_answers-IsHonest = (omega arith, (omega arith, tt))

nothing_sent : [] ≡ take 0 (flatten two_vectors)
nothing_sent = refl

write_loop_example :
    IsWritten two_vectors
      (write_loop two_answers two_vectors 0 []).0
      (write_loop two_answers two_vectors 0 []).1
      (write_loop two_answers two_vectors 0 []).2
write_loop_example =
    write_loop-IsWritten two_answers two_vectors 0 [] two_answers-IsHonest (omega arith)
      nothing_sent

abbrev eight_answers : List TransportResult
eight_answers = took 1 ∷ took 1 ∷ took 1 ∷ took 1 ∷ took 1 ∷ took 1 ∷ took 1 ∷ took 1 ∷ []

eight_bytes : pending_bytes two_vectors ≡ 8
unfolding drive_runs
eight_bytes = refl

eight_answers-Takes : Takes eight_answers
eight_answers-Takes =
    let one : (transport_ok ≡ transport_ok) × (0 < 1) = (refl, omega arith) in
    (one, (one, (one, (one, (one, (one, (one, (one, tt))))))))

write_loop_end_example : (write_loop eight_answers two_vectors 0 []).0 ≡ all_written
write_loop_end_example =
    write_loop-ends eight_answers two_vectors 0 [] eight_answers-Takes (omega (arith, eight_bytes))

drive_tests :
    (write_loop two_answers two_vectors 0 [] ≡ (all_written, 8, codes "headbody"))
    × (write_loop (took 5 ∷ record { status = want_write; bytes = 0 } ∷ []) two_vectors 0 []
        ≡ (interested write, 5, codes "headb"))
unfolding drive_runs
drive_tests = (refl, refl)

abbrev some_options : ServerOptions
some_options = record {
  handshake_timeout = 5;
  header_timeout = 10;
  body_timeout = 30;
  write_timeout = 30;
  keep_alive_idle = 60;
  request_deadline = 15;
  stream_idle_timeout = 300;
  max_requests_per_connection = 100;
}

-- A connection whose request came in slowly.
abbrev slow : Connection
slow = enter_state some_options 12 reading_body (
    headers_read some_options 2
      (enter_state some_options 1 reading_headers (connection some_options 0)))

slow-Reach : Reach some_options 0 slow
unfolding drive_runs
slow-Reach =
    Reach.body_awaited 12 (Reach.got_bytes 2 (Reach.shaken 1 (Reach.opened 0) refl) refl) refl

phases_example : IsConsistent 0 slow
phases_example = Reach-IsConsistent some_options slow-Reach

slow_test : slow.deadline ≡ 17
unfolding drive_runs
slow_test = refl

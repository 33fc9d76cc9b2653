-- ===== src/Status/Tests.antt =====
-- client/grpc/signal_client.go: a short run of the connection state, and a short stream.
use runetale.Common.{
  ℕ, ◌-◌, ◌≡◌, refl, ◌≢◌, true, false, Option, none, some, arith, ◌==◌, if◌then◌else◌, ok, err,
  Action,
}
use runetale.Status.Defs.{
  connect, status_string, ConnectState, new_connected_state, is_connected, get_conn_chan, connected,
}
use runetale.Status.Waiting.{
  entered, tested, blocked, System, goto, Step, finds_disconnected, takes_channel, initial, Reach,
  start, later,
}
use runetale.Status.Stream.{
  RecvError, eof, io_eof, Negotiation, after_handler, after_recv, recv_loop, close_deferred,
  after_connected, after_open, connect_stream,
}
use runetale.Status.Soundness.{connected-wakes, missed_wake_up}
use runetale.Status.Ends.{Drains}

abbrev after_test : System
after_test = record { cs = new_connected_state; pc = goto (λ i. entered) 0 tested }

abbrev after_take : System
after_take = record {
  cs = (get_conn_chan new_connected_state).1;
  pc = goto after_test.pc 0 (blocked (get_conn_chan new_connected_state).0);
}

not_yet : is_connected new_connected_state ≡ false
unfolding is_connected status_string new_connected_state
not_yet = refl

test_reached : Reach after_test
test_reached = later after_test (start initial refl) (finds_disconnected 0 refl not_yet refl)

take_reached : Reach after_take
take_reached = later after_take test_reached (takes_channel 0 refl refl)

connected-wakes_example :
    ((connected after_take.cs).0 ≡ ok tt)
    × ((i ch : ℕ) → after_take.pc i ≡ blocked ch → (connected after_take.cs).1.closed ch ≡ true)
connected-wakes_example = connected-wakes take_reached

missed_wake_up_example :
    (s' : System) × (t : System) × Step after_test s'
    × Step s' t
    × (s'.cs ≡ (connected after_test.cs).1)
    × (is_connected t.cs ≡ true)
    × ((ch : ℕ) × (t.pc 0 ≡ blocked ch) × (t.cs.closed ch ≡ false))
    × ((j : ℕ) → 0 ≢ j → t.pc j ≡ after_test.pc j)
missed_wake_up_example = missed_wake_up 0 test_reached refl

-- A stream with one message and then its end.
abbrev one_message : Negotiation ℕ ℕ
one_message = record {
  open_stream = λ w. (none, w);
  recv = λ w. if w == 0 then ((some 7, none), 1) else ((none, some eof), 2);
  close_send = λ w. (none, w);
}

abbrev accept : Option ℕ → Action (ConnectState × ℕ) (Unit {0})
accept m s = (ok tt, s)

one_message_nil :
    (w : ℕ) (e : RecvError) → (one_message.recv w).0.1 ≡ some e → (one_message.recv w).0.0 ≡ none
one_message_nil w e h = ground (arith, h)

abbrev up : ConnectState
up = record { state = connect; conn = none; made = 0; closed = λ ch. false }

one_message_run : connect_stream one_message accept 5 (up, 0) ≡ some (err io_eof, (up, 2))
unfolding connect_stream after_open after_connected connected recv_loop after_recv after_handler
    close_deferred
one_message_run = refl

abbrev one_left : ℕ → ℕ
one_left w = 1 - w

one_left-Drains : Drains one_message accept one_left
one_left-Drains = record {
  recv_lowers = λ w e. ground (arith, e);
  handler_keeps = λ m cs w. omega arith;
}

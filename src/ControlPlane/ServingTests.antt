-- ===== src/ControlPlane/ServingTests.antt =====
-- rcn/controlplane/control_plane.go: a signal server whose streams end at once.
use runetale.Common.{
  ℕ, ◌+◌, ◌-◌, ◌*◌, ◌/◌, ◌≡◌, refl, true, false, none, some, [], arith, leb, ◌==◌, external, ok,
  err, value,
}
use runetale.Common.Int.{pos}
use runetale.Status.Defs.{new_connected_state, connected}
use runetale.Status.Stream.{
  eof, Negotiation, after_recv, recv_loop, close_deferred, after_connected, after_open,
  connect_stream,
}
use runetale.Status.Ends.{Drains, connect_stream-Returns}
use runetale.Backoff.Exponential.{
  Float64, Sources, get_elapsed_time, exponential_next_back_off, exponential_reset,
  exponential_back_off,
}
use runetale.Backoff.Tries.{Counts}
use runetale.ControlPlane.Peer.{IceMethods}
use runetale.ControlPlane.Defs.{other, NegotiationRequest, Libraries}
use runetale.ControlPlane.Serving.{
  handle_message, hub_negotiation, Served, as_attempt, serve_operation, serve_surroundings,
  serve_signals,
}
use runetale.ControlPlane.Served.{Closes, serve_signals-Closes}

abbrev pub quiet_libraries : Libraries ℕ ℕ ℕ
quiet_libraries = record {
  parse_key = λ t. value [];
  key_string = λ k. "key";
  parse_url = λ t. value 0;
  unmarshal_candidate = λ t. value 1;
  get_stun_turn_config = λ w. (err (external 2), w);
  is_ready = λ w. true;
  receives = λ sent. true;
}

abbrev pub no_session : IceMethods ℕ ℕ ℕ
no_session = record {
  setup = λ i w. (ok tt, w);
  start_gathering_process = λ i w. (ok tt, w);
  cleanup = λ i w. (ok tt, w);
  send_remote_answer_ch = λ i k u p w. (ok tt, w);
  send_remote_offer_ch = λ i k u p w. (ok tt, w);
  send_remote_candidate = λ i c w. (ok tt, w);
}

-- The world counts the streams that were opened.
abbrev pub short_streams : Negotiation NegotiationRequest ℕ
short_streams = record {
  open_stream = λ w. (none, w + 1);
  recv = λ w. ((none, some eof), w);
  close_send = λ w. (none, w);
}

abbrev pub nobody : NegotiationRequest
nobody = record { dst_node_key = ""; msg_type = other; u_flag = ""; pwd = ""; candidate_text = "" }

abbrev pub NodeState : Type 0
NodeState = Served quiet_libraries no_session short_streams nobody

abbrev pub naturals : Float64
naturals = record {
  F = ℕ;
  of_duration = λ d. 0;
  to_duration = pos;
  literal = λ a b. a;
  add = λ x y. x + y;
  sub = λ x y. x - y;
  mul = λ x y. x * y;
  div = λ x y. x / y;
  ge = λ x y. leb y x;
  is_zero = λ x. x == 0;
}

abbrev pub frozen : Sources naturals NodeState
frozen = record { now = λ s. (pos 0, s); random = λ s. (0, s) }

abbrev pub opened : NodeState → ℕ
opened s = s.1.1.1

pub drains-short_streams :
    Drains
      (hub_negotiation quiet_libraries no_session short_streams)
      (handle_message quiet_libraries no_session nobody)
      (λ s. 0)
drains-short_streams = record {
  recv_lowers = λ s e. absurd (ground arith);
  handler_keeps = λ m cs s. omega arith;
}

one_stream :
    (s : NodeState)
    → opened (serve_operation quiet_libraries no_session short_streams nobody 1 s).1 ≡ opened s + 1
unfolding serve_operation as_attempt connect_stream after_open after_connected recv_loop after_recv
    close_deferred connected
one_stream (cs, (b, (c, w))) = ground arith

pub opened-Counts :
    Counts
      (serve_surroundings quiet_libraries no_session short_streams nobody naturals frozen
        (λ d w. w)
        (λ w. w)
        1)
      (exponential_back_off naturals frozen)
      opened
unfolding exponential_next_back_off exponential_reset get_elapsed_time
opened-Counts = record {
  operation_once = one_stream;
  next_quiet = λ b s. refl;
  reset_quiet = λ b s. refl;
  notify_quiet = λ e d s. refl;
  start_quiet = λ d s. refl;
  stop_quiet = λ s. refl;
  fired_quiet = λ s. refl;
}

abbrev pub at_start : NodeState
at_start = (
  new_connected_state,
  (false, (record { peer_conns = []; stconf = none; handed = []; doomed = false }, 0)),
)

serve_signals-Closes_example :
    Closes quiet_libraries no_session short_streams nobody 1
      (λ w e h. refl)
      (connect_stream-Returns
        (hub_negotiation quiet_libraries no_session short_streams)
        (handle_message quiet_libraries no_session nobody)
        (λ s. 0)
        drains-short_streams)
      naturals
      frozen
      (λ d w. w)
      (λ w. w)
      (serve_signals quiet_libraries no_session short_streams nobody naturals frozen
        (λ d w. w)
        (λ w. w)
        1
        4
        at_start)
serve_signals-Closes_example =
    serve_signals-Closes quiet_libraries no_session short_streams nobody 1 (λ w e h. refl)
      (connect_stream-Returns (hub_negotiation quiet_libraries no_session short_streams)
        (handle_message quiet_libraries no_session nobody) (λ s. 0) drains-short_streams)
      naturals frozen (λ d w. w) (λ w. w) opened opened-Counts at_start

-- ===== src/ControlPlane/ClashTests.antt =====
-- rcn/controlplane/control_plane.go: a signal server whose streams end, and a server that fails.
use runetale.Common.{
  ℕ, ◌≡◌, refl, true, false, none, some, [], external, ok, panic, Fallible, error,
}
use runetale.Common.Int.{pos, negsuc, ◌+ℤ◌, ◌-ℤ◌, wrap64}
use runetale.Backoff.Exponential.{
  Sources, over_limit, increment_current_interval, get_random_value_from_interval, get_elapsed_time,
  exponential_next_back_off, exponential_reset, exponential_back_off, apply_opts,
  new_exponential_back_off,
}
use runetale.ControlPlane.Defs.{PeerSpec, ControlPlane}
use runetale.ControlPlane.Offer.{
  SyncNodesResponse, came_back, offer_response, offer_operation, initial_offer_to_remote_peer,
}
use runetale.ControlPlane.Serving.{
  close_ch, handle_message, hub_negotiation, as_attempt, serve_operation, after_retry,
  serve_signals, offer_when_started,
}
use runetale.ControlPlane.ServingTests.{
  quiet_libraries, no_session, short_streams, nobody, NodeState, naturals, frozen, opened,
  drains-short_streams, opened-Counts, at_start,
}
use runetale.Backoff.Retry.{
  as_permanent, after_wait, after_next, after_failure, after_operation, retry_loop, stop_deferred,
  do_retry_notify,
}
use runetale.Backoff.Policy.{tries_next_back_off, tries_reset, back_off_tries, with_max_retries}
use runetale.Status.Defs.{connect, new_connected_state, connected}
use runetale.Status.Stream.{
  log_and_return, after_handler, after_recv, recv_loop, close_deferred, after_connected, after_open,
  connect_stream,
}
use runetale.ControlPlane.Clashed.{connect_signal_server-Clashes}
use runetale.Status.Ends.{connect_stream-Returns}

abbrev own_spec : PeerSpec
own_spec = record { wg_private_key = "k"; pre_shared_key = ""; tun_name = "rt0"; black_list = [] }

-- The world has counted four streams; the server refuses every request.
abbrev refused : ℕ → Fallible SyncNodesResponse × ℕ
refused w = (error (external 7), w)

abbrev still : Sources naturals (ControlPlane ℕ × ℕ)
still = record { now = λ s. (pos 0, s); random = λ s. (0, s) }

abbrev ended : NodeState
ended = (
  record { state = connect; conn = none; made = 0; closed = λ ch. false },
  (true, (record { peer_conns = []; stconf = none; handed = []; doomed = false }, 4)),
)

goroutine_returns :
    serve_signals quiet_libraries no_session short_streams nobody naturals frozen
      (λ d w. w)
      (λ w. w)
      1
      4
      at_start
    ≡ some (ok tt, ended)
unfolding serve_signals do_retry_notify retry_loop stop_deferred after_operation after_failure
    after_next after_wait as_permanent tries_reset exponential_reset new_exponential_back_off
    tries_next_back_off with_max_retries exponential_next_back_off over_limit wrap64 ◌+ℤ◌ apply_opts
    get_elapsed_time get_random_value_from_interval increment_current_interval ◌-ℤ◌ serve_operation
    as_attempt connect_stream after_retry after_open after_connected connected new_connected_state
    close_deferred recv_loop after_recv close_ch handle_message log_and_return after_handler
goroutine_returns = refl

abbrev last_policy : (back_off_tries (exponential_back_off naturals still)).State
last_policy = record {
  delegate = record {
    initial_interval = pos 500000000;
    randomization_factor = 1;
    multiplier = 3;
    max_interval = pos 60000000000;
    max_elapsed_time = pos 900000000000;
    stop_value = negsuc 0;
    current_interval = pos 60000000000;
    start_time = pos 0;
  };
  max_tries = 3;
  num_tries = 3;
}

offer_fails :
    initial_offer_to_remote_peer quiet_libraries no_session own_spec "self" refused naturals still
      (λ d w. w)
      (λ w. w)
      4
      (record { peer_conns = []; stconf = none; handed = []; doomed = false }, 4)
    ≡ some (
      (came_back, some (external 7)),
      last_policy,
      (record { peer_conns = []; stconf = none; handed = []; doomed = false }, 4),
    )
unfolding initial_offer_to_remote_peer offer_operation offer_response do_retry_notify retry_loop
    stop_deferred after_operation after_failure after_next after_wait as_permanent tries_reset
    exponential_reset new_exponential_back_off tries_next_back_off with_max_retries
    exponential_next_back_off over_limit wrap64 ◌+ℤ◌ apply_opts get_elapsed_time
    get_random_value_from_interval increment_current_interval ◌-ℤ◌
offer_fails = refl

connect_signal_server-Clashes_example :
    offer_when_started quiet_libraries no_session own_spec "self" refused naturals still
      (λ d w. w)
      (λ w. w)
      4
      (true, (record { peer_conns = []; stconf = none; handed = []; doomed = false }, 4))
    ≡ some
        (panic, (true, (record { peer_conns = []; stconf = none; handed = []; doomed = false }, 4)))
connect_signal_server-Clashes_example =
    connect_signal_server-Clashes quiet_libraries no_session own_spec "self" refused naturals still
      (λ d w. w) (λ w. w) short_streams nobody 1 (λ w e h. refl)
      (connect_stream-Returns (hub_negotiation quiet_libraries no_session short_streams)
        (handle_message quiet_libraries no_session nobody) (λ s. 0) drains-short_streams)
      frozen opened opened-Counts at_start
      (record { state = connect; conn = none; made = 0; closed = λ ch. false }) true
      (record { peer_conns = []; stconf = none; handed = []; doomed = false }, 4) 4 came_back
      (external 7) last_policy
      (record { peer_conns = []; stconf = none; handed = []; doomed = false }, 4) goroutine_returns
      offer_fails

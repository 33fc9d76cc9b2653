-- ===== src/Session/Tests.antt =====
-- rcn/webrtc/ice.go: a session over calls that all succeed.
use runetale.Common.{
  ℕ, ◌+◌, ◌-◌, String, ◌≡◌, refl, ◌∙◌, ◌≢◌, ◌⊎◌, true, false, Option, none, some, List, [], ◌∷◌,
  ◌++◌, arith, eq_iff, ◌==◌, if◌then◌else◌, contains, lookup, Error, message, Outcome, ok, err,
  panic, Fallible, value, error, bound,
}
use runetale.Status.Defs.{dis_connect, ConnectState}
use runetale.ControlPlane.Peer.{Node, Url, Ice, wg_port_number}
use runetale.ControlPlane.Defs.{Libraries, ControlPlane}
use runetale.Session.Defs.{Kinds, Session, IceCalls, State, new_session}
use runetale.Session.Setup.{
  kept, setup_sockets, setup_agent, setup_proxy, setup, close_held, close_socket_of,
  close_ice_agent, put_conn, close_conn_of, close_session_conn, cleanup,
}
use runetale.Session.Signal.{
  sig_answer, signal_answer, put_started, start_session_conn, Received, by_offer, taken,
  gather_round, waiting_remote_peer_connections,
}
use runetale.ControlPlane.Sync.{remote_keys, sync_remote_peer_config}
use runetale.ControlPlane.Kept.{NoNil}
use runetale.Session.Synced.{AllHeld, sync_remote_peer_config-AllHeld}
use runetale.Session.Prepared.{IsPrepared, setup-IsPrepared}
use runetale.Session.Cleared.{IsHeld, ClosesCalmly}
use runetale.Session.Gathering.{Resumed, waiting_remote_peer_connections-Resumed}
use runetale.Proxy.Defs.{
  ProxyLibraries, WireProxy, new_wire_proxy, setup_conns, configure_no_proxy, configure_wire_proxy,
  stop_proxy, start_mon, configure_for, start_proxy,
}
use runetale.Proxy.Conn.{
  Conn, new_conn, dials, start_on, after_reach, after_stop, close_with, close_conn, reach_peer,
  start_conn,
}
use runetale.Session.Defs.{State}
use runetale.Session.Looped.{ask, sync_remote_nodes-AllHeld}
use runetale.ControlPlane.Loop.{sync_remote_nodes, Drains}
use runetale.ControlPlane.Offer.{SyncNodesResponse}
use runetale.Session.Methods.{Store, ice_methods}
use runetale.Proxy.Address.{v4, is_public_ip, host, is_host, should_use_proxy}
use runetale.Proxy.Defs.{
  ProxyLibraries, new_wire_proxy, setup_conns, configure_no_proxy, configure_wire_proxy, stop_proxy,
  start_mon, configure_for, start_proxy,
}
use runetale.Proxy.Conn.{new_conn, dials, start_on, after_reach, close_conn, reach_peer, start_conn}

abbrev numbers : Kinds
numbers = record { Agent = ℕ; Mux = ℕ; Socket = ℕ; U = ℕ; C = ℕ; L = ℕ; R = ℕ; W = ℕ }

abbrev proxy_libraries : ProxyLibraries ℕ ℕ ℕ
proxy_libraries = record {
  parse_ip = λ a. v4 10 0 0 2;
  dial = λ a w. (ok 1, w);
  remote_addr = λ r. "10.0.0.3:4000";
  local_network = λ l. "udp";
  local_addr = λ l. "127.0.0.1:4001";
  resolve_udp_addr = λ n a. value (record { ip = "10.0.0.3"; port = 4000 });
  get_selected_candidate_pair = λ w. (
    ok (
        some (record {
          local = record { address = "10.0.0.2"; type = host };
          remote = record { address = "10.0.0.3"; type = host };
        })),
    w,
  );
  configure_remote_node_peer = λ k i a t s w. (ok tt, w + 1);
  remove_remote_peer = λ t i k w. (ok tt, w);
}

abbrev calls : IceCalls numbers
calls = record {
  listen_udp = λ w. (ok w, w + 1);
  new_mux = λ k w. (ok w, w + 1);
  new_mux_srflx = λ k w. (ok w, w + 1);
  new_agent = λ urls f m n w. (ok 7, w + 1);
  on_candidate = λ a s w. (ok tt, w);
  on_connection_state_change = λ a w. (ok tt, w);
  on_selected_candidate_pair_change = λ a w. (ok tt, w);
  close_mux = λ m w. (ok tt, w);
  close_socket = λ k w. (ok tt, w);
  close_agent = λ a w. (ok tt, w);
  get_local_user_credentials = λ a w. (ok ("user", "pwd"), w);
  gather_candidates = λ a w. (ok tt, w);
  add_remote_candidate = λ a c w. (err (message "not yet"), w);
  agent_calls = λ a. record { dial = λ u p w. (ok 9, w); accept = λ u p w. (ok 8, w) };
  proxy_libraries = proxy_libraries;
  send_candidate = λ d s c w. (ok tt, w);
  send_offer = λ d s u p w. (ok tt, w);
  send_answer = λ d s u p w. (ok tt, w);
  server_connect = λ k w. (ok tt, w);
  wg_pub_key = λ k. "mine";
  decimal = λ n. "51820";
}

abbrev url : Url ℕ
url = record { parsed = 0; username = "u"; password = "p" }

abbrev peer : Ice ℕ
peer = record {
  remote_wg_pub_key = "theirs";
  remote_ip = "10.1.0.2/32";
  remote_node_key = "b";
  ip = "10.1.0.1";
  cidr = "24";
  wg_priv_key = [];
  wg_port = wg_port_number;
  wg_iface = "rt0";
  pre_shared_key = "";
  nk = "a";
  stun_turn = some (record { stun = url; turn = url });
  black_list = "rt0" ∷ [];
}

abbrev waiting_status : ConnectState
waiting_status = record { state = dis_connect; conn = some 0; made = 1; closed = λ ch. false }

setup_run : (setup calls peer (new_session numbers, waiting_status, 0)).0 ≡ ok tt
unfolding setup setup_sockets kept setup_agent
setup_run = refl

setup-IsPrepared_example :
    IsPrepared calls peer (setup calls peer (new_session numbers, waiting_status, 0)).1.0
setup-IsPrepared_example =
    setup-IsPrepared calls peer (new_session numbers) waiting_status 0 setup_run

abbrev ready : Session numbers
ready = record {
  sigexec = some (record { dstmk = "b"; srcmk = "a" });
  agent = some 7;
  udp_mux = some 2;
  udp_mux_srflx = some 3;
  udp_mux_conn = some 0;
  udp_mux_conn_srflx = some 1;
  wireproxy = some (setup_proxy calls peer);
  conn = none;
  waiting = true;
  offered = [];
  answered = [];
}

ready-IsPrepared : IsPrepared calls peer ready
unfolding setup_proxy new_wire_proxy
ready-IsPrepared = record {
  has_agent = (7, refl);
  has_mux = (2, refl);
  has_mux_srflx = (3, refl);
  has_sigexec = refl;
  has_proxy = refl;
}

abbrev arrived : Received calls peer
arrived = by_offer (record { user_name = "them"; pwd = "secret" })

gathering_run :
    (waiting_remote_peer_connections calls peer ([] ++ arrived ∷ []) (ready, waiting_status, 0)).0
    ≡ ok tt
unfolding waiting_remote_peer_connections gather_round taken signal_answer sig_answer
    start_session_conn put_started new_conn start_conn after_reach start_on reach_peer dials
    setup_proxy new_wire_proxy start_proxy setup_conns configure_for configure_no_proxy
    configure_wire_proxy start_mon should_use_proxy is_public_ip is_host
gathering_run = refl

waiting_remote_peer_connections-Resumed_example :
    Resumed calls peer
      (record { user_name = "them"; pwd = "secret" })
      tt
      (waiting_remote_peer_connections calls peer (arrived ∷ []) (ready, waiting_status, 0)).1
waiting_remote_peer_connections-Resumed_example =
    waiting_remote_peer_connections-Resumed calls peer [] arrived (ready, waiting_status, 0)
      gathering_run

abbrev libraries : Libraries ℕ ℕ (Store numbers)
libraries = record {
  parse_key = λ s. value [];
  key_string = λ k. "key";
  parse_url = λ s. value 0;
  unmarshal_candidate = λ s. value 1;
  get_stun_turn_config = λ w. (err (message "down"), w);
  is_ready = λ w. true;
  receives = λ sent. true;
}

abbrev two_sessions : ControlPlane ℕ
two_sessions = record {
  peer_conns = ("b", some peer) ∷ ("d", some (record peer { remote_node_key = "d" })) ∷ [];
  stconf = none;
  handed = [];
  doomed = false;
}

two_sessions-NoNil : NoNil libraries (ice_methods calls) two_sessions.peer_conns
unfolding lookup
two_sessions-NoNil k e = ground arith

all_calm : (i : Ice ℕ) → ClosesCalmly calls i
all_calm i = record { calm_mux = λ m w e. cc; calm_socket = λ k w e. cc; calm_agent = λ a w e. cc }

ready-IsHeld : (i : Ice ℕ) → IsHeld calls i ready
ready-IsHeld i = record {
  holds_agent = (7, refl);
  holds_mux = (2, refl);
  holds_mux_srflx = (3, refl);
}

removed_calmly :
    (tun ip key : String) (w : ℕ)
    → (calls.proxy_libraries.remove_remote_peer tun ip key w).0 ≢ panic
removed_calmly tun ip key w = λ e. cc

two_sessions-AllHeld :
    AllHeld calls libraries all_calm removed_calmly
      (λ k. ready)
      two_sessions.peer_conns
      ((λ k. ready), waiting_status, 0)
unfolding lookup
two_sessions-AllHeld k i e = record {
  own_key = ground (arith, e, eq_iff "b" k, eq_iff "d" k);
  held = ready-IsHeld i;
  as_before = refl;
}

abbrev only_b : List Node
only_b = record { remote_node_key = "b"; remote_wg_pub_key = "theirs"; allowed_ips = [] } ∷ []

sync_remote_peer_config-AllHeld_example :
    (c' : ControlPlane ℕ) × (store : String → Session numbers) × (cs' : ConnectState) × (w' : ℕ)
    × (sync_remote_peer_config libraries
          (ice_methods calls)
          only_b
          (two_sessions, ((λ k. ready), waiting_status, 0))
        ≡ (ok tt, (c', (store, cs', w'))))
    × ((j : String)
        → lookup j c'.peer_conns ≡ (
            if contains (remote_keys libraries (ice_methods calls) only_b) j
            then lookup j two_sessions.peer_conns
            else none))
    × AllHeld calls libraries all_calm removed_calmly (λ k. ready) c'.peer_conns (store, cs', w')
sync_remote_peer_config-AllHeld_example =
    sync_remote_peer_config-AllHeld calls libraries all_calm removed_calmly (λ k. ready) only_b
      two_sessions waiting_status 0 two_sessions-NoNil two_sessions-AllHeld

-- A server that answers once and then fails.
abbrev answers_once : ℕ → Fallible SyncNodesResponse × ℕ
answers_once w =
    if w == 0
    then (value (record { remote_nodes = some only_b; ip = ""; cidr = "" }), 1)
    else (error (message "down"), w)

abbrev answers_left : Store numbers → ℕ
answers_left (store, cs, w) = 1 - w

stop_same : (p : WireProxy ℕ ℕ) (w : ℕ) → (stop_proxy proxy_libraries (p, w)).1.1 ≡ w
unfolding stop_proxy
stop_same p w = ground arith

after_stop_same :
    (c : Conn ℕ ℕ) (r : Outcome (Unit {0}) × (WireProxy ℕ ℕ × ℕ))
    → (after_stop proxy_libraries c r).1.1 ≡ r.1.1
unfolding after_stop
after_stop_same c (ok _, (p, w)) = refl
after_stop_same c (err e, (p, w)) = refl
after_stop_same c (panic, (p, w)) = refl

close_with_same :
    (c : Conn ℕ ℕ) (o : Option (WireProxy ℕ ℕ)) (w : ℕ) → (close_with proxy_libraries c o w).1.1 ≡ w
unfolding close_with
close_with_same c none w = refl
close_with_same c (some p) w = after_stop_same c (stop_proxy proxy_libraries (p, w)) ∙ stop_same p w

close_conn_same :
    (o : Option (Conn ℕ ℕ)) (i : Ice ℕ) (s : Session numbers) (cs : ConnectState) (w : ℕ)
    → (close_conn_of calls i o (s, cs, w)).1.2 ≡ w
unfolding close_conn_of put_conn close_conn
close_conn_same none i s cs w = refl
close_conn_same (some c) i s cs w = close_with_same c c.wireproxy w

close_agent_same :
    (i : Ice ℕ) (s : Session numbers) (cs : ConnectState) (w : ℕ)
    → (close_ice_agent calls i (s, cs, w)).1.2 ≡ w
unfolding close_ice_agent close_held close_socket_of
close_agent_same i s cs w = ground arith

agent_after :
    (i : Ice ℕ) (r : Outcome (Unit {0}) × State numbers)
    → (bound (λ u. close_ice_agent calls i) r).1.2 ≡ r.1.2
agent_after i (ok u, (s, cs, w)) = close_agent_same i s cs w
agent_after i (err e, st) = refl
agent_after i (panic, st) = refl

cleanup_same :
    (i : Ice ℕ) (s : Session numbers) (cs : ConnectState) (w : ℕ)
    → (cleanup calls i (s, cs, w)).1.2 ≡ w
unfolding cleanup close_session_conn
cleanup_same i s cs w =
    agent_after i (close_conn_of calls i s.conn (s, cs, w)) ∙ close_conn_same s.conn i s cs w

answers_once-Drains : Drains libraries (ice_methods calls) (ask answers_once) answers_left
answers_once-Drains = record {
  answer_lowers = λ (store, cs, w) res e. ground (arith, e);
  cleanup_keeps = λ i (store, cs, w). omega (arith, cleanup_same i (store i.remote_node_key) cs w);
}

sync_remote_nodes-AllHeld_example :
    (e : Error) × (c' : ControlPlane ℕ) × (s' : Store numbers) × (sync_remote_nodes libraries
        (ice_methods calls)
        (ask answers_once)
        2
        (two_sessions, ((λ k. ready), waiting_status, 0))
      ≡ some (err e, (c', s')))
    × ((x : Store numbers) × (ask answers_once x ≡ (error e, s')))
    × AllHeld calls libraries all_calm removed_calmly (λ k. ready) c'.peer_conns s'
    × ((j : String)
        → (lookup j c'.peer_conns ≡ lookup j two_sessions.peer_conns)
          ⊎ (lookup j c'.peer_conns ≡ none))
sync_remote_nodes-AllHeld_example =
    sync_remote_nodes-AllHeld calls libraries all_calm removed_calmly (λ k. ready) answers_once
      answers_left answers_once-Drains 2 two_sessions waiting_status 0 two_sessions-NoNil
      two_sessions-AllHeld (omega arith)

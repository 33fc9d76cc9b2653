-- ===== src/Session/Defs.antt =====
-- rcn/webrtc/ice.go, stun_turn.go and sig_executer.go: the state of a session. The ICE agent, its
-- sockets and the clients are parameters.
use runetale.Common.{ℕ, String, Bool, false, Option, none, some, List, [], ok, Action, pure, crash}
use runetale.Status.Defs.{ConnectState}
use runetale.ControlPlane.Peer.{Url}
use runetale.Proxy.Defs.{ProxyLibraries, WireProxy}
use runetale.Proxy.Conn.{AgentCalls, Conn}

-- The types of the ICE agent, of a UDP multiplexer and of a UDP socket, and those of URLs,
-- candidates, local and remote connections and the world.
pub record Kinds : Type 1 where
  pub Agent : Type 0
  pub Mux : Type 0
  pub Socket : Type 0
  pub U : Type 0
  pub C : Type 0
  pub L : Type 0
  pub R : Type 0
  pub W : Type 0

-- SigExecuter, with the keys of the peer and of the node itself.
pub record SigExecuter : Type 0 where
  pub dstmk : String
  pub srcmk : String

-- Credentials (rcn/webrtc/credential.go).
pub record Credentials : Type 0 where
  pub user_name : String
  pub pwd : String

-- The part of an Ice that changes; a field is nil until Setup or startConn sets it. `waiting` says
-- whether a goroutine stands at the `select` of waitingRemotePeerConnections, and `offered` and
-- `answered` are the credentials that it has been handed there, the last one first.
pub record Session (t : Kinds) : Type 0 where
  pub sigexec : Option SigExecuter
  pub agent : Option t.Agent
  pub udp_mux : Option t.Mux
  pub udp_mux_srflx : Option t.Mux
  pub udp_mux_conn : Option t.Socket
  pub udp_mux_conn_srflx : Option t.Socket
  pub wireproxy : Option (WireProxy t.L t.R)
  pub conn : Option (Conn t.L t.R)
  pub waiting : Bool
  pub offered : List Credentials
  pub answered : List Credentials

-- The calls of pion/ice, of net and of the two clients.
pub record IceCalls (t : Kinds) : Type 0 where
  pub listen_udp : Action t.W t.Socket
  pub new_mux : Option t.Socket → Action t.W t.Mux
  pub new_mux_srflx : Option t.Socket → Action t.W t.Mux
  pub new_agent : List (Url t.U) → (String → Bool) → t.Mux → t.Mux → Action t.W t.Agent
  pub on_candidate : t.Agent → SigExecuter → Action t.W (Unit {0})
  pub on_connection_state_change : t.Agent → Action t.W (Unit {0})
  pub on_selected_candidate_pair_change : t.Agent → Action t.W (Unit {0})
  pub close_mux : t.Mux → Action t.W (Unit {0})
  pub close_socket : Option t.Socket → Action t.W (Unit {0})
  pub close_agent : t.Agent → Action t.W (Unit {0})
  pub get_local_user_credentials : t.Agent → Action t.W (String × String)
  pub gather_candidates : t.Agent → Action t.W (Unit {0})
  pub add_remote_candidate : t.Agent → t.C → Action t.W (Unit {0})
  pub agent_calls : t.Agent → AgentCalls t.R t.W
  pub proxy_libraries : ProxyLibraries t.L t.R t.W
  pub send_candidate : String → String → t.C → Action t.W (Unit {0})
  pub send_offer : String → String → String → String → Action t.W (Unit {0})
  pub send_answer : String → String → String → String → Action t.W (Unit {0})
  pub server_connect : String → Action t.W (Unit {0})
  pub wg_pub_key : List ℕ → String
  pub decimal : ℕ → String

-- What a method of a session can change: the session, the signal client's status, and the world.
abbrev pub State : Kinds → Type 0
State t = Session t × ConnectState × t.W

module _ {t : Kinds} where
  abbrev pub outside : {A : Type 0} → Action t.W A → Action (State t) A
  outside m (s, cs, w) = let (r, w') = m w in (r, (s, cs, w'))

  -- The value of a pointer, which is used and so must not be nil.
  abbrev pub deref : {A : Type 0} → Option A → Action (State t) A
  deref none = crash
  deref (some a) = pure a

  abbrev pub update : (Session t → Session t) → Action (State t) (Unit {0})
  update f (s, cs, w) = (ok tt, (f s, cs, w))

  abbrev pub read : {A : Type 0} → (Session t → A) → Action (State t) A
  read f (s, cs, w) = (ok (f s), (s, cs, w))

-- The new fields of NewIce.
unfoldable pub new_session : (t : Kinds) → Session t
new_session t = record {
  sigexec = none;
  agent = none;
  udp_mux = none;
  udp_mux_srflx = none;
  udp_mux_conn = none;
  udp_mux_conn_srflx = none;
  wireproxy = none;
  conn = none;
  waiting = false;
  offered = [];
  answered = [];
}

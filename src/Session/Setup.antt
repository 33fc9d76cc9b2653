-- ===== src/Session/Setup.antt =====
-- rcn/webrtc/ice.go: Setup, and the ways to close a session.
use runetale.Common.{
  String, Bool, true, false, Option, none, some, List, [], ◌∷◌, ◌==◌, if◌then◌else◌, length, Dict,
  lookup, insert, Outcome, ok, err, panic, Action, pure, ◌>>=◌, ◌>>◌, concat,
}
use runetale.Status.Defs.{ConnectState, dis_connected}
use runetale.ControlPlane.Peer.{Url, StunTurnConfig, Ice}
use runetale.Proxy.Defs.{WireProxy, new_wire_proxy}
use runetale.Proxy.Conn.{Conn, close_conn}
use runetale.Session.Defs.{
  Kinds, SigExecuter, Session, IceCalls, State, outside, deref, update, read,
}

-- `GetStunTurnsURL`; a nil configuration panics.
unfoldable pub get_stun_turns_url : {U : Type 0} → StunTurnConfig U → List (Url U)
get_stun_turns_url s = s.stun ∷ s.turn ∷ []

-- The map of `getBlackListWithInterfaceFilter`, in which a key stands once.
unfoldable pub black_list_map : List String → Dict (Unit {0}) → Dict (Unit {0})
black_list_map [] d = d
black_list_map (s ∷ l) d = black_list_map l (insert s tt d)

unfoldable pub get_black_list_with_interface_filter : List String → String → Bool
unfolding black_list_map
get_black_list_with_interface_filter l i_face =
    let d = black_list_map l [] in
    if length d == 0 then true else elim (lookup i_face d) [ none ↦ true | some x ↦ false ]

unfoldable pub new_sig_executer : String → String → SigExecuter
new_sig_executer dstmk srcmk = record { dstmk = dstmk; srcmk = srcmk }

-- The connection of a call whose error is overwritten by the next one: nil where it failed.
unfoldable pub kept : {A W : Type 0} → Outcome A × W → Outcome (Option A) × W
kept (ok a, w) = (ok (some a), w)
kept (err e, w) = (ok none, w)
kept (panic, w) = (panic, w)

module _ {t : Kinds} (calls : IceCalls t) (i : Ice t.U) where
  -- The two sockets and their multiplexers.
  unfoldable pub setup_sockets : Action (State t) (t.Mux × t.Mux)
  unfolding kept
  setup_sockets = do
    c ← outside (λ w. kept (calls.listen_udp w))
    update λ s. record s { udp_mux_conn = c }
    d ← outside (λ w. kept (calls.listen_udp w))
    update λ s. record s { udp_mux_conn_srflx = d }
    m ← outside (calls.new_mux c)
    update λ s. record s { udp_mux = some m }
    n ← outside (calls.new_mux_srflx d)
    update λ s. record s { udp_mux_srflx = some n }
    pure (m, n)

  -- The agent and its three callbacks; a failed NewAgent leaves it nil.
  unfoldable pub setup_agent : SigExecuter → t.Mux × t.Mux → Action (State t) (Unit {0})
  setup_agent sig (m, n) = do
    conf ← deref i.stun_turn
    update λ s. record s { agent = none }
    a ← outside (
        calls.new_agent (get_stun_turns_url conf)
          (get_black_list_with_interface_filter i.black_list) m n)
    update λ s. record s { agent = some a }
    outside (calls.on_candidate a sig)
    outside (calls.on_connection_state_change a)
    outside (calls.on_selected_candidate_pair_change a)

  unfoldable pub setup_proxy : WireProxy t.L t.R
  setup_proxy =
      new_wire_proxy calls.proxy_libraries i.remote_wg_pub_key i.remote_ip i.wg_iface
        (concat "127.0.0.1:" (calls.decimal i.wg_port)) i.pre_shared_key

  -- `Setup`
  unfoldable pub setup : Action (State t) (Unit {0})
  setup = do
    update λ s. record s { sigexec = some (new_sig_executer i.remote_node_key i.nk) }
    muxes ← setup_sockets
    setup_agent (new_sig_executer i.remote_node_key i.nk) muxes
    update λ s. record s { wireproxy = some setup_proxy }

  -- Closing what a pointer holds, which panics where it is nil.
  unfoldable pub close_held :
      {A : Type 0}
      → (Session t → Option A)
      → (A → Action t.W (Unit {0}))
      → Action (State t) (Unit {0})
  close_held field close = do held ← read field; a ← deref held; outside (close a)

  -- Closing a socket, which may be nil.
  unfoldable pub close_socket_of : (Session t → Option t.Socket) → Action (State t) (Unit {0})
  close_socket_of field = do held ← read field; outside (calls.close_socket held)

  -- `closeIceAgent`
  unfoldable pub close_ice_agent : Action (State t) (Unit {0})
  close_ice_agent = do
    close_held (λ s. s.udp_mux) calls.close_mux
    close_held (λ s. s.udp_mux_srflx) calls.close_mux
    close_socket_of (λ s. s.udp_mux_conn)
    close_socket_of (λ s. s.udp_mux_conn_srflx)
    close_held (λ s. s.agent) calls.close_agent
    λ (s, cs, w). (ok tt, (s, dis_connected cs, w))

  -- A call on the connection, whose state is put back, with the proxy that it shares with the session.
  unfoldable pub put_conn :
      Session t
      → ConnectState
      → Outcome (Unit {0}) × (Conn t.L t.R × t.W)
      → Outcome (Unit {0}) × State t
  put_conn s cs (r, (c, w)) = (r, (record s { conn = some c; wireproxy = c.wireproxy }, cs, w))

  unfoldable pub close_conn_of : Option (Conn t.L t.R) → Action (State t) (Unit {0})
  unfolding put_conn
  close_conn_of none s = (ok tt, s)
  close_conn_of (some c) (s, cs, w) = put_conn s cs (close_conn calls.proxy_libraries (c, w))

  -- `CloseConn`
  unfoldable pub close_session_conn : Action (State t) (Unit {0})
  close_session_conn (s, cs, w) = close_conn_of s.conn (s, cs, w)

  -- `Cleanup`, with `CloseIce`
  unfoldable pub cleanup : Action (State t) (Unit {0})
  cleanup = close_session_conn >> close_ice_agent

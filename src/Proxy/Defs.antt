-- ===== src/Proxy/Defs.antt =====
-- rcn/proxy/wire_proxy.go: the state of a WireProxy, and its start and stop. Dialling, resolving
-- addresses, the ICE agent and the WireGuard interface are parameters.
use runetale.Common.{
  ℕ, String, Bool, true, false, Option, none, some, List, [], ◌∷◌, if◌then◌else◌, ok, err, Action,
  pure, crash, gets, modify, ◌>>=◌, ◌>>◌, Fallible, value, error,
}
use runetale.Proxy.Address.{Ip, CandidatePair, should_use_proxy}
use runetale.ControlPlane.Peer.{wg_port_number}

-- net.UDPAddr
pub record UdpAddr : Type 0 where
  pub ip : String
  pub port : ℕ

-- The two goroutines of startMon.
pub data Mon : Type 0 where
  local_to_remote remote_to_local : Mon

-- `L` and `R` are the connections net.Conn (local) and *ice.Conn (remote).
pub record ProxyLibraries (L R W : Type 0) : Type 0 where
  pub parse_ip : String → Ip
  pub dial : String → Action W L
  pub remote_addr : R → String
  pub local_network : L → String
  pub local_addr : L → String
  pub resolve_udp_addr : String → String → Fallible UdpAddr
  pub get_selected_candidate_pair : Action W (Option CandidatePair)
  pub configure_remote_node_peer : String → String → UdpAddr → ℕ → String → Action W (Unit {0})
  pub remove_remote_peer : String → String → String → Action W (Unit {0})

-- WireProxy, with whether its context is cancelled and the goroutines that it has started, the
-- last one first.
pub record WireProxy (L R : Type 0) : Type 0 where
  pub remote_wg_pub_key : String
  pub remote_ip : String
  pub wg_iface : String
  pub listen_addr : String
  pub pre_shared_key : String
  pub remote_conn : Option R
  pub local_conn : Option L
  pub cancelled : Bool
  pub mons : List Mon

-- `DefaultWgKeepAlive`, in seconds.
abbrev pub default_wg_keep_alive : ℕ
default_wg_keep_alive = 25

module _ {L R W : Type 0} (lib : ProxyLibraries L R W) where
  abbrev pub Shared : Type 0
  Shared = WireProxy L R × W

  abbrev pub lift : {A : Type 0} → Action W A → Action Shared A
  lift m (p, w) = let (r, w') = m w in (r, (p, w'))

  abbrev pub lift_result : {A : Type 0} → Fallible A → Action Shared A
  lift_result (value a) s = (ok a, s)
  lift_result (error e) s = (err e, s)

  -- A method of an interface value, which panics where it is nil.
  abbrev pub non_nil : {A : Type 0} → Option A → Action Shared A
  non_nil none = crash
  non_nil (some a) = pure a

  unfoldable pub new_wire_proxy : String → String → String → String → String → WireProxy L R
  new_wire_proxy remote_wg_pub_key remote_ip wg_iface listen_addr pre_shared_key = record {
    remote_wg_pub_key = remote_wg_pub_key;
    remote_ip = remote_ip;
    wg_iface = wg_iface;
    listen_addr = listen_addr;
    pre_shared_key = pre_shared_key;
    remote_conn = none;
    local_conn = none;
    cancelled = false;
    mons = [];
  }

  abbrev pub set_remote : R → WireProxy L R → WireProxy L R
  set_remote r p = record p { remote_conn = some r }

  abbrev pub set_local : L → WireProxy L R → WireProxy L R
  set_local l p = record p { local_conn = some l }

  -- The method `setup`.
  unfoldable pub setup_conns : R → Action Shared (Unit {0})
  setup_conns remote = do
    modify λ (p, w). (set_remote remote p, w)
    addr ← gets λ s. s.0.listen_addr
    l ← lift (lib.dial addr)
    modify λ (p, w). (set_local l p, w)

  -- `ConfigureRemoteNodePeer` with the fields of the proxy.
  abbrev pub configure_peer : UdpAddr → Action Shared (Unit {0})
  configure_peer addr (p, w) =
      lift
        (lib.configure_remote_node_peer p.remote_wg_pub_key p.remote_ip addr default_wg_keep_alive
          p.pre_shared_key)
        (p, w)

  unfoldable pub configure_no_proxy : Action Shared (Unit {0})
  configure_no_proxy = do
    conn ← gets λ s. s.0.remote_conn
    remote ← non_nil conn
    addr ← lift_result (lib.resolve_udp_addr "udp" (lib.remote_addr remote))
    configure_peer (record addr { port = wg_port_number })

  unfoldable pub configure_wire_proxy : Action Shared (Unit {0})
  configure_wire_proxy = do
    conn ← gets λ s. s.0.local_conn
    l ← non_nil conn
    addr ← lift_result (lib.resolve_udp_addr (lib.local_network l) (lib.local_addr l))
    configure_peer addr

  -- The method `Stop`.
  unfoldable pub stop_proxy : Action Shared (Unit {0})
  stop_proxy (p, w) =
      let p' = let r : WireProxy L R = record p { cancelled = true } in r in
      elim p.local_conn [
        | none ↦ (ok tt, (p', w))
        | some l ↦ lift (lib.remove_remote_peer p.wg_iface p.remote_ip p.remote_wg_pub_key) (p', w)
      ]

  unfoldable pub start_mon : Action Shared (Unit {0})
  start_mon = modify λ (p, w). (record p { mons = remote_to_local ∷ local_to_remote ∷ p.mons }, w)

  -- `configureWireProxy` or `configureNoProxy`, by the pair.
  unfoldable pub configure_for : CandidatePair → Action Shared (Unit {0})
  configure_for pair =
      if should_use_proxy lib.parse_ip pair then configure_wire_proxy else configure_no_proxy

  unfoldable pub start_proxy : R → Action Shared (Unit {0})
  start_proxy remote = do
    setup_conns remote
    selected ← lift lib.get_selected_candidate_pair
    pair ← non_nil selected
    configure_for pair
    start_mon

-- ===== src/Boot/Rcn.antt =====
-- rcn/rcn.go: the parts of the daemon, started and stopped together. The profiler is left out.
use runetale.Common.{
  String, Option, none, some, List, [], ◌∷◌, ◌++◌, Outcome, ok, err, panic, Action, pure, crash,
  gets, modify, ◌>>=◌, ◌>>◌,
}
use runetale.ControlPlane.Peer.{IceMethods}
use runetale.ControlPlane.Defs.{
  Libraries, ControlPlane, new_control_plane, configure_stun_turn_conf, close,
}
use runetale.Iface.Defs.{Iface, new_iface}

-- The goroutines of Start: WaitForRemoteConn, ConnectSignalServer, and ConnectSock with the address.
pub data Routine : Type 0 where
  wait_for_remote_conn connect_signal_server : Routine
  connect_sock_with : String → String → Routine

-- Rcn, with the goroutines that it has started, the last one first; `iface` is nil before Setup.
pub record Rcn (U : Type 0) : Type 0 where
  pub cp : ControlPlane U
  pub iface : Option Iface
  pub tun_name : String
  pub wg_private_key : String
  pub routines : List Routine

-- CreateIface and RemoveIface of the system.
pub record SystemIface (W : Type 0) : Type 0 where
  pub create_iface : Iface → Action W (Unit {0})
  pub remove_iface : String → Action W (Unit {0})

-- `NewRcn`, with the names that it reads of the configuration.
unfoldable pub new_rcn : {U : Type 0} → String → String → Rcn U
unfolding new_control_plane
new_rcn tun_name wg_private_key = record {
  cp = new_control_plane;
  iface = none;
  tun_name = tun_name;
  wg_private_key = wg_private_key;
  routines = [];
}

module _ {U C W : Type 0} (lib : Libraries U C W) (methods : IceMethods U C W)
    (sys : SystemIface W) where
  abbrev pub RcnState : Type 0
  RcnState = Rcn U × W

  abbrev pub on_world : {A : Type 0} → Action W A → Action RcnState A
  on_world m (r, w) = let (o, w') = m w in (o, (r, w'))

  abbrev pub put_plane :
      {A : Type 0} → Rcn U → Outcome A × (ControlPlane U × W) → Outcome A × RcnState
  put_plane r (o, (c, w)) = (o, (record r { cp = c }, w))

  -- A method of the control plane.
  abbrev pub on_plane : {A : Type 0} → Action (ControlPlane U × W) A → Action RcnState A
  on_plane m (r, w) = put_plane r (m (r.cp, w))

  -- The field of a pointer, which panics where it is nil.
  abbrev pub deref_iface : Option Iface → Action RcnState Iface
  deref_iface none = crash
  deref_iface (some i) = pure i

  -- `Setup` and `createIface`.
  unfoldable pub setup_rcn : String → String → Action RcnState (Unit {0})
  unfolding new_iface
  setup_rcn ip cidr (r, w) =
      let i = new_iface r.tun_name r.wg_private_key ip cidr in
      on_world (sys.create_iface i) (record r { iface = some i }, w)

  abbrev pub starts : List Routine → Action RcnState (Unit {0})
  starts gs = modify λ (r, w). (record r { routines = gs ++ r.routines }, w)

  -- An error of ConfigureStunTurnConf is only logged.
  abbrev pub logged : {S : Type 0} → Outcome (Unit {0}) × S → Outcome (Unit {0}) × S
  logged (ok _, s) = (ok tt, s)
  logged (err e, s) = (ok tt, s)
  logged (panic, s) = (panic, s)

  -- The address is read after the first two goroutines have been started.
  unfoldable pub start_routines : Action RcnState (Unit {0})
  start_routines = do
    starts (connect_signal_server ∷ wait_for_remote_conn ∷ [])
    iface ← gets λ s. s.0.iface
    i ← deref_iface iface
    starts (connect_sock_with i.ip i.cidr ∷ [])

  -- `Start`
  unfoldable pub start_rcn : Action RcnState (Unit {0})
  start_rcn = do λ s. logged (on_plane (configure_stun_turn_conf lib methods) s); start_routines

  -- The end of `Stop`: RemoveIface.
  unfoldable pub remove_held : Action RcnState (Unit {0})
  remove_held = do
    iface ← gets λ s. s.0.iface
    i ← deref_iface iface
    on_world (sys.remove_iface i.tun)

  -- `Stop`
  unfoldable pub stop_rcn : Action RcnState (Unit {0})
  stop_rcn = do on_plane (close lib methods); remove_held

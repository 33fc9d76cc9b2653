-- ===== src/Iface/Defs.antt =====
-- iface/iface.go, iface/iface_unix.go and utils/cmd.go: the interface. wgctrl, wgtypes, the tunnel
-- device and the commands are parameters; the loop that serves the user space API is left out.
use runetale.Common.{
  ℕ, String, Bool, true, false, Option, none, some, List, [], ◌∷◌, str_eq, if◌then◌else◌, Outcome,
  ok, err, panic, Action, crash, ◌>>=◌, ◌>>◌, concat, Fallible, value, error,
}
use runetale.Proxy.Defs.{UdpAddr}
use runetale.ControlPlane.Peer.{wg_port_number}

-- wgtypes.PeerConfig over keys `K` and networks `N`; a pointer may be nil.
pub record PeerConfig (K N : Type 0) : Type 0 where
  pub public_key : K
  pub remove : Bool
  pub preshared_key : Option K
  pub endpoint : Option UdpAddr
  pub persistent_keepalive_interval : Option ℕ
  pub replace_allowed_ips : Bool
  pub allowed_ips : List N

-- wgtypes.Config
pub record WgConfig (K N : Type 0) : Type 0 where
  pub private_key : Option K
  pub listen_port : Option ℕ
  pub firewall_mark : Option ℕ
  pub replace_peers : Bool
  pub peers : List (PeerConfig K N)

pub record Iface : Type 0 where
  pub tun : String
  pub wg_private_key : String
  pub ip : String
  pub cidr : String

unfoldable pub new_iface : String → String → String → String → Iface
new_iface tun wg_private_key ip cidr = record {
  tun = tun;
  wg_private_key = wg_private_key;
  ip = ip;
  cidr = cidr;
}

-- `D` is a client of wgctrl, `T` a tunnel device. `parse_cidr` gives the network, `zero_key` is the
-- zero value of a key, `fields` is strings.Fields, `output` runs a command with its arguments, and
-- `before_slash` is the first part of strings.Split at "/".
pub record IfaceCalls (K N D T W : Type 0) : Type 0 where
  pub parse_cidr : String → Fallible N
  pub network_string : N → String
  pub parse_key : String → Fallible K
  pub zero_key : K
  pub fields : String → List String
  pub before_slash : String → String
  pub output : String → List String → Action W (Unit {0})
  pub combined_output : String → List String → Action W (Unit {0})
  pub look_path : String → Action W String
  pub is_nix_os : W → Bool
  pub new_client : Action W D
  pub close_client : D → W → W
  pub device : D → String → Action W (Unit {0})
  pub configure : D → String → WgConfig K N → Action W (Unit {0})
  pub create_tun : String → ℕ → Action W T
  pub up : T → Action W (Unit {0})
  pub uapi_open : String → Action W (Unit {0})
  pub uapi_listen : String → Action W (Unit {0})

-- `DefaultMTU`
abbrev pub default_mtu : ℕ
default_mtu = 1280

module _ {K N D T W : Type 0} (calls : IfaceCalls K N D T W) where
  -- The result of a pure call.
  abbrev pub returned : {A : Type 0} → Fallible A → Action W A
  returned (value a) w = (ok a, w)
  returned (error e) w = (err e, w)

  -- The deferred Close of a client, which runs however `m` ends.
  abbrev pub with_close : {A : Type 0} → D → Action W A → Action W A
  with_close d m w = let (r, w') = m w in (r, calls.close_client d w')

  -- `if err := ...; err != nil` that only prints.
  abbrev pub printed : Outcome (Unit {0}) × W → Outcome (Unit {0}) × W
  printed (ok _, w) = (ok tt, w)
  printed (err e, w) = (ok tt, w)
  printed (panic, w) = (panic, w)

  -- `ExecCmd`; the index into an empty list panics.
  unfoldable pub exec_args : List String → Action W (Unit {0})
  exec_args [] = crash
  exec_args (arg ∷ args) = calls.output arg args

  unfoldable pub exec_cmd : String → Action W (Unit {0})
  exec_cmd command = exec_args (calls.fields command)

  unfoldable pub configure_device : Iface → WgConfig K N → Action W (Unit {0})
  configure_device i config = do
    wg ← calls.new_client
    with_close wg (calls.device wg i.tun >> calls.configure wg i.tun config)

  -- `parsedPreSharedkey`
  unfoldable pub parse_preshared : String → Fallible K
  parse_preshared text = if str_eq text "" then value calls.zero_key else calls.parse_key text

  abbrev pub peers_only : PeerConfig K N → WgConfig K N
  peers_only peer = record {
    private_key = none;
    listen_port = none;
    firewall_mark = none;
    replace_peers = false;
    peers = peer ∷ [];
  }

  unfoldable pub configure_remote_node_peer :
      Iface → String → String → UdpAddr → ℕ → String → Action W (Unit {0})
  configure_remote_node_peer i remote_node_pub_key remoteip endpoint keep_alive pre_shared_key = do
    net ← returned (calls.parse_cidr remoteip)
    key ← returned (calls.parse_key remote_node_pub_key)
    secret ← returned (parse_preshared pre_shared_key)
    configure_device i (
        peers_only (record {
          public_key = key;
          remove = false;
          preshared_key = some secret;
          endpoint = some endpoint;
          persistent_keepalive_interval = some keep_alive;
          replace_allowed_ips = true;
          allowed_ips = net ∷ [];
        }))

  unfoldable pub remove_remote_peer : Iface → String → String → String → Action W (Unit {0})
  remove_remote_peer i iface remoteip remote_peer_pub_key = do
    key ← returned (calls.parse_key remote_peer_pub_key)
    configure_device i (
        peers_only (record {
          public_key = key;
          remove = true;
          preshared_key = none;
          endpoint = none;
          persistent_keepalive_interval = none;
          replace_allowed_ips = false;
          allowed_ips = [];
        }))

  -- `getUAPI`
  unfoldable pub get_uapi : String → Action W (Unit {0})
  get_uapi iface = calls.uapi_open iface >> calls.uapi_listen iface

  unfoldable pub add_route : String → N → Action W (Unit {0})
  add_route tun net =
      calls.combined_output "route"
        ("add" ∷ "-net" ∷ calls.network_string net ∷ "-interface" ∷ tun ∷ [])

  -- `assignAddr`, the same on both systems; a route that cannot be added is only printed.
  unfoldable pub assign_addr : String → String → Action W (Unit {0})
  assign_addr tunname address = do
    calls.combined_output "ifconfig" (tunname ∷ "inet" ∷ address ∷ calls.before_slash address ∷ [])
    net ← returned (calls.parse_cidr address)
    λ w. printed (add_route tunname net w)

  -- `CreateWithUserSpace`; `createWithUserSpace` of iface/iface_darwin.go has the same calls, with
  -- the name given.
  unfoldable pub create_with_user_space : String → String → Action W (Unit {0})
  unfolding get_uapi assign_addr
  create_with_user_space tunname address = do
    t ← calls.create_tun tunname default_mtu
    calls.up t
    get_uapi tunname
    assign_addr tunname address

  -- The configuration of a new interface.
  abbrev pub own_config : K → WgConfig K N
  own_config key = record {
    private_key = some key;
    listen_port = some wg_port_number;
    firewall_mark = some 0;
    replace_peers = false;
    peers = [];
  }

  -- The address of the interface, with its range.
  abbrev pub with_range : Iface → String
  with_range i = concat i.ip (concat "/" i.cidr)

-- ===== src/Iface/Linux.antt =====
-- iface/iface_linux.go: creating and removing the interface on Linux.
use runetale.Common.{
  String, Bool, true, false, Outcome, ok, err, panic, Action, ◌>>=◌, ◌>>◌, concat,
}
use runetale.Iface.Defs.{
  WgConfig, Iface, IfaceCalls, returned, with_close, printed, exec_cmd, configure_device,
  create_with_user_space, own_config, with_range,
}

module _ {K N D T W : Type 0} (calls : IfaceCalls K N D T W) where
  -- A call that is asked only whether it fails.
  abbrev pub succeeds : Outcome (Unit {0}) × W → Outcome Bool × W
  succeeds (ok _, w) = (ok true, w)
  succeeds (err e, w) = (ok false, w)
  succeeds (panic, w) = (panic, w)

  unfoldable pub is_wire_guard_module : Action W Bool
  is_wire_guard_module w = succeeds (exec_cmd calls "modinfo wireguard" w)

  abbrev pub link_add : String → String → String
  link_add ip_cmd name = concat ip_cmd (concat " link add dev " (concat name " type wireguard "))

  abbrev pub address_add : String → String → String → String
  address_add ip_cmd name address =
      concat ip_cmd (concat " address add dev " (concat name (concat " " address)))

  abbrev pub link_up : String → String → String
  link_up ip_cmd name = concat ip_cmd (concat " link set up dev " name)

  -- What is done with the client open.
  unfoldable pub kernel_calls : D → String → String → String → WgConfig K N → Action W (Unit {0})
  kernel_calls wg ip_cmd name address config = do
    exec_cmd calls (link_add ip_cmd name)
    exec_cmd calls (address_add ip_cmd name address)
    calls.device wg name
    calls.configure wg name config
    exec_cmd calls (link_up ip_cmd name)

  unfoldable pub create_with_kernel_space : String → String → String → Action W (Unit {0})
  create_with_kernel_space name private_key address = do
    ip_cmd ← calls.look_path "ip"
    key ← returned calls (calls.parse_key private_key)
    wg ← calls.new_client
    with_close calls wg (kernel_calls wg ip_cmd name address (own_config calls key))

  -- `createWithUserSpace`
  unfoldable pub user_space_interface : Iface → String → Action W (Unit {0})
  user_space_interface i address = do
    create_with_user_space calls i.tun address
    key ← returned calls (calls.parse_key i.wg_private_key)
    configure_device calls i (own_config calls key)

  -- Whether the kernel has the module, or is known to have it.
  unfoldable pub by_module : Iface → String → Bool → Action W (Unit {0})
  by_module i addr true = create_with_kernel_space i.tun i.wg_private_key addr
  by_module i addr false = user_space_interface i addr

  unfoldable pub by_distribution : Bool → Iface → String → Action W (Unit {0})
  by_distribution true i addr = create_with_kernel_space i.tun i.wg_private_key addr
  by_distribution false i addr = is_wire_guard_module >>= by_module i addr

  -- `CreateIface`
  unfoldable pub create_iface : Iface → Action W (Unit {0})
  create_iface i w = by_distribution (calls.is_nix_os w) i (with_range calls i) w

  -- `RemoveIface`: a link that cannot be deleted is only logged.
  unfoldable pub remove_iface : String → Action W (Unit {0})
  remove_iface tunname = do
    ip_cmd ← calls.look_path "ip"
    λ w. printed calls (exec_cmd calls (concat ip_cmd (concat " link delete dev " tunname)) w)

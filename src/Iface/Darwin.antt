-- ===== src/Iface/Darwin.antt =====
-- iface/iface_darwin.go: creating and removing the interface on macOS.
use runetale.Common.{String, [], ◌∷◌, Action, ◌>>=◌, ◌>>◌, concat}
use runetale.Iface.Defs.{
  Iface, IfaceCalls, default_mtu, returned, printed, exec_cmd, configure_device, get_uapi,
  add_route, own_config, with_range,
}

module _ {K N D T W : Type 0} (calls : IfaceCalls K N D T W) where
  -- `assignAddr` and `createWithUserSpace`, written again in this file.
  unfoldable pub assign_addr : String → String → Action W (Unit {0})
  assign_addr tunname address = do
    calls.combined_output "ifconfig" (tunname ∷ "inet" ∷ address ∷ calls.before_slash address ∷ [])
    net ← returned calls (calls.parse_cidr address)
    λ w. printed calls (add_route calls tunname net w)

  unfoldable pub create_with_user_space : String → String → Action W (Unit {0})
  unfolding assign_addr
  create_with_user_space tunname address = do
    t ← calls.create_tun tunname default_mtu
    calls.up t
    get_uapi calls tunname
    assign_addr tunname address

  -- `CreateIface`
  unfoldable pub create_iface : Iface → Action W (Unit {0})
  create_iface i = do
    create_with_user_space i.tun (with_range calls i)
    key ← returned calls (calls.parse_key i.wg_private_key)
    configure_device calls i (own_config calls key)

  -- `RemoveIface`: a failed command is only logged.
  unfoldable pub remove_iface : String → Action W (Unit {0})
  remove_iface tunname = do
    ip_cmd ← calls.look_path "ifconfig"
    λ w. printed calls (exec_cmd calls (concat ip_cmd (concat " " (concat tunname " down"))) w)

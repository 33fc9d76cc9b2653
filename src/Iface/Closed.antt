-- ===== src/Iface/Closed.antt =====
-- iface: every client of wgctrl that is opened is closed again.
use runetale.Common.{ℕ, String, ◌∙◌, Bool, true, false, [], ◌∷◌, ◌>>=◌}
use runetale.Iface.Defs.{
  WgConfig, Iface, IfaceCalls, returned, with_close, printed, exec_cmd, configure_remote_node_peer,
  remove_remote_peer, get_uapi, add_route, assign_addr, create_with_user_space, own_config,
  with_range,
}
use runetale.Iface.Linux
use runetale.Iface.Linux.{
  is_wire_guard_module, kernel_calls, create_with_kernel_space, user_space_interface, by_module,
  by_distribution, create_iface,
}
use runetale.Iface.Darwin
use runetale.Iface.Opened.{
  Balanced, Counts, bound-opened, >>=-Balanced, returned-Balanced, printed-opened, succeeds-opened,
  with_new-Balanced, exec_cmd-Balanced, configure_device-Balanced,
  configure_remote_node_peer-Balanced, remove_remote_peer-Balanced,
}
use runetale.Proxy.Defs.{UdpAddr}

module _ {K N D T W : Type 0} (calls : IfaceCalls K N D T W) (opened : W → ℕ)
    (counts : Counts calls opened) where
  printed_exec-Balanced :
      (c : String) → Balanced calls opened (λ w. printed calls (exec_cmd calls c w))
  printed_exec-Balanced c w =
      printed-opened calls opened (exec_cmd calls c w) ∙ exec_cmd-Balanced calls opened counts c w

  printed_route-Balanced :
      (tun : String) (net : N)
      → Balanced calls opened (λ w. printed calls (add_route calls tun net w))
  unfolding add_route
  printed_route-Balanced tun net w =
      printed-opened calls opened (add_route calls tun net w)
      ∙ counts.combined_outputs "route"
          ("add" ∷ "-net" ∷ calls.network_string net ∷ "-interface" ∷ tun ∷ []) w

  assign_addr-Balanced :
      (tun address : String) → Balanced calls opened (assign_addr calls tun address)
  unfolding assign_addr
  assign_addr-Balanced tun address =
      search (>>=-Balanced, returned-Balanced, counts.combined_outputs, printed_route-Balanced)

  create_with_user_space-Balanced :
      (tun address : String) → Balanced calls opened (create_with_user_space calls tun address)
  unfolding create_with_user_space get_uapi
  create_with_user_space-Balanced tun address = search (
    >>=-Balanced, counts.creates, counts.ups, counts.opens_uapi, counts.listens_uapi,
    assign_addr-Balanced,
  )

  kernel_calls-Balanced :
      (d : D) (ip_cmd name address : String) (c : WgConfig K N)
      → Balanced calls opened (kernel_calls calls d ip_cmd name address c)
  unfolding kernel_calls
  kernel_calls-Balanced d ip_cmd name address c =
      search (>>=-Balanced, exec_cmd-Balanced, counts.devices, counts.configures)

  kernel_session-Balanced :
      (ip_cmd name address : String) (c : WgConfig K N)
      → Balanced calls opened (
          calls.new_client >>= λ d. with_close calls d (kernel_calls calls d ip_cmd name address c))
  kernel_session-Balanced ip_cmd name address c =
      with_new-Balanced calls opened counts (λ d. kernel_calls calls d ip_cmd name address c)
        λ d. kernel_calls-Balanced d ip_cmd name address c

  create_with_kernel_space-Balanced :
      (name key address : String)
      → Balanced calls opened (Linux.create_with_kernel_space calls name key address)
  unfolding Linux.create_with_kernel_space
  create_with_kernel_space-Balanced name key address w =
      bound-opened calls opened _ (calls.look_path "ip" w) (λ ip_cmd w'.
        bound-opened calls opened _ (returned calls (calls.parse_key key) w')
          (λ k. kernel_session-Balanced ip_cmd name address (own_config calls k))
        ∙ returned-Balanced calls opened (calls.parse_key key) w')
      ∙ counts.looks "ip" w

  is_wire_guard_module-Balanced : Balanced calls opened (is_wire_guard_module calls)
  unfolding is_wire_guard_module
  is_wire_guard_module-Balanced w =
      succeeds-opened calls opened (exec_cmd calls "modinfo wireguard" w)
      ∙ exec_cmd-Balanced calls opened counts "modinfo wireguard" w

  user_space_interface-Balanced :
      (i : Iface) (address : String)
      → Balanced calls opened (Linux.user_space_interface calls i address)
  unfolding Linux.user_space_interface
  user_space_interface-Balanced i address =
      search (
        >>=-Balanced, returned-Balanced, create_with_user_space-Balanced, configure_device-Balanced,
      )

  by_module-Balanced :
      (i : Iface) (address : String) (has : Bool)
      → Balanced calls opened (by_module calls i address has)
  unfolding by_module
  by_module-Balanced i address true =
      create_with_kernel_space-Balanced i.tun i.wg_private_key address
  by_module-Balanced i address false = user_space_interface-Balanced i address

  by_distribution-Balanced :
      (nix : Bool) (i : Iface) (address : String)
      → Balanced calls opened (by_distribution calls nix i address)
  unfolding by_distribution
  by_distribution-Balanced true i address =
      create_with_kernel_space-Balanced i.tun i.wg_private_key address
  by_distribution-Balanced false i address =
      search (>>=-Balanced, is_wire_guard_module-Balanced, by_module-Balanced)

  darwin_address-Balanced :
      (tun address : String) → Balanced calls opened (Darwin.assign_addr calls tun address)
  unfolding Darwin.assign_addr
  darwin_address-Balanced tun address =
      search (>>=-Balanced, returned-Balanced, counts.combined_outputs, printed_route-Balanced)

  darwin_user_space-Balanced :
      (tun address : String)
      → Balanced calls opened (Darwin.create_with_user_space calls tun address)
  unfolding Darwin.create_with_user_space get_uapi
  darwin_user_space-Balanced tun address = search (
    >>=-Balanced, counts.creates, counts.ups, counts.opens_uapi, counts.listens_uapi,
    darwin_address-Balanced,
  )

  darwin-Balanced : (i : Iface) → Balanced calls opened (Darwin.create_iface calls i)
  unfolding Darwin.create_iface
  darwin-Balanced i =
      search
        (>>=-Balanced, returned-Balanced, darwin_user_space-Balanced, configure_device-Balanced)

  -- However it ends, CreateIface of either system, ConfigureRemoteNodePeer and RemoveRemotePeer
  -- leave as many clients of wgctrl open as there were before: each client that they open is closed.
  pub clients-Balanced :
      (i : Iface)
      → Balanced calls opened (Linux.create_iface calls i)
        × Balanced calls opened (Darwin.create_iface calls i)
        × ((key ip : String) (addr : UdpAddr) (keep : ℕ) (psk : String)
            → Balanced calls opened (configure_remote_node_peer calls i key ip addr keep psk))
        × ((tun ip key : String) → Balanced calls opened (remove_remote_peer calls i tun ip key))
  unfolding Linux.create_iface
  clients-Balanced i = (
    λ w. by_distribution-Balanced (calls.is_nix_os w) i (with_range calls i) w,
    darwin-Balanced i,
    configure_remote_node_peer-Balanced calls opened counts i,
    remove_remote_peer-Balanced calls opened counts i,
  )

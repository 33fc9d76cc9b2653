-- ===== src/Iface/ProxyTests.antt =====
-- rcn/proxy/wire_proxy.go over iface/iface.go: one proxy on a device that keeps its peers.
use runetale.Common.{ℕ, ◌≡◌, refl, none, some, ok, value}
use runetale.Proxy.Address.{v4, is_public_ip, host, is_host, CandidatePair, should_use_proxy}
use runetale.Proxy.Defs.{
  ProxyLibraries, WireProxy, Shared, new_wire_proxy, setup_conns, configure_no_proxy,
  configure_wire_proxy, stop_proxy, start_mon, configure_for, start_proxy,
}
use runetale.Iface.Defs.{
  configure_device, parse_preshared, configure_remote_node_peer, remove_remote_peer,
}
use runetale.Iface.Tests.{Peers, device_calls, rt, tables}
use runetale.Iface.Joined.{over_iface, PeerSet, start_proxy-PeerSet, stop_proxy-PeerGone}
use runetale.Iface.Table.{Sets}

abbrev open_pair : CandidatePair
open_pair = record {
  local = record { address = "8.8.8.8"; type = host };
  remote = record { address = "8.8.8.8"; type = host };
}

abbrev base : ProxyLibraries ℕ ℕ (ℕ × Peers)
base = record {
  parse_ip = λ t. v4 8 8 8 8;
  dial = λ a w. (ok 1, w);
  remote_addr = λ r. "8.8.8.8:4000";
  local_network = λ l. "udp";
  local_addr = λ l. "127.0.0.1:4001";
  resolve_udp_addr = λ n a. value (record { ip = "8.8.8.8"; port = 4000 });
  get_selected_candidate_pair = λ w. (ok (some open_pair), w);
  configure_remote_node_peer = λ k i a t s w. (ok tt, w);
  remove_remote_peer = λ t i k w. (ok tt, w);
}

abbrev over : ProxyLibraries ℕ ℕ (ℕ × Peers)
over = over_iface device_calls rt base

abbrev remote_proxy : WireProxy ℕ ℕ
remote_proxy = new_wire_proxy over "key" "10.0.0.2/32" "rt0" "127.0.0.1:51820" ""

abbrev no_peers : ℕ × Peers
no_peers = (0, λ k. none)

abbrev started_state : Shared over
started_state = (start_proxy over 9 (remote_proxy, no_peers)).1

starts : start_proxy over 9 (remote_proxy, no_peers) ≡ (ok tt, started_state)
unfolding start_proxy setup_conns configure_for configure_no_proxy configure_wire_proxy start_mon
    should_use_proxy is_public_ip is_host new_wire_proxy configure_remote_node_peer parse_preshared
    configure_device
starts = refl

start_proxy-PeerSet_example :
    PeerSet device_calls rt base (λ w. w.1) tables remote_proxy 9 started_state.1.1
start_proxy-PeerSet_example =
    start_proxy-PeerSet device_calls rt base (λ w. w.1) tables 9 remote_proxy no_peers started_state
      starts

abbrev running_proxy : WireProxy ℕ ℕ
running_proxy = let r : WireProxy ℕ ℕ = record remote_proxy { local_conn = some 1 } in r

abbrev stopped_state : Shared over
stopped_state = (stop_proxy over (running_proxy, no_peers)).1

stops : stop_proxy over (running_proxy, no_peers) ≡ (ok tt, stopped_state)
unfolding stop_proxy new_wire_proxy remove_remote_peer configure_device
stops = refl

parsed : device_calls.parse_key running_proxy.remote_wg_pub_key ≡ value 7
unfolding new_wire_proxy
parsed = refl

stop_proxy-PeerGone_example :
    (key : ℕ) × (device_calls.parse_key running_proxy.remote_wg_pub_key ≡ value key)
    × Sets key none (λ k. none) stopped_state.1.1
stop_proxy-PeerGone_example =
    stop_proxy-PeerGone device_calls rt base (λ w. w.1) tables running_proxy 1 no_peers
      stopped_state refl stops

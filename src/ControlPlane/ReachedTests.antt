-- ===== src/ControlPlane/ReachedTests.antt =====
-- rcn/controlplane/control_plane.go: a control plane that gets one peer from the server, a message
-- for it, and then the order to drop it.
use runetale.Common.{
  ℕ, ◌+◌, ◌-◌, ◌*◌, ◌/◌, refl, true, false, none, some, [], ◌∷◌, leb, ◌==◌, insert, external, ok,
  err, Fallible, value,
}
use runetale.Common.Int.{pos}
use runetale.Backoff.Policy.{tries_reset, with_max_retries}
use runetale.Backoff.Retry.{after_operation, retry_loop, stop_deferred, do_retry_notify}
use runetale.Backoff.Exponential.{
  Float64, Sources, exponential_reset, apply_opts, new_exponential_back_off,
}
use runetale.ControlPlane.Peer.{Ice, IceMethods, join}
use runetale.ControlPlane.Defs.{
  PeerSpec, offer, NegotiationRequest, Libraries, ControlPlane, new_control_plane, Shared,
  preshared, new_ice, handle_request,
}
use runetale.ControlPlane.Offer.{
  SyncNodesResponse, add_peer, after_send, offer_nodes, offer_response, offer_operation,
  initial_offer_to_remote_peer,
}
use runetale.ControlPlane.Sync.{sync_remote_peer_config}
use runetale.ControlPlane.Reached.{
  IsKeyed, Reach, started, offered, synced, received, Reach-IsKeyed,
}

abbrev plain_libraries : Libraries ℕ ℕ ℕ
plain_libraries = record {
  parse_key = λ t. value [];
  key_string = λ k. "key";
  parse_url = λ t. value 0;
  unmarshal_candidate = λ t. value 1;
  get_stun_turn_config = λ w. (err (external 2), w);
  is_ready = λ w. true;
  receives = λ sent. true;
}

abbrev plain_methods : IceMethods ℕ ℕ ℕ
plain_methods = record {
  setup = λ i w. (ok tt, w);
  start_gathering_process = λ i w. (ok tt, w);
  cleanup = λ i w. (ok tt, w);
  send_remote_answer_ch = λ i k u p w. (ok tt, w);
  send_remote_offer_ch = λ i k u p w. (ok tt, w);
  send_remote_candidate = λ i c w. (ok tt, w);
}

abbrev plain_spec : PeerSpec
plain_spec = record { wg_private_key = "k"; pre_shared_key = ""; tun_name = "rt0"; black_list = [] }

abbrev one_node : ℕ → Fallible SyncNodesResponse × ℕ
one_node w = (
  value (record {
    remote_nodes = some (
        record { remote_node_key = "a"; remote_wg_pub_key = "wa"; allowed_ips = "10.0.0.1" ∷ [] }
        ∷ []);
    ip = "10.0.0.9";
    cidr = "24";
  }),
  w + 1,
)

abbrev whole_numbers : Float64
whole_numbers = record {
  F = ℕ;
  of_duration = λ d. 0;
  to_duration = pos;
  literal = λ a b. a;
  add = λ x y. x + y;
  sub = λ x y. x - y;
  mul = λ x y. x * y;
  div = λ x y. x / y;
  ge = λ x y. leb y x;
  is_zero = λ x. x == 0;
}

abbrev stopped_clock : Sources whole_numbers (Shared plain_libraries plain_methods)
stopped_clock = record { now = λ s. (pos 0, s); random = λ s. (0, s) }

abbrev peer_a : Ice ℕ
peer_a = record {
  remote_wg_pub_key = "wa";
  remote_ip = "10.0.0.1";
  remote_node_key = "a";
  ip = "10.0.0.9";
  cidr = "24";
  wg_priv_key = [];
  wg_port = 51820;
  wg_iface = "rt0";
  pre_shared_key = "";
  nk = "me";
  stun_turn = none;
  black_list = [];
}

abbrev Reached : Shared plain_libraries plain_methods → Type 0
Reached =
    Reach plain_libraries plain_methods plain_spec "me" one_node whole_numbers stopped_clock
      (λ d w. w) (λ w. w)

abbrev with_peer_a : ControlPlane ℕ
with_peer_a = record {
  peer_conns = ("a", some peer_a) ∷ [];
  stconf = none;
  handed = peer_a ∷ [];
  doomed = false;
}

peer_a-Reached : Reached (with_peer_a, 1)
unfolding new_control_plane initial_offer_to_remote_peer do_retry_notify stop_deferred retry_loop
    after_operation offer_operation offer_response offer_nodes after_send add_peer new_ice preshared
    join new_exponential_back_off exponential_reset apply_opts with_max_retries tries_reset insert
peer_a-Reached = offered 4 (started 0) refl

abbrev offer_from_a : NegotiationRequest
offer_from_a = record {
  dst_node_key = "a";
  msg_type = offer;
  u_flag = "u";
  pwd = "p";
  candidate_text = "";
}

Reach-IsKeyed_example :
    IsKeyed plain_libraries plain_methods plain_spec "me" one_node
      (sync_remote_peer_config plain_libraries plain_methods []
        (handle_request plain_libraries plain_methods offer_from_a (with_peer_a, 1)).1).1.0
Reach-IsKeyed_example =
    Reach-IsKeyed plain_libraries plain_methods plain_spec "me" one_node whole_numbers stopped_clock
      (λ d w. w) (λ w. w) (λ s. refl) (λ s. refl) (synced [] (received offer_from_a peer_a-Reached))

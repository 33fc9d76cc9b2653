-- ===== src/ControlPlane/Tests.antt =====
-- rcn/controlplane/control_plane.go: runs with two peers and libraries that accept every text.
use runetale.Common.{
  ℕ, ◌+◌, ◌≡◌, ◌↔◌, true, false, none, some, [], ◌∷◌, message, ok, err, panic, value,
}
use runetale.ControlPlane.Peer.{Ice, wg_port_number, IceMethods}
use runetale.ControlPlane.Defs.{
  offer, candidate, NegotiationRequest, Libraries, ControlPlane, peer_at, handle_request,
}
use runetale.ControlPlane.Dispatch.{calls_peer, Calm, handle_request-panics}

-- The world is the number of calls of methods so far.
abbrev libraries : Libraries ℕ ℕ ℕ
libraries = record {
  parse_key = λ t. value [];
  key_string = λ k. "key";
  parse_url = λ t. value 0;
  unmarshal_candidate = λ t. value 1;
  get_stun_turn_config = λ w. (
    ok (record {
      stun_url = "stun:a";
      turn_url = "turn:a";
      turn_username = "u";
      turn_password = "p";
    }),
    w,
  );
  is_ready = λ w. true;
  receives = λ sent. true;
}

abbrev methods : IceMethods ℕ ℕ ℕ
methods = record {
  setup = λ i w. (ok tt, w + 1);
  start_gathering_process = λ i w. (ok tt, w + 1);
  cleanup = λ i w. (err (message "no session"), w + 1);
  send_remote_answer_ch = λ i k u p w. (ok tt, w + 1);
  send_remote_offer_ch = λ i k u p w. (ok tt, w + 1);
  send_remote_candidate = λ i c w. (ok tt, w + 1);
}

abbrev peer_a : Ice ℕ
peer_a = record {
  remote_wg_pub_key = "wa";
  remote_ip = "10.0.0.1";
  remote_node_key = "a";
  ip = "10.0.0.9";
  cidr = "24";
  wg_priv_key = [];
  wg_port = wg_port_number;
  wg_iface = "rt0";
  pre_shared_key = "";
  nk = "me";
  stun_turn = none;
  black_list = [];
}

abbrev plane : ControlPlane ℕ
plane = record {
  peer_conns = ("a", some peer_a) ∷ ("b", some peer_a) ∷ [];
  stconf = none;
  handed = [];
  doomed = false;
}

methods_calm : Calm libraries methods
methods_calm = record { calm_answer = λ i k u p w e. cc; calm_offer = λ i k u p w e. cc }

abbrev from_nobody : NegotiationRequest
from_nobody = record {
  dst_node_key = "z";
  msg_type = offer;
  u_flag = "u";
  pwd = "p";
  candidate_text = "";
}

handle_request-panics_example :
    (((handle_request libraries methods from_nobody (plane, 0)).0 ≡ panic) ↔ (
      (peer_at libraries methods plane "z" ≡ none) × (calls_peer libraries methods offer ≡ true)))
    × ((cand : ℕ)
        → peer_at libraries methods plane "z" ≡ none
        → from_nobody.msg_type ≡ candidate
        → libraries.unmarshal_candidate "" ≡ value cand
        → handle_request libraries methods from_nobody (plane, 0)
          ≡ (ok tt, (record plane { doomed = true }, 0)))
handle_request-panics_example =
    handle_request-panics libraries methods from_nobody plane 0 methods_calm

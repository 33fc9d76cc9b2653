-- ===== src/Session/Methods.antt =====
-- rcn/webrtc/ice.go: the methods of *Ice that rcn/controlplane calls, on a store of sessions.
use runetale.Common.{String, arith, str_eq, if◌then◌else◌, Outcome, Action}
use runetale.Status.Defs.{ConnectState}
use runetale.ControlPlane.Peer.{IceMethods}
use runetale.ControlPlane.Defs.{Libraries}
use runetale.ControlPlane.Dispatch.{Calm}
use runetale.Session.Defs.{Kinds, Session, IceCalls, State}
use runetale.Session.Setup.{setup, cleanup}
use runetale.Session.Signal.{
  start_gathering_process, send_remote_offer_ch, send_remote_answer_ch, send_remote_candidate,
}

-- The sessions by the node key of their peer, the signal client's status, and the world.
abbrev pub Store : Kinds → Type 0
Store t = (String → Session t) × ConnectState × t.W

module _ {t : Kinds} (calls : IceCalls t) where
  -- The session of `k` is put back after a call.
  abbrev pub put_back :
      String → (String → Session t) → Outcome (Unit {0}) × State t → Outcome (Unit {0}) × Store t
  put_back k store (r, (s, cs, w)) = (r, ((λ j. if str_eq k j then s else store j), cs, w))

  abbrev pub on_session : String → Action (State t) (Unit {0}) → Action (Store t) (Unit {0})
  on_session k m (store, cs, w) = put_back k store (m (store k, cs, w))

  abbrev pub ice_methods : IceMethods t.U t.C (Store t)
  ice_methods = record {
    setup = λ i. on_session i.remote_node_key (setup calls i);
    start_gathering_process = λ i. on_session i.remote_node_key (start_gathering_process calls);
    cleanup = λ i. on_session i.remote_node_key (cleanup calls i);
    send_remote_answer_ch =
        λ i k u p. on_session i.remote_node_key (send_remote_answer_ch calls u p);
    send_remote_offer_ch = λ i k u p. on_session i.remote_node_key (send_remote_offer_ch calls u p);
    send_remote_candidate = λ i c. on_session i.remote_node_key (send_remote_candidate calls c);
  }

  -- The methods of a peer that take offers and answers never panic, in whatever state its session is.
  pub ice_methods-Calm : (lib : Libraries t.U t.C (Store t)) → Calm lib ice_methods
  unfolding send_remote_answer_ch send_remote_offer_ch
  ice_methods-Calm lib = record {
    calm_answer = λ i k u p (store, cs, w) e. ground arith;
    calm_offer = λ i k u p (store, cs, w) e. ground arith;
  }

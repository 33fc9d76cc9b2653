-- ===== src/Session/Cleared.antt =====
-- rcn/webrtc/ice.go: Cleanup, after Setup and without it.
use mathlib.Core.Path.{subst}
use runetale.Common.{
  ◌≡◌, refl, sym, ◌≢◌, Option, none, some, Outcome, ok, err, panic, Action, ◌>>=◌, bound,
}
use runetale.Status.Defs.{dis_connect, ConnectState, dis_connected}
use runetale.ControlPlane.Peer.{Ice}
use runetale.Session.Defs.{Kinds, Session, IceCalls, State, outside, deref}
use runetale.Session.Setup.{
  close_held, close_socket_of, close_ice_agent, close_conn_of, close_session_conn, cleanup,
}
use runetale.Session.Prepared.{IsPrepared}

module _ {t : Kinds} (calls : IceCalls t) (i : Ice t.U) where
  -- A session without a connection and without a multiplexer, as NewIce makes it, panics when it is
  -- cleaned up.
  pub cleanup_unprepared :
      (s : Session t) (cs : ConnectState) (w : t.W)
      → s.conn ≡ none
      → s.udp_mux ≡ none
      → (cleanup calls i (s, cs, w)).0 ≡ panic
  unfolding cleanup close_session_conn close_conn_of close_ice_agent close_held
  cleanup_unprepared s cs w e f = rw (e, f)

  -- The session holds what CloseIce closes.
  pub record IsHeld (s : Session t) : Type 0 where
    pub holds_agent : (a : t.Agent) × (s.agent ≡ some a)
    pub holds_mux : (m : t.Mux) × (s.udp_mux ≡ some m)
    pub holds_mux_srflx : (m : t.Mux) × (s.udp_mux_srflx ≡ some m)

  pub IsPrepared-IsHeld : (s : Session t) → IsPrepared calls i s → IsHeld s
  IsPrepared-IsHeld s p = record {
    holds_agent = p.has_agent;
    holds_mux = p.has_mux;
    holds_mux_srflx = p.has_mux_srflx;
  }

  -- Closing a multiplexer, a socket or an agent does not panic.
  pub record ClosesCalmly : Type 0 where
    pub calm_mux : (m : t.Mux) (w : t.W) → (calls.close_mux m w).0 ≢ panic
    pub calm_socket : (k : Option t.Socket) (w : t.W) → (calls.close_socket k w).0 ≢ panic
    pub calm_agent : (a : t.Agent) (w : t.W) → (calls.close_agent a w).0 ≢ panic

  -- How a cleanup may end: not by a panic, and by success only if the status is DISCONNECT then and
  -- the session is as before.
  abbrev pub Ended : Session t → Outcome (Unit {0}) × State t → Type 0
  Ended s (ok _, (s', cs, w)) = (cs.state ≡ dis_connect) × (s' ≡ s)
  Ended s (err e, st) = Unit
  Ended s (panic, st) = ⊥

  outside-Ended :
      (s : Session t) (cs : ConnectState) (f : Unit {0} → Action (State t) (Unit {0}))
      (out : Outcome (Unit {0}) × t.W)
      → out.0 ≢ panic
      → ((w : t.W) → Ended s (f tt (s, cs, w)))
      → Ended s (bound f (out.0, (s, cs, out.1)))
  outside-Ended s cs f (ok _, w) h k = k w
  outside-Ended s cs f (err e, w) h k = tt
  outside-Ended s cs f (panic, w) h k = h refl

  close_held-Ended :
      {A : Type 0} (field : Session t → Option A) (close : A → Action t.W (Unit {0})) (a : A)
      (s : Session t) (cs : ConnectState) (w : t.W) (f : Unit {0} → Action (State t) (Unit {0}))
      → field s ≡ some a
      → (close a w).0 ≢ panic
      → ((w' : t.W) → Ended s (f tt (s, cs, w')))
      → Ended s ((close_held calls i field close >>= f) (s, cs, w))
  unfolding close_held
  close_held-Ended field close a s cs w f e h k =
      subst (λ o. Ended s (bound f (bound (λ b. outside (close b)) (deref o (s, cs, w))))) (sym e)
        (outside-Ended s cs f (close a w) h k)

  pub close_ice_agent-Ended :
      (s : Session t) (cs : ConnectState) (w : t.W)
      → IsHeld s
      → ClosesCalmly
      → Ended s (close_ice_agent calls i (s, cs, w))
  unfolding close_ice_agent close_socket_of dis_connected
  close_ice_agent-Ended s cs w p h =
      let (a, is_a) = p.holds_agent in
      let (m, is_m) = p.holds_mux in
      let (n, is_n) = p.holds_mux_srflx in
      close_held-Ended (λ r. r.udp_mux) calls.close_mux m s cs w _ is_m (h.calm_mux m w)
        λ w₁.
          close_held-Ended (λ r. r.udp_mux_srflx) calls.close_mux n s cs w₁ _ is_n (h.calm_mux n w₁)
            λ w₂.
              outside-Ended s cs _ (calls.close_socket s.udp_mux_conn w₂) (h.calm_socket _ w₂) λ w₃.
                outside-Ended s cs _ (calls.close_socket s.udp_mux_conn_srflx w₃)
                  (h.calm_socket _ w₃)
                  λ w₄.
                    close_held-Ended (λ r. r.agent) calls.close_agent a s cs w₄ _ is_a
                      (h.calm_agent a w₄) λ w₅. (refl, refl)

  -- A session that Setup has prepared and that has no connection yet is cleaned up without a panic
  -- if the calls that close its parts do not panic. If the cleanup succeeds then the status is
  -- DISCONNECT, and the session still holds the closed parts.
  pub cleanup-Ended :
      (s : Session t) (cs : ConnectState) (w : t.W)
      → IsPrepared calls i s
      → ClosesCalmly
      → s.conn ≡ none
      → Ended s (cleanup calls i (s, cs, w))
  unfolding cleanup close_session_conn close_conn_of
  cleanup-Ended s cs w p h e =
      subst
        (λ o. Ended s (bound (λ _. close_ice_agent calls i) (close_conn_of calls i o (s, cs, w))))
        (sym e) (close_ice_agent-Ended s cs w (IsPrepared-IsHeld s p) h)

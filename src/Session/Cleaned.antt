-- ===== src/Session/Cleaned.antt =====
-- rcn/webrtc/ice.go: Cleanup of a session that holds its parts, with a connection or without one.
use runetale.Common.{String, refl, ◌≢◌, Option, none, some, Outcome, ok, err, panic, bound}
use runetale.Proxy.Conn.{Conn, close_conn}
use runetale.Proxy.Lifetime.{close_conn-calm}
use runetale.Status.Defs.{ConnectState}
use runetale.ControlPlane.Peer.{Ice}
use runetale.Session.Defs.{Kinds, Session, IceCalls, State}
use runetale.Session.Setup.{close_ice_agent, put_conn, close_conn_of, close_session_conn, cleanup}
use runetale.Session.Cleared.{IsHeld, ClosesCalmly, Ended, close_ice_agent-Ended}

module _ {t : Kinds} (calls : IceCalls t) (i : Ice t.U) (calm : ClosesCalmly calls i)
    (calm_peer : (tun ip key : String) (w : t.W)
      → (calls.proxy_libraries.remove_remote_peer tun ip key w).0 ≢ panic) where
  Ended-calm :
      (s : Session t) (out : Outcome (Unit {0}) × State t) → Ended calls i s out → out.0 ≢ panic
  Ended-calm s (ok _, st) h e = cc
  Ended-calm s (err x, st) h e = cc
  Ended-calm s (panic, st) h e = h

  close_agent_after :
      (s : Session t) (cs : ConnectState) (c : Conn t.L t.R) (w : t.W) (r : Outcome (Unit {0}))
      → IsHeld calls i s
      → r ≢ panic
      → (bound (λ u. close_ice_agent calls i) (put_conn calls i s cs (r, (c, w)))).0 ≢ panic
  unfolding put_conn
  close_agent_after s cs c w (ok _) h n =
      let s' = let x : Session t = record s { conn = some c; wireproxy = c.wireproxy } in x in
      Ended-calm s' _ (
        close_ice_agent-Ended calls i s' cs w
          (record {
            holds_agent = h.holds_agent;
            holds_mux = h.holds_mux;
            holds_mux_srflx = h.holds_mux_srflx;
          })
          calm)
  close_agent_after s cs c w (err x) h n = λ e. cc
  close_agent_after s cs c w panic h n = absurd (n refl)

  close_both :
      (o : Option (Conn t.L t.R)) (s : Session t) (cs : ConnectState) (w : t.W)
      → IsHeld calls i s
      → (bound (λ u. close_ice_agent calls i) (close_conn_of calls i o (s, cs, w))).0 ≢ panic
  unfolding close_conn_of
  close_both none s cs w h = Ended-calm s _ (close_ice_agent-Ended calls i s cs w h calm)
  close_both (some c) s cs w h =
      let (r, (c', w')) = close_conn calls.proxy_libraries (c, w) in
      close_agent_after s cs c' w' r h (close_conn-calm calls.proxy_libraries calm_peer c w)

  pub cleanup-calm :
      (s : Session t) (cs : ConnectState) (w : t.W)
      → IsHeld calls i s
      → (cleanup calls i (s, cs, w)).0 ≢ panic
  unfolding cleanup close_session_conn
  cleanup-calm s cs w h = close_both s.conn s cs w h

-- ===== src/Proxy/Lifetime.antt =====
-- rcn/conn/conn.go: what Start and Close leave of the connection and of its proxy.
use mathlib.Core.Path.{subst}
use runetale.Common.{
  String, ◌≡◌, refl, sym, ap, ◌≢◌, inl, inr, true, false, Option, none, some, arith, Option-cases,
  Outcome, ok, err, panic,
}
use runetale.Proxy.Conn.{
  AgentCalls, Conn, ConnState, start_on, after_reach, after_stop, close_with, close_conn,
  reach_peer, start_conn,
}
use runetale.Proxy.Starting.{Started, start_proxy-Started}
use runetale.Proxy.Defs.{ProxyLibraries, WireProxy, Shared, stop_proxy, start_proxy}

module _ {L R W : Type 0} (lib : ProxyLibraries L R W) (agent : AgentCalls R W) where
  -- The peer was reached, and the proxy was started on that connection.
  abbrev pub Running : Conn L R → W → ConnState lib → Type 0
  Running c w (c', w') =
      (r : R) × (p p' : WireProxy L R) × ((reach_peer lib agent c w).0 ≡ ok r)
      × (c.wireproxy ≡ some p)
      × (c'.remote_conn ≡ some r)
      × (c'.wireproxy ≡ some p')
      × Started lib r p (p', w')

  start_on-Running :
      (c : Conn L R) (w : W) (r : R) (q : Option (WireProxy L R)) (w₁ : W)
      → (reach_peer lib agent c w).0 ≡ ok r
      → c.wireproxy ≡ q
      → let (res, s) = start_on lib r (record c { remote_conn = some r }) q w₁ in
        res ≡ ok tt → Running c w s
  unfolding start_on
  start_on-Running c w r none w₁ e f done = cc
  start_on-Running c w r (some p) w₁ e f done =
      let (p', w') = (start_proxy lib r (p, w₁)).1 in
      elim (start_proxy-Started lib r p w₁) [
        | inl (fine, st) ↦ (r, p, p', e, f, refl, refl, st)
        | inr (never, same) ↦ absurd (never done)
      ]

  after_reach-Running :
      (c : Conn L R) (w : W) (out : Outcome R × W)
      → (reach_peer lib agent c w).0 ≡ out.0
      → let (res, s) = after_reach lib c out in res ≡ ok tt → Running c w s
  unfolding after_reach
  after_reach-Running c w (ok r, w₁) e done = start_on-Running c w r c.wireproxy w₁ e refl done
  after_reach-Running c w (err x, w₁) e done = cc
  after_reach-Running c w (panic, w₁) e done = cc

  -- If Start succeeds then the agent has given a connection to the peer, and the proxy has been
  -- started on it.
  pub start_conn-Running :
      (c : Conn L R) (w : W)
      → let (res, s) = start_conn lib agent (c, w) in res ≡ ok tt → Running c w s
  unfolding start_conn
  start_conn-Running c w done = after_reach-Running c w (reach_peer lib agent c w) refl done

module _ {L R W : Type 0} (lib : ProxyLibraries L R W) where
  -- How Close may end.
  abbrev pub Closed : Conn L R → WireProxy L R → W → Outcome (Unit {0}) × ConnState lib → Type 0
  Closed c p w (res, (c', w')) =
      ((p' : WireProxy L R) × (c'.wireproxy ≡ some p') × (p'.cancelled ≡ true) × (p'.mons ≡ p.mons))
      × ((res ≡ ok tt → c'.cancelled ≡ true) × (c'.cancelled ≡ false → c.cancelled ≡ false))
      × (p.local_conn ≡ none → (res ≡ ok tt) × (w' ≡ w))

  stop_proxy_lem :
      (p : WireProxy L R) (w : W)
      → let (res, s) = stop_proxy lib (p, w) in
        (s.0 ≡ record p { cancelled = true }) × (p.local_conn ≡ none → (res ≡ ok tt) × (s.1 ≡ w))
  unfolding stop_proxy
  stop_proxy_lem p w = ground arith

  after_stop-Closed :
      (c : Conn L R) (p : WireProxy L R) (w : W) (out : Outcome (Unit {0}) × Shared lib)
      → out.1.0 ≡ record p { cancelled = true }
      → (p.local_conn ≡ none → (out.0 ≡ ok tt) × (out.1.1 ≡ w))
      → Closed c p w (after_stop lib c out)
  unfolding after_stop
  after_stop-Closed c p w (ok _, (q, w')) e h =
      ((q, refl, ap (λ x. x.cancelled) e, ap (λ x. x.mons) e), ((λ d. refl), (λ f. cc)), h)
  after_stop-Closed c p w (err x, (q, w')) e h = (
    (q, refl, ap (λ y. y.cancelled) e, ap (λ y. y.mons) e),
    ((λ d. cc), (λ f. f)),
    λ n. cc ((h n).0),
  )
  after_stop-Closed c p w (panic, (q, w')) e h = (
    (q, refl, ap (λ y. y.cancelled) e, ap (λ y. y.mons) e),
    ((λ d. cc), (λ f. f)),
    λ n. cc ((h n).0),
  )

  -- Close on a connection with a proxy cancels the proxy's context whether it succeeds or not, and
  -- starts no goroutine. If it succeeds then the connection's own context is cancelled too. If the
  -- proxy was never set up, then Close succeeds and leaves WireGuard alone.
  pub close_conn-Closed :
      (c : Conn L R) (p : WireProxy L R) (w : W)
      → c.wireproxy ≡ some p
      → Closed c p w (close_conn lib (c, w))
  unfolding close_conn close_with
  close_conn-Closed c p w e =
      let (same, quiet) = stop_proxy_lem p w in
      subst (λ q. Closed c p w (close_with lib c q w)) (sym e)
        (after_stop-Closed c p w (stop_proxy lib (p, w)) same quiet)

  after_stop-calm :
      (c : Conn L R) (out : Outcome (Unit {0}) × Shared lib)
      → out.0 ≢ panic
      → (after_stop lib c out).0 ≢ panic
  unfolding after_stop
  after_stop-calm c (ok _, s) n e = cc
  after_stop-calm c (err x, s) n e = cc
  after_stop-calm c (panic, s) n e = n refl

  -- Where the peer is removed from the interface without a panic, Close does not panic.
  module _ (calm : (t i k : String) (w : W) → (lib.remove_remote_peer t i k w).0 ≢ panic) where
    stop_proxy-calm : (p : WireProxy L R) (w : W) → (stop_proxy lib (p, w)).0 ≢ panic
    unfolding stop_proxy
    stop_proxy-calm p w = elim (Option-cases p.local_conn) [
      | inl closed ↦ rw closed (λ e. cc)
      | inr (l, open_) ↦ rw open_ (calm p.wg_iface p.remote_ip p.remote_wg_pub_key w)
    ]

    close_with-calm :
        (c : Conn L R) (o : Option (WireProxy L R)) (w : W) → (close_with lib c o w).0 ≢ panic
    unfolding close_with
    close_with-calm c none w = λ e. cc
    close_with-calm c (some p) w = after_stop-calm c (stop_proxy lib (p, w)) (stop_proxy-calm p w)

    pub close_conn-calm : (c : Conn L R) (w : W) → (close_conn lib (c, w)).0 ≢ panic
    unfolding close_conn
    close_conn-calm c w = close_with-calm c c.wireproxy w

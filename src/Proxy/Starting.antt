-- ===== src/Proxy/Starting.antt =====
-- rcn/proxy/wire_proxy.go: what a start of the proxy leaves, whether it succeeds or not, and Stop.
use mathlib.Core.Path.{subst}
use runetale.Common.{
  ◌≡◌, refl, sym, ap, ◌≢◌, ◌⊎◌, inl, inr, true, false, Option, none, some, ◌∷◌, Bool-cases, Outcome,
  ok, err, panic, modify, ◌>>=◌, ◌>>◌, Fallible, value, error, bound,
}
use runetale.Proxy.Address.{CandidatePair, should_use_proxy}
use runetale.Proxy.Defs.{
  UdpAddr, local_to_remote, remote_to_local, ProxyLibraries, WireProxy, default_wg_keep_alive,
  Shared, lift, lift_result, non_nil, set_remote, set_local, setup_conns, configure_peer,
  configure_no_proxy, configure_wire_proxy, start_mon, configure_for, start_proxy,
}
use runetale.ControlPlane.Peer.{wg_port_number}

module _ {L R W : Type 0} (lib : ProxyLibraries L R W) where
  -- The address that WireGuard is told to send to: the local end of the proxy's connection if the
  -- pair needs the proxy, and WireGuard's port at the remote end if not.
  abbrev pub Endpoint : CandidatePair → L → R → UdpAddr → Type 0
  Endpoint pair l r addr =
      ((should_use_proxy lib.parse_ip pair ≡ true)
        × (lib.resolve_udp_addr (lib.local_network l) (lib.local_addr l) ≡ value addr))
      ⊎ ((should_use_proxy lib.parse_ip pair ≡ false)
          × ((a : UdpAddr) × (lib.resolve_udp_addr "udp" (lib.remote_addr r) ≡ value a)
              × (addr ≡ record a { port = wg_port_number })))

  -- The peer is configured once, as the last call, for the endpoint that the pair asks for, and both
  -- goroutines are started.
  pub data Started (r : R) (p : WireProxy L R) (s' : Shared lib) : Type 0 where
    started :
        (l : L) (pair : CandidatePair) (addr : UdpAddr) (w : W)
        → Endpoint pair l r addr
        → lib.configure_remote_node_peer p.remote_wg_pub_key p.remote_ip addr default_wg_keep_alive
            p.pre_shared_key w
          ≡ (ok tt, s'.1)
        → s'.0 ≡ record p {
          remote_conn = some r;
          local_conn = some l;
          mons = remote_to_local ∷ local_to_remote ∷ p.mons;
        }
        → Started r p s'

  -- A configuration leaves the proxy as it is; if it succeeds the peer has been configured.
  abbrev Configured :
      CandidatePair → L → R → WireProxy L R → W → Outcome (Unit {0}) × Shared lib → Type 0
  Configured pair l r p w (res, s) =
      (s.0 ≡ p)
      × (res ≡ ok tt
          → (addr : UdpAddr) × Endpoint pair l r addr
            × (lib.configure_remote_node_peer p.remote_wg_pub_key p.remote_ip addr
                  default_wg_keep_alive p.pre_shared_key w
                ≡ (ok tt, s.1)))

  configure_peer-Configured :
      (pair : CandidatePair) (l : L) (r : R) (p : WireProxy L R) (w : W) (addr : UdpAddr)
      → Endpoint pair l r addr
      → Configured pair l r p w (configure_peer lib addr (p, w))
  configure_peer-Configured pair l r p w addr e =
      (refl, λ done. (addr, e, ap (λ o. (o, (configure_peer lib addr (p, w)).1.1)) done))

  module _ (pair : CandidatePair) (l : L) (r : R) (p : WireProxy L R) (w : W) where
    configure_for-via :
        should_use_proxy lib.parse_ip pair ≡ true
        → p.local_conn ≡ some l
        → configure_for lib pair (p, w)
          ≡ (lift_result lib (lib.resolve_udp_addr (lib.local_network l) (lib.local_addr l))
                >>= configure_peer lib)
              (p, w)
    unfolding configure_for configure_wire_proxy
    configure_for-via via e = rw (via, e)

    configure_for-direct :
        should_use_proxy lib.parse_ip pair ≡ false
        → p.remote_conn ≡ some r
        → configure_for lib pair (p, w)
          ≡ (lift_result lib (lib.resolve_udp_addr "udp" (lib.remote_addr r))
                >>= (λ addr. configure_peer lib (record addr { port = wg_port_number })))
              (p, w)
    unfolding configure_for configure_no_proxy
    configure_for-direct direct e = rw (direct, e)

    resolved-Configured :
        (f : Fallible UdpAddr) (g : UdpAddr → UdpAddr)
        → ((a : UdpAddr) → f ≡ value a → Endpoint pair l r (g a))
        → Configured pair l r p w ((lift_result lib f >>= (λ a. configure_peer lib (g a))) (p, w))
    resolved-Configured (value a) g h = configure_peer-Configured pair l r p w (g a) (h a refl)
    resolved-Configured (error e) g h = (refl, λ done. cc)

    configure_for-Configured :
        p.local_conn ≡ some l
        → p.remote_conn ≡ some r
        → Configured pair l r p w (configure_for lib pair (p, w))
    configure_for-Configured e f = elim (Bool-cases (should_use_proxy lib.parse_ip pair)) [
      | inl via ↦ subst (Configured pair l r p w) (sym (configure_for-via via e)) (
          resolved-Configured (lib.resolve_udp_addr (lib.local_network l) (lib.local_addr l))
            (λ a. a) (λ a got. inl (via, got)))
      | inr direct ↦ subst (Configured pair l r p w) (sym (configure_for-direct direct f)) (
          resolved-Configured (lib.resolve_udp_addr "udp" (lib.remote_addr r))
            (λ a. record a { port = wg_port_number }) (λ a got. inr (direct, (a, got, refl))))
    ]

  -- How a start may end: with everything started, or with no goroutine started.
  abbrev Ended : R → WireProxy L R → Outcome (Unit {0}) × Shared lib → Type 0
  Ended r p (res, s) = ((res ≡ ok tt) × Started r p s) ⊎ ((res ≢ ok tt) × (s.0.mons ≡ p.mons))

  module _ (r : R) (p : WireProxy L R) where
    -- The proxy when both its connections are set.
    abbrev joined : L → WireProxy L R
    joined l = set_local lib l (set_remote lib r p)

    abbrev mon_started : WireProxy L R → WireProxy L R
    mon_started q = record q { mons = remote_to_local ∷ local_to_remote ∷ q.mons }

    after_configure-Ended :
        (l : L) (pair : CandidatePair) (w : W) (out : Outcome (Unit {0}) × Shared lib)
        → Configured pair l r (joined l) w out
        → Ended r p (bound (λ _. start_mon lib) out)
    unfolding start_mon
    after_configure-Ended l pair w (ok _, s) (same, done) =
        let (addr, e, ran) = done refl in
        inl (refl, started l pair addr w e ran (ap mon_started same))
    after_configure-Ended l pair w (err e, s) (same, done) = inr ((λ q. cc), ap (λ q. q.mons) same)
    after_configure-Ended l pair w (panic, s) (same, done) = inr ((λ q. cc), ap (λ q. q.mons) same)

    after_select-Ended :
        (l : L) (out : Outcome (Option CandidatePair) × W)
        → Ended r p (
            bound
              (λ selected.
                non_nil lib selected >>= (λ pair. configure_for lib pair >> start_mon lib))
              (out.0, (joined l, out.1)))
    after_select-Ended l (ok none, w) = inr ((λ q. cc), refl)
    after_select-Ended l (ok (some pair), w) =
        after_configure-Ended l pair w (configure_for lib pair (joined l, w))
          (configure_for-Configured pair l r (joined l) w refl refl)
    after_select-Ended l (err e, w) = inr ((λ q. cc), refl)
    after_select-Ended l (panic, w) = inr ((λ q. cc), refl)

    after_dial-Ended :
        (out : Outcome L × W)
        → Ended r p (
            bound
              (λ _. lift lib lib.get_selected_candidate_pair >>= (λ selected.
                non_nil lib selected >>= (λ pair. configure_for lib pair >> start_mon lib)))
              (bound
                (λ l. modify (λ (q, w). (set_local lib l q, w)))
                (out.0, (set_remote lib r p, out.1))))
    after_dial-Ended (ok l, w) = after_select-Ended l (lib.get_selected_candidate_pair w)
    after_dial-Ended (err e, w) = inr ((λ q. cc), refl)
    after_dial-Ended (panic, w) = inr ((λ q. cc), refl)

  -- A start of the proxy either succeeds or starts no goroutine. If it succeeds then the local and
  -- the remote connection are set, WireGuard has been told as the last call to reach the peer at the
  -- local end of the proxy (if the pair needs the proxy) or at the remote address with port 51820 (if
  -- not), and both forwarding goroutines are started.
  pub start_proxy-Started :
      (r : R) (p : WireProxy L R) (w : W)
      → let (res, s) = start_proxy lib r (p, w) in
        ((res ≡ ok tt) × Started r p s) ⊎ ((res ≢ ok tt) × (s.0.mons ≡ p.mons))
  unfolding start_proxy setup_conns
  start_proxy-Started r p w = after_dial-Ended r p (lib.dial p.listen_addr w)

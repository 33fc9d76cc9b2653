-- ===== src/Iface/Joined.antt =====
-- rcn/proxy/wire_proxy.go over iface/iface.go: what the proxy of a peer does to the interface.
use mathlib.Core.Path.{subst}
use runetale.Common.{◌≡◌, ap, inl, inr, none, some, [], ◌∷◌, Outcome, ok, value}
use runetale.Iface.Defs.{
  Iface, IfaceCalls, parse_preshared, configure_remote_node_peer, remove_remote_peer,
}
use runetale.Iface.Table.{set_call, remove_call, Sets, Table, Specified, Tables}
use runetale.Iface.Refined.{run_call-Ends}
use runetale.Proxy.Defs.{
  UdpAddr, ProxyLibraries, WireProxy, default_wg_keep_alive, Shared, stop_proxy, start_proxy,
}
use runetale.Proxy.Starting.{Endpoint, Started, started, start_proxy-Started}
use runetale.Proxy.Address.{CandidatePair}

-- The libraries of a proxy whose interface is the one of iface/iface.go.
abbrev pub over_iface :
    {K N D T L R W : Type 0}
    → IfaceCalls K N D T W
    → Iface
    → ProxyLibraries L R W
    → ProxyLibraries L R W
over_iface calls i lib = record lib {
  configure_remote_node_peer = configure_remote_node_peer calls i;
  remove_remote_peer = remove_remote_peer calls i;
}

module _ {K N D T L R W : Type 0} (calls : IfaceCalls K N D T W) (i : Iface)
    (lib : ProxyLibraries L R W) (table : W → Table calls i) (laws : Tables calls i table) where
  -- The table has the peer of the proxy, at the endpoint that the selected pair asks for.
  pub record PeerSet (p : WireProxy L R) (r : R) (t : Table calls i) : Type 0 where
    pub l : L
    pub pair : CandidatePair
    pub addr : UdpAddr
    pub key : K
    pub net : N
    pub secret : K
    pub at : Endpoint (over_iface calls i lib) pair l r addr
    pub key_parsed : calls.parse_key p.remote_wg_pub_key ≡ value key
    pub net_parsed : calls.parse_cidr p.remote_ip ≡ value net
    pub secret_parsed : parse_preshared calls p.pre_shared_key ≡ value secret
    pub entry :
        t key
        ≡ some (record {
          allowed_ips = net ∷ [];
          endpoint = some addr;
          preshared_key = some secret;
          keepalive = some default_wg_keep_alive;
        })

  Started-PeerSet :
      (r : R) (p : WireProxy L R) (s : Shared (over_iface calls i lib))
      → Started (over_iface calls i lib) r p s
      → PeerSet p r (table s.1)
  Started-PeerSet r p s (started l pair addr w at run kept) =
      let call =
        set_call p.remote_wg_pub_key p.remote_ip addr default_wg_keep_alive p.pre_shared_key in
      let (key, net, secret, ek, en, es, (sets, others)) =
        subst (λ o. Specified calls i call o.0 (table w) (table o.1)) run
          (run_call-Ends calls i table laws call w) in
      record {
        l = l;
        pair = pair;
        addr = addr;
        key = key;
        net = net;
        secret = secret;
        at = at;
        key_parsed = ek;
        net_parsed = en;
        secret_parsed = es;
        entry = sets;
      }

  -- If the proxy of a peer starts successfully over the interface, then the interface has exactly the
  -- peer's network, its preshared key and a keepalive of 25 s under the peer's key, and sends to the
  -- local end of the proxy or to the remote address, as the selected pair asks.
  pub start_proxy-PeerSet :
      (r : R) (p : WireProxy L R) (w : W) (s : Shared (over_iface calls i lib))
      → start_proxy (over_iface calls i lib) r (p, w) ≡ (ok tt, s)
      → PeerSet p r (table s.1)
  start_proxy-PeerSet r p w s run = elim (start_proxy-Started (over_iface calls i lib) r p w) [
    | inl (done, st) ↦
        Started-PeerSet r p s (subst (λ o. Started (over_iface calls i lib) r p o.1) run st)
    | inr (fails, kept) ↦ absurd (fails (ap (λ o. o.0) run))
  ]

  -- If the proxy that has started stops successfully, then the interface no longer has the peer, and
  -- every other entry is the same.
  pub stop_proxy-PeerGone :
      (p : WireProxy L R) (l : L) (w : W) (s : Shared (over_iface calls i lib))
      → p.local_conn ≡ some l
      → stop_proxy (over_iface calls i lib) (p, w) ≡ (ok tt, s)
      → (key : K) × (calls.parse_key p.remote_wg_pub_key ≡ value key)
        × Sets key none (table w) (table s.1)
  unfolding stop_proxy
  stop_proxy-PeerGone p l w s has run =
      let call = remove_call p.wg_iface p.remote_ip p.remote_wg_pub_key in
      let out = rw has at run in
      subst
        (λ (o : Outcome (Unit {0}) × Shared (over_iface calls i lib)).
          Specified calls i call o.0 (table w) (table o.1.1))
        out (run_call-Ends calls i table laws call w)

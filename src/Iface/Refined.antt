-- ===== src/Iface/Refined.antt =====
-- iface/iface.go: the calls on the peers refine the table.
use mathlib.Core.Path.{subst}
use runetale.Common.{
  ℕ, String, ◌≡◌, refl, sym, inl, inr, true, false, none, some, List, [], ◌∷◌, Outcome, ok, err,
  panic, ◌>>=◌, ◌>>◌, Fallible, value, error, bound,
}
use runetale.Iface.Defs.{
  PeerConfig, Iface, IfaceCalls, returned, with_close, configure_device, parse_preshared,
  peers_only, configure_remote_node_peer, remove_remote_peer,
}
use runetale.Iface.Table.{
  apply_peer, PeerCall, set_call, remove_call, Gives, Table, Specified, SpecifiedRun, run_call,
  run_calls, Applied, Leaves, Tables,
}
use runetale.Proxy.Defs.{UdpAddr}

module _ {K N D T W : Type 0} (calls : IfaceCalls K N D T W) (i : Iface) (table : W → Table calls i)
    (laws : Tables calls i table) where
  module _ (peer : PeerConfig K N) where
    closed-Applied :
        (d : D) (t : Table calls i) (r : Outcome (Unit {0}) × W)
        → Applied calls i table peer t r
        → Applied calls i table peer t (r.0, calls.close_client d r.1)
    closed-Applied d t (ok u, w) h =
        subst
          (λ z. Gives peer.public_key peer.allowed_ips (apply_peer peer (t peer.public_key)) t z)
          (sym (laws.closes d w)) h
    closed-Applied d t (err e, w) h = tt
    closed-Applied d t (panic, w) h = h

    after_device-Applied :
        (d : D) (t : Table calls i) (r : Outcome (Unit {0}) × W)
        → Leaves calls i table t r
        → Applied calls i table peer t
            (bound (λ u. calls.configure d i.tun (peers_only calls peer)) r)
    after_device-Applied d t (ok u, w) h =
        subst
          (λ z. Applied calls i table peer z (calls.configure d i.tun (peers_only calls peer) w)) h
          (laws.configures d peer w)
    after_device-Applied d t (err e, w) h = tt
    after_device-Applied d t (panic, w) h = h

    with_client-Applied :
        (t : Table calls i) (r : Outcome D × W)
        → Leaves calls i table t r
        → Applied calls i table peer t (
            bound
              (λ d.
                with_close calls d
                  (calls.device d i.tun >> calls.configure d i.tun (peers_only calls peer)))
              r)
    with_client-Applied t (ok d, w) h = closed-Applied d t _ (
        after_device-Applied d t (calls.device d i.tun w)
          (subst (λ z. Leaves calls i table z (calls.device d i.tun w)) h (laws.devices d w)))
    with_client-Applied t (err e, w) h = tt
    with_client-Applied t (panic, w) h = h

    configure_device-Applied :
        (w : W)
        → Applied calls i table peer (table w) (configure_device calls i (peers_only calls peer) w)
    unfolding configure_device
    configure_device-Applied w = with_client-Applied (table w) (calls.new_client w) (laws.news w)

  -- How a call ends, against the table before it.
  abbrev Ends : PeerCall → Table calls i → Outcome (Unit {0}) × W → Type 0
  Ends c t (r, w) = Specified calls i c r t (table w)

  module _ (key ip : String) (addr : UdpAddr) (keep : ℕ) (psk : String) where
    abbrev configured : PeerCall
    configured = set_call key ip addr keep psk

    abbrev peer_of : K → N → K → PeerConfig K N
    peer_of k net secret = record {
      public_key = k;
      remove = false;
      preshared_key = some secret;
      endpoint = some addr;
      persistent_keepalive_interval = some keep;
      replace_allowed_ips = true;
      allowed_ips = net ∷ [];
    }

    device-Ends :
        (t : Table calls i) (k : K) (net : N) (secret : K) (r : Outcome (Unit {0}) × W)
        → calls.parse_key key ≡ value k
        → calls.parse_cidr ip ≡ value net
        → parse_preshared calls psk ≡ value secret
        → Applied calls i table (peer_of k net secret) t r
        → Ends configured t r
    device-Ends t k net secret (ok u, w) ek en es h = (k, net, secret, ek, en, es, h)
    device-Ends t k net secret (err e, w) ek en es h = inr (k, net, secret, ek, en, es)
    device-Ends t k net secret (panic, w) ek en es h = h

    secret-Ends :
        (k : K) (net : N) (s : Fallible K) (w : W)
        → calls.parse_key key ≡ value k
        → calls.parse_cidr ip ≡ value net
        → parse_preshared calls psk ≡ s
        → Ends configured (table w) (
            (returned calls s >>= λ secret.
            configure_device calls i (peers_only calls (peer_of k net secret)))
              w)
    secret-Ends k net (value secret) w ek en es =
        device-Ends (table w) k net secret _ ek en es
          (configure_device-Applied (peer_of k net secret) w)
    secret-Ends k net (error e) w ek en es = inl refl

    key-Ends :
        (net : N) (k : Fallible K) (w : W)
        → calls.parse_key key ≡ k
        → calls.parse_cidr ip ≡ value net
        → Ends configured (table w) (
            (returned calls k >>= λ key'. returned calls (parse_preshared calls psk) >>= λ secret.
            configure_device calls i (peers_only calls (peer_of key' net secret)))
              w)
    key-Ends net (value k) w ek en = secret-Ends k net (parse_preshared calls psk) w ek en refl
    key-Ends net (error e) w ek en = inl refl

    parsed-Ends :
        (net : Fallible N) (w : W)
        → calls.parse_cidr ip ≡ net
        → Ends configured (table w) (
            (returned calls net >>= λ net'. returned calls (calls.parse_key key) >>= λ key'.
            returned calls (parse_preshared calls psk) >>= λ secret.
            configure_device calls i (peers_only calls (peer_of key' net' secret)))
              w)
    parsed-Ends (value net) w en = key-Ends net (calls.parse_key key) w refl en
    parsed-Ends (error e) w en = inl refl

    configure_remote_node_peer-Ends :
        (w : W)
        → Ends configured (table w) (configure_remote_node_peer calls i key ip addr keep psk w)
    unfolding configure_remote_node_peer
    configure_remote_node_peer-Ends w = parsed-Ends (calls.parse_cidr ip) w refl

  module _ (tun ip key : String) where
    abbrev removed : K → PeerConfig K N
    removed k = record {
      public_key = k;
      remove = true;
      preshared_key = none;
      endpoint = none;
      persistent_keepalive_interval = none;
      replace_allowed_ips = false;
      allowed_ips = [];
    }

    removal-Ends :
        (t : Table calls i) (k : K) (r : Outcome (Unit {0}) × W)
        → calls.parse_key key ≡ value k
        → Applied calls i table (removed k) t r
        → Ends (remove_call tun ip key) t r
    removal-Ends t k (ok u, w) ek h = (k, ek, h)
    removal-Ends t k (err e, w) ek h = inr (k, ek)
    removal-Ends t k (panic, w) ek h = h

    removed-Ends :
        (k : Fallible K) (w : W)
        → calls.parse_key key ≡ k
        → Ends (remove_call tun ip key) (table w) (
            (returned calls k >>= λ k'. configure_device calls i (peers_only calls (removed k'))) w)
    removed-Ends (value k) w ek =
        removal-Ends (table w) k _ ek (configure_device-Applied (removed k) w)
    removed-Ends (error e) w ek = inl refl

    remove_remote_peer-Ends :
        (w : W) → Ends (remove_call tun ip key) (table w) (remove_remote_peer calls i tun ip key w)
    unfolding remove_remote_peer
    remove_remote_peer-Ends w = removed-Ends (calls.parse_key key) w refl

  pub run_call-Ends : (c : PeerCall) (w : W) → Ends c (table w) (run_call calls i c w)
  run_call-Ends (set_call key ip addr keep psk) w =
      configure_remote_node_peer-Ends key ip addr keep psk w
  run_call-Ends (remove_call tun ip key) w = remove_remote_peer-Ends tun ip key w

  -- Any sequence of ConfigureRemoteNodePeer and RemoveRemotePeer refines the abstract table of
  -- peers. A call that succeeds sets the entry of the one peer it names to exactly what it was given,
  -- or to none, whatever the entry was; another peer keeps its entry (its networks as a set), but
  -- for the network that was given, which it loses. A call whose texts cannot be read fails and changes nothing, and none panics.
  pub run_calls-Refines :
      (cs : List PeerCall) (w : W)
      → SpecifiedRun calls i cs
          (run_calls calls i cs w).0
          (table w)
          (table (run_calls calls i cs w).1)
  run_calls-Refines [] w = refl
  run_calls-Refines (c ∷ cs) w =
      let w' = (run_call calls i c w).1 in (table w', run_call-Ends c w, run_calls-Refines cs w')

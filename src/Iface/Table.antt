-- ===== src/Iface/Table.antt =====
-- iface/iface.go: the peers of the interface as a table, which the calls on it change.
use runetale.Common.{
  ℕ, String, ◌≡◌, ◌≢◌, ◌↔◌, ◌⊎◌, Option, none, some, List, [], ◌∷◌, ◌++◌, if◌then◌else◌, Outcome,
  ok, err, panic, Action, value,
}
use runetale.Iface.Defs.{
  PeerConfig, Iface, IfaceCalls, parse_preshared, peers_only, configure_remote_node_peer,
  remove_remote_peer,
}
use runetale.Proxy.Defs.{UdpAddr}

-- What WireGuard keeps of a peer.
pub record Entry (K N : Type 0) : Type 0 where
  pub allowed_ips : List N
  pub endpoint : Option UdpAddr
  pub preshared_key : Option K
  pub keepalive : Option ℕ

-- A pointer that is not nil replaces what was there.
abbrev pub or_old : {A : Type 0} → Option A → Option A → Option A
or_old none old = old
or_old (some a) old = some a

abbrev pub old_ips : {K N : Type 0} → Option (Entry K N) → List N
old_ips none = []
old_ips (some e) = e.allowed_ips

abbrev pub field_of : {A K N : Type 0} → (Entry K N → Option A) → Option (Entry K N) → Option A
field_of f none = none
field_of f (some e) = f e

-- What a PeerConfig makes of a peer, by the documentation of wgtypes.
abbrev pub apply_peer : {K N : Type 0} → PeerConfig K N → Option (Entry K N) → Option (Entry K N)
apply_peer p old =
    if p.remove
    then none
    else some (record {
      allowed_ips = if p.replace_allowed_ips then p.allowed_ips else old_ips old ++ p.allowed_ips;
      endpoint = or_old p.endpoint (field_of (λ e. e.endpoint) old);
      preshared_key = or_old p.preshared_key (field_of (λ e. e.preshared_key) old);
      keepalive = or_old p.persistent_keepalive_interval (field_of (λ e. e.keepalive) old);
    })

-- A peer that is set or removed through the interface.
pub data PeerCall : Type 0 where
  set_call : String → String → UdpAddr → ℕ → String → PeerCall
  remove_call : String → String → String → PeerCall

-- The table `t'` has `new` at the key, and is `t` elsewhere.
abbrev pub Sets :
    {K N : Type 0}
    → K
    → Option (Entry K N)
    → (K → Option (Entry K N))
    → (K → Option (Entry K N))
    → Type 0
Sets key new t t' = (t' key ≡ new) × ((k : _) → k ≢ key → t' k ≡ t k)

-- Whether a network is among those of a list.
abbrev pub In : {N : Type 0} → N → List N → Type 0
In n [] = ⊥
In n (m ∷ ms) = (m ≡ n) ⊎ In n ms

-- A peer that has lost the networks that another peer got, and nothing else.
pub record HasLost {K N : Type 0} (nets : List N) (old new : Entry K N) : Type 0 where
  pub same_endpoint : new.endpoint ≡ old.endpoint
  pub same_preshared : new.preshared_key ≡ old.preshared_key
  pub same_keepalive : new.keepalive ≡ old.keepalive
  pub lost : (n : N) → In n nets → ¬ In n new.allowed_ips
  pub left : (n : N) → ¬ In n nets → In n new.allowed_ips ↔ In n old.allowed_ips

-- What becomes of the entry of another peer: WireGuard gives a network to one peer at a time.
abbrev pub Yields : {K N : Type 0} → List N → Option (Entry K N) → Option (Entry K N) → Type 0
Yields [] old new = new ≡ old
Yields (n ∷ ns) none new = new ≡ none
Yields {K} {N} (n ∷ ns) (some old) o = (new : Entry K N) × (o ≡ some new) × HasLost (n ∷ ns) old new

-- The table `t'` has `new` at the key, and its networks are taken from the other peers.
abbrev pub Gives :
    {K N : Type 0}
    → K
    → List N
    → Option (Entry K N)
    → (K → Option (Entry K N))
    → (K → Option (Entry K N))
    → Type 0
Gives key nets new t t' = (t' key ≡ new) × ((k : _) → k ≢ key → Yields nets (t k) (t' k))

module _ {K N D T W : Type 0} (calls : IfaceCalls K N D T W) (i : Iface) where
  abbrev pub Table : Type 0
  Table = K → Option (Entry K N)

  -- The texts of a call can be read.
  abbrev pub Readable : PeerCall → Type 0
  Readable (set_call key ip addr keep psk) =
      (k : K) × (net : N) × (secret : K) × (calls.parse_key key ≡ value k)
      × (calls.parse_cidr ip ≡ value net)
      × (parse_preshared calls psk ≡ value secret)
  Readable (remove_call tun ip key) = (k : K) × (calls.parse_key key ≡ value k)

  -- The abstract calls: one that succeeds sets the entry of its peer; one that fails changes nothing
  -- where its texts cannot be read, and says nothing about the table where they can.
  abbrev pub Specified : PeerCall → Outcome (Unit {0}) → Table → Table → Type 0
  Specified (set_call key ip addr keep psk) (ok _) t t' =
      (k : K) × (net : N) × (secret : K) × (calls.parse_key key ≡ value k)
      × (calls.parse_cidr ip ≡ value net)
      × (parse_preshared calls psk ≡ value secret)
      × Gives k (net ∷ [])
          (some (record {
            allowed_ips = net ∷ [];
            endpoint = some addr;
            preshared_key = some secret;
            keepalive = some keep;
          }))
          t t'
  Specified (remove_call tun ip key) (ok _) t t' =
      (k : K) × (calls.parse_key key ≡ value k) × Sets k none t t'
  Specified call (err e) t t' = (t' ≡ t) ⊎ Readable call
  Specified call panic t t' = ⊥

  abbrev pub SpecifiedRun : List PeerCall → List (Outcome (Unit {0})) → Table → Table → Type 0
  SpecifiedRun [] [] t t' = t' ≡ t
  SpecifiedRun (c ∷ cs) (r ∷ rs) t t' = (t₁ : Table) × Specified c r t t₁ × SpecifiedRun cs rs t₁ t'
  SpecifiedRun cs rs t t' = ⊥

  -- The calls of the code.
  abbrev pub run_call : PeerCall → Action W (Unit {0})
  run_call (set_call key ip addr keep psk) = configure_remote_node_peer calls i key ip addr keep psk
  run_call (remove_call tun ip key) = remove_remote_peer calls i tun ip key

  abbrev pub run_calls : List PeerCall → W → List (Outcome (Unit {0})) × W
  run_calls [] w = ([], w)
  run_calls (c ∷ cs) w =
      let (r, w') = run_call c w in let (rs, w'') = run_calls cs w' in (r ∷ rs, w'')

  module _ (table : W → Table) where
    -- A configuration of one peer that succeeds applies it.
    abbrev pub Applied : PeerConfig K N → Table → Outcome (Unit {0}) × W → Type 0
    Applied peer t (ok _, w) =
        Gives peer.public_key peer.allowed_ips (apply_peer peer (t peer.public_key)) t (table w)
    Applied peer t (err e, w) = Unit
    Applied peer t (panic, w) = ⊥

    -- A call that does not panic and leaves the table.
    abbrev pub Leaves : {A : Type 0} → Table → Outcome A × W → Type 0
    Leaves t (ok a, w) = table w ≡ t
    Leaves t (err e, w) = table w ≡ t
    Leaves t (panic, w) = ⊥

    -- What wgctrl does to the peers of this interface; a failed ConfigureDevice may have done anything.
    pub record Tables : Type 0 where
      pub news : (w : W) → Leaves (table w) (calls.new_client w)
      pub closes : (d : D) (w : W) → table (calls.close_client d w) ≡ table w
      pub devices : (d : D) (w : W) → Leaves (table w) (calls.device d i.tun w)
      pub configures :
          (d : D) (peer : PeerConfig K N) (w : W)
          → Applied peer (table w) (calls.configure d i.tun (peers_only calls peer) w)

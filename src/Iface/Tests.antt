-- ===== src/Iface/Tests.antt =====
-- iface: a device that counts its clients and keeps its peers.
use runetale.Common.{
  ℕ, suc, ◌-◌, String, ◌≡◌, refl, ap, ◌∙◌, ◌≢◌, ◌↔◌, ◌⊎◌, inl, inr, Bool, true, false, not, ◌||◌,
  Option, none, some, List, [], ◌∷◌, arith, str_eq, eq_iff, ◌==◌, if◌then◌else◌, contains, external,
  ok, err, value, error,
}
use runetale.Proxy.Defs.{UdpAddr}
use runetale.Iface.Linux
use runetale.Iface.Darwin
use runetale.Iface.Opened.{Balanced, Counts}
use runetale.Iface.Closed.{clients-Balanced}
use runetale.Iface.Defs.{
  PeerConfig, Iface, IfaceCalls, configure_remote_node_peer, remove_remote_peer,
}
use runetale.Iface.Table.{
  Entry, apply_peer, PeerCall, set_call, In, Yields, SpecifiedRun, run_calls, Tables,
}
use runetale.Iface.Refined.{run_calls-Refines}

abbrev pub Peers : Type 0
Peers = ℕ → Option (Entry ℕ String)

-- The networks of a list that are not among those taken.
abbrev without : List String → List String → List String
without nets [] = []
without nets (m ∷ ms) = let rest = without nets ms in if contains nets m then rest else m ∷ rest

abbrev strip : List String → Option (Entry ℕ String) → Option (Entry ℕ String)
strip [] o = o
strip (n ∷ ns) none = none
strip (n ∷ ns) (some e) = some (record e { allowed_ips = without (n ∷ ns) e.allowed_ips })

-- A peer gets its networks from the others.
abbrev with_peers : List (PeerConfig ℕ String) → Peers → Peers
with_peers [] t = t
with_peers (p ∷ ps) t =
    with_peers ps (λ k. if k == p.public_key then apply_peer p (t k) else strip p.allowed_ips (t k))

in_or : (b c : Bool) → (b || c) ≡ true → (b ≡ true) ⊎ (c ≡ true)
in_or true c h = inl refl
in_or false c h = inr h

contains-In : (nets : List String) (n : String) → contains nets n ≡ true → In n nets
unfolding contains
contains-In [] n h = absurd (ground (arith, h))
contains-In (m ∷ ms) n h = elim (in_or (str_eq m n) (contains ms n) h) [
  | inl e ↦ inl ((eq_iff m n).0 e)
  | inr r ↦ inr (contains-In ms n r)
]

In-contains : (nets : List String) (n : String) → In n nets → contains nets n ≡ true
unfolding contains
In-contains [] n h = absurd h
In-contains (m ∷ ms) n (inl e) = ground (arith, (eq_iff m n).1 e)
In-contains (m ∷ ms) n (inr h) = ground (arith, In-contains ms n h)

absent : (nets : List String) (n : String) → ¬ In n nets → contains nets n ≡ false
absent nets n ne = elim (in_or (contains nets n) (not (contains nets n)) (ground arith)) [
  | inl e ↦ absurd (ne (contains-In nets n e))
  | inr e ↦ ground (arith, e)
]

first_or_rest :
    (b : Bool) (m n : String) (rest : List String)
    → In n (if b then rest else m ∷ rest) ↔ ((b ≡ false) × (m ≡ n)) ⊎ In n rest
first_or_rest true m n rest =
    (inr, λ x. elim x [ inl (h, e) ↦ absurd (ground (arith, h)) | inr r ↦ r ])
first_or_rest false m n rest = (
  λ x. elim x [ inl e ↦ inl (refl, e) | inr r ↦ inr r ],
  λ x. elim x [ inl (h, e) ↦ inl e | inr r ↦ inr r ],
)

without-lost : (nets ips : List String) (n : String) → In n nets → ¬ In n (without nets ips)
without-lost nets [] n h x = x
without-lost nets (m ∷ ms) n h x =
    elim ((first_or_rest (contains nets m) m n (without nets ms)).0 x) [
      | inl (b, e) ↦ absurd (ground (arith, b, ap (contains nets) e, In-contains nets n h))
      | inr r ↦ without-lost nets ms n h r
    ]

without-left :
    (nets ips : List String) (n : String) → ¬ In n nets → In n (without nets ips) ↔ In n ips
without-left nets [] n ne = (λ x. x, λ x. x)
without-left nets (m ∷ ms) n ne =
    let split = first_or_rest (contains nets m) m n (without nets ms) in
    (
      λ x. elim (split.0 x) [ inl (b, e) ↦ inl e | inr r ↦ inr ((without-left nets ms n ne).0 r) ],
      λ x. elim x [
        | inl e ↦ split.1 (inl (ap (contains nets) e ∙ absent nets n ne, e))
        | inr r ↦ split.1 (inr ((without-left nets ms n ne).1 r))
      ],
    )

strip-Yields : (nets : List String) (o : Option (Entry ℕ String)) → Yields nets o (strip nets o)
strip-Yields [] o = refl
strip-Yields (n ∷ ns) none = refl
strip-Yields (n ∷ ns) (some e) = (
  record e { allowed_ips = without (n ∷ ns) e.allowed_ips },
  refl,
  record {
    same_endpoint = refl;
    same_preshared = refl;
    same_keepalive = refl;
    lost = without-lost (n ∷ ns) e.allowed_ips;
    left = without-left (n ∷ ns) e.allowed_ips;
  },
)

abbrev pub device_calls : IfaceCalls ℕ String ℕ ℕ (ℕ × Peers)
device_calls = record {
  parse_cidr = λ s. if str_eq s "10.0.0.2/32" then value s else error (external 1);
  network_string = λ s. s;
  parse_key = λ s. if str_eq s "key" then value 7 else error (external 2);
  zero_key = 0;
  fields = λ s. s ∷ [];
  before_slash = λ s. s;
  output = λ p args w. (ok tt, w);
  combined_output = λ p args w. (ok tt, w);
  look_path = λ p w. (ok "/sbin/ip", w);
  is_nix_os = λ w. false;
  new_client = λ (n, t). (ok 0, (suc n, t));
  close_client = λ d (n, t). (n - 1, t);
  device = λ d n w. (ok tt, w);
  configure = λ d name c (n, t). (ok tt, (n, with_peers c.peers t));
  create_tun = λ n mtu w. (ok 0, w);
  up = λ t w. (ok tt, w);
  uapi_open = λ n w. (ok tt, w);
  uapi_listen = λ n w. (ok tt, w);
}

abbrev pub rt : Iface
rt = record { tun = "rt0"; wg_private_key = "key"; ip = "10.0.0.1"; cidr = "24" }

abbrev remote : UdpAddr
remote = record { ip = "192.0.2.1"; port = 51820 }

abbrev open_clients : ℕ × Peers → ℕ
open_clients w = w.0

counts : Counts device_calls open_clients
counts = record {
  news = λ w. refl;
  closes = λ d w h. omega arith;
  outputs = λ p args w. refl;
  combined_outputs = λ p args w. refl;
  looks = λ p w. refl;
  devices = λ d n w. refl;
  configures = λ d n c w. refl;
  creates = λ n mtu w. refl;
  ups = λ t w. refl;
  opens_uapi = λ n w. refl;
  listens_uapi = λ n w. refl;
}

at_peer :
    (p : PeerConfig ℕ String) (t : Peers)
    → with_peers (p ∷ []) t p.public_key ≡ apply_peer p (t p.public_key)
at_peer p t = ground arith

other_peer :
    (b : Bool) (p : PeerConfig ℕ String) (o : Option (Entry ℕ String))
    → b ≡ false
    → Yields p.allowed_ips o (if b then apply_peer p o else strip p.allowed_ips o)
other_peer true p o h = absurd (ground (arith, h))
other_peer false p o h = strip-Yields p.allowed_ips o

at_other :
    (p : PeerConfig ℕ String) (t : Peers) (k : ℕ)
    → k ≢ p.public_key
    → Yields p.allowed_ips (t k) (with_peers (p ∷ []) t k)
at_other p t k ne = other_peer (k == p.public_key) p (t k) (ground (arith, ne))

pub tables : Tables device_calls rt (λ w. w.1)
tables = record {
  news = λ w. refl;
  closes = λ d w. refl;
  devices = λ d w. refl;
  configures = λ d peer w. (at_peer peer w.1, λ k ne. at_other peer w.1 k ne);
}

abbrev calls : List PeerCall
calls =
    set_call "key" "10.0.0.2/32" remote 25 "" ∷ set_call "key" "10.0.0.2,10.0.0.3" remote 25 "" ∷ []

-- Another peer has the network that the first call gives.
abbrev held : Peers
held k =
    if k == 9
    then some (record {
      allowed_ips = "10.0.0.2/32" ∷ [];
      endpoint = some remote;
      preshared_key = none;
      keepalive = none;
    })
    else none

run_calls-Refines_example :
    SpecifiedRun device_calls rt calls
      (run_calls device_calls rt calls (0, held)).0
      held
      (run_calls device_calls rt calls (0, held)).1.1
run_calls-Refines_example = run_calls-Refines device_calls rt (λ w. w.1) tables calls (0, held)

clients-Balanced_example :
    Balanced device_calls open_clients (Linux.create_iface device_calls rt)
    × Balanced device_calls open_clients (Darwin.create_iface device_calls rt)
    × ((key ip : String) (addr : UdpAddr) (keep : ℕ) (psk : String)
        → Balanced device_calls open_clients
            (configure_remote_node_peer device_calls rt key ip addr keep psk))
    × ((tun ip key : String)
        → Balanced device_calls open_clients (remove_remote_peer device_calls rt tun ip key))
clients-Balanced_example = clients-Balanced device_calls open_clients counts rt

-- The joined text of two networks is no network, so a peer with two cannot be configured.
joined_networks :
    configure_remote_node_peer device_calls rt "key" "10.0.0.2/32,10.0.0.3/32" remote 25 ""
      (0, λ k. none)
    ≡ (err (external 1), (0, λ k. none))
unfolding configure_remote_node_peer
joined_networks = refl

-- ===== src/Session/Prepared.antt =====
-- rcn/webrtc/ice.go: what a successful Setup leaves, and the filter of interfaces.
use runetale.Common.{
  String, ◌≡◌, refl, false, not, Option, none, some, List, [], ◌∷◌, arith, if◌then◌else◌, length,
  Dict, contains, lookup, insert, lookup-insert, Outcome, ok, err, panic, Action, concat, bound,
}
use runetale.Status.Defs.{ConnectState}
use runetale.ControlPlane.Peer.{Ice}
use runetale.Session.Defs.{Kinds, SigExecuter, Session, IceCalls, State, outside, deref}
use runetale.Session.Setup.{
  get_stun_turns_url, black_list_map, get_black_list_with_interface_filter, new_sig_executer, kept,
  setup_sockets, setup_agent, setup_proxy, setup,
}
use runetale.Proxy.Defs.{new_wire_proxy}

lookup-black_list_map :
    (l : List String) (d : Dict (Unit {0})) (k : String)
    → lookup k (black_list_map l d) ≡ (if contains l k then some tt else lookup k d)
unfolding black_list_map contains
lookup-black_list_map [] d k = refl
lookup-black_list_map (s ∷ l) d k =
    ground (arith, lookup-black_list_map l (insert s tt d) k, lookup-insert s k tt d)

empty_lem : (d : Dict (Unit {0})) (k : String) → length d ≡ 0 → lookup k d ≡ none
unfolding lookup
empty_lem [] k e = refl
empty_lem (x ∷ d) k e = absurd (omega arith)

-- The filter lets an interface pass exactly if its name is not in the black list, whether the list
-- is empty or not.
pub get_black_list_with_interface_filter_lem :
    (l : List String) (i_face : String)
    → get_black_list_with_interface_filter l i_face ≡ not (contains l i_face)
unfolding get_black_list_with_interface_filter lookup
get_black_list_with_interface_filter_lem l i_face =
    ground (arith, lookup-black_list_map l [] i_face, empty_lem (black_list_map l []) i_face)

-- What holds if a call has succeeded.
abbrev pub Post : {A S : Type 0} → (A → S → Type 0) → Outcome A × S → Type 0
Post Q (ok a, s) = Q a s
Post Q (err e, s) = Unit
Post Q (panic, s) = Unit

pub bound-Post :
    {A B S : Type 0} (P : A → S → Type 0) (Q : B → S → Type 0) (f : A → Action S B)
    (out : Outcome A × S)
    → Post P out
    → ((a : A) (s : S) → P a s → Post Q (f a s))
    → Post Q (bound f out)
bound-Post P Q f (ok a, s) p h = h a s p
bound-Post P Q f (err e, s) p h = tt
bound-Post P Q f (panic, s) p h = tt

pub Post-ok :
    {S : Type 0} (Q : Unit {0} → S → Type 0) (out : Outcome (Unit {0}) × S)
    → Post Q out
    → out.0 ≡ ok tt
    → Q tt out.1
Post-ok Q (ok _, s) h e = h
Post-ok Q (err x, s) h e = cc
Post-ok Q (panic, s) h e = cc

module _ {t : Kinds} where
  pub outside-Post :
      {A B : Type 0} (Q : B → State t → Type 0) (f : A → Action (State t) B) (s : Session t)
      (cs : ConnectState) (out : Outcome A × t.W)
      → ((a : A) (w : t.W) → Post Q (f a (s, cs, w)))
      → Post Q (bound f (out.0, (s, cs, out.1)))
  outside-Post Q f s cs (ok a, w) h = h a w
  outside-Post Q f s cs (err e, w) h = tt
  outside-Post Q f s cs (panic, w) h = tt

  pub deref-Post :
      {A B : Type 0} (Q : B → State t → Type 0) (f : A → Action (State t) B) (s : State t)
      (o : Option A)
      → ((a : A) → o ≡ some a → Post Q (f a s))
      → Post Q (bound f (deref o s))
  deref-Post Q f s none h = tt
  deref-Post Q f s (some a) h = h a refl

module _ {t : Kinds} (calls : IceCalls t) (i : Ice t.U) where
  -- Everything that the other methods use is there.
  pub record IsPrepared (s : Session t) : Type 0 where
    pub has_agent : (a : t.Agent) × (s.agent ≡ some a)
    pub has_mux : (m : t.Mux) × (s.udp_mux ≡ some m)
    pub has_mux_srflx : (m : t.Mux) × (s.udp_mux_srflx ≡ some m)
    pub has_sigexec : s.sigexec ≡ some (record { dstmk = i.remote_node_key; srcmk = i.nk })
    pub has_proxy :
        s.wireproxy
        ≡ some (record {
          remote_wg_pub_key = i.remote_wg_pub_key;
          remote_ip = i.remote_ip;
          wg_iface = i.wg_iface;
          listen_addr = concat "127.0.0.1:" (calls.decimal i.wg_port);
          pre_shared_key = i.pre_shared_key;
          remote_conn = none;
          local_conn = none;
          cancelled = false;
          mons = [];
        })

  -- After the sockets are set up.
  abbrev HasMuxes : t.Mux × t.Mux → State t → Type 0
  HasMuxes (m, n) (s, cs, w) =
      (s.udp_mux ≡ some m)
      × (s.udp_mux_srflx ≡ some n)
      × (s.sigexec ≡ some (record { dstmk = i.remote_node_key; srcmk = i.nk }))

  setup_sockets-Post :
      (s : Session t) (cs : ConnectState) (w : t.W)
      → s.sigexec ≡ some (record { dstmk = i.remote_node_key; srcmk = i.nk })
      → Post HasMuxes (setup_sockets calls i (s, cs, w))
  unfolding setup_sockets
  setup_sockets-Post s cs w e = outside-Post HasMuxes _ _ cs (kept (calls.listen_udp w)) λ c w₁.
      outside-Post HasMuxes _ _ cs (kept (calls.listen_udp w₁)) λ d w₂.
        outside-Post HasMuxes _ _ cs (calls.new_mux c w₂)
          λ m w₃. outside-Post HasMuxes _ _ cs (calls.new_mux_srflx d w₃) λ n w₄. (refl, refl, e)

  abbrev HasAgent : Unit {0} → State t → Type 0
  HasAgent _ (s, cs, w) =
      ((a : t.Agent) × (s.agent ≡ some a))
      × ((m : t.Mux) × (s.udp_mux ≡ some m))
      × ((m : t.Mux) × (s.udp_mux_srflx ≡ some m))
      × (s.sigexec ≡ some (record { dstmk = i.remote_node_key; srcmk = i.nk }))

  setup_agent-Post :
      (muxes : t.Mux × t.Mux) (sig : SigExecuter) (st : State t)
      → HasMuxes muxes st
      → Post HasAgent (setup_agent calls i sig muxes st)
  unfolding setup_agent
  setup_agent-Post (m, n) sig (s, cs, w) (e, f, g) = deref-Post HasAgent _ _ i.stun_turn λ conf is.
      outside-Post HasAgent _ _ cs
        (calls.new_agent (get_stun_turns_url conf)
          (get_black_list_with_interface_filter i.black_list) m n w)
        λ a w₁. outside-Post HasAgent _ _ cs (calls.on_candidate a sig w₁) λ _ w₂.
          outside-Post HasAgent _ _ cs (calls.on_connection_state_change a w₂) λ _ w₃. last a w₃
    where
      last :
          (a : t.Agent) (w₃ : t.W)
          → Post HasAgent (
              outside
                (calls.on_selected_candidate_pair_change a)
                (record s { agent = some a }, cs, w₃))
      last a w₃ = ended (calls.on_selected_candidate_pair_change a w₃)
        where
          ended :
              (out : Outcome (Unit {0}) × t.W)
              → Post HasAgent (out.0, (record s { agent = some a }, cs, out.1))
          ended (ok _, w) = ((a, refl), (m, e), (n, f), g)
          ended (err x, w) = tt
          ended (panic, w) = tt

  abbrev Prepared : Unit {0} → State t → Type 0
  Prepared _ st = IsPrepared st.0

  setup-Post :
      (s : Session t) (cs : ConnectState) (w : t.W) → Post Prepared (setup calls i (s, cs, w))
  unfolding setup new_sig_executer setup_proxy new_wire_proxy
  setup-Post s cs w =
      let sig = let r : SigExecuter = record { dstmk = i.remote_node_key; srcmk = i.nk } in r in
      let s₁ = let r : Session t = record s { sigexec = some sig } in r in
      bound-Post HasMuxes Prepared _ (setup_sockets calls i (s₁, cs, w))
        (setup_sockets-Post s₁ cs w refl)
        λ muxes st has.
          bound-Post HasAgent Prepared _ (setup_agent calls i sig muxes st)
            (setup_agent-Post muxes sig st has)
            λ _ st' (agent, mux, srflx, exec). record {
              has_agent = agent;
              has_mux = mux;
              has_mux_srflx = srflx;
              has_sigexec = exec;
              has_proxy = refl;
            }

  -- If Setup succeeds then the agent and both multiplexers are set, messages will be sent to the
  -- peer's node key from the node's own, and there is a proxy that has not been started, with the
  -- peer's WireGuard key, address and preshared key, on the node's interface and port.
  pub setup-IsPrepared :
      (s : Session t) (cs : ConnectState) (w : t.W)
      → (setup calls i (s, cs, w)).0 ≡ ok tt
      → IsPrepared (setup calls i (s, cs, w)).1.0
  setup-IsPrepared s cs w e = Post-ok Prepared (setup calls i (s, cs, w)) (setup-Post s cs w) e

-- ===== src/ControlPlane/Reached.antt =====
-- rcn/controlplane/control_plane.go: the peers after any sequence of calls of the control plane.
use mathlib.Core.Path.{subst}
use runetale.Common.{
  ℕ, String, ◌≡◌, refl, sym, ◌∙◌, ◌⊎◌, inl, inr, Option, none, some, List, [], ◌∷◌, arith, str_eq,
  eq_iff, Bool-cases, Option-cases, All, lookup, insert, lookup-insert, Error, Fallible, value,
  error, Fallible-cases,
}
use runetale.Common.Int.{ℤ}
use runetale.Backoff.Policy.{BackOff, BackOffTries, back_off_tries}
use runetale.Backoff.Kept.{Keeps, Kept, do_retry_notify-Kept, tries-Keeps}
use runetale.Backoff.Exponential.{
  Float64, Sources, ExponentialBackOff, get_elapsed_time, exponential_next_back_off,
  exponential_reset, exponential_back_off, new_exponential_back_off,
}
use runetale.ControlPlane.Peer.{Node, StunTurnConfig, Ice, IceMethods}
use runetale.ControlPlane.Defs.{
  PeerSpec, NegotiationRequest, Libraries, ControlPlane, new_control_plane, Shared,
  configure_stun_turn_conf, new_ice, handle_request, wait_for_remote_conn_round, close,
}
use runetale.ControlPlane.Sync.{sync_remote_peer_config}
use runetale.ControlPlane.Offer.{
  SyncNodesResponse, Fate, came_back, crashed, unfinished, add_peer, after_send, offer_nodes,
  offer_response, offer_operation, offer_surroundings, initial_offer_to_remote_peer,
}
use runetale.ControlPlane.Within.{
  Within, sync-Within, wait-Within, handle_request-Within, configure-Within, close-Within,
}
use runetale.Backoff.Retry.{Surroundings}

module _ {U C W : Type 0} (lib : Libraries U C W) (methods : IceMethods U C W) (spec : PeerSpec)
    (nk : String) (sync : W → Fallible SyncNodesResponse × W) where
  abbrev pub Named : Node → List Node → Type 0
  Named rp [] = ⊥
  Named rp (p ∷ ps) = (p ≡ rp) ⊎ Named rp ps

  -- NewIce has made the peer of a node that the server named, with the address of that answer.
  pub record Made (i : Ice U) : Type 0 where
    pub asked : W
    pub answer_given : SyncNodesResponse
    pub nodes_given : List Node
    pub node : Node
    pub servers : Option (StunTurnConfig U)
    pub is_answer : (sync asked).0 ≡ value answer_given
    pub are_nodes : answer_given.remote_nodes ≡ some nodes_given
    pub is_named : Named node nodes_given
    pub is_made :
        new_ice lib methods spec nk servers node answer_given.ip answer_given.cidr ≡ value i

  abbrev pub Entry : String → Option (Ice U) → Type 0
  Entry k none = ⊥
  Entry k (some i) = (i.remote_node_key ≡ k) × Made i

  pub record IsKeyed (c : ControlPlane U) : Type 0 where
    pub entries : (k : String) (o : Option (Ice U)) → lookup k c.peer_conns ≡ some o → Entry k o
    pub handed_made : All Made c.handed

  new_control_plane-IsKeyed : IsKeyed new_control_plane
  unfolding new_control_plane lookup
  new_control_plane-IsKeyed = record { entries = λ k o e. absurd (ground arith); handed_made = tt }

  new_ice-key :
      (stconf : Option (StunTurnConfig U)) (rp : Node) (ip cidr : String) (i : Ice U)
      → new_ice lib methods spec nk stconf rp ip cidr ≡ value i
      → i.remote_node_key ≡ rp.remote_node_key
  unfolding new_ice
  new_ice-key stconf rp ip cidr i e = ground arith

  inserted-Entry :
      (k : String) (i : Ice U) (c : ControlPlane U)
      → i.remote_node_key ≡ k
      → Made i
      → IsKeyed c
      → (j : String) (o : Option (Ice U)) → lookup j (insert k (some i) c.peer_conns) ≡ some o
      → Entry j o
  inserted-Entry k i c e m h j o found = elim (Bool-cases (str_eq k j)) [
    | inl same ↦
        let is : some i ≡ o =
          ground (arith, lookup-insert k j (some i) c.peer_conns, found, same) in
        subst (Entry j) is (e ∙ (eq_iff k j).0 same, m)
    | inr differ ↦
        h.entries j o (ground (arith, lookup-insert k j (some i) c.peer_conns, found, differ))
  ]

  add_peer-IsKeyed :
      (k : String) (i : Ice U) (c : ControlPlane U)
      → i.remote_node_key ≡ k
      → Made i
      → IsKeyed c
      → IsKeyed (add_peer lib methods k i c).1
  unfolding add_peer
  add_peer-IsKeyed k i c e m h = elim (Bool-cases (lib.receives (i ∷ c.handed))) [
    | inl taken ↦
        rw taken (record { entries = inserted-Entry k i c e m h; handed_made = (m, h.handed_made) })
    | inr waits ↦
        rw waits (record { entries = inserted-Entry k i c e m h; handed_made = h.handed_made })
  ]

  after_send-IsKeyed :
      (rest : ControlPlane U → (Fate × Option Error) × ControlPlane U) (r : Fate × ControlPlane U)
      → IsKeyed r.1
      → ((c : ControlPlane U) → IsKeyed c → IsKeyed (rest c).1)
      → IsKeyed (after_send lib methods rest r).1
  unfolding after_send
  after_send-IsKeyed rest (came_back, c) h k = k c h
  after_send-IsKeyed rest (crashed, c) h k = h
  after_send-IsKeyed rest (unfinished, c) h k = h

  module _ (asked : W) (res : SyncNodesResponse) (nodes : List Node)
      (is_answer : (sync asked).0 ≡ value res) (are_nodes : res.remote_nodes ≡ some nodes) where
    offer_nodes-IsKeyed :
        (rps : List Node) (c : ControlPlane U)
        → ((rp : Node) → Named rp rps → Named rp nodes)
        → IsKeyed c
        → IsKeyed (offer_nodes lib methods spec nk rps res.ip res.cidr c).1
    unfolding offer_nodes
    offer_nodes-IsKeyed [] c all h = h
    offer_nodes-IsKeyed (rp ∷ rps) c all h =
        elim (Fallible-cases (new_ice lib methods spec nk c.stconf rp res.ip res.cidr)) [
          | inr (e, bad) ↦ rw (bad, offer_nodes) h
          | inl (i, good) ↦
              let made : Made i = record {
                asked = asked;
                answer_given = res;
                nodes_given = nodes;
                node = rp;
                servers = c.stconf;
                is_answer = is_answer;
                are_nodes = are_nodes;
                is_named = all rp (inl refl);
                is_made = good;
              } in
              rw (good, offer_nodes)
                (after_send-IsKeyed _ (add_peer lib methods rp.remote_node_key i c)
                  (add_peer-IsKeyed rp.remote_node_key i c
                    (new_ice-key c.stconf rp res.ip res.cidr i good) made h)
                  λ c'. offer_nodes-IsKeyed rps c' (λ p n. all p (inr n)))
        ]

  offer_response-IsKeyed :
      (asked : W) (r : Fallible SyncNodesResponse) (c : ControlPlane U)
      → (sync asked).0 ≡ r
      → IsKeyed c
      → IsKeyed (offer_response lib methods spec nk r c).1
  unfolding offer_response
  offer_response-IsKeyed asked (error e) c is h = h
  offer_response-IsKeyed asked (value res) c is h = elim (Option-cases res.remote_nodes) [
    | inl gone ↦ rw (gone, offer_response) h
    | inr (nodes, are) ↦
        rw (are, offer_response) (offer_nodes-IsKeyed asked res nodes is are nodes c (λ p n. n) h)
  ]

  Within-IsKeyed : (c c' : ControlPlane U) → Within lib methods c c' → IsKeyed c → IsKeyed c'
  Within-IsKeyed c c' v h = record {
    entries = λ k o e. h.entries k o (v.found_before k o e);
    handed_made = subst (All Made) (sym v.handed_same) h.handed_made;
  }

  module _ (fl : Float64) (src : Sources fl (Shared lib methods)) (wait : ℤ → W → W)
      (halt : W → W) where
    -- The states after any sequence of calls, whatever each of them returns.
    pub data Reach : Shared lib methods → Type 0 where
      started : (w : W) → Reach (new_control_plane, w)
      stun_configured :
          {s : Shared lib methods} → Reach s → Reach (configure_stun_turn_conf lib methods s).1
      offered :
          (fuel : ℕ) {s s' : Shared lib methods} {r : Fate × Option Error}
          {b : BackOffTries (ExponentialBackOff fl)}
          → Reach s
          → initial_offer_to_remote_peer lib methods spec nk sync fl src wait halt fuel s
            ≡ some (r, b, s')
          → Reach s'
      synced :
          (nodes : List Node) {s : Shared lib methods}
          → Reach s
          → Reach (sync_remote_peer_config lib methods nodes s).1
      received :
          (m : NegotiationRequest) {s : Shared lib methods}
          → Reach s
          → Reach (handle_request lib methods m s).1
      waited :
          (i : Ice U) {s : Shared lib methods}
          → Reach s
          → Reach (wait_for_remote_conn_round lib methods i s).1
      closed : {s : Shared lib methods} → Reach s → Reach (close lib methods s).1

    module _ (now_keeps : (s : Shared lib methods) → (src.now s).1.0 ≡ s.0)
        (random_keeps : (s : Shared lib methods) → (src.random s).1.0 ≡ s.0) where
      abbrev env : Surroundings Fate (Shared lib methods)
      env = offer_surroundings lib methods spec nk sync fl src wait halt

      abbrev policy : BackOff (Shared lib methods)
      policy = exponential_back_off fl src

      offer-Keeps : Keeps env policy (λ s. IsKeyed s.0)
      unfolding offer_operation exponential_next_back_off exponential_reset get_elapsed_time
      offer-Keeps = record {
        operation_keeps = λ (c, w) h. offer_response-IsKeyed w (sync w).0 c refl h;
        next_keeps = λ b s h. subst IsKeyed (sym (random_keeps (src.now s).1 ∙ now_keeps s)) h;
        reset_keeps = λ b s h. subst IsKeyed (sym (now_keeps s)) h;
        notify_keeps = λ e d s h. h;
        start_keeps = λ d (c, w) h. h;
        stop_keeps = λ (c, w) h. h;
        fired_keeps = λ s h. h;
      }

      offered-IsKeyed :
          (fuel : ℕ) (s : Shared lib methods)
          → IsKeyed s.0
          → Kept env
              (back_off_tries policy)
              (λ s. IsKeyed s.0)
              (initial_offer_to_remote_peer lib methods spec nk sync fl src wait halt fuel s)
      unfolding initial_offer_to_remote_peer new_exponential_back_off exponential_reset
      offered-IsKeyed fuel s h =
          do_retry_notify-Kept env (back_off_tries policy) (λ s. IsKeyed s.0)
            (tries-Keeps env policy (λ s. IsKeyed s.0) offer-Keeps) fuel _ _
            (subst IsKeyed (sym (now_keeps s)) h)

      -- In every state that the calls of the control plane reach, no entry of the map is nil, each peer
      -- stands under its own node key, and each peer of the map, and each that was handed over, is one
      -- that NewIce made of a node that the server named. The sources of time and randomness leave the
      -- control plane alone.
      pub Reach-IsKeyed : {s : Shared lib methods} → Reach s → IsKeyed s.0
      Reach-IsKeyed (started w) = new_control_plane-IsKeyed
      Reach-IsKeyed (stun_configured {s} r) =
          Within-IsKeyed s.0 _ (configure-Within lib methods s) (Reach-IsKeyed r)
      Reach-IsKeyed (offered fuel {s} r e) =
          subst (Kept env (back_off_tries policy) (λ s. IsKeyed s.0)) e
            (offered-IsKeyed fuel s (Reach-IsKeyed r))
      Reach-IsKeyed (synced nodes {s} r) =
          Within-IsKeyed s.0 _ (sync-Within lib methods nodes s) (Reach-IsKeyed r)
      Reach-IsKeyed (received m {s} r) =
          Within-IsKeyed s.0 _ (handle_request-Within lib methods m s) (Reach-IsKeyed r)
      Reach-IsKeyed (waited i {s} r) =
          Within-IsKeyed s.0 _ (wait-Within lib methods i s) (Reach-IsKeyed r)
      Reach-IsKeyed (closed {s} r) =
          Within-IsKeyed s.0 _ (close-Within lib methods s) (Reach-IsKeyed r)

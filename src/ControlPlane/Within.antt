-- ===== src/ControlPlane/Within.antt =====
-- rcn/controlplane/control_plane.go: the calls that add no peer and change none.
use runetale.Common.{
  String, ◌≡◌, refl, ◌∙◌, inl, inr, not, ◌||◌, Option, none, some, List, [], ◌∷◌, arith, Bool-cases,
  Option-cases, Dict, lookup, erase, lookup-erase, Outcome, ok, err, panic, Action, Fallible-cases,
  bound,
}
use runetale.ControlPlane.Peer.{Node, Ice, IceMethods}
use runetale.ControlPlane.Defs.{
  NegotiationType, answer, offer, candidate, other, NegotiationRequest, Libraries, ControlPlane,
  Shared, configure_stun_turn_conf, is_exist_peer, peer_at, in_goroutine, go_on_peer,
  receive_signal_request, handle_request, log_error, wait_for_remote_conn_round, close_peers, close,
}
use runetale.ControlPlane.Sync.{cleanup_dropped, remove_peer, remove_peers, sync_remote_peer_config}

module _ {U C W : Type 0} (lib : Libraries U C W) (methods : IceMethods U C W) where
  -- No entry is new or changed, and what was handed over stays.
  pub record Within (c c' : ControlPlane U) : Type 0 where
    pub found_before :
        (k : String) (o : Option (Ice U))
        → lookup k c'.peer_conns ≡ some o
        → lookup k c.peer_conns ≡ some o
    pub handed_same : c'.handed ≡ c.handed

  Within-refl : (c : ControlPlane U) → Within c c
  Within-refl c = record { found_before = λ k o e. e; handed_same = refl }

  log_error-Within :
      (r : Outcome (Unit {0}) × W) (c : ControlPlane U) → Within c (log_error lib methods r c).1.0
  unfolding log_error
  log_error-Within (ok _, w) c = Within-refl c
  log_error-Within (err e, w) c = Within-refl c
  log_error-Within (panic, w) c = Within-refl c

  in_goroutine-Within :
      (r : Outcome (Unit {0}) × W) (c : ControlPlane U)
      → Within c (in_goroutine lib methods r c).1.0
  unfolding in_goroutine
  in_goroutine-Within (ok _, w) c = Within-refl c
  in_goroutine-Within (err e, w) c = Within-refl c
  in_goroutine-Within (panic, w) c = record { found_before = λ k o e. e; handed_same = refl }

  cleanup_dropped-Within :
      (o : Option (Ice U)) (c : ControlPlane U) (w : W)
      → Within c (cleanup_dropped lib methods o (c, w)).1.0
  unfolding cleanup_dropped
  cleanup_dropped-Within none c w = Within-refl c
  cleanup_dropped-Within (some i) c w = log_error-Within (methods.cleanup i w) c

  erase-Within :
      (k : String) (c : ControlPlane U) → Within c (record c { peer_conns = erase k c.peer_conns })
  erase-Within k c = record {
    found_before = λ j o e. ground (arith, lookup-erase k j c.peer_conns, e);
    handed_same = refl;
  }

  Within-trans : (c c' c'' : ControlPlane U) → Within c c' → Within c' c'' → Within c c''
  Within-trans c c' c'' u v = record {
    found_before = λ k o e. u.found_before k o (v.found_before k o e);
    handed_same = v.handed_same ∙ u.handed_same;
  }

  remove_peer-Within :
      (k : String) (c : ControlPlane U) (w : W) → Within c (remove_peer lib methods k (c, w)).1.0
  unfolding remove_peer
  remove_peer-Within k c w = elim (Option-cases (lookup k c.peer_conns)) [
    | inl gone ↦ rw (gone, remove_peer) (Within-refl c)
    | inr (o, is) ↦
        rw (is, remove_peer) (Within-trans c _ _ (erase-Within k c) (cleanup_dropped-Within o _ w))
  ]

  bound-Within :
      (f : Unit {0} → Action (Shared lib methods) (Unit {0}))
      (r : Outcome (Unit {0}) × Shared lib methods) (c : ControlPlane U)
      → Within c r.1.0
      → ((s : Shared lib methods) → Within s.0 (f tt s).1.0)
      → Within c (bound f r).1.0
  bound-Within f (ok u, s) c v k = Within-trans c s.0 _ v (k s)
  bound-Within f (err e, s) c v k = v
  bound-Within f (panic, s) c v k = v

  remove_peers-Within :
      (ks : List String) (s : Shared lib methods) → Within s.0 (remove_peers lib methods ks s).1.0
  unfolding remove_peers
  remove_peers-Within [] s = Within-refl s.0
  remove_peers-Within (k ∷ ks) (c, w) =
      bound-Within (λ u. remove_peers lib methods ks) (remove_peer lib methods k (c, w)) c
        (remove_peer-Within k c w) (remove_peers-Within ks)

  pub sync-Within :
      (nodes : List Node) (s : Shared lib methods)
      → Within s.0 (sync_remote_peer_config lib methods nodes s).1.0
  unfolding sync_remote_peer_config
  sync-Within nodes (c, w) = remove_peers-Within _ (c, w)

  close_peers-Within :
      (d : Dict (Option (Ice U))) (s : Shared lib methods)
      → Within s.0 (close_peers lib methods d s).1.0
  unfolding close_peers
  close_peers-Within [] s = Within-refl s.0
  close_peers-Within ((k, none) ∷ d) s = close_peers-Within d s
  close_peers-Within ((k, some i) ∷ d) (c, w) =
      bound-Within (λ u. close_peers lib methods d)
        (let (r, w') = methods.cleanup i w in (r, (c, w'))) c (Within-refl c) (close_peers-Within d)

  pub wait-Within :
      (i : Ice U) (s : Shared lib methods)
      → Within s.0 (wait_for_remote_conn_round lib methods i s).1.0
  unfolding wait_for_remote_conn_round
  wait-Within i (c, w) =
      elim (Bool-cases
        (not (lib.is_ready w) || not (is_exist_peer lib methods c i.remote_node_key))) [
          | inl skipped ↦ rw skipped (Within-refl c)
          | inr tried ↦ rw tried (log_error-Within _ c)
        ]

  received :
      (t : NegotiationType) (o : Option (Ice U)) (m : NegotiationRequest) (c : ControlPlane U)
      (w : W)
      → Within c
          (receive_signal_request lib methods m.dst_node_key t o m.u_flag m.pwd m.candidate_text
            (c, w)).1.0
  unfolding receive_signal_request go_on_peer
  received answer none m c w = Within-refl c
  received answer (some i) m c w = Within-refl c
  received offer none m c w = Within-refl c
  received offer (some i) m c w = Within-refl c
  received candidate none m c w = elim (Fallible-cases (lib.unmarshal_candidate m.candidate_text)) [
    | inl (x, e) ↦ rw e (in_goroutine-Within (panic, w) c)
    | inr (x, e) ↦ rw e (Within-refl c)
  ]
  received candidate (some i) m c w =
      elim (Fallible-cases (lib.unmarshal_candidate m.candidate_text)) [
        | inl (x, e) ↦ rw e (in_goroutine-Within (methods.send_remote_candidate i x w) c)
        | inr (x, e) ↦ rw e (Within-refl c)
      ]
  received other o m c w = Within-refl c

  pub handle_request-Within :
      (m : NegotiationRequest) (s : Shared lib methods)
      → Within s.0 (handle_request lib methods m s).1.0
  unfolding handle_request
  handle_request-Within m (c, w) = received m.msg_type (peer_at lib methods c m.dst_node_key) m c w

  pub configure-Within :
      (s : Shared lib methods) → Within s.0 (configure_stun_turn_conf lib methods s).1.0
  unfolding configure_stun_turn_conf
  configure-Within (c, w) = record {
    found_before = λ k o e. ground (arith, e);
    handed_same = ground arith;
  }

  pub close-Within : (s : Shared lib methods) → Within s.0 (close lib methods s).1.0
  unfolding close
  close-Within (c, w) = close_peers-Within c.peer_conns (c, w)

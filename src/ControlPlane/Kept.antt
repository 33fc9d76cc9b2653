-- ===== src/ControlPlane/Kept.antt =====
-- rcn/controlplane/control_plane.go: which peers `syncRemotePeerConfig` leaves.
use runetale.Common.{
  String, ◌≡◌, refl, ◌∙◌, ◌≢◌, inl, inr, false, not, Option, none, some, List, [], ◌∷◌, arith,
  str_eq, eq_iff, if◌then◌else◌, Option-cases, Dict, contains, lookup, erase, lookup-erase, Outcome,
  ok, err, panic, >>=-ok,
}
use runetale.ControlPlane.Peer.{Node, Ice, IceMethods}
use runetale.ControlPlane.Defs.{Libraries, ControlPlane, Shared, log_error}
use runetale.ControlPlane.Sync.{
  remote_keys, unnecessary, cleanup_dropped, remove_peer, remove_peers, sync_remote_peer_config,
}

module _ {U C W : Type 0} (lib : Libraries U C W) (methods : IceMethods U C W) where
  -- No entry of the map is a nil pointer.
  abbrev pub NoNil : Dict (Option (Ice U)) → Type 0
  NoNil d = (k : String) → lookup k d ≢ some none

  erase-NoNil : (k : String) (d : Dict (Option (Ice U))) → NoNil d → NoNil (erase k d)
  erase-NoNil k d h j e = ground (arith, lookup-erase k j d, h j)

  contains-unnecessary :
      (remote : List String) (j : String) (d : Dict (Option (Ice U)))
      → contains (unnecessary lib methods remote d) j
        ≡ (elim (lookup j d) [ none ↦ false | some _ ↦ not (contains remote j) ])
  unfolding contains unnecessary lookup
  contains-unnecessary remote j [] = refl
  contains-unnecessary remote j ((k, i) ∷ d) =
      ground (arith, eq_iff k j, contains-unnecessary remote j d)

  -- What makes Cleanup calm on the entries of a map, and stays true when an entry is cleaned up.
  module _ (Sound : Dict (Option (Ice U)) → W → Type 0)
      (calm : (k : String) (i : Ice U) (d : Dict (Option (Ice U))) (w : W)
        → lookup k d ≡ some (some i)
        → Sound d w
        → ((methods.cleanup i w).0 ≢ panic) × Sound (erase k d) (methods.cleanup i w).1) where
    log_error-ok :
        (r : Outcome (Unit {0}) × W) (c : ControlPlane U)
        → r.0 ≢ panic
        → log_error lib methods r c ≡ (ok tt, (c, r.1))
    unfolding log_error
    log_error-ok (ok _, w) c h = refl
    log_error-ok (err e, w) c h = refl
    log_error-ok (panic, w) c h = absurd (h refl)

    -- One removal: the key is gone, the other entries stay.
    remove_peer_lem :
        (k : String) (s : Shared lib methods)
        → NoNil s.0.peer_conns
        → Sound s.0.peer_conns s.1
        → (c : ControlPlane U) × (w : W) × (remove_peer lib methods k s ≡ (ok tt, (c, w)))
          × NoNil c.peer_conns
          × Sound c.peer_conns w
          × ((j : String)
              → lookup j c.peer_conns ≡ (if str_eq k j then none else lookup j s.0.peer_conns))
    unfolding remove_peer cleanup_dropped
    remove_peer_lem k (c, w) h v = elim (Option-cases (lookup k c.peer_conns)) [
      | inl gone ↦ (c, w, rw (gone, remove_peer), h, v, λ j. ground (arith, eq_iff k j))
      | inr (none, e) ↦ absurd (h k e)
      | inr (some i, e) ↦ (
        record c { peer_conns = erase k c.peer_conns },
        (methods.cleanup i w).1,
        rw (e, remove_peer) (log_error-ok (methods.cleanup i w) _ (calm k i c.peer_conns w e v).0),
        erase-NoNil k c.peer_conns h,
        (calm k i c.peer_conns w e v).1,
        λ j. lookup-erase k j c.peer_conns,
      )
    ]

    remove_peers_lem :
        (ks : List String) (s : Shared lib methods)
        → NoNil s.0.peer_conns
        → Sound s.0.peer_conns s.1
        → (c : ControlPlane U) × (w : W) × (remove_peers lib methods ks s ≡ (ok tt, (c, w)))
          × NoNil c.peer_conns
          × Sound c.peer_conns w
          × ((j : String)
              → lookup j c.peer_conns ≡ (if contains ks j then none else lookup j s.0.peer_conns))
    unfolding remove_peers contains
    remove_peers_lem [] (c, w) h v = (c, w, refl, h, v, λ j. refl)
    remove_peers_lem (k ∷ ks) s h v =
        let (c, w, run, h', v', left) = remove_peer_lem k s h v in
        let (c', w', run', h'', v'', left') = remove_peers_lem ks (c, w) h' v' in
        (
          c',
          w',
          >>=-ok (remove_peer lib methods k) (λ _. remove_peers lib methods ks) s run ∙ run',
          h'',
          v'',
          λ j. ground (arith, left j, left' j),
        )

    pub sync_remote_peer_config-Sound :
        (remote : List Node) (s : Shared lib methods)
        → NoNil s.0.peer_conns
        → Sound s.0.peer_conns s.1
        → (c : ControlPlane U) × (w : W) × (sync_remote_peer_config lib methods remote s
            ≡ (ok tt, (c, w)))
          × NoNil c.peer_conns
          × Sound c.peer_conns w
          × ((j : String)
              → lookup j c.peer_conns ≡ (
                  if contains (remote_keys lib methods remote) j
                  then lookup j s.0.peer_conns
                  else none))
    unfolding sync_remote_peer_config
    sync_remote_peer_config-Sound remote (c, w) h v =
        let keys = remote_keys lib methods remote in
        let (c', w', run, h', v', left) =
          remove_peers_lem (unnecessary lib methods keys c.peer_conns) (c, w) h v in
        (c', w', run, h', v', λ j. ground (arith, left j, contains-unnecessary keys j c.peer_conns))

-- ===== src/ControlPlane/Loop.antt =====
-- rcn/controlplane/control_plane.go: `SyncRemoteNodes`, which synchronises until the server fails.
use mathlib.Core.Path.{subst}
use runetale.Common.{
  ℕ, zero, suc, ◌≤◌, ◌<◌, String, ◌≡◌, refl, sym, ◌≢◌, ◌⊎◌, inl, inr, Option, none, some, List, [],
  ◌∷◌, arith, Option-cases, Dict, lookup, erase, Outcome, ok, err, panic, Action, Fallible, value,
  error, bound,
}
use runetale.ControlPlane.Peer.{Node, Ice, IceMethods}
use runetale.ControlPlane.Defs.{Libraries, ControlPlane, Shared, log_error}
use runetale.ControlPlane.Sync.{cleanup_dropped, remove_peer, remove_peers, sync_remote_peer_config}
use runetale.ControlPlane.Offer.{SyncNodesResponse}
use runetale.ControlPlane.Kept.{NoNil, sync_remote_peer_config-Sound}

module _ {U C W : Type 0} (lib : Libraries U C W) (methods : IceMethods U C W)
    (sync : W → Fallible SyncNodesResponse × W) where
  -- The rest of a round after the synchronisation; `again` is the next round.
  unfoldable pub after_sync :
      (Shared lib methods → Option (Outcome (Unit {0}) × Shared lib methods))
      → Outcome (Unit {0}) × Shared lib methods
      → Option (Outcome (Unit {0}) × Shared lib methods)
  after_sync again (ok _, s) = again s
  after_sync again (err e, s) = some (err e, s)
  after_sync again (panic, s) = some (panic, s)

  unfoldable pub after_nodes :
      (Shared lib methods → Option (Outcome (Unit {0}) × Shared lib methods))
      → Option (List Node)
      → Shared lib methods
      → Option (Outcome (Unit {0}) × Shared lib methods)
  after_nodes again none s = again s
  after_nodes again (some nodes) s = after_sync again (sync_remote_peer_config lib methods nodes s)

  unfoldable pub after_response :
      (Shared lib methods → Option (Outcome (Unit {0}) × Shared lib methods))
      → Fallible SyncNodesResponse
      → Shared lib methods
      → Option (Outcome (Unit {0}) × Shared lib methods)
  after_response again (error e) s = some (err e, s)
  after_response again (value res) s = after_nodes again res.remote_nodes s

  -- `SyncRemoteNodes`; `none` means that the fuel ran out.
  unfoldable pub sync_remote_nodes :
      ℕ → Shared lib methods → Option (Outcome (Unit {0}) × Shared lib methods)
  sync_remote_nodes zero s = none
  sync_remote_nodes (suc fuel) (c, w) =
      let (res, w') = sync w in after_response (sync_remote_nodes fuel) res (c, w')

  -- `left` counts the answers of the server until it fails; Cleanup adds none.
  pub record Drains (left : W → ℕ) : Type 0 where
    pub answer_lowers :
        (w : W) (res : SyncNodesResponse) → (sync w).0 ≡ value res → left (sync w).1 < left w
    pub cleanup_keeps : (i : Ice U) (w : W) → left (methods.cleanup i w).1 ≤ left w

  module _ (left : W → ℕ) (drains : Drains left) where
    log_error-left :
        (r : Outcome (Unit {0}) × W) (c : ControlPlane U)
        → left (log_error lib methods r c).1.1 ≡ left r.1
    unfolding log_error
    log_error-left (ok _, w) c = refl
    log_error-left (err e, w) c = refl
    log_error-left (panic, w) c = refl

    cleanup_dropped-left :
        (i : Option (Ice U)) (c : ControlPlane U) (w : W)
        → left (cleanup_dropped lib methods i (c, w)).1.1 ≤ left w
    unfolding cleanup_dropped
    cleanup_dropped-left none c w = omega arith
    cleanup_dropped-left (some i) c w =
        omega (arith, log_error-left (methods.cleanup i w) c, drains.cleanup_keeps i w)

    remove_peer-left :
        (k : String) (c : ControlPlane U) (w : W)
        → left (remove_peer lib methods k (c, w)).1.1 ≤ left w
    unfolding remove_peer
    remove_peer-left k c w = elim (Option-cases (lookup k c.peer_conns)) [
      | inl gone ↦ rw (gone, remove_peer) (omega arith)
      | inr (i, is) ↦ rw (is, remove_peer) (cleanup_dropped-left i _ w)
    ]

    bound-left :
        (f : Unit {0} → Action (Shared lib methods) (Unit {0}))
        (r : Outcome (Unit {0}) × Shared lib methods) (n : ℕ)
        → left r.1.1 ≤ n
        → ((s : Shared lib methods) → left (f tt s).1.1 ≤ left s.1)
        → left (bound f r).1.1 ≤ n
    bound-left f (ok u, s) n h k = omega (arith, h, k s)
    bound-left f (err e, s) n h k = h
    bound-left f (panic, s) n h k = h

    remove_peers-left :
        (ks : List String) (s : Shared lib methods)
        → left (remove_peers lib methods ks s).1.1 ≤ left s.1
    unfolding remove_peers
    remove_peers-left [] s = omega arith
    remove_peers-left (k ∷ ks) (c, w) =
        bound-left (λ u. remove_peers lib methods ks) (remove_peer lib methods k (c, w)) (left w)
          (remove_peer-left k c w) (remove_peers-left ks)

    config-left :
        (nodes : List Node) (c : ControlPlane U) (w : W)
        → left (sync_remote_peer_config lib methods nodes (c, w)).1.1 ≤ left w
    unfolding sync_remote_peer_config
    config-left nodes c w = remove_peers-left _ (c, w)

  -- What makes Cleanup calm on the entries of a map, and stays true when an entry is cleaned up and
  -- when the server is asked.
  module _ (Sound : Dict (Option (Ice U)) → W → Type 0)
      (calm : (k : String) (i : Ice U) (d : Dict (Option (Ice U))) (w : W)
        → lookup k d ≡ some (some i)
        → Sound d w
        → ((methods.cleanup i w).0 ≢ panic) × Sound (erase k d) (methods.cleanup i w).1)
      (asked : (d : Dict (Option (Ice U))) (w : W) → Sound d w → Sound d (sync w).1) where
    -- The loop has ended with the error of the server's last answer, in the world of that answer;
    -- every peer that is left has its entry.
    abbrev pub EndedFrom :
        Dict (Option (Ice U)) → Option (Outcome (Unit {0}) × Shared lib methods) → Type 0
    EndedFrom d (some (err e, (c, w))) =
        ((x : W) × (sync x ≡ (error e, w)))
        × Sound c.peer_conns w
        × ((j : String) → (lookup j c.peer_conns ≡ lookup j d) ⊎ (lookup j c.peer_conns ≡ none))
    EndedFrom d (some (ok _, s)) = ⊥
    EndedFrom d (some (panic, s)) = ⊥
    EndedFrom d none = ⊥

    EndedFrom-trans :
        (d d' : Dict (Option (Ice U))) (o : Option (Outcome (Unit {0}) × Shared lib methods))
        → ((j : String) → (lookup j d' ≡ lookup j d) ⊎ (lookup j d' ≡ none))
        → EndedFrom d' o
        → EndedFrom d o
    EndedFrom-trans d d' (some (err e, (c, w))) h (x, v, k) = (x, v, λ j. ground (arith, h j, k j))
    EndedFrom-trans d d' (some (ok _, s)) h k = k
    EndedFrom-trans d d' (some (panic, s)) h k = k
    EndedFrom-trans d d' none h k = k

    module _ (left : W → ℕ) (drains : Drains left) where
      -- A round ends so from every state with fewer answers left than its fuel.
      abbrev Ends : ℕ → Type 0
      Ends fuel =
          (c : ControlPlane U) (w : W)
          → NoNil lib methods c.peer_conns
          → Sound c.peer_conns w
          → left w < fuel
          → EndedFrom c.peer_conns (sync_remote_nodes fuel (c, w))

      after_nodes-EndedFrom :
          (fuel : ℕ)
          → Ends fuel
          → (nodes : Option (List Node)) (c : ControlPlane U) (w : W)
          → NoNil lib methods c.peer_conns
          → Sound c.peer_conns w
          → left w < fuel
          → EndedFrom c.peer_conns (after_nodes (sync_remote_nodes fuel) nodes (c, w))
      unfolding after_nodes after_sync
      after_nodes-EndedFrom fuel rec none c w h v lt = rec c w h v lt
      after_nodes-EndedFrom fuel rec (some nodes) c w h v lt =
          let (c', w', run, h', v', kept) =
            sync_remote_peer_config-Sound lib methods Sound calm nodes (c, w) h v in
          let le =
            subst (λ (o : Outcome (Unit {0}) × Shared lib methods). left o.1.1 ≤ left w) run
              (config-left left drains nodes c w) in
          subst (λ o. EndedFrom c.peer_conns (after_sync (sync_remote_nodes fuel) o)) (sym run)
            (EndedFrom-trans c.peer_conns c'.peer_conns _ (λ j. ground (arith, kept j))
              (rec c' w' h' v' (omega arith)))

      after_response-EndedFrom :
          (fuel : ℕ)
          → Ends fuel
          → (x : W) (r : Fallible SyncNodesResponse) (c : ControlPlane U) (w : W) → sync x ≡ (r, w)
          → NoNil lib methods c.peer_conns
          → Sound c.peer_conns w
          → ((res : SyncNodesResponse) → r ≡ value res → left w < fuel)
          → EndedFrom c.peer_conns (after_response (sync_remote_nodes fuel) r (c, w))
      unfolding after_response
      after_response-EndedFrom fuel rec x (error e) c w is h v lt = ((x, is), v, λ j. inl refl)
      after_response-EndedFrom fuel rec x (value res) c w is h v lt =
          after_nodes-EndedFrom fuel rec res.remote_nodes c w h v (lt res refl)

      pub sync_remote_nodes-EndedFrom : (fuel : ℕ) → Ends fuel
      unfolding sync_remote_nodes
      sync_remote_nodes-EndedFrom zero c w h v lt = absurd (omega arith)
      sync_remote_nodes-EndedFrom (suc fuel) c w h v lt =
          after_response-EndedFrom fuel (sync_remote_nodes-EndedFrom fuel) w (sync w).0 c (sync w).1
            refl h (asked c.peer_conns w v) λ res e. omega (arith, drains.answer_lowers w res e)

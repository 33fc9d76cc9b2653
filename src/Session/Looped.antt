-- ===== src/Session/Looped.antt =====
-- rcn/controlplane/control_plane.go over rcn/webrtc/ice.go: SyncRemoteNodes with real sessions.
use runetale.Common.{
  ℕ, ◌<◌, String, ◌≡◌, refl, ◌≢◌, ◌⊎◌, Option, none, some, lookup, Error, Outcome, ok, err, panic,
  Fallible, error,
}
use runetale.Status.Defs.{ConnectState}
use runetale.ControlPlane.Peer.{Ice}
use runetale.ControlPlane.Defs.{Libraries, ControlPlane}
use runetale.ControlPlane.Offer.{SyncNodesResponse}
use runetale.ControlPlane.Kept.{NoNil}
use runetale.ControlPlane.Loop.{sync_remote_nodes, Drains, EndedFrom, sync_remote_nodes-EndedFrom}
use runetale.Session.Defs.{Kinds, Session, IceCalls}
use runetale.Session.Cleared.{ClosesCalmly}
use runetale.Session.Methods.{Store, ice_methods}
use runetale.Session.Synced.{AllHeld, cleanup-AllHeld}

-- The server is asked, and no session changes.
abbrev pub ask :
    {t : Kinds}
    → (t.W → Fallible SyncNodesResponse × t.W)
    → Store t
    → Fallible SyncNodesResponse × Store t
ask sync (store, cs, w) = let (r, w') = sync w in (r, (store, cs, w'))

module _ {t : Kinds} (calls : IceCalls t) (lib : Libraries t.U t.C (Store t))
    (calm : (i : Ice t.U) → ClosesCalmly calls i)
    (calm_peer : (tun ip key : String) (w : t.W)
      → (calls.proxy_libraries.remove_remote_peer tun ip key w).0 ≢ panic)
    (before : String → Session t) (sync : t.W → Fallible SyncNodesResponse × t.W) where
  -- Over the real sessions: if no entry is nil, the session of each entry is under the entry's own key
  -- and holds its multiplexers and its agent, the calls that close these do not panic, and the server
  -- fails at last, then SyncRemoteNodes returns (fuel for one round more than there are answers is
  -- enough), with an error that the server gave, in the world of that answer. Each
  -- peer that is left then has the entry and the session that it had, and no peer was added.
  pub sync_remote_nodes-AllHeld :
      (left : Store t → ℕ)
      → Drains lib (ice_methods calls) (ask sync) left
      → (fuel : ℕ) (c : ControlPlane t.U) (cs : ConnectState) (w : t.W)
      → NoNil lib (ice_methods calls) c.peer_conns
      → AllHeld calls lib calm calm_peer before c.peer_conns (before, cs, w)
      → left (before, cs, w) < fuel
      → (e : Error) × (c' : ControlPlane t.U) × (s' : Store t) × (sync_remote_nodes lib
            (ice_methods calls)
            (ask sync)
            fuel
            (c, (before, cs, w))
          ≡ some (err e, (c', s')))
        × ((x : Store t) × (ask sync x ≡ (error e, s')))
        × AllHeld calls lib calm calm_peer before c'.peer_conns s'
        × ((j : String)
            → (lookup j c'.peer_conns ≡ lookup j c.peer_conns) ⊎ (lookup j c'.peer_conns ≡ none))
  sync_remote_nodes-AllHeld left drains fuel c cs w h v lt = opened _ (
      sync_remote_nodes-EndedFrom lib (ice_methods calls) (ask sync)
        (AllHeld calls lib calm calm_peer before) (cleanup-AllHeld calls lib calm calm_peer before)
        (λ d s held. held) left drains fuel c (before, cs, w) h v lt)
    where
      opened :
          (o : Option (Outcome (Unit {0}) × (ControlPlane t.U × Store t)))
          → EndedFrom lib
              (ice_methods calls)
              (ask sync)
              (AllHeld calls lib calm calm_peer before)
              (cleanup-AllHeld calls lib calm calm_peer before)
              (λ d s held. held)
              c.peer_conns
              o
          → (e : Error) × (c' : ControlPlane t.U) × (s' : Store t) × (o ≡ some (err e, (c', s')))
            × ((x : Store t) × (ask sync x ≡ (error e, s')))
            × AllHeld calls lib calm calm_peer before c'.peer_conns s'
            × ((j : String)
                → (lookup j c'.peer_conns ≡ lookup j c.peer_conns)
                  ⊎ (lookup j c'.peer_conns ≡ none))
      opened (some (err e, (c', s'))) (x, v', k) = (e, c', s', refl, x, v', k)
      opened (some (ok _, s)) b = absurd b
      opened (some (panic, s)) b = absurd b
      opened none b = absurd b

-- ===== src/Session/Synced.antt =====
-- rcn/controlplane/control_plane.go over rcn/webrtc/ice.go: syncRemotePeerConfig with real sessions.
use mathlib.Core.Path.{subst}
use runetale.Common.{
  String, ◌≡◌, sym, ◌≢◌, inl, inr, Option, none, some, List, arith, str_eq, if◌then◌else◌,
  Bool-cases, Dict, contains, lookup, erase, lookup-erase, ok, panic,
}
use runetale.Status.Defs.{ConnectState}
use runetale.ControlPlane.Peer.{Node, Ice}
use runetale.ControlPlane.Defs.{Libraries, ControlPlane}
use runetale.Session.Defs.{Kinds, Session, IceCalls}
use runetale.Session.Cleared.{IsHeld, ClosesCalmly}
use runetale.Session.Cleaned.{cleanup-calm}
use runetale.Session.Methods.{Store, ice_methods}
use runetale.ControlPlane.Kept.{NoNil, sync_remote_peer_config-Sound}
use runetale.ControlPlane.Sync.{remote_keys, sync_remote_peer_config}

module _ {t : Kinds} (calls : IceCalls t) (lib : Libraries t.U t.C (Store t))
    (calm : (i : Ice t.U) → ClosesCalmly calls i)
    (calm_peer : (tun ip key : String) (w : t.W)
      → (calls.proxy_libraries.remove_remote_peer tun ip key w).0 ≢ panic)
    (before : String → Session t) where
  -- The session of an entry is under the entry's key, holds its parts, and is as it was before.
  pub record EntryHeld (k : String) (i : Ice t.U) (store : String → Session t) : Type 0 where
    pub own_key : i.remote_node_key ≡ k
    pub held : IsHeld calls i (before k)
    pub as_before : store k ≡ before k

  abbrev pub AllHeld : Dict (Option (Ice t.U)) → Store t → Type 0
  AllHeld d (store, cs, w) =
      (k : String) (i : Ice t.U) → lookup k d ≡ some (some i) → EntryHeld k i store

  pub cleanup-AllHeld :
      (k : String) (i : Ice t.U) (d : Dict (Option (Ice t.U))) (s : Store t)
      → lookup k d ≡ some (some i)
      → AllHeld d s
      → (((ice_methods calls).cleanup i s).0 ≢ panic)
        × AllHeld (erase k d) ((ice_methods calls).cleanup i s).1
  cleanup-AllHeld k i d (store, cs, w) e h =
      let entry = h k i e in
      (
        cleanup-calm calls i (calm i) calm_peer (store i.remote_node_key) cs w (
            subst (λ j. IsHeld calls i (store j)) (sym entry.own_key)
              (subst (IsHeld calls i) (sym entry.as_before) entry.held)),
        λ j x f. elim (Bool-cases (str_eq k j)) [
          | inl same ↦ absurd (ground (arith, lookup-erase k j d, f, same))
          | inr differ ↦
              let other = h j x (ground (arith, lookup-erase k j d, f, differ)) in
              record {
                own_key = other.own_key;
                held = other.held;
                as_before = rw (entry.own_key, differ) other.as_before;
              }
        ],
      )

  -- Over the real sessions: if no entry is nil, and the session of each entry is under the entry's own
  -- key and holds its multiplexers and its agent, as after Setup, then the synchronisation succeeds
  -- where the calls that close these parts do not panic. It keeps exactly the entries that the server
  -- names, and the session of each of them is the one that it was before.
  pub sync_remote_peer_config-AllHeld :
      (remote : List Node) (c : ControlPlane t.U) (cs : ConnectState) (w : t.W)
      → NoNil lib (ice_methods calls) c.peer_conns
      → AllHeld c.peer_conns (before, cs, w)
      → (c' : ControlPlane t.U) × (store : String → Session t) × (cs' : ConnectState) × (w' : t.W)
        × (sync_remote_peer_config lib (ice_methods calls) remote (c, (before, cs, w))
            ≡ (ok tt, (c', (store, cs', w'))))
        × ((j : String)
            → lookup j c'.peer_conns ≡ (
                if contains (remote_keys lib (ice_methods calls) remote) j
                then lookup j c.peer_conns
                else none))
        × AllHeld c'.peer_conns (store, cs', w')
  sync_remote_peer_config-AllHeld remote c cs w h v =
      let (c', (store, cs', w'), run, h', v', left) =
        sync_remote_peer_config-Sound lib (ice_methods calls) AllHeld cleanup-AllHeld remote
          (c, (before, cs, w)) h v in
      (c', store, cs', w', run, left, v')

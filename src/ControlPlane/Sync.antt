-- ===== src/ControlPlane/Sync.antt =====
-- rcn/controlplane/control_plane.go: `syncRemotePeerConfig`, and what it leaves of the peers.
use runetale.Common.{
  String, Option, none, some, List, [], ◌∷◌, if◌then◌else◌, Dict, contains, lookup, erase, ok,
  panic, Action, pure, ◌>>◌,
}
use runetale.ControlPlane.Peer.{Node, Ice, IceMethods}
use runetale.ControlPlane.Defs.{Libraries, Shared, log_error}

module _ {U C W : Type 0} (lib : Libraries U C W) (methods : IceMethods U C W) where
  -- The keys of `remotePeerMap`.
  unfoldable pub remote_keys : List Node → List String
  remote_keys [] = []
  remote_keys (p ∷ ps) = p.remote_node_key ∷ remote_keys ps

  -- The peers that the server no longer names, in the order of the `range`.
  unfoldable pub unnecessary : List String → Dict (Option (Ice U)) → List String
  unnecessary remote [] = []
  unnecessary remote ((k, i) ∷ d) =
      if contains remote k then unnecessary remote d else k ∷ unnecessary remote d

  -- `Cleanup`, whose error is dropped; a call on a nil peer panics.
  unfoldable pub cleanup_dropped : Option (Ice U) → Action (Shared lib methods) (Unit {0})
  cleanup_dropped none s = (panic, s)
  cleanup_dropped (some i) (c, w) = log_error lib methods (methods.cleanup i w) c

  unfoldable pub remove_peer : String → Action (Shared lib methods) (Unit {0})
  remove_peer k (c, w) = elim (lookup k c.peer_conns) [
    | none ↦ (ok tt, (c, w))
    | some i ↦ cleanup_dropped i (record c { peer_conns = erase k c.peer_conns }, w)
  ]

  unfoldable pub remove_peers : List String → Action (Shared lib methods) (Unit {0})
  remove_peers [] = pure tt
  remove_peers (k ∷ ks) = remove_peer k >> remove_peers ks

  unfoldable pub sync_remote_peer_config : List Node → Action (Shared lib methods) (Unit {0})
  unfolding remote_keys unnecessary
  sync_remote_peer_config remote (c, w) =
      remove_peers (unnecessary (remote_keys remote) c.peer_conns) (c, w)

-- ===== src/ControlPlane/Offer.antt =====
-- rcn/controlplane/control_plane.go: `initialOfferToRemotePeer`, which makes the peers that the
-- server names and hands each to WaitForRemoteConn.
use runetale.Common.{
  ℕ, String, true, Option, none, some, List, [], ◌∷◌, if◌then◌else◌, insert, Error, Fallible, value,
  error,
}
use runetale.Common.Int.{ℤ}
use runetale.Backoff.Policy.{back_off_tries, with_max_retries}
use runetale.Backoff.Retry.{Surroundings, Returned, do_retry_notify}
use runetale.Backoff.Exponential.{Float64, Sources, exponential_back_off, new_exponential_back_off}
use runetale.ControlPlane.Peer.{Node, Ice, IceMethods}
use runetale.ControlPlane.Defs.{PeerSpec, Libraries, ControlPlane, Shared, new_ice}

-- node.SyncNodesResponse; `remote_nodes` may be nil.
pub record SyncNodesResponse : Type 0 where
  pub remote_nodes : Option (List Node)
  pub ip : String
  pub cidr : String

-- How a call that need not end went: it came back, it panicked, or it did not end.
pub data Fate : Type 0 where
  came_back crashed unfinished : Fate

module _ {U C W : Type 0} (lib : Libraries U C W) (methods : IceMethods U C W) where
  -- `c.peerConns[k] = i` and `c.waitForRemoteConnCh <- i`. The channel has no buffer: where the peer
  -- is never taken, the send blocks for ever, which `unfinished` stands for.
  unfoldable pub add_peer : String → Ice U → ControlPlane U → Fate × ControlPlane U
  add_peer k i c =
      if lib.receives (i ∷ c.handed)
      then (
        came_back,
        record c { peer_conns = insert k (some i) c.peer_conns; handed = i ∷ c.handed },
      )
      else (unfinished, record c { peer_conns = insert k (some i) c.peer_conns })

  -- The rest of the loop runs only after the send.
  unfoldable pub after_send :
      (ControlPlane U → (Fate × Option Error) × ControlPlane U)
      → Fate × ControlPlane U
      → (Fate × Option Error) × ControlPlane U
  after_send rest (came_back, c) = rest c
  after_send rest (crashed, c) = ((crashed, none), c)
  after_send rest (unfinished, c) = ((unfinished, none), c)

  module _ (spec : PeerSpec) (nk : String) where
    -- The loop over the nodes, up to the first error; what was added stays.
    unfoldable pub offer_nodes :
        List Node → String → String → ControlPlane U → (Fate × Option Error) × ControlPlane U
    offer_nodes [] ip cidr c = ((came_back, none), c)
    offer_nodes (rp ∷ rps) ip cidr c = elim (new_ice lib methods spec nk c.stconf rp ip cidr) [
      | error e ↦ ((came_back, some e), c)
      | value i ↦ after_send (offer_nodes rps ip cidr) (add_peer rp.remote_node_key i c)
    ]

    unfoldable pub offer_response :
        Fallible SyncNodesResponse → ControlPlane U → (Fate × Option Error) × ControlPlane U
    offer_response (error e) c = ((came_back, some e), c)
    offer_response (value res) c = elim res.remote_nodes [
      | none ↦ ((came_back, none), c)
      | some nodes ↦ offer_nodes nodes res.ip res.cidr c
    ]

    module _ (sync : W → Fallible SyncNodesResponse × W) where
      -- The operation that is retried.
      unfoldable pub offer_operation :
          Shared lib methods → (Fate × Option Error) × Shared lib methods
      offer_operation (c, w) =
          let (res, w') = sync w in let (r, c') = offer_response res c in (r, (c', w'))

      -- `backoff.Retry` with three retries of the exponential policy `s`; the context is never done.
      module _ (fl : Float64) (src : Sources fl (Shared lib methods)) (wait : ℤ → W → W)
          (halt : W → W) where
        abbrev pub offer_surroundings : Surroundings Fate (Shared lib methods)
        offer_surroundings = record {
          operation = offer_operation;
          notify = none;
          start_timer = λ d (c, w). (c, wait d w);
          stop_timer = λ (c, w). (c, halt w);
          fired = λ s. (true, s);
          context_err = λ s. none;
        }

        unfoldable pub initial_offer_to_remote_peer :
            ℕ
            → Shared lib methods
            → Option (Returned offer_surroundings (back_off_tries (exponential_back_off fl src)))
        initial_offer_to_remote_peer fuel s =
            let (b, s') = new_exponential_back_off fl src [] s in
            do_retry_notify offer_surroundings (back_off_tries (exponential_back_off fl src)) fuel
              (with_max_retries (exponential_back_off fl src) b 3) s'

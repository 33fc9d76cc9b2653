-- ===== src/ControlPlane/Dispatch.antt =====
-- rcn/controlplane/control_plane.go: what a negotiation message does, by whether its peer is known,
-- and the loops of Close and WaitForRemoteConn.
use runetale.Common.{
  String, ◌≡◌, refl, ◌≢◌, ◌↔◌, inl, inr, Bool, true, false, none, some, arith, Option-cases,
  Outcome, ok, err, panic, value, Fallible-cases,
}
use runetale.ControlPlane.Peer.{Ice, IceMethods}
use runetale.ControlPlane.Defs.{
  NegotiationType, answer, offer, candidate, other, NegotiationRequest, Libraries, ControlPlane,
  Shared, peer_at, in_goroutine, go_on_peer, receive_signal_request, handle_request,
}

module _ {U C W : Type 0} (lib : Libraries U C W) (methods : IceMethods U C W) where
  -- Whether the `switch` calls a method of the peer in the handler itself.
  abbrev pub calls_peer : NegotiationType → Bool
  calls_peer answer = true
  calls_peer offer = true
  calls_peer candidate = false
  calls_peer other = false

  -- The methods of a peer that the handler calls itself end without a panic.
  pub record Calm : Type 0 where
    pub calm_answer :
        (i : Ice U) (k u p : String) (w : W) → (methods.send_remote_answer_ch i k u p w).0 ≢ panic
    pub calm_offer :
        (i : Ice U) (k u p : String) (w : W) → (methods.send_remote_offer_ch i k u p w).0 ≢ panic

  receive-nil :
      (k : String) (t : NegotiationType) (u p text : String) (s : Shared lib methods)
      → ((receive_signal_request lib methods k t none u p text s).0 ≡ panic) ↔ (calls_peer t ≡ true)
  unfolding receive_signal_request go_on_peer in_goroutine
  receive-nil k answer u p text s = ground arith
  receive-nil k offer u p text s = ground arith
  receive-nil k candidate u p text s = ground arith
  receive-nil k other u p text s = ground arith

  in_goroutine-calm :
      (r : Outcome (Unit {0}) × W) (c : ControlPlane U) → (in_goroutine lib methods r c).0 ≢ panic
  unfolding in_goroutine
  in_goroutine-calm (ok _, w) c = λ e. cc
  in_goroutine-calm (err x, w) c = λ e. cc
  in_goroutine-calm (panic, w) c = λ e. cc

  receive-some :
      (k : String) (t : NegotiationType) (i : Ice U) (u p text : String) (s : Shared lib methods)
      → Calm
      → (receive_signal_request lib methods k t (some i) u p text s).0 ≢ panic
  unfolding receive_signal_request go_on_peer
  receive-some k answer i u p text (c, w) h = h.calm_answer i k u p w
  receive-some k offer i u p text (c, w) h = h.calm_offer i k u p w
  receive-some k candidate i u p text (c, w) h =
      elim (Fallible-cases (lib.unmarshal_candidate text)) [
        | inl (cand, e) ↦ rw e (in_goroutine-calm (methods.send_remote_candidate i cand w) c)
        | inr (x, e) ↦ rw e (λ q. cc)
      ]
  receive-some k other i u p text (c, w) h = λ e. cc

  receive_candidate-nil :
      (k u p text : String) (cand : C) (c : ControlPlane U) (w : W)
      → lib.unmarshal_candidate text ≡ value cand
      → receive_signal_request lib methods k candidate none u p text (c, w)
        ≡ (ok tt, (record c { doomed = true }, w))
  unfolding receive_signal_request go_on_peer in_goroutine
  receive_candidate-nil k u p text cand c w e = rw e refl

  handle_request-panic :
      (res : NegotiationRequest) (s : Shared lib methods)
      → Calm
      → ((handle_request lib methods res s).0 ≡ panic)
        ↔ ((peer_at lib methods s.0 res.dst_node_key ≡ none) × (calls_peer res.msg_type ≡ true))
  unfolding handle_request
  handle_request-panic res (c, w) h = elim (Option-cases (peer_at lib methods c res.dst_node_key)) [
    | inl nil ↦ rw nil (
        let both =
          receive-nil res.dst_node_key res.msg_type res.u_flag res.pwd res.candidate_text (c, w) in
        (λ e. (refl, both.0 e), λ e. both.1 e.1))
    | inr (i, known) ↦ rw known (
      λ e. absurd (
          receive-some res.dst_node_key res.msg_type i res.u_flag res.pwd res.candidate_text (c, w)
            h e),
      λ e. cc (e.0),
    )
  ]

  -- If the methods that take offers and answers do not panic, the handler panics exactly when the
  -- message is an offer or an answer for a key with no peer. For a readable candidate for such a
  -- key it returns nil, and the goroutine that it has started panics.
  pub handle_request-panics :
      (res : NegotiationRequest) (c : ControlPlane U) (w : W)
      → Calm
      → (((handle_request lib methods res (c, w)).0 ≡ panic)
          ↔ ((peer_at lib methods c res.dst_node_key ≡ none) × (calls_peer res.msg_type ≡ true)))
        × ((cand : C)
            → peer_at lib methods c res.dst_node_key ≡ none
            → res.msg_type ≡ candidate
            → lib.unmarshal_candidate res.candidate_text ≡ value cand
            → handle_request lib methods res (c, w) ≡ (ok tt, (record c { doomed = true }, w)))
  unfolding handle_request
  handle_request-panics res c w h = (
    handle_request-panic res (c, w) h,
    λ cand nil is read.
        rw (nil, is)
          (receive_candidate-nil res.dst_node_key res.u_flag res.pwd res.candidate_text cand c w
            read),
  )

-- ===== src/ControlPlane/Serving.antt =====
-- rcn/controlplane/control_plane.go: `ConnectSignalServer`, as the goroutine that serves the stream
-- and the rest, which waits and makes the initial offer.
use runetale.Common.{
  ℕ, String, Bool, true, false, Option, none, some, [], Error, Outcome, ok, err, panic, Action,
  Fallible,
}
use runetale.Common.Int.{ℤ}
use runetale.Status.Defs.{ConnectState}
use runetale.Status.Stream.{Negotiation, connect_stream}
use runetale.Backoff.Policy.{back_off_tries, with_max_retries}
use runetale.Backoff.Retry.{Surroundings, Returned, do_retry_notify}
use runetale.Backoff.Exponential.{Float64, Sources, exponential_back_off, new_exponential_back_off}
use runetale.ControlPlane.Peer.{IceMethods}
use runetale.ControlPlane.Offer.{
  SyncNodesResponse, Fate, came_back, crashed, unfinished, offer_surroundings,
  initial_offer_to_remote_peer,
}
use runetale.ControlPlane.Defs.{
  PeerSpec, NegotiationRequest, Libraries, ControlPlane, handle_request,
}

module _ {U C W : Type 0} (lib : Libraries U C W) (methods : IceMethods U C W) where
  -- Whether `c.ch` is closed, the control plane and the world.
  abbrev pub Hub : Type 0
  Hub = Bool × (ControlPlane U × W)

  -- `close(c.ch)`, which panics on a closed channel.
  unfoldable pub close_ch : Bool → Outcome (Unit {0}) × Bool
  close_ch true = (panic, true)
  close_ch false = (ok tt, true)

  -- The handler, with the connection of the client beside its state. The getters of generated code
  -- read a nil message as `zero_request`.
  unfoldable pub handle_message :
      NegotiationRequest → Option NegotiationRequest → Action (ConnectState × Hub) (Unit {0})
  handle_message zero_request none (cs, (b, s)) =
      let (r, s') = handle_request lib methods zero_request s in (r, (cs, (b, s')))
  handle_message zero_request (some m) (cs, (b, s)) =
      let (r, s') = handle_request lib methods m s in (r, (cs, (b, s')))

  -- What the stream does leaves the control plane alone.
  abbrev pub beside : {A : Type 0} → (W → A × W) → Hub → A × Hub
  beside f (b, (c, w)) = let (r, w') = f w in (r, (b, (c, w')))

  abbrev pub hub_negotiation : Negotiation NegotiationRequest W → Negotiation NegotiationRequest Hub
  hub_negotiation neg = record {
    open_stream = beside neg.open_stream;
    recv = beside neg.recv;
    close_send = beside neg.close_send;
  }

  module _ (neg : Negotiation NegotiationRequest W) (zero_request : NegotiationRequest) where
    abbrev pub Served : Type 0
    Served = ConnectState × Hub

    -- A panic ends the program, and the retry loop does not go on after it.
    unfoldable pub as_attempt :
        Served → Option (Outcome (Unit {0}) × Served) → (Fate × Option Error) × Served
    as_attempt s none = ((unfinished, none), s)
    as_attempt s (some (ok _, s')) = ((came_back, none), s')
    as_attempt s (some (err e, s')) = ((came_back, some e), s')
    as_attempt s (some (panic, s')) = ((crashed, none), s')

    -- `operation`; `fuel` is for the messages of one stream.
    unfoldable pub serve_operation : ℕ → Served → (Fate × Option Error) × Served
    serve_operation fuel s =
        as_attempt s (connect_stream (hub_negotiation neg) (handle_message zero_request) fuel s)

    module _ (fl : Float64) (src : Sources fl Served) (wait : ℤ → W → W) (halt : W → W)
        (fuel : ℕ) where
      abbrev pub serve_surroundings : Surroundings Fate Served
      serve_surroundings = record {
        operation = serve_operation fuel;
        notify = none;
        start_timer = λ d (cs, (b, (c, w))). (cs, (b, (c, wait d w)));
        stop_timer = λ (cs, (b, (c, w))). (cs, (b, (c, halt w)));
        fired = λ s. (true, s);
        context_err = λ s. none;
      }

      -- After `backoff.Retry`: the goroutine closes the channel where Retry fails.
      unfoldable pub after_retry :
          Option (Returned serve_surroundings (back_off_tries (exponential_back_off fl src)))
          → Option (Outcome (Unit {0}) × Served)
      after_retry none = none
      after_retry (some ((unfinished, _), t, s)) = none
      after_retry (some ((crashed, _), t, s)) = some (panic, s)
      after_retry (some ((came_back, none), t, s)) = some (ok tt, s)
      after_retry (some ((came_back, some e), t, (cs, (b, s)))) =
          let (r, b') = close_ch b in some (r, (cs, (b', s)))

      -- The goroutine; `rounds` is the fuel of the retry loop.
      unfoldable pub serve_signals : ℕ → Served → Option (Outcome (Unit {0}) × Served)
      serve_signals rounds s =
          let (b, s') = new_exponential_back_off fl src [] s in
          after_retry (
            do_retry_notify serve_surroundings (back_off_tries (exponential_back_off fl src)) rounds
              (with_max_retries (exponential_back_off fl src) b 3) s')

  module _ (spec : PeerSpec) (nk : String) (sync : W → Fallible SyncNodesResponse × W)
      (fl : Float64) (src : Sources fl (ControlPlane U × W)) (wait : ℤ → W → W) (halt : W → W) where
    -- After the initial offer, which may block: the method closes the channel where the offer fails.
    unfoldable pub after_initial_offer :
        Bool
        → Option (
            Returned
              (offer_surroundings lib methods spec nk sync fl src wait halt)
              (back_off_tries (exponential_back_off fl src)))
        → Option (Outcome (Unit {0}) × Hub)
    after_initial_offer b none = none
    after_initial_offer b (some ((unfinished, none), t, s)) = none
    after_initial_offer b (some ((crashed, none), t, s)) = some (panic, (b, s))
    after_initial_offer b (some ((came_back, none), t, s)) = some (ok tt, (b, s))
    after_initial_offer b (some ((_, some e), t, s)) = let (r, b') = close_ch b in some (r, (b', s))

    -- The rest of the method once WaitStartConnect has returned.
    unfoldable pub offer_when_started : ℕ → Hub → Option (Outcome (Unit {0}) × Hub)
    offer_when_started rounds (b, s) =
        after_initial_offer b
          (initial_offer_to_remote_peer lib methods spec nk sync fl src wait halt rounds s)

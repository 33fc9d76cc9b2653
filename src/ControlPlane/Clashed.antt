-- ===== src/ControlPlane/Clashed.antt =====
-- rcn/controlplane/control_plane.go: the two closings of `c.ch` in ConnectSignalServer.
use mathlib.Core.Path.{subst}
use runetale.Common.{
  ℕ, String, ◌≡◌, refl, Bool, true, false, none, some, if◌then◌else◌, Error, ok, panic, Fallible,
}
use runetale.Common.Int.{ℤ}
use runetale.ControlPlane.Defs.{PeerSpec, NegotiationRequest, Libraries, ControlPlane}
use runetale.ControlPlane.Peer.{IceMethods}
use runetale.ControlPlane.Offer.{SyncNodesResponse, Fate, initial_offer_to_remote_peer}
use runetale.ControlPlane.Serving.{
  close_ch, handle_message, hub_negotiation, Served, serve_surroundings, serve_signals,
  after_initial_offer, offer_when_started,
}
use runetale.Backoff.Tries.{Counts}
use runetale.Backoff.Exponential.{Float64, Sources, exponential_back_off}
use runetale.Backoff.Policy.{back_off_tries}
use runetale.Status.Stream.{RecvError, Negotiation, connect_stream}
use runetale.Status.Ends.{Returns}
use runetale.Status.Defs.{ConnectState}
use runetale.ControlPlane.Served.{Closes, serve_signals-Closes}

module _ {U C W : Type 0} (lib : Libraries U C W) (methods : IceMethods U C W) (spec : PeerSpec)
    (nk : String) (sync : W → Fallible SyncNodesResponse × W) (fl : Float64)
    (src : Sources fl (ControlPlane U × W)) (wait : ℤ → W → W) (halt : W → W) where
  -- A failed offer closes the channel, or panics where it is closed.
  after_initial_offer-fails :
      (b : Bool) (x : Fate) (e : Error) (t : (back_off_tries (exponential_back_off fl src)).State)
      (s : ControlPlane U × W)
      → after_initial_offer lib methods spec nk sync fl src wait halt b (some ((x, some e), t, s))
        ≡ (if b then some (panic, (true, s)) else some (ok tt, (true, s)))
  unfolding after_initial_offer close_ch
  after_initial_offer-fails true x e t s = refl
  after_initial_offer-fails false x e t s = refl

  module _ (neg : Negotiation NegotiationRequest W) (zero_request : NegotiationRequest) (fuel : ℕ)
      (nil_on_error : (w : W) (e : RecvError) → (neg.recv w).0.1 ≡ some e → (neg.recv w).0.0 ≡ none)
      (ends : (s : Served lib methods neg zero_request)
        → Returns (hub_negotiation lib methods neg) (handle_message lib methods zero_request) (
            connect_stream
              (hub_negotiation lib methods neg)
              (handle_message lib methods zero_request)
              fuel
              s))
      (served : Sources fl (Served lib methods neg zero_request))
      (count : Served lib methods neg zero_request → ℕ)
      (counts : Counts
        (serve_surroundings lib methods neg zero_request fl served wait halt fuel)
        (exponential_back_off fl served)
        count) where
    -- Each run of Connect ends within its fuel, a stream gives no message beside an error, and
    -- `count` counts the runs. If the goroutine of ConnectSignalServer has returned, and the initial
    -- offer fails from the state that it left, then the method closes the channel again, and the
    -- program panics.
    pub connect_signal_server-Clashes :
        (s₀ : Served lib methods neg zero_request) (cs : ConnectState) (b : Bool)
        (s : ControlPlane U × W) (rounds : ℕ) (x : Fate) (e : Error)
        (t : (back_off_tries (exponential_back_off fl src)).State) (s' : ControlPlane U × W)
        → serve_signals lib methods neg zero_request fl served wait halt fuel 4 s₀
          ≡ some (ok tt, (cs, (b, s)))
        → initial_offer_to_remote_peer lib methods spec nk sync fl src wait halt rounds s
          ≡ some ((x, some e), t, s')
        → offer_when_started lib methods spec nk sync fl src wait halt rounds (b, s)
          ≡ some (panic, (true, s'))
    unfolding offer_when_started
    connect_signal_server-Clashes s₀ cs b s rounds x e t s' returned refused =
        let closed : b ≡ true =
          subst (Closes lib methods neg zero_request fuel nil_on_error ends fl served wait halt)
            returned
            (serve_signals-Closes lib methods neg zero_request fuel nil_on_error ends fl served wait
              halt count counts s₀) in
        rw (refused, closed) (after_initial_offer-fails true x e t s')

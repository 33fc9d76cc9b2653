-- ===== src/ControlPlane/Served.antt =====
-- rcn/controlplane/control_plane.go: how the goroutine of ConnectSignalServer ends.
use runetale.Common.{
  ℕ, zero, suc, ◌≡◌, refl, inl, inr, true, false, Option, none, some, [], arith, Bool-cases, Error,
  Outcome, ok, err, panic, Action,
}
use runetale.Common.Int.{ℤ, eqb_ℤ}
use runetale.Status.Stream.{RecvError, Negotiation, connect_stream}
use runetale.Status.Endings.{connect_stream-Ending}
use runetale.Status.Ends.{Returns}
use runetale.Backoff.Policy.{stop, BackOff, back_off_tries, with_max_retries}
use runetale.Backoff.Retry.{
  Surroundings, Returned, after_wait, after_next, after_failure, after_operation, retry_loop,
  stop_deferred, do_retry_notify,
}
use runetale.Backoff.Tries.{Counts, Bounded, do_retry_notify-with_max_retries}
use runetale.Backoff.Exponential.{Float64, Sources, exponential_back_off, new_exponential_back_off}
use runetale.ControlPlane.Peer.{IceMethods}
use runetale.ControlPlane.Defs.{NegotiationRequest, Libraries}
use runetale.ControlPlane.Offer.{Fate, came_back, crashed, unfinished}
use runetale.ControlPlane.Serving.{
  Hub, close_ch, handle_message, hub_negotiation, Served, as_attempt, serve_operation,
  serve_surroundings, after_retry, serve_signals,
}

module _ {U C W : Type 0} (lib : Libraries U C W) (methods : IceMethods U C W)
    (neg : Negotiation NegotiationRequest W) (zero_request : NegotiationRequest) (fuel : ℕ)
    (nil_on_error : (w : W) (e : RecvError) → (neg.recv w).0.1 ≡ some e → (neg.recv w).0.0 ≡ none)
    (ends : (s : Served lib methods neg zero_request)
      → Returns (hub_negotiation lib methods neg) (handle_message lib methods zero_request) (
          connect_stream
            (hub_negotiation lib methods neg)
            (handle_message lib methods zero_request)
            fuel
            s)) where
  abbrev State : Type 0
  State = Served lib methods neg zero_request

  abbrev stream : Negotiation NegotiationRequest (Hub lib methods)
  stream = hub_negotiation lib methods neg

  abbrev handler : Option NegotiationRequest → Action State (Unit {0})
  handler = handle_message lib methods zero_request

  -- What an attempt and Retry may give: an error of Connect, or a panic.
  abbrev Fails : Fate → Option Error → Type 0
  Fails came_back none = ⊥
  Fails came_back (some e) = Unit
  Fails crashed none = Unit
  Fails crashed (some e) = ⊥
  Fails unfinished e = ⊥

  as_attempt-Fails :
      (s : State) (o : Option (Outcome (Unit {0}) × State))
      → connect_stream stream handler fuel s ≡ o
      → let r = as_attempt lib methods neg zero_request s o in Fails r.0.0 r.0.1
  unfolding as_attempt
  as_attempt-Fails s none e = rw e at (ends s)
  as_attempt-Fails s (some (ok u, s')) e =
      connect_stream-Ending stream handler (λ (b, (c, w)) x. nil_on_error w x) fuel s e
  as_attempt-Fails s (some (err x, s')) e = tt
  as_attempt-Fails s (some (panic, s')) e = tt

  module _ (fl : Float64) (src : Sources fl State) (wait : ℤ → W → W) (halt : W → W) where
    abbrev pub env : Surroundings Fate State
    env = serve_surroundings lib methods neg zero_request fl src wait halt fuel

    abbrev pub policy : BackOff State
    policy = exponential_back_off fl src

    abbrev tries : BackOff State
    tries = back_off_tries policy

    abbrev Result : Type 0
    Result = Option (Returned env tries)

    abbrev AllFail : Result → Type 0
    AllFail none = Unit
    AllFail (some ((f, e), t, s)) = Fails f e

    -- The channel is closed where the goroutine returned; `none` means that it has not ended.
    abbrev pub Closes : Option (Outcome (Unit {0}) × State) → Type 0
    Closes none = ⊥
    Closes (some (ok _, (cs, (b, s)))) = b ≡ true
    Closes (some (err e, s)) = ⊥
    Closes (some (panic, s)) = Unit

    module _ (again : tries.State → State → Result)
        (rest : (t : tries.State) (s : State) → AllFail (again t s)) where
      after_failure-AllFail :
          (e : Error) (p : Option Error) (t : tries.State) (s : State)
          → AllFail (after_failure env tries again came_back e p t s)
      unfolding after_failure after_next after_wait
      after_failure-AllFail e (some inner) t s = tt
      after_failure-AllFail e none t s =
          let (next, t', s') = tries.next_back_off t s in
          elim (Bool-cases (eqb_ℤ next stop)) [
            | inl last ↦ rw last tt
            | inr more ↦ rw more (rest t' _)
          ]

      after_operation-AllFail :
          (f : Fate) (e : Option Error) (t : tries.State) (s : State)
          → Fails f e
          → AllFail (after_operation env tries again f e t s)
      unfolding after_operation
      after_operation-AllFail came_back none t s h = h
      after_operation-AllFail came_back (some e) t s h = after_failure-AllFail e _ t s
      after_operation-AllFail crashed none t s h = h
      after_operation-AllFail crashed (some e) t s h = absurd h
      after_operation-AllFail unfinished e t s h = absurd h

    retry_loop-AllFail :
        (rounds : ℕ) (t : tries.State) (s : State) → AllFail (retry_loop env tries rounds t s)
    unfolding retry_loop serve_operation
    retry_loop-AllFail zero t s = tt
    retry_loop-AllFail (suc rounds) t s =
        after_operation-AllFail _ (retry_loop-AllFail rounds) _ _ t _ (as_attempt-Fails s _ refl)

    do_retry_notify-AllFail :
        (rounds : ℕ) (t : tries.State) (s : State) → AllFail (do_retry_notify env tries rounds t s)
    unfolding do_retry_notify stop_deferred
    do_retry_notify-AllFail rounds t s =
        let (t', s') = tries.reset t s in stopped _ (retry_loop-AllFail rounds t' s')
      where
        stopped : (r : Result) → AllFail r → AllFail (stop_deferred env tries r)
        stopped none h = h
        stopped (some r) h = h

    module _ (count : State → ℕ) (counts : Counts env policy count) where
      after_retry-Closes :
          (lo hi : ℕ) (r : Result)
          → AllFail r
          → Bounded env policy count lo hi r
          → Closes (after_retry lib methods neg zero_request fl src wait halt fuel r)
      unfolding after_retry close_ch
      after_retry-Closes lo hi none h b = b
      after_retry-Closes lo hi (some ((came_back, none), t, s)) h b = absurd h
      after_retry-Closes lo hi (some ((came_back, some e), t, (cs, (false, s)))) h b = refl
      after_retry-Closes lo hi (some ((came_back, some e), t, (cs, (true, s)))) h b = tt
      after_retry-Closes lo hi (some ((crashed, e), t, s)) h b = tt
      after_retry-Closes lo hi (some ((unfinished, e), t, s)) h b = absurd h

      -- If each run of Connect ends, within its fuel, a stream gives no message beside an error, and
      -- `count` counts the runs, then the goroutine of ConnectSignalServer ends: fuel for four rounds
      -- of the retry loop is enough. It has then closed the channel `c.ch`, unless it panicked.
      pub serve_signals-Closes :
          (s : State)
          → Closes (serve_signals lib methods neg zero_request fl src wait halt fuel 4 s)
      unfolding serve_signals
      serve_signals-Closes s =
          let (b, s') = new_exponential_back_off fl src [] s in
          after_retry-Closes _ _ _ (do_retry_notify-AllFail 4 (with_max_retries policy b 3) s')
            (do_retry_notify-with_max_retries env policy count counts 3 b s' (omega arith))

-- ===== src/Backoff/Retry.antt =====
-- backoff/backoff.go: Permanent, errors.As on *PermanentError, and the retry loop.
use runetale.Common.{
  ℕ, zero, suc, Bool, true, false, Option, none, some, if◌then◌else◌, Error, message, external,
  wrapped, permanent,
}
use runetale.Common.Int.{ℤ, eqb_ℤ}
use runetale.Backoff.Policy.{stop, BackOff}

-- `Permanent`
unfoldable pub make_permanent : Option Error → Option Error
make_permanent none = none
make_permanent (some e) = some (permanent e)

-- `errors.As(err, &permanent)` with the wrapped error: the first *PermanentError of the chain.
unfoldable pub as_permanent : Error → Option Error
as_permanent (permanent e) = some e
as_permanent (wrapped _ e) = as_permanent e
as_permanent (message _) = none
as_permanent (external _) = none

-- What the loop is given: the operation, the notify function if there is one, the timer and the
-- context that `getContext` finds. `fired` is the `select`: true if the timer's case is taken.
pub record Surroundings (T W : Type 0) : Type 0 where
  pub operation : W → (T × Option Error) × W
  pub notify : Option (Error → ℤ → W → W)
  pub start_timer : ℤ → W → W
  pub stop_timer : W → W
  pub fired : W → Bool × W
  pub context_err : W → Option Error

module _ {T W : Type 0} (env : Surroundings T W) (b : BackOff W) where
  -- What a return gives: the data, the error, and the policy and the world as they are then.
  abbrev pub Returned : Type 0
  Returned = (T × Option Error) × b.State × W

  abbrev pub notified : Error → ℤ → W → W
  notified e next w = elim env.notify [ none ↦ w | some f ↦ f e next w ]

  -- The error of the context, or else the one of the operation.
  abbrev pub stop_error : Error → W → Option Error
  stop_error e w = elim (env.context_err w) [ none ↦ some e | some cerr ↦ some cerr ]

  -- After the `select`; `again` is the next round.
  unfoldable pub after_wait :
      (b.State → W → Option Returned) → T → b.State → Bool × W → Option Returned
  after_wait again res s (true, w) = again s w
  after_wait again res s (false, w) = some ((res, env.context_err w), s, w)

  -- After `NextBackOff`: the policy stops, or the loop notifies and waits.
  unfoldable pub after_next :
      (b.State → W → Option Returned) → T → Error → ℤ × b.State × W → Option Returned
  after_next again res e (next, s, w) =
      if eqb_ℤ next stop
      then some ((res, stop_error e w), s, w)
      else after_wait again res s (env.fired (env.start_timer next (notified e next w)))

  -- The rest of a round whose operation failed with `e`; the Option is `errors.As` of `e`.
  unfoldable pub after_failure :
      (b.State → W → Option Returned) → T → Error → Option Error → b.State → W → Option Returned
  after_failure again res e (some inner) s w = some ((res, some inner), s, w)
  after_failure again res e none s w = after_next again res e (b.next_back_off s w)

  -- A round after its operation has returned: success ends the loop.
  unfoldable pub after_operation :
      (b.State → W → Option Returned) → T → Option Error → b.State → W → Option Returned
  after_operation again res none s w = some ((res, none), s, w)
  after_operation again res (some e) s w = after_failure again res e (as_permanent e) s w

  -- The `for` loop; `none` means that the fuel ran out.
  unfoldable pub retry_loop : ℕ → b.State → W → Option Returned
  retry_loop zero s w = none
  retry_loop (suc fuel) s w =
      let ((res, e), w₁) = env.operation w in after_operation (retry_loop fuel) res e s w₁

  -- The deferred `t.Stop()`.
  unfoldable pub stop_deferred : Option Returned → Option Returned
  stop_deferred none = none
  stop_deferred (some (r, s, w)) = some (r, s, env.stop_timer w)

  -- `doRetryNotify`: reset the policy, run the loop, stop the timer.
  unfoldable pub do_retry_notify : ℕ → b.State → W → Option Returned
  do_retry_notify fuel s w = let (s', w') = b.reset s w in stop_deferred (retry_loop fuel s' w')

-- ===== src/Backoff/Timer.antt =====
-- backoff/backoff.go: timers, the context of a policy, *PermanentError, and the functions around
-- doRetryNotify.
use runetale.Common.{
  ℕ, String, Bool, true, false, Option, none, some, Error, message, external, wrapped, permanent,
}
use runetale.Common.Int.{ℤ}
use runetale.Backoff.Policy.{BackOff}
use runetale.Backoff.Retry.{Surroundings, Returned, do_retry_notify}

-- The interface Timer; `fired` is the `select` on its channel and on the context.
pub record Timer (W : Type 0) : Type 0 where
  pub start : ℤ → W → W
  pub stop_it : W → W
  pub fired : W → Bool × W

-- What the package time does with a *time.Timer, which is a number here.
pub record TimeCalls (V : Type 0) : Type 0 where
  pub new_timer : ℤ → V → ℕ × V
  pub reset_timer : ℕ → ℤ → V → V
  pub stop_timer : ℕ → V → V
  pub wait_timer : ℕ → V → Bool × V

module _ {V : Type 0} (time : TimeCalls V) where
  -- `defaultTimer`, whose field is nil before the first Start.
  abbrev pub WithTimer : Type 0
  WithTimer = Option ℕ × V

  unfoldable pub default_start : ℤ → WithTimer → WithTimer
  default_start d (none, v) = let (t, v') = time.new_timer d v in (some t, v')
  default_start d (some t, v) = (some t, time.reset_timer t d v)

  unfoldable pub default_stop : WithTimer → WithTimer
  default_stop (none, v) = (none, v)
  default_stop (some t, v) = (some t, time.stop_timer t v)

  -- A receive from the channel of a nil timer panics; the loop receives only after Start.
  unfoldable pub default_fired : WithTimer → Bool × WithTimer
  default_fired (none, v) = (false, (none, v))
  default_fired (some t, v) = let (b, v') = time.wait_timer t v in (b, (some t, v'))

  abbrev pub default_timer : Timer WithTimer
  default_timer = record { start = default_start; stop_it = default_stop; fired = default_fired }

-- A policy, as far as `getContext` sees it: with a context of its own, limited in its tries, or
-- any other.
pub data ContextPolicy (X : Type 0) : Type 0 where
  back_off_context : X → ContextPolicy X
  limited : ContextPolicy X → ContextPolicy X
  plain : ContextPolicy X

unfoldable pub get_context : {X : Type 0} → X → ContextPolicy X → X
get_context background (back_off_context ctx) = ctx
get_context background (limited p) = get_context background p
get_context background plain = background

-- The methods Error, Unwrap and Is of *PermanentError; `text` is Error of the other types.
unfoldable pub permanent_error : (Error → String) → Error → String
permanent_error text e = text e

unfoldable pub unwrap : Error → Option Error
unwrap (permanent e) = some e
unwrap (wrapped _ e) = some e
unwrap (message _) = none
unwrap (external _) = none

unfoldable pub permanent_is : Error → Bool
permanent_is (permanent e) = true
permanent_is (wrapped _ e) = false
permanent_is (message _) = false
permanent_is (external _) = false

-- `default_of` makes the timer for a nil argument, and `context_err` is Err of the policy's context.
module _ {W : Type 0} (default_of : Timer W) (context_err : W → Option Error) (b : BackOff W) where
  unfoldable pub timer_or_default : Option (Timer W) → Timer W
  timer_or_default none = default_of
  timer_or_default (some t) = t

  abbrev pub run_of :
      {T : Type 0}
      → (W → (T × Option Error) × W)
      → Option (Error → ℤ → W → W)
      → Option (Timer W)
      → Surroundings T W
  run_of o notify t = record {
    operation = o;
    notify = notify;
    start_timer = (timer_or_default t).start;
    stop_timer = (timer_or_default t).stop_it;
    fired = (timer_or_default t).fired;
    context_err = context_err;
  }

  -- `withEmptyData`
  unfoldable pub with_empty_data : (W → Option Error × W) → W → (Unit {0} × Option Error) × W
  with_empty_data o w = let (e, w') = o w in ((tt, e), w')

  -- `_, err := ...`
  unfoldable pub error_only :
      Option ((Unit {0} × Option Error) × b.State × W) → Option (Option Error × b.State × W)
  error_only none = none
  error_only (some ((_, e), s, w)) = some (e, s, w)

  unfoldable pub retry_notify_with_timer_and_data :
      {T : Type 0}
      → (o : W → (T × Option Error) × W) (notify : Option (Error → ℤ → W → W))
        (t : Option (Timer W))
      → ℕ
      → b.State
      → W
      → Option (Returned (run_of o notify t) b)
  retry_notify_with_timer_and_data o notify t = do_retry_notify (run_of o notify t) b

  unfoldable pub retry_notify_with_timer :
      (W → Option Error × W)
      → Option (Error → ℤ → W → W)
      → Option (Timer W)
      → ℕ
      → b.State
      → W
      → Option (Option Error × b.State × W)
  unfolding with_empty_data error_only
  retry_notify_with_timer o notify t fuel s w =
      error_only (do_retry_notify (run_of (with_empty_data o) notify t) b fuel s w)

  unfoldable pub retry_notify_with_data :
      {T : Type 0}
      → (o : W → (T × Option Error) × W) (notify : Option (Error → ℤ → W → W)) → ℕ
      → b.State
      → W
      → Option (Returned (run_of o notify none) b)
  retry_notify_with_data o notify = do_retry_notify (run_of o notify none) b

  unfoldable pub retry_notify :
      (W → Option Error × W)
      → Option (Error → ℤ → W → W)
      → ℕ
      → b.State
      → W
      → Option (Option Error × b.State × W)
  unfolding retry_notify_with_timer
  retry_notify o notify = retry_notify_with_timer o notify none

  unfoldable pub retry_with_data :
      {T : Type 0}
      → (o : W → (T × Option Error) × W) → ℕ
      → b.State
      → W
      → Option (Returned (run_of o none none) b)
  unfolding retry_notify_with_data
  retry_with_data o = retry_notify_with_data o none

  unfoldable pub retry :
      (W → Option Error × W) → ℕ → b.State → W → Option (Option Error × b.State × W)
  unfolding retry_notify
  retry o = retry_notify o none

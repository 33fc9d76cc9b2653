-- ===== src/Backoff/TimerTests.antt =====
-- backoff/backoff.go: a retry of two waits with the default timer.
use runetale.Common.{
  ℕ, zero, suc, ◌+◌, ◌≡◌, refl, Bool, true, false, Option, none, some, Error, message,
}
use runetale.Common.Int.{ℤ, pos, eqb_ℤ}
use runetale.Backoff.Policy.{stop, BackOff}
use runetale.Backoff.Retry.{
  as_permanent, Returned, after_wait, after_next, after_failure, after_operation, retry_loop,
  stop_deferred, do_retry_notify,
}
use runetale.Backoff.Timer.{
  TimeCalls, WithTimer, default_start, default_stop, default_fired, default_timer, back_off_context,
  limited, plain, get_context, timer_or_default, retry_notify_with_data,
}
use runetale.Backoff.Stopped.{env, OwnTimer, IsStopped, retry_notify_with_data-IsStopped}

-- The number of timers that were made, and whether the last one is live.
abbrev one_timer : TimeCalls (ℕ × Bool)
one_timer = record {
  new_timer = λ d (c, l). (c, (c + 1, true));
  reset_timer = λ t d (c, l). (c, true);
  stop_timer = λ t (c, l). (c, false);
  wait_timer = λ t v. (true, v);
}

abbrev wait_twice : ℕ → ℤ × ℕ
wait_twice zero = (stop, 0)
wait_twice (suc n) = (pos 5, n)

abbrev two_waits : BackOff (WithTimer one_timer)
two_waits = record {
  State = ℕ;
  next_back_off = λ n s. let (d, m) = wait_twice n in (d, m, s);
  reset = λ n s. (2, s);
}

abbrev always_down : WithTimer one_timer → (Unit {0} × Option Error) × WithTimer one_timer
always_down s = ((tt, some (message "down")), s)

no_context : WithTimer one_timer → Option Error
no_context s = none

one_timer-OwnTimer :
    OwnTimer one_timer no_context two_waits always_down none (λ v. v.0) (λ t v. v.1)
one_timer-OwnTimer = record {
  operation_apart = λ s. (refl, refl);
  next_apart = λ p s. (refl, refl);
  reset_apart = λ p s. (refl, refl);
  notify_apart = λ e d s. (refl, refl);
  new_makes = λ d v. refl;
  reset_makes = λ t d v. refl;
  wait_makes = λ t v. refl;
  stop_makes = λ t v. refl;
  stop_ends = λ t v. refl;
}

abbrev given_up :
    Returned (env one_timer no_context two_waits always_down none (λ v. v.0) (λ t v. v.1)) two_waits
given_up = ((tt, some (message "down")), 0, (some 0, (1, false)))

two_waits_run :
    retry_notify_with_data
      (default_timer one_timer)
      no_context
      two_waits
      always_down
      none
      3
      0
      (none, (0, false))
    ≡ some given_up
unfolding retry_notify_with_data do_retry_notify stop_deferred retry_loop after_operation
    as_permanent after_failure after_next after_wait timer_or_default default_start default_stop
    default_fired eqb_ℤ no_context
two_waits_run = refl

retry_notify_with_data-IsStopped_example :
    IsStopped one_timer no_context two_waits always_down none
      (λ v. v.0)
      (λ t v. v.1)
      0
      (some 0, (1, false))
retry_notify_with_data-IsStopped_example =
    retry_notify_with_data-IsStopped one_timer no_context two_waits always_down none (λ v. v.0)
      (λ t v. v.1) one_timer-OwnTimer 0 3 0 (0, false) refl two_waits_run

context_found : get_context {X = ℕ} 0 (limited (limited (back_off_context 7))) ≡ 7
unfolding get_context
context_found = refl

no_context_found : get_context {X = ℕ} 3 (limited plain) ≡ 3
unfolding get_context
no_context_found = refl

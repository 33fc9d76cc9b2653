-- ===== src/Backoff/Tests.antt =====
-- backoff/backoff.go: runs of the retry loop and of the policies on small worlds.
use runetale.Common.{
  ℕ, ◌+◌, ◌-◌, ◌*◌, ◌/◌, ◌≤◌, ◌<◌, ◌≡◌, refl, ◌⊎◌, inl, inr, true, none, some, [], arith, leb, ◌==◌,
  if◌then◌else◌, message,
}
use runetale.Common.Int.{pos, pos_part, ◌≤ℤ◌}
use runetale.Backoff.Policy.{stop, BackOff, back_off_tries, with_max_retries}
use runetale.Backoff.Exponential.{
  Float64, Sources, second, default_max_interval, ExponentialBackOff, new_exponential_back_off,
}
use runetale.Backoff.Retry.{
  as_permanent, Surroundings, Returned, after_wait, after_next, after_failure, after_operation,
  retry_loop, stop_deferred, do_retry_notify,
}
use runetale.Backoff.Tries.{Counts, Bounded, do_retry_notify-with_max_retries}
use runetale.Backoff.Exhausted.{KeepsFailing}
use runetale.Backoff.Interval.{FloatLaws, IsPaced, after_calls, new_exponential_back_off-capped}

-- A world that is the number of runs so far, and an operation that succeeds at run `good`.
abbrev flaky : ℕ → Surroundings ℕ ℕ
flaky good = record {
  operation = λ w. ((w, if w == good then none else some (message "down")), w + 1);
  notify = none;
  start_timer = λ d w. w;
  stop_timer = λ w. w;
  fired = λ w. (true, w);
  context_err = λ w. none;
}

abbrev every_five : BackOff ℕ
every_five = record {
  State = Unit {0};
  next_back_off = λ s w. (pos 5, s, w);
  reset = λ s w. (s, w);
}

abbrev failing : Surroundings ℕ ℕ
failing = record {
  operation = λ w. ((w, some (message "down")), w + 1);
  notify = none;
  start_timer = λ d w. w;
  stop_timer = λ w. w;
  fired = λ w. (true, w);
  context_err = λ w. none;
}

flaky-Counts : Counts (flaky 2) every_five (λ w. w)
flaky-Counts = record {
  operation_once = λ w. refl;
  next_quiet = λ s w. refl;
  reset_quiet = λ s w. refl;
  notify_quiet = λ e d w. refl;
  start_quiet = λ d w. refl;
  stop_quiet = λ w. refl;
  fired_quiet = λ w. refl;
}

failing-Counts : Counts failing every_five (λ w. w)
failing-Counts = record {
  operation_once = λ w. refl;
  next_quiet = λ s w. refl;
  reset_quiet = λ s w. refl;
  notify_quiet = λ e d w. refl;
  start_quiet = λ d w. refl;
  stop_quiet = λ w. refl;
  fired_quiet = λ w. refl;
}

failing_keeps : KeepsFailing failing every_five
unfolding as_permanent
failing_keeps = record {
  failure = λ w. message "down";
  fails = λ w. refl;
  transient = λ w. refl;
  goes_on = λ s w. refl;
  fires = λ w. refl;
}

do_retry_notify-with_max_retries_example :
    Bounded
      (flaky 2)
      every_five
      (λ w. w)
      1
      4
      (do_retry_notify (flaky 2) (back_off_tries every_five) 4 (with_max_retries every_five tt 3) 0)
do_retry_notify-with_max_retries_example =
    do_retry_notify-with_max_retries (flaky 2) every_five (λ w. w) flaky-Counts 3 tt 0 (omega arith)

abbrev last : Returned (flaky 2) every_five
last = ((2, none), tt, 3)

flaky_run : do_retry_notify (flaky 2) every_five 5 tt 0 ≡ some last
unfolding do_retry_notify retry_loop stop_deferred after_operation after_failure after_next
    after_wait as_permanent
flaky_run = refl

-- Whole numbers in place of float64, with constants rounded up.
abbrev whole : Float64
whole = record {
  F = ℕ;
  of_duration = pos_part;
  to_duration = pos;
  literal = λ a b. (a + b - 1) / b;
  add = λ x y. x + y;
  sub = λ x y. x - y;
  mul = λ x y. x * y;
  div = λ x y. x / y;
  ge = λ x y. leb y x;
  is_zero = λ x. x == 0;
}

abbrev whole_laws : FloatLaws whole
whole_laws = record {
  Le = λ x y. x ≤ y;
  Lt = λ x y. x < y;
  AtLeastOne = λ m. (m ≡ 1) ⊎ (m ≡ 2);
  ge_false = λ x y h. ground (arith, h);
  to_duration_mono = λ x y h. omega arith;
  to_duration-of_duration = λ d h. ground arith;
  mul_le_of_lt_div = λ x m d one h lt. elim one [
    | inl e ↦ rw e (omega (arith, rw e at lt))
    | inr e ↦ rw e (omega (arith, rw e at lt))
  ];
  le_mul = λ d m one h. elim one [ inl e ↦ rw e (omega arith) | inr e ↦ rw e (omega arith) ];
}

-- A clock that moves on by a second at each look, and a random source that gives 0.
abbrev ticking : Sources whole ℕ
ticking = record { now = λ w. (pos (w * second), w + 1); random = λ w. (0, w) }

abbrev started : ExponentialBackOff whole
started = record {
  initial_interval = pos 7;
  randomization_factor = 0;
  multiplier = 2;
  max_interval = pos 100;
  max_elapsed_time = pos 1000;
  stop_value = stop;
  current_interval = pos 7;
  start_time = pos 0;
}

started-IsPaced : IsPaced whole whole_laws started
started-IsPaced = record {
  grows = inr refl;
  small = omega arith;
  non_negative = omega arith;
  capped = omega arith;
}

new_exponential_back_off-capped_example :
    let (b, w') = new_exponential_back_off whole ticking [] 3 in
    (pos 0 ≤ℤ (after_calls whole whole_laws ticking 9 b w').current_interval)
    × ((after_calls whole whole_laws ticking 9 b w').current_interval ≤ℤ default_max_interval)
new_exponential_back_off-capped_example =
    new_exponential_back_off-capped whole whole_laws ticking 9 3 (inr refl)

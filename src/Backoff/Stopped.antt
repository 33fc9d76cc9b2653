-- ===== src/Backoff/Stopped.antt =====
-- backoff/backoff.go: the default timer under the retry loop.
use mathlib.Core.Path.{subst}
use runetale.Common.{ℕ, ◌+◌, ◌≡◌, sym, ap, ◌∙◌, Bool, false, Option, none, some, arith, Error}
use runetale.Common.Int.{ℤ}
use runetale.Backoff.Policy.{BackOff}
use runetale.Backoff.Retry.{Surroundings, Returned}
use runetale.Backoff.Kept.{Keeps, Kept, do_retry_notify-Kept}
use runetale.Backoff.Timer.{
  TimeCalls, WithTimer, default_start, default_stop, default_fired, default_timer, timer_or_default,
  run_of, retry_notify_with_data,
}
use runetale.Backoff.Outcome.{do_retry_notify-Run}

module _ {T V : Type 0} (time : TimeCalls V) (context_err : WithTimer time → Option Error)
    (b : BackOff (WithTimer time))
    (operation : WithTimer time → (T × Option Error) × WithTimer time)
    (notify : Option (Error → ℤ → WithTimer time → WithTimer time)) (made : V → ℕ)
    (live : ℕ → V → Bool) where
  abbrev pub env : Surroundings T (WithTimer time)
  env = run_of (default_timer time) context_err b operation notify none

  -- A step of other code leaves the timer and the number of timers alone.
  abbrev Untouched : WithTimer time → WithTimer time → Type 0
  Untouched s s' = (s'.0 ≡ s.0) × (made s'.1 ≡ made s.1)

  -- The operation, the policy and the notify function touch no timer of this call, NewTimer makes
  -- one, and a stopped timer is not live.
  pub record OwnTimer : Type 0 where
    pub operation_apart : (s : WithTimer time) → Untouched s (operation s).1
    pub next_apart : (p : b.State) (s : WithTimer time) → Untouched s (b.next_back_off p s).2
    pub reset_apart : (p : b.State) (s : WithTimer time) → Untouched s (b.reset p s).1
    pub notify_apart :
        (e : Error) (d : ℤ) (s : WithTimer time)
        → Untouched s (elim notify [ none ↦ s | some f ↦ f e d s ])
    pub new_makes : (d : ℤ) (v : V) → made (time.new_timer d v).1 ≡ made v + 1
    pub reset_makes : (t : ℕ) (d : ℤ) (v : V) → made (time.reset_timer t d v) ≡ made v
    pub wait_makes : (t : ℕ) (v : V) → made (time.wait_timer t v).1 ≡ made v
    pub stop_makes : (t : ℕ) (v : V) → made (time.stop_timer t v) ≡ made v
    pub stop_ends : (t : ℕ) (v : V) → live t (time.stop_timer t v) ≡ false

  -- `n` timers had been made before, and one since then if there is a timer.
  abbrev MadeOnce : ℕ → WithTimer time → Type 0
  MadeOnce n (none, v) = made v ≡ n
  MadeOnce n (some t, v) = made v ≡ n + 1

  -- At most one timer was made, and it is not live.
  abbrev pub IsStopped : ℕ → WithTimer time → Type 0
  IsStopped n (none, v) = made v ≡ n
  IsStopped n (some t, v) = (made v ≡ n + 1) × (live t v ≡ false)

  module _ (h : OwnTimer) (n : ℕ) where
    Untouched-MadeOnce : (s s' : WithTimer time) → Untouched s s' → MadeOnce n s → MadeOnce n s'
    Untouched-MadeOnce (none, v) (o, v') (same, count) m =
        subst (λ x. MadeOnce n (x, v')) (sym same) (count ∙ m)
    Untouched-MadeOnce (some t, v) (o, v') (same, count) m =
        subst (λ x. MadeOnce n (x, v')) (sym same) (count ∙ m)

    start-MadeOnce :
        (d : ℤ) (s : WithTimer time) → MadeOnce n s → MadeOnce n (default_start time d s)
    unfolding default_start
    start-MadeOnce d (none, v) m = omega (arith, h.new_makes d v)
    start-MadeOnce d (some t, v) m = h.reset_makes t d v ∙ m

    stop-MadeOnce : (s : WithTimer time) → MadeOnce n s → MadeOnce n (default_stop time s)
    unfolding default_stop
    stop-MadeOnce (none, v) m = m
    stop-MadeOnce (some t, v) m = h.stop_makes t v ∙ m

    fired-MadeOnce : (s : WithTimer time) → MadeOnce n s → MadeOnce n (default_fired time s).1
    unfolding default_fired
    fired-MadeOnce (none, v) m = m
    fired-MadeOnce (some t, v) m = h.wait_makes t v ∙ m

    env-Keeps : Keeps env b (MadeOnce n)
    unfolding timer_or_default
    env-Keeps = record {
      operation_keeps = λ s. Untouched-MadeOnce s _ (h.operation_apart s);
      next_keeps = λ p s. Untouched-MadeOnce s _ (h.next_apart p s);
      reset_keeps = λ p s. Untouched-MadeOnce s _ (h.reset_apart p s);
      notify_keeps = λ e d s. Untouched-MadeOnce s _ (h.notify_apart e d s);
      start_keeps = start-MadeOnce;
      stop_keeps = stop-MadeOnce;
      fired_keeps = fired-MadeOnce;
    }

    stop-IsStopped :
        (s : WithTimer time) → MadeOnce n (default_stop time s) → IsStopped n (default_stop time s)
    unfolding default_stop
    stop-IsStopped (none, v) m = m
    stop-IsStopped (some t, v) m = (m, h.stop_ends t v)

    -- If nothing else touches its timer, a retry with the default timer that returns has made one
    -- timer at most, and the timer is stopped.
    pub retry_notify_with_data-IsStopped :
        (fuel : ℕ) (p : b.State) (v : V) {r : Returned env b}
        → made v ≡ n
        → retry_notify_with_data
            (default_timer time)
            context_err
            b
            operation
            notify
            fuel
            p
            (none, v)
          ≡ some r
        → IsStopped n r.2
    unfolding retry_notify_with_data timer_or_default
    retry_notify_with_data-IsStopped fuel p v {r} m e =
        let (r', last, is) = (do_retry_notify-Run env b p (none, v) r).0 (fuel, e) in
        let kept : MadeOnce n r.2 =
          subst (Kept env b (MadeOnce n)) e
            (do_retry_notify-Kept env b (MadeOnce n) env-Keeps fuel p (none, v) m) in
        let stopped : r.2 ≡ default_stop time r'.2 = ap (λ x. x.2) is in
        subst (IsStopped n) (sym stopped) (stop-IsStopped r'.2 (subst (MadeOnce n) stopped kept))

-- ===== src/Backoff/Outcome.antt =====
-- backoff/backoff.go: the retry loop against its rounds.
use runetale.Common.{
  ℕ, zero, suc, ◌≡◌, refl, sym, ap, ◌∙◌, ◌↔◌, inl, inr, Bool, true, false, Option, none, some,
  arith, Bool-cases, Option-cases, Error,
}
use runetale.Common.Int.{ℤ, eqb_ℤ}
use runetale.Backoff.Policy.{stop, BackOff}
use runetale.Backoff.Retry.{
  as_permanent, Surroundings, Returned, notified, stop_error, after_wait, after_next, after_failure,
  after_operation, retry_loop, stop_deferred, do_retry_notify,
}

module _ {T W : Type 0} (env : Surroundings T W) (b : BackOff W) where
  -- The data and the error of a run of the operation, and the world after it.
  abbrev pub data_at : W → T
  data_at w = (env.operation w).0.0

  abbrev pub error_at : W → Option Error
  error_at w = (env.operation w).0.1

  abbrev pub ran : W → W
  ran w = (env.operation w).1

  -- What NextBackOff gives after that run: the interval, the policy and the world.
  abbrev pub next_at : b.State → W → ℤ × b.State × W
  next_at s w = b.next_back_off s (ran w)

  -- The `select` after the run failed with `e`: whether the timer fired, and the world.
  abbrev pub waited : b.State → W → Error → Bool × W
  waited s w e =
      let (next, s', w') = next_at s w in
      env.fired (env.start_timer next (notified env b e next w'))

  -- How a loop that starts with the policy `s` in the world `w` returns `r`: at its first run, by
  -- success, a permanent error, the policy or the context, or after that run and a wait.
  pub data Run : b.State → W → Returned env b → Type 0 where
    succeeded :
        (s : b.State) (w : W) {r : Returned env b}
        → error_at w ≡ none
        → r ≡ ((data_at w, none), s, ran w)
        → Run s w r
    unwrapped :
        (s : b.State) (w : W) (e inner : Error) {r : Returned env b}
        → error_at w ≡ some e
        → as_permanent e ≡ some inner
        → r ≡ ((data_at w, some inner), s, ran w)
        → Run s w r
    stopped :
        (s : b.State) (w : W) (e : Error) {r : Returned env b}
        → error_at w ≡ some e
        → as_permanent e ≡ none
        → eqb_ℤ (next_at s w).0 stop ≡ true
        → r ≡ ((data_at w, stop_error env b e (next_at s w).2), (next_at s w).1, (next_at s w).2)
        → Run s w r
    cancelled :
        (s : b.State) (w : W) (e : Error) {r : Returned env b}
        → error_at w ≡ some e
        → as_permanent e ≡ none
        → eqb_ℤ (next_at s w).0 stop ≡ false
        → (waited s w e).0 ≡ false
        → r ≡ ((data_at w, env.context_err (waited s w e).1), (next_at s w).1, (waited s w e).1)
        → Run s w r
    retried :
        (s : b.State) (w : W) (e : Error) {r : Returned env b}
        → error_at w ≡ some e
        → as_permanent e ≡ none
        → eqb_ℤ (next_at s w).0 stop ≡ false
        → (waited s w e).0 ≡ true
        → Run (next_at s w).1 (waited s w e).1 r
        → Run s w r

  -- One round of the loop, by how its first run ends.
  round-succeeded :
      (fuel : ℕ) (s : b.State) (w : W)
      → error_at w ≡ none
      → retry_loop env b (suc fuel) s w ≡ some ((data_at w, none), s, ran w)
  unfolding retry_loop after_operation
  round-succeeded fuel s w e = ground (arith, e)

  round-unwrapped :
      (fuel : ℕ) (s : b.State) (w : W) (e inner : Error)
      → error_at w ≡ some e
      → as_permanent e ≡ some inner
      → retry_loop env b (suc fuel) s w ≡ some ((data_at w, some inner), s, ran w)
  unfolding retry_loop after_operation after_failure
  round-unwrapped fuel s w e inner is p = ground (arith, is, p)

  round-stopped :
      (fuel : ℕ) (s : b.State) (w : W) (e : Error)
      → error_at w ≡ some e
      → as_permanent e ≡ none
      → eqb_ℤ (next_at s w).0 stop ≡ true
      → retry_loop env b (suc fuel) s w
        ≡ some ((data_at w, stop_error env b e (next_at s w).2), (next_at s w).1, (next_at s w).2)
  unfolding retry_loop after_operation after_failure after_next
  round-stopped fuel s w e is p last = ground (arith, is, p, last)

  round-waited :
      (fuel : ℕ) (s : b.State) (w : W) (e : Error)
      → error_at w ≡ some e
      → as_permanent e ≡ none
      → eqb_ℤ (next_at s w).0 stop ≡ false
      → retry_loop env b (suc fuel) s w
        ≡ after_wait env b (retry_loop env b fuel) (data_at w) (next_at s w).1 (waited s w e)
  unfolding retry_loop after_operation after_failure after_next
  round-waited fuel s w e is p more = ground (arith, is, p, more)

  round-cancelled :
      (fuel : ℕ) (s : b.State) (w : W) (e : Error)
      → error_at w ≡ some e
      → as_permanent e ≡ none
      → eqb_ℤ (next_at s w).0 stop ≡ false
      → (waited s w e).0 ≡ false
      → retry_loop env b (suc fuel) s w
        ≡ some ((data_at w, env.context_err (waited s w e).1), (next_at s w).1, (waited s w e).1)
  unfolding after_wait
  round-cancelled fuel s w e is p more cut =
      round-waited fuel s w e is p more
      ∙ ap
          (λ f.
            after_wait env b (retry_loop env b fuel) (data_at w) (next_at s w).1
              (f, (waited s w e).1))
          cut

  round-retried :
      (fuel : ℕ) (s : b.State) (w : W) (e : Error)
      → error_at w ≡ some e
      → as_permanent e ≡ none
      → eqb_ℤ (next_at s w).0 stop ≡ false
      → (waited s w e).0 ≡ true
      → retry_loop env b (suc fuel) s w ≡ retry_loop env b fuel (next_at s w).1 (waited s w e).1
  unfolding after_wait
  round-retried fuel s w e is p more fired =
      round-waited fuel s w e is p more
      ∙ ap
          (λ f.
            after_wait env b (retry_loop env b fuel) (data_at w) (next_at s w).1
              (f, (waited s w e).1))
          fired

  same_result : {x r : Returned env b} → some x ≡ some r → r ≡ x
  same_result {x} e = ap (λ o. elim o [ none ↦ x | some y ↦ y ]) (sym e)

  retry_loop-Run :
      (fuel : ℕ) (s : b.State) (w : W) {r : Returned env b}
      → retry_loop env b fuel s w ≡ some r
      → Run s w r
  unfolding retry_loop
  retry_loop-Run zero s w h = absurd (ground (arith, h))
  retry_loop-Run (suc fuel) s w h = elim (Option-cases (error_at w)) [
    | inl fine ↦ succeeded s w fine (same_result (sym (round-succeeded fuel s w fine) ∙ h))
    | inr (e, is) ↦ elim (Option-cases (as_permanent e)) [
      | inr (inner, p) ↦
          unwrapped s w e inner is p (same_result (sym (round-unwrapped fuel s w e inner is p) ∙ h))
      | inl p ↦ elim (Bool-cases (eqb_ℤ (next_at s w).0 stop)) [
        | inl last ↦
            stopped s w e is p last (same_result (sym (round-stopped fuel s w e is p last) ∙ h))
        | inr more ↦ elim (Bool-cases (waited s w e).0) [
          | inr cut ↦
              cancelled s w e is p more cut
                (same_result (sym (round-cancelled fuel s w e is p more cut) ∙ h))
          | inl fired ↦ retried s w e is p more fired (
              retry_loop-Run fuel (next_at s w).1 (waited s w e).1
                (sym (round-retried fuel s w e is p more fired) ∙ h))
        ]
      ]
    ]
  ]

  Run-retry_loop :
      {s : b.State} {w : W} {r : Returned env b}
      → Run s w r
      → (fuel : ℕ) × (retry_loop env b fuel s w ≡ some r)
  Run-retry_loop (succeeded s w is e) = (1, round-succeeded 0 s w is ∙ ap some (sym e))
  Run-retry_loop (unwrapped s w x inner is p e) =
      (1, round-unwrapped 0 s w x inner is p ∙ ap some (sym e))
  Run-retry_loop (stopped s w x is p last e) =
      (1, round-stopped 0 s w x is p last ∙ ap some (sym e))
  Run-retry_loop (cancelled s w x is p more cut e) =
      (1, round-cancelled 0 s w x is p more cut ∙ ap some (sym e))
  Run-retry_loop (retried s w x is p more fired rest) =
      let (fuel, e) = Run-retry_loop rest in
      (suc fuel, round-retried fuel s w x is p more fired ∙ e)

  -- Stopping the timer on the way out.
  abbrev pub timer_stopped : Returned env b → Returned env b
  timer_stopped (o, s, w) = (o, s, env.stop_timer w)

  stop_deferred-some :
      (o : Option (Returned env b)) {r : Returned env b}
      → stop_deferred env b o ≡ some r
      → (r' : Returned env b) × (o ≡ some r') × (r ≡ timer_stopped r')
  unfolding stop_deferred
  stop_deferred-some none e = cc
  stop_deferred-some (some r') e = (r', refl, same_result e)

  stop_deferred-back :
      (o : Option (Returned env b)) (r' : Returned env b)
      → o ≡ some r'
      → stop_deferred env b o ≡ some (timer_stopped r')
  unfolding stop_deferred
  stop_deferred-back o r' e = ap (stop_deferred env b) e

  pub do_retry_notify-Run :
      (s : b.State) (w : W) (r : Returned env b)
      → ((fuel : ℕ) × (do_retry_notify env b fuel s w ≡ some r))
        ↔ ((r' : Returned env b) × Run (b.reset s w).0 (b.reset s w).1 r' × (r ≡ timer_stopped r'))
  unfolding do_retry_notify
  do_retry_notify-Run s w r = (
    λ (fuel, e).
        let (r', run, is) =
          stop_deferred-some (retry_loop env b fuel (b.reset s w).0 (b.reset s w).1) e in
        (r', retry_loop-Run fuel (b.reset s w).0 (b.reset s w).1 run, is),
    λ (r', run, is).
        let (fuel, e) = Run-retry_loop run in (fuel, stop_deferred-back _ r' e ∙ ap some (sym is)),
  )

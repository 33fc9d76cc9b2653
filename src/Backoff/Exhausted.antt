-- ===== src/Backoff/Exhausted.antt =====
-- backoff/backoff.go: an operation that always fails uses up the tries.
use native.Mathlib.Decide.{ℕ_discrete as dec_eq}
use runetale.Common.{
  ℕ, zero, suc, ◌+◌, ◌^◌, ◌≤◌, ◌<◌, ◌≡◌, true, false, Option, none, some, arith, Error,
}
use runetale.Common.Int.{eqb_ℤ}
use runetale.Backoff.Policy.{
  stop, BackOff, BackOffTries, tries_next_back_off, tries_reset, back_off_tries, with_max_retries,
}
use runetale.Backoff.Retry.{
  as_permanent, Surroundings, Returned, notified, stop_error, after_wait, after_next, after_failure,
  after_operation, retry_loop, do_retry_notify,
}
use runetale.Backoff.Tries.{Counts, Bounded, stop_deferred-Bounded}

module _ {T W : Type 0} (env : Surroundings T W) (b : BackOff W) where
  -- Every run fails with an error that is not permanent, the delegate never stops, and the wait
  -- always ends by the timer.
  pub record KeepsFailing : Type 0 where
    pub failure : W → Error
    pub fails : (w : W) → (env.operation w).0.1 ≡ some (failure w)
    pub transient : (w : W) → as_permanent (failure w) ≡ none
    pub goes_on : (s : b.State) (w : W) → eqb_ℤ (b.next_back_off s w).0 stop ≡ false
    pub fires : (w : W) → (env.fired w).0 ≡ true

  module _ (count : W → ℕ) (c : Counts env b count) (f : KeepsFailing) where
    open f use {failure, fails, transient, goes_on, fires}

    abbrev Exactly : ℕ → Option (Returned env (back_off_tries b)) → Type 0
    Exactly n = Bounded env b count n n

    -- The last try: the limit is reached.
    after_failure-last :
        (again : BackOffTries b.State → W → Option (Returned env (back_off_tries b))) (res : T)
        (u w : W) (t : BackOffTries b.State)
        → t.max_tries ≡ t.num_tries
        → after_failure env (back_off_tries b) again res (failure u) none t w
          ≡ some ((res, stop_error env (back_off_tries b) (failure u) w), t, w)
    unfolding after_failure after_next after_wait tries_next_back_off
    after_failure-last again res u w t e = ground arith

    -- Any other try: the next round follows, with one try less.
    after_failure-more :
        (again : BackOffTries b.State → W → Option (Returned env (back_off_tries b))) (res : T)
        (u w : W) (t : BackOffTries b.State)
        → t.num_tries < t.max_tries
        → t.max_tries < 2 ^ 64
        → let (next, s, w₁) = b.next_back_off t.delegate w in
          let w₂ = env.start_timer next (notified env b (failure u) next w₁) in
          after_failure env (back_off_tries b) again res (failure u) none t w
          ≡ again (record t { delegate = s; num_tries = t.num_tries + 1 }) (env.fired w₂).1
    unfolding after_failure after_next after_wait tries_next_back_off
    after_failure-more again res u w t lt m =
        let (next, s, w₁) = b.next_back_off t.delegate w in
        ground (
          arith,
          goes_on t.delegate w,
          fires (env.start_timer next (notified env b (failure u) next w₁)),
        )

    -- One round, whose run of the operation is counted.
    after_operation-Exactly :
        (again : BackOffTries b.State → W → Option (Returned env (back_off_tries b))) (n : ℕ)
        (w : W) (t : BackOffTries b.State)
        → t.max_tries < 2 ^ 64
        → (t.max_tries ≡ t.num_tries → n ≡ count w + 1)
        → t.num_tries ≤ t.max_tries
        → ((s : b.State) (w' : W)
            → t.num_tries < t.max_tries
            → count w' ≡ count w + 1
            → Exactly n (again (record t { delegate = s; num_tries = t.num_tries + 1 }) w'))
        → let ((res, e), w₁) = env.operation w in
          Exactly n (after_operation env (back_off_tries b) again res e t w₁)
    unfolding after_operation
    after_operation-Exactly again n w t m at_last le k =
        let ((res, e), w₁) = env.operation w in
        let counted = c.operation_once w in
        let (next, s, w₂) = b.next_back_off t.delegate w₁ in
        let w₃ = notified env b (failure w) next w₂ in
        let w₄ = env.start_timer next w₃ in
        rw (fails w, transient w)
          (elim (dec_eq t.max_tries t.num_tries) [
            | yes last ↦ rw (after_failure-last again res w w₁ t last) (omega arith, omega arith)
            | no more ↦ rw (after_failure-more again res w w₁ t (omega arith) m) (
                k s (env.fired w₄).1 (omega arith) (
                  omega (
                    arith,
                    c.next_quiet t.delegate w₁,
                    c.notify_quiet (failure w) next w₂,
                    c.start_quiet next w₃,
                    c.fired_quiet w₄,
                  )))
          ])

    retry_loop-Exactly :
        (k n : ℕ) (t : BackOffTries b.State) (w : W)
        → t.max_tries ≡ t.num_tries + k
        → t.max_tries < 2 ^ 64
        → n ≡ count w + k + 1
        → Exactly n (retry_loop env (back_off_tries b) (suc k) t w)
    unfolding retry_loop
    retry_loop-Exactly zero n t w e m h =
        after_operation-Exactly (retry_loop env (back_off_tries b) zero) n w t m (λ _. omega arith)
          (omega arith) (λ s w' more same. absurd (omega arith))
    retry_loop-Exactly (suc k) n t w e m h =
        after_operation-Exactly (retry_loop env (back_off_tries b) (suc k)) n w t m
          (λ last. absurd (omega arith)) (omega arith)
          λ s w' more same.
            retry_loop-Exactly k n (record t { delegate = s; num_tries = t.num_tries + 1 }) w'
              (omega arith) m (omega arith)

    -- If every run fails with an error that is not permanent, the delegate never stops and every
    -- wait ends by the timer, then under `WithMaxRetries(b, max)` the retry loop returns after
    -- exactly max + 1 runs of the operation.
    pub do_retry_notify-exhausts :
        (max : ℕ) (s : b.State) (w : W)
        → max < 2 ^ 64
        → Bounded env b count
            (count w + max + 1)
            (count w + max + 1)
            (do_retry_notify env (back_off_tries b) (suc max) (with_max_retries b s max) w)
    unfolding do_retry_notify with_max_retries tries_reset
    do_retry_notify-exhausts max s w lt =
        let (s', w') = b.reset s w in
        let same = c.reset_quiet s w in
        let n = count w + max + 1 in
        let t =
          let r : BackOffTries b.State = record { delegate = s'; max_tries = max; num_tries = 0 } in
          r in
        stop_deferred-Bounded env b count c n n (retry_loop env (back_off_tries b) (suc max) t w')
          (retry_loop-Exactly max n t w' (omega arith) lt (omega arith))

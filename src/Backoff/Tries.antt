-- ===== src/Backoff/Tries.antt =====
-- backoff/backoff.go: the retry loop under a limit on the tries.
use runetale.Common.{ℕ, zero, suc, ◌+◌, ◌^◌, ◌≤◌, ◌<◌, ◌≡◌, Option, none, some, arith, Error}
use runetale.Common.Int.{ℤ}
use runetale.Backoff.Policy.{
  BackOff, BackOffTries, tries_next_back_off, tries_reset, back_off_tries, with_max_retries,
}
use runetale.Backoff.Retry.{
  as_permanent, Surroundings, Returned, notified, after_wait, after_next, after_failure,
  after_operation, retry_loop, stop_deferred, do_retry_notify,
}

module _ {T W : Type 0} (env : Surroundings T W) (b : BackOff W) where
  -- `count` counts the runs of the operation: nothing else changes it.
  pub record Counts (count : W → ℕ) : Type 0 where
    pub operation_once : (w : W) → count (env.operation w).1 ≡ count w + 1
    pub next_quiet : (s : b.State) (w : W) → count (b.next_back_off s w).2 ≡ count w
    pub reset_quiet : (s : b.State) (w : W) → count (b.reset s w).1 ≡ count w
    pub notify_quiet : (e : Error) (d : ℤ) (w : W) → count (notified env b e d w) ≡ count w
    pub start_quiet : (d : ℤ) (w : W) → count (env.start_timer d w) ≡ count w
    pub stop_quiet : (w : W) → count (env.stop_timer w) ≡ count w
    pub fired_quiet : (w : W) → count (env.fired w).1 ≡ count w

  module _ (count : W → ℕ) where
    -- The loop returned, and `count` lies between the bounds then.
    abbrev pub Bounded : ℕ → ℕ → Option (Returned env (back_off_tries b)) → Type 0
    Bounded lo hi none = ⊥
    Bounded lo hi (some (r, s, w)) = (lo ≤ count w) × (count w ≤ hi)

    pub Bounded-mono :
        (lo lo' hi hi' : ℕ) (o : Option (Returned env (back_off_tries b)))
        → lo' ≤ lo
        → hi ≤ hi'
        → Bounded lo hi o
        → Bounded lo' hi' o
    Bounded-mono lo lo' hi hi' none l h x = x
    Bounded-mono lo lo' hi hi' (some (r, s, w)) l h x = (omega arith, omega arith)

    module _ (c : Counts count) where
      -- A failed round ends the loop, or goes on with one try less and the count unchanged.
      after_failure-Bounded :
          (again : BackOffTries b.State → W → Option (Returned env (back_off_tries b))) (lo hi : ℕ)
          (res : T) (e : Error) (p : Option Error) (t : BackOffTries b.State) (w : W)
          → lo ≤ count w
          → count w ≤ hi
          → t.max_tries < 2 ^ 64
          → ((s : b.State) (w' : W)
              → t.num_tries < t.max_tries
              → count w' ≡ count w
              → Bounded lo hi (again (record t { delegate = s; num_tries = t.num_tries + 1 }) w'))
          → Bounded lo hi (after_failure env (back_off_tries b) again res e p t w)
      unfolding after_failure after_next after_wait tries_next_back_off
      after_failure-Bounded again lo hi res e (some inner) t w l h m k = (l, h)
      after_failure-Bounded again lo hi res e none t w l h m k =
          let (next, s, w₁) = b.next_back_off t.delegate w in
          let w₂ = env.start_timer next (notified env b e next w₁) in
          ground (
            arith,
            c.next_quiet t.delegate w,
            c.notify_quiet e next w₁,
            c.start_quiet next (notified env b e next w₁),
            c.fired_quiet w₂,
            k s (env.fired w₂).1,
          )

      after_operation-Bounded :
          (again : BackOffTries b.State → W → Option (Returned env (back_off_tries b))) (lo hi : ℕ)
          (res : T) (e : Option Error) (t : BackOffTries b.State) (w : W)
          → lo ≤ count w
          → count w ≤ hi
          → t.max_tries < 2 ^ 64
          → ((s : b.State) (w' : W)
              → t.num_tries < t.max_tries
              → count w' ≡ count w
              → Bounded lo hi (again (record t { delegate = s; num_tries = t.num_tries + 1 }) w'))
          → Bounded lo hi (after_operation env (back_off_tries b) again res e t w)
      unfolding after_operation
      after_operation-Bounded again lo hi res none t w l h m k = (l, h)
      after_operation-Bounded again lo hi res (some e) t w l h m k =
          after_failure-Bounded again lo hi res e (as_permanent e) t w l h m k

      -- With `k` tries left, fuel for `k + 1` rounds is enough.
      retry_loop-Bounded :
          (k lo hi : ℕ) (t : BackOffTries b.State) (w : W)
          → t.max_tries ≡ t.num_tries + k
          → t.max_tries < 2 ^ 64
          → lo ≤ count w + 1
          → count w + k + 1 ≤ hi
          → Bounded lo hi (retry_loop env (back_off_tries b) (suc k) t w)
      unfolding retry_loop
      retry_loop-Bounded zero lo hi t w e lt l h =
          let ((res, f), w₁) = env.operation w in
          let counted = c.operation_once w in
          after_operation-Bounded (retry_loop env (back_off_tries b) zero) lo hi res f t w₁
            (omega arith) (omega arith) lt (λ s w' more same. absurd (omega arith))
      retry_loop-Bounded (suc k) lo hi t w e lt l h =
          let ((res, f), w₁) = env.operation w in
          let counted = c.operation_once w in
          after_operation-Bounded (retry_loop env (back_off_tries b) (suc k)) lo hi res f t w₁
            (omega arith) (omega arith) lt
            λ s w' more same.
              retry_loop-Bounded k lo hi (record t { delegate = s; num_tries = t.num_tries + 1 }) w'
                (omega arith) lt (omega arith) (omega arith)

      pub stop_deferred-Bounded :
          (lo hi : ℕ) (o : Option (Returned env (back_off_tries b)))
          → Bounded lo hi o
          → Bounded lo hi (stop_deferred env (back_off_tries b) o)
      unfolding stop_deferred
      stop_deferred-Bounded lo hi none h = h
      stop_deferred-Bounded lo hi (some (r, s, w)) h = rw (c.stop_quiet w) h

      -- Under `WithMaxRetries(b, max)` the retry loop always returns, with fuel for max + 1 rounds,
      -- and has then run the operation at least once and at most max + 1 times.
      pub do_retry_notify-with_max_retries :
          (max : ℕ) (s : b.State) (w : W)
          → max < 2 ^ 64
          → Bounded
              (count w + 1)
              (count w + max + 1)
              (do_retry_notify env (back_off_tries b) (suc max) (with_max_retries b s max) w)
      unfolding do_retry_notify with_max_retries tries_reset
      do_retry_notify-with_max_retries max s w lt =
          let (s', w') = b.reset s w in
          let same = c.reset_quiet s w in
          stop_deferred-Bounded (count w + 1) (count w + max + 1)
            (retry_loop env (back_off_tries b) (suc max)
              (record { delegate = s'; max_tries = max; num_tries = 0 }) w')
            (retry_loop-Bounded max (count w + 1) (count w + max + 1)
              (record { delegate = s'; max_tries = max; num_tries = 0 }) w' (omega arith) lt
              (omega arith) (omega arith))

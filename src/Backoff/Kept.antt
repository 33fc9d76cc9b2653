-- ===== src/Backoff/Kept.antt =====
-- backoff/backoff.go: what every run of the operation keeps, the retry loop keeps.
use runetale.Common.{
  ℕ, zero, suc, inl, inr, Bool, true, false, Option, none, some, arith, Bool-cases, Error,
}
use runetale.Common.Int.{ℤ, eqb_ℤ}
use runetale.Backoff.Policy.{stop, BackOff, tries_next_back_off, tries_reset, back_off_tries}
use runetale.Backoff.Retry.{
  as_permanent, Surroundings, Returned, notified, after_wait, after_next, after_failure,
  after_operation, retry_loop, stop_deferred, do_retry_notify,
}

module _ {T W : Type 0} (env : Surroundings T W) (b : BackOff W) (P : W → Type 0) where
  -- Nothing that the loop calls breaks `P`.
  pub record Keeps : Type 0 where
    pub operation_keeps : (w : W) → P w → P (env.operation w).1
    pub next_keeps : (s : b.State) (w : W) → P w → P (b.next_back_off s w).2
    pub reset_keeps : (s : b.State) (w : W) → P w → P (b.reset s w).1
    pub notify_keeps : (e : Error) (d : ℤ) (w : W) → P w → P (notified env b e d w)
    pub start_keeps : (d : ℤ) (w : W) → P w → P (env.start_timer d w)
    pub stop_keeps : (w : W) → P w → P (env.stop_timer w)
    pub fired_keeps : (w : W) → P w → P (env.fired w).1

  abbrev pub Kept : Option (Returned env b) → Type 0
  Kept none = Unit
  Kept (some (r, s, w)) = P w

  module _ (h : Keeps) where
    after_wait-Kept :
        (again : b.State → W → Option (Returned env b)) (res : T) (s : b.State) (f : Bool × W)
        → P f.1
        → ((s' : b.State) (w' : W) → P w' → Kept (again s' w'))
        → Kept (after_wait env b again res s f)
    unfolding after_wait
    after_wait-Kept again res s (true, w) p k = k s w p
    after_wait-Kept again res s (false, w) p k = p

    after_failure-Kept :
        (again : b.State → W → Option (Returned env b)) (res : T) (e : Error) (i : Option Error)
        (s : b.State) (w : W)
        → P w
        → ((s' : b.State) (w' : W) → P w' → Kept (again s' w'))
        → Kept (after_failure env b again res e i s w)
    unfolding after_failure after_next
    after_failure-Kept again res e (some inner) s w p k = p
    after_failure-Kept again res e none s w p k =
        let (next, s', w₁) = b.next_back_off s w in
        let p₁ = h.next_keeps s w p in
        let p₂ = h.start_keeps next _ (h.notify_keeps e next w₁ p₁) in
        elim (Bool-cases (eqb_ℤ next stop)) [
          | inl last ↦ rw last p₁
          | inr more ↦ rw more (after_wait-Kept again res s' _ (h.fired_keeps _ p₂) k)
        ]

    after_operation-Kept :
        (again : b.State → W → Option (Returned env b)) (res : T) (e : Option Error) (s : b.State)
        (w : W)
        → P w
        → ((s' : b.State) (w' : W) → P w' → Kept (again s' w'))
        → Kept (after_operation env b again res e s w)
    unfolding after_operation
    after_operation-Kept again res none s w p k = p
    after_operation-Kept again res (some e) s w p k =
        after_failure-Kept again res e (as_permanent e) s w p k

    retry_loop-Kept : (fuel : ℕ) (s : b.State) (w : W) → P w → Kept (retry_loop env b fuel s w)
    unfolding retry_loop
    retry_loop-Kept zero s w p = tt
    retry_loop-Kept (suc fuel) s w p =
        let ((res, e), w₁) = env.operation w in
        after_operation-Kept (retry_loop env b fuel) res e s w₁ (h.operation_keeps w p)
          (retry_loop-Kept fuel)

    stop_deferred-Kept : (o : Option (Returned env b)) → Kept o → Kept (stop_deferred env b o)
    unfolding stop_deferred
    stop_deferred-Kept none p = tt
    stop_deferred-Kept (some (r, s, w)) p = h.stop_keeps w p

    pub do_retry_notify-Kept :
        (fuel : ℕ) (s : b.State) (w : W) → P w → Kept (do_retry_notify env b fuel s w)
    unfolding do_retry_notify
    do_retry_notify-Kept fuel s w p =
        let (s', w') = b.reset s w in
        stop_deferred-Kept (retry_loop env b fuel s' w')
          (retry_loop-Kept fuel s' w' (h.reset_keeps s w p))

-- A limit on the tries changes nothing of this.
pub tries-Keeps :
    {T W : Type 0} (env : Surroundings T W) (b : BackOff W) (P : W → Type 0)
    → Keeps env b P
    → Keeps env (back_off_tries b) P
unfolding tries_next_back_off tries_reset
tries-Keeps env b P h = record {
  operation_keeps = h.operation_keeps;
  next_keeps = λ t w p. ground (arith, h.next_keeps t.delegate w p);
  reset_keeps = λ t w p. h.reset_keeps t.delegate w p;
  notify_keeps = h.notify_keeps;
  start_keeps = h.start_keeps;
  stop_keeps = h.stop_keeps;
  fired_keeps = h.fired_keeps;
}

-- ===== src/Backoff/Interval.antt =====
-- backoff/backoff.go: the intervals of ExponentialBackOff, under laws of float64.
use runetale.Common.{
  ℕ, zero, suc, ◌^◌, ◌<◌, ◌≡◌, refl, ◌∙◌, ◌≢◌, ◌⊎◌, inl, inr, false, [], arith, Bool-cases,
}
use runetale.Common.Int.{ℤ, pos, pos_part, neg_part, ◌+ℤ◌, ◌≤ℤ◌, wrap64, eqb_ℤ→eq}
use runetale.Backoff.Exponential.{
  Float64, Sources, default_max_interval, over_limit, ExponentialBackOff,
  increment_current_interval, get_random_value_from_interval, get_elapsed_time,
  exponential_next_back_off, new_exponential_back_off,
}

-- A duration below 2 ^ 53 ns, which a float64 holds exactly.
abbrev pub Exact : ℤ → Type 0
Exact d = (neg_part d ≡ 0) × (pos_part d < 2 ^ 53)

-- What the policy relies on of float64: exact conversions of small durations, conversions and
-- products that keep the order, and that a quotient which is rounded to nearest is not exceeded by
-- a smaller float64.
pub record FloatLaws (fl : Float64) : Type 1 where
  pub Le : fl.F → fl.F → Type 0
  pub Lt : fl.F → fl.F → Type 0
  pub AtLeastOne : fl.F → Type 0
  pub ge_false : (x y : fl.F) → fl.ge x y ≡ false → Lt x y
  pub to_duration_mono : (x y : fl.F) → Le x y → fl.to_duration x ≤ℤ fl.to_duration y
  pub to_duration-of_duration : (d : ℤ) → Exact d → fl.to_duration (fl.of_duration d) ≡ d
  pub mul_le_of_lt_div :
      (x m : fl.F) (d : ℤ)
      → AtLeastOne m
      → Exact d
      → Lt x (fl.div (fl.of_duration d) m)
      → Le (fl.mul x m) (fl.of_duration d)
  pub le_mul :
      (d : ℤ) (m : fl.F)
      → AtLeastOne m
      → Exact d
      → Le (fl.of_duration d) (fl.mul (fl.of_duration d) m)

neg_part_of_le : (a b : ℤ) → neg_part a ≡ 0 → a ≤ℤ b → neg_part b ≡ 0
neg_part_of_le a b h k = ground arith

over_limit_false :
    (max elapsed next : ℤ)
    → max ≢ pos 0
    → over_limit max elapsed next ≡ false
    → wrap64 (elapsed +ℤ next) ≤ℤ max
unfolding over_limit
over_limit_false max elapsed next h e = ground (arith, eqb_ℤ→eq max (pos 0))

module _ (fl : Float64) (laws : FloatLaws fl) where
  open laws use {AtLeastOne}

  -- The current interval lies between zero and the largest one.
  pub record IsPaced (b : ExponentialBackOff fl) : Type 0 where
    pub grows : AtLeastOne b.multiplier
    pub small : Exact b.max_interval
    pub non_negative : neg_part b.current_interval ≡ 0
    pub capped : b.current_interval ≤ℤ b.max_interval

  increment_current_interval-IsPaced :
      (b : ExponentialBackOff fl)
      → IsPaced b
      → IsPaced (increment_current_interval fl b)
        × (b.current_interval ≤ℤ (increment_current_interval fl b).current_interval)
  unfolding increment_current_interval
  increment_current_interval-IsPaced b p =
      elim (Bool-cases (
        fl.ge (fl.of_duration b.current_interval)
          (fl.div (fl.of_duration b.max_interval) b.multiplier))) [
            | inl top ↦ rw top (
              record {
                grows = p.grows;
                small = p.small;
                non_negative = omega arith;
                capped = omega arith;
              },
              p.capped,
            )
            | inr below ↦ rw below (
                let x = fl.of_duration b.current_interval in
                let exact : Exact b.current_interval = (p.non_negative, omega arith) in
                let up = rw (laws.to_duration-of_duration b.current_interval exact) at (
                  laws.to_duration_mono x (fl.mul x b.multiplier)
                    (laws.le_mul b.current_interval b.multiplier p.grows exact)) in
                let down = rw (laws.to_duration-of_duration b.max_interval p.small) at (
                  laws.to_duration_mono (fl.mul x b.multiplier) (fl.of_duration b.max_interval) (
                    laws.mul_le_of_lt_div x b.multiplier b.max_interval p.grows p.small (
                      laws.ge_false x (fl.div (fl.of_duration b.max_interval) b.multiplier)
                        below))) in
                (
                  record {
                    grows = p.grows;
                    small = p.small;
                    non_negative = neg_part_of_le b.current_interval _ p.non_negative up;
                    capped = down;
                  },
                  up,
                ))
          ]

  module _ {W : Type 0} (src : Sources fl W) where
    -- `NextBackOff` keeps the current interval between zero and the largest one and never lowers
    -- it. With a limit on the elapsed time it returns the stop value or a wait that ends, counted
    -- in int64, within the limit.
    pub exponential_next_back_off-IsPaced :
        (b : ExponentialBackOff fl) (w : W)
        → IsPaced b
        → let (next, b', w') = exponential_next_back_off fl src b w in
          IsPaced b'
          × (b.current_interval ≤ℤ b'.current_interval)
          × (b.max_elapsed_time ≢ pos 0
              → (next ≡ b.stop_value)
                ⊎ (wrap64 ((get_elapsed_time fl src b w).0 +ℤ next) ≤ℤ b.max_elapsed_time))
    unfolding exponential_next_back_off
    exponential_next_back_off-IsPaced b w p =
        let elapsed = (get_elapsed_time fl src b w).0 in
        let random = (src.random (get_elapsed_time fl src b w).1).0 in
        let next =
          get_random_value_from_interval fl b.randomization_factor random b.current_interval in
        let (paced, up) = increment_current_interval-IsPaced b p in
        (
          paced,
          up,
          λ limited. elim (Bool-cases (over_limit b.max_elapsed_time elapsed next)) [
            | inl over ↦ inl (rw over)
            | inr inside ↦
                inr (rw inside (over_limit_false b.max_elapsed_time elapsed next limited inside))
          ],
        )

    -- The policy after `NextBackOff` has been called `k` times.
    abbrev pub after_calls : ℕ → ExponentialBackOff fl → W → ExponentialBackOff fl
    after_calls zero b w = b
    after_calls (suc k) b w =
        let (next, b', w') = exponential_next_back_off fl src b w in after_calls k b' w'

    after_calls-IsPaced :
        (k : ℕ) (b : ExponentialBackOff fl) (w : W) → IsPaced b → IsPaced (after_calls k b w)
    after_calls-IsPaced zero b w p = p
    after_calls-IsPaced (suc k) b w p =
        let (next, b', w') = exponential_next_back_off fl src b w in
        after_calls-IsPaced k b' w' (exponential_next_back_off-IsPaced b w p).0

    max_interval-next :
        (b : ExponentialBackOff fl) (w : W)
        → (exponential_next_back_off fl src b w).1.max_interval ≡ b.max_interval
    unfolding exponential_next_back_off increment_current_interval
    max_interval-next b w = ground arith

    max_interval-after_calls :
        (k : ℕ) (b : ExponentialBackOff fl) (w : W)
        → (after_calls k b w).max_interval ≡ b.max_interval
    max_interval-after_calls zero b w = refl
    max_interval-after_calls (suc k) b w =
        let (next, b', w') = exponential_next_back_off fl src b w in
        max_interval-after_calls k b' w' ∙ max_interval-next b w

    -- If the constant 1.5 is at least one, the current interval of the policy that
    -- `NewExponentialBackOff()` makes is never negative and never above 60 s, however often
    -- `NextBackOff` is called.
    pub new_exponential_back_off-capped :
        (k : ℕ) (w : W)
        → AtLeastOne (fl.literal 3 2)
        → let (b, w') = new_exponential_back_off fl src [] w in
          (pos 0 ≤ℤ (after_calls k b w').current_interval)
          × ((after_calls k b w').current_interval ≤ℤ default_max_interval)
    unfolding new_exponential_back_off
    new_exponential_back_off-capped k w h =
        let (b, w') = new_exponential_back_off fl src [] w in
        let p = after_calls-IsPaced k b w' (record {
          grows = h;
          small = omega arith;
          non_negative = omega arith;
          capped = omega arith;
        }) in
        (omega (arith, p.non_negative), rw (max_interval-after_calls k b w') at p.capped)

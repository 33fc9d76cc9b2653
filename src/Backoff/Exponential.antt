-- ===== src/Backoff/Exponential.antt =====
-- backoff/backoff.go: ExponentialBackOff. Its float64 arithmetic is a parameter; durations are
-- int64 nanoseconds.
use runetale.Common.{ℕ, ◌-◌, ◌*◌, ◌^◌, Bool, not, ◌&&◌, List, [], ◌∷◌, if◌then◌else◌}
use runetale.Common.Int.{ℤ, pos, negsuc, ◌+ℤ◌, ◌-ℤ◌, ltb_ℤ, eqb_ℤ, wrap64}
use runetale.Backoff.Policy.{stop, BackOff}

-- float64: the operations that the source uses. `literal a b` is the constant a / b.
pub record Float64 : Type 1 where
  pub F : Type 0
  pub of_duration : ℤ → F
  pub to_duration : F → ℤ
  pub literal : ℕ → ℕ → F
  pub add : F → F → F
  pub sub : F → F → F
  pub mul : F → F → F
  pub div : F → F → F
  pub ge : F → F → Bool
  pub is_zero : F → Bool

-- What a call can ask of the world: the time in nanoseconds, and `rand.Float64`.
pub record Sources (fl : Float64) (W : Type 0) : Type 0 where
  pub now : W → ℤ × W
  pub random : W → fl.F × W

abbrev pub millisecond : ℕ
millisecond = 1_000_000

abbrev pub second : ℕ
second = 1000 * millisecond

abbrev pub default_initial_interval : ℤ
default_initial_interval = pos (500 * millisecond)

abbrev pub default_max_interval : ℤ
default_max_interval = pos (60 * second)

abbrev pub default_max_elapsed_time : ℤ
default_max_elapsed_time = pos (15 * 60 * second)

-- `Time.Sub`, which stops at the bounds of an int64.
abbrev pub sub_time : ℤ → ℤ → ℤ
sub_time a b =
    let d = a -ℤ b in
    if ltb_ℤ (pos (2 ^ 63 - 1)) d
    then pos (2 ^ 63 - 1)
    else if ltb_ℤ d (negsuc (2 ^ 63 - 1))
    then negsuc (2 ^ 63 - 1)
    else d

-- `b.MaxElapsedTime != 0 && elapsed+next > b.MaxElapsedTime`
unfoldable pub over_limit : ℤ → ℤ → ℤ → Bool
over_limit max elapsed next = not (eqb_ℤ max (pos 0)) && ltb_ℤ max (wrap64 (elapsed +ℤ next))

pub record ExponentialBackOff (fl : Float64) : Type 0 where
  pub initial_interval : ℤ
  pub randomization_factor : fl.F
  pub multiplier : fl.F
  pub max_interval : ℤ
  pub max_elapsed_time : ℤ
  pub stop_value : ℤ
  pub current_interval : ℤ
  pub start_time : ℤ

module _ (fl : Float64) where
  open fl use {F, of_duration, to_duration, literal, add, sub, mul, div, ge, is_zero}

  unfoldable pub increment_current_interval : ExponentialBackOff fl → ExponentialBackOff fl
  increment_current_interval b =
      if ge (of_duration b.current_interval) (div (of_duration b.max_interval) b.multiplier)
      then record b { current_interval = b.max_interval }
      else record b {
        current_interval = to_duration (mul (of_duration b.current_interval) b.multiplier);
      }

  unfoldable pub get_random_value_from_interval : F → F → ℤ → ℤ
  get_random_value_from_interval factor random current =
      if is_zero factor
      then current
      else let delta = mul factor (of_duration current) in
        let min_interval = sub (of_duration current) delta in
        let max_interval = add (of_duration current) delta in
        to_duration
          (add min_interval (mul random (add (sub max_interval min_interval) (literal 1 1))))

  module _ {W : Type 0} (src : Sources fl W) where
    unfoldable pub get_elapsed_time : ExponentialBackOff fl → W → ℤ × W
    get_elapsed_time b w = let (t, w') = src.now w in (sub_time t b.start_time, w')

    unfoldable pub exponential_next_back_off :
        ExponentialBackOff fl → W → ℤ × ExponentialBackOff fl × W
    unfolding get_elapsed_time
    exponential_next_back_off b w =
        let (elapsed, w₁) = get_elapsed_time b w in
        let (random, w₂) = src.random w₁ in
        let next =
          get_random_value_from_interval b.randomization_factor random b.current_interval in
        let b' = increment_current_interval b in
        (if over_limit b.max_elapsed_time elapsed next then b.stop_value else next, b', w₂)

    unfoldable pub exponential_reset : ExponentialBackOff fl → W → ExponentialBackOff fl × W
    exponential_reset b w =
        let (t, w') = src.now w in
        (record b { current_interval = b.initial_interval; start_time = t }, w')

    abbrev pub exponential_back_off : BackOff W
    exponential_back_off = record {
      State = ExponentialBackOff fl;
      next_back_off = exponential_next_back_off;
      reset = exponential_reset;
    }

    -- The options run in order on the defaults, and `Reset` follows.
    unfoldable pub apply_opts :
        List (ExponentialBackOff fl → ExponentialBackOff fl)
        → ExponentialBackOff fl
        → ExponentialBackOff fl
    apply_opts [] b = b
    apply_opts (fn ∷ opts) b = apply_opts opts (fn b)

    unfoldable pub new_exponential_back_off :
        List (ExponentialBackOff fl → ExponentialBackOff fl) → W → ExponentialBackOff fl × W
    unfolding apply_opts exponential_reset
    new_exponential_back_off opts w =
        exponential_reset
          (apply_opts opts (record {
            initial_interval = default_initial_interval;
            randomization_factor = literal 1 2;
            multiplier = literal 3 2;
            max_interval = default_max_interval;
            max_elapsed_time = default_max_elapsed_time;
            stop_value = stop;
            current_interval = pos 0;
            start_time = pos 0;
          }))
          w

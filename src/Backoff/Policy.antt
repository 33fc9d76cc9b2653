-- ===== src/Backoff/Policy.antt =====
-- backoff/backoff.go: the BackOff interface and the policy that limits the number of tries.
use runetale.Common.{ℕ, ◌+◌, ◌%◌, ◌^◌, ◌&&◌, ltb, leb, ◌==◌, if◌then◌else◌}
use runetale.Common.Int.{ℤ, negsuc}

-- `Stop`: -1 ns.
abbrev pub stop : ℤ
stop = negsuc 0

-- An implementation of BackOff over the world `W`, which holds the clock and the random source.
pub record BackOff (W : Type 0) : Type 1 where
  pub State : Type 0
  pub next_back_off : State → W → ℤ × State × W
  pub reset : State → W → State × W

-- backOffTries; both counters are uint64.
pub record BackOffTries (S : Type 0) : Type 0 where
  pub delegate : S
  pub max_tries : ℕ
  pub num_tries : ℕ

module _ {W : Type 0} (b : BackOff W) where
  unfoldable pub tries_next_back_off : BackOffTries b.State → W → ℤ × BackOffTries b.State × W
  tries_next_back_off t w =
      if t.max_tries == 0
      then (stop, t, w)
      else if ltb 0 t.max_tries && leb t.max_tries t.num_tries
      then (stop, t, w)
      else let (d, s, w') = b.next_back_off t.delegate w in
        (d, record t { delegate = s; num_tries = (t.num_tries + 1) % 2 ^ 64 }, w')

  unfoldable pub tries_reset : BackOffTries b.State → W → BackOffTries b.State × W
  tries_reset t w =
      let (s, w') = b.reset t.delegate w in (record t { num_tries = 0; delegate = s }, w')

  -- The policy that `WithMaxRetries` makes of the policy `b`.
  abbrev pub back_off_tries : BackOff W
  back_off_tries = record {
    State = BackOffTries b.State;
    next_back_off = tries_next_back_off;
    reset = tries_reset;
  }

  unfoldable pub with_max_retries : b.State → ℕ → BackOffTries b.State
  with_max_retries s max = record { delegate = s; max_tries = max; num_tries = 0 }

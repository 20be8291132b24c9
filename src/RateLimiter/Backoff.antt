-- ===== src/RateLimiter/Backoff.antt =====
-- Bounds and monotonicity of the adaptive backoff.
use bb_pipeline.Common.{ℕ, ◌≡◌, ◌-◌, ◌/◌, ◌⊎◌, true, false, arith}
use bb_pipeline.Common.Double.{Double, zero_f}
use bb_pipeline.RateLimiter.{DomainState, in_backoff, elapsed_ms, decay}
use bb_pipeline.RateLimiter.Feedback.{next_delay, fail_state, success_state}

module _ (d : Double) (s : DomainState d) where
  -- After a reported failure the delay is at most the maximum, if the initial delay is.
  pub fail_state_bounded :
      (now : ℕ)
      → d.le s.backoff_config.initial_delay_ms s.backoff_config.max_delay_ms ≡ true
      → d.le (fail_state d s now).current_delay_ms s.backoff_config.max_delay_ms ≡ true
  unfolding fail_state next_delay
  fail_state_bounded now h = ground (
    arith,
    d.le_refl s.backoff_config.max_delay_ms,
    d.le_total (d.mul s.current_delay_ms s.backoff_config.multiplier) s.backoff_config.max_delay_ms,
  )

  -- A further failure never shortens the delay, if the delay is between zero and the maximum and
  -- the multiplier is at least one.
  pub fail_state_grows :
      (now : ℕ)
      → d.le (zero_f d) s.current_delay_ms ≡ true
      → d.le s.current_delay_ms s.backoff_config.max_delay_ms ≡ true
      → d.le (d.of_ratio 1 1) s.backoff_config.multiplier ≡ true
      → d.le (zero_f d) s.backoff_config.initial_delay_ms ≡ true
      → d.le s.current_delay_ms (fail_state d s now).current_delay_ms ≡ true
  unfolding fail_state next_delay
  fail_state_grows now p q m i = ground (
    arith,
    d.mul_grows s.current_delay_ms s.backoff_config.multiplier p m,
    d.le_trans s.current_delay_ms (zero_f d) s.backoff_config.initial_delay_ms,
  )

  -- A success forgets the failures, and never lengthens the delay; a halved delay below the initial
  -- one is dropped to zero.
  pub success_state_recovers :
      d.le (zero_f d) s.current_delay_ms ≡ true
      → ((success_state d s).consecutive_failures ≡ 0)
        × (d.le (success_state d s).current_delay_ms s.current_delay_ms ≡ true)
        × (((success_state d s).current_delay_ms ≡ zero_f d)
            ⊎ ((in_backoff d s ≡ false)
                ⊎ (d.le s.backoff_config.initial_delay_ms (success_state d s).current_delay_ms
                    ≡ true)))
  unfolding success_state
  success_state_recovers p =
      ground (arith, d.half_le s.current_delay_ms p, d.le_refl s.current_delay_ms)

  -- Once the time since the last failure reaches the delay, the domain is out of backoff; before
  -- that its delay stays as it is.
  pub decay_lem :
      (now : ℕ)
      → ((d.le s.current_delay_ms (elapsed_ms d s now) ≡ true)
          → in_backoff d (decay d s now) ≡ false)
        × ((d.le s.current_delay_ms (elapsed_ms d s now) ≡ false) → decay d s now ≡ s)
  unfolding decay
  decay_lem now = (
    λ h. ground (
      arith,
      d.le_refl (zero_f d),
      d.sub_nonpos s.current_delay_ms (d.of_ratio ((now - s.last_failure) / 1000000) 1) h,
    ),
    λ h. ground arith,
  )

-- ===== src/Recovery/Delays.antt =====
-- The delays before the retries.
use bb_pipeline.Common.{ℕ, ◌-◌, ◌≤◌, ◌≡◌, ◌⊎◌, true, false, arith, leb, leb→le}
use bb_pipeline.Common.Double.{Double, zero_f, min_f}
use bb_pipeline.Recovery.Context.{RetryConfig, RetryContext, base_delay, with_jitter, next_delay}

module _ (d : Double) where
  min_f-le : (a b : d.F) → d.le (min_f d a b) b ≡ true
  min_f-le a b = ground (arith, d.le_refl b, d.le_total a b)

  base_delay_bounded :
      (config : RetryConfig d) (k : ℕ)
      → leb 9007199254740992 config.max_delay ≡ false
      → base_delay d config k ≤ config.max_delay
  unfolding base_delay
  base_delay_bounded config k h =
      let x = d.mul (d.of_ratio config.initial_delay 1) (d.pow config.backoff_multiplier (k - 1)) in
      let y = d.of_ratio config.max_delay 1 in
      let m =
        leb→le (d.trunc (min_f d x y)) (d.trunc y) (d.trunc_mono (min_f d x y) y (min_f-le x y)) in
      rw (d.trunc_of config.max_delay h) at m

  -- With the jitter off, or its factor not above zero, no delay exceeds the maximum, if that is below 2^53,
  -- and there is none before the first attempt.
  pub next_delay_bounded :
      (c : RetryContext d) (draw : d.F → d.F)
      → leb 9007199254740992 c.config.max_delay ≡ false
      → (c.config.enable_jitter ≡ false) ⊎ (d.le c.config.jitter_factor (zero_f d) ≡ true)
      → (next_delay d c draw ≤ c.config.max_delay)
        × (c.current_attempt ≡ 0 → next_delay d c draw ≡ 0)
  unfolding next_delay with_jitter
  next_delay_bounded c draw h j =
      let b = base_delay_bounded c.config c.current_attempt h in (ground arith, λ e. ground arith)

-- ===== src/RateLimiter/Operations.antt =====
-- The public operations of the rate limiter as steps, and its invariant.
use bb_pipeline.Common.{ℕ, ◌≡◌, false, Option, none, some, Text, values, All}
use bb_pipeline.Common.Double.{Double}
use bb_pipeline.RateLimiter.{
  ℤ, from_int, TokenBucket, BackoffConfig, Limiter, set_bucket_config, set_global_rate_limit,
  set_backoff_config, get_bucket, try_acquire,
}
use bb_pipeline.RateLimiter.Feedback.{
  report_failure, report_success, reset_backoff, get_wait_time, reset, wait_for_token,
  is_rate_limited, get_current_delay, get_stats,
}
use bb_pipeline.RateLimiter.Buckets.{IsNonneg, IsSound?, ConfigIsSound, DomainIsSound}

module _ (d : Double) where
  pub record LimiterIsSound (l : Limiter d) : Type 0 where
    pub domains_sound : All (DomainIsSound d) (values l.domain_states)
    pub global_sound : IsSound? d l.global_bucket
    pub unlocked : l.locked ≡ false

  -- One call of a public operation, with its readings of the clock.
  pub data Op : Type 0 where
    sets_bucket : Text → d.F → d.F → ℕ → Op
    sets_global : d.F → ℕ → Op
    sets_backoff : Text → BackoffConfig d → Op
    acquires : Text → ℤ → ℕ → ℕ → ℕ → Op
    asks_wait waits : Text → ℤ → ℕ → Op
    fails : Text → ℕ → Op
    succeeds : Text → Op
    resets_backoff : Text → Op
    resets : Op
    asks_limited asks_delay asks_stats : Text → Op

  abbrev pub drop_result : {A : Type 0} → Option (Limiter d × A) → Option (Limiter d)
  drop_result none = none
  drop_result (some (l, _)) = some l

  unfoldable pub step : Limiter d → Op → Option (Limiter d)
  step l (sets_bucket k rate burst now) = set_bucket_config d l k rate burst now
  step l (sets_global rate now) = set_global_rate_limit d l rate now
  step l (sets_backoff k c) = set_backoff_config d l k c
  step l (acquires k n t1 t2 t3) = drop_result (try_acquire d l k n t1 t2 t3)
  step l (asks_wait k n now) = drop_result (get_wait_time d l k n now)
  step l (fails k now) = report_failure d l k now
  step l (succeeds k) = report_success d l k
  step l (resets_backoff k) = reset_backoff d l k
  step l resets = reset d l
  step l (waits k n now) = drop_result (wait_for_token d l k n now)
  step l (asks_limited k) = drop_result (is_rate_limited d l k)
  step l (asks_delay k) = drop_result (get_current_delay d l k)
  step l (asks_stats k) = drop_result (get_stats d l k)

  -- The arguments are in range: no negative rate, burst, delay, multiplier or number of tokens to take.
  abbrev pub ArgsOk : Op → Type 0
  ArgsOk (sets_bucket k rate burst now) = IsNonneg d rate × IsNonneg d burst
  ArgsOk (sets_global rate now) = IsNonneg d rate
  ArgsOk (sets_backoff k c) = ConfigIsSound d c
  ArgsOk (acquires k n t1 t2 t3) = IsNonneg d (from_int d n)
  ArgsOk _ = Unit

  -- The domain of an `acquires` has its bucket.
  abbrev pub Returns : Limiter d → Op → Type 0
  Returns l (acquires k n t1 t2 t3) = (b : TokenBucket d) × (get_bucket d l k ≡ some b)
  Returns l _ = Unit

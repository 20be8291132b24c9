-- ===== src/RateLimiter/Examples.antt =====
-- Runs of the rate limiter over fixed-point numbers with three decimals.
use bb_pipeline.Common.{
  Bool, ◌+◌, ◌≡◌, refl, true, false, Option, none, some, [], ◌∷◌, Text, codes, lookup, u64, ◌=t◌,
  if◌then◌else◌,
}
use bb_pipeline.Common.Double.{fixed_point}
use bb_pipeline.RateLimiter.{
  pos, DomainState, TokenBucket, Limiter, default_backoff, full_bucket, try_acquire, decay,
  in_backoff, elapsed_ms, get_bucket, refill_tokens,
}
use bb_pipeline.RateLimiter.Acquire.{admits, try_acquire_blocks, try_acquire-effect}
use bb_pipeline.RateLimiter.Buckets.{BucketIsSound, fresh-DomainIsSound}
use bb_pipeline.RateLimiter.Operations.{LimiterIsSound, acquires, step}
use bb_pipeline.RateLimiter.Soundness.{step-LimiterIsSound}

abbrev domain : Text
domain = codes "example.com"

-- Ten requests a second, two tokens of burst.
abbrev bucket : TokenBucket fixed_point
unfolding fixed_point
bucket = full_bucket fixed_point 2000 10000 0

abbrev state : DomainState fixed_point
unfolding fixed_point
state = record {
  bucket = some bucket;
  backoff_config = default_backoff fixed_point;
  current_delay_ms = 4000000;
  consecutive_failures = 3;
  last_failure = 0;
  total_requests = 7;
  denied_requests = 2;
  backoff_triggered = 3;
}

abbrev limiter : Limiter fixed_point
unfolding fixed_point
limiter = record { domain_states = (domain, state) ∷ []; global_bucket = none; locked = false }

abbrev empty_limiter : Limiter fixed_point
empty_limiter = record { domain_states = []; global_bucket = none; locked = false }

abbrev granted? : Option (Limiter fixed_point × Bool) → Option Bool
granted? none = none
granted? (some (_, r)) = some r

-- Four seconds after the failure the request passes, and a nanosecond before it does not.
granted_after_delay :
    (granted? (try_acquire fixed_point limiter domain (pos 1) 0 0 4000000000) ≡ some true)
    × (granted? (try_acquire fixed_point limiter domain (pos 1) 0 0 3999999999) ≡ some false)
unfolding fixed_point try_acquire lookup ◌=t◌ get_bucket bb_pipeline.RateLimiter.admit decay
    refill_tokens
granted_after_delay = (refl, refl)

try_acquire_blocks_example : try_acquire fixed_point empty_limiter domain (pos 1) 0 0 0 ≡ none
unfolding fixed_point get_bucket lookup
try_acquire_blocks_example =
    try_acquire_blocks fixed_point empty_limiter domain (pos 1) 0 0 0 refl refl

abbrev refilled : TokenBucket fixed_point
refilled = refill_tokens fixed_point bucket 5

try_acquire-effect_example :
    let ok = admits fixed_point state refilled none (fixed_point.of_ratio 1 1) 7 in
    (l' : Limiter fixed_point) × (s' : DomainState fixed_point) × (try_acquire fixed_point limiter
        domain
        (pos 1)
        5
        6
        7
      ≡ some (l', ok))
    × (lookup domain l'.domain_states ≡ some s')
    × (s'.total_requests ≡ u64 (state.total_requests + 1))
    × (s'.denied_requests ≡ (if ok then state.denied_requests else u64 (state.denied_requests + 1)))
    × (s'.bucket
        ≡ some (
            if ok
            then record refilled {
              tokens = fixed_point.sub refilled.tokens (fixed_point.of_ratio 1 1);
            }
            else refilled))
    × (l'.global_bucket ≡ (if ok then none else none))
    × (l'.locked ≡ false)
    × ((j : Text)
        → (domain =t j) ≡ false
        → lookup j l'.domain_states ≡ lookup j limiter.domain_states)
unfolding fixed_point lookup ◌=t◌
try_acquire-effect_example =
    try_acquire-effect fixed_point limiter domain (pos 1) 5 6 7 state bucket refl refl refl

bucket-BucketIsSound : BucketIsSound fixed_point bucket
unfolding fixed_point
bucket-BucketIsSound = record { tokens_nonneg = refl; tokens_capped = refl; rate_nonneg = refl }

limiter-LimiterIsSound : LimiterIsSound fixed_point limiter
unfolding fixed_point
limiter-LimiterIsSound = record {
  domains_sound = (
    record {
      bucket_sound = bucket-BucketIsSound;
      config_sound = (fresh-DomainIsSound fixed_point).config_sound;
      delay_nonneg = refl;
    },
    tt,
  );
  global_sound = tt;
  unlocked = refl;
}

step-LimiterIsSound_example :
    (l' : Limiter fixed_point) × (step fixed_point limiter (acquires domain (pos 1) 5 6 7)
      ≡ some l')
    × LimiterIsSound fixed_point l'
unfolding fixed_point get_bucket lookup ◌=t◌
step-LimiterIsSound_example =
    step-LimiterIsSound fixed_point limiter (acquires domain (pos 1) 5 6 7) limiter-LimiterIsSound
      refl (bucket, refl)

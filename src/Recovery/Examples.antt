-- ===== src/Recovery/Examples.antt =====
-- Runs of the retry loop.
use bb_pipeline.Common.{
  ℕ, ◌+◌, ◌≤◌, ◌<◌, ◌≡◌, ◌≢◌, ◌⊎◌, inl, inr, refl, Bool, true, false, [], ◌∷◌, map, Text, codes,
  arith, ltb, if◌then◌else◌, u64, leb,
}
use bb_pipeline.Common.Double.{fixed_point}
use bb_pipeline.Recovery.Classify.{
  network_timeout, http_429, classify_error, is_in, default_classifier, classify_lower, contains,
  starts_with,
}
use bb_pipeline.Recovery.Context.{RetryConfig}
use bb_pipeline.Recovery.Manager.{Manager}
use bb_pipeline.Recovery.Loop.{
  Outcome, returns, raises, done, exhausted, out_of_fuel, World, execute_with_retry,
}
use bb_pipeline.Recovery.Calls.{Retried, execute_bounded}
use bb_pipeline.Recovery.Outcomes.{execute-done, execute-exhausted}
use bb_pipeline.Recovery.Breaker.{CountedAs, execute-Accounts}

abbrev config : RetryConfig fixed_point
unfolding fixed_point
config = record {
  max_attempts = 3;
  initial_delay = 100;
  max_delay = 30000;
  backoff_multiplier = 2000;
  jitter_factor = 100;
  enable_jitter = false;
  recoverable_errors = network_timeout ∷ [];
}

abbrev no_errors : RetryConfig fixed_point
no_errors = record config { recoverable_errors = [] }

abbrev manager : Manager fixed_point
manager = record {
  default_config = config;
  statistics = record {
    created_at = 0;
    total_operations = 4;
    successful_operations = 3;
    failed_operations = 1;
    total_retries = 0;
    total_retry_time = 0;
    average_retry_time = 0;
    error_counts = λ t. 0;
    recent_attempts = [];
  };
  error_classifiers = (λ m. bb_pipeline.Common.some network_timeout) ∷ [];
  circuit_breaker_threshold = 1;
  consecutive_failures = 0;
  circuit_breaker_open = false;
}

-- The operation times out twice, and then returns 7.
abbrev third_time : ℕ → Outcome ℕ
third_time i = if ltb i 2 then raises (codes "timed out") else returns 7

abbrev world : World fixed_point ℕ
world = record { op = third_time; clock = λ i. i; draw = λ i r. r; draw_sleep = λ i r. r }

abbrev never : World fixed_point ℕ
never = record world { op = λ i. raises (codes "timed out") }

classified :
    (default_classifier (codes "Rate Limit hit") ≡ http_429)
    × (default_classifier (codes "TIMEOUT") ≡ network_timeout)
unfolding default_classifier classify_lower contains starts_with
classified = (refl, refl)

execute_bounded_example :
    ((execute_with_retry fixed_point manager (codes "fetch") config never).ending ≢ out_of_fuel)
    × (((execute_with_retry fixed_point manager (codes "fetch") config never).calls ≤ 1)
        ⊎ ((execute_with_retry fixed_point manager (codes "fetch") config never).calls ≤ 3))
unfolding config
execute_bounded_example =
    execute_bounded fixed_point manager (codes "fetch") config never (omega arith)

world-Retried : (j : ℕ) → j < 2 → Retried fixed_point manager config world j
unfolding is_in classify_error config fixed_point
world-Retried j h = (codes "timed out", refl, ground arith)

never-Retried : (j : ℕ) → j < 3 → Retried fixed_point manager config never j
unfolding is_in classify_error config fixed_point
never-Retried j h = (codes "timed out", refl, refl)

execute-done_example :
    let q = execute_with_retry fixed_point manager (codes "fetch") config world in
    (q.ending ≡ done 7) × (q.calls ≡ 3) × (q.manager.consecutive_failures ≡ 0)
unfolding config
execute-done_example =
    execute-done fixed_point manager (codes "fetch") config world 2 7 refl (omega arith)
      (inl (omega arith)) world-Retried refl

execute-exhausted_example :
    let q = execute_with_retry fixed_point manager (codes "fetch") config never in
    (q.ending ≡ exhausted 3)
    × (q.calls ≡ 3)
    × (q.manager.consecutive_failures ≡ u64 1)
    × (q.manager.circuit_breaker_open ≡ true)
unfolding config
execute-exhausted_example =
    execute-exhausted fixed_point manager (codes "fetch") config never refl (omega arith)
      (omega arith) never-Retried

execute-Accounts_example :
    let q = execute_with_retry fixed_point manager (codes "fetch") config never in
    CountedAs q.ending manager.statistics q.manager.statistics
unfolding config
execute-Accounts_example =
    execute-Accounts fixed_point manager config never (codes "fetch") refl (omega arith)

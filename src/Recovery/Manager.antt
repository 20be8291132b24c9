-- ===== src/Recovery/Manager.antt =====
-- ErrorRecoveryManager: its configuration, statistics and circuit breaker. Each method that takes the
-- mutex is one step; the atomics are fields. Times are milliseconds of a clock that does not go back.
use bb_pipeline.Common.{
  ℕ, ◌+◌, ◌-◌, ◌/◌, ◌≤◌, Bool, true, false, some, List, [], ◌∷◌, ◌++◌, if◌then◌else◌, ltb, u64,
  length, drop, length-drop, arith, Bool-cases, inl, inr,
}
use bb_pipeline.Common.Double.{Double}
use bb_pipeline.Recovery.Classify.{
  ErrorType, Classifier, default_classifier, is_in, same_type, network_timeout, connection_refused,
  dns_resolution, http_5xx, http_429, temporary_failure,
}
use bb_pipeline.Recovery.Context.{RetryAttempt, RetryConfig}

pub record RetryStatistics : Type 0 where
  pub created_at : ℕ
  pub total_operations : ℕ
  pub successful_operations : ℕ
  pub failed_operations : ℕ
  pub total_retries : ℕ
  pub total_retry_time : ℕ
  pub average_retry_time : ℕ
  pub error_counts : ErrorType → ℕ
  pub recent_attempts : List RetryAttempt

abbrev pub new_statistics : ℕ → RetryStatistics
new_statistics now = record {
  created_at = now;
  total_operations = 0;
  successful_operations = 0;
  failed_operations = 0;
  total_retries = 0;
  total_retry_time = 0;
  average_retry_time = 0;
  error_counts = λ t. 0;
  recent_attempts = [];
}

unfoldable pub count_errors : List RetryAttempt → (ErrorType → ℕ) → ErrorType → ℕ
count_errors [] counts t = counts t
count_errors (a ∷ rs) counts t =
    count_errors rs (λ t'. if same_type a.error_type t' then u64 (counts t' + 1) else counts t') t

unfoldable pub last_stamp : ℕ → List RetryAttempt → ℕ
last_stamp t [] = t
last_stamp t (a ∷ rs) = last_stamp a.timestamp rs

-- The time from the first attempt to the last.
abbrev pub retry_span : List RetryAttempt → ℕ
retry_span [] = 0
retry_span (a ∷ rs) = last_stamp a.timestamp rs - a.timestamp

-- The last hundred.
unfoldable pub keep_recent : List RetryAttempt → List RetryAttempt
keep_recent rs = if ltb 100 (length rs) then drop (length rs - 100) rs else rs

abbrev pub count_outcome : Bool → RetryStatistics → RetryStatistics
count_outcome true s = record s { successful_operations = u64 (s.successful_operations + 1) }
count_outcome false s = record s { failed_operations = u64 (s.failed_operations + 1) }

abbrev pub count_operation : RetryStatistics → RetryStatistics
count_operation s = record s { total_operations = u64 (s.total_operations + 1) }

unfoldable pub add_attempts : List RetryAttempt → RetryStatistics → RetryStatistics
add_attempts [] s = s
add_attempts (a ∷ rs) s = record s {
  total_retries = u64 (s.total_retries + length (a ∷ rs));
  total_retry_time = s.total_retry_time + retry_span (a ∷ rs);
  error_counts = count_errors (a ∷ rs) s.error_counts;
  recent_attempts = keep_recent (s.recent_attempts ++ a ∷ rs);
}

unfoldable pub update_statistics : List RetryAttempt → Bool → RetryStatistics → RetryStatistics
update_statistics attempts success s =
    add_attempts attempts (count_outcome success (count_operation s))

pub keep_recent_bounded : (rs : List RetryAttempt) → length (keep_recent rs) ≤ 100
unfolding keep_recent
keep_recent_bounded rs = elim (Bool-cases (ltb 100 (length rs))) [
  | inl t ↦ rw t (omega (arith, length-drop (length rs - 100) rs))
  | inr f ↦ rw f (ground arith)
]

module _ (d : Double) where
  pub record Manager : Type 0 where
    pub default_config : RetryConfig d
    pub statistics : RetryStatistics
    pub error_classifiers : List Classifier
    pub circuit_breaker_threshold : ℕ
    pub consecutive_failures : ℕ
    pub circuit_breaker_open : Bool

  abbrev manager_config : RetryConfig d
  manager_config = record {
    max_attempts = 3;
    initial_delay = 100;
    max_delay = 30000;
    backoff_multiplier = d.of_ratio 2 1;
    jitter_factor = d.of_ratio 1 10;
    enable_jitter = true;
    recoverable_errors =
        network_timeout ∷ connection_refused ∷ dns_resolution ∷ http_5xx ∷ http_429
        ∷ temporary_failure ∷ [];
  }

  unfoldable pub new_manager : ℕ → Manager
  new_manager now = record {
    default_config = manager_config;
    statistics = new_statistics now;
    error_classifiers = (λ m. some (default_classifier m)) ∷ [];
    circuit_breaker_threshold = 100;
    consecutive_failures = 0;
    circuit_breaker_open = false;
  }

  unfoldable pub configure : Manager → RetryConfig d → Manager
  configure m config = record m { default_config = config }

  unfoldable pub is_recoverable : Manager → ErrorType → Bool
  is_recoverable m t = is_in t m.default_config.recoverable_errors

  unfoldable pub add_error_classifier : Manager → Classifier → Manager
  add_error_classifier m f = record m { error_classifiers = m.error_classifiers ++ f ∷ [] }

  unfoldable pub get_statistics : Manager → RetryStatistics
  get_statistics m =
      if ltb 0 m.statistics.total_retries
      then record m.statistics {
        average_retry_time = m.statistics.total_retry_time / m.statistics.total_retries;
      }
      else m.statistics

  unfoldable pub reset_statistics : Manager → ℕ → Manager
  reset_statistics m now = record m { statistics = new_statistics now }

  unfoldable pub set_circuit_breaker_threshold : Manager → ℕ → Manager
  set_circuit_breaker_threshold m n = record m { circuit_breaker_threshold = n }

  unfoldable pub reset_circuit_breaker : Manager → Manager
  reset_circuit_breaker m = record m { circuit_breaker_open = false; consecutive_failures = 0 }

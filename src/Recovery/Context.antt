-- ===== src/Recovery/Context.antt =====
-- RetryConfig, RetryAttempt and RetryContext: recorded attempts and the exponential backoff.
use bb_pipeline.Common.{ℕ, ◌+◌, ◌-◌, Bool, List, [], ◌∷◌, ◌++◌, Text, if◌then◌else◌, ltb, ◌==◌, u64}
use bb_pipeline.Common.Double.{Double, zero_f, min_f, max_f}
use bb_pipeline.Recovery.Classify.{
  ErrorType, network_timeout, connection_refused, http_5xx, http_429, temporary_failure,
}

pub record RetryAttempt : Type 0 where
  pub attempt_number : ℕ
  pub delay : ℕ
  pub timestamp : ℕ
  pub error_message : Text
  pub error_type : ErrorType

-- The set that the constructor of RetryContext puts in for an empty one.
abbrev pub default_recoverable : List ErrorType
default_recoverable =
    network_timeout ∷ connection_refused ∷ http_5xx ∷ http_429 ∷ temporary_failure ∷ []

abbrev pub or_default : List ErrorType → List ErrorType
or_default [] = default_recoverable
or_default (t ∷ ts) = t ∷ ts

module _ (d : Double) where
  pub record RetryConfig : Type 0 where
    pub max_attempts : ℕ
    pub initial_delay : ℕ
    pub max_delay : ℕ
    pub backoff_multiplier : d.F
    pub jitter_factor : d.F
    pub enable_jitter : Bool
    pub recoverable_errors : List ErrorType

  pub record RetryContext : Type 0 where
    pub config : RetryConfig
    pub operation_name : Text
    pub current_attempt : ℕ
    pub attempts : List RetryAttempt

  unfoldable pub new_context : Text → RetryConfig → RetryContext
  new_context name config = record {
    config = record config { recoverable_errors = or_default config.recoverable_errors };
    operation_name = name;
    current_attempt = 0;
    attempts = [];
  }

  unfoldable pub can_retry : RetryContext → Bool
  can_retry c = ltb c.current_attempt c.config.max_attempts

  -- The delay before jitter, in milliseconds.
  unfoldable pub base_delay : RetryConfig → ℕ → ℕ
  base_delay config attempt = d.trunc (
      min_f d
        (d.mul (d.of_ratio config.initial_delay 1) (d.pow config.backoff_multiplier (attempt - 1)))
        (d.of_ratio config.max_delay 1))

  -- `draw range` is what the uniform distribution on [-range, range] yields.
  unfoldable pub with_jitter : RetryConfig → (d.F → d.F) → ℕ → ℕ
  with_jitter config draw base =
      let base' = d.of_ratio base 1 in
      if d.le config.jitter_factor (zero_f d)
      then base
      else d.trunc (max_f d (zero_f d) (d.add base' (draw (d.mul base' config.jitter_factor))))

  unfoldable pub next_delay : RetryContext → (d.F → d.F) → ℕ
  next_delay c draw =
      let base = base_delay c.config c.current_attempt in
      if c.current_attempt == 0
      then 0
      else if c.config.enable_jitter
      then with_jitter c.config draw base
      else base

  abbrev pub bump : RetryContext → RetryContext
  bump c = record c { current_attempt = u64 (c.current_attempt + 1) }

  unfoldable pub record_attempt : RetryContext → ErrorType → Text → ℕ → (d.F → d.F) → RetryContext
  record_attempt c error message now draw =
      let a : RetryAttempt = record {
        attempt_number = (bump c).current_attempt;
        delay = next_delay (bump c) draw;
        timestamp = now;
        error_message = message;
        error_type = error;
      } in
      record (bump c) { attempts = c.attempts ++ a ∷ [] }

  unfoldable pub reset_context : RetryContext → RetryContext
  reset_context c = record c { current_attempt = 0; attempts = [] }

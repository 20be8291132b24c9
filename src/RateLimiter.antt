-- ===== src/RateLimiter.antt =====
-- infrastructure/networking/rate_limiter: token buckets per domain, and adaptive backoff.
-- Times are nanoseconds of the steady clock, which never goes back; each reading is an argument.
-- The mutex is the field `locked`: locking it again in the same thread never returns (`none`).
mod Feedback
mod Buckets
mod Backoff
mod Acquire
mod Operations
mod Admission
mod Soundness
mod Examples
use bb_pipeline.Common.{
  ℕ, suc, ◌+◌, ◌-◌, ◌/◌, Bool, true, false, not, ◌&&◌, Option, none, some, List, [], ◌∷◌, Text,
  Dict, lookup, insert, if◌then◌else◌, u64,
}
use bb_pipeline.Common.Double.{Double, zero_f, lt_f, min_f, max_f}

infixl 5 ◌>>=◌
abbrev pub ◌>>=◌ : {A B : Type 0} → Option A → (A → Option B) → Option B
none >>= f = none
some a >>= f = f a

-- An `int`: `negsuc n` is -(n + 1).
pub data ℤ : Type 0 where
  pos negsuc : ℕ → ℤ

module _ (d : Double) where
  -- The conversion of an `int` to a double.
  abbrev pub from_int : ℤ → d.F
  from_int (pos n) = d.of_ratio n 1
  from_int (negsuc n) = d.sub (zero_f d) (d.of_ratio (suc n) 1)

  pub record TokenBucket : Type 0 where
    pub tokens : d.F
    pub capacity : d.F
    pub refill_rate : d.F
    pub last_refill : ℕ

  pub record BackoffConfig : Type 0 where
    pub initial_delay_ms : d.F
    pub max_delay_ms : d.F
    pub multiplier : d.F
    pub max_retries : ℕ

  abbrev pub default_backoff : BackoffConfig
  default_backoff = record {
    initial_delay_ms = d.of_ratio 1000 1;
    max_delay_ms = d.of_ratio 60000 1;
    multiplier = d.of_ratio 2 1;
    max_retries = 5;
  }

  pub record DomainState : Type 0 where
    pub bucket : Option TokenBucket
    pub backoff_config : BackoffConfig
    pub current_delay_ms : d.F
    pub consecutive_failures : ℕ
    pub last_failure : ℕ
    pub total_requests : ℕ
    pub denied_requests : ℕ
    pub backoff_triggered : ℕ

  pub record Limiter : Type 0 where
    pub domain_states : Dict DomainState
    pub global_bucket : Option TokenBucket
    pub locked : Bool

  pub record Stats : Type 0 where
    pub total_requests : ℕ
    pub denied_requests : ℕ
    pub backoff_triggered : ℕ
    pub current_tokens : d.F
    pub current_delay_ms : d.F

  -- std::make_unique<DomainState>().
  abbrev pub fresh_state : DomainState
  fresh_state = record {
    bucket = none;
    backoff_config = default_backoff;
    current_delay_ms = zero_f d;
    consecutive_failures = 0;
    last_failure = 0;
    total_requests = 0;
    denied_requests = 0;
    backoff_triggered = 0;
  }

  -- TokenBucket(cap, rate) at a reading of the clock.
  abbrev pub full_bucket : d.F → d.F → ℕ → TokenBucket
  full_bucket cap rate now = record {
    tokens = cap;
    capacity = cap;
    refill_rate = rate;
    last_refill = now;
  }

  -- std::lock_guard, and its destructor.
  abbrev pub lock : Limiter → Option Limiter
  lock l = if l.locked then none else some (record l { locked = true })

  abbrev pub unlock : Limiter → Limiter
  unlock l = record l { locked = false }

  -- The state under the domain, made if it is missing.
  abbrev pub state_or_fresh : Limiter → Text → DomainState
  state_or_fresh l domain = elim (lookup domain l.domain_states) [ none ↦ fresh_state | some s ↦ s ]

  abbrev pub put_state : Limiter → Text → DomainState → Limiter
  put_state l domain s = record l { domain_states = insert domain s l.domain_states }

  abbrev pub default_burst : d.F → d.F
  default_burst rate = max_f d (d.of_ratio 1 1) (d.mul rate (d.of_ratio 2 1))

  abbrev pub burst_or_default : d.F → d.F → d.F
  burst_or_default rate burst =
      if d.le burst (zero_f d) && d.le (zero_f d) burst then default_burst rate else burst

  unfoldable pub set_bucket_config : Limiter → Text → d.F → d.F → ℕ → Option Limiter
  set_bucket_config l domain rate burst now = do
    l ← lock l
    let s = state_or_fresh l domain
    let b = full_bucket (burst_or_default rate burst) rate now
    some (unlock (put_state l domain (record s { bucket = some b })))

  unfoldable pub set_global_rate_limit : Limiter → d.F → ℕ → Option Limiter
  set_global_rate_limit l rate now = do
    l ← lock l
    some (unlock (record l { global_bucket = some (full_bucket (default_burst rate) rate now) }))

  unfoldable pub set_backoff_config : Limiter → Text → BackoffConfig → Option Limiter
  set_backoff_config l domain config = do
    l ← lock l
    some
        (unlock (put_state l domain (record (state_or_fresh l domain) { backoff_config = config })))

  unfoldable pub get_bucket : Limiter → Text → Option TokenBucket
  get_bucket l domain = elim (lookup domain l.domain_states) [ none ↦ none | some s ↦ s.bucket ]

  -- Seconds between two readings.
  abbrev elapsed_s : ℕ → ℕ → d.F
  elapsed_s now last = d.of_ratio (now - last) 1000000000

  unfoldable pub refill_tokens : TokenBucket → ℕ → TokenBucket
  refill_tokens b now = record b {
    tokens =
        min_f d b.capacity (d.add b.tokens (d.mul (elapsed_s now b.last_refill) b.refill_rate));
    last_refill = now;
  }

  abbrev pub global_short : Option TokenBucket → d.F → Bool
  global_short none n = false
  global_short (some g) n = lt_f d g.tokens n

  abbrev pub refill_global : Option TokenBucket → ℕ → Option TokenBucket
  refill_global none now = none
  refill_global (some g) now = some (refill_tokens g now)

  abbrev pub spend : Option TokenBucket → d.F → Option TokenBucket
  spend none n = none
  spend (some g) n = some (record g { tokens = d.sub g.tokens n })

  abbrev pub deny : DomainState → DomainState
  deny s = record s { denied_requests = u64 (s.denied_requests + 1) }

  abbrev pub count_request : DomainState → DomainState
  count_request s = record s { total_requests = u64 (s.total_requests + 1) }

  -- Whole milliseconds since the last failure.
  abbrev pub elapsed_ms : DomainState → ℕ → d.F
  elapsed_ms s now = d.of_ratio ((now - s.last_failure) / 1000000) 1

  abbrev pub in_backoff : DomainState → Bool
  in_backoff s = lt_f d (zero_f d) s.current_delay_ms

  -- The delay runs out when the time since the last failure reaches it.
  unfoldable pub decay : DomainState → ℕ → DomainState
  decay s now =
      if in_backoff s && d.le s.current_delay_ms (elapsed_ms s now)
      then record s {
        current_delay_ms = max_f d (zero_f d) (d.sub s.current_delay_ms (elapsed_ms s now));
      }
      else s

  -- `tryAcquire` behind its refills: the domain's state, its bucket, the global bucket.
  unfoldable pub admit :
      DomainState
      → TokenBucket
      → Option TokenBucket
      → d.F
      → ℕ
      → DomainState × Option TokenBucket × Bool
  admit s b g n now =
      let s1 = count_request (record s { bucket = some b }) in
      let s2 = decay s1 now in
      if global_short g n
      then (deny s1, g, false)
      else if in_backoff s2
      then (deny s2, g, false)
      else if d.le n b.tokens
      then (record s2 { bucket = some (record b { tokens = d.sub b.tokens n }) }, spend g n, true)
      else (deny s2, g, false)

  abbrev default_rate : d.F
  default_rate = d.of_ratio 10 1

  -- The readings: of the bucket's refill, of the global refill, and for the backoff.
  unfoldable pub try_acquire : Limiter → Text → ℤ → ℕ → ℕ → ℕ → Option (Limiter × Bool)
  try_acquire l domain tokens t1 t2 t3 = do
    l ← lock l
    l ← elim (get_bucket l domain) [
      | none ↦ set_bucket_config l domain default_rate (zero_f d) t1
      | some b ↦ some l
    ]
    b ← get_bucket l domain
    let s = state_or_fresh l domain
    let (s', g, granted) =
        admit s (refill_tokens b t1) (refill_global l.global_bucket t2) (from_int tokens) t3
    some (unlock (put_state (record l { global_bucket = g }) domain s'), granted)

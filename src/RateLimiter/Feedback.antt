-- ===== src/RateLimiter/Feedback.antt =====
-- The other operations of the rate limiter: reports, waiting times, statistics and resets.
use bb_pipeline.Common.{
  ℕ, ◌+◌, Bool, false, ◌&&◌, Option, none, some, [], Text, lookup, if◌then◌else◌, u64,
}
use bb_pipeline.Common.Double.{Double, zero_f, lt_f, min_f, max_f}
use bb_pipeline.RateLimiter.{
  ◌>>=◌, ℤ, from_int, TokenBucket, DomainState, Limiter, Stats, lock, unlock, state_or_fresh,
  put_state, get_bucket, refill_tokens, in_backoff,
}

module _ (d : Double) where
  -- `current_delay_ms == 0.0`.
  abbrev pub no_delay : DomainState d → Bool
  no_delay s = d.le s.current_delay_ms (zero_f d) && d.le (zero_f d) s.current_delay_ms

  unfoldable pub next_delay : DomainState d → d.F
  next_delay s =
      if no_delay s
      then s.backoff_config.initial_delay_ms
      else min_f d (d.mul s.current_delay_ms s.backoff_config.multiplier)
          s.backoff_config.max_delay_ms

  unfoldable pub fail_state : DomainState d → ℕ → DomainState d
  unfolding next_delay
  fail_state s now = record s {
    consecutive_failures = s.consecutive_failures + 1;
    last_failure = now;
    backoff_triggered = u64 (s.backoff_triggered + 1);
    current_delay_ms = next_delay s;
  }

  unfoldable pub report_failure : Limiter d → Text → ℕ → Option (Limiter d)
  report_failure l domain now = do
    l ← lock d l
    some (unlock d (put_state d l domain (fail_state (state_or_fresh d l domain) now)))

  abbrev halved : DomainState d → d.F
  halved s = d.mul s.current_delay_ms (d.of_ratio 1 2)

  unfoldable pub success_state : DomainState d → DomainState d
  success_state s = record s {
    consecutive_failures = 0;
    current_delay_ms =
        if in_backoff d s
        then (if lt_f d (halved s) s.backoff_config.initial_delay_ms then zero_f d else halved s)
        else s.current_delay_ms;
  }

  unfoldable pub reset_state : DomainState d → DomainState d
  reset_state s = record s { current_delay_ms = zero_f d; consecutive_failures = 0 }

  -- An update of a domain that is there; no other is made.
  abbrev pub update_known : (DomainState d → DomainState d) → Limiter d → Text → Limiter d
  update_known f l domain = elim (lookup domain l.domain_states) [
    | none ↦ l
    | some s ↦ put_state d l domain (f s)
  ]

  unfoldable pub report_success : Limiter d → Text → Option (Limiter d)
  report_success l domain = do l ← lock d l; some (unlock d (update_known success_state l domain))

  unfoldable pub reset_backoff : Limiter d → Text → Option (Limiter d)
  reset_backoff l domain = do l ← lock d l; some (unlock d (update_known reset_state l domain))

  unfoldable pub is_rate_limited : Limiter d → Text → Option (Limiter d × Bool)
  is_rate_limited l domain = do
    l ← lock d l
    some (
      unlock d l,
      elim (lookup domain l.domain_states) [ none ↦ false | some s ↦ in_backoff d s ],
    )

  unfoldable pub get_current_delay : Limiter d → Text → Option (Limiter d × d.F)
  get_current_delay l domain = do
    l ← lock d l
    some (
      unlock d l,
      elim (lookup domain l.domain_states) [ none ↦ zero_f d | some s ↦ s.current_delay_ms ],
    )

  -- The wait for the tokens that the bucket lacks, and no less than the backoff.
  unfoldable pub wait_ms : DomainState d → TokenBucket d → d.F → ℕ
  wait_ms s b n =
      let needed = d.mul (d.div (d.sub n b.tokens) b.refill_rate) (d.of_ratio 1000 1) in
      d.trunc (if in_backoff d s then max_f d needed s.current_delay_ms else needed)

  unfoldable pub get_wait_time : Limiter d → Text → ℤ → ℕ → Option (Limiter d × ℕ)
  get_wait_time l domain tokens now = do
    l ← lock d l
    elim (get_bucket d l domain) [
      | none ↦ some (unlock d l, 0)
      | some b ↦
          let s = record (state_or_fresh d l domain) { bucket = some (refill_tokens d b now) } in
          some (
            unlock d (put_state d l domain s),
            if d.le (from_int d tokens) (refill_tokens d b now).tokens
                then 0
                else wait_ms s (refill_tokens d b now) (from_int d tokens),
          )
    ]

  -- `getWaitTime`, and a sleep of that time.
  unfoldable pub wait_for_token : Limiter d → Text → ℤ → ℕ → Option (Limiter d × ℕ)
  wait_for_token l domain tokens now = get_wait_time l domain tokens now

  abbrev bucket_tokens : Option (TokenBucket d) → d.F
  bucket_tokens none = zero_f d
  bucket_tokens (some b) = b.tokens

  unfoldable pub get_stats : Limiter d → Text → Option (Limiter d × Stats d)
  get_stats l domain = do
    l ← lock d l
    some (
      unlock d l,
      elim (lookup domain l.domain_states) [
        | none ↦ record {
          total_requests = 0;
          denied_requests = 0;
          backoff_triggered = 0;
          current_tokens = zero_f d;
          current_delay_ms = zero_f d;
        }
        | some s ↦ record {
          total_requests = s.total_requests;
          denied_requests = s.denied_requests;
          backoff_triggered = s.backoff_triggered;
          current_tokens = bucket_tokens s.bucket;
          current_delay_ms = s.current_delay_ms;
        }
      ],
    )

  unfoldable pub reset : Limiter d → Option (Limiter d)
  reset l = do l ← lock d l; some (unlock d (record l { domain_states = []; global_bucket = none }))

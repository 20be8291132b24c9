-- ===== src/RateLimiter/Acquire.antt =====
-- `tryAcquire`: when it grants, what it counts, and when it never returns.
use bb_pipeline.Common.{
  ℕ, ◌≡◌, refl, ◌+◌, Bool, true, false, not, ◌&&◌, Option, none, some, arith, Text, lookup, insert,
  lookup-insert, lookup-insert_self, if◌then◌else◌, u64, ◌=t◌, ◌⊎◌,
}
use bb_pipeline.Common.Double.{Double}
use bb_pipeline.RateLimiter.{
  ℤ, from_int, TokenBucket, DomainState, Limiter, set_bucket_config, get_bucket, refill_tokens,
  refill_global, spend, global_short, in_backoff, decay, admit, try_acquire, count_request,
}

module _ (d : Double) where
  module _ (s : DomainState d) (b : TokenBucket d) (g : Option (TokenBucket d)) (n : d.F)
      (now : ℕ) where
    -- The three tests of the code, on the refilled buckets and the decayed delay.
    pub admits : Bool
    admits =
        not (global_short d g n)
        && not (in_backoff d (decay d (count_request d (record s { bucket = some b })) now))
        && d.le n b.tokens

    -- A request is granted exactly when the three tests pass; then both buckets pay, and otherwise
    -- neither does.
    pub admit-granted :
        ((admit d s b g n now).2 ≡ admits)
        × ((admit d s b g n now).1 ≡ (if admits then spend d g n else g))
        × ((admit d s b g n now).0.bucket
            ≡ some (if admits then record b { tokens = d.sub b.tokens n } else b))
    unfolding admit admits decay
    admit-granted = ground arith

    pub admits-covers : admits ≡ true → (d.le n b.tokens ≡ true) × (global_short d g n ≡ false)
    unfolding admits decay
    admits-covers h = ground arith

    -- Refused before the backoff is looked at, the delay stays; else it is the decayed one.
    pub admit-delay :
        ((admit d s b g n now).0.current_delay_ms ≡ s.current_delay_ms)
        ⊎ ((admit d s b g n now).0.current_delay_ms
            ≡ (decay d (count_request d (record s { bucket = some b })) now).current_delay_ms)
    unfolding admit
    admit-delay = ground arith

    pub admit-counts :
        ((admit d s b g n now).0.total_requests ≡ u64 (s.total_requests + 1))
        × ((admit d s b g n now).0.denied_requests
            ≡ (if admits then s.denied_requests else u64 (s.denied_requests + 1)))
        × ((admit d s b g n now).0.backoff_config ≡ s.backoff_config)
    unfolding admit admits decay
    admit-counts = ground arith

  module _ (l : Limiter d) (k : Text) (n : ℤ) (t1 t2 t3 : ℕ) where
    -- With a bucket under the domain the call returns, and acts as `admit` on that domain.
    pub try_acquire-admit :
        (s : DomainState d) (b : TokenBucket d)
        → l.locked ≡ false
        → lookup k l.domain_states ≡ some s
        → s.bucket ≡ some b
        → let r =
            admit d s
              (refill_tokens d b t1)
              (refill_global d l.global_bucket t2)
              (from_int d n)
              t3 in
          try_acquire d l k n t1 t2 t3
          ≡ some (
            record {
              domain_states = insert k r.0 l.domain_states;
              global_bucket = r.1;
              locked = false;
            },
            r.2,
          )
    unfolding try_acquire get_bucket
    try_acquire-admit s b u h e = ground arith

    -- A domain that has no bucket: the lock is taken a second time, and the call never returns.
    pub try_acquire_blocks :
        l.locked ≡ false → get_bucket d l k ≡ none → try_acquire d l k n t1 t2 t3 ≡ none
    unfolding try_acquire set_bucket_config get_bucket
    try_acquire_blocks u e = ground arith

  -- `tryAcquire` on an unlocked limiter whose domain has a bucket returns with the mutex free; it
  -- counts the request, counts a denial exactly if it refuses, grants exactly if the three tests
  -- pass, takes the tokens from both buckets exactly if it grants, and leaves every other domain
  -- alone.
  pub try_acquire-effect :
      (l : Limiter d) (k : Text) (n : ℤ) (t1 t2 t3 : ℕ) (s : DomainState d) (b : TokenBucket d)
      → l.locked ≡ false
      → lookup k l.domain_states ≡ some s
      → s.bucket ≡ some b
      → let b' = refill_tokens d b t1 in
        let g' = refill_global d l.global_bucket t2 in
        let ok = admits s b' g' (from_int d n) t3 in
        (l' : Limiter d) × (s' : DomainState d) × (try_acquire d l k n t1 t2 t3 ≡ some (l', ok))
        × (lookup k l'.domain_states ≡ some s')
        × (s'.total_requests ≡ u64 (s.total_requests + 1))
        × (s'.denied_requests ≡ (if ok then s.denied_requests else u64 (s.denied_requests + 1)))
        × (s'.bucket
            ≡ some (if ok then record b' { tokens = d.sub b'.tokens (from_int d n) } else b'))
        × (l'.global_bucket ≡ (if ok then spend d g' (from_int d n) else g'))
        × (l'.locked ≡ false)
        × ((j : Text) → (k =t j) ≡ false → lookup j l'.domain_states ≡ lookup j l.domain_states)
  try_acquire-effect l k n t1 t2 t3 s b u h e =
      let b' = refill_tokens d b t1 in
      let g' = refill_global d l.global_bucket t2 in
      let (granted, paid, bucket) = admit-granted s b' g' (from_int d n) t3 in
      let (total, denied, _) = admit-counts s b' g' (from_int d n) t3 in
      let r = admit d s b' g' (from_int d n) t3 in
      (
        record {
          domain_states = insert k r.0 l.domain_states;
          global_bucket = r.1;
          locked = false;
        },
        r.0,
        rw (← granted) (try_acquire-admit l k n t1 t2 t3 s b u h e),
        lookup-insert_self k r.0 l.domain_states,
        total,
        denied,
        bucket,
        paid,
        refl,
        λ j ne. rw (lookup-insert k j r.0 l.domain_states, ne),
      )

-- ===== src/RateLimiter/Soundness.antt =====
-- The invariant of the rate limiter, over its public operations.
use bb_pipeline.Common.{
  true, ℕ, ◌≡◌, refl, false, Option, none, some, arith, Text, lookup, All-insert, All-lookup,
  Option-cases, inl, inr,
}
use bb_pipeline.Common.Double.{Double, zero_f}
use bb_pipeline.RateLimiter.{
  ℤ, from_int, TokenBucket, BackoffConfig, DomainState, Limiter, unlock, state_or_fresh, put_state,
  set_bucket_config, set_global_rate_limit, set_backoff_config, get_bucket, refill_tokens,
  try_acquire, default_burst, burst_or_default,
}
use bb_pipeline.RateLimiter.Feedback.{
  report_failure, report_success, reset_backoff, get_wait_time, wait_for_token, is_rate_limited,
  get_current_delay, get_stats, reset, success_state, reset_state, update_known,
}
use bb_pipeline.RateLimiter.Buckets.{
  IsNonneg, ConfigIsSound, DomainIsSound, full-BucketIsSound, refill-BucketIsSound,
  refill_global-IsSound?, fail-DomainIsSound, success-DomainIsSound, reset-DomainIsSound,
  state_or_fresh-DomainIsSound,
}
use bb_pipeline.RateLimiter.Admission.{admit-DomainIsSound, admit-global}
use bb_pipeline.RateLimiter.Operations.{
  LimiterIsSound, Op, drop_result, step, ArgsOk, Returns, sets_bucket, sets_global, sets_backoff,
  acquires, asks_wait, waits, asks_limited, asks_delay, asks_stats, fails, succeeds, resets_backoff,
  resets,
}
use bb_pipeline.RateLimiter.Acquire.{try_acquire-admit}

module _ (d : Double) where
  put_state-IsSound :
      (l : Limiter d) (k : Text) (s : DomainState d)
      → LimiterIsSound d l
      → DomainIsSound d s
      → LimiterIsSound d (unlock d (put_state d l k s))
  put_state-IsSound l k s v h = record {
    domains_sound = All-insert (DomainIsSound d) k s l.domain_states h v.domains_sound;
    global_sound = v.global_sound;
    unlocked = refl;
  }

  state-IsSound :
      (l : Limiter d) (k : Text) → LimiterIsSound d l → DomainIsSound d (state_or_fresh d l k)
  state-IsSound l k v = state_or_fresh-DomainIsSound d l k v.domains_sound

  burst_or_default-IsNonneg :
      (rate burst : d.F) → IsNonneg d burst → IsNonneg d (burst_or_default d rate burst)
  burst_or_default-IsNonneg rate burst h = ground (
    arith,
    d.of_nonneg 1 1,
    d.le_trans (zero_f d) (d.of_ratio 1 1) (d.mul rate (d.of_ratio 2 1)),
    d.le_total (d.mul rate (d.of_ratio 2 1)) (d.of_ratio 1 1),
  )

  default_burst-IsNonneg : (rate : d.F) → IsNonneg d (default_burst d rate)
  default_burst-IsNonneg rate = ground (
    arith,
    d.of_nonneg 1 1,
    d.le_trans (zero_f d) (d.of_ratio 1 1) (d.mul rate (d.of_ratio 2 1)),
    d.le_total (d.mul rate (d.of_ratio 2 1)) (d.of_ratio 1 1),
  )

  -- The bucket of a domain, with the state that holds it.
  get_bucket-state :
      (l : Limiter d) (k : Text) (b : TokenBucket d)
      → get_bucket d l k ≡ some b
      → (s : DomainState d) × (lookup k l.domain_states ≡ some s) × (s.bucket ≡ some b)
  unfolding get_bucket
  get_bucket-state l k b e = elim (Option-cases (lookup k l.domain_states)) [
    | inl m ↦ absurd (ground arith)
    | inr (s, m) ↦ (s, m, ground arith)
  ]

  abbrev Keeps : Option (Limiter d) → Type 0
  Keeps r = (l' : Limiter d) × (r ≡ some l') × LimiterIsSound d l'

  set_bucket-Keeps :
      (l : Limiter d) (k : Text) (rate burst : d.F) (now : ℕ)
      → LimiterIsSound d l
      → IsNonneg d rate
      → IsNonneg d burst
      → Keeps (set_bucket_config d l k rate burst now)
  unfolding set_bucket_config
  set_bucket-Keeps l k rate burst now v h i = rw v.unlocked (
    _,
    refl,
    put_state-IsSound l k _ v (record {
      bucket_sound = full-BucketIsSound d _ rate now (burst_or_default-IsNonneg rate burst i) h;
      config_sound = (state-IsSound l k v).config_sound;
      delay_nonneg = (state-IsSound l k v).delay_nonneg;
    }),
  )

  set_global-Keeps :
      (l : Limiter d) (rate : d.F) (now : ℕ)
      → LimiterIsSound d l
      → IsNonneg d rate
      → Keeps (set_global_rate_limit d l rate now)
  unfolding set_global_rate_limit
  set_global-Keeps l rate now v h = rw v.unlocked (
    _,
    refl,
    record {
      domains_sound = v.domains_sound;
      global_sound = full-BucketIsSound d _ rate now (default_burst-IsNonneg rate) h;
      unlocked = refl;
    },
  )

  set_backoff-Keeps :
      (l : Limiter d) (k : Text) (c : BackoffConfig d)
      → LimiterIsSound d l
      → ConfigIsSound d c
      → Keeps (set_backoff_config d l k c)
  unfolding set_backoff_config
  set_backoff-Keeps l k c v h = rw v.unlocked (
    _,
    refl,
    put_state-IsSound l k _ v (record {
      bucket_sound = (state-IsSound l k v).bucket_sound;
      config_sound = h;
      delay_nonneg = (state-IsSound l k v).delay_nonneg;
    }),
  )

  acquire-Keeps :
      (l : Limiter d) (k : Text) (n : ℤ) (t1 t2 t3 : ℕ)
      → LimiterIsSound d l
      → IsNonneg d (from_int d n)
      → (b : TokenBucket d) → get_bucket d l k ≡ some b
      → Keeps (drop_result d (try_acquire d l k n t1 t2 t3))
  acquire-Keeps l k n t1 t2 t3 v nn b e =
      let (s, m, u) = get_bucket-state l k b e in
      let sound = All-lookup (DomainIsSound d) k l.domain_states s m v.domains_sound in
      let filled = refill-BucketIsSound d b t1 (rw u at sound.bucket_sound) in
      let whole = refill_global-IsSound? d l.global_bucket t2 v.global_sound in
      rw (try_acquire-admit d l k n t1 t2 t3 s b v.unlocked m u) (
        _,
        refl,
        record {
          domains_sound =
              All-insert (DomainIsSound d) k _ l.domain_states
                (admit-DomainIsSound d s _ _ _ t3 sound filled whole nn) v.domains_sound;
          global_sound = admit-global d s _ _ _ t3 sound filled whole nn;
          unlocked = refl;
        },
      )

  fails-Keeps :
      (l : Limiter d) (k : Text) (now : ℕ) → LimiterIsSound d l → Keeps (report_failure d l k now)
  unfolding report_failure
  fails-Keeps l k now v =
      rw v.unlocked
        (_, refl, put_state-IsSound l k _ v (fail-DomainIsSound d _ now (state-IsSound l k v)))

  -- An update of a known domain that keeps its state sound.
  known-IsSound :
      (f : DomainState d → DomainState d) (l : Limiter d) (k : Text)
      → LimiterIsSound d l
      → ((s : DomainState d) → DomainIsSound d s → DomainIsSound d (f s))
      → LimiterIsSound d (unlock d (update_known d f (record l { locked = true }) k))
  known-IsSound f l k v h = elim (Option-cases (lookup k l.domain_states)) [
    | inl e ↦
        rw (e, update_known)
          (record {
            domains_sound = v.domains_sound;
            global_sound = v.global_sound;
            unlocked = refl;
          })
    | inr (s, e) ↦
        rw (e, update_known)
          (put_state-IsSound l k (f s) v
            (h s (All-lookup (DomainIsSound d) k l.domain_states s e v.domains_sound)))
  ]

  wait_known :
      (l : Limiter d) (k : Text) (n : ℤ) (now : ℕ) (s : DomainState d) (b : TokenBucket d)
      → l.locked ≡ false
      → lookup k l.domain_states ≡ some s
      → s.bucket ≡ some b
      → drop_result d (get_wait_time d l k n now)
        ≡ some (unlock d (put_state d l k (record s { bucket = some (refill_tokens d b now) })))
  unfolding get_wait_time get_bucket
  wait_known l k n now s b u h e = ground arith

  wait_unknown :
      (l : Limiter d) (k : Text) (n : ℤ) (now : ℕ)
      → l.locked ≡ false
      → get_bucket d l k ≡ none
      → drop_result d (get_wait_time d l k n now) ≡ some (unlock d l)
  unfolding get_wait_time get_bucket
  wait_unknown l k n now u e = ground arith

  wait-Keeps :
      (l : Limiter d) (k : Text) (n : ℤ) (now : ℕ)
      → LimiterIsSound d l
      → Keeps (drop_result d (get_wait_time d l k n now))
  wait-Keeps l k n now v = elim (Option-cases (get_bucket d l k)) [
    | inl e ↦ rw (wait_unknown l k n now v.unlocked e) (
      _,
      refl,
      record { domains_sound = v.domains_sound; global_sound = v.global_sound; unlocked = refl },
    )
    | inr (b, e) ↦
        let (s, m, u) = get_bucket-state l k b e in
        let sound = All-lookup (DomainIsSound d) k l.domain_states s m v.domains_sound in
        rw (wait_known l k n now s b v.unlocked m u) (
          _,
          refl,
          put_state-IsSound l k _ v (record {
            bucket_sound = refill-BucketIsSound d b now (rw u at sound.bucket_sound);
            config_sound = sound.config_sound;
            delay_nonneg = sound.delay_nonneg;
          }),
        )
  ]

  -- A question takes the mutex and gives it back.
  asked : (l : Limiter d) → LimiterIsSound d l → LimiterIsSound d (unlock d l)
  asked l v = record {
    domains_sound = v.domains_sound;
    global_sound = v.global_sound;
    unlocked = refl;
  }

  -- Every public operation with arguments in range returns on a sound limiter, provided that an
  -- `acquires` finds its domain's bucket, and leaves a sound limiter: no bucket below zero or above
  -- its capacity, no negative delay, and the mutex free.
  pub step-LimiterIsSound :
      (l : Limiter d) (o : Op d)
      → LimiterIsSound d l
      → ArgsOk d o
      → Returns d l o
      → (l' : Limiter d) × (step d l o ≡ some l') × LimiterIsSound d l'
  unfolding step report_success reset_backoff reset wait_for_token is_rate_limited get_current_delay
      get_stats
  step-LimiterIsSound l (sets_bucket k rate burst now) v a r =
      set_bucket-Keeps l k rate burst now v a.0 a.1
  step-LimiterIsSound l (sets_global rate now) v a r = set_global-Keeps l rate now v a
  step-LimiterIsSound l (sets_backoff k c) v a r = set_backoff-Keeps l k c v a
  step-LimiterIsSound l (acquires k n t1 t2 t3) v a r = acquire-Keeps l k n t1 t2 t3 v a r.0 r.1
  step-LimiterIsSound l (asks_wait k n now) v a r = wait-Keeps l k n now v
  step-LimiterIsSound l (fails k now) v a r = fails-Keeps l k now v
  step-LimiterIsSound l (succeeds k) v a r =
      rw v.unlocked (_, refl, known-IsSound (success_state d) l k v (success-DomainIsSound d))
  step-LimiterIsSound l (resets_backoff k) v a r =
      rw v.unlocked (_, refl, known-IsSound (reset_state d) l k v (reset-DomainIsSound d))
  step-LimiterIsSound l resets v a r =
      rw v.unlocked (_, refl, record { domains_sound = tt; global_sound = tt; unlocked = refl })
  step-LimiterIsSound l (waits k n now) v a r = wait-Keeps l k n now v
  step-LimiterIsSound l (asks_limited k) v a r = rw v.unlocked (_, refl, asked l v)
  step-LimiterIsSound l (asks_delay k) v a r = rw v.unlocked (_, refl, asked l v)
  step-LimiterIsSound l (asks_stats k) v a r = rw v.unlocked (_, refl, asked l v)

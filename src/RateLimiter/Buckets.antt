-- ===== src/RateLimiter/Buckets.antt =====
-- The state of one bucket and of one domain, over each step on them.
use bb_pipeline.Common.{
  ℕ, ◌≡◌, ◌-◌, ◌/◌, Option, none, some, true, arith, Text, lookup, values, All, All-lookup,
  Option-cases, inl, inr,
}
use bb_pipeline.Common.Double.{Double, zero_f}
use bb_pipeline.RateLimiter.{
  TokenBucket, DomainState, BackoffConfig, Limiter, state_or_fresh, fresh_state, refill_tokens,
  decay, refill_global, full_bucket,
}
use bb_pipeline.RateLimiter.Feedback.{fail_state, success_state, reset_state}

module _ (d : Double) where
  abbrev pub IsNonneg : d.F → Type 0
  IsNonneg a = d.le (zero_f d) a ≡ true

  -- Between empty and full, and filling.
  pub record BucketIsSound (b : TokenBucket d) : Type 0 where
    pub tokens_nonneg : IsNonneg b.tokens
    pub tokens_capped : d.le b.tokens b.capacity ≡ true
    pub rate_nonneg : IsNonneg b.refill_rate

  abbrev pub IsSound? : Option (TokenBucket d) → Type 0
  IsSound? none = Unit
  IsSound? (some b) = BucketIsSound b

  pub record ConfigIsSound (c : BackoffConfig d) : Type 0 where
    pub initial_nonneg : IsNonneg c.initial_delay_ms
    pub max_nonneg : IsNonneg c.max_delay_ms
    pub multiplier_nonneg : IsNonneg c.multiplier

  pub record DomainIsSound (s : DomainState d) : Type 0 where
    pub bucket_sound : IsSound? s.bucket
    pub config_sound : ConfigIsSound s.backoff_config
    pub delay_nonneg : IsNonneg s.current_delay_ms

  pub full-BucketIsSound :
      (cap rate : d.F) (now : ℕ)
      → IsNonneg cap
      → IsNonneg rate
      → BucketIsSound (full_bucket d cap rate now)
  full-BucketIsSound cap rate now h k = record {
    tokens_nonneg = h;
    tokens_capped = d.le_refl cap;
    rate_nonneg = k;
  }

  pub refill-BucketIsSound :
      (b : TokenBucket d) (now : ℕ) → BucketIsSound b → BucketIsSound (refill_tokens d b now)
  unfolding refill_tokens
  refill-BucketIsSound b now v = record {
    tokens_nonneg = ground (arith, filled, room);
    tokens_capped =
        ground (arith, d.le_refl b.capacity, d.le_total b.capacity (d.add b.tokens gain));
    rate_nonneg = v.rate_nonneg;
  }
    where
      gain : d.F
      gain = d.mul (d.of_ratio (now - b.last_refill) 1000000000) b.refill_rate

      filled : IsNonneg (d.add b.tokens gain)
      filled =
          d.add_nonneg b.tokens gain v.tokens_nonneg
            (d.mul_nonneg _ _ (d.of_nonneg _ _) v.rate_nonneg)

      room : IsNonneg b.capacity
      room = d.le_trans _ _ _ v.tokens_nonneg v.tokens_capped

  pub refill_global-IsSound? :
      (g : Option (TokenBucket d)) (now : ℕ) → IsSound? g → IsSound? (refill_global d g now)
  refill_global-IsSound? none now v = v
  refill_global-IsSound? (some g) now v = refill-BucketIsSound g now v

  -- Taking no more tokens than there are, and no negative number of them.
  pub spend-BucketIsSound :
      (b : TokenBucket d) (n : d.F)
      → BucketIsSound b
      → IsNonneg n
      → d.le n b.tokens ≡ true
      → BucketIsSound (record b { tokens = d.sub b.tokens n })
  spend-BucketIsSound b n v h k = record {
    tokens_nonneg = d.sub_nonneg b.tokens n k;
    tokens_capped = d.le_trans _ _ _ (d.sub_le b.tokens n h v.tokens_nonneg) v.tokens_capped;
    rate_nonneg = v.rate_nonneg;
  }

  pub decay-IsNonneg :
      (s : DomainState d) (now : ℕ)
      → IsNonneg s.current_delay_ms
      → IsNonneg (decay d s now).current_delay_ms
  unfolding decay
  decay-IsNonneg s now v = ground (
    arith,
    d.le_refl (zero_f d),
    d.le_total (d.sub s.current_delay_ms (d.of_ratio ((now - s.last_failure) / 1000000) 1))
        (zero_f d),
  )

  pub fail-DomainIsSound :
      (s : DomainState d) (now : ℕ) → DomainIsSound s → DomainIsSound (fail_state d s now)
  unfolding fail_state
  fail-DomainIsSound s now v = record {
    bucket_sound = v.bucket_sound;
    config_sound = v.config_sound;
    delay_nonneg = ground (
      arith,
      d.mul_nonneg s.current_delay_ms s.backoff_config.multiplier v.delay_nonneg
          v.config_sound.multiplier_nonneg,
    );
  }

  pub success-DomainIsSound :
      (s : DomainState d) → DomainIsSound s → DomainIsSound (success_state d s)
  unfolding success_state
  success-DomainIsSound s v = record {
    bucket_sound = v.bucket_sound;
    config_sound = v.config_sound;
    delay_nonneg = ground (
      arith,
      d.le_refl (zero_f d),
      d.mul_nonneg s.current_delay_ms (d.of_ratio 1 2) v.delay_nonneg (d.of_nonneg 1 2),
    );
  }

  pub reset-DomainIsSound : (s : DomainState d) → DomainIsSound s → DomainIsSound (reset_state d s)
  unfolding reset_state
  reset-DomainIsSound s v = record {
    bucket_sound = v.bucket_sound;
    config_sound = v.config_sound;
    delay_nonneg = d.le_refl (zero_f d);
  }

  pub fresh-DomainIsSound : DomainIsSound (fresh_state d)
  fresh-DomainIsSound = record {
    bucket_sound = tt;
    config_sound = record {
      initial_nonneg = d.of_nonneg 1000 1;
      max_nonneg = d.of_nonneg 60000 1;
      multiplier_nonneg = d.of_nonneg 2 1;
    };
    delay_nonneg = d.le_refl (zero_f d);
  }

  pub state_or_fresh-DomainIsSound :
      (l : Limiter d) (k : Text)
      → All DomainIsSound (values l.domain_states)
      → DomainIsSound (state_or_fresh d l k)
  state_or_fresh-DomainIsSound l k v = elim (Option-cases (lookup k l.domain_states)) [
    | inl e ↦ rw (e, state_or_fresh) fresh-DomainIsSound
    | inr (s, e) ↦ rw (e, state_or_fresh) (All-lookup DomainIsSound k l.domain_states s e v)
  ]

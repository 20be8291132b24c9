-- ===== src/RateLimiter/Admission.antt =====
-- The invariant of a domain, over `admit`.
use bb_pipeline.Common.{ℕ, ◌≡◌, false, Option, none, some, arith, Bool-cases, inl, inr}
use bb_pipeline.Common.Double.{Double}
use bb_pipeline.RateLimiter.{TokenBucket, DomainState, admit, spend, global_short, count_request}
use bb_pipeline.RateLimiter.Buckets.{
  IsNonneg, IsSound?, BucketIsSound, DomainIsSound, spend-BucketIsSound, decay-IsNonneg,
}
use bb_pipeline.RateLimiter.Acquire.{
  admits, admit-granted, admit-counts, admits-covers, admit-delay,
}

module _ (d : Double) where
  spend-IsSound? :
      (g : Option (TokenBucket d)) (n : d.F)
      → IsSound? d g
      → IsNonneg d n
      → global_short d g n ≡ false
      → IsSound? d (spend d g n)
  spend-IsSound? none n v h k = tt
  spend-IsSound? (some g) n v h k = spend-BucketIsSound d g n v h (ground arith)

  module _ (s : DomainState d) (b : TokenBucket d) (g : Option (TokenBucket d)) (n : d.F) (now : ℕ)
      (v : DomainIsSound d s) (h : BucketIsSound d b) (k : IsSound? d g) (p : IsNonneg d n) where
    admit-bucket : IsSound? d (admit d s b g n now).0.bucket
    admit-bucket = rw (admit-granted d s b g n now).2 (elim (Bool-cases (admits d s b g n now)) [
      | inl e ↦ rw e (spend-BucketIsSound d b n h p (admits-covers d s b g n now e).0)
      | inr e ↦ rw e h
    ])

    pub admit-global : IsSound? d (admit d s b g n now).1
    admit-global = rw (admit-granted d s b g n now).1 (elim (Bool-cases (admits d s b g n now)) [
      | inl e ↦ rw e (spend-IsSound? g n k p (admits-covers d s b g n now e).1)
      | inr e ↦ rw e k
    ])

    admit-delay-IsNonneg : IsNonneg d (admit d s b g n now).0.current_delay_ms
    admit-delay-IsNonneg = elim (admit-delay d s b g n now) [
      | inl e ↦ rw e v.delay_nonneg
      | inr e ↦
          rw e
            (decay-IsNonneg d (count_request d (record s { bucket = some b })) now v.delay_nonneg)
    ]

    pub admit-DomainIsSound : DomainIsSound d (admit d s b g n now).0
    admit-DomainIsSound = record {
      bucket_sound = admit-bucket;
      config_sound = rw (admit-counts d s b g n now).2 v.config_sound;
      delay_nonneg = admit-delay-IsNonneg;
    }

-- ===== src/Cache/Sweep.antt =====
-- `cleanup`: what goes, what stays, and the count.
use bb_pipeline.Common.{
  text-eq, ℕ, ◌+◌, ◌*◌, ◌≤◌, ◌≡◌, refl, true, false, none, some, [], ◌∷◌, arith, Text, Dict, lookup,
  length, Unique,
}
use bb_pipeline.Cache.Headers.{CacheConfig}
use bb_pipeline.Cache.{CacheEntry, Cache, trigger_event}
use bb_pipeline.Cache.Maintenance.{is_dead, sweep, cleanup}

module _ (config : CacheConfig) (clock : ℕ → ℕ) where
  pub length-sweep :
      (i : ℕ) (m : Dict CacheEntry)
      → length (sweep config clock i m).0 + (sweep config clock i m).1 ≡ length m
  unfolding sweep
  length-sweep i [] = omega arith
  length-sweep i ((k, e) ∷ m) = ground (arith, length-sweep (i + 1) m)

  -- An absent key stays absent.
  lookup-sweep-none :
      (i : ℕ) (k : Text) (m : Dict CacheEntry)
      → lookup k m ≡ none
      → lookup k (sweep config clock i m).0 ≡ none
  unfolding sweep lookup
  lookup-sweep-none i k [] h = refl
  lookup-sweep-none i k ((j, e) ∷ m) h = ground (arith, lookup-sweep-none (i + 1) k m)

  pub Unique-sweep : (i : ℕ) (m : Dict CacheEntry) → Unique m → Unique (sweep config clock i m).0
  unfolding sweep
  Unique-sweep i [] u = tt
  Unique-sweep i ((k, e) ∷ m) u =
      ground (arith, lookup-sweep-none (i + 1) k m u.0, Unique-sweep (i + 1) m u.1)

  module _ (lo hi : ℕ) (bounds : (n : ℕ) → (lo ≤ clock n) × (clock n ≤ hi)) where
    -- Dead by an early reading, dead by every reading.
    dead_between :
        (e : CacheEntry) (n n' : ℕ)
        → (is_dead config e lo lo ≡ true → is_dead config e (clock n) (clock n') ≡ true)
          × (is_dead config e (clock n) (clock n') ≡ true → is_dead config e hi hi ≡ true)
    dead_between e n n' =
        (λ h. ground (arith, bounds n, bounds n'), λ h. ground (arith, bounds n, bounds n'))

    pub sweep_removes :
        (i : ℕ) (k : Text) (m : Dict CacheEntry) (e : CacheEntry)
        → Unique m
        → lookup k m ≡ some e
        → is_dead config e lo lo ≡ true
        → lookup k (sweep config clock i m).0 ≡ none
    unfolding sweep lookup
    sweep_removes i k [] e u h d = refl
    sweep_removes i k ((j, a) ∷ m) e u h d = ground (
      arith,
      sweep_removes (i + 1) k m e u.1,
      (dead_between e (2 * i) (2 * i + 1)).0 d,
      text-eq j k,
      lookup-sweep-none (i + 1) k m,
    )

    pub sweep_keeps :
        (i : ℕ) (k : Text) (m : Dict CacheEntry) (e : CacheEntry)
        → lookup k m ≡ some e
        → is_dead config e hi hi ≡ false
        → lookup k (sweep config clock i m).0 ≡ some e
    unfolding sweep lookup
    sweep_keeps i k [] e h d = cc
    sweep_keeps i k ((j, a) ∷ m) e h d =
        ground (arith, sweep_keeps (i + 1) k m e, (dead_between e (2 * i) (2 * i + 1)).1)

cleanup_entries :
    (c : Cache) (clock : ℕ → ℕ) → (cleanup c clock).0.entries ≡ (sweep c.config clock 0 c.entries).0
unfolding cleanup trigger_event
cleanup_entries c clock = ground arith

cleanup_count :
    (c : Cache) (clock : ℕ → ℕ) → (cleanup c clock).1 ≡ (sweep c.config clock 0 c.entries).1
unfolding cleanup
cleanup_count c clock = refl

-- `cleanup`, whose readings lie between two times, removes every entry that is dead at the earlier
-- one and keeps every entry that is not dead at the later one as it is; dead is expired, and past
-- the stale age too if stale entries are served. It returns the number of entries removed.
pub cleanup_exact :
    (c : Cache) (clock : ℕ → ℕ) (lo hi : ℕ)
    → ((n : ℕ) → (lo ≤ clock n) × (clock n ≤ hi))
    → Unique c.entries
    → ((k : Text) (e : CacheEntry)
        → lookup k c.entries ≡ some e
        → is_dead c.config e lo lo ≡ true
        → lookup k (cleanup c clock).0.entries ≡ none)
      × ((k : Text) (e : CacheEntry)
          → lookup k c.entries ≡ some e
          → is_dead c.config e hi hi ≡ false
          → lookup k (cleanup c clock).0.entries ≡ some e)
      × (length (cleanup c clock).0.entries + (cleanup c clock).1 ≡ length c.entries)
cleanup_exact c clock lo hi bounds u = (
  λ k e h d.
      rw (cleanup_entries c clock)
        (sweep_removes c.config clock lo hi bounds 0 k c.entries e u h d),
  λ k e h d.
      rw (cleanup_entries c clock) (sweep_keeps c.config clock lo hi bounds 0 k c.entries e h d),
  rw (cleanup_entries c clock, cleanup_count c clock) (length-sweep c.config clock 0 c.entries),
)

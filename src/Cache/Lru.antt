-- ===== src/Cache/Lru.antt =====
-- Eviction: which entry goes, and how large the cache gets.
use bb_pipeline.Common.{
  ℕ, ◌≤◌, ◌<◌, ◌+◌, ◌≡◌, refl, ◌∙◌, none, some, [], ◌∷◌, arith, Text, Dict, lookup, erase, values,
  Unique, text-eq, leb→le, All, length, length-erase_found, length-insert, ltb, Option-cases, inl,
  inr, text-eq_refl, ◌=t◌, leb, Bool-cases, ◌⊎◌,
}
use bb_pipeline.Cache.Headers.{cache_ttl}
use bb_pipeline.Cache.Storing.{store_throws, store_entries}
use bb_pipeline.Cache.{
  new_entry, Zlib, CacheEntry, Cache, lru, older, evict_lru, trigger_event, make_room, store,
}

lru-le_start :
    (p : Text × CacheEntry) (m : Dict CacheEntry) → (lru p m).1.last_accessed ≤ p.1.last_accessed
unfolding lru
lru-le_start p [] = omega arith
lru-le_start p (q ∷ m) = ground (arith, lru-le_start (older q p) m)

lru_least :
    (p : Text × CacheEntry) (m : Dict CacheEntry)
    → All (λ e. (lru p m).1.last_accessed ≤ e.last_accessed) (values m)
unfolding lru
lru_least p [] = tt
lru_least p (q ∷ m) = (ground (arith, lru-le_start (older q p) m), lru_least (older q p) m)

lookup-head : (q : Text × CacheEntry) (m : Dict CacheEntry) → lookup q.0 (q ∷ m) ≡ some q.1
unfolding lookup
lookup-head q m = rw (text-eq_refl q.0)

-- The chosen entry is the first one, or stands further on.
skip :
    (r q : Text × CacheEntry) (m : Dict CacheEntry)
    → lookup r.0 m ≡ some r.1
    → lookup q.0 m ≡ none
    → lookup r.0 (q ∷ m) ≡ some r.1
unfolding lookup
skip r q m h n = elim (Bool-cases (q.0 =t r.0)) [
  | inl t ↦ absurd (let e : q.0 ≡ r.0 = text-eq q.0 r.0 t in let n' = rw e at n in cc)
  | inr f ↦ rw f h
]

lru-lookup :
    (p : Text × CacheEntry) (m : Dict CacheEntry)
    → Unique m
    → (lru p m ≡ p) ⊎ (lookup (lru p m).0 m ≡ some (lru p m).1)
unfolding lru
lru-lookup p [] u = inl refl
lru-lookup p (q ∷ m) u = elim (lru-lookup (older q p) m u.1) [
  | inl e ↦ elim (Bool-cases (ltb q.1.last_accessed p.1.last_accessed)) [
    | inl t ↦ inr (rw (e, t) (lookup-head q m))
    | inr f ↦ inl (e ∙ rw f)
  ]
  | inr h ↦ inr (later h)
]
  where
    later :
        lookup (lru (older q p) m).0 m ≡ some (lru (older q p) m).1
        → lookup (lru (older q p) m).0 (q ∷ m) ≡ some (lru (older q p) m).1
    later h = skip (lru (older q p) m) q m h u.0

-- The entry that `evictLRU` drops from a nonempty cache was in it, no entry was accessed before it,
-- and the cache is smaller by one.
abbrev pub EvictsOldest : Dict CacheEntry → Dict CacheEntry → Type 0
EvictsOldest m m' =
    (k : Text) × (e : CacheEntry) × (lookup k m ≡ some e)
    × All (λ a. e.last_accessed ≤ a.last_accessed) (values m)
    × (m' ≡ erase k m)
    × (length m' + 1 ≡ length m)

trigger-entries : (a b : Text) (c : Cache) → (trigger_event a b c).entries ≡ c.entries
unfolding trigger_event
trigger-entries a b c = ground arith

evict-EvictsOldest_of :
    (p : Text × CacheEntry) (m : Dict CacheEntry)
    → Unique (p ∷ m)
    → EvictsOldest (p ∷ m) (erase (lru p (p ∷ m)).0 (p ∷ m))
evict-EvictsOldest_of p m u =
    let victim = lru p (p ∷ m) in
    let there : lookup victim.0 (p ∷ m) ≡ some victim.1 = elim (lru-lookup p (p ∷ m) u) [
      | inl e ↦ rw e (lookup-head p m)
      | inr h ↦ h
    ] in
    (
      victim.0,
      victim.1,
      there,
      lru_least p (p ∷ m),
      refl,
      length-erase_found victim.0 (p ∷ m) victim.1 there,
    )

evict_entries :
    (c : Cache) (p : Text × CacheEntry) (m : Dict CacheEntry)
    → c.entries ≡ p ∷ m
    → (evict_lru c).entries ≡ erase (lru p (p ∷ m)).0 (p ∷ m)
unfolding evict_lru trigger_event
evict_entries c p m e = ground arith

-- `evictLRU` on a cache with distinct keys that is not empty drops one entry, which was in the cache
-- and which no other entry was accessed before; the rest stays as it is.
pub evict_lru-EvictsOldest :
    (c : Cache)
    → Unique c.entries
    → 0 < length c.entries
    → EvictsOldest c.entries (evict_lru c).entries
evict_lru-EvictsOldest c u h = go c.entries refl
  where
    go : (m : Dict CacheEntry) → c.entries ≡ m → EvictsOldest c.entries (evict_lru c).entries
    go [] e = absurd (let h' : 0 < length {A = Text × CacheEntry} [] = rw e at h in omega arith)
    go (p ∷ m) e =
        let u' : Unique (p ∷ m) = rw e at u in
        rw (evict_entries c p m e, e) (evict-EvictsOldest_of p m u')

make_room_bounded :
    (c : Cache)
    → Unique c.entries
    → 0 < c.config.max_entries
    → length c.entries ≤ c.config.max_entries
    → length (make_room c).entries < c.config.max_entries
unfolding make_room
make_room_bounded c u p h = elim (Bool-cases (leb c.config.max_entries (length c.entries))) [
  | inl t ↦
      let full = leb→le _ _ t in
      let (_, _, _, _, _, e) = evict_lru-EvictsOldest c u (omega arith) in
      rw (t, make_room) (omega arith)
  | inr f ↦ rw (f, make_room) (ground arith)
]

-- A cache within its limit, which is not zero, is within it after a `store`, whether that returns or
-- throws.
pub store_bounded :
    (z : Zlib) (c : Cache) (url content : Text) (headers : Dict Text) (now : ℕ)
    → Unique c.entries
    → 0 < c.config.max_entries
    → length c.entries ≤ c.config.max_entries
    → length (store z c url content headers now).0.entries ≤ c.config.max_entries
store_bounded z c url content headers now u p h = elim (Option-cases (cache_ttl c.config headers)) [
  | inl e ↦ rw (store_throws z c url content headers now e) h
  | inr (ttl, e) ↦ rw (store_entries z c url content headers now ttl e) (
      omega (
        arith,
        make_room_bounded c u p h,
        length-insert url (new_entry z c.config url content headers now ttl) (make_room c).entries,
      ))
]

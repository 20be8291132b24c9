-- ===== src/Cache/Stats.antt =====
-- The statistics: what holds of them after any sequence of operations.
use bb_pipeline.Common.{
  ℕ, ◌+◌, ◌≡◌, refl, true, some, List, [], ◌∷◌, arith, Text, Dict, lookup, length, u64,
  Option-cases, inl, inr, Unique, Unique-insert, Unique-erase, length-insert_found, leb, Bool-cases,
}
use bb_pipeline.Cache.Headers.{CacheConfig, cache_ttl}
use bb_pipeline.Cache.{
  Zlib, CacheEntry, Cache, store, get, serve, validate, evict_lru, lru, trigger_event, put_entry,
  make_room, new_entry,
}
use bb_pipeline.Cache.Maintenance.{update_after_validation, remove, clear, cleanup, configure}
use bb_pipeline.Cache.Sweep.{Unique-sweep}

pub data Op : Type 0 where
  stores : Text → Text → Dict Text → ℕ → Op
  gets : Text → ℕ → ℕ → ℕ → Op
  validates updates : Text → Dict Text → ℕ → Op
  removes : Text → Op
  clears : Op
  cleans : (ℕ → ℕ) → Op
  configures : CacheConfig → Op

unfoldable pub step : Zlib → Cache → Op → Cache
step z c (stores url content headers now) = (store z c url content headers now).0
step z c (gets url t1 t2 t3) = (get z c url t1 t2 t3).0
step z c (validates url headers now) = (validate c url headers now).0
step z c (updates url headers now) = (update_after_validation c url headers now).0
step z c (removes url) = remove c url
step z c clears = clear c
step z c (cleans clock) = (cleanup c clock).0
step z c (configures config) = configure c config

unfoldable pub run : Zlib → Cache → List Op → Cache
run z c [] = c
run z c (o ∷ os) = run z (step z c o) os

-- The hits and the misses make up the requests, the count is that of the entries, and no url stands
-- twice.
pub record IsCoherent (c : Cache) : Type 0 where
  pub requests : c.stats.total_requests ≡ u64 (c.stats.cache_hits + c.stats.cache_misses)
  pub counted : c.stats.entries_count ≡ length c.entries
  pub distinct : Unique c.entries

evict-requests :
    (c : Cache)
    → ((make_room c).stats.total_requests ≡ c.stats.total_requests)
      × ((make_room c).stats.cache_hits ≡ c.stats.cache_hits)
      × ((make_room c).stats.cache_misses ≡ c.stats.cache_misses)
unfolding make_room evict_lru trigger_event
evict-requests c = ground arith

evict-Unique : (c : Cache) → Unique c.entries → Unique (evict_lru c).entries
unfolding evict_lru trigger_event
evict-Unique c u = go c.entries refl
  where
    go : (m : Dict CacheEntry) → c.entries ≡ m → Unique (evict_lru c).entries
    go [] e = rw (e, evict_lru) u
    go (p ∷ m) e = rw (e, evict_lru) (ground (arith, Unique-erase (lru p (p ∷ m)).0 c.entries u))

make_room-Unique : (c : Cache) → Unique c.entries → Unique (make_room c).entries
unfolding make_room evict_lru trigger_event
make_room-Unique c u = elim (Bool-cases (leb c.config.max_entries (length c.entries))) [
  | inl t ↦ rw (t, make_room) (evict-Unique c u)
  | inr f ↦ rw (f, make_room) u
]

store-IsCoherent :
    (z : Zlib) (c : Cache) (url content : Text) (headers : Dict Text) (now : ℕ)
    → IsCoherent c
    → IsCoherent (store z c url content headers now).0
unfolding store trigger_event
store-IsCoherent z c url content headers now v = elim (Option-cases (cache_ttl c.config headers)) [
  | inl e ↦ rw (e, store) v
  | inr (ttl, e) ↦
      rw (e, store)
        (record {
          requests = ground (arith, evict-requests c);
          counted = ground arith;
          distinct = ground (
            arith,
            Unique-insert url (new_entry z c.config url content headers now ttl)
                (make_room c).entries (make_room-Unique c v.distinct),
          );
        })
]

serve-IsCoherent :
    (z : Zlib) (c : Cache) (url : Text) (e a : CacheEntry) (t2 t3 : ℕ)
    → lookup url c.entries ≡ some a
    → c.stats.total_requests ≡ u64 (c.stats.cache_hits + c.stats.cache_misses + 1)
    → c.stats.entries_count ≡ length c.entries
    → Unique c.entries
    → IsCoherent (serve z c url e t2 t3).0
unfolding serve trigger_event
serve-IsCoherent z c url e a t2 t3 h r n u = record {
  requests = ground arith;
  counted = ground (
    arith,
    length-insert_found url e c.entries a h,
    length-insert_found url (record e { is_stale = true }) c.entries a h,
  );
  distinct = ground (
    arith,
    Unique-insert url e c.entries u,
    Unique-insert url (record e { is_stale = true }) c.entries u,
    Unique-erase url c.entries u,
  );
}

get-IsCoherent :
    (z : Zlib) (c : Cache) (url : Text) (t1 t2 t3 : ℕ)
    → IsCoherent c
    → IsCoherent (get z c url t1 t2 t3).0
unfolding get trigger_event
get-IsCoherent z c url t1 t2 t3 v = elim (Option-cases (lookup url c.entries)) [
  | inl e ↦
      rw (e, get)
        (record {
          requests = let r = v.requests in ground arith;
          counted = ground (arith, v.counted);
          distinct = ground (arith, v.distinct);
        })
  | inr (a, e) ↦
      rw (e, get)
        (serve-IsCoherent z _ url _ a t2 t3 e (let r = v.requests in omega arith) v.counted
          v.distinct)
]

trigger-IsCoherent : (a b : Text) (c : Cache) → IsCoherent c → IsCoherent (trigger_event a b c)
unfolding trigger_event
trigger-IsCoherent a b c v = elim (Bool-cases c.has_callback) [
  | inl t ↦ rw t (record { requests = v.requests; counted = v.counted; distinct = v.distinct })
  | inr f ↦ rw f (record { requests = v.requests; counted = v.counted; distinct = v.distinct })
]

replace-IsCoherent :
    (c : Cache) (url : Text) (e a : CacheEntry)
    → lookup url c.entries ≡ some a
    → IsCoherent c
    → IsCoherent (put_entry url e c)
replace-IsCoherent c url e a h v = record {
  requests = v.requests;
  counted = ground (arith, v.counted, length-insert_found url e c.entries a h);
  distinct = Unique-insert url e c.entries v.distinct;
}

update-IsCoherent :
    (c : Cache) (url : Text) (headers : Dict Text) (now : ℕ)
    → IsCoherent c
    → IsCoherent (update_after_validation c url headers now).0
unfolding update_after_validation
update-IsCoherent c url headers now v = elim (Option-cases (lookup url c.entries)) [
  | inl e ↦ rw (e, update_after_validation) v
  | inr (a, e) ↦ elim (Option-cases (cache_ttl c.config headers)) [
    | inl t ↦ rw (e, t, update_after_validation) (replace-IsCoherent c url _ a e v)
    | inr (ttl, t) ↦
        rw (e, t, update_after_validation)
          (trigger-IsCoherent _ _ _ (replace-IsCoherent c url _ a e v))
  ]
]

remove-IsCoherent : (c : Cache) (url : Text) → IsCoherent c → IsCoherent (remove c url)
unfolding remove trigger_event
remove-IsCoherent c url v = elim (Option-cases (lookup url c.entries)) [
  | inl e ↦ rw (e, remove) v
  | inr (a, e) ↦
      rw (e, remove)
        (record {
          requests = ground (arith, v.requests);
          counted = ground arith;
          distinct = ground (arith, Unique-erase url c.entries v.distinct);
        })
]

clear-IsCoherent : (c : Cache) → IsCoherent (clear c)
unfolding clear trigger_event
clear-IsCoherent c = ground arith

cleanup-IsCoherent : (c : Cache) (clock : ℕ → ℕ) → IsCoherent c → IsCoherent (cleanup c clock).0
unfolding cleanup trigger_event
cleanup-IsCoherent c clock v = record {
  requests = ground (arith, v.requests);
  counted = ground arith;
  distinct = ground (arith, Unique-sweep c.config clock 0 c.entries v.distinct);
}

step-IsCoherent : (z : Zlib) (c : Cache) (o : Op) → IsCoherent c → IsCoherent (step z c o)
unfolding step validate configure
step-IsCoherent z c (stores url content headers now) v =
    store-IsCoherent z c url content headers now v
step-IsCoherent z c (gets url t1 t2 t3) v = get-IsCoherent z c url t1 t2 t3 v
step-IsCoherent z c (validates url headers now) v = record {
  requests = v.requests;
  counted = v.counted;
  distinct = v.distinct;
}
step-IsCoherent z c (updates url headers now) v = update-IsCoherent c url headers now v
step-IsCoherent z c (removes url) v = remove-IsCoherent c url v
step-IsCoherent z c clears v = clear-IsCoherent c
step-IsCoherent z c (cleans clock) v = cleanup-IsCoherent c clock v
step-IsCoherent z c (configures config) v = record {
  requests = v.requests;
  counted = v.counted;
  distinct = v.distinct;
}

-- Every sequence of operations keeps the cache coherent: the hits and misses make up the requests
-- (modulo the width of the counters), the entry count is right, and no url is cached twice.
pub run-IsCoherent : (z : Zlib) (c : Cache) (os : List Op) → IsCoherent c → IsCoherent (run z c os)
unfolding run
run-IsCoherent z c [] v = v
run-IsCoherent z c (o ∷ os) v = run-IsCoherent z (step z c o) os (step-IsCoherent z c o v)

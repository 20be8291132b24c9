-- ===== src/Cache/Examples.antt =====
-- Runs of the cache.
use bb_pipeline.Common.{
  ℕ, ◌+◌, ◌≤◌, ◌≡◌, refl, true, false, Option, none, some, List, [], ◌∷◌, arith, Text, Dict, codes,
  lookup, erase, ◌=t◌, length,
}
use bb_pipeline.Cache.Headers.{
  CacheConfig, cache_ttl, search_max_age, find_header, strip_prefix, skip_spaces, leading_digits,
  match_max_age, digits_value, stoll, etag_of, last_modified_of,
}
use bb_pipeline.Cache.{
  Zlib, CacheEntry, CacheStats, Cache, store, get, lru, evict_lru, is_empty, seconds, validate,
  fresh,
}
use bb_pipeline.Cache.Maintenance.{cleanup, is_dead}
use bb_pipeline.Cache.Serving.{ZlibLaws, get-store}
use bb_pipeline.Cache.Lru.{EvictsOldest, evict_lru-EvictsOldest, store_bounded}
use bb_pipeline.Cache.Stats.{Op, stores, gets, removes, IsCoherent, run, run-IsCoherent}
use bb_pipeline.Cache.Sweep.{cleanup_exact}
use bb_pipeline.Cache.Lifetimes.{HasHugeAge}

abbrev config : CacheConfig
config = record {
  default_ttl = 3600;
  max_ttl = 86400;
  min_ttl = 60;
  max_entries = 2;
  enable_stale_while_revalidate = true;
  stale_max_age = 7200;
  enable_compression = true;
}

abbrev headers : Dict Text
headers = (codes "ETag", codes "v1") ∷ (codes "cache-control", codes "public, max-age = 5") ∷ []

abbrev huge_headers : Dict Text
huge_headers = (codes "cache-control", codes "max-age=99999999999999999999") ∷ []

abbrev entry : Text → ℕ → CacheEntry
entry url accessed = record {
  url = url;
  content = codes "old";
  headers = [];
  etag = none;
  last_modified = none;
  created_at = 0;
  expires_at = 100;
  access_count = 0;
  last_accessed = accessed;
  is_stale = false;
}

abbrev cache : Cache
cache = record {
  entries = (codes "a", entry (codes "a") 7) ∷ (codes "b", entry (codes "b") 3) ∷ [];
  config = config;
  stats = record {
    total_requests = 5;
    cache_hits = 3;
    cache_misses = 2;
    validation_requests = 0;
    entries_count = 2;
    evictions = 0;
  };
  has_callback = true;
  events = [];
}

-- A zlib that puts a byte in front.
abbrev tag_inflate : Text → Option Text
tag_inflate [] = none
tag_inflate (x ∷ s) = some s

abbrev tag_zlib : Zlib
tag_zlib = record { deflate = λ s. some (120 ∷ s); inflate = tag_inflate }

tag_zlib-ZlibLaws : ZlibLaws tag_zlib
tag_zlib-ZlibLaws = record {
  inflate-deflate = λ s w e. ground arith;
  deflate_nonempty = λ s w e. ground arith;
}

headers_ttl : cache_ttl config headers ≡ some 60
unfolding cache_ttl find_header lookup ◌=t◌ search_max_age match_max_age strip_prefix skip_spaces
    leading_digits stoll digits_value
headers_ttl = refl

evicts_b : (evict_lru cache).entries ≡ (codes "a", entry (codes "a") 7) ∷ []
unfolding evict_lru lru erase ◌=t◌ bb_pipeline.Cache.trigger_event
evicts_b = refl

get-store_example :
    (e : CacheEntry) × ((get tag_zlib
        (store tag_zlib cache (codes "u") (codes "body") headers 10).0
        (codes "u")
        20
        21
        22).1
      ≡ some e)
    × (e.content ≡ codes "body")
    × (e.headers ≡ headers)
    × (e.etag ≡ etag_of headers)
    × (e.last_modified ≡ last_modified_of headers)
get-store_example =
    get-store tag_zlib cache (codes "u") (codes "body") headers 10 60 20 21 22 (120 ∷ codes "body")
      tag_zlib-ZlibLaws refl (omega arith) (omega arith) headers_ttl (omega arith)

evict_lru-EvictsOldest_example : EvictsOldest cache.entries (evict_lru cache).entries
unfolding lookup ◌=t◌
evict_lru-EvictsOldest_example = evict_lru-EvictsOldest cache (refl, (refl, tt)) (omega arith)

store_bounded_example :
    length (store tag_zlib cache (codes "u") (codes "body") headers 10).0.entries ≤ 2
unfolding lookup ◌=t◌
store_bounded_example =
    store_bounded tag_zlib cache (codes "u") (codes "body") headers 10 (refl, (refl, tt))
      (omega arith) (omega arith)

cache-IsCoherent : IsCoherent cache
unfolding lookup ◌=t◌
cache-IsCoherent = record { requests = refl; counted = refl; distinct = (refl, (refl, tt)) }

abbrev session : List Op
session =
    stores (codes "u") (codes "body") headers 10
    ∷ gets (codes "u") 20 21 22
    ∷ removes (codes "a")
    ∷ []

run-IsCoherent_example : IsCoherent (run tag_zlib cache session)
run-IsCoherent_example = run-IsCoherent tag_zlib cache session cache-IsCoherent

cleanup_exact_example :
    ((k : Text) (e : CacheEntry)
      → lookup k cache.entries ≡ some e
      → is_dead config e 50 50 ≡ true
      → lookup k (cleanup cache (λ n. 50)).0.entries ≡ none)
    × ((k : Text) (e : CacheEntry)
        → lookup k cache.entries ≡ some e
        → is_dead config e 60 60 ≡ false
        → lookup k (cleanup cache (λ n. 50)).0.entries ≡ some e)
    × (length (cleanup cache (λ n. 50)).0.entries + (cleanup cache (λ n. 50)).1 ≡ 2)
unfolding lookup ◌=t◌
cleanup_exact_example =
    cleanup_exact cache (λ n. 50) 50 60 (λ n. (omega arith, omega arith)) (refl, (refl, tt))

huge_headers-HasHugeAge : HasHugeAge huge_headers
unfolding find_header lookup ◌=t◌ search_max_age match_max_age strip_prefix skip_spaces
    leading_digits digits_value
huge_headers-HasHugeAge =
    (codes "max-age=99999999999999999999", codes "99999999999999999999", refl, refl, omega arith)

-- ===== src/Cache/Maintenance.antt =====
-- The operations of the cache that revalidate, remove and clean up, and what it reports.
use bb_pipeline.Common.{
  ℕ, suc, ◌+◌, ◌*◌, Bool, true, false, ◌&&◌, ◌||◌, not, Option, none, some, [], ◌∷◌, ◌++◌, Text,
  codes, Dict, lookup, insert, erase, if◌then◌else◌, u64, ltb, to_string,
}
use bb_pipeline.Cache.Headers.{etag_of, last_modified_of, cache_ttl, CacheConfig, orelse}
use bb_pipeline.Cache.{
  CacheEntry, CacheStats, Cache, seconds, trigger_event, is_expired, is_past_stale, recount,
  put_entry,
}

-- `getConditionalHeaders`.
abbrev add_header : Text → Option Text → Dict Text → Dict Text
add_header name none headers = headers
add_header name (some v) headers = insert name v headers

unfoldable pub conditional_headers : Cache → Text → Dict Text
conditional_headers c url = elim (lookup url c.entries) [
  | none ↦ []
  | some e ↦
      add_header (codes "If-Modified-Since") e.last_modified
        (add_header (codes "If-None-Match") e.etag [])
]

-- The entry before its lifetime is worked out: a validator that the response lacks is kept.
abbrev pub new_headers : CacheEntry → Dict Text → CacheEntry
new_headers e headers = record e {
  headers = headers;
  etag = orelse (etag_of headers) e.etag;
  last_modified = orelse (last_modified_of headers) e.last_modified;
}

abbrev pub refresh : CacheEntry → ℕ → ℕ → CacheEntry
refresh e now ttl = record e { expires_at = now + seconds ttl; is_stale = false }

-- The second part is false where std::stoll throws out of the call, with the headers replaced.
unfoldable pub update_after_validation : Cache → Text → Dict Text → ℕ → Cache × Bool
update_after_validation c url headers now = elim (lookup url c.entries) [
  | none ↦ (c, true)
  | some e ↦ elim (cache_ttl c.config headers) [
    | none ↦ (put_entry url (new_headers e headers) c, false)
    | some ttl ↦ (
      trigger_event (codes "validated") url
          (put_entry url (refresh (new_headers e headers) now ttl) c),
      true,
    )
  ]
]

unfoldable pub remove : Cache → Text → Cache
remove c url = elim (lookup url c.entries) [
  | none ↦ c
  | some e ↦
      trigger_event (codes "removed") url (recount (record c { entries = erase url c.entries }))
]

abbrev pub zero_stats : CacheStats
zero_stats = record {
  total_requests = 0;
  cache_hits = 0;
  cache_misses = 0;
  validation_requests = 0;
  entries_count = 0;
  evictions = 0;
}

unfoldable pub clear : Cache → Cache
clear c =
    trigger_event (codes "cleared") (codes "all") (record c { entries = []; stats = zero_stats })

-- Expired, and past its stale window too if stale entries are served.
abbrev pub is_dead : CacheConfig → CacheEntry → ℕ → ℕ → Bool
is_dead config e t t' =
    is_expired e t && (not config.enable_stale_while_revalidate || is_past_stale config e t')

-- The loop of `cleanup`: what is kept, and how many are removed. Entry `i` is judged by the readings
-- `2 * i` and `2 * i + 1` of the clock.
unfoldable pub sweep : CacheConfig → (ℕ → ℕ) → ℕ → Dict CacheEntry → Dict CacheEntry × ℕ
sweep config clock i [] = ([], 0)
sweep config clock i ((k, e) ∷ m) =
    let r = sweep config clock (i + 1) m in
    if is_dead config e (clock (2 * i)) (clock (2 * i + 1))
    then (r.0, suc r.1)
    else ((k, e) ∷ r.0, r.1)

abbrev report_cleanup : ℕ → Cache → Cache
report_cleanup n c =
    if ltb 0 n then trigger_event (codes "cleanup") (to_string n ++ codes " entries") c else c

unfoldable pub cleanup : Cache → (ℕ → ℕ) → Cache × ℕ
cleanup c clock =
    let r = sweep c.config clock 0 c.entries in
    (
      report_cleanup r.1 (
          recount (record c {
            entries = r.0;
            stats = record c.stats { evictions = u64 (c.stats.evictions + r.1) };
          })),
      r.1,
    )

unfoldable pub configure : Cache → CacheConfig → Cache
configure c config = record c { config = config }

unfoldable pub set_event_callback : Cache → Cache
set_event_callback c = record c { has_callback = true }

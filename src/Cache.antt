-- ===== src/Cache.antt =====
-- infrastructure/networking/cache_system: the HTTP cache. Each operation holds the mutex throughout,
-- so calls of several threads are sequences of these steps. Times are nanoseconds of the system
-- clock, and every reading that an operation makes is an argument.
mod Headers
mod Maintenance
mod Storing
mod Lru
mod Stats
mod Chunks
mod Serving
mod Sweep
mod Lifetimes
mod Examples
use bb_pipeline.Common.{
  ℕ, suc, ◌+◌, ◌*◌, ◌≡◌, Bool, true, false, ◌&&◌, ◌||◌, not, Option, none, some, List, [], ◌∷◌,
  Text, codes, Dict, lookup, insert, erase, if◌then◌else◌, u64, ltb, leb, length, ◌=t◌,
}
use mathlib.Core.Option
use Chunks.{available, drain_all}
use Headers.{find_header, etag_of, last_modified_of, cache_ttl, CacheConfig}

-- zlib: all the bytes that a stream gives for its input, over the calls that ask for them; `none` is an error.
pub record Zlib : Type 0 where
  pub deflate : Text → Option Text
  pub inflate : Text → Option Text

pub record CacheEntry : Type 0 where
  pub url : Text
  pub content : Text
  pub headers : Dict Text
  pub etag : Option Text
  pub last_modified : Option Text
  pub created_at : ℕ
  pub expires_at : ℕ
  pub access_count : ℕ
  pub last_accessed : ℕ
  pub is_stale : Bool

pub record CacheStats : Type 0 where
  pub total_requests : ℕ
  pub cache_hits : ℕ
  pub cache_misses : ℕ
  pub validation_requests : ℕ
  pub entries_count : ℕ
  pub evictions : ℕ

-- `events` lists what the callback was given, the newest first.
pub record Cache : Type 0 where
  pub entries : Dict CacheEntry
  pub config : CacheConfig
  pub stats : CacheStats
  pub has_callback : Bool
  pub events : List (Text × Text)

pub data ValidationResult : Type 0 where
  fresh modified stale : ValidationResult

abbrev pub seconds : ℕ → ℕ
seconds n = n * 1000000000

abbrev pub inc : ℕ → ℕ
inc n = u64 (n + 1)

abbrev pub is_empty : Text → Bool
is_empty [] = true
is_empty (_ ∷ _) = false

abbrev pub or_self : Text → Option Text → Text
or_self s none = s
or_self s (some r) = r

unfoldable pub compress : Zlib → Text → Text
compress z s = if is_empty s then s else or_self s (Option.map drain_all (z.deflate (available s)))

unfoldable pub decompress : Zlib → Text → Text
decompress z s =
    if is_empty s then s else or_self s (Option.map drain_all (z.inflate (available s)))

-- A callback that returns; a callback that throws takes its exception through the operation, which is not modelled.
unfoldable pub trigger_event : Text → Text → Cache → Cache
trigger_event event url c =
    if c.has_callback then record c { events = (event, url) ∷ c.events } else c

abbrev pub is_expired : CacheEntry → ℕ → Bool
is_expired e now = ltb e.expires_at now

abbrev pub is_past_stale : CacheConfig → CacheEntry → ℕ → Bool
is_past_stale config e now = ltb (e.expires_at + seconds config.stale_max_age) now

abbrev pub older : Text × CacheEntry → Text × CacheEntry → Text × CacheEntry
older p best = if ltb p.1.last_accessed best.1.last_accessed then p else best

-- The entry first reached among those least recently used.
unfoldable pub lru : Text × CacheEntry → Dict CacheEntry → Text × CacheEntry
lru best [] = best
lru best (p ∷ m) = lru (older p best) m

abbrev pub drop_entry : Text → Cache → Cache
drop_entry url c = record c {
  entries = erase url c.entries;
  stats = record c.stats { evictions = inc c.stats.evictions };
}

unfoldable pub evict_lru : Cache → Cache
evict_lru c = elim c.entries [
  | [] ↦ c
  | p ∷ m ↦
      let victim = lru p (p ∷ m) in trigger_event (codes "evicted") victim.0 (drop_entry victim.0 c)
]

unfoldable pub new_entry : Zlib → CacheConfig → Text → Text → Dict Text → ℕ → ℕ → CacheEntry
new_entry z config url content headers now ttl = record {
  url = url;
  content = if config.enable_compression then compress z content else content;
  headers = headers;
  etag = etag_of headers;
  last_modified = last_modified_of headers;
  created_at = now;
  expires_at = now + seconds ttl;
  access_count = 0;
  last_accessed = now;
  is_stale = false;
}

unfoldable pub make_room : Cache → Cache
make_room c = if leb c.config.max_entries (length c.entries) then evict_lru c else c

-- `stats_.entries_count = cache_.size()`.
abbrev pub recount : Cache → Cache
recount c = record c { stats = record c.stats { entries_count = length c.entries } }

abbrev pub put_entry : Text → CacheEntry → Cache → Cache
put_entry url e c = record c { entries = insert url e c.entries }

-- The second part is false where std::stoll throws out of the call.
unfoldable pub store : Zlib → Cache → Text → Text → Dict Text → ℕ → Cache × Bool
store z c url content headers now = elim (cache_ttl c.config headers) [
  | none ↦ (c, false)
  | some ttl ↦ (
    trigger_event (codes "store") url
        (recount (put_entry url (new_entry z c.config url content headers now ttl) (make_room c))),
    true,
  )
]

abbrev pub bump_total : Cache → Cache
bump_total c = record c { stats = record c.stats { total_requests = inc c.stats.total_requests } }

abbrev pub bump_hits : Cache → Cache
bump_hits c = record c { stats = record c.stats { cache_hits = inc c.stats.cache_hits } }

abbrev pub bump_misses : Cache → Cache
bump_misses c = record c { stats = record c.stats { cache_misses = inc c.stats.cache_misses } }

abbrev pub touch : CacheEntry → ℕ → CacheEntry
touch e now = record e { access_count = inc e.access_count; last_accessed = now }

abbrev pub unpack : Zlib → CacheConfig → CacheEntry → CacheEntry
unpack z config e =
    if config.enable_compression then record e { content = decompress z e.content } else e

-- `get` on an entry that is there, touched at the first reading.
unfoldable pub serve : Zlib → Cache → Text → CacheEntry → ℕ → ℕ → Cache × Option CacheEntry
serve z c url e t2 t3 =
    if is_expired e t2
    then (if c.config.enable_stale_while_revalidate && not (is_past_stale c.config e t3)
        then (
          trigger_event (codes "stale_hit") url
              (bump_hits (put_entry url (record e { is_stale = true }) c)),
          some (unpack z c.config (record e { is_stale = true })),
        )
        else (
          trigger_event (codes "expired_miss") url
              (bump_misses (recount (record c { entries = erase url c.entries }))),
          none,
        ))
    else (
      trigger_event (codes "hit") url (bump_hits (put_entry url e c)),
      some (unpack z c.config e),
    )

-- The readings: for `last_accessed`, of `isExpired`, and of `isStale`.
unfoldable pub get : Zlib → Cache → Text → ℕ → ℕ → ℕ → Cache × Option CacheEntry
get z c url t1 t2 t3 = elim (lookup url c.entries) [
  | none ↦ (trigger_event (codes "miss") url (bump_misses (bump_total c)), none)
  | some e ↦ serve z (bump_total c) url (touch e t1) t2 t3
]

unfoldable pub has : Cache → Text → Bool
has c url = elim (lookup url c.entries) [ none ↦ false | some e ↦ true ]

-- What one validator says: nothing if the entry or the response lacks it.
abbrev pub compare_validator : Option Text → Option Text → Option ValidationResult
compare_validator none r = none
compare_validator (some a) none = none
compare_validator (some a) (some b) = if a =t b then some fresh else some modified

abbrev pub or_else : Option ValidationResult → ValidationResult → ValidationResult
or_else none r = r
or_else (some v) r = v

unfoldable pub validate : Cache → Text → Dict Text → ℕ → Cache × ValidationResult
validate c url headers now = (
  record c { stats = record c.stats { validation_requests = inc c.stats.validation_requests } },
  elim (lookup url c.entries) [
    | none ↦ modified
    | some e ↦ or_else (compare_validator e.etag (etag_of headers)) (
        or_else (compare_validator e.last_modified (last_modified_of headers))
          (if is_expired e now then stale else fresh))
  ],
)

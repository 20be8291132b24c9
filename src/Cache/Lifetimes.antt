-- ===== src/Cache/Lifetimes.antt =====
-- Lifetimes from `Cache-Control`, and revalidation.
use bb_pipeline.Common.{
  ℕ, ◌≤◌, ◌<◌, ◌≡◌, ◌≢◌, ◌⊎◌, refl, false, Option, none, some, arith, Text, Dict, codes, lookup,
  lookup-insert_self, inl, inr, text-eq_refl,
}
use bb_pipeline.Cache.Headers.{
  orelse, CacheConfig, cache_ttl, find_header, search_max_age, digits_value, stoll, long_long_max,
  etag_of, last_modified_of,
}
use bb_pipeline.Cache.{
  Zlib, CacheEntry, Cache, store, validate, fresh, ValidationResult, compare_validator, or_else,
  trigger_event,
}
use bb_pipeline.Cache.Maintenance.{update_after_validation, new_headers, refresh}
use bb_pipeline.Cache.Storing.{store_throws}

-- Whatever the headers say, the lifetime that they give lies between the minimum and the maximum, if
-- the default lifetime does.
pub cache_ttl_bounded :
    (config : CacheConfig) (headers : Dict Text) (ttl : ℕ)
    → config.min_ttl ≤ config.default_ttl
    → config.default_ttl ≤ config.max_ttl
    → cache_ttl config headers ≡ some ttl
    → (config.min_ttl ≤ ttl) × (ttl ≤ config.max_ttl)
unfolding cache_ttl
cache_ttl_bounded config headers ttl h k e = ground arith

abbrev pub HasHugeAge : Dict Text → Type 0
HasHugeAge headers =
    (v : Text) × (ds : Text) × (find_header "cache-control" "Cache-Control" headers ≡ some v)
    × (search_max_age v ≡ some ds)
    × (long_long_max < digits_value 0 ds)

huge-age_throws :
    (config : CacheConfig) (headers : Dict Text)
    → HasHugeAge headers
    → cache_ttl config headers ≡ none
unfolding cache_ttl stoll
huge-age_throws config headers (v, ds, f, m, h) = rw (f, m) (ground arith)

-- A `max-age` beyond the range of `long long` in a response makes `store` throw, with the cache as it
-- was. On `updateAfterValidation` it throws too, and by then the cached entry has the headers and
-- validators of the response but its old expiry time.
pub huge-age_interrupts :
    (z : Zlib) (c : Cache) (url content : Text) (headers : Dict Text) (now : ℕ) (e : CacheEntry)
    → HasHugeAge headers
    → lookup url c.entries ≡ some e
    → (store z c url content headers now ≡ (c, false))
      × ((update_after_validation c url headers now).1 ≡ false)
      × ((e' : CacheEntry) × (lookup url (update_after_validation c url headers now).0.entries
            ≡ some e')
          × (e'.headers ≡ headers)
          × (e'.expires_at ≡ e.expires_at)
          × (e'.is_stale ≡ e.is_stale))
unfolding update_after_validation
huge-age_interrupts z c url content headers now e h f =
    let t = huge-age_throws c.config headers h in
    (
      store_throws z c url content headers now t,
      rw (f, t, update_after_validation),
      (
        new_headers e headers,
        rw (f, t, update_after_validation) (lookup-insert_self url _ c.entries),
        refl,
        refl,
        refl,
      ),
    )

trigger-entries : (a b : Text) (c : Cache) → (trigger_event a b c).entries ≡ c.entries
unfolding trigger_event
trigger-entries a b c = ground arith

update_lookup :
    (c : Cache) (url : Text) (headers : Dict Text) (now ttl : ℕ) (e : CacheEntry)
    → lookup url c.entries ≡ some e
    → cache_ttl c.config headers ≡ some ttl
    → lookup url (update_after_validation c url headers now).0.entries
      ≡ some (refresh (new_headers e headers) now ttl)
unfolding update_after_validation
update_lookup c url headers now ttl e f t =
    rw (f, t, update_after_validation)
      (rw (trigger-entries (codes "validated") url _) (lookup-insert_self url _ c.entries))

validators_agree :
    (x y a b : Option Text) (r : ValidationResult)
    → (x ≢ none) ⊎ (a ≢ none)
    → or_else (compare_validator (orelse x y) x) (or_else (compare_validator (orelse a b) a) r)
      ≡ fresh
validators_agree (some v) y a b r h = rw (text-eq_refl v)
validators_agree none none (some v) b r h = rw (text-eq_refl v)
validators_agree none (some y) (some v) b r h = rw (text-eq_refl v)
validators_agree none y none b r (inl h) = absurd (h refl)
validators_agree none y none b r (inr h) = absurd (h refl)

-- After a successful update with a response that has a validator, a later response with the same
-- headers validates as fresh, at any time and however the entry was before.
pub validate-update :
    (c : Cache) (url : Text) (headers : Dict Text) (now ttl later : ℕ) (e : CacheEntry)
    → lookup url c.entries ≡ some e
    → cache_ttl c.config headers ≡ some ttl
    → (etag_of headers ≢ none) ⊎ (last_modified_of headers ≢ none)
    → (validate (update_after_validation c url headers now).0 url headers later).1 ≡ fresh
unfolding validate
validate-update c url headers now ttl later e f t h =
    rw (update_lookup c url headers now ttl e f t, validate)
      (validators_agree (etag_of headers) e.etag (last_modified_of headers) e.last_modified _ h)

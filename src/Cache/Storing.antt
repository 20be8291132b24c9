-- ===== src/Cache/Storing.antt =====
-- The two outcomes of `store`.
use bb_pipeline.Common.{
  ℕ, ◌≡◌, true, false, none, some, arith, Text, Dict, lookup, insert, lookup-insert_self,
}
use bb_pipeline.Cache.Headers.{cache_ttl}
use bb_pipeline.Cache.{Zlib, Cache, trigger_event, evict_lru, make_room, store, new_entry}

module _ (z : Zlib) (c : Cache) (url content : Text) (headers : Dict Text) (now : ℕ) where
  -- A lifetime that std::stoll cannot hold: the call throws, and the cache is as it was.
  pub store_throws :
      cache_ttl c.config headers ≡ none → store z c url content headers now ≡ (c, false)
  unfolding store
  store_throws e = rw (e, store)

  pub store_entries :
      (ttl : ℕ)
      → cache_ttl c.config headers ≡ some ttl
      → (store z c url content headers now).0.entries
        ≡ insert url (new_entry z c.config url content headers now ttl) (make_room c).entries
  unfolding store trigger_event
  store_entries ttl e = rw (e, store) (ground arith)

  pub lookup-store :
      (ttl : ℕ)
      → cache_ttl c.config headers ≡ some ttl
      → lookup url (store z c url content headers now).0.entries
        ≡ some (new_entry z c.config url content headers now ttl)
  lookup-store ttl e = rw (store_entries ttl e) (lookup-insert_self url _ (make_room c).entries)

  pub store_config : (store z c url content headers now).0.config ≡ c.config
  unfolding store make_room evict_lru trigger_event
  store_config = ground arith

  pub store_returns :
      (ttl : ℕ)
      → cache_ttl c.config headers ≡ some ttl
      → (store z c url content headers now).1 ≡ true
  unfolding store
  store_returns ttl e = rw (e, store)

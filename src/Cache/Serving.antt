-- ===== src/Cache/Serving.antt =====
-- `get`: which entries it serves, and with what content.
use bb_pipeline.Common.{
  ℕ, ◌+◌, ◌≤◌, ◌≡◌, refl, ap, ◌∙◌, false, some, arith, Text, Dict, lookup, ◌<◌, length, inl, inr,
  Bool-cases,
}
use bb_pipeline.Cache.Headers.{cache_ttl, CacheConfig, etag_of, last_modified_of}
use bb_pipeline.Cache.{
  Zlib, CacheEntry, Cache, store, get, serve, touch, unpack, seconds, compress, decompress,
  is_empty, new_entry,
}
use bb_pipeline.Cache.Chunks.{available_all, drain_all_lem}
use bb_pipeline.Cache.Storing.{lookup-store, store_config}

-- What zlib documents of whole streams: inflating a deflated text gives the text, and no output is empty.
pub record ZlibLaws (z : Zlib) : Type 0 where
  pub inflate-deflate : (s w : Text) → z.deflate s ≡ some w → z.inflate w ≡ some s
  pub deflate_nonempty : (s w : Text) → z.deflate s ≡ some w → is_empty w ≡ false

unpacked :
    (z : Zlib) (s t : Text)
    → is_empty s ≡ false
    → length s < 4294967296
    → z.inflate s ≡ some t
    → decompress z s ≡ t
unfolding decompress
unpacked z s t n l e = rw (n, available_all s l, e) (drain_all_lem t)

-- The loops over the chunks, one after the other, give the content back, when what goes into each has
-- less than 2^32 bytes.
pub decompress-compress :
    (z : Zlib)
    → ZlibLaws z
    → (s w : Text) → z.deflate s ≡ some w
    → length s < 4294967296
    → length w < 4294967296
    → decompress z (compress z s) ≡ s
unfolding compress decompress
decompress-compress z laws s w e l k = elim (Bool-cases (is_empty s)) [
  | inl t ↦ simp t
  | inr f ↦
      rw (f, available_all s l, e, drain_all_lem w)
        (unpacked z w s (laws.deflate_nonempty s w e) k (laws.inflate-deflate s w e))
]

get_fresh :
    (z : Zlib) (c : Cache) (url : Text) (t1 t2 t3 : ℕ) (e : CacheEntry)
    → lookup url c.entries ≡ some e
    → t2 ≤ e.expires_at
    → (get z c url t1 t2 t3).1 ≡ some (unpack z c.config (touch e t1))
unfolding get serve
get_fresh z c url t1 t2 t3 e h k = ground arith

unpack-new :
    (z : Zlib) (config : CacheConfig) (url content : Text) (headers : Dict Text) (now ttl t1 : ℕ)
    (w : Text)
    → ZlibLaws z
    → z.deflate content ≡ some w
    → length content < 4294967296
    → length w < 4294967296
    → unpack z config (touch (new_entry z config url content headers now ttl) t1)
      ≡ record (touch (new_entry z config url content headers now ttl) t1) { content = content }
unfolding new_entry
unpack-new z config url content headers now ttl t1 w laws d l k =
    ground (arith, decompress-compress z laws content w d l k)

-- What `store` took, `get` gives back until the entry expires: the content, compressed or not, the
-- headers and the validators, provided that zlib could deflate the content and that neither
-- the content nor what it is deflated to has 2^32 bytes.
pub get-store :
    (z : Zlib) (c : Cache) (url content : Text) (headers : Dict Text) (now ttl t1 t2 t3 : ℕ)
    (w : Text)
    → ZlibLaws z
    → z.deflate content ≡ some w
    → length content < 4294967296
    → length w < 4294967296
    → cache_ttl c.config headers ≡ some ttl
    → t2 ≤ now + seconds ttl
    → (e : CacheEntry) × ((get z (store z c url content headers now).0 url t1 t2 t3).1 ≡ some e)
      × (e.content ≡ content)
      × (e.headers ≡ headers)
      × (e.etag ≡ etag_of headers)
      × (e.last_modified ≡ last_modified_of headers)
unfolding new_entry
get-store z c url content headers now ttl t1 t2 t3 w laws d l m h k =
    let e = new_entry z c.config url content headers now ttl in
    let c' = (store z c url content headers now).0 in
    (
      record (touch e t1) { content = content },
      get_fresh z c' url t1 t2 t3 e (lookup-store z c url content headers now ttl h) k
          ∙ rw (store_config z c url content headers now)
              (ap some (unpack-new z c.config url content headers now ttl t1 w laws d l m)),
      refl,
      refl,
      refl,
      refl,
    )

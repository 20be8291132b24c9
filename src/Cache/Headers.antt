-- ===== src/Cache/Headers.antt =====
-- The headers that the cache reads, and the lifetime that `Cache-Control` gives an entry.
use bb_pipeline.Common.{
  ℕ, String, ◌+◌, ◌-◌, ◌*◌, Bool, ◌&&◌, ◌||◌, Option, none, some, [], ◌∷◌, Text, codes, Dict,
  lookup, if◌then◌else◌, ltb, leb, ◌==◌,
}

pub record CacheConfig : Type 0 where
  pub default_ttl : ℕ
  pub max_ttl : ℕ
  pub min_ttl : ℕ
  pub max_entries : ℕ
  pub enable_stale_while_revalidate : Bool
  pub stale_max_age : ℕ
  pub enable_compression : Bool

abbrev pub orelse : Option Text → Option Text → Option Text
orelse none b = b
orelse (some a) b = some a

-- `find(lower)`, and `find(upper)` if that is missing.
unfoldable pub find_header : String → String → Dict Text → Option Text
find_header lower upper headers =
    orelse (lookup (codes lower) headers) (lookup (codes upper) headers)

abbrev pub etag_of : Dict Text → Option Text
etag_of = find_header "etag" "ETag"

abbrev pub last_modified_of : Dict Text → Option Text
last_modified_of = find_header "last-modified" "Last-Modified"

-- `\s` and `\d` of std::regex.
abbrev is_space : ℕ → Bool
is_space c = c == 32 || (leb 9 c && leb c 13)

abbrev is_digit : ℕ → Bool
is_digit c = leb 48 c && leb c 57

unfoldable pub skip_spaces : Text → Text
skip_spaces [] = []
skip_spaces (c ∷ s) = let rest = skip_spaces s in if is_space c then rest else c ∷ s

unfoldable pub strip_prefix : Text → Text → Option Text
strip_prefix [] s = some s
strip_prefix (p ∷ ps) [] = none
strip_prefix (p ∷ ps) (c ∷ s) = let rest = strip_prefix ps s in if p == c then rest else none

unfoldable pub leading_digits : Text → Text
leading_digits [] = []
leading_digits (c ∷ s) = let rest = leading_digits s in if is_digit c then c ∷ rest else []

abbrev nonempty : Text → Option Text
nonempty [] = none
nonempty (c ∷ s) = some (c ∷ s)

abbrev after_equals : Option Text → Option Text
after_equals none = none
after_equals (some s) = nonempty (leading_digits (skip_spaces s))

abbrev after_name : Option Text → Option Text
after_name none = none
after_name (some s) = after_equals (strip_prefix (codes "=") (skip_spaces s))

-- `max-age\s*=\s*(\d+)` at the head of a text: the captured digits.
unfoldable pub match_max_age : Text → Option Text
match_max_age s = after_name (strip_prefix (codes "max-age") s)

-- std::regex_search: the first place where it matches.
unfoldable pub search_max_age : Text → Option Text
search_max_age [] = match_max_age []
search_max_age (c ∷ s) = orelse (match_max_age (c ∷ s)) (search_max_age s)

unfoldable pub digits_value : ℕ → Text → ℕ
digits_value acc [] = acc
digits_value acc (c ∷ s) = digits_value (acc * 10 + (c - 48)) s

abbrev pub long_long_max : ℕ
long_long_max = 9223372036854775807

-- std::stoll: `none` is std::out_of_range.
unfoldable pub stoll : Text → Option ℕ
stoll s = let n = digits_value 0 s in if ltb long_long_max n then none else some n

abbrev pub clamp_ttl : CacheConfig → ℕ → ℕ
clamp_ttl config n =
    let capped = if ltb n config.max_ttl then n else config.max_ttl in
    if ltb config.min_ttl capped then capped else config.min_ttl

abbrev pub clamp_some : CacheConfig → Option ℕ → Option ℕ
clamp_some config none = none
clamp_some config (some n) = some (clamp_ttl config n)

abbrev pub ttl_of_match : CacheConfig → Option Text → Option ℕ
ttl_of_match config none = some config.default_ttl
ttl_of_match config (some s) = clamp_some config (stoll s)

abbrev pub ttl_of_control : CacheConfig → Option Text → Option ℕ
ttl_of_control config none = some config.default_ttl
ttl_of_control config (some v) = ttl_of_match config (search_max_age v)

-- `parseCacheControl`, in seconds. `Expires` is looked up and leads to the default all the same.
unfoldable pub cache_ttl : CacheConfig → Dict Text → Option ℕ
cache_ttl config headers =
    ttl_of_control config (find_header "cache-control" "Cache-Control" headers)

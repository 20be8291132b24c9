-- ===== src/Recovery/Classify.antt =====
-- The kinds of error, and how messages and HTTP codes are sorted into them.
use bb_pipeline.Common.{
  ℕ, ◌+◌, ◌-◌, ◌≡◌, refl, Bool, true, false, ◌&&◌, ◌||◌, Option, none, some, List, [], ◌∷◌, map,
  Text, String, codes, if◌then◌else◌, leb, ltb, ◌==◌, arith,
}

pub data ErrorType : Type 0 where
  network_timeout connection_refused dns_resolution ssl_handshake http_5xx http_429 : ErrorType
  socket_error temporary_failure custom : ErrorType

-- The value of the enumeration, by which two kinds are compared.
abbrev pub enum_value : ErrorType → ℕ
enum_value network_timeout = 0
enum_value connection_refused = 1
enum_value dns_resolution = 2
enum_value ssl_handshake = 3
enum_value http_5xx = 4
enum_value http_429 = 5
enum_value socket_error = 6
enum_value temporary_failure = 7
enum_value custom = 8

abbrev pub same_type : ErrorType → ErrorType → Bool
same_type a b = enum_value a == enum_value b

-- `find(type) != end()` on a set of kinds.
unfoldable pub is_in : ErrorType → List ErrorType → Bool
is_in t [] = false
is_in t (x ∷ xs) = same_type t x || is_in t xs

-- `::tolower` in the C locale.
abbrev pub to_lower : ℕ → ℕ
to_lower c = if leb 65 c && leb c 90 then c + 32 else c

abbrev pub to_upper : ℕ → ℕ
to_upper c = if leb 97 c && leb c 122 then c - 32 else c

unfoldable pub starts_with : Text → Text → Bool
starts_with [] s = true
starts_with (p ∷ ps) [] = false
starts_with (p ∷ ps) (c ∷ s) = p == c && starts_with ps s

-- `find(needle) != npos`.
unfoldable pub contains : Text → Text → Bool
contains needle [] = starts_with needle []
contains needle (c ∷ s) = starts_with needle (c ∷ s) || contains needle s

abbrev says : Text → String → Bool
says message needle = contains (codes needle) message

-- The default classifier, on the message in lower case.
unfoldable pub classify_lower : Text → ErrorType
classify_lower m =
    if says m "timeout" || says m "timed out"
    then network_timeout
    else if says m "connection refused" || says m "connection reset"
    then connection_refused
    else if says m "dns" || (says m "resolve" || says m "host not found")
    then dns_resolution
    else if says m "ssl" || (says m "tls" || says m "handshake")
    then ssl_handshake
    else if says m "socket"
    then socket_error
    else if says m "5" && (says m "50" || says m "error")
    then http_5xx
    else if says m "429" || (says m "rate limit" || says m "too many requests")
    then http_429
    else if says m "temporary" || (says m "unavailable" || says m "service")
    then temporary_failure
    else custom

unfoldable pub default_classifier : Text → ErrorType
default_classifier message = classify_lower (map to_lower message)

-- `none` is a classifier that throws.
abbrev pub Classifier : Type 0
Classifier = Text → Option ErrorType

abbrev pub answer_or : Option ErrorType → ErrorType → ErrorType
answer_or none rest = rest
answer_or (some t) rest = if same_type t custom then rest else t

-- The first classifier with an answer other than CUSTOM.
unfoldable pub classify_error : List Classifier → Text → ErrorType
classify_error [] message = custom
classify_error (f ∷ fs) message = answer_or (f message) (classify_error fs message)

unfoldable pub classify_http_error : ℕ → ErrorType
classify_http_error status =
    if leb 500 status && ltb status 600
    then (if status == 502 || (status == 503 || status == 504) then temporary_failure else http_5xx)
    else if status == 429
    then http_429
    else custom

to_lower-to_upper : (c : ℕ) → to_lower (to_upper c) ≡ to_lower c
to_lower-to_upper c = ground arith

map_lower-upper : (m : Text) → map to_lower (map to_upper m) ≡ map to_lower m
map_lower-upper [] = refl
map_lower-upper (c ∷ m) = ground (arith, to_lower-to_upper c, map_lower-upper m)

-- The default classifier does not see the case of letters.
pub classify_case : (m : Text) → default_classifier (map to_upper m) ≡ default_classifier m
unfolding default_classifier
classify_case m = rw (map_lower-upper m)

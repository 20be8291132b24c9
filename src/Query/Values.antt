-- ===== src/Query/Values.antt =====
-- QueryValue, stringToQueryValue, queryValueToString, isNumeric and compareValues.
use bb_pipeline.Common.{
  ℕ, ◌+◌, ◌-◌, ◌*◌, Bool, true, false, not, ◌&&◌, ◌||◌, Option, none, some, [], ◌∷◌, Text, codes,
  ◌=t◌, to_string, if◌then◌else◌, ltb, leb, ◌==◌,
}
use mathlib.Core.Option

pub data SqlOperator : Type 0 where
  equals : SqlOperator
  not_equals : SqlOperator
  less_than : SqlOperator
  less_equal : SqlOperator
  greater_than : SqlOperator
  greater_equal : SqlOperator
  like_op : SqlOperator
  not_like : SqlOperator
  in_op : SqlOperator
  not_in : SqlOperator
  is_null : SqlOperator
  is_not_null : SqlOperator
  regex_op : SqlOperator
  between : SqlOperator

-- What the code takes from doubles and from std::regex. `stod` is none where it throws; `regex` is
-- none for a pattern that is no regular expression.
pub record Runtime : Type 1 where
  pub F : Type 0
  pub stod : Text → Option F
  pub show_double : F → Text
  pub lt_double : F → F → Bool
  pub le_double : F → F → Bool
  pub regex : Text → Option (Text → Bool)

-- `int64_t` by sign and size: `negative n` is -n.
pub data Int64 : Type 0 where
  nonnegative : ℕ → Int64
  negative : ℕ → Int64

abbrev pub int64_to_string : Int64 → Text
int64_to_string (nonnegative n) = to_string n
int64_to_string (negative n) = 45 ∷ to_string n

abbrev pub is_digit : ℕ → Bool
is_digit c = leb 48 c && leb c 57

abbrev pub is_space : ℕ → Bool
is_space c = c == 32 || leb 9 c && leb c 13

-- std::stoll, which reads the longest prefix that is a number; none where it throws.
unfoldable pub digits_value : ℕ → Text → ℕ
digits_value acc [] = acc
digits_value acc (c ∷ cs) =
    let rest = digits_value (acc * 10 + (c - 48)) cs in if is_digit c then rest else acc

unfoldable pub read_digits : Text → Option ℕ
read_digits [] = none
read_digits (c ∷ cs) = if is_digit c then some (digits_value 0 (c ∷ cs)) else none

unfoldable pub in_range : Bool → Option ℕ → Option Int64
in_range minus none = none
in_range false (some n) = if ltb n 9223372036854775808 then some (nonnegative n) else none
in_range true (some n) = if leb n 9223372036854775808 then some (negative n) else none

unfoldable pub read_sign : Text → Option Int64
read_sign [] = none
read_sign (c ∷ cs) =
    if c == 45
    then in_range true (read_digits cs)
    else if c == 43
    then in_range false (read_digits cs)
    else in_range false (read_digits (c ∷ cs))

unfoldable pub read_int64 : Text → Option Int64
read_int64 [] = none
read_int64 (c ∷ cs) = let rest = read_int64 cs in if is_space c then rest else read_sign (c ∷ cs)

-- `str.find(c) != npos` for a character, and `a.find(b) != npos` for a text.
abbrev pub has_char : ℕ → Text → Bool
has_char c [] = false
has_char c (x ∷ xs) = x == c || has_char c xs

abbrev pub has_prefix : Text → Text → Bool
has_prefix [] s = true
has_prefix (p ∷ ps) [] = false
has_prefix (p ∷ ps) (c ∷ cs) = p == c && has_prefix ps cs

abbrev pub has_text : Text → Text → Bool
has_text p [] = has_prefix p []
has_text p (c ∷ cs) = has_prefix p (c ∷ cs) || has_text p cs

-- `a < b` of std::string.
unfoldable pub lt_text : Text → Text → Bool
lt_text a [] = false
lt_text [] (y ∷ ys) = true
lt_text (x ∷ xs) (y ∷ ys) = ltb x y || x == y && lt_text xs ys

unfoldable pub digits_and_dot : Bool → Text → Bool
digits_and_dot dot [] = true
digits_and_dot dot (c ∷ cs) =
    let with_dot = digits_and_dot true cs in
    let rest = digits_and_dot dot cs in
    if c == 46 && not dot then with_dot else if is_digit c then rest else false

unfoldable pub is_numeric : Text → Bool
is_numeric [] = false
is_numeric (c ∷ []) = if c == 45 then false else digits_and_dot false (c ∷ [])
is_numeric (c ∷ d ∷ cs) =
    if c == 45 then digits_and_dot false (d ∷ cs) else digits_and_dot false (c ∷ d ∷ cs)

-- LIKE's pattern as a regular expression: `%` becomes `.*`, then `_` becomes `.`.
abbrev pub replace_percent : Text → Text
replace_percent [] = []
replace_percent (c ∷ cs) = if c == 37 then 46 ∷ 42 ∷ replace_percent cs else c ∷ replace_percent cs

abbrev pub replace_underscore : Text → Text
replace_underscore [] = []
replace_underscore (c ∷ cs) = (if c == 95 then 46 else c) ∷ replace_underscore cs

module _ (r : Runtime) where
  pub data QueryValue : Type 0 where
    string_value : Text → QueryValue
    int_value : Int64 → QueryValue
    double_value : r.F → QueryValue
    bool_value : Bool → QueryValue
    null_value : QueryValue

  abbrev pub parsed : Text → Option QueryValue → QueryValue
  parsed s none = string_value s
  parsed s (some v) = v

  unfoldable pub string_to_query_value : Text → QueryValue
  string_to_query_value s =
      if s =t codes "true" || s =t codes "TRUE"
      then bool_value true
      else if s =t codes "false" || s =t codes "FALSE"
      then bool_value false
      else if s =t codes "NULL" || s =t codes "null"
      then null_value
      else if has_char 46 s
      then parsed s (Option.map double_value (r.stod s))
      else parsed s (Option.map int_value (read_int64 s))

  unfoldable pub query_value_to_string : QueryValue → Text
  query_value_to_string (string_value s) = s
  query_value_to_string (int_value n) = int64_to_string n
  query_value_to_string (double_value x) = r.show_double x
  query_value_to_string (bool_value b) = if b then codes "true" else codes "false"
  query_value_to_string null_value = codes "NULL"

  abbrev pub is_null_value : QueryValue → Bool
  is_null_value null_value = true
  is_null_value _ = false

  -- A comparison of the numbers that two texts show; none where std::stod throws.
  abbrev pub compare_numbers : (r.F → r.F → Bool) → Option r.F → Option r.F → Option Bool
  compare_numbers test none y = none
  compare_numbers test (some x) none = none
  compare_numbers test (some x) (some y) = some (test x y)

  unfoldable pub compare_order : (r.F → r.F → Bool) → Bool → Text → Text → Option Bool
  compare_order test by_text a b =
      if is_numeric a && is_numeric b
      then compare_numbers test (r.stod a) (r.stod b)
      else some by_text

  abbrev pub match_pattern : Text → Text → Option (Text → Bool) → Bool
  match_pattern a b none = has_text b a
  match_pattern a b (some matches) = matches a

  -- LIKE: the pattern is compiled as it is first, outside of the `try`.
  unfoldable pub compare_like : Text → Text → Option Bool
  compare_like a b = elim (r.regex b) [
    | none ↦ none
    | some _ ↦ some (match_pattern a b (r.regex (replace_underscore (replace_percent b))))
  ]

  unfoldable pub compare_texts : Text → Text → SqlOperator → Option Bool
  compare_texts a b equals = some (a =t b)
  compare_texts a b not_equals = some (not (a =t b))
  compare_texts a b less_than = compare_order r.lt_double (lt_text a b) a b
  compare_texts a b less_equal = compare_order r.le_double (not (lt_text b a)) a b
  compare_texts a b greater_than = compare_order (λ x y. r.lt_double y x) (lt_text b a) a b
  compare_texts a b greater_equal = compare_order (λ x y. r.le_double y x) (not (lt_text a b)) a b
  compare_texts a b like_op = compare_like a b
  compare_texts a b not_like = Option.map not (compare_like a b)
  compare_texts a b _ = some false

  -- none is an exception.
  unfoldable pub compare_values : QueryValue → QueryValue → SqlOperator → Option Bool
  compare_values a b is_null = some (is_null_value a)
  compare_values a b is_not_null = some (not (is_null_value a))
  compare_values a b op =
      if is_null_value a || is_null_value b
      then some false
      else compare_texts (query_value_to_string a) (query_value_to_string b) op

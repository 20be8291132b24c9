-- ===== src/Csv/Merging.antt =====
-- The rows of the merger, the helper parseCsvRow of src/csv/merger_engine.cpp, and
-- how they relate to the parser's.
use bb_pipeline.Common.{
  ℕ, ◌≡◌, refl, sym, ap, ◌∙◌, inl, inr, Bool, false, not, ◌&&◌, ◌||◌, List, [], ◌∷◌, ◌++◌, Text,
  if◌then◌else◌, ◌==◌, arith, Bool-cases, All, ◌≢◌,
}
use bb_pipeline.Csv.{ParserConfig, parse_byte, parse_bytes, parse_row, has_byte, heads}
use bb_pipeline.Csv.RoundTrip.{at, parse_row-bytes}

-- `!empty() && back() == '"'`.
unfoldable pub ends_quoted : Text → Bool
ends_quoted [] = false
ends_quoted (c ∷ []) = c == 34
ends_quoted (c ∷ d ∷ s) = ends_quoted (d ∷ s)

pub record MergeState : Type 0 where
  pub quotes_open : Bool
  pub field_so_far : Text
  pub fields_so_far : List Text

abbrev keep_byte : ℕ → MergeState → MergeState
keep_byte c s = record s { field_so_far = s.field_so_far ++ c ∷ [] }

-- One round of the loop of `parseCsvRow`; its flag `escape_next` is never set.
unfoldable pub merge_byte : ℕ → MergeState → ℕ → MergeState
merge_byte delimiter s c =
    if c == 34
    then if s.quotes_open && ends_quoted s.field_so_far
      then keep_byte c s
      else record s { quotes_open = not s.quotes_open }
    else if c == delimiter && not s.quotes_open
    then record s { fields_so_far = s.fields_so_far ++ s.field_so_far ∷ []; field_so_far = [] }
    else keep_byte c s

unfoldable pub merge_bytes : ℕ → MergeState → Text → List Text
merge_bytes delimiter s [] = s.fields_so_far ++ s.field_so_far ∷ []
merge_bytes delimiter s (c ∷ row) = merge_bytes delimiter (merge_byte delimiter s c) row

unfoldable pub parse_csv_row : ℕ → Text → List Text
parse_csv_row delimiter row =
    merge_bytes delimiter (record { quotes_open = false; field_so_far = []; fields_so_far = [] })
      row

abbrev pub NoQuote : Text → Type 0
NoQuote s = has_byte 34 s ≡ false

NoQuote-push : (s : Text) (c : ℕ) → NoQuote s → (c == 34) ≡ false → NoQuote (s ++ c ∷ [])
unfolding has_byte
NoQuote-push [] c h k = ground arith
NoQuote-push (x ∷ s) c h k = ground (arith, NoQuote-push s c)

NoQuote-ends : (s : Text) → NoQuote s → ends_quoted s ≡ false
unfolding has_byte ends_quoted
NoQuote-ends [] h = refl
NoQuote-ends (c ∷ []) h = ground arith
NoQuote-ends (c ∷ d ∷ s) h = ground (arith, NoQuote-ends (d ∷ s))

All-push : (xs : List Text) (x : Text) → All NoQuote xs → NoQuote x → All NoQuote (xs ++ x ∷ [])
All-push [] x h p = (p, tt)
All-push (y ∷ xs) x h p = (h.0, All-push xs x h.1 p)

abbrev IsQuoteFree : MergeState → Type 0
IsQuoteFree s = NoQuote s.field_so_far × All NoQuote s.fields_so_far

byte-IsQuoteFree : (d : ℕ) (s : MergeState) (c : ℕ) → IsQuoteFree s → IsQuoteFree (merge_byte d s c)
unfolding merge_byte has_byte
byte-IsQuoteFree d s c (h, k) = elim (Bool-cases (c == 34)) [
  | inl t ↦ elim (Bool-cases s.quotes_open) [
    | inl q ↦ simp (t, q, NoQuote-ends s.field_so_far h) (h, k)
    | inr q ↦ simp (t, q) (h, k)
  ]
  | inr f ↦ elim (Bool-cases (c == d && not s.quotes_open)) [
    | inl t ↦ simp (f, t) (refl, All-push s.fields_so_far s.field_so_far k h)
    | inr g ↦ simp (f, g) (NoQuote-push s.field_so_far c h f, k)
  ]
]

bytes-NoQuote :
    (d : ℕ) (row : Text) (s : MergeState) → IsQuoteFree s → All NoQuote (merge_bytes d s row)
unfolding merge_bytes
bytes-NoQuote d [] s h = All-push s.fields_so_far s.field_so_far h.1 h.0
bytes-NoQuote d (c ∷ row) s h = bytes-NoQuote d row (merge_byte d s c) (byte-IsQuoteFree d s c h)

-- No field that the merger's `parseCsvRow` returns has a quote in it, whatever the row.
pub parse_csv_row-NoQuote : (delimiter : ℕ) (row : Text) → All NoQuote (parse_csv_row delimiter row)
unfolding parse_csv_row has_byte
parse_csv_row-NoQuote d row = bytes-NoQuote d row _ (refl, tt)

-- Two quotes next to each other.
unfoldable pub has_pair : Text → Bool
has_pair [] = false
has_pair (c ∷ s) = (c == 34 && heads 34 s) || has_pair s

-- The parser in the merger's format: the same delimiter, the double quote, and no trimming.
abbrev pub merge_format : ℕ → ParserConfig → ParserConfig
merge_format d p = record p { delimiter = d; quote_char = 34; trim_whitespace = false }

merge_state : Bool → Text → List Text → MergeState
merge_state b cur fs = record { quotes_open = b; field_so_far = cur; fields_so_far = fs }

parser_byte :
    (d : ℕ) (p : ParserConfig) (c : ℕ) (row : Text) (b : Bool) (cur : Text) (fs : List Text)
    → NoQuote cur
    → (c == 34 && heads 34 row) ≡ false
    → (b' : Bool) × (cur' : Text) × (fs' : List Text) × (parse_byte
          (merge_format d p)
          (at b cur fs)
          c
          row
        ≡ at b' cur' fs')
      × (merge_byte d (merge_state b cur fs) c ≡ merge_state b' cur' fs')
      × NoQuote cur'
unfolding parse_byte merge_byte merge_state has_byte
parser_byte d p c row b cur fs h k = elim (Bool-cases (c == 34)) [
  | inl t ↦
      let n : heads 34 row ≡ false = ground arith in
      (
        not b,
        cur,
        fs,
        ground arith,
        simp t (elim (Bool-cases b) [ inl q ↦ simp (q, NoQuote-ends cur h) | inr q ↦ simp q ]),
        h,
      )
  | inr f ↦ elim (Bool-cases (c == d && not b)) [
    | inl t ↦ (b, [], fs ++ cur ∷ [], simp (f, t), simp (f, t), refl)
    | inr g ↦ (b, cur ++ c ∷ [], fs, simp (f, g), simp (f, g), NoQuote-push cur c h f)
  ]
]

bytes_agree :
    (d : ℕ) (p : ParserConfig) (row : Text) (b : Bool) (cur : Text) (fs : List Text)
    → NoQuote cur
    → has_pair row ≡ false
    → parse_bytes (merge_format d p) (at b cur fs) row ≡ merge_bytes d (merge_state b cur fs) row
unfolding parse_bytes merge_bytes has_pair merge_state
bytes_agree d p [] b cur fs h k = refl
bytes_agree d p (c ∷ row) b cur fs h k =
    let (b', cur', fs', e, m, n) = parser_byte d p c row b cur fs h (ground arith) in
    ap (λ z. parse_bytes (merge_format d p) z row) e
    ∙ bytes_agree d p row b' cur' fs' n (ground arith)
    ∙ sym (ap (λ z. merge_bytes d z row) m)

-- On a row that is not empty and has no two quotes next to each other, the merger's `parseCsvRow` and the
-- parser's `parseRow` in the same format, without trimming, agree.
pub parse_csv_row-parse_row :
    (delimiter : ℕ) (p : ParserConfig) (row : Text)
    → row ≢ []
    → has_pair row ≡ false
    → parse_csv_row delimiter row ≡ parse_row (merge_format delimiter p) row
unfolding parse_csv_row merge_state has_byte
parse_csv_row-parse_row d p row n k =
    sym (parse_row-bytes (merge_format d p) row n ∙ bytes_agree d p row false [] [] refl k)

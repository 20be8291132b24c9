-- ===== src/Csv.antt =====
-- The CSV part: src/csv/streaming_parser.cpp, src/csv/batch_writer.cpp and the row helpers of
-- src/csv/merger_engine.cpp. This file has the rows of the parser: the split of a row into fields.

pub mod Writing
pub mod RoundTrip
pub mod Reading
pub mod Framing
pub mod Batching
pub mod Conserving
pub mod Batches
pub mod Blocking
pub mod Merging
mod Examples
pub mod Unquoting
pub mod Steps
pub mod Fuel
pub mod ReadBack
pub mod WholeFile
pub mod Refilling
use bb_pipeline.Common.{
  ℕ, suc, ◌+◌, ◌≡◌, Bool, true, false, not, ◌&&◌, ◌||◌, List, [], ◌∷◌, ◌++◌, reverse, Text,
  if◌then◌else◌, leb, ◌==◌, length,
}

pub data EncodingType : Type 0 where
  utf8 utf16_le utf16_be ascii auto_detect : EncodingType

pub record ParserConfig : Type 0 where
  pub encoding : EncodingType
  pub delimiter : ℕ
  pub quote_char : ℕ
  pub has_header : Bool
  pub strict_mode : Bool
  pub trim_whitespace : Bool
  pub skip_empty_rows : Bool
  pub buffer_size : ℕ

-- One of " \t\r\n".
abbrev pub is_blank : ℕ → Bool
is_blank c = c == 32 || (c == 9 || (c == 13 || c == 10))

unfoldable pub drop_blanks : Text → Text
drop_blanks [] = []
drop_blanks (c ∷ s) = let rest = drop_blanks s in if is_blank c then rest else c ∷ s

-- From the first byte that is no blank to the last one.
unfoldable pub trim : Text → Text
trim s = reverse (drop_blanks (reverse (drop_blanks s)))

abbrev pub finish_field : ParserConfig → Text → Text
finish_field p field = if p.trim_whitespace then trim field else field

-- `escaped` says that the next byte was consumed with the one before it (`pos += 2`).
pub record RowState : Type 0 where
  pub escaped : Bool
  pub in_quotes : Bool
  pub current_field : Text
  pub fields : List Text

abbrev pub heads : ℕ → Text → Bool
heads c [] = false
heads c (x ∷ s) = x == c

abbrev push_byte : ℕ → RowState → RowState
push_byte c s = record s { current_field = s.current_field ++ c ∷ [] }

abbrev toggle : RowState → RowState
toggle s = record s { in_quotes = not s.in_quotes }

abbrev push_field : ParserConfig → RowState → RowState
push_field p s = record s {
  fields = s.fields ++ finish_field p s.current_field ∷ [];
  current_field = [];
}

-- One round of the loop, on the byte `c` with `rest` after it.
unfoldable pub parse_byte : ParserConfig → RowState → ℕ → Text → RowState
parse_byte p s c rest =
    if s.escaped
    then record s { escaped = false }
    else if c == p.quote_char
    then if s.in_quotes && heads p.quote_char rest
      then record (push_byte p.quote_char s) { escaped = true }
      else toggle s
    else if c == p.delimiter && not s.in_quotes
    then push_field p s
    else push_byte c s

unfoldable pub parse_bytes : ParserConfig → RowState → Text → List Text
parse_bytes p s [] = (push_field p s).fields
parse_bytes p s (c ∷ rest) = parse_bytes p (parse_byte p s c rest) rest

abbrev pub row_start : RowState
row_start = record { escaped = false; in_quotes = false; current_field = []; fields = [] }

unfoldable pub parse_row : ParserConfig → Text → List Text
parse_row p [] = []
parse_row p (c ∷ row) = parse_bytes p row_start (c ∷ row)

-- `find(c) != npos`.
unfoldable pub has_byte : ℕ → Text → Bool
has_byte c [] = false
has_byte c (x ∷ s) = x == c || has_byte c s

-- The loop that inserts a quote before each quote.
unfoldable pub double_quotes : ℕ → Text → Text
double_quotes q [] = []
double_quotes q (c ∷ s) = let rest = double_quotes q s in if c == q then q ∷ q ∷ rest else c ∷ rest

-- `StreamingParser::escapeField`.
unfoldable pub escape_field : ParserConfig → Text → Text
escape_field p field =
    if has_byte p.delimiter field
      || (has_byte p.quote_char field || (has_byte 10 field || has_byte 13 field))
    then p.quote_char ∷ double_quotes p.quote_char field ++ p.quote_char ∷ []
    else field

-- `length() >= 2`, and the first and the last byte are quotes.
unfoldable pub is_quoted_field : ℕ → Text → Bool
is_quoted_field q field = leb 2 (length field) && (heads q field && heads q (reverse field))

-- The loop that replaces two quotes by one, and goes on after that one.
unfoldable pub undouble : ℕ → Text → Text
undouble q [] = []
undouble q (c ∷ []) = c ∷ []
undouble q (c ∷ d ∷ s) = elim (c == q && d == q) [
  | true ↦ c ∷ undouble q s
  | false ↦ c ∷ undouble q (d ∷ s)
]

abbrev pub drop_first : Text → Text
drop_first [] = []
drop_first (c ∷ s) = s

-- `substr(1, length() - 2)`.
abbrev pub inner : Text → Text
inner field = reverse (drop_first (reverse (drop_first field)))

unfoldable pub process_field : ParserConfig → Text → Text
process_field p field =
    if is_quoted_field p.quote_char field then undouble p.quote_char (inner field) else field

unfoldable pub scan_quotes : ℕ → Bool → Text → Bool
scan_quotes q in_quotes [] = in_quotes
scan_quotes q in_quotes (c ∷ s) = scan_quotes q (if c == q then not in_quotes else in_quotes) s

unfoldable pub is_row_complete : ParserConfig → Text → Bool
is_row_complete p row = not (scan_quotes p.quote_char false row)

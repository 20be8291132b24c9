-- ===== src/Csv/Writing.antt =====
-- The rows of the writer: CsvRow, the quoting of fields, and the tests of a configuration of
-- src/csv/batch_writer.cpp.
use bb_pipeline.Common.{
  ℕ, Bool, true, false, not, ◌&&◌, ◌||◌, List, [], ◌∷◌, ◌++◌, reverse, Text, if◌then◌else◌, ltb,
  ◌==◌,
}
use bb_pipeline.Csv.{heads, has_byte}

pub data FlushTrigger : Type 0 where
  manual row_count buffer_fill time_interval mixed : FlushTrigger

pub record WriterConfig : Type 0 where
  pub delimiter : ℕ
  pub quote_char : ℕ
  pub escape_char : ℕ
  pub always_quote : Bool
  pub quote_empty_fields : Bool
  pub line_ending : Text
  pub write_header : Bool
  pub buffer_size : ℕ
  pub max_rows_in_buffer : ℕ
  pub max_field_size : ℕ
  pub flush_trigger : FlushTrigger
  pub flush_interval : ℕ
  pub flush_row_threshold : ℕ
  pub flush_size_threshold : ℕ
  pub compression_level : ℕ
  pub continue_on_error : Bool
  pub max_retry_attempts : ℕ

abbrev is_row_count : FlushTrigger → Bool
is_row_count row_count = true
is_row_count t = false

abbrev is_buffer_fill : FlushTrigger → Bool
is_buffer_fill buffer_fill = true
is_buffer_fill t = false

-- `WriterConfig::isValid`.
unfoldable pub is_valid : WriterConfig → Bool
is_valid w =
    if w.buffer_size == 0 || (w.max_rows_in_buffer == 0 || w.max_field_size == 0)
    then false
    else if w.flush_row_threshold == 0 && is_row_count w.flush_trigger
    then false
    else if w.flush_size_threshold == 0 && is_buffer_fill w.flush_trigger
    then false
    else if ltb w.compression_level 1 || ltb 9 w.compression_level
    then false
    else not (w.max_retry_attempts == 0)

abbrev is_empty : Text → Bool
is_empty [] = true
is_empty (c ∷ s) = false

unfoldable pub needs_quoting : WriterConfig → Text → Bool
needs_quoting w field =
    if w.always_quote
    then true
    else if is_empty field && w.quote_empty_fields
    then true
    else has_byte w.delimiter field
      || (has_byte w.quote_char field
          || (has_byte 10 field
              || (has_byte 13 field
                  || (not (is_empty field) && (heads 32 field || heads 32 (reverse field))))))

-- The loop that writes the bytes of a field, each quote with the escape before it.
unfoldable pub escape_bytes : WriterConfig → Text → Text
escape_bytes w [] = []
escape_bytes w (c ∷ s) =
    let rest = escape_bytes w s in
    if c == w.quote_char then w.escape_char ∷ w.quote_char ∷ rest else c ∷ rest

abbrev pub quoted : WriterConfig → Text → Text
quoted w field = w.quote_char ∷ escape_bytes w field ++ w.quote_char ∷ []

-- `BatchWriter::escapeField`.
unfoldable pub write_field : WriterConfig → Text → Text
write_field w field = if needs_quoting w field then quoted w field else field

-- The body of the loop of `CsvRow::toString`.
unfoldable pub row_field : WriterConfig → Text → Text
row_field w field = if w.always_quote || needs_quoting w field then quoted w field else field

unfoldable pub fields_after : WriterConfig → List Text → Text
fields_after w [] = []
fields_after w (f ∷ fs) = w.delimiter ∷ row_field w f ++ fields_after w fs

-- `CsvRow::toString`.
unfoldable pub row_string : WriterConfig → List Text → Text
row_string w [] = []
row_string w (f ∷ fs) = row_field w f ++ fields_after w fs

-- The loop of `flushInternal` that formats the buffered rows.
unfoldable pub format_rows : WriterConfig → List (List Text) → Text
format_rows w [] = []
format_rows w (r ∷ rs) = row_string w r ++ w.line_ending ++ format_rows w rs

-- ===== src/Csv/Examples.antt =====
-- Runs of the parser, the writer and the merger.
use bb_pipeline.Common.{
  ℕ, ◌≡◌, ◌≢◌, refl, Bool, true, false, none, some, List, [], ◌∷◌, Text, codes, map, arith,
}
use bb_pipeline.Csv.{
  utf8, auto_detect, ParserConfig, parse_row, parse_bytes, parse_byte, finish_field, trim,
  drop_blanks, has_byte,
}
use bb_pipeline.Csv.Writing.{
  WriterConfig, manual, row_string, row_field, fields_after, escape_bytes, needs_quoting,
}
use bb_pipeline.Csv.{process_field, escape_field, is_row_complete}
use bb_pipeline.Csv.RoundTrip.{Agrees, parse_row-row_string}
use bb_pipeline.Csv.Reading.{RowCallback, Reader, success, parse_internal}
use bb_pipeline.Csv.Refilling.{parse_internal_hangs}
use bb_pipeline.Csv.Batching.{
  Writer, WriterError, file_write_error, flush_internal, write_row, write_rows, is_none, oversized,
  write_all, write_row_internal, add_row, flush_if_needed, should_flush, flush_or_block,
}
use bb_pipeline.Csv.Conserving.{Gains}
use bb_pipeline.Csv.Batches.{write_rows-Gains}
use bb_pipeline.Csv.Blocking.{write_row_blocks}

abbrev parser : ℕ → ParserConfig
parser n = record {
  encoding = auto_detect;
  delimiter = 44;
  quote_char = 34;
  has_header = false;
  strict_mode = false;
  trim_whitespace = true;
  skip_empty_rows = true;
  buffer_size = n;
}

abbrev format : WriterConfig
format = record {
  delimiter = 44;
  quote_char = 34;
  escape_char = 34;
  always_quote = false;
  quote_empty_fields = false;
  line_ending = 10 ∷ [];
  write_header = true;
  buffer_size = 65536;
  max_rows_in_buffer = 2;
  max_field_size = 100;
  flush_trigger = manual;
  flush_interval = 5000;
  flush_row_threshold = 1000;
  flush_size_threshold = 32768;
  compression_level = 6;
  continue_on_error = false;
  max_retry_attempts = 3;
}

parser-Agrees : (n : ℕ) → Agrees (parser n) format
parser-Agrees n = record { delimiters = refl; quotes = refl; escapes = refl; differ = refl }

abbrev sample : List Text
sample = codes "a,b" ∷ codes "say \"x\"" ∷ codes " c" ∷ []

-- The quoted space is trimmed all the same.
reads_back :
    parse_row (parser 64) (row_string format sample)
    ≡ codes "a,b" ∷ codes "say \"x\"" ∷ codes "c" ∷ []
unfolding parse_row parse_bytes parse_byte trim drop_blanks row_string row_field fields_after
    escape_bytes needs_quoting has_byte
reads_back = refl

row_nonempty : row_string format sample ≢ []
unfolding row_string row_field needs_quoting has_byte
row_nonempty e = cc

parse_row-row_string_example :
    parse_row (parser 64) (row_string format sample) ≡ map (finish_field (parser 64)) sample
parse_row-row_string_example =
    parse_row-row_string (parser 64) format sample (parser-Agrees 64) row_nonempty

abbrev reader : Reader
reader = record {
  buffer = [];
  stream = [];
  good = true;
  detected_encoding = utf8;
  headers = [];
  current_row_number = 0;
  rows_parsed = 0;
  rows_skipped = 0;
  rows_with_errors = 0;
  bytes_read = 0;
  delivered = [];
}

abbrev go_on : RowCallback
go_on r = some true

parse_internal_hangs_example :
    parse_internal 100 (parser 4) go_on (codes "\"abcd\",e") reader ≡ none
unfolding has_byte
parse_internal_hangs_example =
    parse_internal_hangs (parser 4) go_on (codes "abc") (codes "d\",e") 100 reader refl refl refl

abbrev accepts : Text → Bool
accepts text = true

abbrev refuses : Text → Bool
refuses text = false

abbrev writer : List (List Text) → Writer
writer rows = record {
  config = format;
  file_open = true;
  header_written = false;
  buffer_locked = false;
  row_buffer = rows;
  current_buffer_size = 0;
  last_flush_time = 0;
  output = [];
  rows_written = 0;
  rows_skipped = 0;
  rows_with_errors = 0;
  flush_count = 0;
  bytes_written = 0;
}

abbrev after_two : Writer
after_two = record (writer (sample ∷ sample ∷ [])) { current_buffer_size = 46; rows_written = 2 }

writes_two :
    write_rows accepts (sample ∷ sample ∷ []) (writer []) 7
    ≡ some (after_two, bb_pipeline.Csv.Batching.success)
unfolding write_rows write_all write_row_internal add_row oversized flush_if_needed should_flush
    row_string row_field needs_quoting has_byte fields_after escape_bytes
writes_two = refl

write_rows-Gains_example : Gains (writer []) (sample ∷ sample ∷ []) after_two
write_rows-Gains_example =
    write_rows-Gains accepts (sample ∷ sample ∷ []) (writer []) after_two 7 writes_two

write_row_blocks_example :
    (flush_or_block accepts (writer (sample ∷ sample ∷ [])) 7 ≢ none)
    × (write_row accepts sample (writer (sample ∷ sample ∷ [])) 7 ≡ none)
unfolding oversized
write_row_blocks_example =
    write_row_blocks accepts sample (writer (sample ∷ sample ∷ [])) 7 refl refl refl refl
      (omega arith) refl

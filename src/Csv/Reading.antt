-- ===== src/Csv/Reading.antt =====
-- The buffered reader of src/csv/streaming_parser.cpp: rows cut from the buffer, and the two loops that
-- fill it and empty it. Progress reports, pauses and stop requests from other threads are left out.
use bb_pipeline.Common.{
  ℕ, zero, suc, ◌+◌, ◌-◌, Bool, true, false, not, ◌&&◌, ◌||◌, Option, none, some, List, [], ◌∷◌,
  ◌++◌, Text, if◌then◌else◌, leb, ◌==◌, length, drop, u64,
}
use bb_pipeline.Csv.{EncodingType, utf8, utf16_le, utf16_be, auto_detect, ParserConfig, parse_row}

pub data ParserError : Type 0 where
  success file_read_error malformed_row : ParserError

pub record ParsedRow : Type 0 where
  pub row_number : ℕ
  pub row_fields : List Text
  pub row_headers : List Text

-- What the callback says of a row: whether to go on, or `none` where it throws.
abbrev pub RowCallback : Type 0
RowCallback = ParsedRow → Option Bool

-- `buffer` is the part from `buffer_pos_` to `buffer_size_`, `stream` what the stream still has, and
-- `good` its state. `delivered` holds the rows handed to the callback, in order.
pub record Reader : Type 0 where
  pub buffer : Text
  pub stream : Text
  pub good : Bool
  pub detected_encoding : EncodingType
  pub headers : List Text
  pub current_row_number : ℕ
  pub rows_parsed : ℕ
  pub rows_skipped : ℕ
  pub rows_with_errors : ℕ
  pub bytes_read : ℕ
  pub delivered : List ParsedRow

unfoldable pub take : ℕ → Text → Text
take zero s = []
take (suc n) [] = []
take (suc n) (c ∷ s) = c ∷ take n s

-- `stream.read` of so many bytes; a short read fails the stream.
abbrev pub read : ℕ → Reader → Reader
read space r = record r {
  buffer = r.buffer ++ take space r.stream;
  stream = drop space r.stream;
  good = leb space (length r.stream);
  bytes_read = u64 (r.bytes_read + length (take space r.stream));
}

unfoldable pub fill_buffer : ParserConfig → Reader → Reader × ParserError
fill_buffer p r =
    let space = p.buffer_size - length r.buffer in
    if not r.good
    then (r, file_read_error)
    else if space == 0
    then (r, success)
    else (read space r, success)

abbrev pub is_newline : ℕ → Bool
is_newline c = c == 10 || c == 13

-- The loop to the end of the line: the line, what follows it, and whether a quote is open.
pub record Line : Type 0 where
  pub line : Text
  pub rest : Text
  pub open_quote : Bool

abbrev pub longer : ℕ → Line → Line
longer c l = record l { line = c ∷ l.line }

unfoldable pub scan_line : ℕ → Bool → Text → Line
scan_line q b [] = record { line = []; rest = []; open_quote = b }
scan_line q b (c ∷ s) =
    let l = scan_line q (if c == q then not b else b) s in
    if not (c == q) && (is_newline c && not b)
    then record { line = []; rest = c ∷ s; open_quote = b }
    else longer c l

unfoldable pub skip_newlines : Text → Text
skip_newlines [] = []
skip_newlines (c ∷ s) = let rest = skip_newlines s in if is_newline c then rest else c ∷ s

abbrev pub is_nil : Text → Bool
is_nil [] = true
is_nil (c ∷ s) = false

-- The row and the buffer after it.
unfoldable pub extract_next_row : ParserConfig → Text → Text × Text
extract_next_row p buffer =
    let l = scan_line p.quote_char false buffer in
    if is_nil buffer || (is_nil l.rest && l.open_quote)
    then ([], buffer)
    else (l.line, skip_newlines l.rest)

abbrev pub count_skipped : Reader → Reader
count_skipped r = record r { rows_skipped = u64 (r.rows_skipped + 1) }

-- A row is counted and handed to the callback, whose wish to stop changes nothing.
abbrev pub deliver : ParserConfig → RowCallback → ParsedRow → Reader → Reader × ParserError
deliver p callback row r =
    let r' = record r {
      rows_parsed = u64 (r.rows_parsed + 1);
      delivered = r.delivered ++ row ∷ [];
    } in
    elim (callback row) [
      | none ↦ (
        record r' { rows_with_errors = u64 (r.rows_with_errors + 1) },
        if p.strict_mode then malformed_row else success,
      )
      | some go_on ↦ (r', success)
    ]

unfoldable pub process_row : ParserConfig → RowCallback → Text → ℕ → Reader → Reader × ParserError
process_row p callback row n r =
    if is_nil row && p.skip_empty_rows
    then (count_skipped r, success)
    else if p.has_header && n == 1
    then (count_skipped (record r { headers = parse_row p row }), success)
    else deliver p callback
        (record { row_number = n; row_fields = parse_row p row; row_headers = r.headers }) r

abbrev pub is_success : ParserError → Bool
is_success success = true
is_success file_read_error = false
is_success malformed_row = false

-- One row of the loop of `processBuffer`, which is not empty.
abbrev pub next_row : ParserConfig → RowCallback → Text × Text → Reader → Reader × ParserError
next_row p callback x r =
    let n = u64 (r.current_row_number + 1) in
    process_row p callback x.0 n (record r { buffer = x.1; current_row_number = n })

-- The loop of `processBuffer`, on fuel.
unfoldable pub process_rows : ℕ → ParserConfig → RowCallback → Reader → Reader × ParserError
process_rows zero p callback r = (r, success)
process_rows (suc fuel) p callback r =
    let x = extract_next_row p r.buffer in
    let y = next_row p callback x r in
    let rest = process_rows fuel p callback y.0 in
    if is_nil r.buffer
    then (r, success)
    else if is_nil x.0
    then (record r { buffer = x.1 }, success)
    else if not (is_success y.1) && p.strict_mode
    then y
    else rest

-- A failed fill is returned before any row is read.
unfoldable pub process_buffer : ParserConfig → RowCallback → Reader → Reader × ParserError
process_buffer p callback r =
    let x = fill_buffer p r in
    if is_success x.1 then process_rows (length x.0.buffer) p callback x.0 else x

-- The loop of `parseInternal`; `none` is no more fuel.
unfoldable pub parse_chunks :
    ℕ → ParserConfig → RowCallback → ParserError → Reader → Option (Reader × ParserError)
parse_chunks zero p callback e r = if r.good then none else some (r, e)
parse_chunks (suc fuel) p callback e r =
    let x = process_buffer p callback r in
    let rest = parse_chunks fuel p callback x.1 x.0 in
    if not r.good
    then some (r, e)
    else if not (is_success x.1) && p.strict_mode
    then some x
    else rest

-- The byte order mark at the start of a stream; bytes that are not there count as 0.
unfoldable pub byte_order : Text → EncodingType
byte_order (a ∷ b ∷ s) =
    if a == 255 && b == 254 then utf16_le else if a == 254 && b == 255 then utf16_be else utf8
byte_order s = utf8

-- `detectEncoding` of a stream at its start: it reads four bytes and goes back, which does not help a
-- stream that was too short and has failed.
unfoldable pub detect_encoding : Reader → Reader
detect_encoding r = record r {
  good = r.good && leb 4 (length r.stream);
  detected_encoding = byte_order r.stream;
}

abbrev pub detects : EncodingType → Bool
detects auto_detect = true
detects e = false

unfoldable pub handle_encoding : ParserConfig → Reader → Reader
handle_encoding p r =
    if detects p.encoding then detect_encoding r else record r { detected_encoding = p.encoding }

-- The buffer is kept from the parse before.
unfoldable pub parse_internal :
    ℕ → ParserConfig → RowCallback → Text → Reader → Option (Reader × ParserError)
parse_internal fuel p callback text r =
    let s = handle_encoding p (record r { stream = text; good = true }) in
    parse_chunks fuel p callback success (record s { headers = []; current_row_number = 0 })

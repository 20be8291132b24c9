-- ===== src/Csv/Batching.antt =====
-- The buffered writer: writeRow, writeRows, writeHeader and flush of src/csv/batch_writer.cpp, without
-- compression and without the background thread. `buffer_locked` is the buffer's mutex: a call that locks
-- it when it is locked never returns, which is `none`.
use bb_pipeline.Common.{
  ℕ, ◌+◌, ◌-◌, Bool, true, false, not, ◌&&◌, ◌||◌, Option, none, some, List, [], ◌∷◌, ◌++◌, Text,
  if◌then◌else◌, leb, ltb, ◌==◌, length, u64,
}
use bb_pipeline.Csv.Writing.{
  WriterConfig, manual, row_count, buffer_fill, time_interval, mixed, row_string, format_rows,
}

pub data WriterError : Type 0 where
  success file_write_error buffer_overflow invalid_configuration : WriterError

-- `output` is what the stream took so far.
pub record Writer : Type 0 where
  pub config : WriterConfig
  pub file_open : Bool
  pub header_written : Bool
  pub buffer_locked : Bool
  pub row_buffer : List (List Text)
  pub current_buffer_size : ℕ
  pub last_flush_time : ℕ
  pub output : Text
  pub rows_written : ℕ
  pub rows_skipped : ℕ
  pub rows_with_errors : ℕ
  pub flush_count : ℕ
  pub bytes_written : ℕ

abbrev pub is_none {ℓ} : {A : Type ℓ} → List A → Bool
is_none [] = true
is_none (x ∷ xs) = false

abbrev emptied : Writer → Writer
emptied w = record w { row_buffer = []; current_buffer_size = 0 }

abbrev sent : Writer → Text → ℕ → Writer
sent w text now = record w {
  output = w.output ++ text;
  flush_count = u64 (w.flush_count + 1);
  bytes_written = u64 (w.bytes_written + length text);
  last_flush_time = now;
}

-- `flushInternal` at the time `now`, when the mutex is free; `accepts` says whether the stream takes the
-- text.
unfoldable pub flush_internal : (Text → Bool) → Writer → ℕ → Writer × WriterError
flush_internal accepts w now =
    let text = format_rows w.config w.row_buffer in
    if not w.file_open || is_none w.row_buffer
    then (w, success)
    else if is_none text
    then (emptied w, success)
    else if accepts text
    then (sent (emptied w) text now, success)
    else (emptied w, file_write_error)

-- `flushInternal` in any state of the mutex: it locks it only when there are rows to flush.
unfoldable pub flush_or_block : (Text → Bool) → Writer → ℕ → Option (Writer × WriterError)
flush_or_block accepts w now =
    if not w.file_open || is_none w.row_buffer
    then some (w, success)
    else if w.buffer_locked
    then none
    else some (flush_internal accepts w now)

unfoldable pub should_flush : Writer → ℕ → Bool
should_flush w now =
    let rows = leb w.config.flush_row_threshold (length w.row_buffer) in
    let size = leb w.config.flush_size_threshold w.current_buffer_size in
    let time = leb w.config.flush_interval (now - w.last_flush_time) in
    elim w.config.flush_trigger [
      | manual ↦ false
      | row_count ↦ rows
      | buffer_fill ↦ size
      | time_interval ↦ time
      | mixed ↦ rows || (size || time)
    ]

unfoldable pub flush_if_needed : (Text → Bool) → Writer → ℕ → Writer × WriterError
flush_if_needed accepts w now =
    if should_flush w now then flush_internal accepts w now else (w, success)

-- The fields beyond the limit.
unfoldable pub oversized : ℕ → List Text → ℕ
oversized limit [] = 0
oversized limit (f ∷ fs) =
    let rest = oversized limit fs in if ltb limit (length f) then rest + 1 else rest

abbrev pub push_row : List Text → Writer → Writer
push_row row w = record w {
  row_buffer = w.row_buffer ++ row ∷ [];
  current_buffer_size =
      u64 (w.current_buffer_size + length (row_string w.config row) + length w.config.line_ending);
  rows_written = u64 (w.rows_written + 1);
}

abbrev pub set_locked : Bool → Writer → Writer
set_locked b w = record w { buffer_locked = b }

-- After the flush of a full buffer: its error is returned, and the row is not added.
abbrev pub add_flushed : List Text → Option (Writer × WriterError) → Option (Writer × WriterError)
add_flushed row none = none
add_flushed row (some (w, success)) = some (set_locked false (push_row row w), success)
add_flushed row (some (w, e)) = some (set_locked false w, e)

-- The part of `writeRowInternal` that holds the buffer's mutex: a full buffer is flushed there.
unfoldable pub add_row : (Text → Bool) → ℕ → List Text → Writer → Option (Writer × WriterError)
add_row accepts now row w =
    let l = set_locked true w in
    let flushed = add_flushed row (flush_or_block accepts l now) in
    if w.buffer_locked
    then none
    else if leb w.config.max_rows_in_buffer (length w.row_buffer)
    then flushed
    else add_flushed row (some (l, success))

abbrev note_errors : ℕ → Writer → Writer
note_errors n w = record w { rows_with_errors = u64 (w.rows_with_errors + n) }

unfoldable pub write_row_internal :
    (Text → Bool) → ℕ → List Text → Writer → Option (Writer × WriterError)
write_row_internal accepts now row w =
    let n = oversized w.config.max_field_size row in
    if is_none row
    then some (record w { rows_skipped = u64 (w.rows_skipped + 1) }, success)
    else if not (n == 0) && not w.config.continue_on_error
    then some (note_errors 1 w, buffer_overflow)
    else add_row accepts now row (note_errors n w)

abbrev pub is_ok : WriterError → Bool
is_ok success = true
is_ok e = false

abbrev pub then_flush :
    (Text → Bool) → ℕ → Option (Writer × WriterError) → Option (Writer × WriterError)
then_flush accepts now none = none
then_flush accepts now (some x) =
    if is_ok x.1 then some (flush_if_needed accepts x.0 now) else some x

unfoldable pub write_row : (Text → Bool) → List Text → Writer → ℕ → Option (Writer × WriterError)
write_row accepts row w now =
    if w.file_open
    then then_flush accepts now (write_row_internal accepts now row w)
    else some (w, file_write_error)

-- The loop of `writeRows`, with the last error so far.
unfoldable pub write_all :
    (Text → Bool) → ℕ → List (List Text) → WriterError → Writer → Option (Writer × WriterError)
write_all accepts now [] e w = some (w, e)
write_all accepts now (row ∷ rows) e w = elim (write_row_internal accepts now row w) [
  | none ↦ none
  | some x ↦
      if is_ok x.1 then write_all accepts now rows e x.0 else elim w.config.continue_on_error [
        | false ↦ some x
        | true ↦ write_all accepts now rows x.1 x.0
      ]
]

unfoldable pub write_rows :
    (Text → Bool) → List (List Text) → Writer → ℕ → Option (Writer × WriterError)
write_rows accepts rows w now = then_flush accepts now (write_all accepts now rows success w)

abbrev pub header_done :
    (Text → Bool) → ℕ → Option (Writer × WriterError) → Option (Writer × WriterError)
header_done accepts now none = none
header_done accepts now (some x) =
    if is_ok x.1
    then some ((flush_internal accepts (record x.0 { header_written = true }) now).0, x.1)
    else some x

-- The result of the flush is dropped.
unfoldable pub write_header_row :
    (Text → Bool) → List Text → Writer → ℕ → Option (Writer × WriterError)
write_header_row accepts headers w now =
    if not w.config.write_header
    then some (w, success)
    else if w.header_written
    then some (w, invalid_configuration)
    else header_done accepts now (write_row_internal accepts now headers w)

unfoldable pub clear_buffer : Writer → Writer
clear_buffer w = emptied w

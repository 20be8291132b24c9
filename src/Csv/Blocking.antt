-- ===== src/Csv/Blocking.antt =====
-- Where the writer's calls return, where they block, and what a refused write loses.
use bb_pipeline.Common.{
  ℕ, ◌+◌, ◌≤◌, ◌<◌, ◌≡◌, ◌≢◌, refl, sym, ap, ◌∙◌, inl, inr, Bool, true, false, not, ◌&&◌, none,
  some, List, [], ◌∷◌, Text, leb, ◌==◌, length, u64, arith, Bool-cases, length-append, le→leb,
}
use mathlib.Core.List.{append-nil}
use bb_pipeline.Csv.Writing.{format_rows}
use bb_pipeline.Csv.Batching.{
  Writer, WriterError, success, file_write_error, buffer_overflow, is_none, flush_internal,
  flush_if_needed, oversized, push_row, add_row, write_row_internal, is_ok, write_row, write_all,
  write_rows, then_flush, set_locked, flush_or_block,
}
use bb_pipeline.Csv.Conserving.{content}

has_room : (limit n : ℕ) → n < limit → leb limit n ≡ false
has_room limit n h = ground arith

internal_returns :
    (accepts : Text → Bool) (now : ℕ) (row : List Text) (w : Writer)
    → length w.row_buffer < w.config.max_rows_in_buffer
    → w.buffer_locked ≡ false
    → (x : Writer × WriterError) × (write_row_internal accepts now row w ≡ some x)
      × (length x.0.row_buffer ≤ length w.row_buffer + 1)
      × (x.0.config ≡ w.config)
      × (x.0.buffer_locked ≡ false)
unfolding write_row_internal add_row
internal_returns accepts now row w h u = elim (Bool-cases (is_none row)) [
  | inl t ↦ (
    (record w { rows_skipped = u64 (w.rows_skipped + 1) }, success),
    simp t,
    (omega arith),
    refl,
    u,
  )
  | inr n ↦
      let big =
        not (oversized w.config.max_field_size row == 0) && not w.config.continue_on_error in
      elim (Bool-cases big) [
        | inl t ↦ (
          (record w { rows_with_errors = u64 (w.rows_with_errors + 1) }, buffer_overflow),
          simp (n, t),
          (omega arith),
          refl,
          u,
        )
        | inr f ↦
            let m = u64 (w.rows_with_errors + oversized w.config.max_field_size row) in
            (
              (set_locked false (push_row row (record w { rows_with_errors = m })), success),
              simp (n, f, u, has_room w.config.max_rows_in_buffer (length w.row_buffer) h),
              omega (arith, length-append w.row_buffer (row ∷ [])),
              refl,
              refl,
            )
      ]
]

all_returns_step :
    (accepts : Text → Bool) (now : ℕ) (row : List Text) (rows : List (List Text)) (e : WriterError)
    (w : Writer) (y x z : Writer × WriterError)
    → write_row_internal accepts now row w ≡ some y
    → write_all accepts now rows e y.0 ≡ some x
    → write_all accepts now rows y.1 y.0 ≡ some z
    → (v : Writer × WriterError) × (write_all accepts now (row ∷ rows) e w ≡ some v)
unfolding write_all
all_returns_step accepts now row rows e w y x z s k m = elim (Bool-cases (is_ok y.1)) [
  | inl t ↦ (x, rw (s, write_all) (rw t k))
  | inr f ↦ elim (Bool-cases w.config.continue_on_error) [
    | inl g ↦ (z, rw (s, write_all) (rw (f, g) m))
    | inr g ↦ (y, rw (s, write_all) (rw (f, g) refl))
  ]
]

all_returns :
    (accepts : Text → Bool) (now : ℕ) (rows : List (List Text)) (e : WriterError) (w : Writer)
    → length w.row_buffer + length rows ≤ w.config.max_rows_in_buffer
    → w.buffer_locked ≡ false
    → (x : Writer × WriterError) × (write_all accepts now rows e w ≡ some x)
unfolding write_all
all_returns accepts now [] e w h u = ((w, e), refl)
all_returns accepts now (row ∷ rows) e w h u =
    let (y, s, l, c, v) = internal_returns accepts now row w (omega arith) u in
    let room : length y.0.row_buffer + length rows ≤ y.0.config.max_rows_in_buffer =
      rw c (omega arith) in
    let (x, k) = all_returns accepts now rows e y.0 room v in
    let (z, m) = all_returns accepts now rows y.1 y.0 room v in
    all_returns_step accepts now row rows e w y x z s k m

flushed_returns :
    (accepts : Text → Bool) (now : ℕ) (x : Writer × WriterError)
    → then_flush accepts now (some x) ≢ none
flushed_returns accepts now x h = elim (Bool-cases (is_ok x.1)) [
  | inl t ↦ let b : some (flush_if_needed accepts x.0 now) ≡ none = simp t at h in cc
  | inr f ↦ let b : some x ≡ none = simp f at h in cc
]

-- A batch for which the buffer has room returns, when the buffer's mutex is free.
pub write_rows_returns :
    (accepts : Text → Bool) (rows : List (List Text)) (w : Writer) (now : ℕ)
    → length w.row_buffer + length rows ≤ w.config.max_rows_in_buffer
    → w.buffer_locked ≡ false
    → write_rows accepts rows w now ≢ none
unfolding write_rows
write_rows_returns accepts rows w now h u k =
    let (x, e) = all_returns accepts now rows success w h u in
    flushed_returns accepts now x (ap (then_flush accepts now) (sym e) ∙ k)

-- A row that is not empty and has no field beyond the limit, for an open writer whose buffer is full and not
-- empty and whose buffer's mutex is free: a flush of that writer returns, but `writeRow` never does, since it
-- takes the mutex for the row and again for the flush.
pub write_row_blocks :
    (accepts : Text → Bool) (row : List Text) (w : Writer) (now : ℕ)
    → w.file_open ≡ true
    → is_none row ≡ false
    → oversized w.config.max_field_size row ≡ 0
    → is_none w.row_buffer ≡ false
    → w.config.max_rows_in_buffer ≤ length w.row_buffer
    → w.buffer_locked ≡ false
    → (flush_or_block accepts w now ≢ none) × (write_row accepts row w now ≡ none)
unfolding write_row write_row_internal add_row flush_or_block
write_row_blocks accepts row w now o n z b f u =
    let full = le→leb w.config.max_rows_in_buffer (length w.row_buffer) f in
    (
      (λ h. let k : some (flush_internal accepts w now) ≡ none = simp (o, b, u) at h in cc),
      simp (o, n, z, b, u, full),
    )

-- An open writer with rows in its buffer, when the stream refuses their text: the flush reports the error
-- and has emptied the buffer, so that a second flush reports success with the stream as it was, and the
-- rows are lost.
pub flush_loses :
    (refuses accepts : Text → Bool) (w : Writer) (now later : ℕ)
    → w.file_open ≡ true
    → is_none w.row_buffer ≡ false
    → is_none (format_rows w.config w.row_buffer) ≡ false
    → refuses (format_rows w.config w.row_buffer) ≡ false
    → ((flush_internal refuses w now).1 ≡ file_write_error)
      × ((flush_internal accepts (flush_internal refuses w now).0 later).1 ≡ success)
      × (content (flush_internal accepts (flush_internal refuses w now).0 later).0 ≡ w.output)
unfolding flush_internal format_rows
flush_loses refuses accepts w now later o n t r =
    simp (o, n, t, r) (refl, refl, append-nil w.output)

-- ===== src/Csv/Steps.antt =====
-- One round of the loop of processBuffer.
use bb_pipeline.Common.{
  ℕ, zero, suc, ◌+◌, ◌≡◌, ◌≢◌, refl, ap, false, [], ◌∷◌, ◌++◌, Text, arith, none, u64, inl, inr,
  Option-cases,
}
use bb_pipeline.Csv.{ParserConfig, parse_row}
use bb_pipeline.Csv.Reading.{
  ParsedRow, RowCallback, Reader, success, extract_next_row, is_nil, process_row, process_rows,
  next_row,
}

-- The callback throws on no row.
abbrev pub Calm : RowCallback → Type 0
Calm callback = (row : ParsedRow) → callback row ≢ none

pub non_nil : (t : Text) → t ≢ [] → is_nil t ≡ false
non_nil [] h = absurd (h refl)
non_nil (c ∷ t) h = refl

pub nil-append : (t : Text) (c : ℕ) (s : Text) → is_nil (t ++ c ∷ s) ≡ false
nil-append [] c s = refl
nil-append (x ∷ t) c s = refl

module _ (p : ParserConfig) where
  pub process_rows_step :
      (fuel : ℕ) (callback : RowCallback) (r r' : Reader) (row rest : Text)
      → is_nil r.buffer ≡ false
      → extract_next_row p r.buffer ≡ (row, rest)
      → is_nil row ≡ false
      → next_row p callback (row, rest) r ≡ (r', success)
      → process_rows (suc fuel) p callback r ≡ process_rows fuel p callback r'
  unfolding process_rows
  process_rows_step fuel callback r r' row rest h e k n = simp (h, e, k, n)

  pub next_row_delivers :
      (callback : RowCallback) (r : Reader) (row rest : Text)
      → is_nil row ≡ false
      → p.has_header ≡ false
      → Calm callback
      → next_row p callback (row, rest) r ≡ (
        record r {
          buffer = rest;
          current_row_number = u64 (r.current_row_number + 1);
          rows_parsed = u64 (r.rows_parsed + 1);
          delivered =
              r.delivered
              ++ record {
                row_number = u64 (r.current_row_number + 1);
                row_fields = parse_row p row;
                row_headers = r.headers;
              }
                ∷ [];
        },
        success,
      )
  unfolding process_row
  next_row_delivers callback r row rest h k cb =
      let seen : ParsedRow = record {
        row_number = u64 (r.current_row_number + 1);
        row_fields = parse_row p row;
        row_headers = r.headers;
      } in
      elim (Option-cases (callback seen)) [
        | inl e ↦ absurd (cb seen e)
        | inr (b, e) ↦ ground (arith, h, k, e)
      ]

  pub process_rows_done :
      (fuel : ℕ) (callback : RowCallback) (r : Reader)
      → r.buffer ≡ []
      → process_rows fuel p callback r ≡ (r, success)
  unfolding process_rows
  process_rows_done zero callback r e = refl
  process_rows_done (suc fuel) callback r e = simp (ap is_nil e)

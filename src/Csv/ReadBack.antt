-- ===== src/Csv/ReadBack.antt =====
-- processBuffer on the text of the rows that flushInternal formats.
use bb_pipeline.Common.{
  ℕ, zero, suc, ◌+◌, ◌≤◌, ◌≡◌, ◌≢◌, refl, sym, ap, ◌∙◌, false, ◌||◌, List, [], ◌∷◌, ◌++◌, Text, map,
  arith, Bool-cases, inl, inr, u64, length, All,
}
use mathlib.Core.List.{append_assoc, append-nil}
use bb_pipeline.Csv.{ParserConfig, finish_field}
use bb_pipeline.Csv.Writing.{
  WriterConfig, needs_quoting, row_field, fields_after, row_string, format_rows,
}
use bb_pipeline.Csv.RoundTrip.{
  Agrees, row_field-quoted, row_field_plain, fields_after-cons, parse_row-row_string,
}
use bb_pipeline.Csv.Framing.{IsLineSafe, IsPlain, needs_no_quotes-IsPlain, plain_head, extract-row}
use bb_pipeline.Csv.Reading.{
  ParsedRow, RowCallback, Reader, ParserError, success, is_newline, skip_newlines, extract_next_row,
  is_nil, process_rows,
}
use bb_pipeline.Csv.Steps.{
  Calm, non_nil, nil-append, process_rows_step, next_row_delivers, process_rows_done,
}

-- Rows as the callback sees them, numbered from `n + 1`.
unfoldable pub number : ℕ → List Text → List (List Text) → List ParsedRow
number n headers [] = []
number n headers (r ∷ rs) =
    record { row_number = u64 (n + 1); row_fields = r; row_headers = headers }
    ∷ number (u64 (n + 1)) headers rs

module _ (p : ParserConfig) (w : WriterConfig) (a : Agrees p w) (safe : IsLineSafe p) where
  skip-kept : (c : ℕ) (s : Text) → is_newline c ≡ false → skip_newlines (c ∷ s) ≡ c ∷ s
  unfolding skip_newlines
  skip-kept c s h = simp h

  skip-after :
      (fs : List Text) (t : Text)
      → fields_after w fs ≢ []
      → skip_newlines (fields_after w fs ++ t) ≡ fields_after w fs ++ t
  unfolding fields_after
  skip-after [] t h = absurd (h refl)
  skip-after (f ∷ fs) t h =
      ap (λ x. skip_newlines (x ++ t)) (fields_after-cons p w a f fs)
      ∙ skip-kept p.delimiter (row_field w f ++ fields_after w fs ++ t) safe.delimiter_inside
      ∙ sym (ap (λ x. x ++ t) (fields_after-cons p w a f fs))

  skip-plain :
      (f : Text) (fs : List Text) (t : Text)
      → IsPlain p.quote_char f
      → f ++ fields_after w fs ≢ []
      → skip_newlines (f ++ fields_after w fs ++ t) ≡ f ++ fields_after w fs ++ t
  skip-plain [] fs t k h = skip-after fs t h
  skip-plain (c ∷ f) fs t k h =
      skip-kept c (f ++ fields_after w fs ++ t) (plain_head p.quote_char c f k).1

  skip-row :
      (f : Text) (fs : List Text) (t : Text)
      → row_string w (f ∷ fs) ≢ []
      → skip_newlines (row_string w (f ∷ fs) ++ t) ≡ row_string w (f ∷ fs) ++ t
  unfolding row_string
  skip-row f fs t h = elim (Bool-cases (w.always_quote || needs_quoting w f)) [
    | inl e ↦ rw (row_field-quoted p w a f e) (skip-kept p.quote_char _ safe.quote_inside)
    | inr n ↦
        let r = row_field_plain p w a f n in
        rw r (skip-plain f fs t (needs_no_quotes-IsPlain p w a safe f n) (rw r at h))
  ]

  abbrev pub Written : List Text → Type 0
  Written fs = row_string w fs ≢ []

  skip-rows :
      (rows : List (List Text))
      → All Written rows
      → skip_newlines (format_rows w rows) ≡ format_rows w rows
  unfolding format_rows skip_newlines row_string
  skip-rows [] h = refl
  skip-rows ([] ∷ rows) h = absurd (h.0 refl)
  skip-rows ((f ∷ fs) ∷ rows) h =
      let t = row_string w (f ∷ fs) in
      let e = append_assoc t w.line_ending (format_rows w rows) in
      rw e (skip-row f fs (w.line_ending ++ format_rows w rows) h.0)

  -- One round on a written row.
  step_row :
      (fuel : ℕ) (callback : RowCallback) (r : Reader) (fs : List Text) (rest : Text)
      → r.buffer ≡ row_string w fs ++ 10 ∷ rest
      → Written fs
      → (p.has_header ≡ false) × (skip_newlines rest ≡ rest)
      → Calm callback
      → process_rows (suc fuel) p callback r
        ≡ process_rows fuel p callback (record r {
          buffer = rest;
          current_row_number = u64 (r.current_row_number + 1);
          rows_parsed = u64 (r.rows_parsed + 1);
          delivered =
              r.delivered
              ++ record {
                row_number = u64 (r.current_row_number + 1);
                row_fields = map (finish_field p) fs;
                row_headers = r.headers;
              }
                ∷ [];
        })
  step_row fuel callback r fs rest e h k cb =
      let t = row_string w fs in
      let n = non_nil t h in
      let x : extract_next_row p r.buffer ≡ (t, rest) =
        ap (extract_next_row p) e ∙ extract-row p w a safe fs rest h ∙ ap (λ z. (t, z)) k.1 in
      let d = next_row_delivers p callback r t rest n k.0 cb in
      let m = ap is_nil e ∙ nil-append t 10 rest in
      rw (sym (parse_row-row_string p w fs a h))
        (process_rows_step p fuel callback r _ t rest m x n d)

  format_rows-cons :
      (fs : List Text) (rows : List (List Text))
      → w.line_ending ≡ 10 ∷ []
      → format_rows w (fs ∷ rows) ≡ row_string w fs ++ 10 ∷ format_rows w rows
  unfolding format_rows
  format_rows-cons fs rows h =
      append_assoc (row_string w fs) w.line_ending (format_rows w rows)
      ∙ ap (λ x. row_string w fs ++ (x ++ format_rows w rows)) h

  -- The rows are delivered in order, and nothing is left in the buffer.
  abbrev pub Delivers : Reader × ParserError → Reader → List (List Text) → Type 0
  Delivers x r rows =
      (x.1 ≡ success)
      × (x.0.buffer ≡ [])
      × (x.0.good ≡ r.good)
      × (x.0.delivered
          ≡ r.delivered ++ number r.current_row_number r.headers (map (map (finish_field p)) rows))

  pub process_rows-Delivers :
      (rows : List (List Text)) (fuel : ℕ) (callback : RowCallback) (r : Reader)
      → r.buffer ≡ format_rows w rows
      → w.line_ending ≡ 10 ∷ []
      → All Written rows
      → p.has_header ≡ false
      → Calm callback
      → length rows ≤ fuel
      → Delivers (process_rows fuel p callback r) r rows
  unfolding format_rows number
  process_rows-Delivers [] fuel callback r e l h k cb b =
      rw (process_rows_done p fuel callback r e) (refl, e, refl, sym (append-nil r.delivered))
  process_rows-Delivers (fs ∷ rows) zero callback r e l h k cb b = absurd (omega arith)
  process_rows-Delivers (fs ∷ rows) (suc fuel) callback r e l h k cb b =
      let s =
        step_row fuel callback r fs (format_rows w rows) (e ∙ format_rows-cons fs rows l) h.0
          (k, skip-rows rows h.1) cb in
      let row : ParsedRow = record {
        row_number = u64 (r.current_row_number + 1);
        row_fields = map (finish_field p) fs;
        row_headers = r.headers;
      } in
      let (x, y, z, d) = process_rows-Delivers rows fuel callback _ refl l h.1 k cb (omega arith) in
      rw s (x, y, z, d ∙ append_assoc r.delivered (row ∷ []) _)

-- ===== src/Csv/Framing.antt =====
-- extractNextRow of src/csv/streaming_parser.cpp on the rows of CsvRow::toString.
use bb_pipeline.Common.{
  ℕ, ◌≡◌, ◌≢◌, refl, sym, ap, ◌∙◌, Bool, true, false, not, ◌||◌, List, [], ◌∷◌, ◌++◌, Text, ◌==◌,
  arith, Bool-cases, ◌⊎◌, inl, inr,
}
use mathlib.Core.List.{append_assoc, append-nil}
use bb_pipeline.Csv.{ParserConfig, has_byte}
use bb_pipeline.Csv.Writing.{
  WriterConfig, escape_bytes, needs_quoting, row_field, fields_after, row_string,
}
use bb_pipeline.Csv.RoundTrip.{Agrees, row_field-quoted, row_field_plain, fields_after-cons}
use bb_pipeline.Csv.Reading.{Line, longer, scan_line, is_newline, skip_newlines, extract_next_row}

abbrev pub prepend : Text → Line → Line
prepend t l = record l { line = t ++ l.line }

prepend-append : (s t : Text) (l : Line) → prepend (s ++ t) l ≡ prepend s (prepend t l)
prepend-append s t l = ap (λ x. record l { line = x }) (append_assoc s t l.line)

module _ (q : ℕ) where
  pub scan_quote : (b : Bool) (s : Text) → scan_line q b (q ∷ s) ≡ longer q (scan_line q (not b) s)
  unfolding scan_line
  scan_quote b s = ground arith

  pub scan_other :
      (c : ℕ) (b : Bool) (s : Text)
      → (c == q) ≡ false
      → (b ≡ true) ⊎ (is_newline c ≡ false)
      → scan_line q b (c ∷ s) ≡ longer c (scan_line q b s)
  unfolding scan_line
  scan_other c b s h k = ground arith

  pub scan_newline :
      (s : Text)
      → is_newline q ≡ false
      → scan_line q false (10 ∷ s) ≡ record { line = []; rest = 10 ∷ s; open_quote = false }
  unfolding scan_line
  scan_newline s h = ground arith

  -- No quote and no end of line.
  pub record IsPlain (f : Text) : Type 0 where
    pub no_quote : has_byte q f ≡ false
    pub no_lf : has_byte 10 f ≡ false
    pub no_cr : has_byte 13 f ≡ false

  pub IsPlain-tail : (c : ℕ) (f : Text) → IsPlain (c ∷ f) → IsPlain f
  unfolding has_byte
  IsPlain-tail c f h =
      let a = h.no_quote in
      let b = h.no_lf in
      let d = h.no_cr in
      record { no_quote = ground arith; no_lf = ground arith; no_cr = ground arith }

  pub plain_head :
      (c : ℕ) (f : Text) → IsPlain (c ∷ f) → ((c == q) ≡ false) × (is_newline c ≡ false)
  unfolding has_byte
  plain_head c f h =
      let a = h.no_quote in let b = h.no_lf in let d = h.no_cr in (ground arith, ground arith)

  pub scan_plain :
      (f rest : Text)
      → IsPlain f
      → scan_line q false (f ++ rest) ≡ prepend f (scan_line q false rest)
  scan_plain [] rest h = refl
  scan_plain (c ∷ f) rest h =
      let k = plain_head c f h in
      scan_other c false (f ++ rest) k.0 (inr k.1)
      ∙ ap (longer c) (scan_plain f rest (IsPlain-tail c f h))

  -- Within quotes, doubled quotes and all the rest belong to the line, up to the closing quote.
  scan_escaped :
      (w : WriterConfig) (f rest : Text)
      → w.quote_char ≡ q
      → w.escape_char ≡ q
      → scan_line q true (escape_bytes w f ++ q ∷ rest)
        ≡ prepend (escape_bytes w f ++ q ∷ []) (scan_line q false rest)
  unfolding escape_bytes
  scan_escaped w [] rest h k = scan_quote true rest
  scan_escaped w (c ∷ f) rest h k =
      let ih = scan_escaped w f rest h k in
      let s = escape_bytes w f ++ q ∷ rest in
      ground (arith, ih, scan_quote true (q ∷ s), scan_quote false s, scan_other c true s)

-- Neither the quote nor the delimiter of the parser ends a line.
pub record IsLineSafe (p : ParserConfig) : Type 0 where
  pub quote_inside : is_newline p.quote_char ≡ false
  pub delimiter_inside : is_newline p.delimiter ≡ false

module _ (p : ParserConfig) (w : WriterConfig) (a : Agrees p w) (safe : IsLineSafe p) where
  abbrev scan : Text → Line
  scan s = scan_line p.quote_char false s

  pub needs_no_quotes-IsPlain :
      (f : Text) → (w.always_quote || needs_quoting w f) ≡ false → IsPlain p.quote_char f
  unfolding needs_quoting
  needs_no_quotes-IsPlain f h =
      let e = a.quotes in
      rw (sym a.quotes)
        (record { no_quote = ground arith; no_lf = ground arith; no_cr = ground arith })

  scan_field : (f rest : Text) → scan (row_field w f ++ rest) ≡ prepend (row_field w f) (scan rest)
  scan_field f rest = elim (Bool-cases (w.always_quote || needs_quoting w f)) [
    | inl t ↦
        let e = append_assoc (escape_bytes w f) (p.quote_char ∷ []) rest in
        rw (row_field-quoted p w a f t, e)
          (scan_quote p.quote_char false (escape_bytes w f ++ p.quote_char ∷ rest)
            ∙ ap (longer p.quote_char) (scan_escaped p.quote_char w f rest a.quotes a.escapes))
    | inr n ↦
        rw (row_field_plain p w a f n)
          (scan_plain p.quote_char f rest (needs_no_quotes-IsPlain f n))
  ]

  scan-fields_after :
      (fs : List Text) (rest : Text)
      → scan (fields_after w fs ++ rest) ≡ prepend (fields_after w fs) (scan rest)
  unfolding fields_after
  scan-fields_after [] rest = refl
  scan-fields_after (f ∷ fs) rest =
      let s = fields_after w fs in
      let d = p.delimiter in
      let g = row_field w f in
      let inside =
        ap scan (append_assoc g s rest)
        ∙ scan_field f (s ++ rest)
        ∙ ap (prepend g) (scan-fields_after fs rest)
        ∙ sym (prepend-append g s (scan rest)) in
      ap (λ x. scan (x ++ rest)) (fields_after-cons p w a f fs)
      ∙ scan_other p.quote_char d false (g ++ s ++ rest) a.differ (inr safe.delimiter_inside)
      ∙ ap (longer d) inside
      ∙ sym (ap (λ x. prepend x (scan rest)) (fields_after-cons p w a f fs))

  scan_row :
      (fs : List Text) (rest : Text)
      → scan (row_string w fs ++ rest) ≡ prepend (row_string w fs) (scan rest)
  unfolding row_string
  scan_row [] rest = refl
  scan_row (f ∷ fs) rest =
      let s = fields_after w fs in
      rw (append_assoc (row_field w f) s rest) (
        scan_field f (s ++ rest)
        ∙ ap (prepend (row_field w f)) (scan-fields_after fs rest)
        ∙ sym (prepend-append (row_field w f) s (scan rest)))

  extract_cons :
      (c0 : ℕ) (b line r : Text) (c : ℕ)
      → scan (c0 ∷ b) ≡ record { line = line; rest = c ∷ r; open_quote = false }
      → extract_next_row p (c0 ∷ b) ≡ (line, skip_newlines (c ∷ r))
  unfolding extract_next_row
  extract_cons c0 b line r c e = rw e refl

  extract_of :
      (buffer line r : Text) (c : ℕ)
      → scan buffer ≡ record { line = line; rest = c ∷ r; open_quote = false }
      → extract_next_row p buffer ≡ (line, skip_newlines (c ∷ r))
  unfolding extract_next_row scan_line
  extract_of [] line r c e = absurd (let k : [] ≡ c ∷ r = ap (λ l. l.rest) e in cc)
  extract_of (c0 ∷ b) line r c e = extract_cons c0 b line r c e

  pub extract-row :
      (fs : List Text) (rest : Text)
      → row_string w fs ≢ []
      → extract_next_row p (row_string w fs ++ 10 ∷ rest) ≡ (row_string w fs, skip_newlines rest)
  unfolding skip_newlines
  extract-row fs rest h =
      let t = row_string w fs in
      let e : scan (t ++ 10 ∷ rest) ≡ record { line = t; rest = 10 ∷ rest; open_quote = false } =
        scan_row fs (10 ∷ rest)
        ∙ ap (prepend t) (scan_newline p.quote_char rest safe.quote_inside)
        ∙ ap (λ x. record { line = x; rest = 10 ∷ rest; open_quote = false }) (append-nil t) in
      extract_of (t ++ 10 ∷ rest) t rest 10 e

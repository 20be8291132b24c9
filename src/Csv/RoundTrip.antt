-- ===== src/Csv/RoundTrip.antt =====
-- parseRow of src/csv/streaming_parser.cpp on the rows of CsvRow::toString.
use bb_pipeline.Common.{
  ℕ, ◌≡◌, ◌≢◌, refl, sym, ◌∙◌, Bool, true, false, not, ◌&&◌, ◌||◌, List, [], ◌∷◌, ◌++◌, Text, map,
  ◌==◌, arith, Bool-cases, ◌⊎◌, inl, inr, ap,
}
use mathlib.Core.List.{append_assoc, append-nil}
use bb_pipeline.Csv.{
  ParserConfig, RowState, parse_byte, parse_bytes, parse_row, has_byte, finish_field, heads,
  row_start,
}
use bb_pipeline.Csv.Writing.{
  WriterConfig, escape_bytes, quoted, needs_quoting, row_field, fields_after, row_string,
}

abbrev pub at : Bool → Text → List Text → RowState
at b current fields = record {
  escaped = false;
  in_quotes = b;
  current_field = current;
  fields = fields;
}

abbrev pub q : ParserConfig → ℕ
q p = p.quote_char

module _ (p : ParserConfig) where
  read_plain :
      (c : ℕ) (rest : Text) (b : Bool) (cur : Text) (fs : List Text)
      → (c == (q p)) ≡ false
      → (b ≡ true) ⊎ ((c == p.delimiter) ≡ false)
      → parse_bytes p (at b cur fs) (c ∷ rest) ≡ parse_bytes p (at b (cur ++ c ∷ []) fs) rest
  unfolding parse_bytes parse_byte
  read_plain c rest b cur fs h k = ground arith

  read_double :
      (rest cur : Text) (fs : List Text)
      → parse_bytes p (at true cur fs) ((q p) ∷ (q p) ∷ rest)
        ≡ parse_bytes p (at true (cur ++ (q p) ∷ []) fs) rest
  unfolding parse_bytes parse_byte
  read_double rest cur fs = ground arith

  read_quote :
      (b : Bool) (rest cur : Text) (fs : List Text)
      → (b && heads (q p) rest) ≡ false
      → parse_bytes p (at b cur fs) ((q p) ∷ rest) ≡ parse_bytes p (at (not b) cur fs) rest
  unfolding parse_bytes parse_byte
  read_quote b rest cur fs h = ground arith

  read_delimiter :
      (rest cur : Text) (fs : List Text)
      → (p.delimiter == (q p)) ≡ false
      → parse_bytes p (at false cur fs) (p.delimiter ∷ rest)
        ≡ parse_bytes p (at false [] (fs ++ finish_field p cur ∷ [])) rest
  unfolding parse_bytes parse_byte
  read_delimiter rest cur fs h = ground arith

-- The writer's format is the parser's, and its escape is the quote.
pub record Agrees (p : ParserConfig) (w : WriterConfig) : Type 0 where
  pub delimiters : w.delimiter ≡ p.delimiter
  pub quotes : w.quote_char ≡ p.quote_char
  pub escapes : w.escape_char ≡ p.quote_char
  pub differ : (p.delimiter == p.quote_char) ≡ false

module _ (p : ParserConfig) (w : WriterConfig) (a : Agrees p w) where
  read_escaped :
      (f rest cur : Text) (fs : List Text)
      → heads (q p) rest ≡ false
      → parse_bytes p (at true cur fs) (escape_bytes w f ++ (q p) ∷ rest)
        ≡ parse_bytes p (at false (cur ++ f) fs) rest
  unfolding escape_bytes
  read_escaped [] rest cur fs h = rw (append-nil cur) (read_quote p true rest cur fs h)
  read_escaped (c ∷ f) rest cur fs h =
      let ih = read_escaped f rest (cur ++ c ∷ []) fs h in
      let e = append_assoc cur (c ∷ []) f in
      ground (
        arith,
        ih,
        e,
        a.quotes,
        a.escapes,
        read_double p (escape_bytes w f ++ q p ∷ rest) cur fs,
        read_plain p c (escape_bytes w f ++ q p ∷ rest) true cur fs,
      )

  read_unquoted :
      (f rest cur : Text) (fs : List Text)
      → has_byte p.delimiter f ≡ false
      → has_byte (q p) f ≡ false
      → parse_bytes p (at false cur fs) (f ++ rest) ≡ parse_bytes p (at false (cur ++ f) fs) rest
  unfolding has_byte
  read_unquoted [] rest cur fs h k = rw (append-nil cur) refl
  read_unquoted (c ∷ f) rest cur fs h k =
      let ih = read_unquoted f rest (cur ++ c ∷ []) fs in
      let e = append_assoc cur (c ∷ []) f in
      let s = read_plain p c (f ++ rest) false cur fs in ground (arith, ih, s, e)

  quoted_text : (f : Text) → quoted w f ≡ q p ∷ (escape_bytes w f ++ q p ∷ [])
  quoted_text f = ap (λ x. x ∷ (escape_bytes w f ++ x ∷ [])) a.quotes

  pub needs_no_quotes :
      (f : Text)
      → (w.always_quote || needs_quoting w f) ≡ false
      → (has_byte p.delimiter f ≡ false) × (has_byte (q p) f ≡ false)
  unfolding needs_quoting
  needs_no_quotes f h = rw (sym a.delimiters, sym a.quotes) (ground arith, ground arith)

  pub row_field-quoted :
      (f : Text)
      → (w.always_quote || needs_quoting w f) ≡ true
      → row_field w f ≡ q p ∷ (escape_bytes w f ++ q p ∷ [])
  unfolding row_field
  row_field-quoted f h = (simp h) ∙ quoted_text f

  pub row_field_plain :
      (f : Text) → (w.always_quote || needs_quoting w f) ≡ false → row_field w f ≡ f
  unfolding row_field
  row_field_plain f h = simp h

  read_field :
      (f rest : Text) (fs : List Text)
      → heads (q p) rest ≡ false
      → parse_bytes p (at false [] fs) (row_field w f ++ rest) ≡ parse_bytes p (at false f fs) rest
  read_field f rest fs h = elim (Bool-cases (w.always_quote || needs_quoting w f)) [
    | inl t ↦
        let e = append_assoc (escape_bytes w f) (q p ∷ []) rest in
        rw (row_field-quoted f t, e)
          (read_quote p false (escape_bytes w f ++ q p ∷ rest) [] fs refl
            ∙ read_escaped f rest [] fs h)
    | inr n ↦
        let k = needs_no_quotes f n in rw (row_field_plain f n) (read_unquoted f rest [] fs k.0 k.1)
  ]

  read_end :
      (f : Text) (fs : List Text) → parse_bytes p (at false f fs) [] ≡ fs ++ finish_field p f ∷ []
  unfolding parse_bytes
  read_end f fs = refl

  pub fields_after-cons :
      (g : Text) (gs : List Text)
      → fields_after w (g ∷ gs) ≡ p.delimiter ∷ (row_field w g ++ fields_after w gs)
  unfolding fields_after
  fields_after-cons g gs = ap (λ x. x ∷ (row_field w g ++ fields_after w gs)) a.delimiters

  heads-fields_after : (gs : List Text) → heads (q p) (fields_after w gs) ≡ false
  unfolding fields_after
  heads-fields_after [] = refl
  heads-fields_after (g ∷ gs) = ap (λ x. x == q p) a.delimiters ∙ a.differ

  read_fields :
      (gs : List Text) (f : Text) (fs : List Text)
      → parse_bytes p (at false f fs) (fields_after w gs) ≡ fs ++ map (finish_field p) (f ∷ gs)
  unfolding fields_after
  read_fields [] f fs = read_end f fs
  read_fields (g ∷ gs) f fs =
      let r = row_field w g ++ fields_after w gs in
      let ended = fs ++ finish_field p f ∷ [] in
      ap (λ x. parse_bytes p (at false f fs) x) (fields_after-cons g gs)
      ∙ read_delimiter p r f fs a.differ
      ∙ read_field g (fields_after w gs) ended (heads-fields_after gs)
      ∙ read_fields gs g ended
      ∙ append_assoc fs (finish_field p f ∷ []) (map (finish_field p) (g ∷ gs))

pub parse_row-bytes :
    (p : ParserConfig) (row : Text) → row ≢ [] → parse_row p row ≡ parse_bytes p row_start row
unfolding parse_row
parse_row-bytes p [] h = absurd (h refl)
parse_row-bytes p (c ∷ row) h = refl

-- A row that `CsvRow::toString` writes in the parser's format, with the quote for the escape, and that is not the empty
-- text, is read back by `parseRow` field by field: each as it was, or trimmed of blanks, quoted or not, if the parser
-- trims.
pub parse_row-row_string :
    (p : ParserConfig) (w : WriterConfig) (fields : List Text)
    → Agrees p w
    → row_string w fields ≢ []
    → parse_row p (row_string w fields) ≡ map (finish_field p) fields
unfolding row_string
parse_row-row_string p w [] a h = absurd (h refl)
parse_row-row_string p w (f ∷ fs) a h =
    parse_row-bytes p (row_field w f ++ fields_after w fs) h
    ∙ read_field p w a f (fields_after w fs) [] (heads-fields_after p w a fs)
    ∙ read_fields p w a fs f []

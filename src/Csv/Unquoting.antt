-- ===== src/Csv/Unquoting.antt =====
-- Fields quoted for output and unquoted again, and the balance of quotes in a row.
use bb_pipeline.Common.{
  ℕ, ◌≡◌, refl, ap, ◌∙◌, Bool, true, false, not, ◌||◌, List, [], ◌∷◌, ◌++◌, reverse, Text,
  if◌then◌else◌, leb, le→leb, ◌==◌, length, length-append, arith, Bool-cases, inl, inr,
}
use mathlib.Core.List.{reverse-append, reverse-reverse}
use bb_pipeline.Csv.{
  ParserConfig, has_byte, heads, double_quotes, escape_field, is_quoted_field, undouble, inner,
  drop_first, process_field, scan_quotes, is_row_complete,
}
use bb_pipeline.Csv.Writing.{
  WriterConfig, escape_bytes, needs_quoting, row_field, fields_after, row_string,
}
use bb_pipeline.Csv.RoundTrip.{
  Agrees, needs_no_quotes, row_field-quoted, row_field_plain, fields_after-cons,
}

undouble_plain : (q c : ℕ) (s : Text) → (c == q) ≡ false → undouble q (c ∷ s) ≡ c ∷ undouble q s
unfolding undouble
undouble_plain q c [] h = refl
undouble_plain q c (d ∷ s) h = rw (h, undouble) refl

eq_self : (q : ℕ) → (q == q) ≡ true
eq_self q = ground arith

undouble_pair : (q : ℕ) (s : Text) → undouble q (q ∷ q ∷ s) ≡ q ∷ undouble q s
unfolding undouble
undouble_pair q s = rw (eq_self q, undouble) refl

undouble_nil : (q : ℕ) → undouble q [] ≡ []
unfolding undouble
undouble_nil q = refl

undouble-double_quotes : (q : ℕ) (s : Text) → undouble q (double_quotes q s) ≡ s
unfolding double_quotes
undouble-double_quotes q [] = undouble_nil q
undouble-double_quotes q (c ∷ s) = elim (Bool-cases (c == q)) [
  | inl t ↦
      let k : q ≡ c = ground arith in
      simp t (
        undouble_pair q (double_quotes q s)
        ∙ ap (λ x. q ∷ x) (undouble-double_quotes q s)
        ∙ ap (λ x. x ∷ s) k)
  | inr f ↦
      simp f
        (undouble_plain q c (double_quotes q s) f ∙ ap (λ x. c ∷ x) (undouble-double_quotes q s))
]

no_quote-heads : (q : ℕ) (s : Text) → has_byte q s ≡ false → heads q s ≡ false
unfolding has_byte
no_quote-heads q [] h = refl
no_quote-heads q (c ∷ s) h = ground arith

inner_of : (q : ℕ) (s : Text) → inner (q ∷ s ++ q ∷ []) ≡ s
inner_of q s = ap (λ x. reverse (drop_first x)) (reverse-append s (q ∷ [])) ∙ reverse-reverse s

quoted_of : (q : ℕ) (s : Text) → is_quoted_field q (q ∷ s ++ q ∷ []) ≡ true
unfolding is_quoted_field
quoted_of q s =
    let e : heads q (reverse (q ∷ s ++ q ∷ [])) ≡ true =
      ap (heads q) (reverse-append (q ∷ s) (q ∷ [])) ∙ eq_self q in
    let l : leb 2 (length (q ∷ s ++ q ∷ [])) ≡ true =
      le→leb 2 (length (q ∷ s ++ q ∷ [])) (omega (arith, length-append s (q ∷ []))) in
    simp (l, e, eq_self q)

unquoted :
    (q : ℕ) (f : Text)
    → has_byte q f ≡ false
    → (if is_quoted_field q f then undouble q (inner f) else f) ≡ f
unfolding is_quoted_field
unquoted q f h = elim (Bool-cases (leb 2 (length f))) [
  | inl l ↦ simp (l, no_quote-heads q f h)
  | inr l ↦ simp l
]

-- Unquoting by `processField` gives back every field that the parser's `escapeField` wrote, quoted or
-- not.
pub process_field-escape_field :
    (p : ParserConfig) (field : Text) → process_field p (escape_field p field) ≡ field
unfolding process_field escape_field
process_field-escape_field p f =
    let q = p.quote_char in
    let t = double_quotes q f in
    let needed = has_byte p.delimiter f || (has_byte q f || (has_byte 10 f || has_byte 13 f)) in
    elim (Bool-cases needed) [
      | inl y ↦ simp (y, quoted_of q t, inner_of q t) (undouble-double_quotes q f)
      | inr n ↦ simp n (unquoted q f (ground arith))
    ]

module _ (q : ℕ) where
  scan-append :
      (s t : Text) (b : Bool) → scan_quotes q b (s ++ t) ≡ scan_quotes q (scan_quotes q b s) t
  unfolding scan_quotes
  scan-append [] t b = refl
  scan-append (c ∷ s) t b = scan-append s t (if c == q then not b else b)

  scan-quote : (b : Bool) (s : Text) → scan_quotes q b (q ∷ s) ≡ scan_quotes q (not b) s
  unfolding scan_quotes
  scan-quote b s = simp (eq_self q)

  scan-other :
      (c : ℕ) (b : Bool) (s : Text) → (c == q) ≡ false → scan_quotes q b (c ∷ s) ≡ scan_quotes q b s
  unfolding scan_quotes
  scan-other c b s h = simp h

  scan-plain : (s : Text) (b : Bool) → has_byte q s ≡ false → scan_quotes q b s ≡ b
  unfolding scan_quotes has_byte
  scan-plain [] b h = refl
  scan-plain (c ∷ s) b h = ground (arith, scan-plain s b)

  scan-escaped :
      (w : WriterConfig) (s : Text) (b : Bool)
      → w.quote_char ≡ q
      → w.escape_char ≡ q
      → scan_quotes q b (escape_bytes w s) ≡ b
  unfolding scan_quotes escape_bytes
  scan-escaped w [] b h k = refl
  scan-escaped w (c ∷ s) true h k =
      ground (arith, scan-escaped w s true h k, scan-escaped w s false h k)
  scan-escaped w (c ∷ s) false h k =
      ground (arith, scan-escaped w s true h k, scan-escaped w s false h k)

module _ (p : ParserConfig) (w : WriterConfig) (a : Agrees p w) where
  scan-field : (f : Text) → scan_quotes p.quote_char false (row_field w f) ≡ false
  unfolding scan_quotes
  scan-field f =
      let q = p.quote_char in
      let t = escape_bytes w f in
      elim (Bool-cases (w.always_quote || needs_quoting w f)) [
        | inl y ↦
            ap (scan_quotes q false) (row_field-quoted p w a f y)
            ∙ scan-quote q false (t ++ q ∷ [])
            ∙ scan-append q t (q ∷ []) true
            ∙ ap (λ b. scan_quotes q b (q ∷ [])) (scan-escaped q w f true a.quotes a.escapes)
            ∙ scan-quote q true []
        | inr n ↦
            ap (scan_quotes q false) (row_field_plain p w a f n)
            ∙ scan-plain q f false (needs_no_quotes p w a f n).1
      ]

  scan-after : (fs : List Text) → scan_quotes p.quote_char false (fields_after w fs) ≡ false
  unfolding fields_after scan_quotes
  scan-after [] = refl
  scan-after (f ∷ fs) =
      let q = p.quote_char in
      let t = fields_after w fs in
      ap (scan_quotes q false) (fields_after-cons p w a f fs)
      ∙ scan-other q p.delimiter false (row_field w f ++ t) a.differ
      ∙ scan-append q (row_field w f) t false
      ∙ ap (λ b. scan_quotes q b t) (scan-field f)
      ∙ scan-after fs

  -- A row that `CsvRow::toString` writes in the parser's format, with the quote for the escape, passes the
  -- parser's `isRowComplete`.
  pub is_row_complete-row_string :
      (fields : List Text) → is_row_complete p (row_string w fields) ≡ true
  unfolding is_row_complete row_string scan_quotes
  is_row_complete-row_string [] = refl
  is_row_complete-row_string (f ∷ fs) = ap not (
      scan-append p.quote_char (row_field w f) (fields_after w fs) false
      ∙ ap (λ b. scan_quotes p.quote_char b (fields_after w fs)) (scan-field f)
      ∙ scan-after fs)

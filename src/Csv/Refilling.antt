-- ===== src/Csv/Refilling.antt =====
-- Rows at the edge of the parser's buffer, and a blank line at the start of a stream.
use bb_pipeline.Common.{
  ℕ, zero, suc, ◌+◌, ◌≤◌, ◌<◌, ◌≡◌, ◌≢◌, refl, sym, ap, ◌∙◌, true, false, [], ◌∷◌, ◌++◌, Text,
  arith, none, some, length, leb, length-append, u64,
}
use mathlib.Core.List.{append-nil}
use bb_pipeline.Csv.{ParserConfig, has_byte, parse_row}
use bb_pipeline.Csv.Framing.{scan_quote, scan_plain, scan_newline, IsPlain}
use bb_pipeline.Csv.Reading.{
  RowCallback, Reader, ParserError, success, read, fill_buffer, process_rows, process_buffer,
  parse_chunks, parse_internal, take, scan_line, longer, is_newline, extract_next_row,
  skip_newlines, is_nil,
}
use bb_pipeline.Csv.Steps.{Calm, non_nil, process_rows_step, process_rows_done, next_row_delivers}
use bb_pipeline.Csv.WholeFile.{
  IsReadable, decoded, parse_internal-opened, opened, first_fill, chunks_end, too_short, take_all,
}

take_exact : (n : ℕ) (s t : Text) → length s ≡ n → take n (s ++ t) ≡ s
unfolding take
take_exact zero [] t h = refl
take_exact zero (c ∷ s) t h = absurd (omega arith)
take_exact (suc n) [] t h = absurd (omega arith)
take_exact (suc n) (c ∷ s) t h = ap (λ x. c ∷ x) (take_exact n s t (omega arith))

enough : (n k : ℕ) → n ≤ k → leb n k ≡ true
enough n k h = ground arith

-- A line that the end of the buffer leaves within quotes.
scan_open :
    (q : ℕ) (s : Text)
    → has_byte q s ≡ false
    → scan_line q true s ≡ record { line = s; rest = []; open_quote = true }
unfolding has_byte scan_line
scan_open q [] h = refl
scan_open q (c ∷ s) h = ground (arith, scan_open q s)

module _ (p : ParserConfig) (callback : RowCallback) where
  abbrev q : ℕ
  q = p.quote_char

  extract_open :
      (body : Text) → has_byte q body ≡ false → extract_next_row p (q ∷ body) ≡ ([], q ∷ body)
  unfolding extract_next_row
  extract_open body h =
      let e = scan_quote q false body ∙ ap (longer q) (scan_open q body h) in simp e

  rows_stuck :
      (fuel : ℕ) (r : Reader)
      → is_nil r.buffer ≡ false
      → extract_next_row p r.buffer ≡ ([], r.buffer)
      → process_rows (suc fuel) p callback r ≡ (r, success)
  unfolding process_rows
  rows_stuck fuel r n e = simp (n, e)

  chunks_stuck :
      (fuel : ℕ) (e : ParserError) (r : Reader)
      → r.good ≡ true
      → process_buffer p callback r ≡ (r, success)
      → parse_chunks fuel p callback e r ≡ none
  unfolding parse_chunks
  chunks_stuck zero e r g h = simp g
  chunks_stuck (suc fuel) e r g h = simp (g, h, chunks_stuck fuel success r g h)

  full_buffer :
      (r : Reader)
      → r.good ≡ true
      → length r.buffer ≡ p.buffer_size
      → process_buffer p callback r ≡ process_rows (length r.buffer) p callback r
  unfolding process_buffer fill_buffer
  full_buffer r g h = ground arith

  nonempty_stuck :
      (r : Reader)
      → is_nil r.buffer ≡ false
      → extract_next_row p r.buffer ≡ ([], r.buffer)
      → process_rows (length r.buffer) p callback r ≡ (r, success)
  nonempty_stuck r n e = go r.buffer refl
    where
      go : (b : Text) → r.buffer ≡ b → process_rows (length r.buffer) p callback r ≡ (r, success)
      go [] k = absurd (let m : true ≡ false = sym (ap is_nil k) ∙ n in cc)
      go (c ∷ b) k = ap (λ z. process_rows (length z) p callback r) k ∙ rows_stuck (length b) r n e

  chunks_hang :
      (body more : Text) (fuel : ℕ) (r : Reader)
      → has_byte p.quote_char body ≡ false
      → length body + 1 ≡ p.buffer_size
      → parse_chunks fuel p callback success (opened (p.quote_char ∷ body ++ more) r) ≡ none
  unfolding parse_chunks
  chunks_hang body more zero r h k = refl
  chunks_hang body more (suc fuel) r h k =
      let text = (q ∷ body) ++ more in
      let r1 : Reader = read p.buffer_size (opened text r) in
      let t : r1.buffer ≡ q ∷ body = take_exact p.buffer_size (q ∷ body) more (omega arith) in
      let g : r1.good ≡ true =
        enough p.buffer_size (length text) (omega (arith, length-append (q ∷ body) more)) in
      let n : is_nil r1.buffer ≡ false = ap is_nil t in
      let x : extract_next_row p r1.buffer ≡ ([], r1.buffer) =
        ap (extract_next_row p) t ∙ extract_open body h ∙ ap (λ z. ([], z)) (sym t) in
      let s = nonempty_stuck r1 n x in
      let first = first_fill p callback text r (omega arith) ∙ s in
      let l : length r1.buffer ≡ p.buffer_size = ap length t ∙ (omega arith) in
      let again = full_buffer r1 g l ∙ s in simp (first, chunks_stuck fuel success r1 g again)

  -- A stream that begins with a quoted field which fills the parser's whole buffer without its closing
  -- quote, and whose encoding is configured or which has at least four bytes: the parse never ends, whatever the
  -- stream has after that.
  pub parse_internal_hangs :
      (body more : Text) (fuel : ℕ) (r : Reader)
      → has_byte p.quote_char body ≡ false
      → length body + 1 ≡ p.buffer_size
      → IsReadable p (p.quote_char ∷ body ++ more)
      → parse_internal fuel p callback (p.quote_char ∷ body ++ more) (record r { buffer = [] })
        ≡ none
  parse_internal_hangs body more fuel r h k readable =
      parse_internal-opened fuel p callback ((q ∷ body) ++ more) r readable
      ∙ chunks_hang body more fuel (decoded p ((q ∷ body) ++ more) r) h k

  extract_whole : (t : Text) → IsPlain q t → t ≢ [] → extract_next_row p t ≡ (t, [])
  unfolding extract_next_row scan_line skip_newlines
  extract_whole t h k =
      let e : scan_line q false t ≡ record { line = t; rest = []; open_quote = false } =
        ap (scan_line q false) (sym (append-nil t))
        ∙ scan_plain q t [] h
        ∙ ap (λ x. record { line = x; rest = []; open_quote = false }) (append-nil t) in
      simp (non_nil t k, e)

  one_row :
      (fuel : ℕ) (t : Text) (r : Reader)
      → IsPlain q t
      → t ≢ []
      → r.buffer ≡ t
      → p.has_header ≡ false
      → Calm callback
      → (process_rows (suc fuel) p callback r).0.delivered
        ≡ r.delivered
          ++ record {
            row_number = u64 (r.current_row_number + 1);
            row_fields = parse_row p t;
            row_headers = r.headers;
          }
            ∷ []
  one_row fuel t r h k b hd cb =
      let n = non_nil t k in
      let x = ap (extract_next_row p) b ∙ extract_whole t h k in
      let d = next_row_delivers p callback r t [] n hd cb in
      ap (λ z. z.0.delivered)
        (process_rows_step p fuel callback r _ t [] (ap is_nil b ∙ n) x n d
          ∙ process_rows_done p fuel callback _ refl)

  -- A stream whose first bytes fill the parser's buffer, with no quote, line feed or carriage return among
  -- them, no header and a callback that does not throw: the first chunk delivers just those bytes as the
  -- first row, whatever follows them in the stream.
  pub process_buffer_cuts :
      (t more : Text) (r : Reader)
      → IsPlain p.quote_char t
      → length t ≡ p.buffer_size
      → 0 < p.buffer_size
      → p.has_header ≡ false
      → Calm callback
      → (process_buffer p callback (opened (t ++ more) r)).0.delivered
        ≡ r.delivered
          ++ record { row_number = 1; row_fields = parse_row p t; row_headers = [] } ∷ []
  process_buffer_cuts [] more r h k z hd cb = absurd (omega arith)
  process_buffer_cuts (c ∷ t) more r h k z hd cb =
      let text = (c ∷ t) ++ more in
      let r1 : Reader = read p.buffer_size (opened text r) in
      let b : r1.buffer ≡ c ∷ t = take_exact p.buffer_size (c ∷ t) more k in
      ap (λ x. x.0.delivered)
        (first_fill p callback text r z ∙ ap (λ x. process_rows (length x) p callback r1) b)
      ∙ one_row (length t) (c ∷ t) r1 h (λ e. cc) b hd cb

  blank_end :
      (fuel : ℕ) (r : Reader) (rest : Text)
      → is_nil r.buffer ≡ false
      → extract_next_row p r.buffer ≡ ([], rest)
      → process_rows (suc fuel) p callback r ≡ (record r { buffer = rest }, success)
  unfolding process_rows
  blank_end fuel r rest n e = simp (n, e)

  extract_blank :
      (s : Text) → is_newline q ≡ false → extract_next_row p (10 ∷ s) ≡ ([], skip_newlines s)
  unfolding extract_next_row skip_newlines
  extract_blank s h = simp (scan_newline q s h)

  -- A stream that begins with a line feed and is shorter than the parser's buffer, when the quote is no
  -- line end and the encoding is configured or there are at least four bytes: the parse ends with success and delivers no row, although rows may follow.
  pub blank_first_loses :
      (text : Text) (fuel : ℕ) (r : Reader)
      → is_newline p.quote_char ≡ false
      → length text + 1 < p.buffer_size
      → IsReadable p (10 ∷ text)
      → (r' : Reader) × (parse_internal (suc fuel) p callback (10 ∷ text) (record r { buffer = [] })
          ≡ some (r', success))
        × (r'.delivered ≡ r.delivered)
  blank_first_loses text fuel r0 h k readable =
      let t = 10 ∷ text in
      let r : Reader = decoded p t r0 in
      let r1 : Reader = read p.buffer_size (opened t r) in
      let b : r1.buffer ≡ t = take_all p.buffer_size t (omega arith) in
      let n : is_nil r1.buffer ≡ false = ap is_nil b in
      let x : extract_next_row p r1.buffer ≡ ([], skip_newlines text) =
        ap (extract_next_row p) b ∙ extract_blank text h in
      let r2 : Reader = record r1 { buffer = skip_newlines text } in
      let first : process_buffer p callback (opened t r) ≡ (r2, success) =
        first_fill p callback t r (omega arith)
        ∙ ap (λ z. process_rows (length z) p callback r1) b
        ∙ blank_end (length text) r1 (skip_newlines text) n x in
      (
        r2,
        parse_internal-opened (suc fuel) p callback t r0 readable
            ∙ chunks_end fuel p callback (opened t r) r2 refl first
                (too_short p.buffer_size (length t) (omega arith)),
        refl,
      )

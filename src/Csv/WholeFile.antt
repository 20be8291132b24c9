-- ===== src/Csv/WholeFile.antt =====
-- The parser on a whole file that the writer wrote, one buffer long at most.
use bb_pipeline.Common.{
  ℕ, zero, suc, ◌≤◌, ◌<◌, ◌≡◌, ◌≢◌, refl, ap, Bool-cases, inl, inr, not, ◌||◌, if◌then◌else◌, true,
  false, [], ◌∷◌, Text, arith, some, length, leb,
}
use bb_pipeline.Csv.{EncodingType, ParserConfig}
use bb_pipeline.Csv.Reading.{
  RowCallback, Reader, success, read, fill_buffer, process_rows, process_buffer, parse_chunks,
  parse_internal, take, detects, byte_order, handle_encoding, detect_encoding,
}

pub take_all : (n : ℕ) (s : Text) → length s ≤ n → take n s ≡ s
unfolding take
take_all zero [] h = refl
take_all zero (c ∷ s) h = absurd (omega arith)
take_all (suc n) [] h = refl
take_all (suc n) (c ∷ s) h = ap (λ x. c ∷ x) (take_all n s (omega arith))

-- The reader at the start of a parse, with nothing left over from the parse before.
abbrev pub opened : Text → Reader → Reader
opened text r = record r {
  buffer = [];
  stream = text;
  good = true;
  headers = [];
  current_row_number = 0;
}

-- A stream that the detection of its encoding does not fail: none is detected, or there are at least four bytes.
abbrev pub IsReadable : ParserConfig → Text → Type 0
IsReadable p text = (not (detects p.encoding) || leb 4 (length text)) ≡ true

abbrev encoding_of : ParserConfig → Text → EncodingType
encoding_of p text = if detects p.encoding then byte_order text else p.encoding

-- The reader once its encoding is known.
abbrev pub decoded : ParserConfig → Text → Reader → Reader
decoded p text r = record r { detected_encoding = encoding_of p text }

pub parse_internal-opened :
    (fuel : ℕ) (p : ParserConfig) (callback : RowCallback) (text : Text) (r : Reader)
    → IsReadable p text
    → parse_internal fuel p callback text (record r { buffer = [] })
      ≡ parse_chunks fuel p callback success (opened text (decoded p text r))
unfolding parse_internal handle_encoding detect_encoding
parse_internal-opened fuel p callback text r h = elim (Bool-cases (detects p.encoding)) [
  | inl t ↦ let e : leb 4 (length text) ≡ true = simp t at h in simp (t, e)
  | inr f ↦ simp f refl
]

-- A shorter stream has failed before the first row is read: nothing is delivered.
pub parse_internal_short :
    (fuel : ℕ) (p : ParserConfig) (callback : RowCallback) (text : Text) (r : Reader)
    → detects p.encoding ≡ true
    → length text < 4
    → parse_internal fuel p callback text (record r { buffer = [] })
      ≡ some (record (opened text (decoded p text r)) { good = false }, success)
unfolding parse_internal handle_encoding detect_encoding parse_chunks
parse_internal_short zero p callback text r h k =
    let f : leb 4 (length text) ≡ false = ground arith in simp (h, f) refl
parse_internal_short (suc fuel) p callback text r h k =
    let f : leb 4 (length text) ≡ false = ground arith in simp (h, f) refl

pub chunks_end :
    (fuel : ℕ) (p : ParserConfig) (callback : RowCallback) (r r' : Reader)
    → r.good ≡ true
    → process_buffer p callback r ≡ (r', success)
    → r'.good ≡ false
    → parse_chunks (suc fuel) p callback success r ≡ some (r', success)
unfolding parse_chunks
chunks_end zero p callback r r' g e h = simp (g, e, h)
chunks_end (suc fuel) p callback r r' g e h = simp (g, e, h)

pub too_short : (n k : ℕ) → k < n → leb n k ≡ false
too_short n k h = ground arith

pub first_fill :
    (p : ParserConfig) (callback : RowCallback) (text : Text) (r : Reader)
    → 0 < p.buffer_size
    → process_buffer p callback (opened text r)
      ≡ process_rows
          (length (read p.buffer_size (opened text r)).buffer)
          p
          callback
          (read p.buffer_size (opened text r))
unfolding process_buffer fill_buffer
first_fill p callback text r h = ground arith

pub some_length : (t : Text) → t ≢ [] → 0 < length t
some_length [] h = absurd (h refl)
some_length (c ∷ t) h = omega arith

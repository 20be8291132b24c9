-- ===== src/Csv/Fuel.antt =====
-- The fuel of the loop of processBuffer.
use bb_pipeline.Common.{
  ℕ, zero, suc, ◌+◌, ◌≤◌, ◌<◌, ◌≡◌, refl, sym, ap, Bool, true, false, not, ◌&&◌, ◌||◌, [], ◌∷◌,
  Text, if◌then◌else◌, ◌==◌, arith, length, Bool-cases, inl, inr,
}
use bb_pipeline.Csv.{ParserConfig}
use bb_pipeline.Csv.Reading.{
  RowCallback, Reader, is_success, scan_line, skip_newlines, extract_next_row, is_nil, process_row,
  process_rows, next_row,
}
use bb_pipeline.Csv.Steps.{process_rows_done}

nil_of : (s : Text) → length s ≤ 0 → s ≡ []
nil_of [] h = refl
nil_of (c ∷ s) h = absurd (omega arith)

scan_length :
    (q : ℕ) (s : Text) (b : Bool)
    → length (scan_line q b s).line + length (scan_line q b s).rest ≡ length s
unfolding scan_line
scan_length q [] b = refl
scan_length q (c ∷ s) b = ground (arith, scan_length q s (if c == q then not b else b))

skip_length : (s : Text) → length (skip_newlines s) ≤ length s
unfolding skip_newlines
skip_length [] = omega arith
skip_length (c ∷ s) = ground (arith, skip_length s)

some_of : (s : Text) → is_nil s ≡ false → 0 < length s
some_of [] h = cc
some_of (c ∷ s) h = omega arith

-- A row that is not empty is taken off the buffer.
extract_shrinks :
    (p : ParserConfig) (buffer : Text)
    → is_nil (extract_next_row p buffer).0 ≡ false
    → length (extract_next_row p buffer).1 < length buffer
unfolding extract_next_row
extract_shrinks p buffer h =
    let l = scan_line p.quote_char false buffer in
    elim (Bool-cases (is_nil buffer || (is_nil l.rest && l.open_quote))) [
      | inl t ↦ absurd (let k : true ≡ false = simp t at h in cc)
      | inr f ↦
          let n : is_nil l.line ≡ false = simp f at h in
          let a = some_of l.line n in
          let b = scan_length p.quote_char buffer false in
          let c = skip_length l.rest in simp f (omega arith)
    ]

next_row-buffer :
    (p : ParserConfig) (callback : RowCallback) (x : Text × Text) (r : Reader)
    → (next_row p callback x r).0.buffer ≡ x.1
unfolding process_row
next_row-buffer p callback x r = ground arith

-- Any two amounts of fuel that are no less than the length of the buffer give the loop of `processBuffer`
-- the same result.
pub process_rows_fuel :
    (n m : ℕ) (p : ParserConfig) (callback : RowCallback) (r : Reader)
    → length r.buffer ≤ n
    → length r.buffer ≤ m
    → process_rows n p callback r ≡ process_rows m p callback r
unfolding process_rows
process_rows_fuel zero m p callback r h k =
    sym (process_rows_done p m callback r (nil_of r.buffer h))
process_rows_fuel (suc n) zero p callback r h k =
    process_rows_done p (suc n) callback r (nil_of r.buffer k)
process_rows_fuel (suc n) (suc m) p callback r h k =
    let x = extract_next_row p r.buffer in
    let y = next_row p callback x r in
    elim (Bool-cases (is_nil r.buffer)) [
      | inl t ↦ simp t
      | inr f ↦ elim (Bool-cases (is_nil x.0)) [
        | inl t ↦ simp (f, t)
        | inr g ↦
            let s = extract_shrinks p r.buffer g in
            let e = next_row-buffer p callback x r in
            let l : length y.0.buffer < length r.buffer = rw e s in
            let ih = process_rows_fuel n m p callback y.0 (omega arith) (omega arith) in
            simp (f, g) (ap (λ z. if not (is_success y.1) && p.strict_mode then y else z) ih)
      ]
    ]

-- ===== src/Csv/Batches.antt =====
-- Batches of rows through the writer: what a success means.
use bb_pipeline.Common.{
  ℕ, ◌≡◌, refl, sym, ap, ◌∙◌, inl, inr, Bool, true, false, Option, none, some, List, [], ◌∷◌, ◌++◌,
  Text, Bool-cases, Option-cases,
}
use mathlib.Core.List.{append_assoc, append-nil}
use bb_pipeline.Csv.Writing.{format_rows}
use bb_pipeline.Csv.Batching.{
  Writer, WriterError, success, is_none, flush_if_needed, write_row_internal, is_ok, write_all,
  write_rows, then_flush,
}
use bb_pipeline.Csv.Conserving.{
  format_rows-append, content, kept, Gains, internal-Gains, flush_if-content, of_some,
}

kept-append : (xs ys : List (List Text)) → kept (xs ++ ys) ≡ kept xs ++ kept ys
unfolding kept
kept-append [] ys = refl
kept-append (x ∷ xs) ys = elim (Bool-cases (is_none x)) [
  | inl t ↦ simp (t, kept-append xs ys)
  | inr f ↦ simp (f, kept-append xs ys)
]

-- One gain after another.
Gains-join :
    (w v u : Writer) (xs ys : List (List Text)) → Gains w xs v → Gains v ys u → Gains w (xs ++ ys) u
Gains-join w v u xs ys (g, c) (h, d) = (
  h
      ∙ ap (λ z. content v ++ format_rows z (kept ys)) c
      ∙ ap (λ z. z ++ format_rows w.config (kept ys)) g
      ∙ append_assoc (content w) (format_rows w.config (kept xs)) (format_rows w.config (kept ys))
      ∙ ap (λ z. content w ++ z)
          (sym (format_rows-append w.config (kept xs) (kept ys))
            ∙ ap (format_rows w.config) (sym (kept-append xs ys))),
  d ∙ c,
)

nothing-Gains : (w : Writer) → Gains w [] w
unfolding kept format_rows
nothing-Gains w = (sym (append-nil (content w)), refl)

all-Gains :
    (accepts : Text → Bool) (now : ℕ) (rows : List (List Text)) (e : WriterError) (w : Writer)
    (x : Writer × WriterError)
    → write_all accepts now rows e w ≡ some x
    → is_ok x.1 ≡ true
    → (is_ok e ≡ true) × Gains w rows x.0
unfolding write_all
all-Gains accepts now [] e w x h k =
    let b : (w, e) ≡ x = of_some (w, e) x h in
    (ap (λ z. is_ok z.1) b ∙ k, rw (sym b) (nothing-Gains w))
all-Gains accepts now (row ∷ rows) e w x h k =
    elim (Option-cases (write_row_internal accepts now row w)) [
      | inl n ↦ absurd (let b : none ≡ some x = rw (n, write_all) at h in cc)
      | inr (y, s) ↦ elim (Bool-cases (is_ok y.1)) [
        | inl t ↦
            let (o, g) = all-Gains accepts now rows e y.0 x (rw t at (rw (s, write_all) at h)) k in
            (o, Gains-join w y.0 x.0 (row ∷ []) rows (internal-Gains accepts now row w y s t) g)
        | inr f ↦ elim (Bool-cases w.config.continue_on_error) [
          | inl c ↦
              let (o, g) =
                all-Gains accepts now rows y.1 y.0 x (rw (f, c) at (rw (s, write_all) at h)) k in
              absurd (let b : false ≡ true = sym f ∙ o in cc)
          | inr c ↦
              let b : some y ≡ some x = rw (f, c) at (rw (s, write_all) at h) in
              absurd (let d : false ≡ true = sym f ∙ ap (λ z. is_ok z.1) (of_some y x b) ∙ k in cc)
        ]
      ]
    ]

then_flush-Gains :
    (accepts : Text → Bool) (now : ℕ) (rows : List (List Text)) (w w' : Writer)
    (o : Option (Writer × WriterError))
    → ((x : Writer × WriterError) → o ≡ some x → is_ok x.1 ≡ true → Gains w rows x.0)
    → then_flush accepts now o ≡ some (w', success)
    → Gains w rows w'
then_flush-Gains accepts now rows w w' none g h =
    absurd (let b : none ≡ some (w', success) = h in cc)
then_flush-Gains accepts now rows w w' (some x) g h = elim (Bool-cases (is_ok x.1)) [
  | inl t ↦
      let b : flush_if_needed accepts x.0 now ≡ (w', success) =
        of_some (flush_if_needed accepts x.0 now) (w', success) (simp t at h) in
      let (c, d) = flush_if-content accepts x.0 now (ap (λ z. z.1) b) in
      let (i, j) = g x refl t in rw (sym (ap (λ z. z.0) b)) (c ∙ i, d ∙ j)
  | inr f ↦
      let b : x ≡ (w', success) = of_some x (w', success) (simp f at h) in
      absurd (let d : false ≡ true = sym f ∙ ap (λ z. is_ok z.1) b in cc)
]

-- If `writeRows` returns with success, then what the stream took and what the buffer holds together are
-- what they were before, followed by the text of every row of the batch that is not empty, in order, and
-- the configuration is as it was, whether the call flushed or not.
pub write_rows-Gains :
    (accepts : Text → Bool) (rows : List (List Text)) (w w' : Writer) (now : ℕ)
    → write_rows accepts rows w now ≡ some (w', success)
    → Gains w rows w'
unfolding write_rows
write_rows-Gains accepts rows w w' now h =
    then_flush-Gains accepts now rows w w' (write_all accepts now rows success w)
      (λ x e k. (all-Gains accepts now rows success w x e k).1) h

-- ===== src/Csv/Conserving.antt =====
-- What the stream and the row buffer of src/csv/batch_writer.cpp hold together, over one call.
use bb_pipeline.Common.{
  ℕ, ◌+◌, ◌≡◌, refl, sym, ap, ◌∙◌, ◌⊎◌, inl, inr, Bool, true, false, not, ◌&&◌, ◌||◌, Option, none,
  some, List, [], ◌∷◌, ◌++◌, Text, if◌then◌else◌, leb, ◌==◌, length, u64, Bool-cases,
}
use mathlib.Core.List.{append_assoc, append-nil}
use bb_pipeline.Csv.Writing.{WriterConfig, row_string, format_rows}
use bb_pipeline.Csv.Batching.{
  Writer, WriterError, success, file_write_error, buffer_overflow, is_none, flush_internal,
  flush_if_needed, oversized, push_row, add_row, write_row_internal, is_ok, should_flush,
  flush_or_block, set_locked, add_flushed, invalid_configuration,
}

pub format_rows-append :
    (w : WriterConfig) (xs ys : List (List Text))
    → format_rows w (xs ++ ys) ≡ format_rows w xs ++ format_rows w ys
unfolding format_rows
format_rows-append w [] ys = refl
format_rows-append w (x ∷ xs) ys =
    let t = row_string w x ++ w.line_ending in
    ap (λ z. t ++ z) (format_rows-append w xs ys)
    ∙ sym (append_assoc t (format_rows w xs) (format_rows w ys))

-- What is on the stream, and then what the buffer still holds.
abbrev pub content : Writer → Text
content w = w.output ++ format_rows w.config w.row_buffer

-- The rows that count: an empty row is skipped.
unfoldable pub kept : List (List Text) → List (List Text)
kept [] = []
kept (row ∷ rows) = let rest = kept rows in if is_none row then rest else row ∷ rest

-- The content after `rows` more, and nothing else of the configuration changed.
abbrev pub Gains : Writer → List (List Text) → Writer → Type 0
Gains w rows w' =
    (content w' ≡ content w ++ format_rows w.config (kept rows)) × (w'.config ≡ w.config)

pub nil_of : (s : Text) → is_none s ≡ true → s ≡ []
nil_of [] h = refl
nil_of (c ∷ s) h = cc

drained : (w : Writer) (s : Text) → w.output ++ s ++ format_rows w.config [] ≡ w.output ++ s
unfolding format_rows
drained w s = append-nil (w.output ++ s)

drained_nil : (w : Writer) → w.output ++ [] ≡ w.output ++ format_rows w.config []
unfolding format_rows
drained_nil w = refl

pub flush-content :
    (accepts : Text → Bool) (w : Writer) (now : ℕ)
    → (flush_internal accepts w now).1 ≡ success
    → (content (flush_internal accepts w now).0 ≡ content w)
      × ((flush_internal accepts w now).0.config ≡ w.config)
unfolding flush_internal
flush-content accepts w now h =
    let text = format_rows w.config w.row_buffer in
    elim (Bool-cases (not w.file_open || is_none w.row_buffer)) [
      | inl t ↦ simp t (refl, refl)
      | inr n ↦ elim (Bool-cases (is_none text)) [
        | inl t ↦
            let e : text ≡ [] = nil_of text t in
            simp (n, t) (sym (drained_nil w) ∙ ap (λ z. w.output ++ z) (sym e), refl)
        | inr m ↦ elim (Bool-cases (accepts text)) [
          | inl t ↦ simp (n, m, t) (drained w text, refl)
          | inr f ↦ absurd (let k : file_write_error ≡ success = simp (n, m, f) at h in cc)
        ]
      ]
    ]

pub flush_if-content :
    (accepts : Text → Bool) (w : Writer) (now : ℕ)
    → (flush_if_needed accepts w now).1 ≡ success
    → (content (flush_if_needed accepts w now).0 ≡ content w)
      × ((flush_if_needed accepts w now).0.config ≡ w.config)
unfolding flush_if_needed
flush_if-content accepts w now h = elim (Bool-cases (should_flush w now)) [
  | inl t ↦ rw t (flush-content accepts w now (rw t at h))
  | inr n ↦ rw n (refl, refl)
]

push_row-content :
    (row : List Text) (w : Writer)
    → content (push_row row w) ≡ content w ++ format_rows w.config (row ∷ [])
push_row-content row w =
    ap (λ z. w.output ++ z) (format_rows-append w.config w.row_buffer (row ∷ []))
    ∙ sym (
        append_assoc w.output (format_rows w.config w.row_buffer) (format_rows w.config (row ∷ [])))

pub of_some {ℓ} : {A : Type ℓ} (x y : A) → some x ≡ some y → x ≡ y
of_some x y h = cc

empty-kept : (row : List Text) → is_none row ≡ true → kept (row ∷ []) ≡ []
unfolding kept
empty-kept row h = simp h

full-kept : (row : List Text) → is_none row ≡ false → kept (row ∷ []) ≡ row ∷ []
unfolding kept
full-kept row h = simp h

of_flushed :
    (row : List Text) (o : Option (Writer × WriterError)) (x : Writer × WriterError)
    → add_flushed row o ≡ some x
    → is_ok x.1 ≡ true
    → (v : Writer) × (o ≡ some (v, success)) × (x.0 ≡ set_locked false (push_row row v))
of_flushed row none x h k = absurd (let b : none ≡ some x = h in cc)
of_flushed row (some (v, success)) x h k =
    (v, refl, sym (ap (λ y. y.0) (of_some (set_locked false (push_row row v), success) x h)))
of_flushed row (some (v, file_write_error)) x h k =
    absurd (let b : false ≡ true = ap (λ y. is_ok y.1) (of_some _ x h) ∙ k in cc)
of_flushed row (some (v, buffer_overflow)) x h k =
    absurd (let b : false ≡ true = ap (λ y. is_ok y.1) (of_some _ x h) ∙ k in cc)
of_flushed row (some (v, invalid_configuration)) x h k =
    absurd (let b : false ≡ true = ap (λ y. is_ok y.1) (of_some _ x h) ∙ k in cc)

-- A flush under the mutex returns only when it has nothing to do.
flush_locked :
    (accepts : Text → Bool) (w : Writer) (now : ℕ) (v : Writer)
    → w.buffer_locked ≡ true
    → flush_or_block accepts w now ≡ some (v, success)
    → v ≡ w
unfolding flush_or_block
flush_locked accepts w now v l h = elim (Bool-cases (not w.file_open || is_none w.row_buffer)) [
  | inl t ↦ sym (ap (λ y. y.0) (of_some (w, success) (v, success) (simp t at h)))
  | inr f ↦ absurd (let b : none ≡ some (v, success) = simp (f, l) at h in cc)
]

add_row-adds :
    (accepts : Text → Bool) (now : ℕ) (row : List Text) (w : Writer) (x : Writer × WriterError)
    → add_row accepts now row w ≡ some x
    → is_ok x.1 ≡ true
    → x.0 ≡ set_locked false (push_row row w)
unfolding add_row
add_row-adds accepts now row w x h k = elim (Bool-cases w.buffer_locked) [
  | inl t ↦ absurd (let b : none ≡ some x = simp t at h in cc)
  | inr f ↦ elim (Bool-cases (leb w.config.max_rows_in_buffer (length w.row_buffer))) [
    | inl t ↦
        let (v, e, y) =
          of_flushed row (flush_or_block accepts (set_locked true w) now) x (simp (f, t) at h) k in
        y
        ∙ ap (λ u. set_locked false (push_row row u))
            (flush_locked accepts (set_locked true w) now v refl e)
    | inr n ↦
        let (v, e, y) = of_flushed row (some (set_locked true w, success)) x (simp (f, n) at h) k in
        y
        ∙ ap (λ u. set_locked false (push_row row u))
            (sym (ap (λ z. z.0) (of_some (set_locked true w, success) (v, success) e)))
  ]
]

-- What `writeRowInternal` returns.
internal_cases :
    (accepts : Text → Bool) (now : ℕ) (row : List Text) (w : Writer) (x : Writer × WriterError)
    → write_row_internal accepts now row w ≡ some x
    → is_ok x.1 ≡ true
    → ((is_none row ≡ true) × (x.0 ≡ record w { rows_skipped = u64 (w.rows_skipped + 1) }))
      ⊎ ((is_none row ≡ false)
          × ((n : ℕ) × (x.0 ≡ set_locked false (push_row row (record w { rows_with_errors = n })))))
unfolding write_row_internal
internal_cases accepts now row w x h k =
    let n = oversized w.config.max_field_size row in
    elim (Bool-cases (is_none row)) [
      | inl t ↦
          let e : (record w { rows_skipped = u64 (w.rows_skipped + 1) }, success) ≡ x =
            of_some _ _ (simp t at h) in
          inl (t, sym (ap (λ y. y.0) e))
      | inr f ↦ elim (Bool-cases (not (n == 0) && not w.config.continue_on_error)) [
        | inl u ↦
            let e : (record w { rows_with_errors = u64 (w.rows_with_errors + 1) }, buffer_overflow)
                ≡ x =
              of_some _ _ (simp (f, u) at h) in
            absurd (let b : false ≡ true = ap (λ y. is_ok y.1) e ∙ k in cc)
        | inr v ↦
            let m = u64 (w.rows_with_errors + n) in
            inr (
              f,
              (
                m,
                add_row-adds accepts now row (record w { rows_with_errors = m }) x
                    (simp (f, v) at h) k,
              ),
            )
      ]
    ]

pub internal-Gains :
    (accepts : Text → Bool) (now : ℕ) (row : List Text) (w : Writer) (x : Writer × WriterError)
    → write_row_internal accepts now row w ≡ some x
    → is_ok x.1 ≡ true
    → Gains w (row ∷ []) x.0
unfolding format_rows
internal-Gains accepts now row w x h k = elim (internal_cases accepts now row w x h k) [
  | inl (t, e) ↦ rw (e, empty-kept row t) (sym (append-nil (content w)), refl)
  | inr (f, (n, e)) ↦
      rw (e, full-kept row f) (push_row-content row (record w { rows_with_errors = n }), refl)
]

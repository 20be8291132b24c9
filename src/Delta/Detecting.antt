-- ===== src/Delta/Detecting.antt =====
-- ChangeDetector::detectFieldByFieldChanges: its records, read as a patch, rebuild the new rows.
use bb_pipeline.Common.{
  ℕ, suc, ◌<◌, ◌≡◌, refl, ap, sym, ◌∙◌, length, length-append, true, false, List, [], ◌∷◌, ◌++◌,
  Text, ◌==◌, arith, ◌⊎◌, inl, inr,
}
use mathlib.Core.List.{append_assoc, append-nil}
use bb_pipeline.Delta.Records.{
  DeltaOperation, Row, DeltaRecord, find_changed_columns, create_insert_record,
  create_delete_record, create_update_record, insert_rows, delete_rows,
  detect_field_by_field_changes,
}
use bb_pipeline.Delta.Patching.{
  concerns, row_after, rows_after, put_at, put_rows, patch, rows_after-skip, changes_from,
}
use bb_pipeline.Delta.Matching.{changes_from-cons}
use bb_pipeline.Delta.Loops.{detect-changes_from}

module _ (sha256 : Text → Text) (now : DeltaOperation → ℕ → Text) where
  insert_rows-quiet :
      (i k : ℕ) (ns : List Row) (o : Row) → row_after (insert_rows sha256 now i ns) k o ≡ o ∷ []
  unfolding insert_rows create_insert_record
  insert_rows-quiet i k [] o = refl
  insert_rows-quiet i k (n ∷ ns) o = insert_rows-quiet (suc i) k ns o

  delete_rows-quiet :
      (i k : ℕ) (os : List Row) (o : Row)
      → k < i
      → row_after (delete_rows sha256 now i os) k o ≡ o ∷ []
  unfolding delete_rows create_delete_record
  delete_rows-quiet i k [] o h = refl
  delete_rows-quiet i k (x ∷ os) o h =
      let f : (i == k) ≡ false = ground arith in
      simp f (delete_rows-quiet (suc i) k os o (omega arith))

  update-quiet :
      (i k : ℕ) (o n : Row) (cs : List ℕ)
      → k < i ⊎ i < k
      → concerns (create_update_record sha256 now i o n cs) k ≡ false
  unfolding create_update_record
  update-quiet i k o n cs h = ground arith

  -- The records from row `i` on leave the rows before it alone.
  changes_from-quiet :
      (i k : ℕ) (os ns : List Row) (o : Row)
      → k < i
      → row_after (changes_from sha256 now i os ns) k o ≡ o ∷ []
  changes_from-quiet i k [] ns o h = insert_rows-quiet i k ns o
  changes_from-quiet i k (x ∷ os) [] o h = delete_rows-quiet i k (x ∷ os) o h
  changes_from-quiet i k (x ∷ os) (n ∷ ns) o h =
      let ih = changes_from-quiet (suc i) k os ns o (omega arith) in
      elim (changes_from-cons sha256 now i x n os ns) [
        | inl (_, e) ↦ ap (λ rs. row_after rs k o) e ∙ ih
        | inr e ↦
            ap (λ rs. row_after rs k o) e
            ∙ simp (update-quiet i k x n (find_changed_columns 0 x n) (inl h)) ih
      ]

  put_at-end : (row : Row) (rows : List Row) → put_at (length rows) row rows ≡ rows ++ row ∷ []
  put_at-end row [] = refl
  put_at-end row (r ∷ rows) = ap (λ t. r ∷ t) (put_at-end row rows)

  -- Insertions from the end of the rows on.
  put-insert_rows :
      (i : ℕ) (ns rows : List Row)
      → length rows ≡ i
      → put_rows (insert_rows sha256 now i ns) rows ≡ rows ++ ns
  unfolding insert_rows create_insert_record
  put-insert_rows i [] rows h = sym (append-nil rows)
  put-insert_rows i (n ∷ ns) rows h =
      ap (λ k. put_rows (insert_rows sha256 now (suc i) ns) (put_at k n rows)) (sym h)
      ∙ ap (put_rows (insert_rows sha256 now (suc i) ns)) (put_at-end n rows)
      ∙ put-insert_rows (suc i) ns (rows ++ n ∷ []) (omega (arith, length-append rows (n ∷ [])))
      ∙ append_assoc rows (n ∷ []) ns

  delete_rows-lem : (i : ℕ) (os : List Row) → rows_after (delete_rows sha256 now i os) i os ≡ []
  unfolding delete_rows create_delete_record
  delete_rows-lem i [] = refl
  delete_rows-lem i (o ∷ os) =
      let t : (i == i) ≡ true = ground arith in
      simp t (
        rows_after-skip (create_delete_record sha256 now i o) (delete_rows sha256 now (suc i) os)
          (suc i) os (λ k le. ground arith)
        ∙ delete_rows-lem (suc i) os)

  put-delete_rows :
      (i : ℕ) (os rows : List Row) → put_rows (delete_rows sha256 now i os) rows ≡ rows
  unfolding delete_rows create_delete_record
  put-delete_rows i [] rows = refl
  put-delete_rows i (o ∷ os) rows = put-delete_rows (suc i) os rows

  -- `before` are the rows before row `i`, patched already.
  patched-changes_from :
      (i : ℕ) (before os ns : List Row)
      → length before ≡ i
      → put_rows
          (changes_from sha256 now i os ns)
          (before ++ rows_after (changes_from sha256 now i os ns) i os)
        ≡ before ++ ns
  unfolding create_update_record
  patched-changes_from i before [] ns h =
      ap (put_rows (insert_rows sha256 now i ns)) (append-nil before)
      ∙ put-insert_rows i ns before h
  patched-changes_from i before (o ∷ os) [] h =
      put-delete_rows i (o ∷ os)
        (before ++ rows_after (delete_rows sha256 now i (o ∷ os)) i (o ∷ os))
      ∙ ap (λ t. before ++ t) (delete_rows-lem i (o ∷ os))
  patched-changes_from i before (o ∷ os) (n ∷ ns) h =
      let rest = changes_from sha256 now (suc i) os ns in
      let all = λ (rs : List DeltaRecord). put_rows rs (before ++ rows_after rs i (o ∷ os)) in
      let later = λ (t : List Row). put_rows rest (before ++ t) in
      let ih : put_rows rest ((before ++ n ∷ []) ++ rows_after rest (suc i) os)
          ≡ (before ++ n ∷ []) ++ ns =
        patched-changes_from (suc i) (before ++ n ∷ []) os ns
          (omega (arith, length-append before (n ∷ []))) in
      let end : later (n ∷ rows_after rest (suc i) os) ≡ before ++ n ∷ ns =
        ap (put_rows rest) (sym (append_assoc before (n ∷ []) (rows_after rest (suc i) os)))
        ∙ ih
        ∙ append_assoc before (n ∷ []) ns in
      elim (changes_from-cons sha256 now i o n os ns) [
        | inl (same, e) ↦
            ap all e
            ∙ ap (λ t. later (t ++ rows_after rest (suc i) os))
                (changes_from-quiet (suc i) i os ns o (omega arith))
            ∙ ap (λ x. later (x ∷ rows_after rest (suc i) os)) same
            ∙ end
        | inr e ↦
            let u = create_update_record sha256 now i o n (find_changed_columns 0 o n) in
            let t : (i == i) ≡ true = ground arith in
            ap all e
            ∙ simp t (
                ap (λ z. later (n ∷ z))
                  (rows_after-skip u rest (suc i) os
                    (λ k le. update-quiet i k o n (find_changed_columns 0 o n) (inr (omega arith))))
                ∙ end)
      ]

-- The records of the comparison by position, applied as a patch to the old rows, rebuild the new rows: each old row
-- is deleted, or updated to the new values, as the record with its index says, and each inserted row is put at the
-- index of its record.
pub patch-detect_field_by_field_changes :
    (sha256 : Text → Text) (now : DeltaOperation → ℕ → Text) (old_rows new_rows : List Row)
    → patch (detect_field_by_field_changes sha256 now old_rows new_rows) old_rows ≡ new_rows
patch-detect_field_by_field_changes sha256 now os ns =
    ap (λ rs. patch rs os) (detect-changes_from sha256 now os ns)
    ∙ patched-changes_from sha256 now 0 [] os ns refl

-- ===== src/Delta/Applying.antt =====
-- DeltaDecompressor::applyDelta on the records of the comparison by position.
use bb_pipeline.Common.{
  ℕ, suc, ◌+◌, ◌≤◌, ◌≡◌, refl, ap, ◌∙◌, List, [], ◌∷◌, Text, length, arith, ltb, false, inl, inr,
}
use bb_pipeline.Delta.Records.{
  DeltaOperation, Row, DeltaRecord, find_changed_columns, create_insert_record,
  create_delete_record, create_update_record, insert_rows, delete_rows,
  detect_field_by_field_changes,
}
use bb_pipeline.Delta.Patching.{apply_records, apply_record, apply_delta, changes_from}
use bb_pipeline.Delta.Matching.{changes_from-cons}
use bb_pipeline.Delta.Loops.{detect-changes_from}

module _ (sha256 : Text → Text) (now : DeltaOperation → ℕ → Text) where
  -- An insert past the end of the rows does nothing.
  apply-create_insert_record :
      (i : ℕ) (base : List Row) (n : Row)
      → length base ≤ i
      → apply_record base (create_insert_record sha256 now i n) ≡ base
  unfolding create_insert_record apply_record
  apply-create_insert_record i base n h =
      let f : ltb i (length base) ≡ false = ground arith in simp f refl

  apply-insert_rows :
      (i : ℕ) (base ns : List Row)
      → length base ≤ i
      → apply_records base (insert_rows sha256 now i ns) ≡ base
  unfolding insert_rows apply_records
  apply-insert_rows i base [] h = refl
  apply-insert_rows i base (n ∷ ns) h =
      ap (λ b. apply_records b (insert_rows sha256 now (suc i) ns))
        (apply-create_insert_record i base n h)
      ∙ apply-insert_rows (suc i) base ns (omega arith)

  apply-delete_rows :
      (i : ℕ) (base os : List Row) → apply_records base (delete_rows sha256 now i os) ≡ base
  unfolding delete_rows create_delete_record apply_records apply_record
  apply-delete_rows i base [] = refl
  apply-delete_rows i base (o ∷ os) = apply-delete_rows (suc i) base os

  apply-update :
      (i : ℕ) (o n : Row) (cs : List ℕ) (base : List Row) (rest : List DeltaRecord)
      → apply_records base (create_update_record sha256 now i o n cs ∷ rest)
        ≡ apply_records base rest
  unfolding create_update_record apply_records apply_record
  apply-update i o n cs base rest = refl

  apply-changes_from :
      (i : ℕ) (base os ns : List Row)
      → length base ≡ i + length os
      → apply_records base (changes_from sha256 now i os ns) ≡ base
  apply-changes_from i base [] ns h = apply-insert_rows i base ns (omega arith)
  apply-changes_from i base (o ∷ os) [] h = apply-delete_rows i base (o ∷ os)
  apply-changes_from i base (o ∷ os) (n ∷ ns) h =
      let ih = apply-changes_from (suc i) base os ns (omega arith) in
      elim (changes_from-cons sha256 now i o n os ns) [
        | inl (_, e) ↦ ap (apply_records base) e ∙ ih
        | inr e ↦
            ap (apply_records base) e
            ∙ apply-update i o n (find_changed_columns 0 o n) base
                (changes_from sha256 now (suc i) os ns)
            ∙ ih
      ]

-- Applying the records of the comparison by position gives back the old rows, whatever the new rows are:
-- updates and deletes are skipped, and appended rows stand past the end.
pub apply_delta-detect_field_by_field_changes :
    (sha256 : Text → Text) (now : DeltaOperation → ℕ → Text) (old_rows new_rows : List Row)
    → apply_delta old_rows (detect_field_by_field_changes sha256 now old_rows new_rows) ≡ old_rows
unfolding apply_delta
apply_delta-detect_field_by_field_changes sha256 now os ns =
    ap (apply_records os) (detect-changes_from sha256 now os ns)
    ∙ apply-changes_from sha256 now 0 os os ns (omega arith)

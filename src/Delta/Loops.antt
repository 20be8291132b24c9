-- ===== src/Delta/Loops.antt =====
-- The three loops of detectFieldByFieldChanges as one recursion over the rows.
use bb_pipeline.Common.{
  ℕ, suc, ◌+◌, ◌≡◌, refl, sym, ap, ◌∙◌, List, [], ◌∷◌, ◌++◌, Text, drop, arith, Bool-cases, inl,
  inr,
}
use mathlib.Core.List.{append-nil}
use bb_pipeline.Delta.Records.{
  DeltaOperation, Row, DeltaRecord, ◌=r◌, find_changed_columns, create_update_record, field_updates,
  insert_rows, delete_rows, min_size, detect_field_by_field_changes,
}
use bb_pipeline.Delta.Patching.{changes_from}
use bb_pipeline.Delta.Matching.{List-empty, nonempty_case}

module _ (sha256 : Text → Text) (now : DeltaOperation → ℕ → Text) where
  min_size-nil : (ns : List Row) → min_size sha256 now [] ns ≡ 0
  min_size-nil ns = ground arith

  min_size-nil_right : (os : List Row) → min_size sha256 now os [] ≡ 0
  min_size-nil_right [] = refl
  min_size-nil_right (o ∷ os) = ground arith

  min_size-cons :
      (o n : Row) (os ns : List Row)
      → min_size sha256 now (o ∷ os) (n ∷ ns) ≡ suc (min_size sha256 now os ns)
  min_size-cons o n os ns = ground arith

  abbrev three_loops : ℕ → ℕ → List Row → List Row → List DeltaRecord
  three_loops i m os ns =
      field_updates sha256 now i os ns
      ++ insert_rows sha256 now (i + m) (drop m ns)
      ++ delete_rows sha256 now (i + m) (drop m os)

  three_loops-zero :
      (i : ℕ) (os ns : List Row)
      → three_loops i 0 os ns
        ≡ field_updates sha256 now i os ns
          ++ insert_rows sha256 now i ns
          ++ delete_rows sha256 now i os
  three_loops-zero i os ns = let e : i + 0 ≡ i = omega arith in rw e refl

  field_updates-cons :
      (i m : ℕ) (o n : Row) (os ns : List Row)
      → three_loops (suc i) m os ns ≡ changes_from sha256 now (suc i) os ns
      → three_loops i (suc m) (o ∷ os) (n ∷ ns) ≡ changes_from sha256 now i (o ∷ os) (n ∷ ns)
  unfolding field_updates
  field_updates-cons i m o n os ns ih =
      let e : i + suc m ≡ suc i + m = omega arith in
      elim (Bool-cases (o =r n)) [
        | inl t ↦ simp t (rw e ih)
        | inr f ↦ elim (List-empty (find_changed_columns 0 o n)) [
          | inl equal ↦ simp (f, equal) (rw e ih)
          | inr (c, r, filled) ↦
              let u = create_update_record sha256 now i o n (find_changed_columns 0 o n) in
              simp f (
                ap
                  (λ t.
                    t
                    ++ insert_rows sha256 now (i + suc m) (drop m ns)
                    ++ delete_rows sha256 now (i + suc m) (drop m os))
                  (nonempty_case (find_changed_columns 0 o n)
                    (field_updates sha256 now (suc i) os ns)
                    (u ∷ field_updates sha256 now (suc i) os ns) c r filled)
                ∙ ap (λ t. u ∷ t) (rw e ih)
                ∙ sym (
                    nonempty_case (find_changed_columns 0 o n)
                      (changes_from sha256 now (suc i) os ns)
                      (u ∷ changes_from sha256 now (suc i) os ns) c r filled))
        ]
      ]

  loops-no_old :
      (i : ℕ) (ns : List Row)
      → field_updates sha256 now i [] ns
          ++ insert_rows sha256 now i ns
          ++ delete_rows sha256 now i []
        ≡ insert_rows sha256 now i ns
  unfolding field_updates delete_rows
  loops-no_old i ns = append-nil (insert_rows sha256 now i ns)

  loops-no_new :
      (i : ℕ) (o : Row) (os : List Row)
      → field_updates sha256 now i (o ∷ os) []
          ++ insert_rows sha256 now i []
          ++ delete_rows sha256 now i (o ∷ os)
        ≡ delete_rows sha256 now i (o ∷ os)
  unfolding field_updates insert_rows
  loops-no_new i o os = refl

  three_loops-changes_from :
      (i : ℕ) (os ns : List Row)
      → three_loops i (min_size sha256 now os ns) os ns ≡ changes_from sha256 now i os ns
  three_loops-changes_from i [] ns =
      ap (λ m. three_loops i m [] ns) (min_size-nil ns)
      ∙ three_loops-zero i [] ns
      ∙ loops-no_old i ns
  three_loops-changes_from i (o ∷ os) [] =
      ap (λ m. three_loops i m (o ∷ os) []) (min_size-nil_right (o ∷ os))
      ∙ three_loops-zero i (o ∷ os) []
      ∙ loops-no_new i o os
  three_loops-changes_from i (o ∷ os) (n ∷ ns) =
      ap (λ m. three_loops i m (o ∷ os) (n ∷ ns)) (min_size-cons o n os ns)
      ∙ field_updates-cons i (min_size sha256 now os ns) o n os ns
          (three_loops-changes_from (suc i) os ns)

  pub detect-changes_from :
      (os ns : List Row)
      → detect_field_by_field_changes sha256 now os ns ≡ changes_from sha256 now 0 os ns
  unfolding detect_field_by_field_changes
  detect-changes_from os ns =
      let m = min_size sha256 now os ns in
      let e : m ≡ 0 + m = omega arith in
      ap
        (λ k.
          field_updates sha256 now 0 os ns
          ++ insert_rows sha256 now k (drop m ns)
          ++ delete_rows sha256 now k (drop m os))
        e
      ∙ three_loops-changes_from 0 os ns

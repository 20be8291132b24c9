-- ===== src/Delta/Patching.antt =====
-- What the records of a comparison by position say of the old rows, and how DeltaDecompressor::applyDelta
-- reads them.
use bb_pipeline.Common.{
  ℕ, zero, suc, ◌≤◌, ◌≡◌, refl, ap, Bool, false, List, [], ◌∷◌, ◌++◌, Text, ◌==◌, ltb,
  if◌then◌else◌, length, arith,
}
use bb_pipeline.Delta.Records.{
  DeltaOperation, insert_op, delete_op, update_op, Row, DeltaRecord, ◌=r◌, find_changed_columns,
  create_update_record, insert_rows, delete_rows,
}

-- `insert(begin() + i, row)`.
abbrev pub insert_at : ℕ → Row → List Row → List Row
insert_at zero row rows = row ∷ rows
insert_at (suc i) row [] = row ∷ []
insert_at (suc i) row (r ∷ rows) = r ∷ insert_at i row rows

-- One round of the loop over the records.
unfoldable pub apply_record : List Row → DeltaRecord → List Row
apply_record result r = elim r.operation [
  | insert_op ↦
      let inserted = insert_at r.row_index r.new_values result in
      if ltb r.row_index (length result)
      then elim r.new_values [ [] ↦ result | _ ∷ _ ↦ inserted ]
      else result
  | _ ↦ result
]

unfoldable pub apply_records : List Row → List DeltaRecord → List Row
apply_records result [] = result
apply_records result (r ∷ rs) = apply_records (apply_record result r) rs

unfoldable pub apply_delta : List Row → List DeltaRecord → List Row
apply_delta base records = apply_records base records

-- The reference: a delete or an update record says what becomes of the old row of its index.
abbrev pub concerns : DeltaRecord → ℕ → Bool
concerns r i = elim r.operation [
  | delete_op ↦ r.row_index == i
  | update_op ↦ r.row_index == i
  | _ ↦ false
]

abbrev pub row_after : List DeltaRecord → ℕ → Row → List Row
row_after [] i o = o ∷ []
row_after (r ∷ rs) i o =
    let later = row_after rs i o in
    if concerns r i then elim r.operation [ delete_op ↦ [] | _ ↦ r.new_values ∷ [] ] else later

abbrev pub rows_after : List DeltaRecord → ℕ → List Row → List Row
rows_after rs i [] = []
rows_after rs i (o ∷ os) = row_after rs i o ++ rows_after rs (suc i) os

-- A row put at an index, if there are that many rows before it.
abbrev pub put_at : ℕ → Row → List Row → List Row
put_at zero row rows = row ∷ rows
put_at (suc i) row [] = []
put_at (suc i) row (r ∷ rows) = r ∷ put_at i row rows

-- The inserted rows are put at their indices, one after the other.
abbrev pub put_rows : List DeltaRecord → List Row → List Row
put_rows [] rows = rows
put_rows (r ∷ rs) rows = elim r.operation [
  | insert_op ↦ put_rows rs (put_at r.row_index r.new_values rows)
  | _ ↦ put_rows rs rows
]

abbrev pub patch : List DeltaRecord → List Row → List Row
patch rs os = put_rows rs (rows_after rs 0 os)

pub rows_after-skip :
    (r : DeltaRecord) (rs : List DeltaRecord) (i : ℕ) (os : List Row)
    → ((k : ℕ) → i ≤ k → concerns r k ≡ false)
    → rows_after (r ∷ rs) i os ≡ rows_after rs i os
rows_after-skip r rs i [] h = refl
rows_after-skip r rs i (o ∷ os) h =
    simp (h i (omega arith)) (
      ap (λ t. row_after rs i o ++ t) (rows_after-skip r rs (suc i) os (λ k le. h k (omega arith))))

module _ (sha256 : Text → Text) (now : DeltaOperation → ℕ → Text) where
  -- The three loops as one recursion from row `i` on.
  abbrev pub changes_from : ℕ → List Row → List Row → List DeltaRecord
  changes_from i [] ns = insert_rows sha256 now i ns
  changes_from i (o ∷ os) [] = delete_rows sha256 now i (o ∷ os)
  changes_from i (o ∷ os) (n ∷ ns) =
      let rest = changes_from (suc i) os ns in
      let columns = find_changed_columns 0 o n in
      let changed = create_update_record sha256 now i o n columns ∷ rest in
      if o =r n then rest else elim columns [ [] ↦ rest | _ ∷ _ ↦ changed ]

-- ===== src/Delta/Records.antt =====
-- DeltaRecord and ChangeDetector of csv/delta_compression.cpp: rows compared by position, by content hash
-- and by key. SHA-256 and the clock are parameters.
use bb_pipeline.Common.{
  ℕ, suc, Bool, true, false, ◌&&◌, List, [], ◌∷◌, ◌++◌, Text, ◌=t◌, Dict, if◌then◌else◌, leb,
  length, drop,
}

pub data DeltaOperation : Type 0 where
  none_op insert_op delete_op update_op move_op : DeltaOperation

abbrev pub Row : Type 0
Row = List Text

pub record DeltaRecord : Type 0 where
  pub operation : DeltaOperation
  pub row_index : ℕ
  pub old_values : Row
  pub new_values : Row
  pub changed_columns : List ℕ
  pub timestamp : Text
  pub change_hash : Text
  pub metadata : Dict Text

-- `operator==` of two rows.
infix 50 ◌=r◌
unfoldable pub ◌=r◌ : Row → Row → Bool
[] =r [] = true
[] =r (y ∷ ys) = false
(x ∷ xs) =r [] = false
(x ∷ xs) =r (y ∷ ys) = x =t y && xs =r ys

-- The indices of the columns past the shorter row.
unfoldable pub extra_columns : ℕ → Row → List ℕ
extra_columns i [] = []
extra_columns i (x ∷ xs) = i ∷ extra_columns (suc i) xs

unfoldable pub find_changed_columns : ℕ → Row → Row → List ℕ
find_changed_columns i [] ys = extra_columns i ys
find_changed_columns i (x ∷ xs) [] = extra_columns i (x ∷ xs)
find_changed_columns i (x ∷ xs) (y ∷ ys) =
    let rest = find_changed_columns (suc i) xs ys in if x =t y then rest else i ∷ rest

-- The fields, each with the separator behind it.
unfoldable pub combined : Row → Text
combined [] = []
combined (x ∷ xs) = x ++ 124 ∷ combined xs

-- The key of a row: its first field, and nothing when no key column is configured.
unfoldable pub generate_key_from_row : List Text → Row → Text
generate_key_from_row [] row = []
generate_key_from_row (c ∷ cs) [] = []
generate_key_from_row (c ∷ cs) (x ∷ xs) = x

-- `sha256` is DeltaUtils::computeSHA256, and `now` the clock's text when the record of an operation on a row is made.
module _ (sha256 : Text → Text) (now : DeltaOperation → ℕ → Text) where
  unfoldable pub generate_row_hash : Row → Text
  generate_row_hash row = sha256 (combined row)

  unfoldable pub create_insert_record : ℕ → Row → DeltaRecord
  create_insert_record index row = record {
    operation = insert_op;
    row_index = index;
    old_values = [];
    new_values = row;
    changed_columns = [];
    timestamp = now insert_op index;
    change_hash = generate_row_hash row;
    metadata = [];
  }

  unfoldable pub create_delete_record : ℕ → Row → DeltaRecord
  create_delete_record index row = record {
    operation = delete_op;
    row_index = index;
    old_values = row;
    new_values = [];
    changed_columns = [];
    timestamp = now delete_op index;
    change_hash = generate_row_hash row;
    metadata = [];
  }

  -- The record with the columns that the detectors set right after making it.
  unfoldable pub create_update_record : ℕ → Row → Row → List ℕ → DeltaRecord
  create_update_record index old_row new_row columns = record {
    operation = update_op;
    row_index = index;
    old_values = old_row;
    new_values = new_row;
    changed_columns = columns;
    timestamp = now update_op index;
    change_hash = sha256 (generate_row_hash old_row ++ generate_row_hash new_row);
    metadata = [];
  }

  -- The loop over the rows that both files have.
  unfoldable pub field_updates : ℕ → List Row → List Row → List DeltaRecord
  field_updates i [] ns = []
  field_updates i (o ∷ os) [] = []
  field_updates i (o ∷ os) (n ∷ ns) =
      let rest = field_updates (suc i) os ns in
      let columns = find_changed_columns 0 o n in
      let changed = create_update_record i o n columns ∷ rest in
      if o =r n then rest else elim columns [ [] ↦ rest | _ ∷ _ ↦ changed ]

  unfoldable pub insert_rows : ℕ → List Row → List DeltaRecord
  insert_rows i [] = []
  insert_rows i (n ∷ ns) = create_insert_record i n ∷ insert_rows (suc i) ns

  unfoldable pub delete_rows : ℕ → List Row → List DeltaRecord
  delete_rows i [] = []
  delete_rows i (o ∷ os) = create_delete_record i o ∷ delete_rows (suc i) os

  abbrev pub min_size : List Row → List Row → ℕ
  min_size os ns = if leb (length os) (length ns) then length os else length ns

  unfoldable pub detect_field_by_field_changes : List Row → List Row → List DeltaRecord
  detect_field_by_field_changes os ns =
      let m = min_size os ns in
      field_updates 0 os ns ++ insert_rows m (drop m ns) ++ delete_rows m (drop m os)

-- ===== src/Delta/Keyed.antt =====
-- ChangeDetector::detectContentHashChanges and detectKeyBasedChanges: rows found again by a text.
use bb_pipeline.Common.{
  ℕ, zero, suc, Bool, true, false, Option, none, some, List, [], ◌∷◌, ◌++◌, Text, Dict, lookup,
  insert, if◌then◌else◌,
}
use bb_pipeline.Delta.Records.{
  DeltaOperation, Row, DeltaRecord, ◌=r◌, find_changed_columns, generate_key_from_row,
  generate_row_hash, create_insert_record, create_delete_record, create_update_record,
}

-- `data[i]`, with the empty row past the end, where the code does not read.
abbrev pub row_at : ℕ → List Row → Row
row_at i [] = []
row_at zero (r ∷ rs) = r
row_at (suc i) (r ∷ rs) = row_at i rs

abbrev pub present : Option ℕ → Bool
present none = false
present (some _) = true

-- `find(key) != end()`.
abbrev pub has_entry : Text → Dict ℕ → Bool
has_entry k m = present (lookup k m)

module _ (key : Row → Text) where
  -- The loop that fills a map from keys to row indices; a later row takes the place of an earlier one.
  unfoldable pub index_rows : ℕ → List Row → Dict ℕ → Dict ℕ
  index_rows i [] m = m
  index_rows i (r ∷ rs) m = index_rows (suc i) rs (insert (key r) i m)

module _ (sha256 : Text → Text) (now : DeltaOperation → ℕ → Text) where
  module _ (key : Row → Text) where
    -- The new rows whose key the old file does not have.
    unfoldable pub hash_inserts : Dict ℕ → ℕ → List Row → List DeltaRecord
    hash_inserts old i [] = []
    hash_inserts old i (n ∷ ns) =
        let rest = hash_inserts old (suc i) ns in
        if has_entry (key n) old then rest else create_insert_record sha256 now i n ∷ rest

    -- The same loop when rows have keys: a row that is there is compared.
    unfoldable pub key_changes : Dict ℕ → List Row → ℕ → List Row → List DeltaRecord
    key_changes old os i [] = []
    key_changes old os i (n ∷ ns) =
        let rest = key_changes old os (suc i) ns in
        elim (lookup (key n) old) [
          | none ↦ create_insert_record sha256 now i n ∷ rest
          | some j ↦
              let o = row_at j os in
              let update = create_update_record sha256 now j o n (find_changed_columns 0 o n) in
              if o =r n then rest else update ∷ rest
        ]

  -- The loop over the old map.
  unfoldable pub removed : Dict ℕ → List Row → Dict ℕ → List DeltaRecord
  removed new os [] = []
  removed new os ((k, j) ∷ m) =
      let rest = removed new os m in
      if has_entry k new then rest else create_delete_record sha256 now j (row_at j os) ∷ rest

  unfoldable pub detect_content_hash_changes : List Row → List Row → List DeltaRecord
  detect_content_hash_changes os ns =
      let key = generate_row_hash sha256 now in
      let old = index_rows key 0 os [] in
      hash_inserts key old 0 ns ++ removed (index_rows key 0 ns []) os old

  unfoldable pub detect_key_based_changes : List Text → List Row → List Row → List DeltaRecord
  detect_key_based_changes key_columns os ns =
      let key = generate_key_from_row key_columns in
      let old = index_rows key 0 os [] in
      key_changes key old os 0 ns ++ removed (index_rows key 0 ns []) os old

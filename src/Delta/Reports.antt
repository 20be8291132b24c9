-- ===== src/Delta/Reports.antt =====
-- The two comparisons by a text, as a whole: which rows they report as inserted and as deleted.
use bb_pipeline.Common.{
  ℕ, ◌≡◌, refl, sym, ap, ◌∙◌, not, ◌&&◌, List, [], ◌∷◌, ◌++◌, Text, eq→text, Dict, lookup, insert,
}
use mathlib.Core.List.{append-nil, append_assoc}
use bb_pipeline.Delta.Records.{
  DeltaOperation, Row, DeltaRecord, generate_key_from_row, generate_row_hash, combined,
}
use bb_pipeline.Delta.Keyed.{
  has_entry, index_rows, hash_inserts, key_changes, removed, detect_content_hash_changes,
  detect_key_based_changes,
}
use bb_pipeline.Delta.Keys.{
  inserted_rows, deleted_rows, inserted_rows-append, deleted_rows-append, has_key, unmatched,
  has_entry-index_rows, Points-index_rows, removed-inserted, hash_inserts-deleted,
  key_changes-deleted, hash_inserts-inserted, key_changes-inserted, removed-deleted,
}

-- The inserted rows are the new rows whose key is not old, in order; the deleted keys are the old ones that are
-- not new.
abbrev pub Reports : (Row → Text) → List Row → List Row → List DeltaRecord → Type 0
Reports key os ns changes =
    (inserted_rows changes ≡ unmatched key os ns)
    × ((k : Text)
        → has_key key k (deleted_rows changes) ≡ (has_key key k os && not (has_key key k ns)))

module _ (sha256 : Text → Text) (now : DeltaOperation → ℕ → Text) (key : Row → Text)
    (os ns : List Row) where
  abbrev old_keys : Dict ℕ
  old_keys = index_rows key 0 os []

  abbrev new_keys : Dict ℕ
  new_keys = index_rows key 0 ns []

  -- A loop that reports the unmatched rows and no deletes, followed by the loop over the old map.
  loops-Reports :
      (found : List DeltaRecord)
      → inserted_rows found ≡ unmatched key os ns
      → deleted_rows found ≡ []
      → Reports key os ns (found ++ removed sha256 now new_keys os old_keys)
  loops-Reports found a b =
      let gone = removed sha256 now new_keys os old_keys in
      (
        inserted_rows-append found gone
            ∙ ap (λ t. inserted_rows found ++ t)
                (removed-inserted key sha256 now new_keys os old_keys)
            ∙ append-nil (inserted_rows found)
            ∙ a,
        λ k.
            ap (has_key key k) (deleted_rows-append found gone ∙ ap (λ t. t ++ deleted_rows gone) b)
            ∙ removed-deleted key sha256 now new_keys os old_keys k
                (Points-index_rows key [] os [] tt)
            ∙ ap (λ c. c && not (has_entry k new_keys)) (has_entry-index_rows key k os)
            ∙ ap (λ c. has_key key k os && not c) (has_entry-index_rows key k ns),
      )

-- The comparison by content hash reports as inserted the new rows whose hash no old row has, in order, and as
-- deleted the hashes that no new row has.
pub detect_content_hash_changes-Reports :
    (sha256 : Text → Text) (now : DeltaOperation → ℕ → Text) (old_rows new_rows : List Row)
    → Reports
        (generate_row_hash sha256 now)
        old_rows
        new_rows
        (detect_content_hash_changes sha256 now old_rows new_rows)
unfolding detect_content_hash_changes
detect_content_hash_changes-Reports sha256 now os ns =
    let key = generate_row_hash sha256 now in
    let old = index_rows key 0 os [] in
    loops-Reports sha256 now key os ns (hash_inserts sha256 now key old 0 ns)
      (hash_inserts-inserted key sha256 now os old 0 ns (λ k. has_entry-index_rows key k os))
      (hash_inserts-deleted key sha256 now old 0 ns)

-- The comparison by key reports as inserted the new rows whose key no old row has, in order, and as deleted the
-- old keys that no new row has.
pub detect_key_based_changes-Reports :
    (sha256 : Text → Text) (now : DeltaOperation → ℕ → Text) (key_columns : List Text)
    (old_rows new_rows : List Row)
    → Reports
        (generate_key_from_row key_columns)
        old_rows
        new_rows
        (detect_key_based_changes sha256 now key_columns old_rows new_rows)
unfolding detect_key_based_changes
detect_key_based_changes-Reports sha256 now key_columns os ns =
    let key = generate_key_from_row key_columns in
    let old = index_rows key 0 os [] in
    loops-Reports sha256 now key os ns (key_changes sha256 now key old os 0 ns)
      (key_changes-inserted key sha256 now os old 0 ns (λ k. has_entry-index_rows key k os))
      (key_changes-deleted key sha256 now old os 0 ns)

combined_collides : (a : Text) → combined ((a ++ 124 ∷ []) ∷ []) ≡ combined (a ∷ [] ∷ [])
unfolding combined
combined_collides a = append_assoc a (124 ∷ []) (124 ∷ [])

-- The separator does not keep the fields apart: when a field that ends in the separator becomes two fields, the
-- second empty, the comparison by content hash reports nothing, for any hash function.
pub detect_content_hash_changes_blind :
    (sha256 : Text → Text) (now : DeltaOperation → ℕ → Text) (a : Text)
    → detect_content_hash_changes sha256 now (((a ++ 124 ∷ []) ∷ []) ∷ []) ((a ∷ [] ∷ []) ∷ []) ≡ []
unfolding detect_content_hash_changes hash_inserts removed index_rows insert lookup
    generate_row_hash
detect_content_hash_changes_blind sha256 now a =
    let e = ap sha256 (combined_collides a) in
    let t =
      eq→text (sha256 (combined ((a ++ 124 ∷ []) ∷ []))) (sha256 (combined (a ∷ [] ∷ []))) e in
    let u =
      eq→text (sha256 (combined (a ∷ [] ∷ []))) (sha256 (combined ((a ++ 124 ∷ []) ∷ [])))
        (sym e) in
    simp (t, u) refl

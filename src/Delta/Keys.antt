-- ===== src/Delta/Keys.antt =====
-- What the comparisons by hash and by key report: the inserted rows and the keys of the deleted ones.
use bb_pipeline.Common.{
  ℕ, suc, ◌≡◌, refl, sym, ap, ◌∙◌, Bool, true, false, not, ◌&&◌, ◌||◌, List, [], ◌∷◌, ◌++◌, Text,
  ◌=t◌, text-eq, eq→text, Dict, lookup, insert, lookup-insert, if◌then◌else◌, length, length-append,
  arith, Bool-cases, inl, inr,
}
use mathlib.Core.Path.{subst}
use mathlib.Core.List.{append_assoc}
use bb_pipeline.Delta.Records.{
  insert_op, DeltaOperation, delete_op, Row, DeltaRecord, create_insert_record,
  create_delete_record, create_update_record,
}
use bb_pipeline.Delta.Keyed.{
  row_at, present, has_entry, index_rows, hash_inserts, key_changes, removed,
}

-- The rows of the delete records.
abbrev pub deleted_rows : List DeltaRecord → List Row
deleted_rows [] = []
deleted_rows (r ∷ rs) =
    let later = deleted_rows rs in elim r.operation [ delete_op ↦ r.old_values ∷ later | _ ↦ later ]

-- The rows that the records insert, in order.
abbrev pub inserted_rows : List DeltaRecord → List Row
inserted_rows [] = []
inserted_rows (r ∷ rs) =
    let later = inserted_rows rs in
    elim r.operation [ insert_op ↦ r.new_values ∷ later | _ ↦ later ]

pub inserted_rows-append :
    (a b : List DeltaRecord) → inserted_rows (a ++ b) ≡ inserted_rows a ++ inserted_rows b
inserted_rows-append [] b = refl
inserted_rows-append (r ∷ a) b = ground (arith, inserted_rows-append a b)

pub deleted_rows-append :
    (a b : List DeltaRecord) → deleted_rows (a ++ b) ≡ deleted_rows a ++ deleted_rows b
deleted_rows-append [] b = refl
deleted_rows-append (r ∷ a) b = ground (arith, deleted_rows-append a b)

has_entry-insert :
    (k j : Text) (v : ℕ) (m : Dict ℕ) → has_entry k (insert j v m) ≡ (j =t k || has_entry k m)
has_entry-insert k j v m =
    ap present (lookup-insert j k v m)
    ∙ elim (Bool-cases (j =t k)) [ inl t ↦ simp t refl | inr f ↦ simp f refl ]

module _ (key : Row → Text) where
  -- Some row has the key.
  abbrev pub has_key : Text → List Row → Bool
  has_key k [] = false
  has_key k (r ∷ rs) = key r =t k || has_key k rs

  -- The rows whose key no row of the other list has.
  abbrev pub unmatched : List Row → List Row → List Row
  unmatched os [] = []
  unmatched os (n ∷ ns) =
      let rest = unmatched os ns in if has_key (key n) os then rest else n ∷ rest

  or_swap : (a b c : Bool) → (a || (b || c)) ≡ ((b || a) || c)
  or_swap true b c = ground arith
  or_swap false true c = refl
  or_swap false false c = refl

  has_entry-index_rows_from :
      (k : Text) (i : ℕ) (rs : List Row) (m : Dict ℕ)
      → has_entry k (index_rows key i rs m) ≡ (has_key k rs || has_entry k m)
  unfolding index_rows
  has_entry-index_rows_from k i [] m = refl
  has_entry-index_rows_from k i (r ∷ rs) m =
      has_entry-index_rows_from k (suc i) rs (insert (key r) i m)
      ∙ ap (λ b. has_key k rs || b) (has_entry-insert k (key r) i m)
      ∙ or_swap (has_key k rs) (key r =t k) (has_entry k m)

  or_false : (a : Bool) → (a || false) ≡ a
  or_false true = refl
  or_false false = refl

  pub has_entry-index_rows :
      (k : Text) (rs : List Row) → has_entry k (index_rows key 0 rs []) ≡ has_key k rs
  unfolding lookup
  has_entry-index_rows k rs = has_entry-index_rows_from k 0 rs [] ∙ or_false (has_key k rs)

  -- Every entry of the map points to a row with its key.
  abbrev pub Points : List Row → Dict ℕ → Type 0
  Points os [] = Unit
  Points os ((k, j) ∷ m) = (key (row_at j os) ≡ k) × Points os m

  Points-insert :
      (os : List Row) (k : Text) (j : ℕ) (m : Dict ℕ)
      → key (row_at j os) ≡ k
      → Points os m
      → Points os (insert k j m)
  unfolding insert
  Points-insert os k j [] e p = (e, tt)
  Points-insert os k j ((i, v) ∷ m) e (q, p) = elim (Bool-cases (i =t k)) [
    | inl t ↦ simp t (e ∙ sym (text-eq i k t), p)
    | inr f ↦ simp f (q, Points-insert os k j m e p)
  ]

  row_at-append :
      (pre : List Row) (r : Row) (rs : List Row) → row_at (length pre) (pre ++ r ∷ rs) ≡ r
  row_at-append [] r rs = refl
  row_at-append (p ∷ pre) r rs = row_at-append pre r rs

  pub Points-index_rows :
      (pre rs : List Row) (m : Dict ℕ)
      → Points (pre ++ rs) m
      → Points (pre ++ rs) (index_rows key (length pre) rs m)
  unfolding index_rows
  Points-index_rows pre [] m p = p
  Points-index_rows pre (r ∷ rs) m p =
      let e : (pre ++ r ∷ []) ++ rs ≡ pre ++ r ∷ rs = append_assoc pre (r ∷ []) rs in
      let size : length (pre ++ r ∷ []) ≡ suc (length pre) =
        omega (arith, length-append pre (r ∷ [])) in
      let m' = insert (key r) (length pre) m in
      let p' =
        Points-insert (pre ++ r ∷ rs) (key r) (length pre) m (ap key (row_at-append pre r rs)) p in
      let next = Points-index_rows (pre ++ r ∷ []) rs m' (rw e p') in
      subst (λ n. Points (pre ++ r ∷ rs) (index_rows key n rs m')) size
        (subst (λ os. Points os (index_rows key (length (pre ++ r ∷ [])) rs m')) e next)

  module _ (sha256 : Text → Text) (now : DeltaOperation → ℕ → Text) where
    pub removed-inserted :
        (new : Dict ℕ) (os : List Row) (m : Dict ℕ)
        → inserted_rows (removed sha256 now new os m) ≡ []
    unfolding removed create_delete_record
    removed-inserted new os [] = refl
    removed-inserted new os ((k, j) ∷ m) = ground (arith, removed-inserted new os m)

    pub hash_inserts-deleted :
        (old : Dict ℕ) (i : ℕ) (ns : List Row)
        → deleted_rows (hash_inserts sha256 now key old i ns) ≡ []
    unfolding hash_inserts create_insert_record
    hash_inserts-deleted old i [] = refl
    hash_inserts-deleted old i (n ∷ ns) = ground (arith, hash_inserts-deleted old (suc i) ns)

    pub key_changes-deleted :
        (old : Dict ℕ) (os : List Row) (i : ℕ) (ns : List Row)
        → deleted_rows (key_changes sha256 now key old os i ns) ≡ []
    unfolding key_changes create_insert_record create_update_record
    key_changes-deleted old os i [] = refl
    key_changes-deleted old os i (n ∷ ns) = ground (arith, key_changes-deleted old os (suc i) ns)

    pub hash_inserts-inserted :
        (os : List Row) (old : Dict ℕ) (i : ℕ) (ns : List Row)
        → ((k : Text) → has_entry k old ≡ has_key k os)
        → inserted_rows (hash_inserts sha256 now key old i ns) ≡ unmatched os ns
    unfolding hash_inserts create_insert_record
    hash_inserts-inserted os old i [] h = refl
    hash_inserts-inserted os old i (n ∷ ns) h =
        ground (arith, h (key n), hash_inserts-inserted os old (suc i) ns h)

    pub key_changes-inserted :
        (os : List Row) (old : Dict ℕ) (i : ℕ) (ns : List Row)
        → ((k : Text) → has_entry k old ≡ has_key k os)
        → inserted_rows (key_changes sha256 now key old os i ns) ≡ unmatched os ns
    unfolding key_changes create_insert_record create_update_record
    key_changes-inserted os old i [] h = refl
    key_changes-inserted os old i (n ∷ ns) h =
        ground (arith, h (key n), key_changes-inserted os old (suc i) ns h)

    -- A key is deleted when it is in the old map and not in the new one.
    pub removed-deleted :
        (new : Dict ℕ) (os : List Row) (m : Dict ℕ) (k : Text)
        → Points os m
        → has_key k (deleted_rows (removed sha256 now new os m))
          ≡ (has_entry k m && not (has_entry k new))
    unfolding removed create_delete_record lookup
    removed-deleted new os [] k p = refl
    removed-deleted new os ((i, j) ∷ m) k (e, p) =
        ground (arith, removed-deleted new os m k p, text-eq i k, e, eq→text i k)

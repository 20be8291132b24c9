-- ===== src/Query/Agreement.antt =====
-- The rows that an index gives and the rows that a scan of the table gives.
use bb_pipeline.Common.{
  ℕ, suc, Bool, true, false, none, some, List, [], ◌∷◌, ◌++◌, Text, Dict, lookup, insert, ◌≡◌, refl,
  sym, ap, ◌∙◌, Bool-cases, Option-cases, inl, inr, ◌=t◌, text-eq, lookup-insert,
  lookup-insert_self, All,
}
use bb_pipeline.Query.Values.{
  equals, Runtime, string_to_query_value, query_value_to_string, is_null_value, compare_values,
  compare_texts,
}
use bb_pipeline.Query.Where.{
  Row, WhereCondition, column_index, cell, named_cell, evaluate_value, evaluate_condition,
  evaluate_loop, evaluate_where,
}
use bb_pipeline.Query.Indexes.{
  IndexManager, ValueRows, QueryError, success, hash_config, or_empty, insert_at, lookup_at,
  push_row_index, index_rows_from, load_table_data, build_hash_index, create_index, has_index,
  find_rows_by_index,
}
use bb_pipeline.Query.Selection.{cons_if, optimized_row_selection, scan_rows, or_scan, select_rows}
use mathlib.Core.Option
use mathlib.Core.List.{append_assoc, append-nil}

-- The rows, counted from `i`, whose field in column `k` is `s`.
abbrev positions : ℕ → Text → ℕ → List Row → List ℕ
positions k s i [] = []
positions k s i (row ∷ rows) = elim (cell k row) [
  | none ↦ positions k s (suc i) rows
  | some v ↦ cons_if (v =t s) i (positions k s (suc i) rows)
]

push_row_index-lookup :
    (v s : Text) (i : ℕ) (m : ValueRows) (is : List ℕ)
    → or_empty (lookup s (push_row_index v i m)) ++ is
      ≡ or_empty (lookup s m) ++ cons_if (v =t s) i is
unfolding push_row_index
push_row_index-lookup v s i m is = elim (Bool-cases (v =t s)) [
  | inl h ↦
      rw (lookup-insert v s (or_empty (lookup v m) ++ (i ∷ [])) m, h, text-eq v s h)
        (append_assoc (or_empty (lookup s m)) (i ∷ []) is)
  | inr h ↦ rw (lookup-insert v s (or_empty (lookup v m) ++ (i ∷ [])) m, h) refl
]

index_rows_from-positions :
    (k : ℕ) (s : Text) (i : ℕ) (rows : List Row) (m : ValueRows)
    → or_empty (lookup s (index_rows_from k i rows m))
      ≡ or_empty (lookup s m) ++ positions k s i rows
unfolding index_rows_from
index_rows_from-positions k s i [] m = sym (append-nil (or_empty (lookup s m)))
index_rows_from-positions k s i (row ∷ rows) m = elim (Option-cases (cell k row)) [
  | inl h ↦ rw (h, index_rows_from, positions) (index_rows_from-positions k s (suc i) rows m)
  | inr (v, h) ↦
      rw (h, index_rows_from, positions)
        (index_rows_from-positions k s (suc i) rows (push_row_index v i m)
          ∙ push_row_index-lookup v s i m (positions k s (suc i) rows))
]

lookup_at-insert_at :
    {V : Type 0} (t c : Text) (v : V) (m : Dict (Dict V))
    → lookup_at t c (insert_at t c v m) ≡ some v
unfolding lookup_at insert_at Option.bind
lookup_at-insert_at t c v m =
    rw (lookup-insert_self t (insert c v (or_empty (lookup t m))) m)
      (lookup-insert_self c v (or_empty (lookup t m)))

-- The field in column `k` is there, is not read as NULL, and reads as a value that prints as it is.
abbrev pub IsStable : Runtime → ℕ → Row → Type 0
IsStable r k row =
    (s : Text) × (cell k row ≡ some s)
    × (is_null_value r (string_to_query_value r s) ≡ false)
    × (query_value_to_string r (string_to_query_value r s) ≡ s)

module _ (r : Runtime) where
  pub evaluate_condition-equals :
      (s : Text) (c : WhereCondition r)
      → c.operator ≡ equals
      → is_null_value r c.value ≡ false
      → is_null_value r (string_to_query_value r s) ≡ false
      → evaluate_condition r s c
        ≡ some
            (query_value_to_string r (string_to_query_value r s) =t query_value_to_string r c.value)
  unfolding evaluate_condition evaluate_value compare_values compare_texts
  evaluate_condition-equals s c o n m = rw (o, n, m) refl

  evaluate_where-one :
      (row : Row) (headers : List Text) (c : WhereCondition r) (s : Text) (b : Bool)
      → named_cell c.column headers row ≡ some s
      → evaluate_condition r s c ≡ some b
      → evaluate_where r row headers (c ∷ []) ≡ some b
  unfolding evaluate_where evaluate_loop
  evaluate_where-one row headers c s b h e = rw (h, e, evaluate_loop) refl

  module _ (headers : List Text) (c : WhereCondition r) (k : ℕ)
      (at_k : column_index c.column headers ≡ some k) (is_eq : c.operator ≡ equals)
      (full : is_null_value r c.value ≡ false) where
    evaluate_where-stable :
        (row : Row) (s : Text)
        → cell k row ≡ some s
        → is_null_value r (string_to_query_value r s) ≡ false
        → query_value_to_string r (string_to_query_value r s) ≡ s
        → evaluate_where r row headers (c ∷ []) ≡ some (s =t query_value_to_string r c.value)
    unfolding named_cell Option.bind
    evaluate_where-stable row s h n e = evaluate_where-one row headers c s _ (rw (at_k, h) refl) (
        evaluate_condition-equals s c is_eq full n
        ∙ ap (λ t. some (t =t query_value_to_string r c.value)) e)

    scan_rows-positions :
        (i : ℕ) (rows : List Row)
        → All (IsStable r k) rows
        → scan_rows r headers (c ∷ []) i rows
          ≡ some (positions k (query_value_to_string r c.value) i rows)
    unfolding scan_rows
    scan_rows-positions i [] h = refl
    scan_rows-positions i (row ∷ rows) ((s, at_s, n, e), h) =
        rw
          (
            evaluate_where-stable row s at_s n e,
            scan_rows,
            scan_rows-positions (suc i) rows h,
            at_s,
            positions,
          )
          refl

or_scan_same : (r : Runtime) (is : List ℕ) → or_scan r is (some is) ≡ some is
or_scan_same r [] = refl
or_scan_same r (i ∷ is) = refl

-- What createIndex leaves for a table that is loaded and has the column.
module _ (table : Text) (headers : List Text) (rows : List Row) (name : Text) (k : ℕ)
    (at_k : column_index name headers ≡ some k) where
  build_hash_index-eq :
      (m : IndexManager)
      → lookup table m.table_data ≡ some rows
      → lookup table m.table_headers ≡ some headers
      → build_hash_index table name m ≡ (
        success,
        record m {
          hash_indexes = insert_at table name (index_rows_from k 0 rows []) m.hash_indexes;
        },
      )
  unfolding build_hash_index insert_at
  build_hash_index-eq m d h = rw (build_hash_index, h, at_k, d) refl

  create_index-eq :
      (m : IndexManager)
      → lookup table m.table_data ≡ some rows
      → lookup table m.table_headers ≡ some headers
      → create_index table (hash_config name) m ≡ (
        success,
        record m {
          index_configs = insert_at table name (hash_config name) m.index_configs;
          hash_indexes = insert_at table name (index_rows_from k 0 rows []) m.hash_indexes;
        },
      )
  unfolding create_index insert_at
  create_index-eq m d h =
      rw (d, create_index)
        (build_hash_index-eq
          (record m { index_configs = insert_at table name (hash_config name) m.index_configs }) d
          h)

module _ (r : Runtime) (table : Text) where
  optimized_row_selection-eq :
      (c : WhereCondition r) (cs : List (WhereCondition r)) (m : IndexManager) (index : ValueRows)
      → c.operator ≡ equals
      → has_index table c.column m ≡ true
      → lookup_at table c.column m.hash_indexes ≡ some index
      → lookup_at table c.column m.btree_indexes ≡ none
      → optimized_row_selection r table (c ∷ cs) m
        ≡ or_empty (lookup (query_value_to_string r c.value) index)
  unfolding optimized_row_selection find_rows_by_index Option.bind
  optimized_row_selection-eq c cs m index o h hash btree =
      elim (Option-cases (lookup (query_value_to_string r c.value) index)) [
        | inl e ↦ rw (o, h, find_rows_by_index, hash, e, btree) refl
        | inr (is, e) ↦ rw (o, h, find_rows_by_index, hash, e) refl
      ]

  module _ (headers : List Text) (rows : List Row) (c : WhereCondition r) (k : ℕ)
      (at_k : column_index c.column headers ≡ some k) (is_eq : c.operator ≡ equals)
      (m₀ : IndexManager) (no_btree : lookup_at table c.column m₀.btree_indexes ≡ none) where
    abbrev pub indexed : IndexManager
    indexed = (create_index table (hash_config c.column) (load_table_data table headers rows m₀)).1

    optimized_row_selection-indexed :
        (cs : List (WhereCondition r))
        → optimized_row_selection r table (c ∷ cs) indexed
          ≡ positions k (query_value_to_string r c.value) 0 rows
    unfolding load_table_data lookup has_index
    optimized_row_selection-indexed cs =
        let m = load_table_data table headers rows m₀ in
        let index = index_rows_from k 0 rows [] in
        let built =
          create_index-eq table headers rows c.column k at_k m
            (lookup-insert_self table rows m₀.table_data)
            (lookup-insert_self table headers m₀.table_headers) in
        ap (λ (p : QueryError × IndexManager). optimized_row_selection r table (c ∷ cs) p.1) built
        ∙ (optimized_row_selection-eq c cs _ index is_eq
              (rw (lookup_at-insert_at table c.column (hash_config c.column) m₀.index_configs) refl)
              (lookup_at-insert_at table c.column index m₀.hash_indexes) no_btree
            ∙ index_rows_from-positions k (query_value_to_string r c.value) 0 rows [])

    -- For a table that is loaded and then indexed by hash on a column, and a `=` condition on that
    -- column whose value is not NULL, when every row has the column, with a field that is not read as
    -- NULL and that prints as it is once read, and the column has no B-tree index: the rows selected
    -- by the index are those of the scan, in the same order.
    pub select_rows-scan_rows :
        is_null_value r c.value ≡ false
        → All (IsStable r k) rows
        → select_rows r table headers rows (c ∷ []) indexed ≡ scan_rows r headers (c ∷ []) 0 rows
    unfolding select_rows
    select_rows-scan_rows full stable =
        rw
          (
            optimized_row_selection-indexed [],
            scan_rows-positions r headers c k at_k is_eq full 0 rows stable,
          )
          (or_scan_same r (positions k (query_value_to_string r c.value) 0 rows))

    -- In the same case, when at least one row satisfies the indexed condition: whatever other
    -- conditions follow it in the clause, the rows selected are those of the indexed condition alone.
    pub select_rows_ignores :
        (i : ℕ) (is : List ℕ) (cs : List (WhereCondition r))
        → is_null_value r c.value ≡ false
        → All (IsStable r k) rows
        → scan_rows r headers (c ∷ []) 0 rows ≡ some (i ∷ is)
        → select_rows r table headers rows (c ∷ cs) indexed ≡ some (i ∷ is)
    unfolding select_rows
    select_rows_ignores i is cs full stable e =
        let found : some (positions k (query_value_to_string r c.value) 0 rows) ≡ some (i ∷ is) =
          sym (scan_rows-positions r headers c k at_k is_eq full 0 rows stable) ∙ e in
        let same : positions k (query_value_to_string r c.value) 0 rows ≡ i ∷ is = cc in
        rw (optimized_row_selection-indexed cs, same) refl

-- ===== src/Query/Selection.antt =====
-- QueryEngine: tables, optimizedRowSelection, and the rows that executeInternal selects and projects.
use bb_pipeline.Common.{
  ℕ, zero, suc, ◌+◌, Bool, true, false, ◌&&◌, Option, none, some, List, [], ◌∷◌, Text, Dict, ◌=t◌,
  codes, insert, map, if◌then◌else◌, length, drop, u64, leb,
}
use bb_pipeline.Query.Values.{SqlOperator, equals, Runtime}
use bb_pipeline.Query.Where.{Row, WhereCondition, named_cell, evaluate_where}
use bb_pipeline.Query.Indexes.{
  IndexManager, hash_config, load_table_data, create_index, has_index, find_rows_by_index,
}
use mathlib.Core.Option

pub record QueryEngine : Type 0 where
  pub table_headers : Dict (List Text)
  pub table_data : Dict (List Row)
  pub index_manager : IndexManager

abbrev pub with_manager : QueryEngine → IndexManager → QueryEngine
with_manager e m = record e { index_manager = m }

-- The first column is indexed if the engine is configured so.
abbrev pub auto_index : Bool → Text → List Text → IndexManager → IndexManager
auto_index false table headers m = m
auto_index true table [] m = m
auto_index true table (h ∷ hs) m = (create_index table (hash_config h) m).1

unfoldable pub register_table : Bool → Text → List Text → List Row → QueryEngine → QueryEngine
register_table auto table headers rows e =
    let m = load_table_data table headers rows e.index_manager in
    record e {
      table_headers = insert table headers e.table_headers;
      table_data = insert table rows e.table_data;
      index_manager = auto_index auto table headers m;
    }

abbrev pub is_equals : SqlOperator → Bool
is_equals equals = true
is_equals _ = false

abbrev pub cons_if : Bool → ℕ → List ℕ → List ℕ
cons_if b i is = if b then i ∷ is else is

module _ (r : Runtime) where
  -- The first `=` condition on an indexed column; none finds no rows.
  unfoldable pub optimized_row_selection : Text → List (WhereCondition r) → IndexManager → List ℕ
  optimized_row_selection table [] m = []
  optimized_row_selection table (c ∷ cs) m =
      let rest = optimized_row_selection table cs m in
      if has_index table c.column m && is_equals c.operator
      then find_rows_by_index r table c.column c.value m
      else rest

  -- The scan of all rows from row `i`; none is an exception.
  unfoldable pub scan_rows : List Text → List (WhereCondition r) → ℕ → List Row → Option (List ℕ)
  scan_rows headers cs i [] = some []
  scan_rows headers cs i (row ∷ rows) =
      let rest = scan_rows headers cs (suc i) rows in
      elim (evaluate_where r row headers cs) [
        | none ↦ none
        | some b ↦ Option.map (cons_if b i) rest
      ]

  abbrev pub all_rows : ℕ → List Row → List ℕ
  all_rows i [] = []
  all_rows i (row ∷ rows) = i ∷ all_rows (suc i) rows

  abbrev pub or_scan : List ℕ → Option (List ℕ) → Option (List ℕ)
  or_scan [] scanned = scanned
  or_scan (i ∷ is) scanned = some (i ∷ is)

  -- `matching_rows` of executeInternal.
  unfoldable pub select_rows :
      Text → List Text → List Row → List (WhereCondition r) → IndexManager → Option (List ℕ)
  select_rows table headers rows [] m = some (all_rows 0 rows)
  select_rows table headers rows (c ∷ cs) m =
      or_scan (optimized_row_selection table (c ∷ cs) m) (scan_rows headers (c ∷ cs) 0 rows)

unfoldable pub row_of : ℕ → List Row → Option Row
row_of i [] = none
row_of zero (row ∷ rows) = some row
row_of (suc i) (row ∷ rows) = row_of i rows

abbrev pub or_blank : Option Text → Text
or_blank none = []
or_blank (some s) = s

-- The fields of the selected columns; `*` alone keeps the row.
abbrev pub is_star : List Text → Bool
is_star (name ∷ []) = name =t codes "*"
is_star _ = false

unfoldable pub project : List Text → List Text → Row → Row
project headers columns row =
    if is_star columns then row else map (λ name. or_blank (named_cell name headers row)) columns

unfoldable pub project_rows : (Row → Row) → List Row → List ℕ → List Row
project_rows f rows [] = []
project_rows f rows (i ∷ is) =
    let rest = project_rows f rows is in
    elim (row_of i rows) [ none ↦ rest | some row ↦ f row ∷ rest ]

abbrev pub take {ℓ} : {A : Type ℓ} → ℕ → List A → List A
take zero xs = []
take (suc n) [] = []
take (suc n) (x ∷ xs) = x ∷ take n xs

abbrev pub min : ℕ → ℕ → ℕ
min a b = if leb a b then a else b

-- QueryResult::slice; `start + limit` is a `size_t`.
unfoldable pub slice : ℕ → ℕ → List Row → List Row
slice offset limit rows =
    let start = min offset (length rows) in
    let end = min (u64 (start + limit)) (length rows) in drop start (take end rows)

-- ===== src/Query/Where.antt =====
-- WhereCondition, how parseWhere joins conditions, and QueryEngine's evaluateCondition and evaluateWhere.
use bb_pipeline.Common.{
  ℕ, zero, suc, Bool, true, false, not, ◌&&◌, ◌||◌, Option, none, some, List, [], ◌∷◌, ◌++◌, Text,
  ◌=t◌, if◌then◌else◌,
}
use bb_pipeline.Query.Values.{
  SqlOperator, equals, less_equal, greater_equal, in_op, not_in, between, Runtime, QueryValue,
  string_to_query_value, compare_values,
}
use mathlib.Core.Option

pub data LogicalOperator : Type 0 where
  and_op : LogicalOperator
  or_op : LogicalOperator
  not_op : LogicalOperator

abbrev pub Row : Type 0
Row = List Text

-- `headers[i] == column` for the first such `i`.
unfoldable pub column_index : Text → List Text → Option ℕ
column_index name [] = none
column_index name (h ∷ hs) =
    let rest = Option.map suc (column_index name hs) in if h =t name then some 0 else rest

unfoldable pub cell : ℕ → Row → Option Text
cell i [] = none
cell zero (f ∷ fs) = some f
cell (suc i) (f ∷ fs) = cell i fs

-- The field of a named column, unless there is no such column or the row is too short.
unfoldable pub named_cell : Text → List Text → Row → Option Text
named_cell name headers row = Option.bind (column_index name headers) (λ i. cell i row)

module _ (r : Runtime) where
  pub record WhereCondition : Type 0 where
    pub column : Text
    pub operator : SqlOperator
    pub value : QueryValue r
    pub in_values : List (QueryValue r)
    pub range_start : QueryValue r
    pub range_end : QueryValue r
    pub pattern : Text
    pub logical_op : LogicalOperator

  -- `query.where.back().logical_op = op`.
  unfoldable pub connect : LogicalOperator → List (WhereCondition) → List (WhereCondition)
  connect op [] = []
  connect op (c ∷ []) = record c { logical_op = op } ∷ []
  connect op (c ∷ d ∷ cs) = c ∷ connect op (d ∷ cs)

  -- The conditions of a clause, each after the first with the keyword before it.
  unfoldable pub parse_chain :
      List WhereCondition → List (LogicalOperator × WhereCondition) → List WhereCondition
  parse_chain cs [] = cs
  parse_chain cs ((op, d) ∷ rest) = parse_chain (connect op cs ++ (d ∷ [])) rest

  unfoldable pub any_equal : QueryValue r → List (QueryValue r) → Option Bool
  any_equal v [] = some false
  any_equal v (w ∷ ws) =
      let rest = any_equal v ws in
      elim (compare_values r v w equals) [ none ↦ none | some true ↦ some true | some false ↦ rest ]

  -- `a && b`, where `b` is not evaluated if `a` is false.
  abbrev pub both : Option Bool → Option Bool → Option Bool
  both none b = none
  both (some false) b = some false
  both (some true) b = b

  unfoldable pub evaluate_value : QueryValue r → WhereCondition → SqlOperator → Option Bool
  evaluate_value v c in_op = any_equal v c.in_values
  evaluate_value v c not_in = Option.map not (any_equal v c.in_values)
  evaluate_value v c between =
      both (compare_values r v c.range_start greater_equal)
        (compare_values r v c.range_end less_equal)
  evaluate_value v c op = compare_values r v c.value op

  unfoldable pub evaluate_condition : Text → WhereCondition → Option Bool
  evaluate_condition s c = evaluate_value (string_to_query_value r s) c c.operator

  abbrev pub combine : LogicalOperator → Bool → Bool → Bool
  combine and_op a b = a && b
  combine or_op a b = a || b
  combine not_op a b = a && not b

  abbrev pub next_result : Bool → LogicalOperator → Bool → Bool → Bool
  next_result true op result b = b
  next_result false op result b = combine op result b

  -- The loop of evaluateWhere from a result; `first` while no condition has been evaluated.
  unfoldable pub evaluate_loop : Row → List Text → Bool → Bool → List WhereCondition → Option Bool
  evaluate_loop row headers first result [] = some result
  evaluate_loop row headers first result (c ∷ cs) = elim (named_cell c.column headers row) [
    | none ↦ evaluate_loop row headers first result cs
    | some s ↦ elim (evaluate_condition s c) [
      | none ↦ none
      | some b ↦ evaluate_loop row headers false (next_result first c.logical_op result b) cs
    ]
  ]

  unfoldable pub evaluate_where : Row → List Text → List WhereCondition → Option Bool
  evaluate_where row headers conditions = evaluate_loop row headers true true conditions

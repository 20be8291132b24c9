-- ===== src/Query/Chains.antt =====
-- What evaluateWhere makes of the conditions that parseWhere joins.
use bb_pipeline.Common.{Bool, ◌&&◌, some, List, [], ◌∷◌, Text, ◌≡◌, refl}
use bb_pipeline.Query.Values.{Runtime}
use bb_pipeline.Query.Where.{
  LogicalOperator, and_op, Row, WhereCondition, named_cell, connect, parse_chain,
  evaluate_condition, evaluate_value, evaluate_loop, evaluate_where,
}

module _ (r : Runtime) (row : Row) (headers : List Text) where
  -- Two conditions whose columns the row has and whose evaluations do not throw, joined by any
  -- connective, the second as it is parsed last: the clause is their conjunction, also for OR.
  pub evaluate_where-parse_chain :
      (op : LogicalOperator) (c d : WhereCondition r) (s t : Text) (a b : Bool)
      → d.logical_op ≡ and_op
      → named_cell c.column headers row ≡ some s
      → named_cell d.column headers row ≡ some t
      → evaluate_condition r s c ≡ some a
      → evaluate_condition r t d ≡ some b
      → evaluate_where r row headers (parse_chain r (c ∷ []) ((op, d) ∷ [])) ≡ some (a && b)
  unfolding evaluate_where evaluate_loop parse_chain connect evaluate_condition evaluate_value
  evaluate_where-parse_chain op c d s t a b o at_c at_d ec ed =
      rw (at_c, ec, evaluate_loop, at_d, ed, o) refl

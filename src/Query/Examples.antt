-- ===== src/Query/Examples.antt =====
-- Runs of the query engine, with doubles that are whole numbers and patterns without wildcards.
use bb_pipeline.Common.{
  ℕ, true, false, some, List, [], ◌∷◌, ◌++◌, Text, codes, ◌≡◌, refl, ◌=t◌, ltb, leb, to_string, All,
  lookup,
}
use bb_pipeline.Query.Values.{
  Runtime, Int64, nonnegative, negative, read_int64, read_sign, in_range, read_digits, digits_value,
  string_to_query_value, query_value_to_string, compare_values, compare_texts, equals, string_value,
  null_value,
}
use bb_pipeline.Query.Where.{
  LogicalOperator, and_op, or_op, Row, WhereCondition, parse_chain, named_cell, column_index, cell,
  evaluate_loop, evaluate_value, evaluate_condition, evaluate_where,
}
use bb_pipeline.Query.Tokens.{tokenize_text, split_tokens}
use bb_pipeline.Query.Indexes.{IndexManager, hash_config, load_table_data, create_index, lookup_at}
use bb_pipeline.Query.Selection.{scan_rows, select_rows, project, project_rows, slice, row_of}
use bb_pipeline.Query.Agreement.{IsStable, select_rows-scan_rows, select_rows_ignores}
use bb_pipeline.Query.Chains.{evaluate_where-parse_chain}
use mathlib.Core.Option

abbrev size : Int64 → ℕ
size (nonnegative n) = n
size (negative n) = 0

abbrev whole : Runtime
whole = record {
  F = ℕ;
  stod = λ s. Option.map size (read_int64 s);
  show_double = λ n. to_string n ++ codes ".000000";
  lt_double = ltb;
  le_double = leb;
  regex = λ p. some (λ s. s =t p);
}

abbrev condition : Text → Text → LogicalOperator → WhereCondition whole
condition name v op = record {
  column = name;
  operator = equals;
  value = string_value v;
  in_values = [];
  range_start = null_value;
  range_end = null_value;
  pattern = [];
  logical_op = op;
}

abbrev header : List Text
header = codes "host" ∷ codes "port" ∷ []

abbrev hosts : List Row
hosts =
    (codes "a" ∷ codes "80" ∷ [])
    ∷ (codes "b" ∷ codes "443" ∷ [])
    ∷ (codes "a" ∷ codes "22" ∷ [])
    ∷ []

abbrev no_tables : IndexManager
no_tables = record {
  table_headers = [];
  table_data = [];
  index_configs = [];
  hash_indexes = [];
  btree_indexes = [];
  fulltext_indexes = [];
}

abbrev host_a : WhereCondition whole
host_a = condition (codes "host") (codes "a") and_op

abbrev port_443 : WhereCondition whole
port_443 = condition (codes "port") (codes "443") and_op

abbrev table : Text
table = codes "scan"

abbrev indexed_hosts : IndexManager
indexed_hosts =
    (create_index table (hash_config (codes "host"))
      (load_table_data table header hosts no_tables)).1

hosts-All-IsStable : All (IsStable whole 0) hosts
unfolding cell string_to_query_value read_int64 read_sign in_range read_digits digits_value
    query_value_to_string to_string ◌=t◌
hosts-All-IsStable = (
  (codes "a", refl, refl, refl),
  ((codes "b", refl, refl, refl), ((codes "a", refl, refl, refl), tt)),
)

scan_a : scan_rows whole header (host_a ∷ []) 0 hosts ≡ some (0 ∷ 2 ∷ [])
unfolding scan_rows evaluate_where evaluate_loop named_cell column_index cell Option.bind
    evaluate_condition evaluate_value compare_values compare_texts string_to_query_value read_int64
    read_sign in_range read_digits digits_value query_value_to_string to_string ◌=t◌
scan_a = refl

host_column : column_index (codes "host") header ≡ some 0
unfolding column_index ◌=t◌
host_column = refl

select_rows-scan_rows_example :
    select_rows whole table header hosts (host_a ∷ []) indexed_hosts
    ≡ scan_rows whole header (host_a ∷ []) 0 hosts
unfolding lookup_at lookup Option.bind
select_rows-scan_rows_example =
    select_rows-scan_rows whole table header hosts host_a 0 host_column refl no_tables refl refl
      hosts-All-IsStable

select_rows_ignores_example :
    select_rows whole table header hosts (host_a ∷ port_443 ∷ []) indexed_hosts ≡ some (0 ∷ 2 ∷ [])
unfolding lookup_at lookup Option.bind
select_rows_ignores_example =
    select_rows_ignores whole table header hosts host_a 0 host_column refl no_tables refl 0 (2 ∷ [])
      (port_443 ∷ []) refl hosts-All-IsStable scan_a

-- A host or a port: the row has the host, but not the port, and is not selected.
evaluate_where-parse_chain_example :
    evaluate_where whole
      (codes "a" ∷ codes "80" ∷ [])
      header
      (parse_chain whole (host_a ∷ []) ((or_op, port_443) ∷ []))
    ≡ some false
unfolding named_cell column_index cell Option.bind evaluate_condition evaluate_value compare_values
    compare_texts string_to_query_value read_int64 read_sign in_range read_digits digits_value
    query_value_to_string to_string ◌=t◌
evaluate_where-parse_chain_example =
    evaluate_where-parse_chain whole (codes "a" ∷ codes "80" ∷ []) header or_op host_a port_443
      (codes "a") (codes "80") true false refl refl refl refl refl

-- An address is read as the number before its second dot.
address-reads :
    query_value_to_string whole (string_to_query_value whole (codes "10.0.0.2")) ≡ codes "10.000000"
unfolding string_to_query_value read_int64 read_sign in_range read_digits digits_value
    query_value_to_string to_string ◌=t◌
address-reads = refl

-- Two rows from the second on, with the selected columns.
sliced :
    slice 1 2 (project_rows (project header (codes "port" ∷ [])) hosts (0 ∷ 1 ∷ 2 ∷ []))
    ≡ (codes "443" ∷ []) ∷ (codes "22" ∷ []) ∷ []
unfolding slice project_rows project row_of ◌=t◌ named_cell column_index cell Option.bind
sliced = refl

tokens : tokenize_text (codes "Ab_1, c") (codes "standard") false ≡ codes "ab_1" ∷ codes "c" ∷ []
unfolding tokenize_text split_tokens ◌=t◌
tokens = refl

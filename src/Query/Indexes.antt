-- ===== src/Query/Indexes.antt =====
-- IndexManager: the tables it keeps, hash and B-tree indexes, and the search for rows by a value.
use bb_pipeline.Common.{
  ℕ, suc, Bool, true, false, Option, none, some, List, [], ◌∷◌, ◌++◌, Text, codes, Dict, lookup,
  insert,
}
use bb_pipeline.Query.Tokens.{tokenize_text}
use bb_pipeline.Query.Values.{Runtime, QueryValue, query_value_to_string}
use bb_pipeline.Query.Where.{Row, column_index, cell}
use mathlib.Core.Option

pub data QueryError : Type 0 where
  success : QueryError
  syntax_error : QueryError
  file_not_found : QueryError
  column_not_found : QueryError
  type_mismatch : QueryError
  index_error : QueryError
  memory_error : QueryError
  io_error : QueryError
  execution_error : QueryError

pub data IndexType : Type 0 where
  no_index : IndexType
  hash_index : IndexType
  btree_index : IndexType
  full_text : IndexType
  composite : IndexType

pub record IndexConfig : Type 0 where
  pub column : Text
  pub kind : IndexType
  pub composite_columns : List Text
  pub max_memory_mb : ℕ
  pub case_sensitive : Bool
  pub tokenizer : Text

-- The configuration of a hash index with the defaults of the declaration.
abbrev pub hash_config : Text → IndexConfig
hash_config name = record {
  column = name;
  kind = hash_index;
  composite_columns = [];
  max_memory_mb = 100;
  case_sensitive = true;
  tokenizer = codes "standard";
}

-- From the values of a column to the rows that have them.
abbrev pub ValueRows : Type 0
ValueRows = Dict (List ℕ)

pub record FullTextIndex : Type 0 where
  pub token_to_rows : ValueRows
  pub tokenizer : Text
  pub case_sensitive : Bool

pub record IndexManager : Type 0 where
  pub table_headers : Dict (List Text)
  pub table_data : Dict (List Row)
  pub index_configs : Dict (Dict IndexConfig)
  pub hash_indexes : Dict (Dict ValueRows)
  pub btree_indexes : Dict (Dict ValueRows)
  pub fulltext_indexes : Dict (Dict FullTextIndex)

-- `m[k]`, which is empty for a missing key.
abbrev pub or_empty {ℓ} : {A : Type ℓ} → Option (List A) → List A
or_empty none = []
or_empty (some xs) = xs

-- `m[table][column] = v`.
unfoldable pub insert_at {ℓ} : {V : Type ℓ} → Text → Text → V → Dict (Dict V) → Dict (Dict V)
insert_at table column v m = insert table (insert column v (or_empty (lookup table m))) m

-- `find(table)`, then `find(column)` in what it found.
unfoldable pub lookup_at {ℓ} : {V : Type ℓ} → Text → Text → Dict (Dict V) → Option V
lookup_at table column m = Option.bind (lookup table m) (λ t. lookup column t)

-- `value_to_rows[value].push_back(row_idx)`.
unfoldable pub push_row_index : Text → ℕ → ValueRows → ValueRows
push_row_index value i index = insert value (or_empty (lookup value index) ++ (i ∷ [])) index

-- The loop over the rows, from row `i`; a row that is too short is left out.
unfoldable pub index_rows_from : ℕ → ℕ → List Row → ValueRows → ValueRows
index_rows_from k i [] index = index
index_rows_from k i (row ∷ rows) index = elim (cell k row) [
  | none ↦ index_rows_from k (suc i) rows index
  | some value ↦ index_rows_from k (suc i) rows (push_row_index value i index)
]

unfoldable pub load_table_data : Text → List Text → List Row → IndexManager → IndexManager
load_table_data table headers rows m = record m {
  table_headers = insert table headers m.table_headers;
  table_data = insert table rows m.table_data;
}

unfoldable pub build_hash_index : Text → Text → IndexManager → QueryError × IndexManager
build_hash_index table column m =
    let rows = or_empty (lookup table m.table_data) in
    elim (column_index column (or_empty (lookup table m.table_headers))) [
      | none ↦ (column_not_found, m)
      | some k ↦ (
        success,
        record m {
          hash_indexes = insert_at table column (index_rows_from k 0 rows []) m.hash_indexes;
        },
      )
    ]

unfoldable pub build_btree_index : Text → Text → IndexManager → QueryError × IndexManager
build_btree_index table column m =
    let rows = or_empty (lookup table m.table_data) in
    elim (column_index column (or_empty (lookup table m.table_headers))) [
      | none ↦ (column_not_found, m)
      | some k ↦ (
        success,
        record m {
          btree_indexes = insert_at table column (index_rows_from k 0 rows []) m.btree_indexes;
        },
      )
    ]

abbrev pub push_tokens : List Text → ℕ → ValueRows → ValueRows
push_tokens [] i index = index
push_tokens (t ∷ ts) i index = push_tokens ts i (push_row_index t i index)

unfoldable pub index_tokens_from : (Text → List Text) → ℕ → ℕ → List Row → ValueRows → ValueRows
index_tokens_from tokens k i [] index = index
index_tokens_from tokens k i (row ∷ rows) index = elim (cell k row) [
  | none ↦ index_tokens_from tokens k (suc i) rows index
  | some text ↦ index_tokens_from tokens k (suc i) rows (push_tokens (tokens text) i index)
]

unfoldable pub build_full_text_index : Text → IndexConfig → IndexManager → QueryError × IndexManager
build_full_text_index table config m =
    let rows = or_empty (lookup table m.table_data) in
    let tokens : Text → List Text =
      λ text. tokenize_text text config.tokenizer config.case_sensitive in
    elim (column_index config.column (or_empty (lookup table m.table_headers))) [
      | none ↦ (column_not_found, m)
      | some k ↦
          let index : FullTextIndex = record {
            token_to_rows = index_tokens_from tokens k 0 rows [];
            tokenizer = config.tokenizer;
            case_sensitive = config.case_sensitive;
          } in
          (
            success,
            record m { fulltext_indexes = insert_at table config.column index m.fulltext_indexes },
          )
    ]

abbrev pub build_index : IndexType → Text → IndexConfig → IndexManager → QueryError × IndexManager
build_index hash_index table config m = build_hash_index table config.column m
build_index btree_index table config m = build_btree_index table config.column m
build_index full_text table config m = build_full_text_index table config m
build_index _ table config m = (index_error, m)

-- The configuration is kept before the index is built, and stays if that fails.
unfoldable pub create_index : Text → IndexConfig → IndexManager → QueryError × IndexManager
create_index table config m = elim (lookup table m.table_data) [
  | none ↦ (file_not_found, m)
  | some rows ↦
      build_index config.kind table config
        (record m { index_configs = insert_at table config.column config m.index_configs })
]

abbrev pub is_some {ℓ} : {A : Type ℓ} → Option A → Bool
is_some none = false
is_some (some a) = true

unfoldable pub has_index : Text → Text → IndexManager → Bool
has_index table column m = is_some (lookup_at table column m.index_configs)

-- The rows of a hash index, else of a B-tree index, else none.
unfoldable pub find_rows_by_index :
    (r : Runtime) → Text → Text → QueryValue r → IndexManager → List ℕ
find_rows_by_index r table column v m =
    let s = query_value_to_string r v in
    elim (Option.bind (lookup_at table column m.hash_indexes) (λ t. lookup s t)) [
      | some rows ↦ rows
      | none ↦ or_empty (Option.bind (lookup_at table column m.btree_indexes) (λ t. lookup s t))
    ]

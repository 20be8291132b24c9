-- ===== src/Orchestrator/Analyzer.antt =====
-- StageDependencyAnalyzer of orchestrator/stage_selector.cpp: the graph of the stages and the order of execution.
pub mod Counting
pub mod Building
pub mod Kahn
pub mod Degrees
pub mod Order
use bb_pipeline.Common.{
  ℕ, zero, suc, ◌+◌, Bool, true, false, Option, none, some, List, [], ◌∷◌, ◌++◌, Text, Dict, lookup,
  insert, length, if◌then◌else◌,
}
use bb_pipeline.Orchestrator.Dependencies.{PipelineStageConfig}

-- An `int`: the number n, or -(n + 1).
pub data ℤ : Type 0 where
  pos negsuc : ℕ → ℤ

abbrev pub decrement : ℤ → ℤ
decrement (pos zero) = negsuc 0
decrement (pos (suc n)) = pos n
decrement (negsuc n) = negsuc (suc n)

abbrev pub increment : ℤ → ℤ
increment (pos n) = pos (suc n)
increment (negsuc zero) = pos 0
increment (negsuc (suc n)) = negsuc n

abbrev pub is_zero : ℤ → Bool
is_zero (pos zero) = true
is_zero _ = false

-- `m[k]` where a missing entry is made with the default value.
abbrev pub entry_or {ℓ} : {V : Type ℓ} → V → Text → Dict V → V
entry_or d k m = elim (lookup k m) [ none ↦ d | some v ↦ v ]

pub record Analyzer : Type 0 where
  pub dependency_graph : Dict (List Text)
  pub reverse_dependency_graph : Dict (List Text)

-- The loop `reverse_dependency_graph_[dep].push_back(stage.id)`.
unfoldable pub add_reverse : Text → List Text → Dict (List Text) → Dict (List Text)
add_reverse id [] m = m
add_reverse id (dep ∷ deps) m = add_reverse id deps (insert dep (entry_or [] dep m ++ id ∷ []) m)

-- The constructor's loop; `stages_map_` has the same keys as the graph, in the same order.
unfoldable pub add_stages : List PipelineStageConfig → Analyzer → Analyzer
add_stages [] a = a
add_stages (s ∷ rest) a = add_stages rest (record {
  dependency_graph = insert s.id s.dependencies a.dependency_graph;
  reverse_dependency_graph = add_reverse s.id s.dependencies a.reverse_dependency_graph;
})

unfoldable pub analyzer : List PipelineStageConfig → Analyzer
analyzer stages =
    add_stages stages (record { dependency_graph = []; reverse_dependency_graph = [] })

-- `in_degree`: 0 for every stage, then one more for each of its dependencies.
unfoldable pub count_dependencies : Text → List Text → Dict ℤ → Dict ℤ
count_dependencies id [] m = m
count_dependencies id (dep ∷ deps) m =
    count_dependencies id deps (insert id (increment (entry_or (pos 0) id m)) m)

unfoldable pub zero_degrees : Dict (List Text) → Dict ℤ → Dict ℤ
zero_degrees [] m = m
zero_degrees ((id, deps) ∷ g) m = zero_degrees g (insert id (pos 0) m)

unfoldable pub add_degrees : Dict (List Text) → Dict ℤ → Dict ℤ
add_degrees [] m = m
add_degrees ((id, deps) ∷ g) m = add_degrees g (count_dependencies id deps m)

-- The stages without dependencies, in the order of iteration.
unfoldable pub initial_queue : Dict ℤ → List Text
initial_queue [] = []
initial_queue ((id, degree) ∷ m) =
    let rest = initial_queue m in if is_zero degree then id ∷ rest else rest

-- The loop over the dependents of a stage that was put out: the degrees, and the queue.
unfoldable pub release_dependents : List Text → Dict ℤ → List Text → Dict ℤ × List Text
release_dependents [] degrees queue = (degrees, queue)
release_dependents (d ∷ ds) degrees queue =
    let degree = decrement (entry_or (pos 0) d degrees) in
    release_dependents ds (insert d degree degrees)
      (if is_zero degree then queue ++ d ∷ [] else queue)

module _ (a : Analyzer) where
  -- Kahn's loop on fuel; `none` is no result of the program.
  unfoldable pub kahn_loop : ℕ → Dict ℤ → List Text → List Text → Option (List Text)
  kahn_loop fuel degrees [] result = some result
  kahn_loop zero degrees (current ∷ queue) result = none
  kahn_loop (suc fuel) degrees (current ∷ queue) result =
      let (degrees', queue') =
        release_dependents (entry_or [] current a.reverse_dependency_graph) degrees queue in
      kahn_loop fuel degrees' queue' (result ++ current ∷ [])

  unfoldable pub in_degrees : Dict ℤ
  in_degrees = add_degrees a.dependency_graph (zero_degrees a.dependency_graph [])

  -- As many rounds as there are stages.
  unfoldable pub topological_sort : Option (List Text)
  topological_sort = kahn_loop (length a.dependency_graph) in_degrees (initial_queue in_degrees) []

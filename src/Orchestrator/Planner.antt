-- ===== src/Orchestrator/Planner.antt =====
-- StageExecutionPlanner of orchestrator/stage_selector.cpp: groups of stages that run in parallel, and the order by
-- priority.
pub mod Levels
pub mod Priorities
pub mod Groups
use bb_pipeline.Common.{
  ℕ, zero, suc, ◌+◌, Bool, true, false, not, ◌&&◌, Option, none, some, List, [], ◌∷◌, ◌++◌, Text,
  ◌=t◌, Dict, lookup, insert, if◌then◌else◌, ltb, ◌==◌,
}
use bb_pipeline.Orchestrator.Dependencies.{
  PipelineStageConfig, PipelineStagePriority, low, normal, high, critical,
}
use bb_pipeline.Orchestrator.Analyzer.{analyzer, topological_sort}

-- `find_if` by the id.
unfoldable pub find_stage : Text → List PipelineStageConfig → Option PipelineStageConfig
find_stage id [] = none
find_stage id (s ∷ rest) = let later = find_stage id rest in if s.id =t id then some s else later

-- The highest level among the dependencies that have one.
unfoldable pub dependency_level : List Text → Dict ℕ → ℕ
dependency_level [] levels = 0
dependency_level (d ∷ deps) levels =
    let rest = dependency_level deps levels in
    elim (lookup d levels) [ none ↦ rest | some l ↦ if ltb rest l then l else rest ]

abbrev pub stage_level : List PipelineStageConfig → Text → Dict ℕ → ℕ
stage_level stages id levels = elim (find_stage id stages) [
  | none ↦ 1
  | some s ↦ suc (dependency_level s.dependencies levels)
]

-- `stage_levels` after the loop over the order.
unfoldable pub assign_levels : List PipelineStageConfig → List Text → Dict ℕ → Dict ℕ
assign_levels stages [] levels = levels
assign_levels stages (id ∷ ids) levels =
    assign_levels stages ids (insert id (stage_level stages id levels) levels)

abbrev pub Groups : Type 0
Groups = List (ℕ × List Text)

-- `levels[l].push_back(id)` on a std::map, which keeps its keys in order.
unfoldable pub add_to_group : ℕ → Text → Groups → Groups
add_to_group l id [] = (l, id ∷ []) ∷ []
add_to_group l id ((m, group) ∷ groups) =
    let rest = add_to_group l id groups in
    if ltb l m
    then (l, id ∷ []) ∷ (m, group) ∷ groups
    else if l == m
    then (m, group ++ id ∷ []) ∷ groups
    else (m, group) ∷ rest

unfoldable pub group_levels : List PipelineStageConfig → List Text → Dict ℕ → Groups → Groups
group_levels stages [] levels groups = groups
group_levels stages (id ∷ ids) levels groups =
    let l = stage_level stages id levels in
    group_levels stages ids (insert id l levels) (add_to_group l id groups)

abbrev pub group_lists : Groups → List (List Text)
group_lists [] = []
group_lists ((l, group) ∷ groups) = group ∷ group_lists groups

unfoldable pub identify_parallel_groups : List PipelineStageConfig → Option (List (List Text))
identify_parallel_groups stages = elim (topological_sort (analyzer stages)) [
  | none ↦ none
  | some order ↦ some (group_lists (group_levels stages order [] []))
]

-- The value of the enumeration.
abbrev pub priority_value : PipelineStagePriority → ℕ
priority_value low = 0
priority_value normal = 1
priority_value high = 2
priority_value critical = 3

-- Whether a stage goes before another: the higher priority first, then the shorter timeout.
abbrev pub goes_before : PipelineStageConfig → PipelineStageConfig → Bool
goes_before a b =
    if not (priority_value a.priority == priority_value b.priority)
    then ltb (priority_value b.priority) (priority_value a.priority)
    else ltb a.timeout b.timeout

-- The comparison of the sort, on ids.
unfoldable pub id_before : List PipelineStageConfig → Text → Text → Bool
id_before stages a b = elim (find_stage a stages) [
  | none ↦ false
  | some sa ↦ elim (find_stage b stages) [ none ↦ false | some sb ↦ goes_before sa sb ]
]

-- std::stable_sort, as an insertion from the left behind all that does not go after.
unfoldable pub insert_id : List PipelineStageConfig → Text → List Text → List Text
insert_id stages x [] = x ∷ []
insert_id stages x (y ∷ ys) =
    let rest = insert_id stages x ys in if id_before stages x y then x ∷ y ∷ ys else y ∷ rest

unfoldable pub stable_sort : List PipelineStageConfig → List Text → List Text → List Text
stable_sort stages [] sorted = sorted
stable_sort stages (x ∷ xs) sorted = stable_sort stages xs (insert_id stages x sorted)

unfoldable pub optimize_execution_order : List PipelineStageConfig → Option (List Text)
optimize_execution_order stages = elim (topological_sort (analyzer stages)) [
  | none ↦ none
  | some order ↦ some (stable_sort stages order [])
]

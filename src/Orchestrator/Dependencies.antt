-- ===== src/Orchestrator/Dependencies.antt =====
-- PipelineDependencyResolver: the search for a circular dependency, on stages by their id.
use bb_pipeline.Common.{
  ℕ, zero, suc, Bool, true, false, Option, none, some, List, [], ◌∷◌, Text, Dict, lookup, insert,
  length,
}

pub data PipelineStagePriority : Type 0 where
  low normal high critical : PipelineStagePriority

-- A stage: its id, the ids that it depends on, its priority and its timeout in seconds.
pub record PipelineStageConfig : Type 0 where
  pub id : Text
  pub dependencies : List Text
  pub priority : PipelineStagePriority
  pub timeout : ℕ

-- `stages_`, of each stage its dependencies.
abbrev pub Stages : Type 0
Stages = Dict (List Text)

-- The constructor's loop `stages_[stage.id] = stage`.
unfoldable pub from_stages : List PipelineStageConfig → Stages → Stages
from_stages [] m = m
from_stages (s ∷ rest) m = from_stages rest (insert s.id s.dependencies m)

-- The colors 1 and 2. White, 0, is the color of a node without an entry: `colors[dep]` makes an entry 0 only
-- right before the call that paints it gray.
pub data Color : Type 0 where
  gray black : Color

abbrev pub Colors : Type 0
Colors = Dict Color

-- What the search returns: a cycle, or the colors at its end. `out_of_fuel` belongs to the model only.
pub data Search : Type 0 where
  found out_of_fuel : Search
  clear : Colors → Search

-- The loop over the dependencies of a node; `search` is the recursive call.
unfoldable pub visit_dependencies : (Text → Colors → Search) → Text → List Text → Colors → Search
visit_dependencies search node [] colors = clear (insert node black colors)
visit_dependencies search node (dep ∷ deps) colors = elim (lookup dep colors) [
  | some gray ↦ found
  | some black ↦ visit_dependencies search node deps colors
  | none ↦ elim (search dep colors) [
    | found ↦ found
    | out_of_fuel ↦ out_of_fuel
    | clear colors' ↦ visit_dependencies search node deps colors'
  ]
]

module _ (stages : Stages) where
  -- The search from a node. The fuel bounds the depth of the calls.
  unfoldable pub detect_circular_dependency_dfs : ℕ → Text → Colors → Search
  detect_circular_dependency_dfs zero node colors = out_of_fuel
  detect_circular_dependency_dfs (suc fuel) node colors =
      let painted = insert node gray colors in
      elim (lookup node stages) [
        | none ↦ clear (insert node black painted)
        | some deps ↦ visit_dependencies (detect_circular_dependency_dfs fuel) node deps painted
      ]

  -- The loop over the stages that are not painted yet.
  unfoldable pub search_stages : ℕ → Stages → Colors → Option Bool
  search_stages fuel [] colors = some false
  search_stages fuel ((id, deps) ∷ rest) colors = elim (lookup id colors) [
    | some _ ↦ search_stages fuel rest colors
    | none ↦ elim (detect_circular_dependency_dfs fuel id colors) [
      | found ↦ some true
      | out_of_fuel ↦ none
      | clear colors' ↦ search_stages fuel rest colors'
    ]
  ]

  -- One call more than there are stages is deep enough.
  unfoldable pub has_circular_dependency : Option Bool
  has_circular_dependency = search_stages (suc (length stages)) stages []

  abbrev stage_ids : Stages → List Text
  stage_ids [] = []
  stage_ids ((id, deps) ∷ rest) = id ∷ stage_ids rest

  unfoldable pub get_circular_dependencies : Option (List Text)
  get_circular_dependencies = elim has_circular_dependency [
    | some true ↦ some (stage_ids stages)
    | some false ↦ some []
    | none ↦ none
  ]

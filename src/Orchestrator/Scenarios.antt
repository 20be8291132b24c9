-- ===== src/Orchestrator/Scenarios.antt =====
-- Runs of the analyzer and the planner: a scan that needs a probe, which needs a list of subdomains.
use bb_pipeline.Common.{◌≡◌, refl, some, List, [], ◌∷◌, codes, Text, lookup, insert, ◌=t◌}
use bb_pipeline.Orchestrator.Dependencies.{
  PipelineStageConfig, PipelineStagePriority, low, normal, high,
}
use bb_pipeline.Orchestrator.Analyzer.{
  analyzer, add_stages, add_reverse, topological_sort, kahn_loop, release_dependents, in_degrees,
  add_degrees, zero_degrees, count_dependencies, initial_queue,
}
use bb_pipeline.Orchestrator.Analyzer.Building.{Distinct, WellBuilt-analyzer}
use bb_pipeline.Orchestrator.Analyzer.Order.{Sorts, topological_sort-Sorts}
use bb_pipeline.Orchestrator.Planner.{
  optimize_execution_order, stable_sort, insert_id, id_before, find_stage, identify_parallel_groups,
  group_levels, add_to_group, dependency_level,
}
use bb_pipeline.Orchestrator.Planner.Groups.{Layers, identify_parallel_groups-Layers}
use bb_pipeline.Orchestrator.Planner.Priorities.{Optimizes, optimize_execution_order-Optimizes}

abbrev stage : Text → List Text → PipelineStagePriority → PipelineStageConfig
stage id deps p = record { id = id; dependencies = deps; priority = p; timeout = 300 }

abbrev pipeline : List PipelineStageConfig
pipeline =
    stage (codes "scan") (codes "probe" ∷ []) high
    ∷ stage (codes "probe") (codes "subs" ∷ []) normal
    ∷ stage (codes "subs") [] low
    ∷ []

pipeline-Distinct : Distinct pipeline
unfolding ◌=t◌
pipeline-Distinct = ((refl, (refl, tt)), ((refl, tt), (tt, tt)))

pipeline_order :
    topological_sort (analyzer pipeline) ≡ some (codes "subs" ∷ codes "probe" ∷ codes "scan" ∷ [])
unfolding topological_sort kahn_loop release_dependents in_degrees add_degrees zero_degrees
    count_dependencies initial_queue analyzer add_stages add_reverse lookup insert ◌=t◌
pipeline_order = refl

topological_sort-Sorts_example :
    Sorts
      (analyzer pipeline)
      (WellBuilt-analyzer pipeline pipeline-Distinct)
      (topological_sort (analyzer pipeline))
topological_sort-Sorts_example = topological_sort-Sorts pipeline pipeline-Distinct

-- Optimised by priority, every stage runs before what it depends on.
pipeline_optimised :
    optimize_execution_order pipeline ≡ some (codes "scan" ∷ codes "probe" ∷ codes "subs" ∷ [])
unfolding optimize_execution_order stable_sort insert_id id_before find_stage topological_sort
    kahn_loop release_dependents in_degrees add_degrees zero_degrees count_dependencies
    initial_queue analyzer add_stages add_reverse lookup insert ◌=t◌
pipeline_optimised = refl

optimize_execution_order-Optimizes_example :
    Optimizes pipeline (topological_sort (analyzer pipeline)) (optimize_execution_order pipeline)
optimize_execution_order-Optimizes_example =
    optimize_execution_order-Optimizes pipeline pipeline-Distinct

pipeline_groups :
    identify_parallel_groups pipeline
    ≡ some ((codes "subs" ∷ []) ∷ (codes "probe" ∷ []) ∷ (codes "scan" ∷ []) ∷ [])
unfolding identify_parallel_groups group_levels add_to_group dependency_level find_stage
    topological_sort kahn_loop release_dependents in_degrees add_degrees zero_degrees
    count_dependencies initial_queue analyzer add_stages add_reverse lookup insert ◌=t◌
pipeline_groups = refl

identify_parallel_groups-Layers_example :
    Layers pipeline (topological_sort (analyzer pipeline)) (identify_parallel_groups pipeline)
identify_parallel_groups-Layers_example = identify_parallel_groups-Layers pipeline pipeline-Distinct

-- ===== src/Orchestrator/Examples.antt =====
-- Runs of the dependency search and of the kill switch.
use bb_pipeline.Common.{
  lookup, insert, ◌=t◌, ◌≡◌, ◌≤◌, ◌≢◌, ◌⊎◌, refl, true, false, some, [], ◌∷◌, codes,
}
use bb_pipeline.Orchestrator.Dependencies.{
  Stages, has_circular_dependency, search_stages, detect_circular_dependency_dfs,
  visit_dependencies,
}
use bb_pipeline.Orchestrator.Decision.{Decides, has_circular_dependency-Decides}
use bb_pipeline.Orchestrator.KillSwitch.{
  KillSwitch, inactive, stopping_tasks, finalizing, completed, user_request, no_thread, begun,
  trigger, terminated, start_thread, PhaseResult, work, waits, trigger_to_string,
}
use bb_pipeline.Orchestrator.KillSwitch.Steps.{
  trigger_call, call, Step, Steps, here, later, called, worked, phase_value, is_leaving,
}
use bb_pipeline.Orchestrator.KillSwitch.Runs.{
  IsFresh, ResetEnds, shutdown_in_order, calls_never_terminate,
}
use bb_pipeline.Orchestrator.KillSwitch.Blocking.{
  pending, reset_deadlocks, IsLost, cancel_shutdown-IsLost,
}
use bb_pipeline.Orchestrator.KillSwitch.Shutdown.{Results, plain_result, shutdown_end}

-- scan needs probe, probe needs subfinder, subfinder needs scan.
abbrev circular : Stages
circular =
    (codes "scan", codes "probe" ∷ [])
    ∷ (codes "probe", codes "subfinder" ∷ [])
    ∷ (codes "subfinder", codes "missing" ∷ codes "scan" ∷ [])
    ∷ []

circular_run : has_circular_dependency circular ≡ some true
unfolding has_circular_dependency search_stages detect_circular_dependency_dfs visit_dependencies
    lookup insert ◌=t◌
circular_run = refl

has_circular_dependency-Decides_example : Decides circular (has_circular_dependency circular)
has_circular_dependency-Decides_example = has_circular_dependency-Decides circular

abbrev fresh : KillSwitch
fresh = record {
  enabled = true;
  triggered = false;
  shutting_down = false;
  shutdown_completed = false;
  current_phase = inactive;
  current_trigger = user_request;
  trigger_details = [];
  force_immediate_stop = false;
  preserve_partial_results = true;
  total_triggers = 0;
  successful_shutdowns = 0;
  timeout_shutdowns = 0;
  forced_shutdowns = 0;
  total_states_saved = 0;
  total_state_size_bytes = 0;
  state_save_failures = 0;
  preserved_state_files = [];
  recent_trigger_reasons = [];
  phase_execution_history = [];
  worker = no_thread;
  resetting = false;
}

fresh-IsFresh : IsFresh fresh
fresh-IsFresh = record { untriggered = refl; unfinished = refl; phase = refl; idle = refl }

abbrev armed : KillSwitch
armed = record fresh {
  triggered = true;
  trigger_details = codes "stop";
  total_triggers = 1;
  recent_trigger_reasons = codes "USER_REQUEST: stop" ∷ [];
  worker = begun;
}

triggering : Steps false true fresh armed
unfolding call trigger start_thread trigger_to_string
triggering = later here (called (trigger_call user_request (codes "stop")) refl refl refl)

shutdown_in_order_example :
    (armed.shutdown_completed ≡ true → is_leaving armed.worker ≡ true)
    × ((k' : KillSwitch)
        → Step false true armed k'
        → (phase_value armed.current_phase ≤ phase_value k'.current_phase) ⊎ ResetEnds armed k')
shutdown_in_order_example = shutdown_in_order fresh armed fresh-IsFresh triggering

calls_never_terminate_example : call (trigger_call user_request []) armed ≢ terminated
calls_never_terminate_example =
    calls_never_terminate fresh armed (trigger_call user_request []) fresh-IsFresh triggering refl

abbrev stopped_tasks : PhaseResult
stopped_tasks = plain_result true

waiting :
    Steps true false
      (record armed { resetting = true })
      (work stopped_tasks (record armed { resetting = true }))
unfolding waits
waiting = later here (worked stopped_tasks refl)

reset_deadlocks_example :
    ((work stopped_tasks (record armed { resetting = true })).resetting ≡ true)
    × (pending (work stopped_tasks (record armed { resetting = true })).worker ≡ true)
reset_deadlocks_example =
    reset_deadlocks armed (work stopped_tasks (record armed { resetting = true })) refl waiting

cancel_shutdown-IsLost_example : IsLost armed
cancel_shutdown-IsLost_example = cancel_shutdown-IsLost armed refl refl refl

-- A task that does not stop: no state is saved.
abbrev stubborn : Results
stubborn = record { stopped = false; preserved = plain_result true; cleaned = true }

stubborn_phases :
    (shutdown_end stubborn armed).phase_execution_history
    ≡ stopping_tasks ∷ finalizing ∷ completed ∷ completed ∷ []
stubborn_phases = refl

-- ===== src/Orchestrator/KillSwitch/Shutdown.antt =====
-- The phases of `executeShutdown`: the loops over the callbacks, and the run of a thread that nobody disturbs.
use bb_pipeline.Common.{
  ℕ, zero, suc, ◌+◌, Bool, true, false, not, ◌&&◌, ◌||◌, List, [], ◌∷◌, ◌++◌, if◌then◌else◌, u64,
  Option, none, some, Text,
}
use bb_pipeline.Orchestrator.KillSwitch.{
  last_fifty, KillSwitch, KillSwitchPhase, stopping_tasks, saving_state, cleanup, finalizing,
  completed, PhaseResult, record_states, Worker, begun, saving, cleaning, ended, work,
}

-- A callback when its turn comes: the phase's time is over, or it returns, or it throws.
pub data Turn {ℓ} (A : Type ℓ) : Type ℓ where
  too_late threw : Turn A
  returned : A → Turn A

-- The loop over the task callbacks; each returns whether its tasks stopped.
unfoldable pub stop_running_tasks : List (Turn Bool) → Bool
stop_running_tasks [] = true
stop_running_tasks (turn ∷ turns) =
    let rest = stop_running_tasks turns in
    elim turn [ too_late ↦ false | threw ↦ false | returned stopped ↦ stopped && rest ]

-- The loop over the state callbacks: the sizes of the snapshots, the number of callbacks that threw, and whether none
-- threw or came too late.
unfoldable pub collect_snapshots : List (Turn (Option ℕ)) → List ℕ × ℕ × Bool
collect_snapshots [] = ([], 0, true)
collect_snapshots (turn ∷ turns) =
    let (sizes, failures, all_preserved) = collect_snapshots turns in
    elim turn [
      | too_late ↦ ([], 0, false)
      | threw ↦ (sizes, suc failures, false)
      | returned none ↦ (sizes, failures, all_preserved)
      | returned (some size) ↦ (size ∷ sizes, failures, all_preserved)
    ]

-- The snapshots are written to a file when there are any; `saved` is what the writing to it returns.
unfoldable pub preserve_current_state : Bool → Text → List (Turn (Option ℕ)) → PhaseResult
preserve_current_state saved file turns =
    let (sizes, failures, all_preserved) = collect_snapshots turns in
    elim sizes [
      | [] ↦ record { ok = all_preserved; sizes = []; failures = failures; files = [] }
      | size ∷ more ↦ record {
        ok = saved && all_preserved;
        sizes = size ∷ more;
        failures = failures;
        files = if saved then file ∷ [] else [];
      }
    ]

unfoldable pub execute_cleanup_operations : List (Turn (Unit {0})) → Bool
execute_cleanup_operations [] = true
execute_cleanup_operations (turn ∷ turns) =
    let rest = execute_cleanup_operations turns in
    elim turn [ too_late ↦ false | threw ↦ false | returned _ ↦ rest ]

-- The callbacks of a shutdown.
pub record Callbacks : Type 0 where
  pub tasks : List (Turn Bool)
  pub states : List (Turn (Option ℕ))
  pub saved : Bool
  pub state_file : Text
  pub cleanups : List (Turn (Unit {0}))

-- What the phases return.
pub record Results : Type 0 where
  pub stopped : Bool
  pub preserved : PhaseResult
  pub cleaned : Bool

unfoldable pub results_of : Callbacks → Results
results_of c = record {
  stopped = stop_running_tasks c.tasks;
  preserved = preserve_current_state c.saved c.state_file c.states;
  cleaned = execute_cleanup_operations c.cleanups;
}

-- A phase that saves no state.
abbrev pub plain_result : Bool → PhaseResult
plain_result b = record { ok = b; sizes = []; failures = 0; files = [] }

-- What the phase that the thread is in leads to.
abbrev pub phase_result : Results → Worker → PhaseResult
phase_result r (saving _) = r.preserved
phase_result r (cleaning _) = plain_result r.cleaned
phase_result r _ = plain_result r.stopped

-- The thread's first `n` steps, when no other thread acts.
unfoldable pub execute_shutdown : ℕ → Results → KillSwitch → KillSwitch
execute_shutdown zero r k = k
execute_shutdown (suc n) r k = execute_shutdown n r (work (phase_result r k.worker) k)

-- Elements appended one at a time.
abbrev pushed : List KillSwitchPhase → List KillSwitchPhase → List KillSwitchPhase
pushed h [] = h
pushed h (p ∷ ps) = pushed (h ++ p ∷ []) ps

abbrev when : Bool → List KillSwitchPhase → List KillSwitchPhase
when b ps = if b then ps else []

-- Whether each phase runs, and the success at its end, from `force_immediate_stop`, `preserve_partial_results` and the
-- results of the phases.
module _ (force preserve : Bool) (r : Results) where
  abbrev pub tasks_ok : Bool
  tasks_ok = force || r.stopped

  abbrev pub saves : Bool
  saves = tasks_ok && preserve

  abbrev pub state_ok : Bool
  state_ok = if saves then r.preserved.ok else tasks_ok

  abbrev pub cleans : Bool
  cleans = state_ok || force

  abbrev pub succeeds : Bool
  succeeds = if cleans then r.cleaned && state_ok else state_ok

  -- The phases that the shutdown enters, in order.
  abbrev pub phases : List KillSwitchPhase
  phases =
      when (not force) (stopping_tasks ∷ [])
      ++ (when saves (saving_state ∷ [])
          ++ (when cleans (cleanup ∷ []) ++ finalizing ∷ completed ∷ completed ∷ []))

-- The end of a shutdown that nobody disturbs; `joined` puts the phases behind the history.
abbrev end_of :
    (List KillSwitchPhase → List KillSwitchPhase → List KillSwitchPhase)
    → Results
    → KillSwitch
    → KillSwitch
end_of joined r k =
    let success = succeeds k.force_immediate_stop k.preserve_partial_results r in
    let saved =
      if saves k.force_immediate_stop k.preserve_partial_results r
      then record_states r.preserved k
      else k in
    record saved {
      shutting_down = true;
      shutdown_completed = true;
      current_phase = completed;
      phase_execution_history = last_fifty (
          joined k.phase_execution_history
            (phases k.force_immediate_stop k.preserve_partial_results r));
      successful_shutdowns =
          if success then u64 (k.successful_shutdowns + 1) else k.successful_shutdowns;
      timeout_shutdowns = if success then k.timeout_shutdowns else u64 (k.timeout_shutdowns + 1);
      worker = ended;
    }

abbrev pub shutdown_end : Results → KillSwitch → KillSwitch
shutdown_end = end_of (λ h ps. h ++ ps)

abbrev results : Bool → PhaseResult → Bool → Results
results a b c = record { stopped = a; preserved = b; cleaned = c }

abbrev start : Bool → Bool → KillSwitch → KillSwitch
start f p k = record k { force_immediate_stop = f; preserve_partial_results = p; worker = begun }

-- ===== src/Orchestrator/KillSwitch.antt =====
-- The kill switch of orchestrator/kill_switch.cpp: the calls on it and the thread that shuts down.
pub mod Shutdown
pub mod Steps
pub mod Runs
pub mod Blocking
use bb_pipeline.Common.{
  ℕ, zero, suc, ◌+◌, Bool, true, false, not, ◌&&◌, ◌||◌, List, [], ◌∷◌, ◌++◌, Text, codes, u64,
  if◌then◌else◌, ltb, leb, length, drop, Dict, Option, none, some,
}

pub data KillSwitchPhase : Type 0 where
  inactive triggered_phase stopping_tasks saving_state cleanup finalizing completed :
      KillSwitchPhase

pub data KillSwitchTrigger : Type 0 where
  user_request system_signal timeout resource_exhaustion critical_error : KillSwitchTrigger
  dependency_failure security_threat external_command : KillSwitchTrigger

-- Where the thread that runs `executeShutdown` stands. `ok` is its local `success`.
pub data Worker : Type 0 where
  no_thread begun at_stop stopping : Worker
  at_save saving at_cleanup cleaning at_finalize at_complete : Bool → Worker
  updating ending exiting ended : Worker

-- The members that the shutdown reads and writes, except time stamps, durations and the count of each kind of trigger. `resetting` is a `reset` that holds the mutex and joins the thread.
pub record KillSwitch : Type 0 where
  pub enabled : Bool
  pub triggered : Bool
  pub shutting_down : Bool
  pub shutdown_completed : Bool
  pub current_phase : KillSwitchPhase
  pub current_trigger : KillSwitchTrigger
  pub trigger_details : Text
  pub force_immediate_stop : Bool
  pub preserve_partial_results : Bool
  pub total_triggers : ℕ
  pub successful_shutdowns : ℕ
  pub timeout_shutdowns : ℕ
  pub forced_shutdowns : ℕ
  pub total_states_saved : ℕ
  pub total_state_size_bytes : ℕ
  pub state_save_failures : ℕ
  pub recent_trigger_reasons : List Text
  pub preserved_state_files : List Text
  pub phase_execution_history : List KillSwitchPhase
  pub worker : Worker
  pub resetting : Bool

unfoldable pub transition_to_phase : KillSwitchPhase → KillSwitch → KillSwitch
transition_to_phase p k = record k {
  current_phase = p;
  phase_execution_history = k.phase_execution_history ++ p ∷ [];
}

abbrev pub last_fifty : List KillSwitchPhase → List KillSwitchPhase
last_fifty history = if ltb 50 (length history) then drop 1 history else history

-- What the callbacks of a phase lead to: what the phase returns, and for the phase that saves state the sizes of the
-- snapshots, the number of callbacks that threw and the file that was written.
pub record PhaseResult : Type 0 where
  pub ok : Bool
  pub sizes : List ℕ
  pub failures : ℕ
  pub files : List Text

abbrev pub total : List ℕ → ℕ
total [] = 0
total (n ∷ ns) = n + total ns

-- The statistics and the list of files after the phase that saves state.
unfoldable pub record_states : PhaseResult → KillSwitch → KillSwitch
record_states r k = record k {
  total_states_saved = u64 (k.total_states_saved + length r.sizes);
  total_state_size_bytes = u64 (k.total_state_size_bytes + total r.sizes);
  state_save_failures = u64 (k.state_save_failures + r.failures);
  preserved_state_files = k.preserved_state_files ++ r.files;
}

-- The step that `executeShutdown` takes next; `result` is what the callbacks of the phase lead to. A phase is entered
-- in one step and left in another, so that other threads can act between them.
unfoldable pub work : PhaseResult → KillSwitch → KillSwitch
work result k = elim k.worker [
  | no_thread ↦ k
  | begun ↦ record k { shutting_down = true; worker = at_stop }
  | at_stop ↦
      if k.force_immediate_stop
      then record k { worker = at_save true }
      else record (transition_to_phase stopping_tasks k) { worker = stopping }
  | stopping ↦ record k { worker = at_save result.ok }
  | at_save ok ↦
      if ok && k.preserve_partial_results
      then record (transition_to_phase saving_state k) { worker = saving ok }
      else record k { worker = at_cleanup ok }
  | saving ok ↦ record (record_states result k) { worker = at_cleanup result.ok }
  | at_cleanup ok ↦
      if ok || k.force_immediate_stop
      then record (transition_to_phase cleanup k) { worker = cleaning ok }
      else record k { worker = at_finalize ok }
  | cleaning ok ↦ record k { worker = at_finalize (result.ok && ok) }
  | at_finalize ok ↦ record (transition_to_phase finalizing k) { worker = at_complete ok }
  | at_complete ok ↦
      let done = transition_to_phase completed k in
      if ok
      then record done {
        successful_shutdowns = u64 (k.successful_shutdowns + 1);
        worker = updating;
      }
      else record done { timeout_shutdowns = u64 (k.timeout_shutdowns + 1); worker = updating }
  | updating ↦ record k {
    phase_execution_history = last_fifty (k.phase_execution_history ++ completed ∷ []);
    worker = ending;
  }
  | ending ↦ record k { shutdown_completed = true; worker = exiting }
  | exiting ↦ record k { worker = ended }
  | ended ↦ k
]

-- The thread is inside the `try` of `executeShutdown`.
abbrev pub trying : Worker → Bool
trying no_thread = false
trying begun = false
trying ending = false
trying exiting = false
trying ended = false
trying _ = true

-- The handler: an exception that is no callback's, since those are caught where the callbacks are called.
unfoldable pub catch_error : KillSwitch → KillSwitch
catch_error k = record k { timeout_shutdowns = u64 (k.timeout_shutdowns + 1); worker = ending }

-- `updateStats` takes the mutex, which a `reset` that joins the thread holds.
unfoldable pub waits : KillSwitch → Bool
waits k = k.resetting && (elim k.worker [ updating ↦ true | _ ↦ false ])

unfoldable pub trigger_to_string : KillSwitchTrigger → Text
trigger_to_string t = codes (elim t [
  | user_request ↦ "USER_REQUEST"
  | system_signal ↦ "SYSTEM_SIGNAL"
  | timeout ↦ "TIMEOUT"
  | resource_exhaustion ↦ "RESOURCE_EXHAUSTION"
  | critical_error ↦ "CRITICAL_ERROR"
  | dependency_failure ↦ "DEPENDENCY_FAILURE"
  | security_threat ↦ "SECURITY_THREAT"
  | external_command ↦ "EXTERNAL_COMMAND"
])

-- What a call leaves: the switch, or a terminated program.
pub data Outcome : Type 0 where
  running : KillSwitch → Outcome
  terminated : Outcome

-- `shutdown_thread_` is replaced by a new thread: std::terminate when the old one was not joined.
unfoldable pub start_thread : KillSwitch → Outcome
start_thread k = elim k.worker [
  | no_thread ↦ running (record k { worker = begun })
  | _ ↦ terminated
]

unfoldable pub trigger : KillSwitchTrigger → Text → KillSwitch → Outcome
trigger reason details k =
    let reasons =
      k.recent_trigger_reasons ++ (trigger_to_string reason ++ codes ": " ++ details) ∷ [] in
    if not k.enabled
    then running k
    else if k.triggered
    then running k
    else start_thread (record k {
      triggered = true;
      current_trigger = reason;
      trigger_details = details;
      total_triggers = u64 (k.total_triggers + 1);
      recent_trigger_reasons = if ltb 10 (length reasons) then drop 1 reasons else reasons;
    })

-- In the phases TRIGGERED and INACTIVE.
abbrev pub early : KillSwitchPhase → Bool
early triggered_phase = true
early inactive = true
early _ = false

unfoldable pub cancel_shutdown : KillSwitch → Bool × KillSwitch
cancel_shutdown k =
    if early k.current_phase
    then (true, record k { triggered = false; shutting_down = false; current_phase = inactive })
    else (false, k)

unfoldable pub set_enabled : Bool → KillSwitch → KillSwitch
set_enabled b k = record k { enabled = b }

-- The rest of `reset` once the thread is joined, or when there is none.
unfoldable pub finish_reset : KillSwitch → KillSwitch
finish_reset k = record k {
  triggered = false;
  shutting_down = false;
  shutdown_completed = false;
  current_phase = inactive;
  total_triggers = 0;
  successful_shutdowns = 0;
  timeout_shutdowns = 0;
  forced_shutdowns = 0;
  total_states_saved = 0;
  total_state_size_bytes = 0;
  state_save_failures = 0;
  preserved_state_files = [];
  recent_trigger_reasons = [];
  phase_execution_history = [];
  worker = no_thread;
  resetting = false;
}

-- ===== src/Orchestrator/KillSwitch/Steps.antt =====
-- Other threads act between the steps of the shutdown: the steps of the kill switch as a relation.
use bb_pipeline.Common.{ℕ, ◌≤◌, ◌≡◌, Bool, true, false, not, ◌||◌, Text, arith}
use bb_pipeline.Orchestrator.KillSwitch.{
  KillSwitch, KillSwitchPhase, inactive, triggered_phase, stopping_tasks, saving_state, cleanup,
  finalizing, completed, KillSwitchTrigger, Worker, no_thread, begun, at_stop, stopping, at_save,
  saving, at_cleanup, cleaning, at_finalize, at_complete, updating, ending, exiting, ended,
  PhaseResult, trying, catch_error, record_states, transition_to_phase, work, waits, Outcome,
  running, trigger, cancel_shutdown, set_enabled, finish_reset,
}

pub data Call : Type 0 where
  trigger_call : KillSwitchTrigger → Text → Call
  cancel_call reset_call : Call

-- A call that takes the mutex, without `forceImmediate`, which unlocks it twice and so leaves nothing that can be said. `reset` keeps it while it waits for the thread.
unfoldable pub call : Call → KillSwitch → Outcome
call (trigger_call reason details) k = trigger reason details k
call cancel_call k = let (_, k') = cancel_shutdown k in running k'
call reset_call k = running (record k { resetting = true })

abbrev pub is_cancel : Call → Bool
is_cancel cancel_call = true
is_cancel _ = false

-- The thread can be joined at once.
abbrev pub joinable : Worker → Bool
joinable no_thread = true
joinable ended = true
joinable _ = false

-- One step of any thread; with `cancels` false nobody calls `cancelShutdown`, and with `throws` false no exception
-- reaches the handler of `executeShutdown`.
pub data Step (cancels throws : Bool) : KillSwitch → KillSwitch → Type 0 where
  called :
      {k k' : KillSwitch} (c : Call)
      → k.resetting ≡ false
      → (cancels || not (is_cancel c)) ≡ true
      → call c k ≡ running k'
      → Step cancels throws k k'
  enabling : {k : KillSwitch} (b : Bool) → Step cancels throws k (set_enabled b k)
  worked :
      {k : KillSwitch} (result : PhaseResult)
      → waits k ≡ false
      → Step cancels throws k (work result k)
  failed :
      {k : KillSwitch}
      → throws ≡ true
      → trying k.worker ≡ true
      → waits k ≡ false
      → Step cancels throws k (catch_error k)
  joined :
      {k : KillSwitch}
      → k.resetting ≡ true
      → joinable k.worker ≡ true
      → Step cancels throws k (finish_reset k)

pub data Steps (cancels throws : Bool) : KillSwitch → KillSwitch → Type 0 where
  here : {k : KillSwitch} → Steps cancels throws k k
  later :
      {k l m : KillSwitch}
      → Steps cancels throws k l
      → Step cancels throws l m
      → Steps cancels throws k m

-- The values of the enumeration.
abbrev pub phase_value : KillSwitchPhase → ℕ
phase_value inactive = 0
phase_value triggered_phase = 1
phase_value stopping_tasks = 2
phase_value saving_state = 3
phase_value cleanup = 4
phase_value finalizing = 5
phase_value completed = 6

-- The last phase that the thread may have entered.
abbrev pub reached : Worker → ℕ
reached no_thread = 0
reached begun = 0
reached at_stop = 0
reached stopping = 2
reached (at_save _) = 2
reached (saving _) = 3
reached (at_cleanup _) = 3
reached (cleaning _) = 4
reached (at_finalize _) = 4
reached (at_complete _) = 5
reached updating = 6
reached ending = 6
reached exiting = 6
reached ended = 6

abbrev pub is_idle : Worker → Bool
is_idle no_thread = true
is_idle _ = false

-- The thread has nothing left to do but to end.
abbrev pub is_leaving : Worker → Bool
is_leaving exiting = true
is_leaving ended = true
is_leaving _ = false

-- Without cancellations: a thread exists only while the switch is triggered, the phase is one that the thread has
-- entered, and a shutdown counts as completed only when its thread has nothing left to do.
pub record IsOrderly (k : KillSwitch) : Type 0 where
  pub armed : is_idle k.worker ≡ false → k.triggered ≡ true
  pub bound : phase_value k.current_phase ≤ reached k.worker
  pub done : k.shutdown_completed ≡ true → is_leaving k.worker ≡ true

-- What one step of the thread does to an orderly switch.
module _ (result : PhaseResult) (k : KillSwitch) where
  abbrev pub Works : Worker → Type 0
  Works w =
      let k' = work result (record k { worker = w }) in
      IsOrderly (record k { worker = w })
      → IsOrderly k' × (phase_value k.current_phase ≤ phase_value k'.current_phase)

  pub works : (w : Worker) → Works w
  unfolding work transition_to_phase record_states
  works no_thread i = (i, omega arith)
  works begun i = (ground arith, omega arith)
  works at_stop i = ground arith
  works stopping i = ground arith
  works (at_save ok) i = ground arith
  works (saving ok) i = ground arith
  works (at_cleanup ok) i = ground arith
  works (cleaning ok) i = ground arith
  works (at_finalize ok) i = ground arith
  works (at_complete ok) i = ground arith
  works updating i = ground arith
  works ending i = ground arith
  works exiting i = ground arith
  works ended i = (i, omega arith)

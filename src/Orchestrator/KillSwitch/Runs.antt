-- ===== src/Orchestrator/KillSwitch/Runs.antt =====
-- What holds in every state that the kill switch can reach.
use bb_pipeline.Common.{
  [], ◌∷◌, ◌++◌, ◌+◌, ◌≤◌, ◌≡◌, refl, sym, ◌∙◌, Bool, true, false, not, ◌||◌, ◌≢◌, Text, codes,
  arith, Bool-cases, ◌⊎◌, inl, inr, if◌then◌else◌, u64, ltb, length, drop,
}
use mathlib.Core.Path.{subst}
use bb_pipeline.Orchestrator.KillSwitch.{
  KillSwitch, KillSwitchPhase, inactive, KillSwitchTrigger, Worker, no_thread, begun, Outcome,
  running, terminated, start_thread, trigger, set_enabled, finish_reset, trigger_to_string,
  catch_error, trying,
}
use bb_pipeline.Orchestrator.KillSwitch.Steps.{
  joinable, Call, trigger_call, cancel_call, reset_call, call, is_cancel, Step, called, enabling,
  worked, failed, joined, Steps, here, later, phase_value, reached, is_idle, is_leaving, IsOrderly,
  works,
}

not-true : (b : Bool) → (false || not b) ≡ true → b ≡ false
not-true b h = ground arith

true-not_false : true ≡ false → ⊥
true-not_false h = cc

idle-no_thread : (w : Worker) → is_idle w ≡ true → w ≡ no_thread
idle-no_thread w h = ground arith

-- A thread is started where there was none, and only the trigger's own members change.
start_thread-running :
    (k : KillSwitch)
    → is_idle k.worker ≡ true
    → start_thread k ≡ running (record k { worker = begun })
unfolding start_thread
start_thread-running k h = rw (idle-no_thread k.worker h) refl

-- What a call keeps.
abbrev CallKeeps : KillSwitch → Outcome → Type 0
CallKeeps k terminated = ⊥
CallKeeps k (running k') =
    IsOrderly k' × (phase_value k.current_phase ≤ phase_value k'.current_phase)

-- A thread that is started from a quiet switch.
IsOrderly-begun :
    (k : KillSwitch)
    → k.triggered ≡ true
    → phase_value k.current_phase ≤ 0
    → k.shutdown_completed ≡ false
    → IsOrderly (record k { worker = begun })
IsOrderly-begun k t p d = record { armed = λ _. t; bound = p; done = λ h. cc }

-- An orderly switch that is not triggered has no thread, no phase entered and no shutdown completed.
quiet :
    (k : KillSwitch)
    → IsOrderly k
    → k.triggered ≡ false
    → (is_idle k.worker ≡ true) × (phase_value k.current_phase ≤ 0) × (k.shutdown_completed ≡ false)
quiet k i h =
    let idle : is_idle k.worker ≡ true = elim (Bool-cases (is_idle k.worker)) [
      | inl t ↦ t
      | inr f ↦ let a = i.armed f in cc
    ] in
    let e = idle-no_thread k.worker idle in
    let b : phase_value k.current_phase ≤ reached no_thread = rw e at i.bound in
    (
      idle,
      b,
      elim (Bool-cases k.shutdown_completed) [
        | inl t ↦ let d : is_leaving no_thread ≡ true = rw e at (i.done t) in cc
        | inr f ↦ f
      ],
    )

trigger-CallKeeps :
    (reason : KillSwitchTrigger) (details : Text) (k : KillSwitch)
    → IsOrderly k
    → CallKeeps k (trigger reason details k)
unfolding trigger
trigger-CallKeeps reason details k i = elim (Bool-cases k.enabled) [
  | inr f ↦ simp f (i, omega arith)
  | inl e ↦ elim (Bool-cases k.triggered) [
    | inl t ↦ simp (e, t) (i, omega arith)
    | inr f ↦
        let (idle, phase, open_) = quiet k i f in
        let reasons =
          k.recent_trigger_reasons ++ (trigger_to_string reason ++ codes ": " ++ details) ∷ [] in
        let k' : KillSwitch = record k {
          enabled = true;
          triggered = true;
          current_trigger = reason;
          trigger_details = details;
          total_triggers = u64 (k.total_triggers + 1);
          recent_trigger_reasons = if ltb 10 (length reasons) then drop 1 reasons else reasons;
        } in
        simp (e, f)
          (subst (CallKeeps k) (sym (start_thread-running k' idle))
            (IsOrderly-begun k' refl phase open_, omega arith))
  ]
]

call-CallKeeps :
    (c : Call) (k : KillSwitch) → is_cancel c ≡ false → IsOrderly k → CallKeeps k (call c k)
unfolding call
call-CallKeeps (trigger_call reason details) k h i = trigger-CallKeeps reason details k i
call-CallKeeps cancel_call k h i = cc
call-CallKeeps reset_call k h i =
    (record { armed = i.armed; bound = i.bound; done = i.done }, omega arith)

IsOrderly-finish_reset : (k : KillSwitch) → IsOrderly (finish_reset k)
unfolding finish_reset
IsOrderly-finish_reset k = record { armed = λ h. cc; bound = omega arith; done = λ h. cc }

-- The step in which a reset ends.
abbrev pub ResetEnds : KillSwitch → KillSwitch → Type 0
ResetEnds k k' = (k.resetting ≡ true) × (joinable k.worker ≡ true) × (k' ≡ finish_reset k)

phase-bound : (p : KillSwitchPhase) → phase_value p ≤ 6
phase-bound p = ground arith

trying-busy : (w : Worker) → trying w ≡ true → (is_idle w ≡ false) × (is_leaving w ≡ false)
trying-busy w t = ground arith

IsOrderly-catch_error :
    (k : KillSwitch) → IsOrderly k → trying k.worker ≡ true → IsOrderly (catch_error k)
unfolding catch_error
IsOrderly-catch_error k i t =
    let (busy, stays) = trying-busy k.worker t in
    record {
      armed = λ _. i.armed busy;
      bound = phase-bound k.current_phase;
      done = λ h. absurd (true-not_false (sym (i.done h) ∙ stays));
    }

-- One step: the switch stays orderly, and its phase does not go back unless a reset ends.
Step-IsOrderly :
    {k k' : KillSwitch}
    → IsOrderly k
    → Step false true k k'
    → IsOrderly k' × ((phase_value k.current_phase ≤ phase_value k'.current_phase) ⊎ ResetEnds k k')
unfolding set_enabled catch_error
Step-IsOrderly {k} i (called c free allowed e) =
    let (i', p) = subst (CallKeeps k) e (call-CallKeeps c k (not-true (is_cancel c) allowed) i) in
    (i', inl p)
Step-IsOrderly i (enabling b) =
    (record { armed = i.armed; bound = i.bound; done = i.done }, inl (omega arith))
Step-IsOrderly {k} i (worked result free) = let (i', p) = works result k k.worker i in (i', inl p)
Step-IsOrderly {k} i (failed _ t free) = (IsOrderly-catch_error k i t, inl (omega arith))
Step-IsOrderly {k} i (joined r j) = (IsOrderly-finish_reset k, inr (r, j, refl))

Steps-IsOrderly : {k k' : KillSwitch} → IsOrderly k → Steps false true k k' → IsOrderly k'
Steps-IsOrderly i here = i
Steps-IsOrderly i (later run step) = let (i', _) = Step-IsOrderly (Steps-IsOrderly i run) step in i'

-- The switch as its constructor leaves it, whatever the configuration and the statistics.
pub record IsFresh (k : KillSwitch) : Type 0 where
  pub untriggered : k.triggered ≡ false
  pub unfinished : k.shutdown_completed ≡ false
  pub phase : k.current_phase ≡ inactive
  pub idle : k.worker ≡ no_thread

IsFresh-IsOrderly : (k : KillSwitch) → IsFresh k → IsOrderly k
IsFresh-IsOrderly k f = record {
  armed = λ h. let e : is_idle no_thread ≡ false = rw f.idle at h in cc;
  bound = rw (f.phase) (omega arith);
  done = λ h. absurd (true-not_false (sym h ∙ f.unfinished));
}

-- While nobody cancels or calls `forceImmediate`, and with triggers, switching on and off, resets, the shutdown's own
-- steps and its exceptions in any order: the phase never goes back except in the step in which a reset, its thread
-- joined, puts everything back; and a shutdown counts as completed only when its thread has nothing left to do.
pub shutdown_in_order :
    (start k : KillSwitch)
    → IsFresh start
    → Steps false true start k
    → (k.shutdown_completed ≡ true → is_leaving k.worker ≡ true)
      × ((k' : KillSwitch)
          → Step false true k k'
          → (phase_value k.current_phase ≤ phase_value k'.current_phase) ⊎ ResetEnds k k')
shutdown_in_order start k f run =
    let i = Steps-IsOrderly (IsFresh-IsOrderly start f) run in
    (i.done, λ k' step. let (_, p) = Step-IsOrderly i step in p)

CallKeeps-running : (k : KillSwitch) (o : Outcome) → CallKeeps k o → o ≢ terminated
CallKeeps-running k o h e = subst (CallKeeps k) e h

-- While nobody cancels or calls `forceImmediate`, no trigger or reset replaces a thread that was not joined,
-- in any order of the steps, exceptions included: no call terminates the program.
pub calls_never_terminate :
    (start k : KillSwitch) (c : Call)
    → IsFresh start
    → Steps false true start k
    → is_cancel c ≡ false
    → call c k ≢ terminated
calls_never_terminate start k c f run h =
    CallKeeps-running k (call c k)
      (call-CallKeeps c k h (Steps-IsOrderly (IsFresh-IsOrderly start f) run))

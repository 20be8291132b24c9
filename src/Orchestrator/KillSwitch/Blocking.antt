-- ===== src/Orchestrator/KillSwitch/Blocking.antt =====
-- A reset during a shutdown, and a shutdown that is cancelled.
use bb_pipeline.Common.{
  ◌≡◌, refl, sym, ap, ◌∙◌, Bool, true, false, ◌&&◌, ◌||◌, List, [], ◌∷◌, Text, arith, Bool-cases,
  inl, inr,
}
use mathlib.Core.Path.{subst}
use bb_pipeline.Orchestrator.KillSwitch.{
  KillSwitch, KillSwitchPhase, inactive, KillSwitchTrigger, Worker, no_thread, begun, at_stop,
  stopping, at_save, saving, at_cleanup, cleaning, at_finalize, at_complete, updating, ending,
  exiting, ended, PhaseResult, record_states, transition_to_phase, work, waits, terminated,
  start_thread, trigger, cancel_shutdown, set_enabled,
}
use bb_pipeline.Orchestrator.KillSwitch.Steps.{
  joinable, is_idle, Step, called, enabling, worked, failed, joined, Steps, here, later,
}

-- The thread has not left `updateStats` yet.
abbrev pub pending : Worker → Bool
pending no_thread = false
pending ending = false
pending exiting = false
pending ended = false
pending _ = true

-- A reset waits for the thread, and the thread for the mutex.
abbrev Stuck : KillSwitch → Type 0
Stuck k = (k.resetting ≡ true) × (pending k.worker ≡ true)

works-Stuck :
    (result : PhaseResult) (k : KillSwitch) (w : Worker)
    → waits (record k { worker = w }) ≡ false
    → Stuck (record k { worker = w })
    → Stuck (work result (record k { worker = w }))
unfolding work transition_to_phase record_states waits
works-Stuck result k no_thread h (r, p) = cc
works-Stuck result k begun h (r, p) = (r, refl)
works-Stuck result k at_stop h (r, p) = ground arith
works-Stuck result k stopping h (r, p) = (r, refl)
works-Stuck result k (at_save ok) h (r, p) = ground arith
works-Stuck result k (saving ok) h (r, p) = (r, refl)
works-Stuck result k (at_cleanup ok) h (r, p) = ground arith
works-Stuck result k (cleaning ok) h (r, p) = (r, refl)
works-Stuck result k (at_finalize ok) h (r, p) = (r, refl)
works-Stuck result k (at_complete ok) h (r, p) = ground arith
works-Stuck result k updating h (r, p) = ground arith
works-Stuck result k ending h (r, p) = cc
works-Stuck result k exiting h (r, p) = cc
works-Stuck result k ended h (r, p) = cc

true-not_false : true ≡ false → ⊥
true-not_false h = cc

not_joinable : (w : Worker) → pending w ≡ true → joinable w ≡ true → ⊥
not_joinable w p j = ground arith

Step-Stuck : {k k' : KillSwitch} → Stuck k → Step true false k k' → Stuck k'
unfolding set_enabled
Step-Stuck (r, p) (called c free allowed e) = absurd (true-not_false (sym r ∙ free))
Step-Stuck (r, p) (enabling b) = (r, p)
Step-Stuck {k} (r, p) (worked result free) = works-Stuck result k k.worker free (r, p)
Step-Stuck (r, p) (failed e _ _) = absurd (true-not_false (sym e))
Step-Stuck {k} (r, p) (joined _ j) = absurd (not_joinable k.worker p j)

Steps-Stuck : {k k' : KillSwitch} → Stuck k → Steps true false k k' → Stuck k'
Steps-Stuck s here = s
Steps-Stuck s (later run step) = Step-Stuck (Steps-Stuck s run) step

-- A reset that is called while the shutdown has not left `updateStats` never returns, and the shutdown never ends,
-- whatever the threads do, unless an exception takes the shutdown to its handler.
pub reset_deadlocks :
    (k k' : KillSwitch)
    → pending k.worker ≡ true
    → Steps true false (record k { resetting = true }) k'
    → (k'.resetting ≡ true) × (pending k'.worker ≡ true)
reset_deadlocks k k' p run = Steps-Stuck (refl, p) run

-- The thread's next steps, with what the callbacks of the phases lead to.
abbrev pub run : List PhaseResult → KillSwitch → KillSwitch
run [] k = k
run (result ∷ results) k = run results (work result k)

-- What a cancellation clears, with the flag of a shutdown that is under way.
abbrev pub cleared : Bool → KillSwitch → KillSwitch
cleared b k = record k { triggered = false; shutting_down = b }

-- These flags make no difference to the thread.
work-cleared :
    (result : PhaseResult) (b : Bool) (k : KillSwitch) (w : Worker)
    → (c : Bool) × (work result (cleared b (record k { worker = w }))
        ≡ cleared c (work result (record k { worker = w })))
unfolding work transition_to_phase record_states
work-cleared result b k no_thread = (b, refl)
work-cleared result b k begun = (true, refl)
work-cleared result b k at_stop = elim (Bool-cases k.force_immediate_stop) [
  | inl t ↦ (b, simp t refl)
  | inr f ↦ (b, simp f refl)
]
work-cleared result b k stopping = (b, refl)
work-cleared result b k (at_save ok) = elim (Bool-cases (ok && k.preserve_partial_results)) [
  | inl t ↦ (b, simp t refl)
  | inr f ↦ (b, simp f refl)
]
work-cleared result b k (saving ok) = (b, refl)
work-cleared result b k (at_cleanup ok) = elim (Bool-cases (ok || k.force_immediate_stop)) [
  | inl t ↦ (b, simp t refl)
  | inr f ↦ (b, simp f refl)
]
work-cleared result b k (cleaning ok) = (b, refl)
work-cleared result b k (at_finalize ok) = (b, refl)
work-cleared result b k (at_complete true) = (b, refl)
work-cleared result b k (at_complete false) = (b, refl)
work-cleared result b k updating = (b, refl)
work-cleared result b k ending = (b, refl)
work-cleared result b k exiting = (b, refl)
work-cleared result b k ended = (b, refl)

run-cleared :
    (results : List PhaseResult) (b : Bool) (k : KillSwitch)
    → (c : Bool) × (run results (cleared b k) ≡ cleared c (run results k))
run-cleared [] b k = (b, refl)
run-cleared (result ∷ results) b k =
    let (c, e) = work-cleared result b k k.worker in
    let (d, f) = run-cleared results c (work result k) in (d, ap (run results) e ∙ f)

-- The next trigger would replace the thread.
abbrev IsDoomed : KillSwitch → Type 0
IsDoomed k = (k.enabled ≡ true) × (k.triggered ≡ false) × (is_idle k.worker ≡ false)

work-IsDoomed :
    (result : PhaseResult) (k : KillSwitch) (w : Worker)
    → IsDoomed (record k { worker = w })
    → IsDoomed (work result (record k { worker = w }))
unfolding work transition_to_phase record_states
work-IsDoomed result k no_thread d = d
work-IsDoomed result k begun d = d
work-IsDoomed result k at_stop d = ground arith
work-IsDoomed result k stopping d = d
work-IsDoomed result k (at_save ok) d = ground arith
work-IsDoomed result k (saving ok) d = d
work-IsDoomed result k (at_cleanup ok) d = ground arith
work-IsDoomed result k (cleaning ok) d = d
work-IsDoomed result k (at_finalize ok) d = d
work-IsDoomed result k (at_complete true) d = d
work-IsDoomed result k (at_complete false) d = d
work-IsDoomed result k updating d = d
work-IsDoomed result k ending d = d
work-IsDoomed result k exiting d = d
work-IsDoomed result k ended d = d

run-IsDoomed : (results : List PhaseResult) (k : KillSwitch) → IsDoomed k → IsDoomed (run results k)
run-IsDoomed [] k d = d
run-IsDoomed (result ∷ results) k d =
    run-IsDoomed results (work result k) (work-IsDoomed result k k.worker d)

start_thread-terminated : (k : KillSwitch) → is_idle k.worker ≡ false → start_thread k ≡ terminated
unfolding start_thread
start_thread-terminated k h = ground arith

trigger-terminated :
    (k : KillSwitch) (reason : KillSwitchTrigger) (details : Text)
    → IsDoomed k
    → trigger reason details k ≡ terminated
unfolding trigger
trigger-terminated k reason details (e, t, w) = simp (e, t) (start_thread-terminated _ w)

-- What a cancellation is worth: it reports success, but the thread goes on as if nothing had happened, and to
-- trigger the switch again, at once or later, terminates the program.
abbrev pub IsLost : KillSwitch → Type 0
IsLost k =
    let (cancelled, k') = cancel_shutdown k in
    (cancelled ≡ true)
    × ((results : List PhaseResult)
        → ((b : Bool) × (run results k' ≡ cleared b (run results k)))
          × ((reason : KillSwitchTrigger) (details : Text)
              → trigger reason details (run results k') ≡ terminated))

-- A shutdown of a switch that is enabled and has a thread which has not entered a phase, when it is cancelled:
-- `cancelShutdown` reports success, and however many steps the thread then takes, it goes through the same phases with
-- the same counts as without the cancellation, and the next trigger terminates the program.
pub cancel_shutdown-IsLost :
    (k : KillSwitch)
    → k.enabled ≡ true
    → k.current_phase ≡ inactive
    → is_idle k.worker ≡ false
    → IsLost k
unfolding cancel_shutdown
cancel_shutdown-IsLost k e p w =
    subst IsLost (sym (ap (λ (q : KillSwitchPhase). record k { current_phase = q }) p)) (
      refl,
      λ results. (
        run-cleared results false (record k { current_phase = inactive }),
        λ reason details. trigger-terminated _ reason details (
            run-IsDoomed results (cleared false (record k { current_phase = inactive }))
              (e, refl, w)),
      ),
    )

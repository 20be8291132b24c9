-- ===== src/Recovery/Breaker.antt =====
-- What every call does to the statistics, and what it leaves alone.
use bb_pipeline.Common.{
  ℕ, zero, suc, ◌+◌, ◌<◌, ◌≡◌, refl, ◌⊎◌, inl, inr, Bool, true, false, List, [], ◌∷◌, Text,
  Bool-cases, u64, if◌then◌else◌,
}
use bb_pipeline.Common.Double.{Double}
use bb_pipeline.Recovery.Classify.{is_in}
use bb_pipeline.Recovery.Context.{RetryAttempt, RetryConfig, RetryContext, new_context, can_retry}
use bb_pipeline.Recovery.Manager.{Manager, RetryStatistics, update_statistics, add_attempts}
use bb_pipeline.Recovery.Loop.{
  Ending, done, circuit_open, rethrown, foreign, non_recoverable, exhausted, out_of_fuel, World,
  Report, attempt, execute_with_retry, give_up,
}
use bb_pipeline.Recovery.Calls.{
  after, type_of, Outcome-cases, attempt_returns, attempt_rethrows, attempt_escapes,
  attempt_refuses, attempt_ends, attempt_again, execute_closed, execute_bounded,
}

abbrev pub is_done {ℓ} : {V : Type ℓ} → Ending V → Bool
is_done (done v) = true
is_done circuit_open = false
is_done (rethrown e) = false
is_done foreign = false
is_done (non_recoverable e) = false
is_done (exhausted n) = false
is_done out_of_fuel = false

-- One operation more, and one success or one failure more.
pub record Accounts (s s' : RetryStatistics) (success : Bool) : Type 0 where
  pub total : s'.total_operations ≡ u64 (s.total_operations + 1)
  pub successes :
      s'.successful_operations
      ≡ (if success then u64 (s.successful_operations + 1) else s.successful_operations)
  pub failures :
      s'.failed_operations
      ≡ (if success then s.failed_operations else u64 (s.failed_operations + 1))

-- What a call that ended so counts: nothing if what was thrown is no std::exception.
abbrev pub CountedAs {ℓ} : {V : Type ℓ} → Ending V → RetryStatistics → RetryStatistics → Type 0
CountedAs foreign s s' = s' ≡ s
CountedAs e s s' = Accounts s s' (is_done e)

add_attempts-counts :
    (rs : List RetryAttempt) (s : RetryStatistics)
    → ((add_attempts rs s).total_operations ≡ s.total_operations)
      × ((add_attempts rs s).successful_operations ≡ s.successful_operations)
      × ((add_attempts rs s).failed_operations ≡ s.failed_operations)
unfolding add_attempts
add_attempts-counts [] s = (refl, refl, refl)
add_attempts-counts (r ∷ rs) s = (refl, refl, refl)

update-Accounts :
    (rs : List RetryAttempt) (b : Bool) (s : RetryStatistics)
    → Accounts s (update_statistics rs b s) b
unfolding update_statistics
update-Accounts rs true s =
    let (x, y, z) = add_attempts-counts rs _ in record { total = x; successes = y; failures = z }
update-Accounts rs false s =
    let (x, y, z) = add_attempts-counts rs _ in record { total = x; successes = y; failures = z }

module _ {ℓ} (d : Double) {V : Type ℓ} (m : Manager d) (config : RetryConfig d)
    (w : World d V) where
  abbrev Counted : Report d V → Type ℓ
  Counted r = (r.ending ≡ out_of_fuel) ⊎ CountedAs r.ending m.statistics r.manager.statistics

  give_up-Accounts : (c : RetryContext d) → Accounts m.statistics (give_up d m c).statistics false
  unfolding give_up
  give_up-Accounts c = update-Accounts c.attempts false m.statistics

  attempt-Counted :
      (fuel : ℕ) (c : RetryContext d) (i : ℕ) (sleeps : List ℕ)
      → Counted (attempt d fuel m config w c i sleeps)
  unfolding attempt
  attempt-Counted zero c i sleeps = inl refl
  attempt-Counted (suc fuel) c i sleeps = elim (Outcome-cases (w.op i)) [
    | inl (v, e) ↦
        rw (attempt_returns d m config w fuel c i sleeps v e)
          (inr (update-Accounts c.attempts true m.statistics))
    | inr (inl (x, e)) ↦
        rw (attempt_rethrows d m config w fuel c i sleeps x e)
          (inr (update-Accounts c.attempts false m.statistics))
    | inr (inr (inr e)) ↦ rw (attempt_escapes d m config w fuel c i sleeps e) (inr refl)
    | inr (inr (inl (x, e))) ↦
        elim (Bool-cases (is_in (type_of d m config w x) config.recoverable_errors)) [
          | inr f ↦
              rw (attempt_refuses d m config w fuel c i sleeps x e f)
                (inr (update-Accounts c.attempts false m.statistics))
          | inl t ↦ elim (Bool-cases (can_retry d (after d m config w c i x))) [
            | inr f ↦
                rw (attempt_ends d m config w fuel c i sleeps x e t f)
                  (inr (give_up-Accounts (after d m config w c i x)))
            | inl g ↦
                rw (attempt_again d m config w fuel c i sleeps x e t g)
                  (attempt-Counted fuel (after d m config w c i x) (i + 1) _)
          ]
        ]
  ]

  -- With the breaker closed and fewer than 2^64 - 1 attempts allowed, whatever the operation does: a call
  -- that ends with a value counts one operation and one success, a call that ends with a std::exception
  -- counts one operation and one failure, and a call that ends with something else thrown counts nothing.
  pub execute-Accounts :
      (name : Text)
      → m.circuit_breaker_open ≡ false
      → config.max_attempts < 18446744073709551615
      → let q = execute_with_retry d m name config w in
        CountedAs q.ending m.statistics q.manager.statistics
  execute-Accounts name o b =
      let ended = (execute_bounded d m name config w b).0 in
      elim (rw (← execute_closed d m name config w o) at
        (attempt-Counted (config.max_attempts + 1) (new_context d name config) 0 [])) [
          | inl stuck ↦ absurd (ended stuck)
          | inr counted ↦ counted
        ]

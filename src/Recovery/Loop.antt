-- ===== src/Recovery/Loop.antt =====
-- `executeWithRetryInternal`: the loop that calls the operation until it returns, fails for good, or has
-- used its attempts.
use bb_pipeline.Common.{
  ℕ, zero, suc, ◌+◌, Bool, true, false, List, [], ◌∷◌, ◌++◌, Text, if◌then◌else◌, leb, u64,
}
use bb_pipeline.Common.Double.{Double}
use bb_pipeline.Recovery.Classify.{is_in, classify_error}
use bb_pipeline.Recovery.Context.{
  RetryConfig, RetryContext, new_context, record_attempt, can_retry, next_delay,
}
use bb_pipeline.Recovery.Manager.{Manager, update_statistics}

-- What one call of the operation does: it returns, or throws a NonRecoverableError, another std::exception, or
-- something that is no std::exception, which the loop does not catch.
pub data Outcome {ℓ} (V : Type ℓ) : Type ℓ where
  returns : V → Outcome V
  raises_final : Text → Outcome V
  raises : Text → Outcome V
  raises_foreign : Outcome V

-- How the whole call ends: a value, one of the exceptions, or no more fuel in the model.
pub data Ending {ℓ} (V : Type ℓ) : Type ℓ where
  done : V → Ending V
  circuit_open : Ending V
  rethrown : Text → Ending V
  foreign : Ending V
  non_recoverable : Text → Ending V
  exhausted : ℕ → Ending V
  out_of_fuel : Ending V

module _ {ℓ} (d : Double) (V : Type ℓ) where
  -- What call `i` of the operation does, the time when its failure is recorded, and what the two jitters
  -- after it draw.
  pub record World : Type ℓ where
    pub op : ℕ → Outcome V
    pub clock : ℕ → ℕ
    pub draw : ℕ → d.F → d.F
    pub draw_sleep : ℕ → d.F → d.F

  -- The manager, the ending, the number of calls made, and the sleeps between them.
  pub record Report : Type ℓ where
    pub manager : Manager d
    pub ending : Ending V
    pub calls : ℕ
    pub sleeps : List ℕ

module _ (d : Double) where
  abbrev pub finish : Manager d → RetryContext d → Bool → Manager d
  finish m c success = record m { statistics = update_statistics c.attempts success m.statistics }

  abbrev pub succeed : Manager d → RetryContext d → Manager d
  succeed m c = record (finish m c true) { consecutive_failures = 0 }

  -- The failure is counted, and the breaker opens at its threshold.
  unfoldable pub give_up : Manager d → RetryContext d → Manager d
  give_up m c =
      let n = u64 (m.consecutive_failures + 1) in
      record (finish m c false) {
        consecutive_failures = n;
        circuit_breaker_open =
            if leb m.circuit_breaker_threshold n then true else m.circuit_breaker_open;
      }

module _ {ℓ} (d : Double) {V : Type ℓ} where
  abbrev pub report : Manager d → Ending V → ℕ → List ℕ → Report d V
  report m e calls sleeps = record { manager = m; ending = e; calls = calls; sleeps = sleeps }

  -- Round `i`: `sleeps` are those before it.
  unfoldable pub attempt :
      ℕ → Manager d → RetryConfig d → World d V → RetryContext d → ℕ → List ℕ → Report d V
  attempt zero m config w c i sleeps = report m out_of_fuel i sleeps
  attempt (suc fuel) m config w c i sleeps = elim (w.op i) [
    | returns v ↦ report (succeed d m c) (done v) (i + 1) sleeps
    | raises_final e ↦ report (finish d m c false) (rethrown e) (i + 1) sleeps
    | raises_foreign ↦ report m foreign (i + 1) sleeps
    | raises e ↦
        let t = classify_error m.error_classifiers e in
        let c' = record_attempt d c t e (w.clock i) (w.draw i) in
        let rest =
          attempt fuel m config w c' (i + 1) (sleeps ++ next_delay d c' (w.draw_sleep i) ∷ []) in
        let last = report (give_up d m c') (exhausted c'.current_attempt) (i + 1) sleeps in
        let final = report (finish d m c false) (non_recoverable e) (i + 1) sleeps in
        if is_in t config.recoverable_errors then (if can_retry d c' then rest else last) else final
  ]

  -- The fuel is one more than the attempts allowed.
  unfoldable pub execute_with_retry : Manager d → Text → RetryConfig d → World d V → Report d V
  execute_with_retry m name config w =
      if m.circuit_breaker_open
      then report m circuit_open 0 []
      else attempt (config.max_attempts + 1) m config w (new_context d name config) 0 []

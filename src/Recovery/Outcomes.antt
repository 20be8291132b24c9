-- ===== src/Recovery/Outcomes.antt =====
-- Which ending a call has: success after retried failures, or exhaustion.
use bb_pipeline.Common.{
  ℕ, zero, suc, ◌+◌, ◌-◌, ◌≤◌, ◌<◌, ◌≡◌, refl, ap, ◌∙◌, true, false, ◌⊎◌, inl, inr, List, [], Text,
  arith, lt→ltb, ltb, u64, leb, if◌then◌else◌,
}
use bb_pipeline.Common.Double.{Double}
use bb_pipeline.Recovery.Classify.{is_in}
use bb_pipeline.Recovery.Context.{
  RetryConfig, RetryContext, or_default, default_recoverable, new_context,
}
use bb_pipeline.Recovery.Manager.{Manager}
use bb_pipeline.Recovery.Loop.{
  returns, raises, done, non_recoverable, exhausted, World, attempt, execute_with_retry, give_up,
}
use bb_pipeline.Recovery.Calls.{
  IsAt, Retried, after, type_of, after-IsAt, can_retry-at, execute_closed, attempt_returns,
  attempt_refuses, attempt_ends, attempt_again,
}

le→ltb_false : (a b : ℕ) → b ≤ a → ltb a b ≡ false
le→ltb_false a b h = ground arith

give_up-counts :
    (d : Double) (m : Manager d) (c : RetryContext d)
    → ((give_up d m c).consecutive_failures ≡ u64 (m.consecutive_failures + 1))
      × ((give_up d m c).circuit_breaker_open ≡ (
          if leb m.circuit_breaker_threshold (u64 (m.consecutive_failures + 1))
          then true
          else m.circuit_breaker_open))
unfolding give_up
give_up-counts d m c = (refl, refl)

module _ {ℓ} (d : Double) {V : Type ℓ} (m : Manager d) (config : RetryConfig d)
    (w : World d V) where
  -- Rounds `i` to `i + r - 1` fail and are retried, and round `i + r` returns.
  attempt-done :
      (r fuel i k : ℕ) (v : V) (c : RetryContext d) (sleeps : List ℕ)
      → IsAt d m config w c i
      → config.max_attempts < 18446744073709551615
      → i + r ≡ k
      → ((k < config.max_attempts) ⊎ (r ≡ 0))
      → r < fuel
      → ((j : ℕ) → i ≤ j → j < k → Retried d m config w j)
      → w.op k ≡ returns v
      → ((attempt d fuel m config w c i sleeps).ending ≡ done v)
        × ((attempt d fuel m config w c i sleeps).calls ≡ k + 1)
        × ((attempt d fuel m config w c i sleeps).manager.consecutive_failures ≡ 0)
  attempt-done r zero i k v c sleeps a b s l h f e = absurd (omega arith)
  attempt-done zero (suc fuel) i k v c sleeps a b s l h f e =
      let i-eq : k ≡ i = omega arith in
      rw (attempt_returns d m config w fuel c i sleeps v (rw i-eq at e)) (refl, omega arith, refl)
  attempt-done (suc r) (suc fuel) i k v c sleeps a b s l h f e =
      let lt : k < config.max_attempts = elim l [ inl q ↦ q | inr q ↦ absurd (omega arith) ] in
      let (x, t, g) = f i (omega arith) (omega arith) in
      let a' =
        after-IsAt d m config w c i (type_of d m config w x) x (w.clock i) (w.draw i) a
          (omega arith) in
      let again =
        can_retry-at d m config w (after d m config w c i x) (i + 1) a'
        ∙ lt→ltb (i + 1) config.max_attempts (omega arith) in
      rw (attempt_again d m config w fuel c i sleeps x g t again) (
        attempt-done r fuel (i + 1) k v (after d m config w c i x) _ a' b (omega arith) (inl lt)
          (omega arith) (λ j p q. f j (omega arith) q) e)

  -- Rounds `i` to the last one allowed fail and are retried.
  attempt-exhausted :
      (r fuel i : ℕ) (c : RetryContext d) (sleeps : List ℕ)
      → IsAt d m config w c i
      → config.max_attempts < 18446744073709551615
      → i + suc r ≡ config.max_attempts
      → r < fuel
      → ((j : ℕ) → i ≤ j → j < config.max_attempts → Retried d m config w j)
      → let q = attempt d fuel m config w c i sleeps in
        (q.ending ≡ exhausted config.max_attempts)
        × (q.calls ≡ config.max_attempts)
        × (q.manager.consecutive_failures ≡ u64 (m.consecutive_failures + 1))
        × (q.manager.circuit_breaker_open ≡ (
            if leb m.circuit_breaker_threshold (u64 (m.consecutive_failures + 1))
            then true
            else m.circuit_breaker_open))
  attempt-exhausted r zero i c sleeps a b s h f = absurd (omega arith)
  attempt-exhausted zero (suc fuel) i c sleeps a b s h f =
      let (x, t, g) = f i (omega arith) (omega arith) in
      let a' =
        after-IsAt d m config w c i (type_of d m config w x) x (w.clock i) (w.draw i) a
          (omega arith) in
      let stop =
        can_retry-at d m config w (after d m config w c i x) (i + 1) a'
        ∙ le→ltb_false (i + 1) config.max_attempts (omega arith) in
      rw (attempt_ends d m config w fuel c i sleeps x g t stop) (
        ap exhausted (a'.0 ∙ (omega arith)),
        omega arith,
        (give_up-counts d m (after d m config w c i x)).0,
        (give_up-counts d m (after d m config w c i x)).1,
      )
  attempt-exhausted (suc r) (suc fuel) i c sleeps a b s h f =
      let (x, t, g) = f i (omega arith) (omega arith) in
      let a' =
        after-IsAt d m config w c i (type_of d m config w x) x (w.clock i) (w.draw i) a
          (omega arith) in
      let again =
        can_retry-at d m config w (after d m config w c i x) (i + 1) a'
        ∙ lt→ltb (i + 1) config.max_attempts (omega arith) in
      rw (attempt_again d m config w fuel c i sleeps x g t again) (
        attempt-exhausted r fuel (i + 1) (after d m config w c i x) _ a' b (omega arith)
          (omega arith) (λ j p q. f j (omega arith) q))

module _ {ℓ} (d : Double) {V : Type ℓ} (m : Manager d) (name : Text) (config : RetryConfig d)
    (w : World d V) where
  -- With the breaker closed: if the first `k` calls fail with errors that are retried, call `k` returns a
  -- value, and `k` is zero or within the attempts allowed, then `executeWithRetry` returns that value after
  -- `k + 1` calls, and the count of failures in a row is zero.
  pub execute-done :
      (k : ℕ) (v : V)
      → m.circuit_breaker_open ≡ false
      → config.max_attempts < 18446744073709551615
      → ((k < config.max_attempts) ⊎ (k ≡ 0))
      → ((j : ℕ) → j < k → Retried d m config w j)
      → w.op k ≡ returns v
      → let q = execute_with_retry d m name config w in
        (q.ending ≡ done v) × (q.calls ≡ k + 1) × (q.manager.consecutive_failures ≡ 0)
  unfolding new_context
  execute-done k v o b l f e = rw (execute_closed d m name config w o) (
      attempt-done d m config w k (config.max_attempts + 1) 0 k v (new_context d name config) []
        (refl, refl) b (omega arith) l (elim l [ inl p ↦ omega arith | inr p ↦ omega arith ])
        (λ j p q. f j q) e)

  -- With the breaker closed: if every call allowed fails with an error that is retried, and at least one is
  -- allowed, then the call is exhausted after exactly the attempts allowed, the failures in a row are one
  -- more, and the breaker opens exactly if they have reached its threshold.
  pub execute-exhausted :
      m.circuit_breaker_open ≡ false
      → 0 < config.max_attempts
      → config.max_attempts < 18446744073709551615
      → ((j : ℕ) → j < config.max_attempts → Retried d m config w j)
      → let q = execute_with_retry d m name config w in
        (q.ending ≡ exhausted config.max_attempts)
        × (q.calls ≡ config.max_attempts)
        × (q.manager.consecutive_failures ≡ u64 (m.consecutive_failures + 1))
        × (q.manager.circuit_breaker_open
            ≡ leb m.circuit_breaker_threshold (u64 (m.consecutive_failures + 1)))
  unfolding new_context
  execute-exhausted o p b f =
      let (x, y, z, u) =
        attempt-exhausted d m config w (config.max_attempts - 1) (config.max_attempts + 1) 0
          (new_context d name config) [] (refl, refl) b (omega arith) (omega arith)
          (λ j _ q. f j q) in
      rw (execute_closed d m name config w o) (x, y, z, u ∙ (ground arith))

  -- A configuration that names no recoverable error retries none: the first exception ends the call, although
  -- the context that the call makes has the default errors in its own configuration.
  pub execute-no_recoverable :
      (x : Text)
      → m.circuit_breaker_open ≡ false
      → config.recoverable_errors ≡ []
      → w.op 0 ≡ raises x
      → ((execute_with_retry d m name config w).ending ≡ non_recoverable x)
        × ((execute_with_retry d m name config w).calls ≡ 1)
        × ((new_context d name config).config.recoverable_errors ≡ default_recoverable)
  unfolding is_in new_context
  execute-no_recoverable x o n e =
      let full : config.max_attempts + 1 ≡ suc config.max_attempts = omega arith in
      let refused =
        attempt_refuses d m config w config.max_attempts (new_context d name config) 0 [] x e
          (rw n) in
      (
        rw (execute_closed d m name config w o, full, refused),
        rw (execute_closed d m name config w o, full, refused) (omega arith),
        ap or_default n,
      )

-- ===== src/Recovery/Calls.antt =====
-- How often the retry loop calls the operation, and how a call ends.
use bb_pipeline.Common.{
  ℕ, zero, suc, ◌+◌, ◌≤◌, ◌<◌, ◌≡◌, ◌≢◌, ◌⊎◌, refl, inl, inr, true, false, List, [], ◌∷◌, ◌++◌,
  Text, arith, Bool-cases, ltb→lt, ltb, sym, ◌∙◌,
}
use bb_pipeline.Common.Double.{Double}
use bb_pipeline.Recovery.Classify.{ErrorType, is_in, classify_error}
use bb_pipeline.Recovery.Context.{
  RetryConfig, RetryContext, new_context, record_attempt, can_retry, next_delay,
}
use bb_pipeline.Recovery.Manager.{Manager}
use bb_pipeline.Recovery.Loop.{
  report, Outcome, returns, raises_final, raises, raises_foreign, foreign, done, circuit_open,
  rethrown, non_recoverable, exhausted, out_of_fuel, World, Report, attempt, execute_with_retry,
  give_up, finish, succeed,
}

module _ (d : Double) where
  pub record_attempt-counts :
      (c : RetryContext d) (i : ℕ) (t : ErrorType) (e : Text) (now : ℕ) (draw : d.F → d.F)
      → c.current_attempt ≡ i
      → i + 1 < 18446744073709551616
      → ((record_attempt d c t e now draw).current_attempt ≡ i + 1)
        × ((record_attempt d c t e now draw).config ≡ c.config)
  unfolding record_attempt
  record_attempt-counts c i t e now draw h k = (omega arith, refl)

pub Outcome-cases {ℓ} :
    {V : Type ℓ} (o : Outcome V)
    → ((v : V) × (o ≡ returns v))
      ⊎ (((x : Text) × (o ≡ raises_final x))
          ⊎ (((x : Text) × (o ≡ raises x)) ⊎ (o ≡ raises_foreign)))
Outcome-cases (returns v) = inl (v, refl)
Outcome-cases (raises_final x) = inr (inl (x, refl))
Outcome-cases (raises x) = inr (inr (inl (x, refl)))
Outcome-cases raises_foreign = inr (inr (inr refl))

module _ {ℓ} (d : Double) {V : Type ℓ} (m : Manager d) (config : RetryConfig d)
    (w : World d V) where
  abbrev pub n : ℕ
  n = config.max_attempts

  abbrev pub IsAt : RetryContext d → ℕ → Type 0
  IsAt c i = (c.current_attempt ≡ i) × (c.config.max_attempts ≡ n)

  pub after-IsAt :
      (c : RetryContext d) (i : ℕ) (t : ErrorType) (e : Text) (now : ℕ) (draw : d.F → d.F)
      → IsAt c i
      → i + 1 < 18446744073709551616
      → IsAt (record_attempt d c t e now draw) (i + 1)
  unfolding record_attempt
  after-IsAt c i t e now draw h k = (omega arith, h.1)

  pub can_retry-at : (c : RetryContext d) (i : ℕ) → IsAt c i → can_retry d c ≡ ltb i n
  unfolding can_retry
  can_retry-at c i a = rw (a.0, a.1)

  abbrev pub type_of : Text → ErrorType
  type_of e = classify_error m.error_classifiers e

  abbrev pub after : RetryContext d → ℕ → Text → RetryContext d
  after c i e = record_attempt d c (type_of e) e (w.clock i) (w.draw i)

  -- Call `i` fails with an error that is retried.
  abbrev pub Retried : ℕ → Type ℓ
  Retried i =
      (e : Text) × (is_in (type_of e) config.recoverable_errors ≡ true) × (w.op i ≡ raises e)

  module _ (fuel : ℕ) (c : RetryContext d) (i : ℕ) (sleeps : List ℕ) where
    pub attempt_returns :
        (v : V)
        → w.op i ≡ returns v
        → attempt d (suc fuel) m config w c i sleeps
          ≡ report d (succeed d m c) (done v) (i + 1) sleeps
    unfolding attempt
    attempt_returns v e = rw (e, attempt)

    pub attempt_rethrows :
        (x : Text)
        → w.op i ≡ raises_final x
        → attempt d (suc fuel) m config w c i sleeps
          ≡ report d (finish d m c false) (rethrown x) (i + 1) sleeps
    unfolding attempt
    attempt_rethrows x e = rw (e, attempt)

    pub attempt_escapes :
        w.op i ≡ raises_foreign
        → attempt d (suc fuel) m config w c i sleeps ≡ report d m foreign (i + 1) sleeps
    unfolding attempt
    attempt_escapes e = rw (e, attempt)

    pub attempt_refuses :
        (x : Text)
        → w.op i ≡ raises x
        → is_in (type_of x) config.recoverable_errors ≡ false
        → attempt d (suc fuel) m config w c i sleeps
          ≡ report d (finish d m c false) (non_recoverable x) (i + 1) sleeps
    unfolding attempt
    attempt_refuses x e h = rw (e, attempt) (rw h)

    pub attempt_ends :
        (x : Text)
        → w.op i ≡ raises x
        → is_in (type_of x) config.recoverable_errors ≡ true
        → can_retry d (after c i x) ≡ false
        → attempt d (suc fuel) m config w c i sleeps
          ≡ report d
              (give_up d m (after c i x))
              (exhausted (after c i x).current_attempt)
              (i + 1)
              sleeps
    unfolding attempt
    attempt_ends x e h k = rw (e, attempt) (rw (h, k))

    pub attempt_again :
        (x : Text)
        → w.op i ≡ raises x
        → is_in (type_of x) config.recoverable_errors ≡ true
        → can_retry d (after c i x) ≡ true
        → attempt d (suc fuel) m config w c i sleeps
          ≡ attempt d fuel m config w
              (after c i x)
              (i + 1)
              (sleeps ++ next_delay d (after c i x) (w.draw_sleep i) ∷ [])
    unfolding attempt
    attempt_again x e h k = rw (e, attempt) (rw (h, k))

  abbrev pub Bounded : Report d V → ℕ → Type ℓ
  Bounded r i = (r.ending ≢ out_of_fuel) × ((r.calls ≤ i + 1) ⊎ (r.calls ≤ n))

  -- The call ends, and the operation is called once or at most as often as the attempts allowed.
  attempt-Bounded :
      (fuel : ℕ) (c : RetryContext d) (i : ℕ) (sleeps : List ℕ)
      → IsAt c i
      → n < 18446744073709551615
      → i ≤ n
      → n < i + fuel
      → Bounded (attempt d fuel m config w c i sleeps) i
  attempt-Bounded zero c i sleeps a b h k = absurd (omega arith)
  attempt-Bounded (suc fuel) c i sleeps a b h k = elim (Outcome-cases (w.op i)) [
    | inl (v, e) ↦ rw (attempt_returns fuel c i sleeps v e) ((λ q. cc), inl (omega arith))
    | inr (inl (x, e)) ↦ rw (attempt_rethrows fuel c i sleeps x e) ((λ q. cc), inl (omega arith))
    | inr (inr (inr e)) ↦ rw (attempt_escapes fuel c i sleeps e) ((λ q. cc), inl (omega arith))
    | inr (inr (inl (x, e))) ↦ elim (Bool-cases (is_in (type_of x) config.recoverable_errors)) [
      | inr f ↦ rw (attempt_refuses fuel c i sleeps x e f) ((λ q. cc), inl (omega arith))
      | inl t ↦ elim (Bool-cases (can_retry d (after c i x))) [
        | inr f ↦ rw (attempt_ends fuel c i sleeps x e t f) ((λ q. cc), inl (omega arith))
        | inl g ↦
            let a' = after-IsAt c i (type_of x) x (w.clock i) (w.draw i) a (omega arith) in
            let lt = ltb→lt (i + 1) n (sym (can_retry-at (after c i x) (i + 1) a') ∙ g) in
            let ih =
              attempt-Bounded fuel (after c i x) (i + 1) _ a' b (omega arith) (omega arith) in
            rw (attempt_again fuel c i sleeps x e t g)
              (ih.0, elim ih.1 [ inl q ↦ inr (omega arith) | inr q ↦ inr q ])
      ]
    ]
  ]

module _ {ℓ} (d : Double) {V : Type ℓ} (m : Manager d) (name : Text) (config : RetryConfig d)
    (w : World d V) where
  pub execute_closed :
      m.circuit_breaker_open ≡ false
      → execute_with_retry d m name config w
        ≡ attempt d (config.max_attempts + 1) m config w (new_context d name config) 0 []
  unfolding execute_with_retry
  execute_closed f = simp f

  pub execute_open :
      m.circuit_breaker_open ≡ true
      → execute_with_retry d m name config w ≡ report d m circuit_open 0 []
  unfolding execute_with_retry
  execute_open t = simp t

-- `executeWithRetry` always ends, for every operation and every manager, and it calls the operation at
-- most once or at most as often as the attempts allowed (which are fewer than 2^64 - 1).
pub execute_bounded {ℓ} :
    (d : Double) {V : Type ℓ} (m : Manager d) (name : Text) (config : RetryConfig d) (w : World d V)
    → config.max_attempts < 18446744073709551615
    → ((execute_with_retry d m name config w).ending ≢ out_of_fuel)
      × (((execute_with_retry d m name config w).calls ≤ 1)
          ⊎ ((execute_with_retry d m name config w).calls ≤ config.max_attempts))
unfolding new_context
execute_bounded d m name config w h = elim (Bool-cases m.circuit_breaker_open) [
  | inl t ↦ rw (execute_open d m name config w t) ((λ q. cc), inl (omega arith))
  | inr f ↦ rw (execute_closed d m name config w f) (
      let (a, b) =
        attempt-Bounded d m config w (config.max_attempts + 1) (new_context d name config) 0 []
          (refl, refl) h (omega arith) (omega arith) in
      (a, elim b [ inl q ↦ inl (omega arith) | inr q ↦ inr q ]))
]

-- ===== src/Orchestrator/Analyzer/Order.antt =====
-- The order of execution: every stage stands behind all that it depends on.
use bb_pipeline.Common.{
  ℕ, zero, suc, ◌+◌, ◌≤◌, ◌≡◌, refl, sym, ap, ◌∙◌, true, false, Option, none, some, List, [], ◌∷◌,
  ◌++◌, Text, ◌=t◌, text-eq, eq→text, Dict, lookup, if◌then◌else◌, length, arith, Bool-cases,
  Option-cases, inl, inr, ◌≢◌,
}
use mathlib.Core.Path.{subst}
use bb_pipeline.Orchestrator.Dependencies.{PipelineStageConfig}
use bb_pipeline.Orchestrator.Analyzer.{
  ℤ, pos, entry_or, Analyzer, analyzer, kahn_loop, initial_queue, in_degrees, topological_sort,
}
use bb_pipeline.Orchestrator.Analyzer.Counting.{
  count, member, pending, count-snoc, pending-snoc, pending-zero,
}
use bb_pipeline.Orchestrator.Analyzer.Kahn.{Inv, one_if_zero, count_self, release_dependents-Inv}
use bb_pipeline.Orchestrator.Analyzer.Building.{WellBuilt, Distinct, WellBuilt-analyzer}
use bb_pipeline.Orchestrator.Analyzer.Degrees.{Inv-initial}

-- A list of stages of the graph, without repetition, each behind all of its dependencies.
pub data IsOrdered (g : Dict (List Text)) : List Text → Type 0 where
  nothing : IsOrdered g []
  behind :
      {xs : List Text} (x : Text) (deps : List Text)
      → IsOrdered g xs
      → lookup x g ≡ some deps
      → count x xs ≡ 0
      → ((d : Text) → member d deps ≡ true → member d xs ≡ true)
      → IsOrdered g (xs ++ x ∷ [])

-- The stages that are not put out.
abbrev missing : Dict (List Text) → List Text → ℕ
missing [] done = 0
missing ((k, deps) ∷ g) done = let rest = missing g done in if member k done then rest else suc rest

missing-snoc_le :
    (g : Dict (List Text)) (done : List Text) (x : Text)
    → missing g (done ++ x ∷ []) ≤ missing g done
missing-snoc_le [] done x = omega arith
missing-snoc_le ((k, deps) ∷ g) done x =
    ground (arith, missing-snoc_le g done x, count-snoc k done x)

missing-snoc :
    (g : Dict (List Text)) (done : List Text) (x : Text) (deps : List Text)
    → lookup x g ≡ some deps
    → count x done ≡ 0
    → suc (missing g (done ++ x ∷ [])) ≤ missing g done
unfolding lookup
missing-snoc [] done x deps h c = cc
missing-snoc ((k, ds) ∷ g) done x deps h c = elim (Bool-cases (k =t x)) [
  | inl t ↦
      let same = text-eq k x t in
      let absent : count k done ≡ 0 = subst (λ y. count y done ≡ 0) (sym same) c in
      let le = missing-snoc_le g done x in
      let more = count-snoc k done x in ground (arith, absent, le, more, eq→text x k (sym same))
  | inr f ↦
      let e : lookup x g ≡ some deps = rw f at h in
      ground (arith, missing-snoc g done x deps e c, count-snoc k done x)
]

missing-bounded : (g : Dict (List Text)) → missing g [] ≡ length g
missing-bounded [] = refl
missing-bounded ((k, deps) ∷ g) = ap suc (missing-bounded g)

module _ (a : Analyzer) (w : WellBuilt a) where
  abbrev pub g : Dict (List Text)
  g = a.dependency_graph

  -- What the loop returns: an order, in which the stages are left out that wait for a stage that is left out.
  abbrev pub Sorts : Option (List Text) → Type 0
  Sorts none = ⊥
  Sorts (some result) =
      IsOrdered g result
      × ((k : Text) (deps : List Text)
          → lookup k g ≡ some deps
          → member k result ≡ false
          → pending deps result ≢ 0)

  queued_stage :
      (degrees : Dict ℤ) (done queue : List Text) (c : Text)
      → Inv g degrees done (c ∷ queue) []
      → (deps : List Text) × (lookup c g ≡ some deps)
  queued_stage degrees done queue c i = elim (Option-cases (lookup c g)) [
    | inl absent ↦
        let (z, _) = i.strangers c absent in absurd (omega (arith, z, count_self g c queue))
    | inr found ↦ found
  ]

  -- Its own place is the only one, and nothing is pending.
  alone : (n m p : ℕ) → n + suc m ≡ one_if_zero (p + 0) → (n ≡ 0) × (p ≡ 0)
  alone n m p h = ground arith

  moved :
      (done queue : List Text) (c k : Text)
      → count k (done ++ c ∷ []) + count k queue ≡ count k done + count k (c ∷ queue)
  moved done queue c k = ground (arith, count-snoc k done c)

  left_over :
      (done : List Text) (c k : Text) (kdeps : List Text)
      → count c done ≡ 0
      → lookup k g ≡ some kdeps
      → pending kdeps done + 0
        ≡ pending kdeps (done ++ c ∷ []) + count k (entry_or [] c a.reverse_dependency_graph)
  left_over done c k kdeps fresh f =
      omega (arith, pending-snoc kdeps done c fresh, w.mirrored k c kdeps f)

  left_out :
      (done : List Text) (degrees : Dict ℤ) (k : Text) (deps : List Text)
      → Inv g degrees done [] []
      → lookup k g ≡ some deps
      → member k done ≡ false
      → pending deps done ≢ 0
  left_out done degrees k deps i e m p = ground (arith, i.placed k deps e)

  -- Taking a stage from the queue: its dependents are to be visited next.
  Inv-taken :
      (degrees : Dict ℤ) (done queue : List Text) (c : Text)
      → Inv g degrees done (c ∷ queue) []
      → (deps : List Text) × (lookup c g ≡ some deps)
        × (count c done ≡ 0)
        × (pending deps done ≡ 0)
        × Inv g degrees (done ++ c ∷ []) queue (entry_or [] c a.reverse_dependency_graph)
  Inv-taken degrees done queue c i =
      let self = count_self g c queue in
      let (deps, e) = queued_stage degrees done queue c i in
      let at_c : count c done + suc (count c queue) ≡ one_if_zero (pending deps done + 0) =
        omega (arith, i.placed c deps e, self) in
      let (fresh, settled) = alone (count c done) (count c queue) (pending deps done) at_c in
      (
        deps,
        e,
        fresh,
        settled,
        record {
          degree = λ k kdeps f.
              i.degree k kdeps f ∙ ap (λ n. some (pos n)) (left_over done c k kdeps fresh f);
          placed = λ k kdeps f. omega (
            arith,
            moved done queue c k,
            i.placed k kdeps f,
            ap one_if_zero (left_over done c k kdeps fresh f),
          );
          strangers = λ k f.
              let (z, _) = i.strangers k f in
              (omega (arith, moved done queue c k, z), w.foreign k c f);
        },
      )

  -- What the loop puts out from any of its states.
  kahn_loop-Sorts :
      (fuel : ℕ) (degrees : Dict ℤ) (queue done : List Text)
      → Inv g degrees done queue []
      → IsOrdered g done
      → missing g done ≤ fuel
      → Sorts (kahn_loop a fuel degrees queue done)
  unfolding kahn_loop
  kahn_loop-Sorts fuel degrees [] done i o h =
      (o, λ k deps e m p. left_out done degrees k deps i e m p)
  kahn_loop-Sorts zero degrees (c ∷ queue) done i o h =
      let (deps, e, fresh, settled, next) = Inv-taken degrees done queue c i in
      absurd (omega (arith, h, missing-snoc g done c deps e fresh))
  kahn_loop-Sorts (suc fuel) degrees (c ∷ queue) done i o h =
      let (deps, e, fresh, settled, next) = Inv-taken degrees done queue c i in
      let released = release_dependents-Inv g (entry_or [] c a.reverse_dependency_graph) next in
      kahn_loop-Sorts fuel _ _ (done ++ c ∷ []) released
        (behind c deps o e fresh (λ d m. pending-zero deps done d settled m))
        (omega (arith, h, missing-snoc g done c deps e fresh))

-- With distinct ids, `topologicalSort` ends within as many rounds as there are stages, and lists stages without
-- repetition, each behind all of its dependencies; a stage that it leaves out has a dependency that it leaves out or
-- that is no stage.
pub topological_sort-Sorts :
    (stages : List PipelineStageConfig) (d : Distinct stages)
    → Sorts (analyzer stages) (WellBuilt-analyzer stages d) (topological_sort (analyzer stages))
unfolding topological_sort
topological_sort-Sorts stages d =
    let a = analyzer stages in
    let w = WellBuilt-analyzer stages d in
    kahn_loop-Sorts a w (length a.dependency_graph) (in_degrees a) (initial_queue (in_degrees a)) []
      (Inv-initial a w.unique) nothing (omega (arith, missing-bounded a.dependency_graph))

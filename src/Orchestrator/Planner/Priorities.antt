-- ===== src/Orchestrator/Planner/Priorities.antt =====
-- `optimizeExecutionOrder` sorts the topological order by priority and timeout, and by nothing else.
use bb_pipeline.Common.{
  ℕ, ◌+◌, ◌≤◌, ◌≡◌, refl, sym, ◌∙◌, true, false, Option, none, some, List, [], ◌∷◌, ◌++◌, Text,
  lookup, arith, All, Bool-cases, inl, inr,
}
use bb_pipeline.Orchestrator.Dependencies.{
  PipelineStageConfig, PipelineStagePriority, low, normal, high, critical,
}
use bb_pipeline.Orchestrator.Analyzer.{analyzer, topological_sort}
use bb_pipeline.Orchestrator.Analyzer.Counting.{count}
use bb_pipeline.Orchestrator.Analyzer.Building.{Distinct, WellBuilt-analyzer}
use bb_pipeline.Orchestrator.Analyzer.Order.{
  IsOrdered, nothing, behind, Sorts, topological_sort-Sorts,
}
use bb_pipeline.Orchestrator.Planner.{
  find_stage, goes_before, id_before, insert_id, stable_sort, optimize_execution_order,
}
use bb_pipeline.Orchestrator.Planner.Levels.{find_stage-add_stages}

-- The order of urgency, from the lowest.
abbrev pub rank : PipelineStagePriority → ℕ
rank low = 1
rank normal = 2
rank high = 3
rank critical = 4

-- A stage that does not go before another.
not_before :
    (t s : PipelineStageConfig)
    → goes_before t s ≡ false
    → (rank t.priority ≤ rank s.priority)
      × (rank t.priority ≡ rank s.priority → s.timeout ≤ t.timeout)
not_before t s h = ground arith

-- Of a stage that goes before another, nothing goes after the other goes before.
before_trans :
    (x y z : PipelineStageConfig)
    → goes_before x y ≡ true
    → goes_before z y ≡ false
    → goes_before z x ≡ false
before_trans x y z h k = ground arith

before_irrefl : (x y : PipelineStageConfig) → goes_before x y ≡ true → goes_before y x ≡ false
before_irrefl x y h = ground arith

module _ (stages : List PipelineStageConfig) where
  abbrev IsKnown : Text → Type 0
  IsKnown x = (s : PipelineStageConfig) × (find_stage x stages ≡ some s)

  before_of :
      (x y : Text) (s t : PipelineStageConfig)
      → find_stage x stages ≡ some s
      → find_stage y stages ≡ some t
      → id_before stages x y ≡ goes_before s t
  unfolding id_before
  before_of x y s t h k = rw (h, k, id_before) refl

  -- The first goes by its own merits: no stage of the list has a higher priority, or the same priority and
  -- a shorter timeout.
  abbrev pub NotOutranked : Text → List Text → Type 0
  NotOutranked x = All (λ y.
      (s t : PipelineStageConfig)
      → find_stage x stages ≡ some s
      → find_stage y stages ≡ some t
      → (rank t.priority ≤ rank s.priority)
        × (rank t.priority ≡ rank s.priority → s.timeout ≤ t.timeout))

  abbrev pub IsRanked : List Text → Type 0
  IsRanked [] = Unit
  IsRanked (x ∷ xs) = NotOutranked x xs × IsRanked xs

  -- No stage of the list goes before the first.
  abbrev IsLeast : Text → List Text → Type 0
  IsLeast x = All (λ y. id_before stages y x ≡ false)

  abbrev IsSorted : List Text → Type 0
  IsSorted [] = Unit
  IsSorted (x ∷ xs) = IsLeast x xs × IsSorted xs

  IsLeast-NotOutranked : (x : Text) (ys : List Text) → IsLeast x ys → NotOutranked x ys
  IsLeast-NotOutranked x [] l = tt
  IsLeast-NotOutranked x (y ∷ ys) (l, ls) =
      ((λ s t h k. not_before t s (sym (before_of y x t s k h) ∙ l)), IsLeast-NotOutranked x ys ls)

  IsSorted-IsRanked : (xs : List Text) → IsSorted xs → IsRanked xs
  IsSorted-IsRanked [] s = tt
  IsSorted-IsRanked (x ∷ xs) (l, s) = (IsLeast-NotOutranked x xs l, IsSorted-IsRanked xs s)

  IsLeast-smaller :
      (x y : Text) (ys : List Text)
      → IsKnown x
      → IsKnown y
      → All IsKnown ys
      → id_before stages x y ≡ true
      → IsLeast y ys
      → IsLeast x ys
  IsLeast-smaller x y [] kx ky ks h l = tt
  IsLeast-smaller x y (z ∷ ys) (sx, hx) (sy, hy) ((sz, hz), ks) h (l, ls) = (
    before_of z x sz sx hz hx
        ∙ before_trans sx sy sz (sym (before_of x y sx sy hx hy) ∙ h)
            (sym (before_of z y sz sy hz hy) ∙ l),
    IsLeast-smaller x y ys (sx, hx) (sy, hy) ks h ls,
  )

  IsLeast-insert_id :
      (x y : Text) (ys : List Text)
      → id_before stages x y ≡ false
      → IsLeast y ys
      → IsLeast y (insert_id stages x ys)
  unfolding insert_id
  IsLeast-insert_id x y [] h l = (h, tt)
  IsLeast-insert_id x y (z ∷ ys) h (l, ls) = elim (Bool-cases (id_before stages x z)) [
    | inl t ↦ simp t (h, (l, ls))
    | inr f ↦ simp f (l, IsLeast-insert_id x y ys h ls)
  ]

  IsSorted-insert_id :
      (x : Text) (ys : List Text)
      → IsKnown x
      → All IsKnown ys
      → IsSorted ys
      → IsSorted (insert_id stages x ys)
  unfolding insert_id
  IsSorted-insert_id x [] kx ks s = (tt, tt)
  IsSorted-insert_id x (y ∷ ys) kx (ky, ks) (l, s) = elim (Bool-cases (id_before stages x y)) [
    | inl t ↦
        let (sx, hx) = kx in
        let (sy, hy) = ky in
        let back : id_before stages y x ≡ false =
          before_of y x sy sx hy hx ∙ before_irrefl sx sy (sym (before_of x y sx sy hx hy) ∙ t) in
        simp t ((back, IsLeast-smaller x y ys kx ky ks t l), (l, s))
    | inr f ↦ simp f (IsLeast-insert_id x y ys f l, IsSorted-insert_id x ys kx ks s)
  ]

  All-insert_id :
      (x : Text) (ys : List Text) → IsKnown x → All IsKnown ys → All IsKnown (insert_id stages x ys)
  unfolding insert_id
  All-insert_id x [] k ks = (k, tt)
  All-insert_id x (y ∷ ys) k (ky, ks) = elim (Bool-cases (id_before stages x y)) [
    | inl t ↦ simp t (k, (ky, ks))
    | inr f ↦ simp f (ky, All-insert_id x ys k ks)
  ]

  count-insert_id :
      (k x : Text) (ys : List Text) → count k (insert_id stages x ys) ≡ count k (x ∷ ys)
  unfolding insert_id
  count-insert_id k x [] = refl
  count-insert_id k x (y ∷ ys) = ground (arith, count-insert_id k x ys)

  -- Sorting keeps every stage, and sorts.
  abbrev pub IsSortOf : List Text → List Text → Type 0
  IsSortOf order result = IsRanked result × ((k : Text) → count k result ≡ count k order)

  stable_sort-IsSorted :
      (xs sorted : List Text)
      → All IsKnown xs
      → All IsKnown sorted
      → IsSorted sorted
      → IsSorted (stable_sort stages xs sorted)
        × ((k : Text) → count k (stable_sort stages xs sorted) ≡ count k xs + count k sorted)
  unfolding stable_sort
  stable_sort-IsSorted [] sorted ks ls s = (s, λ k. omega arith)
  stable_sort-IsSorted (x ∷ xs) sorted (k, ks) ls s =
      let (a, b) =
        stable_sort-IsSorted xs (insert_id stages x sorted) ks (All-insert_id x sorted k ls)
          (IsSorted-insert_id x sorted k ls s) in
      (a, λ j. ground (arith, b j, count-insert_id j x sorted))

All-snoc :
    {A : Type 0} (P : A → Type 0) (xs : List A) (x : A) → All P xs → P x → All P (xs ++ x ∷ [])
All-snoc P [] x ps p = (p, tt)
All-snoc P (y ∷ xs) x (q, ps) p = (q, All-snoc P xs x ps p)

-- Every stage of an order is one that is found.
All-IsKnown :
    (stages : List PipelineStageConfig) (order : List Text)
    → Distinct stages
    → IsOrdered (analyzer stages).dependency_graph order
    → All (IsKnown stages) order
unfolding analyzer lookup
All-IsKnown stages [] d nothing = tt
All-IsKnown stages ys d (behind {xs} x deps o e fresh all) =
    let (s, found, its) = find_stage-add_stages stages _ x deps d refl e in
    All-snoc (IsKnown stages) xs x (All-IsKnown stages xs d o) (s, found)

-- The result is the topological order, sorted.
abbrev pub Optimizes : List PipelineStageConfig → Option (List Text) → Option (List Text) → Type 0
Optimizes stages (some order) (some result) = IsSortOf stages order result
Optimizes stages _ _ = ⊥

Optimizes-sorted :
    (stages : List PipelineStageConfig) (d : Distinct stages) (o : Option (List Text))
    → Sorts (analyzer stages) (WellBuilt-analyzer stages d) o
    → Optimizes stages o (elim o [ none ↦ none | some order ↦ some (stable_sort stages order []) ])
Optimizes-sorted stages d none s = s
Optimizes-sorted stages d (some order) (ordered, rest) =
    let (a, b) = stable_sort-IsSorted stages order [] (All-IsKnown stages order d ordered) tt tt in
    (IsSorted-IsRanked stages (stable_sort stages order []) a, λ k. omega (arith, b k))

-- With distinct ids, the optimised order has the stages of the topological order, as often, and no stage in it stands
-- behind one of a lower priority (critical before high before normal before low), or of the same priority and a longer
-- timeout, whatever depends on what.
pub optimize_execution_order-Optimizes :
    (stages : List PipelineStageConfig)
    → Distinct stages
    → Optimizes stages (topological_sort (analyzer stages)) (optimize_execution_order stages)
unfolding optimize_execution_order
optimize_execution_order-Optimizes stages d =
    Optimizes-sorted stages d (topological_sort (analyzer stages)) (topological_sort-Sorts stages d)

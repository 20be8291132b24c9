-- ===== src/Orchestrator/Planner/Groups.antt =====
-- The groups of `identifyParallelGroups` stand in the order of the dependencies.
use bb_pipeline.Common.{
  ℕ, suc, ◌<◌, ◌≡◌, refl, sym, ap, ◌∙◌, true, false, Option, none, some, List, [], ◌∷◌, ◌++◌, Text,
  ◌=t◌, text-eq, Dict, lookup, insert, lookup-insert_self, arith, Bool-cases, Option-cases, inl,
  inr, if◌then◌else◌, ltb, ◌==◌,
}
use mathlib.Core.Path.{subst}
use mathlib.Core.Option
use bb_pipeline.Orchestrator.Dependencies.{PipelineStageConfig}
use bb_pipeline.Orchestrator.Analyzer.{analyzer, topological_sort}
use bb_pipeline.Orchestrator.Analyzer.Counting.{member, count-snoc}
use bb_pipeline.Orchestrator.Analyzer.Kahn.{lookup-insert_other}
use bb_pipeline.Orchestrator.Analyzer.Building.{Distinct, WellBuilt-analyzer}
use bb_pipeline.Orchestrator.Analyzer.Order.{
  IsOrdered, nothing, behind, Sorts, topological_sort-Sorts,
}
use bb_pipeline.Orchestrator.Planner.{
  Groups, stage_level, assign_levels, add_to_group, group_levels, group_lists,
  identify_parallel_groups,
}
use bb_pipeline.Orchestrator.Planner.Levels.{
  Finds, Rises-ordered, assign_levels-snoc, find_stage-add_stages,
}

-- The level of the group that a stage is in.
abbrev label_of : Text → Groups → Option ℕ
label_of y [] = none
label_of y ((m, group) ∷ groups) =
    let rest = label_of y groups in if member y group then some m else rest

label_of-add_to_group :
    (l : ℕ) (x y : Text) (groups : Groups)
    → (x =t y) ≡ false
    → label_of y (add_to_group l x groups) ≡ label_of y groups
unfolding add_to_group
label_of-add_to_group l x y [] h = ground arith
label_of-add_to_group l x y ((m, group) ∷ groups) h =
    ground (arith, count-snoc y group x, label_of-add_to_group l x y groups h)

label_of-added :
    (l : ℕ) (x y : Text) (groups : Groups)
    → (x =t y) ≡ true
    → label_of y groups ≡ none
    → label_of y (add_to_group l x groups) ≡ some l
unfolding add_to_group
label_of-added l x y [] h n = ground arith
label_of-added l x y ((m, group) ∷ groups) h n =
    ground (arith, count-snoc y group x, label_of-added l x y groups h)

-- The levels rise from one group to the next.
abbrev Above : ℕ → Groups → Type 0
Above n [] = Unit
Above n ((m, group) ∷ groups) = (n < m) × Above m groups

Above-add_to_group :
    (n l : ℕ) (x : Text) (groups : Groups)
    → n < l
    → Above n groups
    → Above n (add_to_group l x groups)
unfolding add_to_group
Above-add_to_group n l x [] h a = (h, tt)
Above-add_to_group n l x ((m, group) ∷ groups) h (b, a) = elim (Bool-cases (ltb l m)) [
  | inl t ↦ simp t (h, (ground arith, a))
  | inr f ↦ elim (Bool-cases (l == m)) [
    | inl t ↦ simp (f, t) (b, a)
    | inr g ↦ simp (f, g) (b, Above-add_to_group m l x groups (ground arith) a)
  ]
]

label_rises :
    (n : ℕ) (y : Text) (groups : Groups) (l : ℕ)
    → Above n groups
    → label_of y groups ≡ some l
    → n < l
label_rises n y [] l a h = cc
label_rises n y ((m, group) ∷ groups) l (b, a) h = ground (arith, label_rises m y groups l a)

group_levels-snoc :
    (stages : List PipelineStageConfig) (xs : List Text) (x : Text) (levels : Dict ℕ)
    (groups : Groups)
    → group_levels stages (xs ++ x ∷ []) levels groups
      ≡ add_to_group
          (stage_level stages x (assign_levels stages xs levels))
          x
          (group_levels stages xs levels groups)
unfolding group_levels assign_levels
group_levels-snoc stages [] x levels groups = refl
group_levels-snoc stages (y ∷ xs) x levels groups = group_levels-snoc stages xs x _ _

level-positive :
    (stages : List PipelineStageConfig) (x : Text) (levels : Dict ℕ)
    → 0 < stage_level stages x levels
level-positive stages x levels = ground arith

-- Where a stage stands in a list of groups.
abbrev pub group_index : Text → List (List Text) → Option ℕ
group_index y [] = none
group_index y (group ∷ groups) =
    let rest = Option.map suc (group_index y groups) in if member y group then some 0 else rest

indexed :
    (y : Text) (groups : Groups) (l : ℕ)
    → label_of y groups ≡ some l
    → (i : ℕ) × (group_index y (group_lists groups) ≡ some i)
indexed y [] l h = absurd (let k : none ≡ some l = h in cc)
indexed y ((m, group) ∷ groups) l h = elim (Bool-cases (member y group)) [
  | inl t ↦ (0, simp t refl)
  | inr f ↦ let (i, e) = indexed y groups l (simp f at h) in (suc i, simp (f, e) refl)
]

-- A lower level is an earlier place.
indexed_lower :
    (n : ℕ) (d x : Text) (groups : Groups) (l m : ℕ)
    → Above n groups
    → label_of d groups ≡ some l
    → label_of x groups ≡ some m
    → l < m
    → (i : ℕ) × (j : ℕ) × (group_index d (group_lists groups) ≡ some i)
      × (group_index x (group_lists groups) ≡ some j)
      × (i < j)
indexed_lower n d x [] l m a h k lt = absurd (let q : none ≡ some l = h in cc)
indexed_lower n d x ((p, group) ∷ groups) l m (b, a) h k lt = elim (Bool-cases (member d group)) [
  | inl t ↦ elim (Bool-cases (member x group)) [
    | inl u ↦ absurd (ground arith)
    | inr v ↦
        let (j, e) = indexed x groups m (simp v at k) in
        (0, suc j, simp t refl, simp (v, e) refl, omega arith)
  ]
  | inr f ↦ elim (Bool-cases (member x group)) [
    | inl u ↦ absurd (ground (arith, label_rises p d groups l a))
    | inr v ↦
        let (i, j, e, g, less) = indexed_lower p d x groups l m a (simp f at h) (simp v at k) lt in
        (suc i, suc j, simp (f, e) refl, simp (v, g) refl, omega arith)
  ]
]

module _ (stages : List PipelineStageConfig) (g : Dict (List Text)) where
  -- The groups after a part of the order agree with the levels.
  abbrev Grouped : List Text → Type 0
  Grouped xs =
      let groups = group_levels stages xs [] [] in
      Above 0 groups × ((y : Text) → label_of y groups ≡ lookup y (assign_levels stages xs []))

  Grouped-ordered : Finds stages g → (order : List Text) → IsOrdered g order → Grouped order
  unfolding group_levels assign_levels lookup
  Grouped-ordered finds [] nothing = (tt, λ y. refl)
  Grouped-ordered finds ys (behind {xs} x deps o e fresh all) =
      let levels = assign_levels stages xs [] in
      let groups = group_levels stages xs [] [] in
      let v = stage_level stages x levels in
      let (above, same) = Grouped-ordered finds xs o in
      let rises = Rises-ordered stages g finds xs o in
      let new : lookup x levels ≡ none = elim (Option-cases (lookup x levels)) [
        | inl n ↦ n
        | inr (l, h) ↦ let m = rises.only x l h in absurd (ground (arith, fresh, m))
      ] in
      (
        subst (Above 0) (sym (group_levels-snoc stages xs x [] []))
            (Above-add_to_group 0 v x groups (level-positive stages x levels) above),
        λ y.
            ap (label_of y) (group_levels-snoc stages xs x [] [])
            ∙ (elim (Bool-cases (x =t y)) [
              | inr f ↦
                  label_of-add_to_group v x y groups f
                  ∙ same y
                  ∙ sym (lookup-insert_other x y v levels f)
              | inl t ↦
                  label_of-added v x y groups t
                    (same y ∙ subst (λ z. lookup z levels ≡ none) (text-eq x y t) new)
                  ∙ sym (
                      subst (λ z. lookup z (insert x v levels) ≡ some v) (text-eq x y t)
                        (lookup-insert_self x v levels))
            ])
            ∙ ap (lookup y) (sym (assign_levels-snoc stages xs x [])),
      )

-- What the groups are for an order: every stage of it is in one, and behind the groups of its dependencies.
abbrev pub Layers :
    List PipelineStageConfig → Option (List Text) → Option (List (List Text)) → Type 0
Layers stages (some order) (some groups) =
    (x : Text)
    → member x order ≡ true
    → ((j : ℕ) × (group_index x groups ≡ some j))
      × ((d : Text) (deps : List Text)
          → lookup x (analyzer stages).dependency_graph ≡ some deps
          → member d deps ≡ true
          → (i : ℕ) × (j : ℕ) × (group_index d groups ≡ some i)
            × (group_index x groups ≡ some j)
            × (i < j))
Layers stages _ _ = ⊥

Layers-sorted :
    (stages : List PipelineStageConfig) (d : Distinct stages) (o : Option (List Text))
    → Sorts (analyzer stages) (WellBuilt-analyzer stages d) o
    → Layers stages o
        (elim o [ none ↦ none | some order ↦ some (group_lists (group_levels stages order [] [])) ])
unfolding analyzer lookup
Layers-sorted stages distinct none s = s
Layers-sorted stages distinct (some order) (o, rest) =
    let g = (analyzer stages).dependency_graph in
    let finds : Finds stages g = λ y ds h. find_stage-add_stages stages _ y ds distinct refl h in
    let rises = Rises-ordered stages g finds order o in
    let (above, same) = Grouped-ordered stages g finds order o in
    let groups = group_levels stages order [] [] in
    λ x m. (
      (let (l, h) = rises.leveled x m in indexed x groups l (same x ∙ h)),
      λ d deps e n.
          let (l, k, h, j, lt) = rises.below x d deps m e n in
          indexed_lower 0 d x groups l k above (same d ∙ h) (same x ∙ j) lt,
    )

-- With distinct ids, `identifyParallelGroups` returns groups in which every stage of the topological order is, and a
-- stage is in a later group than each of its dependencies.
pub identify_parallel_groups-Layers :
    (stages : List PipelineStageConfig)
    → Distinct stages
    → Layers stages (topological_sort (analyzer stages)) (identify_parallel_groups stages)
unfolding identify_parallel_groups
identify_parallel_groups-Layers stages d =
    Layers-sorted stages d (topological_sort (analyzer stages)) (topological_sort-Sorts stages d)

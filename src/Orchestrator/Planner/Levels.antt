-- ===== src/Orchestrator/Planner/Levels.antt =====
-- In a topological order every stage gets a higher level than its dependencies.
use bb_pipeline.Common.{
  ℕ, suc, ◌≤◌, ◌<◌, ◌≡◌, refl, sym, ap, ◌∙◌, true, false, none, some, List, [], ◌∷◌, ◌++◌, Text,
  ◌=t◌, text-eq, eq→text, Dict, lookup, insert, lookup-insert_self, arith, All, Bool-cases, inl,
  inr,
}
use mathlib.Core.Path.{subst}
use bb_pipeline.Orchestrator.Dependencies.{PipelineStageConfig}
use bb_pipeline.Orchestrator.Analyzer.{Analyzer, add_stages}
use bb_pipeline.Orchestrator.Analyzer.Counting.{count, member, count-snoc}
use bb_pipeline.Orchestrator.Analyzer.Kahn.{lookup-insert_other}
use bb_pipeline.Orchestrator.Analyzer.Building.{Distinct}
use bb_pipeline.Orchestrator.Analyzer.Order.{IsOrdered, nothing, behind}
use bb_pipeline.Orchestrator.Planner.{find_stage, dependency_level, stage_level, assign_levels}

pub assign_levels-snoc :
    (stages : List PipelineStageConfig) (xs : List Text) (x : Text) (levels : Dict ℕ)
    → assign_levels stages (xs ++ x ∷ []) levels
      ≡ insert x
          (stage_level stages x (assign_levels stages xs levels))
          (assign_levels stages xs levels)
unfolding assign_levels
assign_levels-snoc stages [] x levels = refl
assign_levels-snoc stages (y ∷ xs) x levels = assign_levels-snoc stages xs x _

dependency_level-above :
    (deps : List Text) (levels : Dict ℕ) (d : Text) (l : ℕ)
    → member d deps ≡ true
    → lookup d levels ≡ some l
    → l ≤ dependency_level deps levels
unfolding dependency_level
dependency_level-above [] levels d l m h = ground arith
dependency_level-above (x ∷ deps) levels d l m h =
    ground (arith, dependency_level-above deps levels d l, text-eq x d)

some-inj : {x y : List Text} → some x ≡ some y → x ≡ y
some-inj h = cc

none≢some : {x : List Text} → none ≡ some x → ⊥
none≢some h = cc

apart-All :
    (s : PipelineStageConfig) (ss : List PipelineStageConfig) (x : Text)
    → All (λ (t : PipelineStageConfig). (s.id =t t.id) ≡ false) ss
    → (s.id =t x) ≡ true
    → All (λ (t : PipelineStageConfig). (t.id =t x) ≡ false) ss
apart-All s [] x d t = tt
apart-All s (u ∷ ss) x (d, ds) t =
    (ground (arith, text-eq s.id x t, text-eq u.id x, eq→text s.id u.id, d), apart-All s ss x ds t)

-- Stages with other ids leave an entry of the graph alone.
add_stages-keeps :
    (ss : List PipelineStageConfig) (a : Analyzer) (x : Text)
    → All (λ (t : PipelineStageConfig). (t.id =t x) ≡ false) ss
    → lookup x (add_stages ss a).dependency_graph ≡ lookup x a.dependency_graph
unfolding add_stages
add_stages-keeps [] a x d = refl
add_stages-keeps (s ∷ ss) a x (d, ds) =
    add_stages-keeps ss _ x ds ∙ lookup-insert_other s.id x s.dependencies a.dependency_graph d

-- What an order and its levels agree on.
module _ (stages : List PipelineStageConfig) (g : Dict (List Text)) where
  -- The dependencies that `find_stage` finds are those of the graph.
  abbrev pub Finds : Type 0
  Finds =
      (x : Text) (deps : List Text)
      → lookup x g ≡ some deps
      → (s : PipelineStageConfig) × (find_stage x stages ≡ some s) × (s.dependencies ≡ deps)

  pub record Rises (order : List Text) (levels : Dict ℕ) : Type 0 where
    pub leveled : (x : Text) → member x order ≡ true → (l : ℕ) × (lookup x levels ≡ some l)
    pub only : (x : Text) (l : ℕ) → lookup x levels ≡ some l → member x order ≡ true
    pub below :
        (x d : Text) (deps : List Text)
        → member x order ≡ true
        → lookup x g ≡ some deps
        → member d deps ≡ true
        → (l : ℕ) × (m : ℕ) × (lookup d levels ≡ some l) × (lookup x levels ≡ some m) × (l < m)

  apart_from :
      (x d : Text) (xs : List Text) → count x xs ≡ 0 → member d xs ≡ true → (x =t d) ≡ false
  apart_from x d xs fresh m = elim (Bool-cases (x =t d)) [
    | inl t ↦
        let z : count d xs ≡ 0 = subst (λ y. count y xs ≡ 0) (text-eq x d t) fresh in
        absurd (ground (arith, z, m))
    | inr f ↦ f
  ]

  member-snoc_other :
      (x y : Text) (xs : List Text)
      → (x =t y) ≡ false
      → member y (xs ++ x ∷ []) ≡ true
      → member y xs ≡ true
  member-snoc_other x y xs f m = ground (arith, count-snoc y xs x)

  member-snoc_old :
      (x y : Text) (xs : List Text) → member y xs ≡ true → member y (xs ++ x ∷ []) ≡ true
  member-snoc_old x y xs m = ground (arith, count-snoc y xs x)

  member-snoc_self :
      (x y : Text) (xs : List Text) → (x =t y) ≡ true → member y (xs ++ x ∷ []) ≡ true
  member-snoc_self x y xs t = ground (arith, count-snoc y xs x)

  level-of_found :
      (x : Text) (levels : Dict ℕ) (s : PipelineStageConfig)
      → find_stage x stages ≡ some s
      → stage_level stages x levels ≡ suc (dependency_level s.dependencies levels)
  level-of_found x levels s h = rw (h, stage_level) refl

  Rises-snoc :
      (xs : List Text) (levels : Dict ℕ) (x : Text) (deps : List Text)
      → Finds
      → Rises xs levels
      → lookup x g ≡ some deps
      → count x xs ≡ 0
      → ((d : Text) → member d deps ≡ true → member d xs ≡ true)
      → Rises (xs ++ x ∷ []) (insert x (stage_level stages x levels) levels)
  Rises-snoc xs levels x deps finds r e fresh all =
      let v = stage_level stages x levels in
      let kept : (y : Text) (l : ℕ)
          → (x =t y) ≡ false
          → lookup y levels ≡ some l
          → lookup y (insert x v levels) ≡ some l =
        λ y l f h. lookup-insert_other x y v levels f ∙ h in
      record {
        leveled = λ y m. elim (Bool-cases (x =t y)) [
          | inl t ↦ (
            v,
            subst (λ z. lookup z (insert x v levels) ≡ some v) (text-eq x y t)
                (lookup-insert_self x v levels),
          )
          | inr f ↦ let (l, h) = r.leveled y (member-snoc_other x y xs f m) in (l, kept y l f h)
        ];
        only = λ y l h. elim (Bool-cases (x =t y)) [
          | inl t ↦ member-snoc_self x y xs t
          | inr f ↦
              member-snoc_old x y xs (r.only y l (sym (lookup-insert_other x y v levels f) ∙ h))
        ];
        below = λ y d ydeps m f n. elim (Bool-cases (x =t y)) [
          | inl t ↦
              let same = text-eq x y t in
              let mine : deps ≡ ydeps = some-inj (sym e ∙ ap (λ z. lookup z g) same ∙ f) in
              let n' : member d deps ≡ true = subst (λ z. member d z ≡ true) (sym mine) n in
              let (s, found, its) = finds x deps e in
              let (l, h) = r.leveled d (all d n') in
              let le = dependency_level-above deps levels d l n' h in
              let top : v ≡ suc (dependency_level deps levels) =
                level-of_found x levels s found ∙ ap (λ z. suc (dependency_level z levels)) its in
              (
                l,
                v,
                kept d l (apart_from x d xs fresh (all d n')) h,
                subst (λ z. lookup z (insert x v levels) ≡ some v) same
                    (lookup-insert_self x v levels),
                omega (arith, le, top),
              )
          | inr a ↦
              let (l, k, h, j, lt) = r.below y d ydeps (member-snoc_other x y xs a m) f n in
              (l, k, kept d l (apart_from x d xs fresh (r.only d l h)) h, kept y k a j, lt)
        ];
      }

  pub Rises-ordered :
      Finds → (order : List Text) → IsOrdered g order → Rises order (assign_levels stages order [])
  unfolding assign_levels lookup
  Rises-ordered finds [] nothing = record {
    leveled = λ x m. ground arith;
    only = λ x l h. cc;
    below = λ x d deps m e n. ground arith;
  }
  Rises-ordered finds ys (behind {xs} x deps o e fresh all) =
      subst (Rises (xs ++ x ∷ [])) (sym (assign_levels-snoc stages xs x [])) (
        Rises-snoc xs (assign_levels stages xs []) x deps finds (Rises-ordered finds xs o) e fresh
          all)

-- The stage that is found by its id is the one that the graph was built from.
pub find_stage-add_stages :
    (ss : List PipelineStageConfig) (a : Analyzer) (x : Text) (deps : List Text)
    → Distinct ss
    → lookup x a.dependency_graph ≡ none
    → lookup x (add_stages ss a).dependency_graph ≡ some deps
    → (s : PipelineStageConfig) × (find_stage x ss ≡ some s) × (s.dependencies ≡ deps)
unfolding find_stage add_stages
find_stage-add_stages [] a x deps d new h = absurd (none≢some (sym new ∙ h))
find_stage-add_stages (s ∷ ss) a x deps (d, ds) new h = elim (Bool-cases (s.id =t x)) [
  | inl t ↦ (
    s,
    simp t refl,
    some-inj (
        sym (
          subst
            (λ y. lookup y (insert s.id s.dependencies a.dependency_graph) ≡ some s.dependencies)
            (text-eq s.id x t) (lookup-insert_self s.id s.dependencies a.dependency_graph))
        ∙ sym (add_stages-keeps ss _ x (apart-All s ss x d t))
        ∙ h),
  )
  | inr f ↦
      let (r, found, its) =
        find_stage-add_stages ss _ x deps ds
          (lookup-insert_other s.id x s.dependencies a.dependency_graph f ∙ new) h in
      (r, simp f found, its)
]

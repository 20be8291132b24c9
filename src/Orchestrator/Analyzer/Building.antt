-- ===== src/Orchestrator/Analyzer/Building.antt =====
-- The graph and the degrees that the analyzer builds from stages with distinct ids.
use bb_pipeline.Common.{
  ◌+◌, ◌≡◌, refl, sym, ap, ◌∙◌, false, Option, none, some, List, [], ◌∷◌, ◌++◌, Text, ◌=t◌, text-eq,
  Dict, lookup, insert, lookup-insert, lookup-insert_self, Unique, Unique-insert, if◌then◌else◌,
  arith, Bool-cases, inl, inr, All,
}
use mathlib.Core.Path.{subst}
use bb_pipeline.Orchestrator.Dependencies.{PipelineStageConfig}
use bb_pipeline.Orchestrator.Analyzer.{entry_or, Analyzer, add_reverse, add_stages, analyzer}
use bb_pipeline.Orchestrator.Analyzer.Counting.{count, count-snoc}
use bb_pipeline.Orchestrator.Analyzer.Kahn.{lookup-insert_other}

entry_cong :
    (c : Text) (m : Dict (List Text)) (v : List Text) → lookup c m ≡ some v → entry_or [] c m ≡ v
entry_cong c m v h = rw (h, entry_or) refl

-- What the dependents of `c` are, as counts.
count-add_reverse :
    (id : Text) (deps : List Text) (m : Dict (List Text)) (k c : Text)
    → count k (entry_or [] c (add_reverse id deps m))
      ≡ count k (entry_or [] c m) + (if id =t k then count c deps else 0)
unfolding add_reverse
count-add_reverse id [] m k c = ground arith
count-add_reverse id (dep ∷ deps) m k c =
    let m' = insert dep (entry_or [] dep m ++ id ∷ []) m in
    let ih = count-add_reverse id deps m' k c in
    let more = count-snoc k (entry_or [] dep m) id in
    let found = lookup-insert dep c (entry_or [] dep m ++ id ∷ []) m in
    elim (Bool-cases (dep =t c)) [
      | inl t ↦
          let now : lookup c m' ≡ some (entry_or [] dep m ++ id ∷ []) = rw t at found in
          let e : entry_or [] c m' ≡ entry_or [] c m ++ id ∷ [] =
            entry_cong c m' _ now ∙ ap (λ x. entry_or [] x m ++ id ∷ []) (text-eq dep c t) in
          let n : count k (entry_or [] c m') ≡ count k (entry_or [] c m) + count k (id ∷ []) =
            ap (count k) e ∙ count-snoc k (entry_or [] c m) id in
          ground (arith, ih, n)
      | inr f ↦
          let now : lookup c m' ≡ lookup c m = rw f at found in
          let e : entry_or [] c m' ≡ entry_or [] c m =
            ap (λ (o : Option (List Text)). elim o [ none ↦ [] | some v ↦ v ]) now in
          let n : count k (entry_or [] c m') ≡ count k (entry_or [] c m) = ap (count k) e in
          ground (arith, ih, n)
    ]

-- The reverse graph lists a stage among the dependents of `c` as often as `c` is among its dependencies.
pub record WellBuilt (a : Analyzer) : Type 0 where
  pub unique : Unique a.dependency_graph
  pub mirrored :
      (k c : Text) (deps : List Text)
      → lookup k a.dependency_graph ≡ some deps
      → count k (entry_or [] c a.reverse_dependency_graph) ≡ count c deps
  pub foreign :
      (k c : Text)
      → lookup k a.dependency_graph ≡ none
      → count k (entry_or [] c a.reverse_dependency_graph) ≡ 0

-- No two stages have the same id.
abbrev pub Distinct : List PipelineStageConfig → Type 0
Distinct [] = Unit
Distinct (s ∷ rest) = All (λ t. (s.id =t t.id) ≡ false) rest × Distinct rest

abbrev AreNew : List PipelineStageConfig → Dict (List Text) → Type 0
AreNew ss g = All (λ (s : PipelineStageConfig). lookup s.id g ≡ none) ss

AreNew-insert :
    (s : PipelineStageConfig) (rest : List PipelineStageConfig) (g : Dict (List Text))
    → All (λ (t : PipelineStageConfig). (s.id =t t.id) ≡ false) rest
    → AreNew rest g
    → AreNew rest (insert s.id s.dependencies g)
AreNew-insert s [] g d n = tt
AreNew-insert s (t ∷ rest) g (d, ds) (n, ns) =
    (lookup-insert_other s.id t.id s.dependencies g d ∙ n, AreNew-insert s rest g ds ns)

some-inj : {x y : List Text} → some x ≡ some y → x ≡ y
some-inj h = cc

WellBuilt-add :
    (s : PipelineStageConfig) (a : Analyzer)
    → WellBuilt a
    → lookup s.id a.dependency_graph ≡ none
    → WellBuilt (record {
      dependency_graph = insert s.id s.dependencies a.dependency_graph;
      reverse_dependency_graph = add_reverse s.id s.dependencies a.reverse_dependency_graph;
    })
WellBuilt-add s a w new = record {
  unique = Unique-insert s.id s.dependencies a.dependency_graph w.unique;
  mirrored = λ k c deps e.
      let total = count-add_reverse s.id s.dependencies a.reverse_dependency_graph k c in
      elim (Bool-cases (s.id =t k)) [
        | inl t ↦
            let same = text-eq s.id k t in
            let none_before =
              w.foreign k c (subst (λ x. lookup x a.dependency_graph ≡ none) same new) in
            let mine : s.dependencies ≡ deps = some-inj (
              sym (lookup-insert_self s.id s.dependencies a.dependency_graph)
              ∙ ap (λ x. lookup x (insert s.id s.dependencies a.dependency_graph)) same
              ∙ e) in
            let n : count c s.dependencies ≡ count c deps = ap (count c) mine in
            ground (arith, total, none_before, n)
        | inr f ↦
            let before =
              w.mirrored k c deps
                (sym (lookup-insert_other s.id k s.dependencies a.dependency_graph f) ∙ e) in
            ground (arith, total, before)
      ];
  foreign = λ k c e.
      let total = count-add_reverse s.id s.dependencies a.reverse_dependency_graph k c in
      let f : (s.id =t k) ≡ false =
        ground (arith, lookup-insert s.id k s.dependencies a.dependency_graph, e) in
      let before =
        w.foreign k c (sym (lookup-insert_other s.id k s.dependencies a.dependency_graph f) ∙ e) in
      ground (arith, total, before);
}

WellBuilt-add_stages :
    (ss : List PipelineStageConfig) (a : Analyzer)
    → Distinct ss
    → AreNew ss a.dependency_graph
    → WellBuilt a
    → WellBuilt (add_stages ss a)
unfolding add_stages
WellBuilt-add_stages [] a d n w = w
WellBuilt-add_stages (s ∷ rest) a (d, ds) (n, ns) w =
    WellBuilt-add_stages rest _ ds (AreNew-insert s rest a.dependency_graph d ns)
      (WellBuilt-add s a w n)

AreNew-nil : (ss : List PipelineStageConfig) → AreNew ss []
unfolding lookup
AreNew-nil [] = tt
AreNew-nil (s ∷ rest) = (refl, AreNew-nil rest)

pub WellBuilt-analyzer : (ss : List PipelineStageConfig) → Distinct ss → WellBuilt (analyzer ss)
unfolding analyzer lookup
WellBuilt-analyzer ss d =
    WellBuilt-add_stages ss _ d (AreNew-nil ss)
      (record { unique = tt; mirrored = λ k c deps e. cc; foreign = λ k c e. refl })

-- ===== src/Orchestrator/Descent.antt =====
-- The recursive search from one node, on fuel: it ends with a cycle or with the node black.
use bb_pipeline.Common.{
  ℕ, zero, suc, ◌<◌, ◌≡◌, refl, sym, ◌∙◌, false, none, some, List, Text, ◌=t◌, text-eq, lookup,
  insert, lookup-insert, lookup-insert_self, arith, Bool-cases, Option-cases, ◌⊎◌, inl, inr,
}
use mathlib.Core.Path.{subst}
use bb_pipeline.Orchestrator.Dependencies.{
  Stages, gray, black, Colors, Search, found, out_of_fuel, clear, visit_dependencies,
  detect_circular_dependency_dfs,
}
use bb_pipeline.Orchestrator.Cycles.{
  Depends, DependsOn, IsBlack, IsGray, IsWhite, Inv, Grows, Grows-refl, whites, whites-painted,
  Inv-black, black-painted,
}
use bb_pipeline.Orchestrator.Cycles.{lookup-insert_other}
use bb_pipeline.Orchestrator.Search.{Answer, VisitAnswer, visit-Answer}

-- Colors of single nodes, before and after one is painted.
module _ (c : Colors) (node k : Text) where
  black-before : lookup k (insert node gray c) ≡ some black → lookup k c ≡ some black
  black-before h = ground (arith, lookup-insert node k gray c)

  gray-painted :
      lookup node c ≡ none → lookup k c ≡ some black → lookup k (insert node gray c) ≡ some black
  gray-painted w h = ground (arith, lookup-insert node k gray c, text-eq node k)

  gray-stays : lookup k c ≡ some gray → lookup k (insert node gray c) ≡ some gray
  gray-stays h = ground (arith, lookup-insert node k gray c)

  white-before : lookup k (insert node gray c) ≡ none → lookup k c ≡ none
  white-before h = ground (arith, lookup-insert node k gray c)

  white-before_black : lookup k (insert node black c) ≡ none → lookup k c ≡ none
  white-before_black h = ground (arith, lookup-insert node k black c)

not_painted :
    (node k : Text) (d : Colors) → lookup k (insert node black d) ≡ some gray → (node =t k) ≡ false
not_painted node k d h = ground (arith, lookup-insert node k black d)

other_gray :
    (c d : Colors) (node k : Text)
    → lookup node c ≡ none
    → lookup k c ≡ some gray
    → lookup k d ≡ some gray
    → lookup k (insert node black d) ≡ some gray
other_gray c d node k w h g = ground (arith, lookup-insert node k black d, text-eq node k)

module _ (stages : Stages) where
  -- Painting a white node gray changes nothing that black means.
  Inv-gray :
      (c : Colors) (node : Text)
      → Inv stages c
      → IsWhite stages c node
      → Inv stages (insert node gray c)
  Inv-gray c node i w = record {
    closed = λ a b h d. gray-painted c node b w (i.closed a b (black-before c node a h) d);
    acyclic = λ a h. i.acyclic a (black-before c node a h);
  }

  gray-cases :
      (c : Colors) (node k : Text)
      → ((j : Text) → IsGray stages c j → DependsOn stages j node)
      → IsGray stages (insert node gray c) k
      → (k ≡ node) ⊎ DependsOn stages k node
  gray-cases c node k path h = elim (Bool-cases (node =t k)) [
    | inl t ↦ inl (sym (text-eq node k t))
    | inr f ↦ inr (path k (sym (lookup-insert_other node k gray c f) ∙ h))
  ]

  -- A node painted gray, then black after the rest has grown: seen from before.
  Answer-painted :
      (c d : Colors) (node : Text)
      → IsWhite stages c node
      → Grows stages (insert node gray c) d
      → Inv stages (insert node black d)
      → Answer stages c node (clear (insert node black d))
  Answer-painted c d node w g i = (
    i,
    lookup-insert_self node black d,
    record {
      blacks = λ k h. black-painted stages d node k (g.blacks k (gray-painted c node k w h));
      grays = λ k h. other_gray c d node k w h (g.grays k (gray-stays c node k h));
      no_grays = λ k h.
          let f = not_painted node k d h in
          sym (lookup-insert_other node k gray c f)
          ∙ g.no_grays k (sym (lookup-insert_other node k black d f) ∙ h);
      whites = λ k h. white-before c node k (g.whites k (white-before_black d node k h));
    },
  )

  Answer-visited :
      (c : Colors) (node : Text) (r : Search)
      → IsWhite stages c node
      → VisitAnswer stages (insert node gray c) node r
      → Answer stages c node r
  Answer-visited c node found w a = a
  Answer-visited c node out_of_fuel w a = a
  Answer-visited c node (clear d) w (i, rest) =
      let (c', g, e) = rest in
      subst (λ x. Answer stages c node (clear x)) (sym e)
        (Answer-painted c c' node w g (subst (Inv stages) e i))

  no_stage :
      (node : Text) (deps : List Text)
      → lookup node stages ≡ none
      → lookup node stages ≡ some deps
      → ⊥
  no_stage node deps h e = cc

  dfs_absent :
      (fuel : ℕ) (node : Text) (c : Colors)
      → lookup node stages ≡ none
      → detect_circular_dependency_dfs stages (suc fuel) node c
        ≡ clear (insert node black (insert node gray c))
  unfolding detect_circular_dependency_dfs
  dfs_absent fuel node c h = rw (h, detect_circular_dependency_dfs) refl

  dfs_stage :
      (fuel : ℕ) (node : Text) (deps : List Text) (c : Colors)
      → lookup node stages ≡ some deps
      → detect_circular_dependency_dfs stages (suc fuel) node c
        ≡ visit_dependencies
            (detect_circular_dependency_dfs stages fuel)
            node
            deps
            (insert node gray c)
  unfolding detect_circular_dependency_dfs
  dfs_stage fuel node deps c h = rw (h, detect_circular_dependency_dfs) refl

  pub dfs-Answer :
      (fuel : ℕ) (node : Text) (c : Colors)
      → Inv stages c
      → IsWhite stages c node
      → ((k : Text) → IsGray stages c k → DependsOn stages k node)
      → whites stages stages c < fuel
      → Answer stages c node (detect_circular_dependency_dfs stages fuel node c)
  unfolding detect_circular_dependency_dfs
  dfs-Answer zero node c i w path h = absurd (omega arith)
  dfs-Answer (suc fuel) node c i w path h =
      let painted = insert node gray c in
      elim (Option-cases (lookup node stages)) [
        | inl absent ↦
            let first : (b : Text) → Depends stages node b → IsBlack stages painted b =
              λ b (ds, f, m). absurd (no_stage node ds absent f) in
            subst (Answer stages c node) (sym (dfs_absent fuel node c absent)) (
              Answer-painted c painted node w (Grows-refl stages painted) (
                Inv-black stages painted node (Inv-gray c node i w) (lookup-insert_self node gray c)
                  first))
        | inr (deps, e) ↦
            let answer =
              visit-Answer stages (detect_circular_dependency_dfs stages fuel) fuel node deps deps
                painted (λ d c' i' w' p' h'. dfs-Answer fuel d c' i' w' p' h') e
                (Inv-gray c node i w) (lookup-insert_self node gray c)
                (λ k g. gray-cases c node k path g)
                (omega (arith, h, whites-painted stages stages c node deps w e)) (λ d m. inr m)
                (λ d m. m) in
            subst (Answer stages c node) (sym (dfs_stage fuel node deps c e)) (
              Answer-visited c node
                (visit_dependencies (detect_circular_dependency_dfs stages fuel) node deps painted)
                w answer)
      ]

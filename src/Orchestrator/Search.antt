-- ===== src/Orchestrator/Search.antt =====
-- The search from a node: it ends, and it finds a cycle or paints black all that the node depends on.
use bb_pipeline.Common.{
  ℕ, ◌<◌, ◌≡◌, refl, sym, ◌∙◌, Option, none, some, List, [], ◌∷◌, Text, lookup, insert, arith, ◌⊎◌,
  inl, inr,
}
use mathlib.Core.Path.{subst}
use mathlib.Core.List.{Memᴰ}
use mathlib.Core.List.Memᴰ
use bb_pipeline.Orchestrator.Dependencies.{
  Stages, Color, gray, black, Colors, Search, found, out_of_fuel, clear, visit_dependencies,
}
use bb_pipeline.Orchestrator.Cycles.{
  Depends, DependsOn, directly, DependsOn-snoc, IsBlack, IsGray, IsWhite, Inv, Grows, Grows-refl,
  Grows-trans, whites, whites_mono, Inv-black,
}

pub Search-cases : (r : Search) → (r ≡ found) ⊎ ((r ≡ out_of_fuel) ⊎ ((c : Colors) × (r ≡ clear c)))
Search-cases found = inl refl
Search-cases out_of_fuel = inr (inl refl)
Search-cases (clear c) = inr (inr (c, refl))

pub Color-cases : (o : Option Color) → (o ≡ none) ⊎ ((o ≡ some gray) ⊎ (o ≡ some black))
Color-cases none = inl refl
Color-cases (some gray) = inr (inl refl)
Color-cases (some black) = inr (inr refl)

some-inj : {x y : List Text} → some x ≡ some y → x ≡ y
some-inj h = cc

module _ (step : Text → Colors → Search) (node dep : Text) (deps : List Text) (c : Colors) where
  visit_gray : lookup dep c ≡ some gray → visit_dependencies step node (dep ∷ deps) c ≡ found
  unfolding visit_dependencies
  visit_gray h = rw (h, visit_dependencies) refl

  visit_black :
      lookup dep c ≡ some black
      → visit_dependencies step node (dep ∷ deps) c ≡ visit_dependencies step node deps c
  unfolding visit_dependencies
  visit_black h = rw (h, visit_dependencies) refl

  -- The answer of the recursive call, and the rest of the loop when it found no cycle.
  visit_white :
      (r : Search)
      → lookup dep c ≡ none
      → step dep c ≡ r
      → visit_dependencies step node (dep ∷ deps) c ≡ (elim r [
        | found ↦ found
        | out_of_fuel ↦ out_of_fuel
        | clear c' ↦ visit_dependencies step node deps c'
      ])
  unfolding visit_dependencies
  visit_white r h e = rw (h, e, visit_dependencies) refl

module _ (stages : Stages) where
  abbrev pub Cycle : Type 0
  Cycle = (v : Text) × DependsOn stages v v

  -- The answer of a search that starts at a white node.
  abbrev pub Answer : Colors → Text → Search → Type 0
  Answer c node found = Cycle
  Answer c node out_of_fuel = ⊥
  Answer c node (clear d) = Inv stages d × IsBlack stages d node × Grows stages c d

  -- The answer of the loop over the dependencies of a gray node, which turns black at its end.
  abbrev pub VisitAnswer : Colors → Text → Search → Type 0
  VisitAnswer c node found = Cycle
  VisitAnswer c node out_of_fuel = ⊥
  VisitAnswer c node (clear d) =
      Inv stages d × ((c' : Colors) × Grows stages c c' × (d ≡ insert node black c'))

  VisitAnswer-later :
      (c c' : Colors) (node : Text) (r : Search)
      → Grows stages c c'
      → VisitAnswer c' node r
      → VisitAnswer c node r
  VisitAnswer-later c c' node found g a = a
  VisitAnswer-later c c' node out_of_fuel g a = a
  VisitAnswer-later c c' node (clear d) g (i, rest) =
      let (c'', h, e) = rest in (i, (c'', Grows-trans stages c c' c'' g h, e))

  -- What the recursive call does, on colors with fewer than `n` white stages.
  abbrev pub Answers : (Text → Colors → Search) → ℕ → Type 0
  Answers search n =
      (d : Text) (c : Colors)
      → Inv stages c
      → IsWhite stages c d
      → ((k : Text) → IsGray stages c k → DependsOn stages k d)
      → whites stages stages c < n
      → Answer c d (search d c)

  -- What reaches a node reaches what the node depends on.
  reaches :
      (node dep : Text)
      → Depends stages node dep
      → (k : Text) → (k ≡ node) ⊎ DependsOn stages k node
      → DependsOn stages k dep
  reaches node dep edge k (inl same) =
      subst (λ x. DependsOn stages x dep) (sym same) (directly edge)
  reaches node dep edge k (inr w) = DependsOn-snoc stages w edge

  closes :
      (node dep : Text)
      → Depends stages node dep
      → (dep ≡ node) ⊎ DependsOn stages dep node
      → DependsOn stages dep dep
  closes node dep edge p = reaches node dep edge dep p

  settled :
      (c c' : Colors) (dep : Text) (deps : List Text)
      → Grows stages c c'
      → IsBlack stages c' dep
      → (d : Text) → IsBlack stages c d ⊎ Memᴰ d (dep ∷ deps)
      → IsBlack stages c' d ⊎ Memᴰ d deps
  settled c c' dep deps grown b d (inl old) = inl (grown.blacks d old)
  settled c c' dep deps grown b d (inr new) = elim (Memᴰ.cases_cons new) [
    | inl same ↦ inl (subst (IsBlack stages c') (sym same) b)
    | inr later ↦ inr later
  ]

  pub visit-Answer :
      (search : Text → Colors → Search) (n : ℕ) (node : Text) (all deps : List Text) (c : Colors)
      → Answers search n
      → lookup node stages ≡ some all
      → Inv stages c
      → IsGray stages c node
      → ((k : Text) → IsGray stages c k → (k ≡ node) ⊎ DependsOn stages k node)
      → whites stages stages c < n
      → ((d : Text) → Memᴰ d all → IsBlack stages c d ⊎ Memᴰ d deps)
      → ((d : Text) → Memᴰ d deps → Memᴰ d all)
      → VisitAnswer c node (visit_dependencies search node deps c)
  unfolding visit_dependencies
  visit-Answer step n node all [] c ok e i g path w done within =
      let first : (b : Text) → Depends stages node b → IsBlack stages c b = λ b (ds, f, m).
        elim (done b (subst (Memᴰ b) (some-inj (sym f ∙ e)) m)) [
          | inl dark ↦ dark
          | inr nil ↦ absurd (Memᴰ.not-nil nil)
        ] in
      (Inv-black stages c node i g first, (c, Grows-refl stages c, refl))
  visit-Answer step n node all (dep ∷ deps) c ok e i g path w done within =
      let edge : Depends stages node dep = (all, e, within dep (Memᴰ.head refl)) in
      let onward : (c' : Colors)
          → Grows stages c c'
          → Inv stages c'
          → IsBlack stages c' dep
          → VisitAnswer c' node (visit_dependencies step node deps c') =
        λ c' grown i' b.
          visit-Answer step n node all deps c' ok e i' (grown.grays node g)
            (λ k h. path k (grown.no_grays k h))
            (omega (arith, w, whites_mono stages stages c c' grown.whites))
            (λ d m. settled c c' dep deps grown b d (done d m)) (λ d m. within d (Memᴰ.tail m)) in
      elim (Color-cases (lookup dep c)) [
        | inl white ↦
            let answer = ok dep c i white (λ k h. reaches node dep edge k (path k h)) w in
            elim (Search-cases (step dep c)) [
              | inl r ↦
                  subst (VisitAnswer c node) (sym (visit_white step node dep deps c found white r))
                    (subst (Answer c dep) r answer)
              | inr (inl r) ↦ absurd (subst (Answer c dep) r answer)
              | inr (inr (c', r)) ↦
                  let (i', b, grown) = subst (Answer c dep) r answer in
                  subst (VisitAnswer c node)
                    (sym (visit_white step node dep deps c (clear c') white r))
                    (VisitAnswer-later c c' node (visit_dependencies step node deps c') grown
                      (onward c' grown i' b))
            ]
        | inr (inl grey) ↦
            subst (VisitAnswer c node) (sym (visit_gray step node dep deps c grey))
              (dep, closes node dep edge (path dep grey))
        | inr (inr dark) ↦
            subst (VisitAnswer c node) (sym (visit_black step node dep deps c dark))
              (onward c (Grows-refl stages c) i dark)
      ]

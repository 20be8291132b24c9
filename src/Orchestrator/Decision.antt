-- ===== src/Orchestrator/Decision.antt =====
-- The whole search decides whether the stages have a circular dependency, within its fuel.
use bb_pipeline.Common.{
  ℕ, suc, ◌≤◌, ◌<◌, ◌≡◌, refl, sym, Bool, true, false, Option, none, some, List, [], ◌∷◌, Text,
  ◌=t◌, text-eq, lookup, length, arith, Bool-cases, ◌⊎◌, inl, inr,
}
use mathlib.Core.Path.{subst}
use bb_pipeline.Orchestrator.Dependencies.{
  Stages, Color, black, Colors, Search, found, out_of_fuel, clear, detect_circular_dependency_dfs,
}
use bb_pipeline.Orchestrator.Cycles.{
  directly, through, IsBlack, IsGray, Inv, Grows, Grows-refl, whites, whites_mono,
}
use bb_pipeline.Orchestrator.Search.{Search-cases, Color-cases, Cycle, Answer}
use bb_pipeline.Orchestrator.Dependencies.{search_stages, has_circular_dependency}
use bb_pipeline.Orchestrator.Descent.{dfs-Answer}

none≢some : {x : List Text} → none ≡ some x → ⊥
none≢some h = cc

module _ (stages : Stages) where
  -- The answer of the whole search: there is a cycle, or there is none. It is never out of fuel.
  abbrev pub Decides : Option Bool → Type 0
  Decides none = ⊥
  Decides (some true) = Cycle stages
  Decides (some false) = ¬ Cycle stages

  -- A stage that the loop has not reached yet is in the rest of the list.
  abbrev Remaining : Stages → Colors → Type 0
  Remaining rest c =
      (k : Text) (deps : List Text)
      → lookup k stages ≡ some deps
      → IsBlack stages c k ⊎ ((ds : List Text) × (lookup k rest ≡ some ds))

  stage-IsBlack :
      (c : Colors) (k : Text) (deps : List Text)
      → Remaining [] c
      → lookup k stages ≡ some deps
      → IsBlack stages c k
  unfolding lookup
  stage-IsBlack c k deps left e = elim (left k deps e) [
    | inl dark ↦ dark
    | inr (ds, f) ↦ absurd (none≢some f)
  ]

  search_painted :
      (fuel : ℕ) (id : Text) (deps : List Text) (rest : Stages) (c : Colors) (color : Color)
      → lookup id c ≡ some color
      → search_stages stages fuel ((id, deps) ∷ rest) c ≡ search_stages stages fuel rest c
  unfolding search_stages
  search_painted fuel id deps rest c color h = rw (h, search_stages) refl

  search_white :
      (fuel : ℕ) (id : Text) (deps : List Text) (rest : Stages) (c : Colors) (r : Search)
      → lookup id c ≡ none
      → detect_circular_dependency_dfs stages fuel id c ≡ r
      → search_stages stages fuel ((id, deps) ∷ rest) c ≡ (elim r [
        | found ↦ some true
        | out_of_fuel ↦ none
        | clear c' ↦ search_stages stages fuel rest c'
      ])
  unfolding search_stages
  search_white fuel id deps rest c r h e = rw (h, e, search_stages) refl

  no_cycle : (c : Colors) → Inv stages c → Remaining [] c → ¬ Cycle stages
  unfolding lookup
  no_cycle c i left (v, directly (deps, e, m)) =
      i.acyclic v (stage-IsBlack c v deps left e) (directly (deps, e, m))
  no_cycle c i left (v, through (deps, e, m) w) =
      i.acyclic v (stage-IsBlack c v deps left e) (through (deps, e, m) w)

  Remaining-next :
      (id : Text) (deps : List Text) (rest : Stages) (c c' : Colors)
      → Grows stages c c'
      → IsBlack stages c' id
      → Remaining ((id, deps) ∷ rest) c
      → Remaining rest c'
  unfolding lookup
  Remaining-next id deps rest c c' g b left k ds e = elim (left k ds e) [
    | inl old ↦ inl (g.blacks k old)
    | inr (ds', f) ↦ elim (Bool-cases (id =t k)) [
      | inl t ↦ inl (subst (IsBlack stages c') (text-eq id k t) b)
      | inr n ↦ inr (ds', rw n at f)
    ]
  ]

  search-Decides :
      (fuel : ℕ) (rest : Stages) (c : Colors)
      → Inv stages c
      → ((k : Text) → ¬ IsGray stages c k)
      → whites stages stages c < fuel
      → Remaining rest c
      → Decides (search_stages stages fuel rest c)
  unfolding search_stages
  search-Decides fuel [] c i n w left = no_cycle c i left
  search-Decides fuel ((id, deps) ∷ rest) c i n w left = elim (Color-cases (lookup id c)) [
    | inl white ↦
        let answer = dfs-Answer stages fuel id c i white (λ k g. absurd (n k g)) w in
        elim (Search-cases (detect_circular_dependency_dfs stages fuel id c)) [
          | inl r ↦
              subst Decides (sym (search_white fuel id deps rest c found white r))
                (subst (Answer stages c id) r answer)
          | inr (inl r) ↦ absurd (subst (Answer stages c id) r answer)
          | inr (inr (c', r)) ↦
              let (i', b, g) = subst (Answer stages c id) r answer in
              subst Decides (sym (search_white fuel id deps rest c (clear c') white r)) (
                search-Decides fuel rest c' i' (λ k h. n k (g.no_grays k h))
                  (omega (arith, w, whites_mono stages stages c c' g.whites))
                  (Remaining-next id deps rest c c' g b left))
        ]
    | inr (inl grey) ↦ absurd (n id grey)
    | inr (inr dark) ↦ subst Decides (sym (search_painted fuel id deps rest c black dark)) (
        search-Decides fuel rest c i n w
          (Remaining-next id deps rest c c (Grows-refl stages c) dark left))
  ]

  whites-bounded : (m : Stages) → whites stages m [] ≤ length m
  unfolding lookup
  whites-bounded [] = omega arith
  whites-bounded ((k, deps) ∷ m) = omega (arith, whites-bounded m)

  Inv-nil : Inv stages []
  unfolding lookup
  Inv-nil = record { closed = λ a b h d. cc; acyclic = λ a h w. cc }

  no-IsGray-nil : (k : Text) → ¬ IsGray stages [] k
  unfolding lookup
  no-IsGray-nil k h = cc

-- `hasCircularDependency` answers whether some stage depends on itself, directly or through other stages; the
-- search is never deeper than there are stages.
pub has_circular_dependency-Decides :
    (stages : Stages) → Decides stages (has_circular_dependency stages)
unfolding has_circular_dependency
has_circular_dependency-Decides stages =
    search-Decides stages (suc (length stages)) stages [] (Inv-nil stages) (no-IsGray-nil stages)
      (omega (arith, whites-bounded stages stages)) (λ k deps e. inr (deps, e))

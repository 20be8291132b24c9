-- ===== src/Orchestrator/Cycles.antt =====
-- The search for a circular dependency decides whether some stage depends on itself through others.
use bb_pipeline.Common.{
  ℕ, suc, ◌≤◌, ◌≡◌, refl, false, none, some, List, [], ◌∷◌, Text, ◌=t◌, text-eq, eq→text, Dict,
  lookup, insert, lookup-insert, arith, Bool-cases, ◌⊎◌, inl, inr,
}
use mathlib.Core.Path.{subst}
use mathlib.Core.List.{Memᴰ}
use bb_pipeline.Orchestrator.Dependencies.{Stages, gray, black, Colors}

pub lookup-insert_other :
    {V : Type 0} (k j : Text) (v : V) (m : Dict V)
    → (k =t j) ≡ false
    → lookup j (insert k v m) ≡ lookup j m
lookup-insert_other k j v m h = rw (lookup-insert k j v m, h) refl

module _ (stages : Stages) where
  -- A stage depends on another.
  abbrev pub Depends : Text → Text → Type 0
  Depends a b = (deps : List Text) × (lookup a stages ≡ some deps) × Memᴰ b deps

  -- It depends on another through any number of stages.
  pub data DependsOn : Text → Text → Type 0 where
    directly : {a b : Text} → Depends a b → DependsOn a b
    through : {a b c : Text} → Depends a b → DependsOn b c → DependsOn a c

  pub DependsOn-snoc : {a b c : Text} → DependsOn a b → Depends b c → DependsOn a c
  DependsOn-snoc (directly d) e = through d (directly e)
  DependsOn-snoc (through d w) e = through d (DependsOn-snoc w e)

  abbrev pub IsBlack : Colors → Text → Type 0
  IsBlack c k = lookup k c ≡ some black

  abbrev pub IsGray : Colors → Text → Type 0
  IsGray c k = lookup k c ≡ some gray

  abbrev pub IsWhite : Colors → Text → Type 0
  IsWhite c k = lookup k c ≡ none

  -- What black means: everything that a black node depends on is black, and none is on a cycle.
  pub record Inv (c : Colors) : Type 0 where
    pub closed : (a b : Text) → IsBlack c a → Depends a b → IsBlack c b
    pub acyclic : (a : Text) → IsBlack c a → ¬ DependsOn a a

  walk-IsBlack : (c : Colors) → Inv c → {a b : Text} → IsBlack c a → DependsOn a b → IsBlack c b
  walk-IsBlack c i h (directly d) = i.closed _ _ h d
  walk-IsBlack c i h (through d w) = walk-IsBlack c i (i.closed _ _ h d) w

  -- What a search from a node does to the colors: black and gray stay, and no node turns white.
  pub record Grows (c d : Colors) : Type 0 where
    pub blacks : (k : Text) → IsBlack c k → IsBlack d k
    pub grays : (k : Text) → IsGray c k → IsGray d k
    pub no_grays : (k : Text) → IsGray d k → IsGray c k
    pub whites : (k : Text) → IsWhite d k → IsWhite c k

  pub Grows-refl : (c : Colors) → Grows c c
  Grows-refl c = record {
    blacks = λ k h. h;
    grays = λ k h. h;
    no_grays = λ k h. h;
    whites = λ k h. h;
  }

  pub Grows-trans : (c d e : Colors) → Grows c d → Grows d e → Grows c e
  Grows-trans c d e g h = record {
    blacks = λ k x. h.blacks k (g.blacks k x);
    grays = λ k x. h.grays k (g.grays k x);
    no_grays = λ k x. g.no_grays k (h.no_grays k x);
    whites = λ k x. g.whites k (h.whites k x);
  }

  -- The stages of a list that are white.
  abbrev pub whites : Stages → Colors → ℕ
  whites [] c = 0
  whites ((k, _) ∷ m) c =
      let rest = whites m c in elim (lookup k c) [ none ↦ suc rest | some _ ↦ rest ]

  pub whites_mono :
      (m : Stages) (c d : Colors)
      → ((k : Text) → IsWhite d k → IsWhite c k)
      → whites m d ≤ whites m c
  whites_mono [] c d h = omega arith
  whites_mono ((k, _) ∷ m) c d h = ground (arith, whites_mono m c d h, h k)

  -- Painting a white stage leaves one white stage less.
  pub whites-painted :
      (m : Stages) (c : Colors) (k : Text) (deps : List Text)
      → IsWhite c k
      → lookup k m ≡ some deps
      → suc (whites m (insert k gray c)) ≤ whites m c
  unfolding lookup
  whites-painted [] c k deps w h = cc
  whites-painted ((j, ds) ∷ m) c k deps w h =
      let mono =
        whites_mono m c (insert k gray c) (λ i e. ground (arith, lookup-insert k i gray c)) in
      elim (Bool-cases (j =t k)) [
        | inl t ↦
            let e : lookup j (insert k gray c) ≡ some gray =
              ground (arith, lookup-insert k j gray c, eq→text k j, text-eq j k) in
            let e' : lookup j c ≡ none = ground (arith, text-eq j k) in ground (arith, e, e', mono)
        | inr f ↦
            let h' : lookup k m ≡ some deps = rw f at h in
            let ih = whites-painted m c k deps w h' in
            let same = lookup-insert k j gray c in
            ground (arith, ih, same, text-eq k j, eq→text j k)
      ]

  gray-not-IsBlack : (c : Colors) (k : Text) → IsGray c k → ¬ IsBlack c k
  gray-not-IsBlack c k g b = cc

  pub black-cases :
      (c : Colors) (node a : Text) → IsBlack (insert node black c) a → (a ≡ node) ⊎ IsBlack c a
  black-cases c node a h = ground (arith, lookup-insert node a black c, text-eq node a)

  pub black-painted : (c : Colors) (node k : Text) → IsBlack c k → IsBlack (insert node black c) k
  black-painted c node k h = ground (arith, lookup-insert node k black c)

  cycle-IsBlack :
      (c : Colors) (node : Text)
      → Inv c
      → ((b : Text) → Depends node b → IsBlack c b)
      → {b : Text} → DependsOn node b
      → IsBlack c b
  cycle-IsBlack c node i first (directly d) = first _ d
  cycle-IsBlack c node i first (through d w) = walk-IsBlack c i (first _ d) w

  -- The node being painted black: all it depends on is black, and it was gray before.
  pub Inv-black :
      (c : Colors) (node : Text)
      → Inv c
      → IsGray c node
      → ((b : Text) → Depends node b → IsBlack c b)
      → Inv (insert node black c)
  Inv-black c node i g first = record {
    closed = λ a b h d. elim (black-cases c node a h) [
      | inl same ↦ black-painted c node b (first b (subst (λ x. Depends x b) same d))
      | inr old ↦ black-painted c node b (i.closed a b old d)
    ];
    acyclic = λ a h w. elim (black-cases c node a h) [
      | inl same ↦
          gray-not-IsBlack c node g
            (cycle-IsBlack c node i first (subst (λ x. DependsOn x x) same w))
      | inr old ↦ i.acyclic a old w
    ];
  }

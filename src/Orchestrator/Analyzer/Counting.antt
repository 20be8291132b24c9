-- ===== src/Orchestrator/Analyzer/Counting.antt =====
-- How often a stage stands in a list, and how many of its dependencies are not put out yet.
use bb_pipeline.Common.{
  ℕ, suc, ◌+◌, ◌≡◌, refl, ap, Bool, true, List, [], ◌∷◌, ◌++◌, Text, ◌=t◌, text-eq, eq→text,
  if◌then◌else◌, ltb, length, arith, Bool-cases, inl, inr,
}

-- The number of places where a text stands in a list.
abbrev pub count : Text → List Text → ℕ
count k [] = 0
count k (x ∷ xs) = let rest = count k xs in if x =t k then suc rest else rest

abbrev pub member : Text → List Text → Bool
member k xs = ltb 0 (count k xs)

-- The dependencies that are not in the list.
abbrev pub pending : List Text → List Text → ℕ
pending [] done = 0
pending (d ∷ deps) done = let rest = pending deps done in if member d done then rest else suc rest

pub count-append : (k : Text) (xs ys : List Text) → count k (xs ++ ys) ≡ count k xs + count k ys
count-append k [] ys = omega arith
count-append k (x ∷ xs) ys = ground (arith, count-append k xs ys)

pub count-snoc :
    (k : Text) (xs : List Text) (x : Text) → count k (xs ++ x ∷ []) ≡ count k xs + count k (x ∷ [])
count-snoc k xs x = count-append k xs (x ∷ [])

pub pending-nil : (deps : List Text) → pending deps [] ≡ length deps
pending-nil [] = refl
pending-nil (d ∷ deps) = ap suc (pending-nil deps)

-- Putting out a new stage settles its places among the dependencies.
pub pending-snoc :
    (deps done : List Text) (c : Text)
    → count c done ≡ 0
    → pending deps done ≡ pending deps (done ++ c ∷ []) + count c deps
pending-snoc [] done c h = omega arith
pending-snoc (d ∷ deps) done c h =
    let ih = pending-snoc deps done c h in
    let more = count-snoc d done c in
    elim (Bool-cases (d =t c)) [
      | inl t ↦
          let e : count d done ≡ 0 = ground (arith, text-eq d c t) in
          ground (arith, ih, more, e, eq→text c d, text-eq d c t)
      | inr f ↦ ground (arith, ih, more, eq→text d c, text-eq c d)
    ]

-- With nothing pending, every dependency is in the list.
pub pending-zero :
    (deps done : List Text) (d : Text)
    → pending deps done ≡ 0
    → member d deps ≡ true
    → member d done ≡ true
pending-zero [] done d h m = ground arith
pending-zero (x ∷ deps) done d h m = ground (arith, pending-zero deps done d, text-eq x d)

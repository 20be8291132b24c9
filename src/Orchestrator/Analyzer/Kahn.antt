-- ===== src/Orchestrator/Analyzer/Kahn.antt =====
-- What the rounds of Kahn's loop keep: a stage is put out or queued exactly when nothing it waits for is left.
use bb_pipeline.Common.{
  ℕ, zero, suc, ◌+◌, ◌≡◌, refl, sym, ap, ◌∙◌, false, none, some, List, [], ◌∷◌, ◌++◌, Text, ◌=t◌,
  text-eq, text-eq_refl, Dict, lookup, insert, lookup-insert, lookup-insert_self, if◌then◌else◌,
  ◌==◌, arith, Bool-cases, Option-cases, inl, inr,
}
use mathlib.Core.Path.{subst}
use bb_pipeline.Orchestrator.Analyzer.{ℤ, pos, decrement, is_zero, entry_or, release_dependents}
use bb_pipeline.Orchestrator.Analyzer.Counting.{count, pending, count-snoc}

some-inj : {x y : List Text} → some x ≡ some y → x ≡ y
some-inj h = cc

none≢some : {x : List Text} → none ≡ some x → ⊥
none≢some h = cc

pub lookup-insert_other :
    {V : Type 0} (k j : Text) (v : V) (m : Dict V)
    → (k =t j) ≡ false
    → lookup j (insert k v m) ≡ lookup j m
lookup-insert_other k j v m h = rw (lookup-insert k j v m, h) refl

abbrev pub one_if_zero : ℕ → ℕ
one_if_zero n = if n == 0 then 1 else 0

module _ (g : Dict (List Text)) where
  -- `done` is what is put out, and `ds` the dependents of its last stage that are still to be visited.
  pub record Inv (degrees : Dict ℤ) (done queue ds : List Text) : Type 0 where
    pub degree :
        (k : Text) (deps : List Text)
        → lookup k g ≡ some deps
        → lookup k degrees ≡ some (pos (pending deps done + count k ds))
    pub placed :
        (k : Text) (deps : List Text)
        → lookup k g ≡ some deps
        → count k done + count k queue ≡ one_if_zero (pending deps done + count k ds)
    pub strangers :
        (k : Text) → lookup k g ≡ none → (count k done + count k queue ≡ 0) × (count k ds ≡ 0)

  entry_of :
      (d : Text) (degrees : Dict ℤ) (v : ℤ)
      → lookup d degrees ≡ some v
      → entry_or (pos 0) d degrees ≡ v
  entry_of d degrees v h = rw (h, entry_or) refl

  pub count_self : (d : Text) (xs : List Text) → count d (d ∷ xs) ≡ suc (count d xs)
  count_self d xs = simp (text-eq_refl d) refl

  count_other : (d k : Text) (xs : List Text) → (d =t k) ≡ false → count k (d ∷ xs) ≡ count k xs
  count_other d k xs h = simp h refl

  -- The new degree of a dependent, and whether it goes into the queue.
  lowered :
      {degrees : Dict ℤ} {done queue ds : List Text} (d : Text) (deps : List Text)
      → Inv degrees done queue (d ∷ ds)
      → lookup d g ≡ some deps
      → decrement (entry_or (pos 0) d degrees) ≡ pos (pending deps done + count d ds)
  lowered {degrees} {done} {queue} {ds} d deps i e =
      let sum : pending deps done + count d (d ∷ ds) ≡ suc (pending deps done + count d ds) =
        omega (arith, count_self d ds) in
      ap decrement
        (entry_of d degrees (pos (pending deps done + count d (d ∷ ds))) (i.degree d deps e))
      ∙ ap (λ n. decrement (pos n)) sum

  is_stage :
      {degrees : Dict ℤ} {done queue ds : List Text} (d : Text)
      → Inv degrees done queue (d ∷ ds)
      → (deps : List Text) × (lookup d g ≡ some deps)
  is_stage {ds} d i = elim (Option-cases (lookup d g)) [
    | inl absent ↦ let (_, z) = i.strangers d absent in absurd (omega (arith, z, count_self d ds))
    | inr found ↦ found
  ]

  abbrev pushed : ℕ → List Text → Text → List Text
  pushed n queue d = if is_zero (pos n) then queue ++ d ∷ [] else queue

  count-pushed_self :
      (n : ℕ) (queue : List Text) (d : Text)
      → count d (pushed n queue d) ≡ count d queue + one_if_zero n
  count-pushed_self zero queue d = omega (arith, count-snoc d queue d, count_self d [])
  count-pushed_self (suc n) queue d = ground arith

  count-pushed_other :
      (n : ℕ) (queue : List Text) (d k : Text)
      → (d =t k) ≡ false
      → count k (pushed n queue d) ≡ count k queue
  count-pushed_other zero queue d k h = omega (arith, count-snoc k queue d, count_other d k [] h)
  count-pushed_other (suc n) queue d k h = refl

  -- Two names of one stage have the same dependencies.
  same_key :
      (P : Text → List Text → Type 0) (d k : Text) (deps kdeps : List Text)
      → d ≡ k
      → lookup d g ≡ some deps
      → lookup k g ≡ some kdeps
      → P d deps
      → P k kdeps
  same_key P d k deps kdeps same e f p =
      let all : deps ≡ kdeps = some-inj (sym e ∙ ap (λ x. lookup x g) same ∙ f) in
      subst (P k) all (subst (λ x. P x deps) same p)

  stranger :
      (d k : Text) (deps : List Text)
      → lookup d g ≡ some deps
      → lookup k g ≡ none
      → (d =t k) ≡ false
  stranger d k deps e f = elim (Bool-cases (d =t k)) [
    | inl t ↦ absurd (none≢some (sym f ∙ ap (λ x. lookup x g) (sym (text-eq d k t)) ∙ e))
    | inr apart ↦ apart
  ]

  Inv-released :
      {degrees : Dict ℤ} {done queue ds : List Text} (d : Text) (deps : List Text)
      → Inv degrees done queue (d ∷ ds)
      → lookup d g ≡ some deps
      → let n = pending deps done + count d ds in
        Inv (insert d (pos n) degrees) done (pushed n queue d) ds
  Inv-released {degrees} {done} {queue} {ds} d deps i e =
      let n = pending deps done + count d ds in
      let zero_before : one_if_zero (pending deps done + count d (d ∷ ds)) ≡ 0 =
        ground (arith, count_self d ds) in
      let at_d : count d done + count d (pushed n queue d) ≡ one_if_zero n =
        omega (arith, count-pushed_self n queue d, i.placed d deps e, zero_before) in
      record {
        degree = λ k kdeps f. elim (Bool-cases (d =t k)) [
          | inl t ↦
              same_key
                (λ x xs.
                  lookup x (insert d (pos n) degrees) ≡ some (pos (pending xs done + count x ds)))
                d k deps kdeps (text-eq d k t) e f (lookup-insert_self d (pos n) degrees)
          | inr apart ↦
              lookup-insert_other d k (pos n) degrees apart
              ∙ i.degree k kdeps f
              ∙ ap (λ m. some (pos (pending kdeps done + m))) (count_other d k ds apart)
        ];
        placed = λ k kdeps f. elim (Bool-cases (d =t k)) [
          | inl t ↦
              same_key
                (λ x xs.
                  count x done + count x (pushed n queue d)
                  ≡ one_if_zero (pending xs done + count x ds))
                d k deps kdeps (text-eq d k t) e f at_d
          | inr apart ↦
              ap (λ m. count k done + m) (count-pushed_other n queue d k apart)
              ∙ i.placed k kdeps f
              ∙ ap (λ m. one_if_zero (pending kdeps done + m)) (count_other d k ds apart)
        ];
        strangers = λ k f.
            let apart = stranger d k deps e f in
            let (a, b) = i.strangers k f in
            (
              ap (λ m. count k done + m) (count-pushed_other n queue d k apart) ∙ a,
              sym (count_other d k ds apart) ∙ b,
            );
      }

  -- The loop over the dependents.
  pub release_dependents-Inv :
      (ds : List Text) {degrees : Dict ℤ} {done queue : List Text}
      → Inv degrees done queue ds
      → let (degrees', queue') = release_dependents ds degrees queue in Inv degrees' done queue' []
  unfolding release_dependents
  release_dependents-Inv [] i = i
  release_dependents-Inv (d ∷ ds) {degrees} {done} {queue} i =
      let (deps, e) = is_stage d i in
      let next = Inv-released d deps i e in
      let low = lowered d deps i e in
      release_dependents-Inv ds (
        subst (λ v. Inv (insert d v degrees) done (if is_zero v then queue ++ d ∷ [] else queue) ds)
          (sym low) next)

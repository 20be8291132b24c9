-- ===== src/Orchestrator/Analyzer/Degrees.antt =====
-- The degrees that the analyzer counts, and the queue that it starts with.
use bb_pipeline.Common.{
  ℕ, suc, ◌+◌, ◌≡◌, refl, sym, ap, ◌∙◌, false, none, some, List, [], ◌∷◌, Text, ◌=t◌, text-eq, Dict,
  lookup, insert, lookup-insert_self, Unique, Unique-insert, if◌then◌else◌, length, arith,
  Bool-cases, inl, inr,
}
use mathlib.Core.Path.{subst}
use bb_pipeline.Orchestrator.Analyzer.{
  ℤ, pos, increment, is_zero, entry_or, Analyzer, count_dependencies, zero_degrees, add_degrees,
  initial_queue, in_degrees,
}
use bb_pipeline.Orchestrator.Analyzer.Counting.{count, pending, pending-nil}
use bb_pipeline.Orchestrator.Analyzer.Kahn.{Inv, lookup-insert_other}

some-inj : {x y : List Text} → some x ≡ some y → x ≡ y
some-inj h = cc

counted : (a b : List Text) → some a ≡ some b → some (pos (0 + length a)) ≡ some (pos (length b))
counted a b h =
    let e : 0 + length a ≡ length a = omega arith in
    ap (λ x. some (pos x)) e ∙ ap (λ xs. some (pos (length xs))) (some-inj h)

entry_of : (k : Text) (m : Dict ℤ) (v : ℤ) → lookup k m ≡ some v → entry_or (pos 0) k m ≡ v
entry_of k m v h = rw (h, entry_or) refl

count_dependencies_self :
    (id : Text) (deps : List Text) (m : Dict ℤ) (n : ℕ)
    → lookup id m ≡ some (pos n)
    → lookup id (count_dependencies id deps m) ≡ some (pos (n + length deps))
unfolding count_dependencies
count_dependencies_self id [] m n h =
    let e : n + 0 ≡ n = omega arith in h ∙ ap (λ x. some (pos x)) (sym e)
count_dependencies_self id (dep ∷ deps) m n h =
    let v = increment (entry_or (pos 0) id m) in
    let e : v ≡ pos (suc n) = ap increment (entry_of id m (pos n) h) in
    let here_ : lookup id (insert id v m) ≡ some (pos (suc n)) =
      lookup-insert_self id v m ∙ ap some e in
    let sum : suc n + length deps ≡ n + suc (length deps) = omega arith in
    count_dependencies_self id deps (insert id v m) (suc n) here_ ∙ ap (λ x. some (pos x)) sum

count_dependencies-other :
    (id k : Text) (deps : List Text) (m : Dict ℤ)
    → (id =t k) ≡ false
    → lookup k (count_dependencies id deps m) ≡ lookup k m
unfolding count_dependencies
count_dependencies-other id k [] m h = refl
count_dependencies-other id k (dep ∷ deps) m h =
    count_dependencies-other id k deps (insert id (increment (entry_or (pos 0) id m)) m) h
    ∙ lookup-insert_other id k (increment (entry_or (pos 0) id m)) m h

count_dependencies-Unique :
    (id : Text) (deps : List Text) (m : Dict ℤ) → Unique m → Unique (count_dependencies id deps m)
unfolding count_dependencies
count_dependencies-Unique id [] m u = u
count_dependencies-Unique id (dep ∷ deps) m u =
    count_dependencies-Unique id deps _ (Unique-insert id (increment (entry_or (pos 0) id m)) m u)

zero_degrees-Unique : (g : Dict (List Text)) (m : Dict ℤ) → Unique m → Unique (zero_degrees g m)
unfolding zero_degrees
zero_degrees-Unique [] m u = u
zero_degrees-Unique ((id, deps) ∷ g) m u =
    zero_degrees-Unique g (insert id (pos 0) m) (Unique-insert id (pos 0) m u)

add_degrees-Unique : (g : Dict (List Text)) (m : Dict ℤ) → Unique m → Unique (add_degrees g m)
unfolding add_degrees
add_degrees-Unique [] m u = u
add_degrees-Unique ((id, deps) ∷ g) m u =
    add_degrees-Unique g (count_dependencies id deps m) (count_dependencies-Unique id deps m u)

-- A stage that is not in the graph keeps its entry.
zero_degrees-other :
    (g : Dict (List Text)) (m : Dict ℤ) (k : Text)
    → lookup k g ≡ none
    → lookup k (zero_degrees g m) ≡ lookup k m
unfolding zero_degrees lookup
zero_degrees-other [] m k h = refl
zero_degrees-other ((id, deps) ∷ g) m k h = elim (Bool-cases (id =t k)) [
  | inl t ↦ let e : some deps ≡ none = rw t at h in cc
  | inr f ↦
      let e : lookup k g ≡ none = rw f at h in
      zero_degrees-other g (insert id (pos 0) m) k e ∙ lookup-insert_other id k (pos 0) m f
]

add_degrees-other :
    (g : Dict (List Text)) (m : Dict ℤ) (k : Text)
    → lookup k g ≡ none
    → lookup k (add_degrees g m) ≡ lookup k m
unfolding add_degrees lookup
add_degrees-other [] m k h = refl
add_degrees-other ((id, deps) ∷ g) m k h = elim (Bool-cases (id =t k)) [
  | inl t ↦ let e : some deps ≡ none = rw t at h in cc
  | inr f ↦
      let e : lookup k g ≡ none = rw f at h in
      add_degrees-other g (count_dependencies id deps m) k e
      ∙ count_dependencies-other id k deps m f
]

zero_degrees-found :
    (g : Dict (List Text)) (m : Dict ℤ) (k : Text) (deps : List Text)
    → lookup k g ≡ some deps
    → Unique g
    → lookup k (zero_degrees g m) ≡ some (pos 0)
unfolding zero_degrees lookup
zero_degrees-found [] m k deps h u = cc
zero_degrees-found ((id, ds) ∷ g) m k deps h (new, u) = elim (Bool-cases (id =t k)) [
  | inl t ↦
      let same = text-eq id k t in
      zero_degrees-other g (insert id (pos 0) m) k (subst (λ x. lookup x g ≡ none) same new)
      ∙ ap (λ x. lookup x (insert id (pos 0) m)) (sym same)
      ∙ lookup-insert_self id (pos 0) m
  | inr f ↦
      let e : lookup k g ≡ some deps = rw f at h in
      zero_degrees-found g (insert id (pos 0) m) k deps e u
]

add_degrees-found :
    (g : Dict (List Text)) (m : Dict ℤ) (k : Text) (deps : List Text)
    → lookup k g ≡ some deps
    → Unique g
    → lookup k m ≡ some (pos 0)
    → lookup k (add_degrees g m) ≡ some (pos (length deps))
unfolding add_degrees lookup
add_degrees-found [] m k deps h u z = cc
add_degrees-found ((id, ds) ∷ g) m k deps h (new, u) z = elim (Bool-cases (id =t k)) [
  | inl t ↦
      let same = text-eq id k t in
      let mine : some ds ≡ some deps = rw t at h in
      add_degrees-other g (count_dependencies id ds m) k (subst (λ x. lookup x g ≡ none) same new)
      ∙ ap (λ x. lookup x (count_dependencies id ds m)) (sym same)
      ∙ count_dependencies_self id ds m 0 (ap (λ x. lookup x m) same ∙ z)
      ∙ counted ds deps mine
  | inr f ↦
      let e : lookup k g ≡ some deps = rw f at h in
      add_degrees-found g (count_dependencies id ds m) k deps e u
        (count_dependencies-other id k ds m f ∙ z)
]

-- The queue holds every stage of degree 0 once, and no other.
count-initial_queue :
    (m : Dict ℤ) (k : Text)
    → Unique m
    → count k (initial_queue m)
      ≡ (elim (lookup k m) [ none ↦ 0 | some v ↦ if is_zero v then 1 else 0 ])
unfolding initial_queue lookup
count-initial_queue [] k u = refl
count-initial_queue ((id, v) ∷ m) k (new, u) =
    let ih = count-initial_queue m k u in
    elim (Bool-cases (id =t k)) [
      | inl t ↦
          let gone : lookup k m ≡ none = subst (λ x. lookup x m ≡ none) (text-eq id k t) new in
          ground (arith, ih, gone)
      | inr f ↦ ground (arith, ih)
    ]

-- What the analyzer starts with.
pub Inv-initial :
    (a : Analyzer)
    → Unique a.dependency_graph
    → Inv a.dependency_graph (in_degrees a) [] (initial_queue (in_degrees a)) []
unfolding in_degrees lookup
Inv-initial a u =
    let g = a.dependency_graph in
    let zeros = zero_degrees g [] in
    let unique = add_degrees-Unique g zeros (zero_degrees-Unique g [] tt) in
    let degree : (k : Text) (deps : List Text)
        → lookup k g ≡ some deps
        → lookup k (add_degrees g zeros) ≡ some (pos (length deps)) =
      λ k deps e. add_degrees-found g zeros k deps e u (zero_degrees-found g [] k deps e u) in
    record {
      degree = λ k deps e.
          let n : length deps ≡ pending deps [] + 0 = omega (arith, pending-nil deps) in
          degree k deps e ∙ ap (λ x. some (pos x)) n;
      placed = λ k deps e.
          let n = pending-nil deps in
          let q = count-initial_queue (add_degrees g zeros) k unique in
          let d = degree k deps e in ground (arith, n, q, d);
      strangers = λ k e.
          let d : lookup k (add_degrees g zeros) ≡ none =
            add_degrees-other g zeros k e ∙ zero_degrees-other g [] k e in
          let q = count-initial_queue (add_degrees g zeros) k unique in
          (ground (arith, q, d), refl);
    }

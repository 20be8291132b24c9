-- ===== src/Delta/Columns.antt =====
-- The columns that ChangeDetector::findChangedColumns lists are those in which two rows differ.
use bb_pipeline.Common.{
  ℕ, zero, suc, ◌+◌, ◌≤◌, ◌≡◌, refl, sym, ap, true, ◌≢◌, ◌↔◌, Option, none, some, List, [], ◌∷◌,
  Text, ◌=t◌, text-eq, text-eq_refl, eq→text, arith, Bool-cases, inl, inr,
}
use mathlib.Core.Path.{subst}
use mathlib.Core.List.{Memᴰ}
use mathlib.Core.List.Memᴰ
use bb_pipeline.Delta.Records.{Row, ◌=r◌, extra_columns, find_changed_columns}

-- The field of a column, when the row reaches it.
abbrev pub field_at : ℕ → Row → Option Text
field_at i [] = none
field_at zero (x ∷ xs) = some x
field_at (suc i) (x ∷ xs) = field_at i xs

pub row-eq : (a b : Row) → (a =r b) ≡ true → a ≡ b
unfolding ◌=r◌
row-eq [] [] h = refl
row-eq [] (y ∷ ys) h = cc
row-eq (x ∷ xs) [] h = cc
row-eq (x ∷ xs) (y ∷ ys) h = ground (arith, text-eq x y, row-eq xs ys)

pub row-eq_refl : (a : Row) → (a =r a) ≡ true
unfolding ◌=r◌
row-eq_refl [] = refl
row-eq_refl (x ∷ xs) = ground (arith, text-eq_refl x, row-eq_refl xs)

pub find_changed_columns_none : (i : ℕ) (a b : Row) → find_changed_columns i a b ≡ [] → a ≡ b
unfolding find_changed_columns extra_columns
find_changed_columns_none i [] [] h = refl
find_changed_columns_none i [] (y ∷ ys) h = cc
find_changed_columns_none i (x ∷ xs) [] h = cc
find_changed_columns_none i (x ∷ xs) (y ∷ ys) h = elim (Bool-cases (x =t y)) [
  | inl t ↦
      let e : find_changed_columns (suc i) xs ys ≡ [] = rw t at h in
      ground (arith, text-eq x y t, find_changed_columns_none (suc i) xs ys e)
  | inr f ↦ let e : i ∷ find_changed_columns (suc i) xs ys ≡ [] = rw f at h in cc
]

extra_columns-from : (i k : ℕ) (a : Row) → Memᴰ k (extra_columns i a) → i ≤ k
unfolding extra_columns
extra_columns-from i k [] m = absurd (Memᴰ.not-nil m)
extra_columns-from i k (x ∷ xs) m = elim (Memᴰ.cases_cons m) [
  | inl e ↦ omega (arith, e)
  | inr n ↦ omega (arith, extra_columns-from (suc i) k xs n)
]

find_changed_columns-from : (i k : ℕ) (a b : Row) → Memᴰ k (find_changed_columns i a b) → i ≤ k
unfolding find_changed_columns
find_changed_columns-from i k [] b m = extra_columns-from i k b m
find_changed_columns-from i k (x ∷ xs) [] m = extra_columns-from i k (x ∷ xs) m
find_changed_columns-from i k (x ∷ xs) (y ∷ ys) m = elim (Bool-cases (x =t y)) [
  | inl t ↦
      let n : Memᴰ k (find_changed_columns (suc i) xs ys) = rw t at m in
      omega (arith, find_changed_columns-from (suc i) k xs ys n)
  | inr f ↦
      let n : Memᴰ k (i ∷ find_changed_columns (suc i) xs ys) = rw f at m in
      elim (Memᴰ.cases_cons n) [
        | inl e ↦ omega (arith, e)
        | inr o ↦ omega (arith, find_changed_columns-from (suc i) k xs ys o)
      ]
]

-- Membership past the head: index k + 1 counted from i is index k counted from i + 1.
shift_index : (i k : ℕ) (cs : List ℕ) → Memᴰ (i + suc k) cs ↔ Memᴰ (suc i + k) cs
shift_index i k cs =
    let e : i + suc k ≡ suc i + k = omega arith in
    (subst (λ j. Memᴰ j cs) e, subst (λ j. Memᴰ j cs) (sym e))

past_head : (i k : ℕ) (cs : List ℕ) → Memᴰ (i + suc k) (i ∷ cs) ↔ Memᴰ (suc i + k) cs
past_head i k cs = (
  λ m. elim (Memᴰ.cases_cons m) [
    | inl e ↦ absurd (omega (arith, e))
    | inr n ↦ (shift_index i k cs).0 n
  ],
  λ m. Memᴰ.tail ((shift_index i k cs).1 m),
)

at_head : (i : ℕ) (cs : List ℕ) → Memᴰ (i + 0) (i ∷ cs)
at_head i cs = let e : i + 0 ≡ i = omega arith in Memᴰ.head e

extra_columns_iff : (i k : ℕ) (a : Row) → Memᴰ (i + k) (extra_columns i a) ↔ (field_at k a ≢ none)
unfolding extra_columns
extra_columns_iff i k [] = (λ m. absurd (Memᴰ.not-nil m), λ d. absurd (d refl))
extra_columns_iff i zero (x ∷ xs) = (λ m e. cc, λ d. at_head i (extra_columns (suc i) xs))
extra_columns_iff i (suc k) (x ∷ xs) =
    let (there, back) = past_head i k (extra_columns (suc i) xs) in
    let (listed, lists) = extra_columns_iff (suc i) k xs in
    (λ m. listed (there m), λ d. back (lists d))

pub find_changed_columns_from :
    (i k : ℕ) (a b : Row)
    → Memᴰ (i + k) (find_changed_columns i a b) ↔ (field_at k a ≢ field_at k b)
unfolding find_changed_columns
find_changed_columns_from i k [] b =
    let (listed, lists) = extra_columns_iff i k b in
    (λ m e. listed m (sym e), λ d. lists (λ e. d (sym e)))
find_changed_columns_from i k (x ∷ xs) [] = extra_columns_iff i k (x ∷ xs)
find_changed_columns_from i zero (x ∷ xs) (y ∷ ys) = elim (Bool-cases (x =t y)) [
  | inl t ↦ simp t (
    λ m. absurd (omega (arith, find_changed_columns-from (suc i) (i + 0) xs ys m)),
    λ d. absurd (d (ap some (text-eq x y t))),
  )
  | inr f ↦ simp f (
    λ m e. absurd (ground (arith, eq→text x y)),
    λ d. at_head i (find_changed_columns (suc i) xs ys),
  )
]
find_changed_columns_from i (suc k) (x ∷ xs) (y ∷ ys) =
    let rest = find_changed_columns (suc i) xs ys in
    let (listed, lists) = find_changed_columns_from (suc i) k xs ys in
    elim (Bool-cases (x =t y)) [
      | inl t ↦
          simp t (λ m. listed ((shift_index i k rest).0 m), λ d. (shift_index i k rest).1 (lists d))
      | inr f ↦
          simp f (λ m. listed ((past_head i k rest).0 m), λ d. (past_head i k rest).1 (lists d))
    ]

-- A column is listed as changed exactly when the two rows have different fields there, or only one reaches it.
pub find_changed_columns_iff :
    (k : ℕ) (a b : Row) → Memᴰ k (find_changed_columns 0 a b) ↔ (field_at k a ≢ field_at k b)
find_changed_columns_iff k a b =
    let e : 0 + k ≡ k = omega arith in
    subst (λ j. Memᴰ j (find_changed_columns 0 a b) ↔ (field_at k a ≢ field_at k b)) e
      (find_changed_columns_from 0 k a b)

-- ===== src/Delta/Matching.antt =====
-- One row of the comparison by position: no record, or an update.
use bb_pipeline.Common.{ℕ, suc, ◌≡◌, refl, List, [], ◌∷◌, Text, Bool-cases, ◌⊎◌, inl, inr}
use bb_pipeline.Delta.Records.{
  DeltaOperation, Row, DeltaRecord, ◌=r◌, find_changed_columns, create_update_record,
}
use bb_pipeline.Delta.Columns.{row-eq, find_changed_columns_none}
use bb_pipeline.Delta.Patching.{changes_from}

pub List-empty : (cs : List ℕ) → (cs ≡ []) ⊎ ((c : ℕ) × (r : List ℕ) × (cs ≡ c ∷ r))
List-empty [] = inl refl
List-empty (c ∷ r) = inr (c, r, refl)

pub nonempty_case :
    (cs : List ℕ) (a b : List DeltaRecord) (c : ℕ) (r : List ℕ)
    → cs ≡ c ∷ r
    → (elim cs [ [] ↦ a | _ ∷ _ ↦ b ]) ≡ b
nonempty_case cs a b c r e = rw e refl

module _ (sha256 : Text → Text) (now : DeltaOperation → ℕ → Text) where
  -- A row that both files have gives no record when it is unchanged, and an update when it is not.
  pub changes_from-cons :
      (i : ℕ) (o n : Row) (os ns : List Row)
      → ((o ≡ n)
          × (changes_from sha256 now i (o ∷ os) (n ∷ ns) ≡ changes_from sha256 now (suc i) os ns))
        ⊎ (changes_from sha256 now i (o ∷ os) (n ∷ ns)
            ≡ create_update_record sha256 now i o n (find_changed_columns 0 o n)
              ∷ changes_from sha256 now (suc i) os ns)
  changes_from-cons i o n os ns = elim (Bool-cases (o =r n)) [
    | inl t ↦ inl (row-eq o n t, simp t)
    | inr f ↦ elim (List-empty (find_changed_columns 0 o n)) [
      | inl e ↦ inl (find_changed_columns_none 0 o n e, simp (f, e))
      | inr (c, r, e) ↦ inr (simp f (nonempty_case (find_changed_columns 0 o n) _ _ c r e))
    ]
  ]

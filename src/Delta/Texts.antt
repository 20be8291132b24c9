-- ===== src/Delta/Texts.antt =====
-- DeltaUtils::split and DeltaUtils::join of csv/delta_compression.cpp.
use bb_pipeline.Common.{
  ℕ, ◌≡◌, refl, ap, ◌∙◌, Bool, false, List, [], ◌∷◌, ◌++◌, Text, if◌then◌else◌, ◌==◌, arith,
  Bool-cases, inl, inr,
}
use mathlib.Core.List.{append_assoc}

-- The tokens that std::getline reads; `token` is the part of the first one that is read. A delimiter at the end
-- starts no token.
unfoldable pub getline_tokens : ℕ → Text → Text → List Text
getline_tokens d token [] = token ∷ []
getline_tokens d token (c ∷ s) =
    let next = getline_tokens d [] s in
    let more = getline_tokens d (token ++ c ∷ []) s in
    if c == d then elim s [ [] ↦ token ∷ [] | _ ∷ _ ↦ token ∷ next ] else more

-- `str.back() == delimiter`.
unfoldable pub ends_with : ℕ → Text → Bool
ends_with d [] = false
ends_with d (c ∷ s) = let rest = ends_with d s in elim s [ [] ↦ c == d | _ ∷ _ ↦ rest ]

unfoldable pub split : ℕ → Text → List Text
split d [] = [] ∷ []
split d (c ∷ s) = getline_tokens d [] (c ∷ s) ++ (if ends_with d (c ∷ s) then [] ∷ [] else [])

unfoldable pub join : Text → List Text → Text
join delimiter [] = []
join delimiter (x ∷ []) = x
join delimiter (x ∷ y ∷ ys) = x ++ (delimiter ++ join delimiter (y ∷ ys))

-- The tokens and the empty one after a delimiter at the end.
abbrev tokens : ℕ → Text → Text → List Text
tokens d token s = getline_tokens d token s ++ (if ends_with d s then [] ∷ [] else [])

tokens-filled :
    (d : ℕ) (token s : Text) → (x : Text) × (xs : List Text) × (tokens d token s ≡ x ∷ xs)
unfolding getline_tokens ends_with
tokens-filled d token [] = (token, [], refl)
tokens-filled d token (c ∷ []) = elim (Bool-cases (c == d)) [
  | inl t ↦ simp t (token, [] ∷ [], refl)
  | inr f ↦ simp f (token ++ c ∷ [], [], refl)
]
tokens-filled d token (c ∷ e ∷ s) = elim (Bool-cases (c == d)) [
  | inl t ↦ simp t (token, _, refl)
  | inr f ↦ simp f (tokens-filled d (token ++ c ∷ []) (e ∷ s))
]

join-cons :
    (delimiter x : Text) (ys : List Text) (y : Text) (rest : List Text)
    → ys ≡ y ∷ rest
    → join delimiter (x ∷ ys) ≡ x ++ (delimiter ++ join delimiter ys)
unfolding join
join-cons delimiter x ys y rest e = rw e refl

join-tokens : (d c : ℕ) (token s : Text) → join (d ∷ []) (tokens d token (c ∷ s)) ≡ token ++ c ∷ s
unfolding getline_tokens ends_with join
join-tokens d c token [] = elim (Bool-cases (c == d)) [
  | inl t ↦ let e : d ≡ c = ground arith in simp t (ap (λ x. token ++ x ∷ []) e)
  | inr f ↦ simp f refl
]
join-tokens d c token (e ∷ s) = elim (Bool-cases (c == d)) [
  | inl t ↦
      let same : d ≡ c = ground arith in
      let (y, rest, filled) = tokens-filled d [] (e ∷ s) in
      simp t (
        join-cons (d ∷ []) token (tokens d [] (e ∷ s)) y rest filled
        ∙ ap (λ r. token ++ d ∷ r) (join-tokens d e [] s)
        ∙ ap (λ x. token ++ x ∷ e ∷ s) same)
  | inr f ↦ simp f (join-tokens d e (token ++ c ∷ []) s ∙ append_assoc token (c ∷ []) (e ∷ s))
]

-- Joining the parts of a text by the byte they were split at gives the text back.
pub join-split : (d : ℕ) (s : Text) → join (d ∷ []) (split d s) ≡ s
unfolding split join
join-split d [] = refl
join-split d (c ∷ s) = join-tokens d c [] s

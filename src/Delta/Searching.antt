-- ===== src/Delta/Searching.antt =====
-- The LZ77 search returns matches that are there, and copying one back puts out what comes next.
use bb_pipeline.Common.{
  ℕ, zero, suc, ◌+◌, ◌-◌, ◌≤◌, ◌<◌, ◌≡◌, refl, sym, ap, ◌∙◌, List, [], ◌∷◌, ◌++◌, ltb, ◌==◌, length,
  length-append, drop, arith, Bool-cases, ◌⊎◌, inl, inr,
}
use mathlib.Core.List.{append-nil}
use bb_pipeline.Delta.Window.{
  byte_at, match_from, Match, consider, longest_match, window_start, find_match, copy_back,
}

drop-append_cons :
    (out : List ℕ) (y : ℕ) (rest : List ℕ) (i : ℕ)
    → i < length out
    → drop i (out ++ y ∷ rest) ≡ byte_at out i ∷ drop (suc i) (out ++ y ∷ rest)
drop-append_cons [] y rest i h = absurd (omega arith)
drop-append_cons (x ∷ out) y rest zero h = refl
drop-append_cons (x ∷ out) y rest (suc i) h = drop-append_cons out y rest i (omega arith)

pub drop-append : (out rest : List ℕ) → drop (length out) (out ++ rest) ≡ rest
drop-append [] rest = refl
drop-append (x ∷ out) rest = drop-append out rest

pub snoc-append : (out : List ℕ) (y : ℕ) (rest : List ℕ) → (out ++ y ∷ []) ++ rest ≡ out ++ y ∷ rest
snoc-append [] y rest = refl
snoc-append (x ∷ out) y rest = ap (λ r. x ∷ r) (snoc-append out y rest)

pub byte_at-append :
    (out : List ℕ) (y : ℕ) (rest : List ℕ) → byte_at (out ++ y ∷ rest) (length out) ≡ y
byte_at-append [] y rest = refl
byte_at-append (x ∷ out) y rest = byte_at-append out y rest

pub match_from_bounds : (room : ℕ) (a b : List ℕ) → match_from room a b ≤ room
unfolding match_from
match_from_bounds zero a b = omega arith
match_from_bounds (suc room) [] b = omega arith
match_from_bounds (suc room) (x ∷ a) [] = omega arith
match_from_bounds (suc room) (x ∷ a) (y ∷ b) = ground (arith, match_from_bounds room a b)

match_from-nil : (room : ℕ) (a : List ℕ) → match_from room a [] ≡ 0
unfolding match_from
match_from-nil zero a = refl
match_from-nil (suc room) [] = refl
match_from-nil (suc room) (x ∷ a) = refl

-- A match of at least one byte starts with equal bytes.
match_from-cons :
    (n room x y : ℕ) (a b : List ℕ)
    → suc n ≤ match_from room (x ∷ a) (y ∷ b)
    → (x ≡ y) × (r : ℕ) × (n ≤ match_from r a b)
unfolding match_from
match_from-cons n zero x y a b h = absurd (omega arith)
match_from-cons n (suc room) x y a b h = elim (Bool-cases (x == y)) [
  | inl t ↦
      let k : suc n ≤ suc (match_from room a b) = rw t at h in
      (ground arith, room, omega (arith, k))
  | inr f ↦ let k : suc n ≤ 0 = rw f at h in absurd (omega (arith, k))
]

-- What a match covers, copied back from `distance` bytes before, is what comes next.
abbrev pub Copies : ℕ → ℕ → List ℕ → List ℕ → Type 0
Copies n distance out rest =
    (m : List ℕ) × (after : List ℕ) × (rest ≡ m ++ after)
    × (length m ≡ n)
    × (copy_back n distance out ≡ out ++ m)

pub copy_back-Copies :
    (n distance room : ℕ) (out rest : List ℕ)
    → 0 < distance
    → distance ≤ length out
    → n ≤ match_from room (drop (length out - distance) (out ++ rest)) rest
    → Copies n distance out rest
unfolding copy_back
copy_back-Copies zero distance room out rest h k m = ([], rest, refl, refl, sym (append-nil out))
copy_back-Copies (suc n) distance room out [] h k m =
    absurd (omega (arith, match_from-nil room (drop (length out - distance) (out ++ [])), m))
copy_back-Copies (suc n) distance room out (y ∷ rest) h k m =
    let i = length out - distance in
    let m' : suc n ≤ match_from room (byte_at out i ∷ drop (suc i) (out ++ y ∷ rest)) (y ∷ rest) =
      rw (drop-append_cons out y rest i (omega arith)) at m in
    let (same, r, more) =
      match_from-cons n room (byte_at out i) y (drop (suc i) (out ++ y ∷ rest)) rest m' in
    let size : length (out ++ y ∷ []) ≡ suc (length out) =
      omega (arith, length-append out (y ∷ [])) in
    let index : length (out ++ y ∷ []) - distance ≡ suc i = omega (arith, size) in
    let (taken, after, e, l, c) =
      copy_back-Copies n distance r (out ++ y ∷ []) rest h (omega (arith, size))
        (rw (index, snoc-append out y rest) more) in
    (
      y ∷ taken,
      after,
      ap (λ t. y ∷ t) e,
      ap suc l,
      ap (λ z. copy_back n distance (out ++ z ∷ [])) same ∙ c ∙ snoc-append out y taken,
    )

module _ (bytes : List ℕ) (pos : ℕ) where
  -- A match that the search may hold: none yet, or one that is there, inside the window.
  abbrev pub IsMatch : Match → Type 0
  IsMatch (best, distance) =
      (best ≡ 0)
      ⊎ ((0 < distance)
          × (distance ≤ pos)
          × (distance ≤ 4096)
          × (best ≤ match_from 18 (drop (pos - distance) bytes) (drop pos bytes)))

  IsMatch-consider :
      (i : ℕ) (best : Match)
      → i < pos
      → pos ≤ i + 4096
      → IsMatch best
      → IsMatch (consider bytes pos i best)
  unfolding consider
  IsMatch-consider i (best, distance) h k m =
      elim (Bool-cases (ltb best (match_from 18 (drop i bytes) (drop pos bytes)))) [
        | inl t ↦
            let back : pos - (pos - i) ≡ i = omega arith in
            simp t (inr (omega arith, omega arith, omega arith, rw back (omega arith)))
        | inr f ↦ simp f m
      ]

  IsMatch-longest_match :
      (n i : ℕ) (best : Match)
      → i + n ≡ pos
      → pos ≤ i + 4096
      → IsMatch best
      → IsMatch (longest_match bytes pos n i best)
  unfolding longest_match
  IsMatch-longest_match zero i best h k m = m
  IsMatch-longest_match (suc n) i best h k m =
      IsMatch-longest_match n (suc i) (consider bytes pos i best) (omega arith) (omega arith)
        (IsMatch-consider i best (omega arith) k m)

  -- The search returns a match that is there.
  pub find_match-IsMatch : IsMatch (find_match bytes pos)
  unfolding find_match
  find_match-IsMatch =
      IsMatch-longest_match (pos - window_start pos) (window_start pos) (0, 0) (ground arith)
        (ground arith) (inl refl)

-- ===== src/Common/Bytes.antt =====
-- Text as the list of its bytes, and the equality of texts.
use Prim.Native.Nat.{zero, suc, ◌+◌, ◌/◌, ◌%◌, ℕ}
use Prim.Native.Char.{code}
use Prim.Native.String.{String}
use mathlib.Core.Path.{◌≡◌, refl}
use mathlib.Core.Bool.{Bool, true, false, ◌&&◌}
use mathlib.Core.List.{List, [], ◌∷◌}
use native.Mathlib.Omega.{arith}
use bb_pipeline.Common.Tests.{if◌then◌else◌, ltb, ◌==◌}

abbrev pub Text : Type 0
Text = List ℕ

abbrev pub codes : String → Text
codes String.[] = []
codes (String.◌∷◌ c s) = code c ∷ codes s

-- `operator==` of std::string.
infix 50 ◌=t◌
unfoldable pub ◌=t◌ : Text → Text → Bool
[] =t [] = true
[] =t (y ∷ ys) = false
(x ∷ xs) =t [] = false
(x ∷ xs) =t (y ∷ ys) = x == y && xs =t ys

pub text-eq : (a b : Text) → (a =t b) ≡ true → a ≡ b
unfolding ◌=t◌
text-eq [] [] h = refl
text-eq [] (y ∷ ys) h = cc
text-eq (x ∷ xs) [] h = cc
text-eq (x ∷ xs) (y ∷ ys) h = ground (arith, text-eq xs ys)

pub text-eq_refl : (a : Text) → (a =t a) ≡ true
unfolding ◌=t◌
text-eq_refl [] = refl
text-eq_refl (x ∷ xs) = ground (arith, text-eq_refl xs)

pub eq→text : (a b : Text) → a ≡ b → (a =t b) ≡ true
eq→text a b e = rw e (text-eq_refl b)

-- std::to_string of a `size_t`, which has at most twenty digits.
to_digits : ℕ → ℕ → Text → Text
to_digits zero n acc = acc
to_digits (suc f) n acc =
    let rest = to_digits f (n / 10) ((48 + n % 10) ∷ acc) in
    if ltb n 10 then (48 + n) ∷ acc else rest

unfoldable pub to_string : ℕ → Text
unfolding to_digits
to_string n = to_digits 20 n []

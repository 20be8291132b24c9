-- ===== src/Common/Assoc.antt =====
-- std::unordered_map keyed by text: an association list in iteration order.
use Prim.Native.Nat.{◌≤◌, ◌+◌}
use mathlib.Core.Path.{◌≡◌, refl}
use mathlib.Core.Option.{Option, none, some}
use mathlib.Core.List.{List, [], ◌∷◌}
use native.Mathlib.Omega.{arith}
use bb_pipeline.Common.Tests.{if◌then◌else◌}
use bb_pipeline.Common.Lists.{length, All}
use bb_pipeline.Common.Bytes.{Text, ◌=t◌, text-eq, text-eq_refl, eq→text}

abbrev pub Dict {ℓ} : Type ℓ → Type ℓ
Dict V = List (Text × V)

module _ {ℓ} {V : Type ℓ} where
  -- `find`.
  unfoldable pub lookup : Text → Dict V → Option V
  lookup k [] = none
  lookup k ((j, v) ∷ m) = if j =t k then some v else lookup k m

  -- `m[k] = v`: an entry that is there keeps its place.
  unfoldable pub insert : Text → V → Dict V → Dict V
  insert k v [] = (k, v) ∷ []
  insert k v ((j, w) ∷ m) = if j =t k then (j, v) ∷ m else (j, w) ∷ insert k v m

  -- `erase(find(k))`.
  unfoldable pub erase : Text → Dict V → Dict V
  erase k [] = []
  erase k ((j, w) ∷ m) = if j =t k then m else (j, w) ∷ erase k m

  abbrev pub values : Dict V → List V
  values [] = []
  values ((k, v) ∷ m) = v ∷ values m

  pub lookup-insert :
      (k j : Text) (v : V) (m : Dict V)
      → lookup j (insert k v m) ≡ (if k =t j then some v else lookup j m)
  unfolding lookup insert
  lookup-insert k j v [] = refl
  lookup-insert k j v ((i, w) ∷ m) = ground (
    arith,
    text-eq k j,
    text-eq i k,
    text-eq i j,
    eq→text k j,
    eq→text i k,
    eq→text i j,
    lookup-insert k j v m,
  )

  pub lookup-insert_self : (k : Text) (v : V) (m : Dict V) → lookup k (insert k v m) ≡ some v
  lookup-insert_self k v m = rw (lookup-insert k k v m, text-eq_refl k)

  pub length-erase : (k : Text) (m : Dict V) → length (erase k m) ≤ length m
  unfolding erase
  length-erase k [] = omega arith
  length-erase k ((j, w) ∷ m) = ground (arith, length-erase k m)

  -- Erasing a key that is there takes one entry away.
  pub length-erase_found :
      (k : Text) (m : Dict V) (v : V) → lookup k m ≡ some v → length (erase k m) + 1 ≡ length m
  unfolding lookup erase
  length-erase_found k [] v h = ground arith
  length-erase_found k ((j, w) ∷ m) v h = ground (arith, length-erase_found k m v)

  pub length-insert : (k : Text) (v : V) (m : Dict V) → length (insert k v m) ≤ length m + 1
  unfolding insert
  length-insert k v [] = omega arith
  length-insert k v ((j, w) ∷ m) = ground (arith, length-insert k v m)

  pub length-insert_found :
      (k : Text) (v : V) (m : Dict V) (w : V)
      → lookup k m ≡ some w
      → length (insert k v m) ≡ length m
  unfolding lookup insert
  length-insert_found k v [] u h = ground arith
  length-insert_found k v ((j, w) ∷ m) u h = ground (arith, length-insert_found k v m u)

  module _ {κ} (P : V → Type κ) where
    pub All-insert :
        (k : Text) (v : V) (m : Dict V) → P v → All P (values m) → All P (values (insert k v m))
    unfolding insert
    All-insert k v [] p h = (p, tt)
    All-insert k v ((j, w) ∷ m) p h = ground (arith, All-insert k v m p h.1)

    pub All-erase : (k : Text) (m : Dict V) → All P (values m) → All P (values (erase k m))
    unfolding erase
    All-erase k [] h = tt
    All-erase k ((j, w) ∷ m) h = ground (arith, All-erase k m h.1)

    pub All-lookup : (k : Text) (m : Dict V) (v : V) → lookup k m ≡ some v → All P (values m) → P v
    unfolding lookup
    All-lookup k [] v e h = cc
    All-lookup k ((j, w) ∷ m) v e h = ground (arith, All-lookup k m v)

module _ {ℓ} {V : Type ℓ} where
  -- No key stands twice, as in every std::unordered_map.
  abbrev pub Unique : List (Text × V) → Type ℓ
  Unique [] = Unit
  Unique ((k, v) ∷ m) = (lookup k m ≡ none) × Unique m

module _ {ℓ} {V : Type ℓ} where
  pub lookup-erase :
      (k j : Text) (m : Dict V)
      → Unique m
      → lookup j (erase k m) ≡ (if k =t j then none else lookup j m)
  unfolding lookup erase
  lookup-erase k j [] u = ground arith
  lookup-erase k j ((i, w) ∷ m) u = ground (
    arith,
    text-eq k j,
    text-eq i k,
    text-eq i j,
    eq→text k j,
    eq→text i k,
    eq→text i j,
    lookup-erase k j m u.1,
    eq→text k i,
  )

  pub Unique-insert : (k : Text) (v : V) (m : Dict V) → Unique m → Unique (insert k v m)
  unfolding insert lookup
  Unique-insert k v [] u = (refl, tt)
  Unique-insert k v ((j, w) ∷ m) u =
      ground (arith, lookup-insert k j v m, Unique-insert k v m u.1, text-eq k j, eq→text j k)

  lookup-erase-none : (k j : Text) (m : Dict V) → lookup j m ≡ none → lookup j (erase k m) ≡ none
  unfolding lookup erase
  lookup-erase-none k j [] h = refl
  lookup-erase-none k j ((i, w) ∷ m) h = ground (arith, lookup-erase-none k j m)

  pub Unique-erase : (k : Text) (m : Dict V) → Unique m → Unique (erase k m)
  unfolding erase
  Unique-erase k [] u = u
  Unique-erase k ((j, w) ∷ m) u = ground (arith, lookup-erase-none k j m, Unique-erase k m u.1)

-- ===== src/Cache/Chunks.antt =====
-- The loops of `compress` and `decompress` in infrastructure/networking/cache_system.cpp, which take what
-- zlib has to give in chunks of the size of a buffer.
use bb_pipeline.Common.{
  ℕ, zero, suc, ◌%◌, ◌<◌, ◌≤◌, ◌≡◌, refl, ap, ◌∙◌, [], ◌∷◌, ◌++◌, Text, length, drop, ◌==◌,
  if◌then◌else◌, arith, Bool-cases, inl, inr, length-drop, leb, false,
}
use mathlib.Core.List.{append_assoc}

abbrev pub buffer_size : ℕ
buffer_size = 32768

unfoldable pub first_bytes : ℕ → Text → Text
first_bytes zero s = []
first_bytes (suc n) [] = []
first_bytes (suc n) (c ∷ s) = c ∷ first_bytes n s

-- `avail_in` has 32 bits.
abbrev pub available : Text → Text
available s = first_bytes (length s % 4294967296) s

-- `pending` is what zlib still has to give. A call gives as much of it as the buffer holds, and the loop
-- goes on while the buffer was filled.
unfoldable pub drain : ℕ → Text → Text → Text
drain zero pending out = out
drain (suc fuel) pending out =
    let chunk = first_bytes buffer_size pending in
    let more = drain fuel (drop buffer_size pending) (out ++ chunk) in
    if length chunk == buffer_size then more else out ++ chunk

-- A round takes a byte at least, so that the fuel is enough.
abbrev pub drain_all : Text → Text
drain_all pending = drain (suc (length pending)) pending []

first_bytes-drop : (n : ℕ) (s : Text) → first_bytes n s ++ drop n s ≡ s
unfolding first_bytes
first_bytes-drop zero s = refl
first_bytes-drop (suc n) [] = refl
first_bytes-drop (suc n) (c ∷ s) = ap (λ t. c ∷ t) (first_bytes-drop n s)

length-first_bytes : (n : ℕ) (s : Text) → n ≤ length s → length (first_bytes n s) ≡ n
unfolding first_bytes
length-first_bytes zero s h = refl
length-first_bytes (suc n) [] h = omega arith
length-first_bytes (suc n) (c ∷ s) h = omega (arith, length-first_bytes n s (omega arith))

pub first_bytes_all : (n : ℕ) (s : Text) → length s ≤ n → first_bytes n s ≡ s
unfolding first_bytes
first_bytes_all zero [] h = refl
first_bytes_all zero (c ∷ s) h = absurd (omega arith)
first_bytes_all (suc n) [] h = refl
first_bytes_all (suc n) (c ∷ s) h = ap (λ t. c ∷ t) (first_bytes_all n s (omega arith))

pub available_all : (s : Text) → length s < 4294967296 → available s ≡ s
available_all s h = first_bytes_all (length s % 4294967296) s (omega arith)

length-first_bytes_le : (n : ℕ) (s : Text) → length (first_bytes n s) ≤ length s
unfolding first_bytes
length-first_bytes_le zero s = omega arith
length-first_bytes_le (suc n) [] = omega arith
length-first_bytes_le (suc n) (c ∷ s) = omega (arith, length-first_bytes_le n s)

-- A chunk that does not fill the buffer is all that was pending.
last_chunk : (n : ℕ) (s : Text) → (length (first_bytes n s) == n) ≡ false → first_bytes n s ≡ s
last_chunk n s f = elim (Bool-cases (leb n (length s))) [
  | inl t ↦ absurd (ground (arith, length-first_bytes n s))
  | inr l ↦ first_bytes_all n s (ground arith)
]

-- The loop gives all that there is.
drain-all :
    (fuel : ℕ) (pending out : Text)
    → length pending < fuel
    → drain fuel pending out ≡ out ++ pending
unfolding drain
drain-all zero pending out h = absurd (omega arith)
drain-all (suc fuel) pending out h =
    let chunk = first_bytes buffer_size pending in
    elim (Bool-cases (length chunk == buffer_size)) [
      | inl t ↦
          let full : buffer_size ≤ length pending =
            ground (arith, length-first_bytes_le buffer_size pending) in
          simp t (
            drain-all fuel (drop buffer_size pending) (out ++ chunk)
              (omega (arith, length-drop buffer_size pending))
            ∙ append_assoc out chunk (drop buffer_size pending)
            ∙ ap (λ x. out ++ x) (first_bytes-drop buffer_size pending))
      | inr f ↦ simp f (ap (λ x. out ++ x) (last_chunk buffer_size pending f))
    ]

pub drain_all_lem : (pending : Text) → drain_all pending ≡ pending
drain_all_lem pending = drain-all (suc (length pending)) pending [] (omega arith)

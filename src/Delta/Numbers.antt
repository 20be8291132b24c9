-- ===== src/Delta/Numbers.antt =====
-- DeltaCompressor::applyDeltaEncoding: an int64_t is its 64 bits read as a number below 2^64, and its
-- bytes are written lowest first, as on the little-endian machines the code runs on.
use bb_pipeline.Common.{
  ℕ, zero, suc, ◌+◌, ◌-◌, ◌*◌, ◌/◌, ◌%◌, ◌<◌, ◌^◌, ◌≡◌, refl, ap, ◌∙◌, List, [], ◌∷◌, ◌++◌, u64,
  length, drop, All, arith,
}

-- The bytes of a w-byte integer, lowest first.
unfoldable pub le_bytes : ℕ → ℕ → List ℕ
le_bytes zero n = []
le_bytes (suc w) n = n % 256 ∷ le_bytes w (n / 256)

-- The integer that the first w bytes spell.
unfoldable pub le_word : ℕ → List ℕ → ℕ
le_word zero bs = 0
le_word (suc w) [] = 0
le_word (suc w) (b ∷ bs) = b + 256 * le_word w bs

pub length-le_bytes : (w n : ℕ) → length (le_bytes w n) ≡ w
unfolding le_bytes
length-le_bytes zero n = refl
length-le_bytes (suc w) n = ap suc (length-le_bytes w (n / 256))

-- Reading the bytes of a number that fits gives the number, whatever follows.
pub le_word-bytes : (w n : ℕ) (rest : List ℕ) → n < 256 ^ w → le_word w (le_bytes w n ++ rest) ≡ n
unfolding le_word le_bytes
le_word-bytes zero n rest h = omega arith
le_word-bytes (suc w) n rest h = omega (arith, le_word-bytes w (n / 256) rest (grind arith))

pub drop-le_bytes : (w n : ℕ) (rest : List ℕ) → drop w (le_bytes w n ++ rest) ≡ rest
unfolding le_bytes
drop-le_bytes zero n rest = refl
drop-le_bytes (suc w) n rest = drop-le_bytes w (n / 256) rest

-- `values[i] - values[i-1]`, which wraps around.
unfoldable pub difference : ℕ → ℕ → ℕ
difference v previous = u64 (v + (18446744073709551616 - previous))

unfoldable pub deltas_from : ℕ → List ℕ → List ℕ
deltas_from previous [] = []
deltas_from previous (v ∷ vs) = le_bytes 8 (difference v previous) ++ deltas_from v vs

unfoldable pub delta_encode : List ℕ → List ℕ
delta_encode [] = []
delta_encode (v ∷ vs) = le_bytes 8 v ++ deltas_from v vs

-- The reference decoder: a running sum of the first `n` words.
unfoldable pub delta_decode : ℕ → ℕ → List ℕ → List ℕ
delta_decode zero previous bytes = []
delta_decode (suc n) previous bytes =
    let v = u64 (previous + le_word 8 bytes) in v ∷ delta_decode n v (drop 8 bytes)

abbrev pub IsU64 : ℕ → Type 0
IsU64 n = n < 18446744073709551616

difference-IsU64 : (v p : ℕ) → difference v p < 256 ^ 8
unfolding difference
difference-IsU64 v p = omega arith

difference_undone : (v p : ℕ) → IsU64 v → IsU64 p → u64 (p + difference v p) ≡ v
unfolding difference
difference_undone v p h k = omega arith

delta_step :
    (p w v : ℕ) (rest : List ℕ) (n : ℕ)
    → IsU64 w
    → u64 (p + w) ≡ v
    → delta_decode (suc n) p (le_bytes 8 w ++ rest) ≡ v ∷ delta_decode n v rest
unfolding delta_decode
delta_step p w v rest n h e = rw (le_word-bytes 8 w rest h, e, drop-le_bytes 8 w rest) refl

decode-deltas_from :
    (p : ℕ) (vs : List ℕ)
    → IsU64 p
    → All IsU64 vs
    → delta_decode (length vs) p (deltas_from p vs) ≡ vs
unfolding deltas_from delta_decode
decode-deltas_from p [] h k = refl
decode-deltas_from p (v ∷ vs) h (k, ks) =
    delta_step p (difference v p) v (deltas_from v vs) (length vs) (difference-IsU64 v p)
      (difference_undone v p k h)
    ∙ ap (λ r. v ∷ r) (decode-deltas_from v vs k ks)

-- The running sums of an encoded list of 64-bit integers are the integers, though differences wrap around.
pub delta_decode-encode :
    (values : List ℕ)
    → All IsU64 values
    → delta_decode (length values) 0 (delta_encode values) ≡ values
unfolding delta_encode deltas_from
delta_decode-encode [] h = decode-deltas_from 0 [] (omega arith) tt
delta_decode-encode (v ∷ vs) (h, hs) =
    delta_step 0 v v (deltas_from v vs) (length vs) h (omega arith)
    ∙ ap (λ r. v ∷ r) (decode-deltas_from v vs h hs)

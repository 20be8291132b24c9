-- ===== src/Delta/Runs.antt =====
-- DeltaCompressor::applyRunLengthEncoding, with the decoder that its pairs of count and byte ask for.
use bb_pipeline.Common.{
  ℕ, zero, suc, ◌+◌, ◌*◌, ◌≤◌, ◌<◌, ◌≡◌, refl, ap, ◌∙◌, ◌&&◌, List, [], ◌∷◌, ◌++◌, if◌then◌else◌,
  ltb, ◌==◌, ◌%◌, length, arith, Bool-cases, inl, inr,
}

-- The loop over data[1..], with `current` and `count`, which is a uint8_t. A run ends at another byte or at 255.
unfoldable pub runs_from : ℕ → ℕ → List ℕ → List ℕ
runs_from current count [] = count ∷ current ∷ []
runs_from current count (x ∷ xs) =
    let same = x == current && ltb count 255 in
    let rest = runs_from (if same then current else x) (if same then suc count % 256 else 1) xs in
    if same then rest else count ∷ current ∷ rest

unfoldable pub run_length_encode : List ℕ → List ℕ
run_length_encode [] = []
run_length_encode (x ∷ xs) = runs_from x 1 xs

-- `n` copies of a byte.
abbrev pub copies : ℕ → ℕ → List ℕ
copies zero x = []
copies (suc n) x = x ∷ copies n x

-- The reference decoder.
unfoldable pub run_length_decode : List ℕ → List ℕ
run_length_decode (count ∷ x ∷ rest) = copies count x ++ run_length_decode rest
run_length_decode _ = []

copies_snoc : (n x : ℕ) (xs : List ℕ) → copies (suc n) x ++ xs ≡ copies n x ++ x ∷ xs
copies_snoc zero x xs = refl
copies_snoc (suc n) x xs = ap (λ r. x ∷ r) (copies_snoc n x xs)

decode-runs_from :
    (current count : ℕ) (xs : List ℕ)
    → count < 256
    → run_length_decode (runs_from current count xs) ≡ copies count current ++ xs
unfolding runs_from run_length_decode
decode-runs_from current count [] h = refl
decode-runs_from current count (x ∷ xs) h = elim (Bool-cases (x == current && ltb count 255)) [
  | inl t ↦
      let e : current ≡ x = ground arith in
      let small : suc count < 256 = ground arith in
      let whole : suc count % 256 ≡ suc count = omega (arith, small) in
      simp (t, whole)
        (decode-runs_from current (suc count) xs small
          ∙ copies_snoc count current xs
          ∙ ap (λ y. copies count current ++ y ∷ xs) e)
  | inr f ↦ simp f (ap (λ r. copies count current ++ r) (decode-runs_from x 1 xs (omega arith)))
]

-- Decoding a run-length encoded buffer gives the buffer back.
pub run_length_decode-encode :
    (bytes : List ℕ) → run_length_decode (run_length_encode bytes) ≡ bytes
unfolding run_length_encode run_length_decode
run_length_decode-encode [] = refl
run_length_decode-encode (x ∷ xs) = decode-runs_from x 1 xs (omega arith)

-- The counts of an encoded buffer fit a byte and are not 0, and every count has its byte.
abbrev pub HasByteCounts : List ℕ → Type 0
HasByteCounts [] = Unit
HasByteCounts (count ∷ []) = ⊥
HasByteCounts (count ∷ x ∷ rest) = (0 < count) × (count < 256) × HasByteCounts rest

runs_from-HasByteCounts :
    (current count : ℕ) (xs : List ℕ)
    → 0 < count
    → count < 256
    → HasByteCounts (runs_from current count xs)
      × (length (runs_from current count xs) ≤ 2 * length xs + 2)
unfolding runs_from
runs_from-HasByteCounts current count [] h k = ((h, k, tt), omega arith)
runs_from-HasByteCounts current count (x ∷ xs) h k =
    elim (Bool-cases (x == current && ltb count 255)) [
      | inl t ↦
          let small : suc count < 256 = ground arith in
          let (a, b) = runs_from-HasByteCounts current (suc count) xs (omega arith) small in
          let whole : suc count % 256 ≡ suc count = omega (arith, small) in
          simp (t, whole) (a, omega (arith, b))
      | inr f ↦
          let (a, b) = runs_from-HasByteCounts x 1 xs (omega arith) (omega arith) in
          simp f ((h, k, a), omega (arith, b))
    ]

-- No count wraps around in its uint8_t, and the encoded buffer is at most twice as long as the input.
pub run_length_encode-HasByteCounts :
    (bytes : List ℕ)
    → HasByteCounts (run_length_encode bytes)
      × (length (run_length_encode bytes) ≤ 2 * length bytes)
unfolding run_length_encode
run_length_encode-HasByteCounts [] = (tt, omega arith)
run_length_encode-HasByteCounts (x ∷ xs) =
    let (a, b) = runs_from-HasByteCounts x 1 xs (omega arith) (omega arith) in (a, omega (arith, b))

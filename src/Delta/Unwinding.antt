-- ===== src/Delta/Unwinding.antt =====
-- The LZ77 tokens decoded: matches copy what the search found, and bytes other than the marker stand for
-- themselves.
use bb_pipeline.Common.{
  ℕ, zero, suc, ◌+◌, ◌-◌, ◌*◌, ◌/◌, ◌%◌, ◌≤◌, ◌<◌, ◌≡◌, refl, sym, ap, ◌∙◌, true, false, List, [],
  ◌∷◌, ◌++◌, ltb, ◌==◌, length, length-append, drop, All, arith, Bool-cases, inl, inr,
}
use mathlib.Core.Path.{subst}
use mathlib.Core.List.{append_assoc, append-nil}
use bb_pipeline.Delta.Window.{
  match_from, Match, consider, longest_match, find_match, token, advance, lz77_from, lz77_compress,
  copy_back, lz77_decode,
}
use bb_pipeline.Delta.Searching.{
  drop-append, snoc-append, byte_at-append, match_from_bounds, copy_back-Copies, IsMatch,
  find_match-IsMatch,
}

decode_hit :
    (out rest : List ℕ) (best distance : ℕ)
    → best ≤ 18
    → distance ≤ 4096
    → lz77_decode out (255 ∷ distance % 256 ∷ distance / 256 % 256 ∷ best % 256 ∷ rest)
      ≡ lz77_decode (copy_back best distance out) rest
unfolding lz77_decode
decode_hit out rest best distance h k =
    let b : best % 256 ≡ best = omega arith in
    let d : distance % 256 + 256 * (distance / 256 % 256) ≡ distance = omega arith in rw (b, d) refl

decode_literal :
    (out : List ℕ) (b : ℕ) (rest : List ℕ)
    → (b == 255) ≡ false
    → lz77_decode out (b ∷ rest) ≡ lz77_decode (out ++ b ∷ []) rest
unfolding lz77_decode
decode_literal out b [] h = refl
decode_literal out b (lo ∷ []) h = sym (snoc-append out b (lo ∷ []))
decode_literal out b (lo ∷ hi ∷ []) h = sym (snoc-append out b (lo ∷ hi ∷ []))
decode_literal out b (lo ∷ hi ∷ n ∷ rest) h = simp h

abbrev pub IsPlain : ℕ → Type 0
IsPlain b = (b == 255) ≡ false

All-suffix : (m after : List ℕ) → All IsPlain (m ++ after) → All IsPlain after
All-suffix [] after h = h
All-suffix (x ∷ m) after (_, h) = All-suffix m after h

-- The token at a position, decoded, puts out what stands there.
abbrev Rebuilds : List ℕ → List ℕ → Match → Type 0
Rebuilds out rest found =
    (m : List ℕ) × (after : List ℕ) × (rest ≡ m ++ after)
    × (length m ≡ advance found)
    × (0 < advance found)
    × ((tail : List ℕ)
        → lz77_decode out (token (out ++ rest) (length out) found ++ tail)
          ≡ lz77_decode (out ++ m) tail)

token-Rebuilds :
    (out : List ℕ) (y : ℕ) (rest : List ℕ) (found : Match)
    → IsPlain y
    → IsMatch (out ++ y ∷ rest) (length out) found
    → Rebuilds out (y ∷ rest) found
token-Rebuilds out y rest (best, distance) p v = elim (Bool-cases (ltb 2 best)) [
  | inr f ↦ simp f (
    y ∷ [],
    rest,
    refl,
    refl,
    omega arith,
    λ tail. rw (byte_at-append out y rest) (decode_literal out y tail p),
  )
  | inl t ↦ elim v [
    | inl none ↦ absurd (ground arith)
    | inr (a, b, c, d) ↦
        let bound =
          match_from_bounds 18 (drop (length out - distance) (out ++ y ∷ rest))
            (drop (length out) (out ++ y ∷ rest)) in
        let (m, after, e, l, k) = copy_back-Copies best distance 18 out (y ∷ rest) a b (
          omega (
            arith,
            d,
            ap (match_from 18 (drop (length out - distance) (out ++ y ∷ rest)))
                (drop-append out (y ∷ rest)),
          )) in
        simp t (
          m,
          after,
          e,
          l,
          ground arith,
          λ tail.
              decode_hit out tail best distance (omega (arith, d, bound)) c
              ∙ ap (λ o. lz77_decode o tail) k,
        )
  ]
]

decode-lz77_from :
    (fuel : ℕ) (out rest : List ℕ)
    → length rest ≤ fuel
    → All IsPlain rest
    → lz77_decode out (lz77_from fuel (out ++ rest) (length out)) ≡ out ++ rest
unfolding lz77_from lz77_decode
decode-lz77_from zero out [] h p = sym (append-nil out)
decode-lz77_from zero out (y ∷ rest) h p = absurd (omega arith)
decode-lz77_from (suc fuel) out [] h p =
    let past : ltb (length out) (length (out ++ [])) ≡ false =
      ground (arith, length-append out []) in
    simp past (sym (append-nil out))
decode-lz77_from (suc fuel) out (y ∷ rest) h (p, ps) =
    let inside : ltb (length out) (length (out ++ y ∷ rest)) ≡ true =
      ground (arith, length-append out (y ∷ rest)) in
    let found = find_match (out ++ y ∷ rest) (length out) in
    let (m, after, e, l, moves, decoded) =
      token-Rebuilds out y rest found p (find_match-IsMatch (out ++ y ∷ rest) (length out)) in
    let whole : out ++ y ∷ rest ≡ (out ++ m) ++ after =
      ap (λ r. out ++ r) e ∙ sym (append_assoc out m after) in
    let size : length out + advance found ≡ length (out ++ m) =
      omega (arith, length-append out m, l) in
    let left : length after ≤ fuel =
      omega (arith, ap length e, length-append m after, l, moves, h) in
    let next : All IsPlain after = All-suffix m after (subst (All IsPlain) e (p, ps)) in
    simp inside (
      decoded (lz77_from fuel (out ++ y ∷ rest) (length out + advance found))
      ∙ ap (λ k. lz77_decode (out ++ m) (lz77_from fuel (out ++ y ∷ rest) k)) size
      ∙ ap (λ w. lz77_decode (out ++ m) (lz77_from fuel w (length (out ++ m)))) whole
      ∙ decode-lz77_from fuel (out ++ m) after left next
      ∙ sym whole)

-- Decoding the tokens of a buffer without the byte 0xFF gives the buffer back.
pub lz77_decode-compress :
    (bytes : List ℕ) → All IsPlain bytes → lz77_decode [] (lz77_compress bytes) ≡ bytes
unfolding lz77_compress
lz77_decode-compress bytes h = decode-lz77_from (length bytes) [] bytes (omega arith) h

-- No decoder undoes the compression of every buffer: a literal 0xFF reads as the marker of a match.
pub lz77_compress_ambiguous :
    ¬ ((decode : List ℕ → List ℕ) × ((bytes : List ℕ) → decode (lz77_compress bytes) ≡ bytes))
unfolding lz77_compress lz77_from find_match longest_match consider match_from
lz77_compress_ambiguous (decode, undo) =
    let same : 7 ∷ 7 ∷ 7 ∷ 7 ∷ [] ≡ 7 ∷ 255 ∷ 1 ∷ 0 ∷ 3 ∷ [] =
      sym (undo (7 ∷ 7 ∷ 7 ∷ 7 ∷ [])) ∙ undo (7 ∷ 255 ∷ 1 ∷ 0 ∷ 3 ∷ []) in
    absurd (omega (arith, ap length same))

-- ===== src/Delta/Window.antt =====
-- DeltaCompressor::applyLZ77Compression, with the decoder that its tokens ask for.
use bb_pipeline.Common.{
  ℕ, zero, suc, ◌+◌, ◌-◌, ◌*◌, ◌/◌, ◌%◌, ◌≡◌, refl, List, [], ◌∷◌, ◌++◌, if◌then◌else◌, ltb, leb,
  ◌==◌, length, drop,
}

-- `data[i]`, with 0 past the end, where the code does not read.
abbrev pub byte_at : List ℕ → ℕ → ℕ
byte_at [] i = 0
byte_at (x ∷ xs) zero = x
byte_at (x ∷ xs) (suc i) = byte_at xs i

-- The `while` loop: how far two positions agree, within the lookahead and the data.
unfoldable pub match_from : ℕ → List ℕ → List ℕ → ℕ
match_from zero a b = 0
match_from (suc room) (x ∷ a) (y ∷ b) =
    let more = match_from room a b in if x == y then suc more else 0
match_from (suc room) _ _ = 0

abbrev pub Match : Type 0
Match = ℕ × ℕ

-- One round of the search: a longer match is kept with its distance.
unfoldable pub consider : List ℕ → ℕ → ℕ → Match → Match
consider bytes pos i (best, distance) =
    let found = match_from 18 (drop i bytes) (drop pos bytes) in
    if ltb best found then (found, pos - i) else (best, distance)

-- The `for` loop over the window: `n` positions from `i` on.
unfoldable pub longest_match : List ℕ → ℕ → ℕ → ℕ → Match → Match
longest_match bytes pos zero i best = best
longest_match bytes pos (suc n) i best =
    longest_match bytes pos n (suc i) (consider bytes pos i best)

abbrev pub window_start : ℕ → ℕ
window_start pos = if leb 4096 pos then pos - 4096 else 0

unfoldable pub find_match : List ℕ → ℕ → Match
find_match bytes pos = longest_match bytes pos (pos - window_start pos) (window_start pos) (0, 0)

-- A token: a match longer than two bytes with its marker 0xFF, or the byte itself.
abbrev pub token : List ℕ → ℕ → Match → List ℕ
token bytes pos (best, distance) =
    if ltb 2 best
    then 255 ∷ distance % 256 ∷ distance / 256 % 256 ∷ best % 256 ∷ []
    else byte_at bytes pos ∷ []

abbrev pub advance : Match → ℕ
advance (best, distance) = if ltb 2 best then best else 1

-- The outer loop on fuel. Every round moves `pos` on, so as many rounds as bytes are enough.
unfoldable pub lz77_from : ℕ → List ℕ → ℕ → List ℕ
lz77_from zero bytes pos = []
lz77_from (suc fuel) bytes pos =
    let found = find_match bytes pos in
    let rest = lz77_from fuel bytes (pos + advance found) in
    if ltb pos (length bytes) then token bytes pos found ++ rest else []

unfoldable pub lz77_compress : List ℕ → List ℕ
lz77_compress bytes = lz77_from (length bytes) bytes 0

-- The reference decoder: a match copies byte by byte from what is already put out.
unfoldable pub copy_back : ℕ → ℕ → List ℕ → List ℕ
copy_back zero distance out = out
copy_back (suc n) distance out =
    copy_back n distance (out ++ byte_at out (length out - distance) ∷ [])

unfoldable pub lz77_decode : List ℕ → List ℕ → List ℕ
lz77_decode out [] = out
lz77_decode out (b ∷ []) = out ++ b ∷ []
lz77_decode out (b ∷ lo ∷ []) = out ++ b ∷ lo ∷ []
lz77_decode out (b ∷ lo ∷ hi ∷ []) = out ++ b ∷ lo ∷ hi ∷ []
lz77_decode out (b ∷ lo ∷ hi ∷ n ∷ rest) =
    let copied = lz77_decode (copy_back n (lo + 256 * hi) out) rest in
    let literal = lz77_decode (out ++ b ∷ []) (lo ∷ hi ∷ n ∷ rest) in
    if b == 255 then copied else literal

sample_run : lz77_compress (7 ∷ 7 ∷ 7 ∷ 7 ∷ 7 ∷ 8 ∷ []) ≡ 7 ∷ 255 ∷ 1 ∷ 0 ∷ 4 ∷ 8 ∷ []
unfolding lz77_compress lz77_from find_match longest_match consider match_from
sample_run = refl

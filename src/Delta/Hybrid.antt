-- ===== src/Delta/Hybrid.antt =====
-- DeltaCompressor::applyHybridCompression: the shortest of the encodings, behind the number of its algorithm.
use bb_pipeline.Common.{
  ℕ, ◌+◌, ◌≤◌, ◌≡◌, refl, Bool, List, [], ◌∷◌, ltb, if◌then◌else◌, ◌==◌, length, All, arith,
  Bool-cases, inl, inr,
}
use bb_pipeline.Delta.Runs.{run_length_encode, run_length_decode, run_length_decode-encode}
use bb_pipeline.Delta.Window.{lz77_compress, lz77_decode}
use bb_pipeline.Delta.Unwinding.{IsPlain, lz77_decode-compress}
use bb_pipeline.Delta.Records.{DeltaRecord}
use bb_pipeline.Delta.Frames.{serialize_to_bytes}

-- `best_algorithm` and `best_result`.
abbrev pub Best : Type 0
Best = ℕ × List ℕ

-- A shorter result takes the place of the best one.
abbrev pub consider_result : ℕ → List ℕ → Best → Best
consider_result algorithm result (a, best) =
    if ltb (length result) (length best) then (algorithm, result) else (a, best)

abbrev pub with_identifier : Best → List ℕ
with_identifier (algorithm, best) = algorithm ∷ best

unfoldable pub hybrid_bytes : Bool → List ℕ → List ℕ
hybrid_bytes enable_run_length_encoding serialized =
    let runs = consider_result 1 (run_length_encode serialized) (0, serialized) in
    with_identifier (
      consider_result 2 (lz77_compress serialized)
        (if enable_run_length_encoding then runs else (0, serialized)))

unfoldable pub apply_hybrid_compression : Bool → List DeltaRecord → List ℕ
apply_hybrid_compression enable_run_length_encoding records =
    hybrid_bytes enable_run_length_encoding (serialize_to_bytes records)

-- The reference decoder.
abbrev pub hybrid_decode : List ℕ → List ℕ
hybrid_decode [] = []
hybrid_decode (algorithm ∷ bytes) =
    if algorithm == 0
    then bytes
    else if algorithm == 1
    then run_length_decode bytes
    else lz77_decode [] bytes

-- What every stage of the choice keeps: it decodes to the input and is no longer than it.
abbrev Encodes : List ℕ → Best → Type 0
Encodes bytes best =
    (hybrid_decode (with_identifier best) ≡ bytes)
    × (length (with_identifier best) ≤ length bytes + 1)

Encodes-consider_result :
    (bytes : List ℕ) (algorithm : ℕ) (result : List ℕ) (best : Best)
    → hybrid_decode (algorithm ∷ result) ≡ bytes
    → Encodes bytes best
    → Encodes bytes (consider_result algorithm result best)
Encodes-consider_result bytes algorithm result (a, best) e (d, l) =
    elim (Bool-cases (ltb (length result) (length best))) [
      | inl t ↦ simp t (e, ground arith)
      | inr f ↦ simp f (d, l)
    ]

hybrid_bytes-Encodes :
    (rle : Bool) (bytes : List ℕ)
    → All IsPlain bytes
    → (hybrid_decode (hybrid_bytes rle bytes) ≡ bytes)
      × (length (hybrid_bytes rle bytes) ≤ length bytes + 1)
unfolding hybrid_bytes
hybrid_bytes-Encodes rle bytes h =
    let start : Encodes bytes (0, bytes) = (refl, omega arith) in
    let runs =
      Encodes-consider_result bytes 1 (run_length_encode bytes) (0, bytes)
        (run_length_decode-encode bytes) start in
    Encodes-consider_result bytes 2 (lz77_compress bytes) _ (lz77_decode-compress bytes h)
      (elim (Bool-cases rle) [ inl t ↦ simp t runs | inr f ↦ simp f start ])

-- When the serialized records hold no byte 0xFF, the chosen encoding decodes to them by the number in front of it,
-- and it costs at most that one byte over the plain records.
pub hybrid_decode-apply_hybrid_compression :
    (rle : Bool) (records : List DeltaRecord)
    → All IsPlain (serialize_to_bytes records)
    → (hybrid_decode (apply_hybrid_compression rle records) ≡ serialize_to_bytes records)
      × (length (apply_hybrid_compression rle records) ≤ length (serialize_to_bytes records) + 1)
unfolding apply_hybrid_compression
hybrid_decode-apply_hybrid_compression rle records h =
    hybrid_bytes-Encodes rle (serialize_to_bytes records) h

-- ===== src/Delta/Examples.antt =====
-- Runs of the delta compressor, with a hash that is the text itself and a clock that shows nothing.
use bb_pipeline.Common.{
  ℕ, ◌+◌, ◌≤◌, ◌≡◌, refl, Bool, true, not, ◌&&◌, List, [], ◌∷◌, length, Text, codes, All, arith,
  ◌==◌, to_string,
}
use bb_pipeline.Delta.Numbers.{le_bytes}
use bb_pipeline.Delta.Window.{lz77_compress, lz77_decode}
use bb_pipeline.Delta.Unwinding.{lz77_decode-compress, IsPlain}
use bb_pipeline.Delta.Records.{
  DeltaOperation, delete_op, Row, DeltaRecord, detect_field_by_field_changes, generate_key_from_row,
}
use bb_pipeline.Delta.Patching.{patch, apply_delta}
use bb_pipeline.Delta.Detecting.{patch-detect_field_by_field_changes}
use bb_pipeline.Delta.Applying.{apply_delta-detect_field_by_field_changes}
use bb_pipeline.Delta.Keyed.{detect_key_based_changes}
use bb_pipeline.Delta.Reports.{Reports, detect_key_based_changes-Reports}
use bb_pipeline.Delta.Frames.{serialize_to_bytes, frames, serialize, comma_list}
use bb_pipeline.Delta.Hybrid.{
  hybrid_decode, apply_hybrid_compression, hybrid_decode-apply_hybrid_compression,
}
use bb_pipeline.Delta.Texts.{split, getline_tokens, ends_with}

abbrev all_plain : List ℕ → Bool
all_plain [] = true
all_plain (b ∷ bs) = not (b == 255) && all_plain bs

All-IsPlain : (bs : List ℕ) → all_plain bs ≡ true → All IsPlain bs
All-IsPlain [] h = tt
All-IsPlain (b ∷ bs) h = ground (arith, All-IsPlain bs)

abbrev same_hash : Text → Text
same_hash s = s

abbrev no_clock : DeltaOperation → ℕ → Text
no_clock op i = []

abbrev old_rows : List Row
old_rows = (codes "1" ∷ codes "ann" ∷ []) ∷ (codes "2" ∷ codes "bob" ∷ []) ∷ []

abbrev new_rows : List Row
new_rows =
    (codes "1" ∷ codes "amy" ∷ [])
    ∷ (codes "3" ∷ codes "cid" ∷ [])
    ∷ (codes "4" ∷ codes "dan" ∷ [])
    ∷ []

patch-detect_field_by_field_changes_example :
    patch (detect_field_by_field_changes same_hash no_clock old_rows new_rows) old_rows ≡ new_rows
patch-detect_field_by_field_changes_example =
    patch-detect_field_by_field_changes same_hash no_clock old_rows new_rows

apply_delta-detect_field_by_field_changes_example :
    apply_delta old_rows (detect_field_by_field_changes same_hash no_clock old_rows new_rows)
    ≡ old_rows
apply_delta-detect_field_by_field_changes_example =
    apply_delta-detect_field_by_field_changes same_hash no_clock old_rows new_rows

detect_key_based_changes-Reports_example :
    Reports
      (generate_key_from_row (codes "id" ∷ []))
      old_rows
      new_rows
      (detect_key_based_changes same_hash no_clock (codes "id" ∷ []) old_rows new_rows)
detect_key_based_changes-Reports_example =
    detect_key_based_changes-Reports same_hash no_clock (codes "id" ∷ []) old_rows new_rows

lz77_decode-compress_example :
    lz77_decode [] (lz77_compress (7 ∷ 7 ∷ 7 ∷ 7 ∷ 7 ∷ 8 ∷ [])) ≡ 7 ∷ 7 ∷ 7 ∷ 7 ∷ 7 ∷ 8 ∷ []
lz77_decode-compress_example =
    lz77_decode-compress (7 ∷ 7 ∷ 7 ∷ 7 ∷ 7 ∷ 8 ∷ [])
      (All-IsPlain (7 ∷ 7 ∷ 7 ∷ 7 ∷ 7 ∷ 8 ∷ []) refl)

abbrev removal : DeltaRecord
removal = record {
  operation = delete_op;
  row_index = 12;
  old_values = codes "aaaaaaaaaaaaaaaa" ∷ [];
  new_values = [];
  changed_columns = [];
  timestamp = [];
  change_hash = codes "aa";
  metadata = [];
}

hybrid_decode-apply_hybrid_compression_example :
    (hybrid_decode (apply_hybrid_compression true (removal ∷ []))
      ≡ serialize_to_bytes (removal ∷ []))
    × (length (apply_hybrid_compression true (removal ∷ []))
        ≤ length (serialize_to_bytes (removal ∷ [])) + 1)
unfolding serialize_to_bytes frames serialize le_bytes comma_list to_string
hybrid_decode-apply_hybrid_compression_example =
    hybrid_decode-apply_hybrid_compression true (removal ∷ [])
      (All-IsPlain (serialize_to_bytes (removal ∷ [])) refl)

split_run : split 44 (codes "a,,b,") ≡ codes "a" ∷ [] ∷ codes "b" ∷ [] ∷ []
unfolding split getline_tokens ends_with
split_run = refl

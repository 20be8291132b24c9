-- ===== src/Delta/Frames.antt =====
-- DeltaRecord::serialize and DeltaCompressor::serializeToBytes.
use bb_pipeline.Common.{
  ℕ, zero, suc, ◌%◌, ◌<◌, ◌≡◌, refl, ap, ◌∙◌, List, [], ◌∷◌, ◌++◌, map, Text, codes, to_string, u64,
  length, drop, All, arith,
}
use bb_pipeline.Delta.Numbers.{le_bytes, le_word, le_word-bytes, drop-le_bytes}
use bb_pipeline.Delta.Records.{
  DeltaOperation, none_op, insert_op, delete_op, update_op, move_op, DeltaRecord,
}

-- `static_cast<int>(operation)`.
abbrev pub operation_value : DeltaOperation → ℕ
operation_value none_op = 0
operation_value insert_op = 1
operation_value delete_op = 2
operation_value update_op = 3
operation_value move_op = 4

-- Parts with a comma between them.
unfoldable pub comma_list : List Text → Text
comma_list [] = []
comma_list (x ∷ []) = x
comma_list (x ∷ y ∷ ys) = x ++ 44 ∷ comma_list (y ∷ ys)

-- A text between double quotes; nothing in it is escaped.
abbrev pub quoted_text : Text → Text
quoted_text s = 34 ∷ s ++ 34 ∷ []

abbrev pub pair_text : Text × Text → Text
pair_text (k, v) = quoted_text k ++ 58 ∷ quoted_text v

unfoldable pub serialize : DeltaRecord → Text
serialize r =
    codes "{\"operation\":"
    ++ to_string (operation_value r.operation)
    ++ codes ",\"row_index\":"
    ++ to_string r.row_index
    ++ codes ",\"old_values\":["
    ++ comma_list (map quoted_text r.old_values)
    ++ codes "],\"new_values\":["
    ++ comma_list (map quoted_text r.new_values)
    ++ codes "],\"changed_columns\":["
    ++ comma_list (map to_string r.changed_columns)
    ++ codes "],\"timestamp\":"
    ++ quoted_text r.timestamp
    ++ codes ",\"change_hash\":"
    ++ quoted_text r.change_hash
    ++ codes ",\"metadata\":{"
    ++ comma_list (map pair_text r.metadata)
    ++ codes "}}"

abbrev pub u32 : ℕ → ℕ
u32 n = n % 4294967296

-- One record: its length in four bytes, then its text.
unfoldable pub frames : List DeltaRecord → List ℕ
frames [] = []
frames (r ∷ rs) = let s = serialize r in le_bytes 4 (u32 (length s)) ++ s ++ frames rs

unfoldable pub serialize_to_bytes : List DeltaRecord → List ℕ
serialize_to_bytes rs = le_bytes 8 (u64 (length rs)) ++ frames rs

-- The reference reader: `n` texts behind their lengths.
abbrev pub take_bytes : ℕ → List ℕ → List ℕ
take_bytes zero bs = []
take_bytes (suc n) [] = []
take_bytes (suc n) (b ∷ bs) = b ∷ take_bytes n bs

abbrev pub read_frames : ℕ → List ℕ → List Text
read_frames zero bs = []
read_frames (suc n) bs =
    let size = le_word 4 bs in
    let body = drop 4 bs in take_bytes size body ∷ read_frames n (drop size body)

abbrev pub read_bytes : List ℕ → List Text
read_bytes bs = read_frames (le_word 8 bs) (drop 8 bs)

take_bytes-append : (s rest : List ℕ) → take_bytes (length s) (s ++ rest) ≡ s
take_bytes-append [] rest = refl
take_bytes-append (x ∷ s) rest = ap (λ t. x ∷ t) (take_bytes-append s rest)

drop-append_all : (s rest : List ℕ) → drop (length s) (s ++ rest) ≡ rest
drop-append_all [] rest = refl
drop-append_all (x ∷ s) rest = drop-append_all s rest

read_frames-step :
    (n : ℕ) (s rest : List ℕ)
    → length s < 4294967296
    → read_frames (suc n) (le_bytes 4 (u32 (length s)) ++ s ++ rest) ≡ s ∷ read_frames n rest
unfolding le_word le_bytes
read_frames-step n s rest h =
    let fits : u32 (length s) ≡ length s = omega arith in
    rw
      (
        fits,
        le_word-bytes 4 (length s) (s ++ rest) (omega arith),
        drop-le_bytes 4 (length s) (s ++ rest),
        take_bytes-append s rest,
        drop-append_all s rest,
      )
      refl

abbrev pub FitsLength : DeltaRecord → Type 0
FitsLength r = length (serialize r) < 4294967296

read_frames-frames :
    (rs : List DeltaRecord)
    → All FitsLength rs
    → read_frames (length rs) (frames rs) ≡ map serialize rs
unfolding frames
read_frames-frames [] h = refl
read_frames-frames (r ∷ rs) (h, hs) =
    read_frames-step (length rs) (serialize r) (frames rs) h
    ∙ ap (λ t. serialize r ∷ t) (read_frames-frames rs hs)

-- Reading the frames of a buffer gives the texts of its records, when their number fits 64 bits and each length 32.
pub read_bytes-serialize_to_bytes :
    (rs : List DeltaRecord)
    → length rs < 18446744073709551616
    → All FitsLength rs
    → read_bytes (serialize_to_bytes rs) ≡ map serialize rs
unfolding serialize_to_bytes
read_bytes-serialize_to_bytes rs h hs =
    let fits : u64 (length rs) ≡ length rs = omega arith in
    rw
      (
        fits,
        le_word-bytes 8 (length rs) (frames rs) (omega arith),
        drop-le_bytes 8 (length rs) (frames rs),
      )
      (read_frames-frames rs hs)

-- ===== src/Memory.antt =====
-- The memory manager, src/infrastructure/system/memory_manager.cpp: the free list, the search for a
-- block and the cut of a block. Addresses and sizes are bytes; `header` is sizeof(BlockHeader).
pub mod BestFit
pub mod Cutting
pub mod Merging
pub mod Freeing
pub mod Pool
mod Examples
use bb_pipeline.Common.{
  ℕ, ◌+◌, ◌-◌, ◌%◌, ◌≡◌, Bool, true, false, not, ◌&&◌, Option, none, some, List, [], ◌∷◌,
  if◌then◌else◌, leb, ltb, ◌==◌, u64,
}

pub record Block : Type 0 where
  pub address : ℕ
  pub size : ℕ
  pub is_free : Bool

abbrev pub size_max : ℕ
size_max = 18446744073709551615

pub record Placed : Type 0 where
  pub user_address : ℕ
  pub block : Block
  pub free_list : List Block

module _ (header : ℕ) where
  abbrev pub padding : ℕ → Block → ℕ
  padding alignment b =
      let misalignment = (b.address + header) % alignment in
      if misalignment == 0 then 0 else alignment - misalignment

  -- Free, and with room for the request at its alignment.
  abbrev pub fits : ℕ → ℕ → Block → Bool
  fits size alignment b = b.is_free && leb (u64 (size + padding alignment b)) b.size

  -- The loop of `find_best_fit_block`, with the best block so far and its size.
  unfoldable pub best_from : ℕ → ℕ → Option Block → ℕ → List Block → Option Block
  best_from size alignment best best_size [] = best
  best_from size alignment best best_size (b ∷ bs) =
      let better = fits size alignment b && ltb b.size best_size in
      best_from size alignment (if better then some b else best)
        (if better then b.size else best_size) bs

  unfoldable pub find_best_fit_block : ℕ → ℕ → List Block → Option Block
  find_best_fit_block size alignment free_list = best_from size alignment none size_max free_list

  unfoldable pub unlink : Block → List Block → List Block
  unlink block [] = []
  unlink block (b ∷ bs) =
      let rest = unlink block bs in if b.address == block.address then bs else b ∷ rest

  abbrev pub rest_block : Block → ℕ → Block
  rest_block b size = record {
    address = b.address + header + size;
    size = b.size - size - header;
    is_free = true;
  }

  unfoldable pub split_block : Block → ℕ → List Block → Block × List Block
  split_block b size free_list =
      if leb b.size (u64 (size + header))
      then (b, free_list)
      else (record b { size = size }, rest_block b size ∷ free_list)

  -- What `allocate_internal` does with the block it found.
  unfoldable pub place : ℕ → ℕ → Block → List Block → Placed
  place size alignment b free_list =
      let rest = unlink b free_list in
      let x =
        if ltb (u64 (u64 (size + header) + 64)) b.size
        then split_block b size rest
        else (b, rest) in
      record {
        user_address = b.address + header + padding alignment b;
        block = record x.0 { is_free = false };
        free_list = x.1;
      }

  abbrev placed : Placed → Option Placed × List Block
  placed x = (some x, x.free_list)

  -- `allocate_internal` with `used` bytes in the statistics, and the free list after it; `expand` is what
  -- expand_pool adds to that list, and `none` is a null pointer.
  unfoldable pub allocate_internal :
      ℕ → ℕ → (ℕ → Option Block) → ℕ → ℕ → List Block → Option Placed × List Block
  allocate_internal limit used expand size alignment free_list =
      let total = u64 (size + header) in
      if ltb limit (u64 (used + total))
      then (none, free_list)
      else elim (find_best_fit_block size alignment free_list) [
        | some b ↦ placed (place size alignment b free_list)
        | none ↦ elim (expand (u64 (total + alignment))) [
          | none ↦ (none, free_list)
          | some fresh ↦ elim (find_best_fit_block size alignment (fresh ∷ free_list)) [
            | none ↦ (none, fresh ∷ free_list)
            | some b ↦ placed (place size alignment b (fresh ∷ free_list))
          ]
        ]
      ]

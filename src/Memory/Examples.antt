-- ===== src/Memory/Examples.antt =====
-- Runs of the memory manager, with a header of 40 bytes.
use bb_pipeline.Common.{
  ℕ, ◌+◌, ◌≡◌, refl, Bool, true, false, Option, none, some, List, [], ◌∷◌, arith,
}
use bb_pipeline.Memory.{Block, padding, find_best_fit_block, best_from, place, unlink}
use bb_pipeline.Memory.BestFit.{Best, find_best_fit_block-Best}
use bb_pipeline.Memory.Cutting.{place_cuts}
use bb_pipeline.Memory.Merging.{free_ones, total}
use bb_pipeline.Memory.Freeing.{
  Heap, deallocate_internal, heap_total, find_block, deallocate_internal-heap_total, tracked_total,
}
use bb_pipeline.Memory.Pool.{MemoryManager}

abbrev block : ℕ → ℕ → Block
block a n = record { address = a; size = n; is_free = true }

abbrev free_list : List Block
free_list = block 1000 500 ∷ block 3008 120 ∷ block 5000 200 ∷ []

-- The second block fits a request of 100 bytes at 16 bytes, with no padding.
best : find_best_fit_block 40 100 16 free_list ≡ some (block 3008 120)
unfolding find_best_fit_block best_from
best = refl

find_best_fit_block-Best_example :
    Best 40 100 16 free_list (find_best_fit_block 40 100 16 free_list)
find_best_fit_block-Best_example =
    find_best_fit_block-Best 40 100 16 free_list (omega arith, (omega arith, (omega arith, tt)))

place_cuts_example :
    let x = place 40 100 64 (block 1000 500) free_list in
    (f : Block) × (x.free_list ≡ f ∷ unlink 40 (block 1000 500) free_list)
    × (f.is_free ≡ true)
    × (x.block.is_free ≡ false)
    × (x.block.size + 40 + f.size ≡ 500)
    × (f.address ≡ x.block.address + 40 + x.block.size)
    × (f.address + padding 40 64 (block 1000 500) ≡ x.user_address + 100)
place_cuts_example = place_cuts 40 100 64 (block 1000 500) free_list (omega arith) (omega arith)

-- The caller's region ends 48 bytes behind the place of the new free block's header.
overrun : padding 40 64 (block 1000 500) ≡ 48
overrun = refl

abbrev heap : Heap
heap = record {
  free_blocks = block 1000 100 ∷ block 2000 100 ∷ [];
  allocated_blocks = (1180, record { address = 1140; size = 100; is_free = false }) ∷ [];
}

deallocate_internal-heap_total_example :
    (heap_total 40 true (deallocate_internal 40 true 1180 heap) ≡ heap_total 40 true heap)
    × (find_block 1180 heap.allocated_blocks ≡ none → deallocate_internal 40 true 1180 heap ≡ heap)
unfolding free_ones total tracked_total
deallocate_internal-heap_total_example =
    deallocate_internal-heap_total 40 true 1180 heap refl (omega arith)

abbrev manager : Bool → MemoryManager
manager ready = record {
  heap = heap;
  initialized = ready;
  enable_defragmentation = true;
  memory_limit = 1000;
  total_allocations = 9;
  total_deallocations = 8;
  total_allocated_bytes = 900;
  current_used_bytes = 900;
  peak_used_bytes = 900;
}

abbrev no_pool : ℕ → Option Block
no_pool n = none

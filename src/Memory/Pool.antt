-- ===== src/Memory/Pool.antt =====
-- The memory manager's public calls: allocate and deallocate with their statistics, without the timings,
-- the histogram and the fragmentation ratio, and with detailed tracking. A call is `none` where it locks
-- the manager's mutex, which it holds, once more.
use bb_pipeline.Common.{
  ℕ, ◌+◌, ◌<◌, ◌≡◌, refl, ◌∙◌, Bool, true, false, not, List, [], ◌∷◌, Option, none, some,
  if◌then◌else◌, ◌==◌, ltb, arith, u64,
}
use bb_pipeline.Memory.{Block, Placed, allocate_internal}
use bb_pipeline.Memory.Freeing.{Heap, forget, deallocate_internal}

pub record MemoryManager : Type 0 where
  pub heap : Heap
  pub initialized : Bool
  pub enable_defragmentation : Bool
  pub memory_limit : ℕ
  pub total_allocations : ℕ
  pub total_deallocations : ℕ
  pub total_allocated_bytes : ℕ
  pub current_used_bytes : ℕ
  pub peak_used_bytes : ℕ

-- `update_stats`.
unfoldable pub count_allocation : ℕ → MemoryManager → MemoryManager
count_allocation size m =
    let used = u64 (m.current_used_bytes + size) in
    record m {
      total_allocations = u64 (m.total_allocations + 1);
      total_allocated_bytes = u64 (m.total_allocated_bytes + size);
      current_used_bytes = used;
      peak_used_bytes = if ltb m.peak_used_bytes used then used else m.peak_used_bytes;
    }

unfoldable pub count_deallocation : MemoryManager → MemoryManager
count_deallocation m = record m { total_deallocations = u64 (m.total_deallocations + 1) }

beyond :
    (limit used size h : ℕ)
    → limit < used + (size + h)
    → used + (size + h) < 18446744073709551616
    → ltb limit (u64 (used + u64 (size + h))) ≡ true
beyond limit used size h k l = ground arith

abbrev tracked : Option Placed × List Block → Heap → Heap
tracked (none, free_list) h = record h { free_blocks = free_list }
tracked (some x, free_list) h = record {
  free_blocks = free_list;
  allocated_blocks = (x.user_address, x.block) ∷ forget x.user_address h.allocated_blocks;
}

abbrev pub pointer_of : Option Placed → Option ℕ
pointer_of none = none
pointer_of (some x) = some x.user_address

module _ (header : ℕ) where
  -- The second part is the pointer, `none` for null.
  unfoldable pub allocate :
      (ℕ → Option Block) → ℕ → ℕ → MemoryManager → Option (MemoryManager × Option ℕ)
  allocate expand size alignment m =
      let x =
        allocate_internal header m.memory_limit m.current_used_bytes expand size alignment
          m.heap.free_blocks in
      if size == 0
      then some (m, none)
      else if not m.initialized
      then none
      else some (count_allocation size (record m { heap = tracked x m.heap }), pointer_of x.0)

  unfoldable pub deallocate : ℕ → MemoryManager → MemoryManager
  deallocate ptr m =
      if ptr == 0
      then m
      else count_deallocation
          (record m { heap = deallocate_internal header m.enable_defragmentation ptr m.heap })

  unfoldable pub deallocate_all : List ℕ → MemoryManager → MemoryManager
  deallocate_all [] m = m
  deallocate_all (ptr ∷ ptrs) m = deallocate_all ptrs (deallocate ptr m)

  -- The parts that a deallocation leaves alone.
  abbrev pub SameLimits : MemoryManager → MemoryManager → Type 0
  SameLimits m n =
      (n.current_used_bytes ≡ m.current_used_bytes)
      × (n.memory_limit ≡ m.memory_limit)
      × (n.initialized ≡ m.initialized)

  deallocate-SameLimits : (ptr : ℕ) (m : MemoryManager) → SameLimits m (deallocate ptr m)
  unfolding deallocate count_deallocation
  deallocate-SameLimits ptr m = ground arith

  all-SameLimits : (ptrs : List ℕ) (m : MemoryManager) → SameLimits m (deallocate_all ptrs m)
  unfolding deallocate_all
  all-SameLimits [] m = (refl, refl, refl)
  all-SameLimits (ptr ∷ ptrs) m =
      let (a, b, c) = all-SameLimits ptrs (deallocate ptr m) in
      let (x, y, z) = deallocate-SameLimits ptr m in (a ∙ x, b ∙ y, c ∙ z)

  refused :
      (expand : ℕ → Option Block) (size alignment : ℕ) (m : MemoryManager)
      → (size == 0) ≡ false
      → m.initialized ≡ true
      → m.memory_limit < m.current_used_bytes + (size + header)
      → m.current_used_bytes + (size + header) < 18446744073709551616
      → allocate expand size alignment m ≡ some (count_allocation size m, none)
  unfolding allocate allocate_internal count_allocation
  refused expand size alignment m s i h k =
      let over : ltb m.memory_limit (u64 (m.current_used_bytes + u64 (size + header))) ≡ true =
        beyond m.memory_limit m.current_used_bytes size header h k in
      simp (s, i, over)

  -- Once a request is over the limit, counted with its header and without overflow, on an initialized
  -- manager: it gets a null pointer, and still does after any pointers at all have been deallocated, since
  -- a deallocation never lowers the bytes counted as used.
  pub freeing_makes_no_room :
      (expand : ℕ → Option Block) (size alignment : ℕ) (m : MemoryManager) (ptrs : List ℕ)
      → (size == 0) ≡ false
      → m.initialized ≡ true
      → m.memory_limit < m.current_used_bytes + (size + header)
      → m.current_used_bytes + (size + header) < 18446744073709551616
      → let n = deallocate_all ptrs m in
        allocate expand size alignment n ≡ some (count_allocation size n, none)
  freeing_makes_no_room expand size alignment m ptrs s i h k =
      let (a, b, c) = all-SameLimits ptrs m in
      refused expand size alignment (deallocate_all ptrs m) s (c ∙ i) (rw (a, b) h) (rw a k)

  -- The first allocation of a manager that `initialize` was not called on locks the manager's mutex twice
  -- and never returns.
  pub allocate_blocks :
      (expand : ℕ → Option Block) (size alignment : ℕ) (m : MemoryManager)
      → (size == 0) ≡ false
      → m.initialized ≡ false
      → allocate expand size alignment m ≡ none
  unfolding allocate
  allocate_blocks expand size alignment m s i = simp (s, i)

-- ===== src/Memory/Freeing.antt =====
-- deallocate_internal with detailed tracking, which keeps the blocks by the address handed out. The magic
-- numbers, which repeat the flag `is_free`, are left out.
use bb_pipeline.Common.{
  ℕ, ◌+◌, ◌<◌, ◌≡◌, refl, ap, Bool, true, List, [], ◌∷◌, Option, none, some, if◌then◌else◌, ◌==◌,
  arith, Bool-cases, inl, inr, Option-cases,
}
use bb_pipeline.Memory.{Block}
use bb_pipeline.Memory.Merging.{free_ones, merge_free_blocks, total, total-merge_free_blocks}

pub record Heap : Type 0 where
  pub free_blocks : List Block
  pub allocated_blocks : List (ℕ × Block)

unfoldable pub find_block : ℕ → List (ℕ × Block) → Option Block
find_block ptr [] = none
find_block ptr (x ∷ xs) = let rest = find_block ptr xs in if x.0 == ptr then some x.1 else rest

unfoldable pub forget : ℕ → List (ℕ × Block) → List (ℕ × Block)
forget ptr [] = []
forget ptr (x ∷ xs) = let rest = forget ptr xs in if x.0 == ptr then xs else x ∷ rest

module _ (header : ℕ) (enable_defragmentation : Bool) where
  abbrev release : ℕ → Block → Heap → Heap
  release ptr b h =
      let free = record b { is_free = true } ∷ h.free_blocks in
      record {
        free_blocks = if enable_defragmentation then merge_free_blocks header free else free;
        allocated_blocks = forget ptr h.allocated_blocks;
      }

  unfoldable pub deallocate_internal : ℕ → Heap → Heap
  deallocate_internal ptr h = elim (find_block ptr h.allocated_blocks) [
    | none ↦ h
    | some b ↦ if b.is_free then h else release ptr b h
  ]

  unfoldable pub tracked_total : List (ℕ × Block) → ℕ
  tracked_total [] = 0
  tracked_total (x ∷ xs) = x.1.size + header + tracked_total xs

  -- The bytes of all blocks, free or not, with their headers.
  abbrev pub heap_total : Heap → ℕ
  heap_total h = total header h.free_blocks + tracked_total h.allocated_blocks

  found-total :
      (ptr : ℕ) (xs : List (ℕ × Block)) (b : Block)
      → find_block ptr xs ≡ some b
      → tracked_total xs ≡ b.size + header + tracked_total (forget ptr xs)
  unfolding find_block forget tracked_total
  found-total ptr [] b h = absurd (let k : none ≡ some b = h in cc)
  found-total ptr (x ∷ xs) b h = elim (Bool-cases (x.0 == ptr)) [
    | inl t ↦
        let k : some x.1 ≡ some b = simp t at h in
        let e : x.1 ≡ b = cc in simp t (ap (λ y. y.size + header + tracked_total xs) e)
    | inr f ↦ let ih = found-total ptr xs b (simp f at h) in simp f (omega arith)
  ]

  pushed : Block → Heap → List Block
  pushed b h = record b { is_free = true } ∷ h.free_blocks

  merged-total :
      (b : Block) (h : Heap)
      → free_ones h.free_blocks ≡ h.free_blocks
      → total header (pushed b h) < 18446744073709551616
      → total header
          (if enable_defragmentation then merge_free_blocks header (pushed b h) else pushed b h)
        ≡ total header (pushed b h)
  unfolding pushed free_ones
  merged-total b h f k = elim (Bool-cases enable_defragmentation) [
    | inl t ↦ simp t (
        total-merge_free_blocks header (pushed b h) (ap (λ z. record b { is_free = true } ∷ z) f) k)
    | inr n ↦ simp n
  ]

  freed :
      (ptr : ℕ) (h : Heap) (b : Block)
      → free_ones h.free_blocks ≡ h.free_blocks
      → heap_total h < 18446744073709551616
      → find_block ptr h.allocated_blocks ≡ some b
      → heap_total (if b.is_free then h else release ptr b h) ≡ heap_total h
  unfolding pushed total
  freed ptr h b f k e =
      let t = found-total ptr h.allocated_blocks b e in
      elim (Bool-cases b.is_free) [
        | inl y ↦ simp y
        | inr n ↦ let m = merged-total b h f (omega arith) in simp n (omega arith)
      ]

  -- `deallocate_internal`, when the free list holds free blocks and the bytes of the heap are fewer than
  -- 2^64: the bytes of all blocks with their headers stay the same, whatever the pointer, merging or not,
  -- and a pointer that is not tracked changes nothing.
  pub deallocate_internal-heap_total :
      (ptr : ℕ) (h : Heap)
      → free_ones h.free_blocks ≡ h.free_blocks
      → heap_total h < 18446744073709551616
      → (heap_total (deallocate_internal ptr h) ≡ heap_total h)
        × (find_block ptr h.allocated_blocks ≡ none → deallocate_internal ptr h ≡ h)
  unfolding deallocate_internal
  deallocate_internal-heap_total ptr h f k = (
    elim (Option-cases (find_block ptr h.allocated_blocks)) [
      | inl e ↦ rw (e, deallocate_internal) refl
      | inr (b, e) ↦ rw (e, deallocate_internal) (freed ptr h b f k e)
    ],
    λ e. rw (e, deallocate_internal) refl,
  )

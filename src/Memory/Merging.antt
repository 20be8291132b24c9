-- ===== src/Memory/Merging.antt =====
-- The merge of adjacent free blocks, merge_free_blocks.
use bb_pipeline.Common.{
  ℕ, ◌+◌, ◌<◌, ◌≡◌, refl, ap, ◌∙◌, Bool, false, List, [], ◌∷◌, if◌then◌else◌, leb, ltb, ◌==◌, u64,
  arith, Bool-cases, inl, inr, length,
}
use bb_pipeline.Memory.{Block}

-- `std::sort` by address.
unfoldable pub insert_block : Block → List Block → List Block
insert_block b [] = b ∷ []
insert_block b (c ∷ cs) =
    let rest = insert_block b cs in if leb b.address c.address then b ∷ c ∷ cs else c ∷ rest

unfoldable pub sort_blocks : List Block → List Block
sort_blocks [] = []
sort_blocks (b ∷ bs) = insert_block b (sort_blocks bs)

unfoldable pub free_ones : List Block → List Block
free_ones [] = []
free_ones (b ∷ bs) = let rest = free_ones bs in if b.is_free then b ∷ rest else rest

-- The loop that rebuilds the free list.
unfoldable pub rebuild : List Block → List Block → List Block
rebuild [] free_list = free_list
rebuild (b ∷ bs) free_list = rebuild bs (b ∷ free_list)

module _ (header : ℕ) where
  abbrev pub adjacent : Block → Block → Bool
  adjacent b c = b.address + header + b.size == c.address

  abbrev pub absorb : Block → Block → Block
  absorb b c = record b { size = u64 (b.size + (header + c.size)) }

  -- The merging loop, at the block `b` with `cs` after it.
  unfoldable pub merge_from : Block → List Block → List Block
  merge_from b [] = b ∷ []
  merge_from b (c ∷ cs) =
      let rest = merge_from (if adjacent b c then absorb b c else c) cs in
      if adjacent b c then rest else b ∷ rest

  unfoldable pub merge_sorted : List Block → List Block
  merge_sorted [] = []
  merge_sorted (b ∷ bs) = merge_from b bs

  unfoldable pub merge_free_blocks : List Block → List Block
  merge_free_blocks free_list =
      if ltb (length (free_ones free_list)) 2
      then free_list
      else rebuild (merge_sorted (sort_blocks (free_ones free_list))) []

  -- The bytes of the blocks, with their headers.
  unfoldable pub total : List Block → ℕ
  total [] = 0
  total (b ∷ bs) = b.size + header + total bs

  total_nil : (n : ℕ) → n + total [] ≡ n
  unfolding total
  total_nil n = omega arith

  total-insert_block : (b : Block) (bs : List Block) → total (insert_block b bs) ≡ total (b ∷ bs)
  unfolding total insert_block
  total-insert_block b [] = refl
  total-insert_block b (c ∷ cs) = ground (arith, total-insert_block b cs)

  total-sort_blocks : (bs : List Block) → total (sort_blocks bs) ≡ total bs
  unfolding sort_blocks total
  total-sort_blocks [] = refl
  total-sort_blocks (b ∷ bs) =
      total-insert_block b (sort_blocks bs) ∙ ap (λ x. b.size + header + x) (total-sort_blocks bs)

  total-rebuild : (bs cs : List Block) → total (rebuild bs cs) ≡ total bs + total cs
  unfolding rebuild total
  total-rebuild [] cs = omega arith
  total-rebuild (b ∷ bs) cs = let ih = total-rebuild bs (b ∷ cs) in omega arith

  total-merge_from :
      (bs : List Block) (b : Block)
      → total (b ∷ bs) < 18446744073709551616
      → total (merge_from b bs) ≡ total (b ∷ bs)
  unfolding merge_from total
  total-merge_from [] b h = refl
  total-merge_from (c ∷ cs) b h = elim (Bool-cases (adjacent b c)) [
    | inl t ↦
        let fewer : b.size + (header + c.size) < 18446744073709551616 = omega arith in
        let e : u64 (b.size + (header + c.size)) ≡ b.size + (header + c.size) = ground arith in
        let ih = total-merge_from cs (absorb b c) (omega arith) in simp t (ih ∙ (omega arith))
    | inr f ↦ simp f (let ih = total-merge_from cs c (omega arith) in omega arith)
  ]

  total-merge_sorted :
      (bs : List Block) → total bs < 18446744073709551616 → total (merge_sorted bs) ≡ total bs
  unfolding merge_sorted
  total-merge_sorted [] h = refl
  total-merge_sorted (b ∷ bs) h = total-merge_from bs b h

  -- No block ends where the next one begins.
  abbrev pub Separated : List Block → Type 0
  Separated [] = Unit
  Separated (b ∷ []) = Unit
  Separated (b ∷ c ∷ cs) = (adjacent b c ≡ false) × Separated (c ∷ cs)

  Separated-cons :
      (cs : List Block) (b c : Block)
      → adjacent b c ≡ false
      → Separated (merge_from c cs)
      → Separated (b ∷ merge_from c cs)
  unfolding merge_from
  Separated-cons [] b c h k = (h, tt)
  Separated-cons (d ∷ ds) b c h k = elim (Bool-cases (adjacent c d)) [
    | inl t ↦ simp t (Separated-cons ds b (absorb c d) h (simp t at k))
    | inr f ↦ simp f (h, simp f at k)
  ]

  merge_from-Separated : (bs : List Block) (b : Block) → Separated (merge_from b bs)
  unfolding merge_from
  merge_from-Separated [] b = tt
  merge_from-Separated (c ∷ cs) b = elim (Bool-cases (adjacent b c)) [
    | inl t ↦ simp t (merge_from-Separated cs (absorb b c))
    | inr f ↦ simp f (Separated-cons cs b c f (merge_from-Separated cs c))
  ]

  -- After the merging loop no block ends where the next one begins.
  pub merge_sorted-Separated : (bs : List Block) → Separated (merge_sorted bs)
  unfolding merge_sorted
  merge_sorted-Separated [] = tt
  merge_sorted-Separated (b ∷ bs) = merge_from-Separated bs b

  abbrev pub AllFree : List Block → Type 0
  AllFree bs = free_ones bs ≡ bs

  -- A merge of blocks that are free loses no byte and adds none, if their bytes with the headers are fewer
  -- than 2^64.
  pub total-merge_free_blocks :
      (bs : List Block)
      → AllFree bs
      → total bs < 18446744073709551616
      → total (merge_free_blocks bs) ≡ total bs
  unfolding merge_free_blocks
  total-merge_free_blocks bs f h = elim (Bool-cases (ltb (length (free_ones bs)) 2)) [
    | inl t ↦ simp t
    | inr n ↦
        let e : total (sort_blocks (free_ones bs)) ≡ total bs =
          total-sort_blocks (free_ones bs) ∙ ap total f in
        simp n (
          total-rebuild (merge_sorted (sort_blocks (free_ones bs))) []
          ∙ total_nil (total (merge_sorted (sort_blocks (free_ones bs))))
          ∙ total-merge_sorted (sort_blocks (free_ones bs)) (rw e h)
          ∙ e)
  ]

-- ===== src/Memory/Cutting.antt =====
-- The cut of a block by allocate_internal and split_block: what is left of it, and where.
use bb_pipeline.Common.{ℕ, ◌+◌, ◌<◌, ◌≡◌, refl, true, false, List, ◌∷◌, leb, ltb, u64, arith}
use bb_pipeline.Memory.{Block, padding, unlink, rest_block, split_block, place}

cut : (b n h : ℕ) → n + h < 18446744073709551616 → n + h < b → leb b (u64 (n + h)) ≡ false
cut b n h k l = ground arith

cut_more :
    (b n h : ℕ)
    → n + h + 64 < 18446744073709551616
    → n + h + 64 < b
    → ltb (u64 (u64 (n + h) + 64)) b ≡ true
cut_more b n h k l = ground arith

-- A block larger than the request by more than a header and 64 bytes, when these do not overflow: it is
-- cut, no byte is lost or counted twice, and the new free block starts as many bytes before the end of
-- the caller's region as there are bytes of padding before that region.
pub place_cuts :
    (header size alignment : ℕ) (b : Block) (free_list : List Block)
    → size + header + 64 < b.size
    → size + header + 64 < 18446744073709551616
    → let x = place header size alignment b free_list in
      (f : Block) × (x.free_list ≡ f ∷ unlink header b free_list)
      × (f.is_free ≡ true)
      × (x.block.is_free ≡ false)
      × (x.block.size + header + f.size ≡ b.size)
      × (f.address ≡ x.block.address + header + x.block.size)
      × (f.address + padding header alignment b ≡ x.user_address + size)
unfolding place split_block
place_cuts header size alignment b free_list h k =
    let c = cut_more b.size size header k h in
    let d = cut b.size size header (omega arith) (omega arith) in
    simp (c, d) (rest_block header b size, refl, refl, refl, omega arith, refl, omega arith)

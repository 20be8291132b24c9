-- ===== src/Memory/BestFit.antt =====
-- find_best_fit_block of src/infrastructure/system/memory_manager.cpp.
use bb_pipeline.Common.{
  ℕ, ◌+◌, ◌<◌, u64, le→leb, ◌≤◌, ◌≡◌, ◌⊎◌, inl, inr, refl, sym, ap, ◌∙◌, Bool, true, false, ◌&&◌,
  Option, none, some, List, [], ◌∷◌, ltb, arith, ltb→lt, Bool-cases, All,
}
use mathlib.Core.Path.{subst}
use bb_pipeline.Memory.{Block, padding, fits, best_from, find_best_fit_block, size_max}

abbrev pub In : Block → List Block → Type 0
In b [] = (true ≡ false)
In b (c ∷ cs) = (b ≡ c) ⊎ In b cs

module _ (header : ℕ) (size alignment : ℕ) where
  -- A block that fits is no smaller than that.
  abbrev pub NoBetter : ℕ → Block → Type 0
  NoBetter n b = fits header size alignment b ≡ true → n ≤ b.size

  abbrev Answer : Option Block → ℕ → List Block → Option Block → Type 0
  Answer best n bs none = (best ≡ none) × All (NoBetter n) bs
  Answer best n bs (some b) =
      (b.size ≤ n)
      × All (NoBetter b.size) bs
      × ((best ≡ some b) ⊎ (In b bs × (fits header size alignment b ≡ true)))

  abbrev Sized : Option Block → ℕ → Type 0
  Sized best n = (b : Block) → best ≡ some b → b.size ≡ n

  both : (x y : Bool) → (x && y) ≡ true → (x ≡ true) × (y ≡ true)
  both x y h = (ground arith, ground arith)

  took : (b c : Block) → some b ≡ some c → b ≡ c
  took b c h = cc

  no_less :
      (b : Block) (n : ℕ)
      → (fits header size alignment b && ltb b.size n) ≡ false
      → fits header size alignment b ≡ true
      → n ≤ b.size
  no_less b n h f = ground arith

  step-Answer :
      (best : Option Block) (n : ℕ) (b : Block) (bs : List Block) (r : Option Block)
      → (fits header size alignment b && ltb b.size n) ≡ true
      → Answer (some b) b.size bs r
      → Answer best n (b ∷ bs) r
  step-Answer best n b bs none h a = absurd (let k : some b ≡ none = a.0 in cc)
  step-Answer best n b bs (some c) h (l, r, o) =
      let (f, g) = both (fits header size alignment b) (ltb b.size n) h in
      let less = ltb→lt b.size n g in
      (
        omega arith,
        ((λ k. l), r),
        elim o [
          | inl e ↦
              let k = took b c e in inr (inl (sym k), ap (fits header size alignment) (sym k) ∙ f)
          | inr (i, k) ↦ inr (inr i, k)
        ],
      )

  skip-Answer :
      (best : Option Block) (n : ℕ) (b : Block) (bs : List Block) (r : Option Block)
      → (fits header size alignment b && ltb b.size n) ≡ false
      → Answer best n bs r
      → Answer best n (b ∷ bs) r
  skip-Answer best n b bs none h (e, a) = (e, ((λ f. no_less b n h f), a))
  skip-Answer best n b bs (some c) h (l, r, o) = (
    l,
    ((λ f. let m = no_less b n h f in omega arith), r),
    elim o [ inl e ↦ inl e | inr (i, k) ↦ inr (inr i, k) ],
  )

  best_from-Answer :
      (bs : List Block) (best : Option Block) (n : ℕ)
      → Sized best n
      → Answer best n bs (best_from header size alignment best n bs)
  unfolding best_from
  best_from-Answer [] none n s = (refl, tt)
  best_from-Answer [] (some b) n s = let e = s b refl in (omega arith, tt, inl refl)
  best_from-Answer (b ∷ bs) best n s =
      elim (Bool-cases (fits header size alignment b && ltb b.size n)) [
        | inl t ↦ simp t (
            step-Answer best n b bs (best_from header size alignment (some b) b.size bs) t
              (best_from-Answer bs (some b) b.size (λ c e. ap (λ x. x.size) (sym (took b c e)))))
        | inr f ↦ simp f (
            skip-Answer best n b bs (best_from header size alignment best n bs) f
              (best_from-Answer bs best n s))
      ]

  abbrev Search : List Block → Option Block → Type 0
  Search bs none = All (NoBetter size_max) bs
  Search bs (some b) = In b bs × (fits header size alignment b ≡ true) × All (NoBetter b.size) bs

  answered : (bs : List Block) (r : Option Block) → Answer none size_max bs r → Search bs r
  answered bs none a = a.1
  answered bs (some b) (l, r, o) = elim o [
    | inl e ↦ absurd (let k : none ≡ some b = e in cc)
    | inr (i, f) ↦ (i, f, r)
  ]

  -- A block is free and holds the request behind its padding.
  abbrev pub HasRoom : Block → Type 0
  HasRoom b = (b.is_free ≡ true) × (size + padding header alignment b ≤ b.size)

  -- The request and its padding are no more than a size_t can hold.
  abbrev pub NoOverflow : Block → Type 0
  NoOverflow b = size + padding header alignment b < 18446744073709551616

  fits-HasRoom : (b : Block) → NoOverflow b → fits header size alignment b ≡ true → HasRoom b
  fits-HasRoom b n f = ground arith

  HasRoom-fits : (b : Block) → NoOverflow b → HasRoom b → fits header size alignment b ≡ true
  HasRoom-fits b n (a, l) =
      let w : u64 (size + padding header alignment b) ≡ size + padding header alignment b =
        omega (arith, n) in
      rw (a, w) (le→leb (size + padding header alignment b) b.size l)

  -- No block with room is smaller than that.
  abbrev pub NoSmaller : ℕ → List Block → Type 0
  NoSmaller n = All (λ b. HasRoom b → n ≤ b.size)

  no_smaller : (n : ℕ) (bs : List Block) → All NoOverflow bs → All (NoBetter n) bs → NoSmaller n bs
  no_smaller n [] os a = tt
  no_smaller n (b ∷ bs) (o, os) (a, rest) = ((λ r. a (HasRoom-fits b o r)), no_smaller n bs os rest)

  In-All : (P : Block → Type 0) (b : Block) (bs : List Block) → In b bs → All P bs → P b
  In-All P b [] i a = absurd (let k : true ≡ false = i in cc)
  In-All P b (c ∷ cs) i (p, ps) = elim i [ inl e ↦ subst P (sym e) p | inr j ↦ In-All P b cs j ps ]

  -- The blocks with room, seen from what the search returns.
  abbrev pub Best : List Block → Option Block → Type 0
  Best bs none = NoSmaller size_max bs
  Best bs (some b) = In b bs × HasRoom b × NoSmaller b.size bs

  best_of : (bs : List Block) (r : Option Block) → All NoOverflow bs → Search bs r → Best bs r
  best_of bs none os a = no_smaller size_max bs os a
  best_of bs (some b) os (i, f, a) =
      (i, fits-HasRoom b (In-All NoOverflow b bs i os) f, no_smaller b.size bs os a)

  -- When the request with the padding of any block of the free list does not overflow:
  -- `find_best_fit_block` returns a block of that list that is free and as large as the request and its
  -- padding, and no such block is smaller; if it returns none, no such block is smaller than SIZE_MAX.
  pub find_best_fit_block-Best :
      (bs : List Block) → All NoOverflow bs → Best bs (find_best_fit_block header size alignment bs)
  unfolding find_best_fit_block
  find_best_fit_block-Best bs os =
      best_of bs (best_from header size alignment none size_max bs) os (
        answered bs (best_from header size alignment none size_max bs)
          (best_from-Answer bs none size_max (λ b e. absurd (let k : none ≡ some b = e in cc))))

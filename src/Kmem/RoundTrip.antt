-- ===== src/Kmem/RoundTrip.antt =====
-- kmem_free after kmem_alloc.
use otrix.Prelude.{
  ℕ, ◌+◌, ◌-◌, ◌≤◌, ◌<◌, ◌≡◌, inl, inr, refl, sym, ap, subst, ◌∙◌, List, [], ◌∷◌, ◌++◌, arith,
  length, true, false, none, some, ltb, leb, ◌==◌, if◌then◌else◌, Bool-cases, Outcome, returns,
  ◌>>=◌,
}
use otrix.IntrusiveList.{Ptr, null}
use otrix.Kmem.{Memory, Heap, kmem_alloc, kmem_free, block_size, min_free_block_size}
use otrix.Kmem.Blocks.{
  Block, Layout, Beyond, Coalesced, Layout-split, Layout-hi, remainder, first_fit, put_back,
}
use otrix.Kmem.FirstFit.{AllBelow, Fits, first_fit_cases}
use otrix.Kmem.Live.{IsValid, Gives, kmem_alloc-IsValid, kmem_free-IsValid}

-- The free blocks after `n` bytes were taken and given back: the block that was used ends with them when
-- what was left of it was too small for a block.
abbrev pub given_back : ℕ → List Block → List Block
given_back n [] = []
given_back n ((a, s) ∷ bs) =
    if leb n s
    then (a, if ltb (s - n) min_free_block_size then n else s) ∷ bs
    else (a, s) ∷ given_back n bs

Beyond-lt :
    (e a s : ℕ) (ys zs : List Block) (hi : ℕ)
    → Layout e (ys ++ (a, s) ∷ zs) hi
    → Beyond e (ys ++ (a, s) ∷ zs)
    → e < a
Beyond-lt e a s [] zs hi l b = b
Beyond-lt e a s ((d, u) ∷ ys) zs hi l b =
    let (x, y, z) = Layout-split (d + u) ys a s zs hi l.2 in omega (arith, Layout-hi (d + u) ys a x)

module _ (n a s : ℕ) (zs : List Block) (hi : ℕ) (le : n ≤ s) (pos : 0 < n) where
  put_back-remainder :
      (lo : ℕ)
      → Layout lo ((a, s) ∷ zs) hi
      → Coalesced ((a, s) ∷ zs)
      → put_back (a, n) (remainder n (a, s) ++ zs)
        ≡ (a, if ltb (s - n) min_free_block_size then n else s) ∷ zs
  put_back-remainder lo l c = elim (Bool-cases (ltb (s - n) min_free_block_size)) [
    | inl small ↦ rw small (apart zs l.2 c.0)
    | inr large ↦
        let up : (a + n + (s - n) == a) ≡ false = ground arith in
        let below : ltb a (a + n) ≡ true = ground arith in
        let touch : (a + n == a + n) ≡ true = ground arith in
        let whole : n + (s - n) ≡ s = omega arith in rw (large, up, below, touch, whole) refl
  ]
    where
      apart :
          (cs : List Block)
          → Layout (a + s) cs hi
          → Beyond (a + s) cs
          → put_back (a, n) cs ≡ (a, n) ∷ cs
      apart [] l b = refl
      apart ((d, u) ∷ cs) l b =
          let up : (d + u == a) ≡ false = ground arith in
          let below : ltb a d ≡ true = ground arith in
          let gap : (a + n == d) ≡ false = ground arith in rw (up, below, gap) refl

  put_back-taken :
      (lo : ℕ) (ys : List Block)
      → Layout lo (ys ++ (a, s) ∷ zs) hi
      → Coalesced (ys ++ (a, s) ∷ zs)
      → put_back (a, n) (ys ++ (remainder n (a, s) ++ zs))
        ≡ ys ++ (a, if ltb (s - n) min_free_block_size then n else s) ∷ zs
  put_back-taken lo [] l c = put_back-remainder lo l c
  put_back-taken lo ((d, u) ∷ ys) l c =
      let gap = Beyond-lt (d + u) a s ys zs hi l.2 c.0 in
      let apart : (d + u == a) ≡ false = ground arith in
      let above : ltb a d ≡ false = ground arith in
      rw (apart, above, put_back-taken (d + u) ys l.2 c.1) refl

given_back-below : (n : ℕ) (bs : List Block) → AllBelow n bs → given_back n bs ≡ bs
given_back-below n [] b = refl
given_back-below n ((a, s) ∷ bs) b =
    let short : leb n s ≡ false = ground (arith, b.0) in rw (short, given_back-below n bs b.1) refl

given_back-split :
    (n : ℕ) (ys : List Block) (a s : ℕ) (zs : List Block)
    → AllBelow n ys
    → n ≤ s
    → given_back n (ys ++ (a, s) ∷ zs)
      ≡ ys ++ (a, if ltb (s - n) min_free_block_size then n else s) ∷ zs
given_back-split n [] a s zs b le = let fits : leb n s ≡ true = ground arith in rw fits refl
given_back-split n ((d, u) ∷ ys) a s zs b le =
    let short : leb n u ≡ false = ground (arith, b.0) in
    rw (short, given_back-split n ys a s zs b.1 le) refl

length-left :
    (n a s : ℕ) (ys zs : List Block)
    → length (ys ++ (remainder n (a, s) ++ zs)) ≤ length (ys ++ (a, s) ∷ zs)
length-left n a s [] zs = elim (Bool-cases (ltb (s - n) min_free_block_size)) [
  | inl small ↦ rw small (omega arith)
  | inr large ↦ rw large (omega arith)
]
length-left n a s (y ∷ ys) zs = omega (arith, length-left n a s ys zs)

-- The two calls in a row, as a client makes them.
abbrev pub alloc_free : ℕ → Heap → Memory → ℕ → Outcome (Heap × Memory)
alloc_free fuel h m size = do (ptr, h', m') ← kmem_alloc fuel h m size; kmem_free fuel h' m' ptr

module _ (fuel : ℕ) (h : Heap) (m : Memory) (size : ℕ) (bs us : List Block)
    (v : IsValid h m bs us) where
  abbrev pub Restores : List Block → Outcome (Heap × Memory) → Type 0
  Restores left r =
      (f : Ptr) × (m' : Memory) × (r ≡ returns (record h { free_list = f }, m'))
      × IsValid (record h { free_list = f }) m' left us

  Fits-Restores :
      (f : Fits (block_size size) null bs)
      → length bs ≤ fuel
      → Restores (given_back (block_size size) bs) (alloc_free fuel h m size)
  Fits-Restores f enough =
      let n = block_size size in
      let pos : 0 < block_size size = ground arith in
      let left = f.before ++ (remainder n (f.at, f.bytes) ++ f.behind) in
      let gives : Gives h m n us (some (f.at, left)) (kmem_alloc fuel h m size) =
        subst (λ o. Gives h m n us o (kmem_alloc fuel h m size)) f.taken
          (kmem_alloc-IsValid fuel h m size bs us v (omega arith)) in
      let (p, m1, calls, v1) = gives in
      let h1 = record h { free_list = p } in
      let room : length left ≤ fuel =
        omega (arith, length-left n f.at f.bytes f.before f.behind, ap length f.whole) in
      let (q, m2, frees, v2) = kmem_free-IsValid fuel h1 m1 left [] f.at n us v1 room in
      let end = h.start + h.size in
      let cut : Layout h.start (f.before ++ (f.at, f.bytes) ∷ f.behind) end =
        subst (λ cs. Layout h.start cs end) f.whole v.heap.layout in
      let restored : put_back (f.at, n) left ≡ given_back n bs =
        put_back-taken n f.at f.bytes f.behind end f.enough pos h.start f.before cut
          (subst Coalesced f.whole v.heap.coalesced)
        ∙ sym (given_back-split n f.before f.at f.bytes f.behind f.below f.enough)
        ∙ ap (given_back n) (sym f.whole) in
      (
        q,
        m2,
        rw (calls, frees) refl,
        subst (λ cs. IsValid (record h { free_list = q }) m2 cs us) restored v2,
      )

  none-Restores :
      first_fit (block_size size) bs ≡ none
      → AllBelow (block_size size) bs
      → length bs ≤ fuel
      → Restores (given_back (block_size size) bs) (alloc_free fuel h m size)
  unfolding kmem_free
  none-Restores no_fit below enough =
      let gives : kmem_alloc fuel h m size ≡ returns (null, h, m) =
        rw no_fit at (kmem_alloc-IsValid fuel h m size bs us v enough) in
      rw (given_back-below (block_size size) bs below) (h.free_list, m, rw gives refl, v)

  -- On a valid heap, with fuel for its free blocks, kmem_alloc and then kmem_free of the pointer it
  -- returned, NULL too, leave a valid heap with the same blocks in use and the same free blocks, but for
  -- the first that fits: when fewer than 64 of its bytes were left over, and some were, these are lost.
  pub kmem_alloc-kmem_free :
      length bs ≤ fuel → Restores (given_back (block_size size) bs) (alloc_free fuel h m size)
  kmem_alloc-kmem_free enough = elim (first_fit_cases (block_size size) null bs) [
    | inl (no_fit, below, stays) ↦ none-Restores no_fit below enough
    | inr f ↦ Fits-Restores f enough
  ]

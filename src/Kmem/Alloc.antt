-- ===== src/Kmem/Alloc.antt =====
-- kmem_alloc on the memory of a heap is first fit on the sequence of its free blocks.
use otrix.Prelude.{
  ℕ, zero, suc, ◌+◌, ◌≤◌, ◌<◌, ◌≡◌, inl, inr, refl, sym, ap, subst, ◌∙◌, List, [], ◌∷◌, ◌++◌, arith,
  length, true, false, Option, none, some, ltb, ◌==◌, ne→==, Outcome, returns,
}
use otrix.IntrusiveList.{Ptr, null}
use otrix.IntrusiveList.Chain.{Chain}
use otrix.IntrusiveList.Distinct.{NotIn}
use otrix.Kmem.{
  Memory, Heap, list_node, free_block, find_fit, kmem_alloc, block_size, used_size, used_header,
  block_magic, set_used,
}
use otrix.Kmem.Blocks.{Block, nodes, Clear, first_fit}
use otrix.Kmem.FirstFit.{Fits, fit_node, first_fit_cases}
use otrix.Kmem.Represents.{IsHeap, Sizes, free_block-list_node}
use otrix.Kmem.TakeBlock.{Kept, sized, take_block-Leaves}

-- The search stops at the first block that fits, within as many rounds as there are blocks.
find_fit-fit_node :
    (fuel : ℕ) (m : Memory) (n head a s : ℕ) (bs : List Block)
    → Chain m.links (list_node a) (nodes bs) head
    → NotIn head (nodes bs)
    → Sizes m.size ((a, s) ∷ bs)
    → length bs < fuel
    → find_fit fuel m n head (list_node a) ≡ returns (fit_node n head ((a, s) ∷ bs))
unfolding find_fit
find_fit-fit_node zero m n head a s bs c out z f = absurd (omega arith)
find_fit-fit_node (suc fuel) m n head a s [] c out z f = ground (arith, free_block-list_node a)
find_fit-fit_node (suc fuel) m n head a s ((b, t) ∷ bs) c out z f =
    let rest = find_fit-fit_node fuel m n head b t bs c.2 out.1 z.1 (omega arith) in
    let on : (list_node b == head) ≡ false = ne→== (λ e. out.0 (sym e)) in
    rw (free_block-list_node, z.0, c.0, on, rest) (ground arith)

-- What kmem_alloc gives when first fit for `n` bytes gives `o`: NULL and no change, or the block behind
-- its header, a heap with the blocks that are left, the header, and the headers of the blocks in use.
abbrev pub Allocates :
    Heap
    → Memory
    → ℕ
    → List Block
    → Option (Ptr × List Block)
    → Outcome (Ptr × Heap × Memory)
    → Type 0
Allocates h m n bs none r = r ≡ returns (null, h, m)
Allocates h m n bs (some (a, left)) r =
    (f : Ptr) × (m' : Memory) × (r ≡ returns (a + used_header, record h { free_list = f }, m'))
    × IsHeap (record h { free_list = f }) m' left
    × (used_size m' a ≡ n)
    × (m'.magic a ≡ block_magic)
    × ((b t : ℕ) → Clear b t bs → 0 < t → Kept m m' b)

module _ (fuel : ℕ) (h : Heap) (m : Memory) (size : ℕ) where
  Allocates-Fits :
      (bs : List Block)
      → IsHeap h m bs
      → (h.free_list == null) ≡ false
      → (f : Fits (block_size size) h.free_list bs)
      → find_fit fuel m (block_size size) h.free_list h.free_list ≡ returns (list_node f.at)
      → Allocates h m
          (block_size size)
          bs
          (first_fit (block_size size) bs)
          (kmem_alloc fuel h m size)
  unfolding kmem_alloc
  Allocates-Fits bs ih some_block f searched =
      let n = block_size size in
      let cut : IsHeap h m (f.before ++ (f.at, f.bytes) ∷ f.behind) =
        subst (IsHeap h m) f.whole ih in
      let pos : 0 < block_size size = ground arith in
      let (free, m', calls, heap, kept) =
        take_block-Leaves h m f.at n f.bytes f.before f.behind cut f.enough pos in
      let enough : ltb (m.size f.at) n ≡ false =
        ground (arith, f.enough, sized h m f.at n f.bytes f.before f.behind cut) in
      rw f.taken (
        free,
        set_used m' f.at n,
        rw (some_block, searched, free_block-list_node, enough, calls) refl,
        heap,
        ground arith,
        ground arith,
        subst (λ cs. (b t : ℕ) → Clear b t cs → 0 < t → Kept m (set_used m' f.at n) b) (sym f.whole)
            kept,
      )

  -- The search starts at the head.
  searches :
      (a s : ℕ) (bs : List Block)
      → IsHeap h m ((a, s) ∷ bs)
      → length bs < fuel
      → find_fit fuel m (block_size size) h.free_list h.free_list
        ≡ returns (fit_node (block_size size) h.free_list ((a, s) ∷ bs))
  searches a s bs ih enough =
      let n = block_size size in
      let head : h.free_list ≡ list_node a = ih.list.0 in
      subst (λ p. find_fit fuel m n p p ≡ returns (fit_node n p ((a, s) ∷ bs))) (sym head)
        (find_fit-fit_node fuel m n (list_node a) a s bs ih.list.1 ih.list.2.0 ih.sizes enough)

  Allocates-none :
      (a s : ℕ) (bs : List Block)
      → IsHeap h m ((a, s) ∷ bs)
      → (h.free_list == null) ≡ false
      → s < block_size size
      → first_fit (block_size size) ((a, s) ∷ bs) ≡ none
      → find_fit fuel m (block_size size) h.free_list h.free_list ≡ returns h.free_list
      → Allocates h m
          (block_size size)
          ((a, s) ∷ bs)
          (first_fit (block_size size) ((a, s) ∷ bs))
          (kmem_alloc fuel h m size)
  unfolding kmem_alloc
  Allocates-none a s bs ih some_block short no_fit searched =
      let head : h.free_list ≡ list_node a = ih.list.0 in
      let bytes : m.size (free_block h.free_list) ≡ s =
        subst (λ p. m.size (free_block p) ≡ s) (sym head)
          (ap m.size (free_block-list_node a) ∙ ih.sizes.0) in
      let tests : ltb (m.size (free_block h.free_list)) (block_size size) ≡ true =
        ground (arith, bytes, short) in
      rw no_fit (rw (some_block, searched, tests) refl)

-- With as much fuel as there are free blocks, kmem_alloc is first fit.
pub kmem_alloc-first_fit :
    (fuel : ℕ) (h : Heap) (m : Memory) (size : ℕ) (bs : List Block)
    → IsHeap h m bs
    → length bs ≤ fuel
    → Allocates h m (block_size size) bs (first_fit (block_size size) bs) (kmem_alloc fuel h m size)
unfolding kmem_alloc
kmem_alloc-first_fit fuel h m size [] ih enough =
    let head : (h.free_list == null) ≡ true = ground (arith, ih.list) in rw head refl
kmem_alloc-first_fit fuel h m size ((a, s) ∷ bs) ih enough =
    let some_block : (h.free_list == null) ≡ false = ground (arith, ih.list.0) in
    let searched = searches fuel h m size a s bs ih (omega arith) in
    elim (first_fit_cases (block_size size) h.free_list ((a, s) ∷ bs)) [
      | inl (no_fit, below, stays) ↦
          Allocates-none fuel h m size a s bs ih some_block below.0 no_fit
            (searched ∙ ap returns stays)
      | inr f ↦
          Allocates-Fits fuel h m size ((a, s) ∷ bs) ih some_block f (searched ∙ ap returns f.found)
    ]

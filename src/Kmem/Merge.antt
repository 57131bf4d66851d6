-- ===== src/Kmem/Merge.antt =====
-- The two merges of kmem_free.
use otrix.Prelude.{
  ℕ, ◌+◌, ◌%◌, ◌^◌, ◌≤◌, ◌<◌, ◌≡◌, refl, subst, List, [], ◌∷◌, ◌++◌, arith, true, false, ◌==◌,
  ne→==, ==_iff, inl, inr, Bool-cases,
}
use otrix.IntrusiveList.{Ptr, update, unlink_node}
use otrix.IntrusiveList.Chain.{IsList}
use otrix.IntrusiveList.Frame.{SameOutside}
use otrix.IntrusiveList.Neighbours.{neighbours, next-last, unlink_behind}
use otrix.Kmem.{Memory, Heap, list_node, free_block, merge_prev, merge_next, set_links, set_size}
use otrix.Kmem.Blocks.{
  Block, nodes, Layout, join, nodes-append, Layout-split, Layout-append, Layout-hi, Layout-NotIn,
  Layout-NotIn_above,
}
use otrix.Kmem.Represents.{Sizes, Sizes-update, Sizes-append, Sizes-split, free_block-list_node}

-- A heap whose free list has the blocks `bs`, that may touch.
pub record IsFree (h : Heap) (m : Memory) (bs : List Block) : Type 0 where
  pub list : IsList m.links h.free_list (nodes bs)
  pub sizes : Sizes m.size bs
  pub layout : Layout h.start bs (h.start + h.size)
  pub in_memory : h.start + h.size < 2 ^ 64

-- The memory when the block at `a` has grown over the block at `b`.
abbrev grown : Memory → Ptr → ℕ → Ptr → Memory
grown m a v b = let m' = set_size m a v in set_links m' (unlink_node m'.links (list_node b))

module _ (h : Heap) (m : Memory) (a s b t : ℕ) (ws zs : List Block) where
  IsFree-grown :
      IsFree h m (ws ++ (a, s) ∷ (b, t) ∷ zs)
      → a + s ≡ b
      → IsFree h (grown m a ((s + t) % 2 ^ 64) b) (ws ++ (a, s + t) ∷ zs)
        × SameOutside
            (nodes (ws ++ (a, s) ∷ (b, t) ∷ zs))
            m.links
            (grown m a ((s + t) % 2 ^ 64) b).links
  IsFree-grown ih touch =
      let is = rw nodes-append at ih.list in
      let (list, same) =
        unlink_behind m.links h.free_list (list_node a) (list_node b) (nodes ws) (nodes zs) is in
      let (x, y, z) = Layout-split h.start ws a s ((b, t) ∷ zs) (h.start + h.size) ih.layout in
      let fits : (s + t) % 2 ^ 64 ≡ s + t =
        omega (arith, Layout-hi (b + t) zs (h.start + h.size) z.2, ih.in_memory) in
      let behind : Layout (a + (s + t)) zs (h.start + h.size) =
        subst (λ e. Layout e zs (h.start + h.size)) (omega arith) z.2 in
      let (u, v) = Sizes-split m.size ws ((a, s) ∷ (b, t) ∷ zs) ih.sizes in
      (
        record {
          list = rw nodes-append list;
          sizes =
              Sizes-append (update m.size a ((s + t) % 2 ^ 64)) ws ((a, s + t) ∷ zs)
                (Sizes-update m.size a ((s + t) % 2 ^ 64) ws u
                  (Layout-NotIn_above a h.start ws a x (omega arith)))
                (
                  ground arith,
                  Sizes-update m.size a ((s + t) % 2 ^ 64) zs v.1.1
                      (Layout-NotIn a (b + t) zs (h.start + h.size) z.2 (ground arith)),
                );
          layout =
              Layout-append h.start ws a ((a, s + t) ∷ zs) (h.start + h.size) x
                (omega arith, ground arith, behind);
          in_memory = ih.in_memory;
        },
        rw nodes-append same,
      )

-- The head is the lowest block.
head-le :
    (h : Heap) (m : Memory) (a s : ℕ) (ws zs : List Block)
    → IsFree h m (ws ++ (a, s) ∷ zs)
    → free_block h.free_list ≤ a
head-le h m a s [] zs ih = let head : h.free_list ≡ list_node a = ih.list.0 in omega arith
head-le h m a s ((b, t) ∷ ws) zs ih =
    let head : h.free_list ≡ list_node b = ih.list.0 in
    let (x, y, z) = Layout-split h.start ((b, t) ∷ ws) a s zs (h.start + h.size) ih.layout in
    omega (arith, Layout-hi (b + t) ws a x.2)

merge_next-stays :
    (m : Memory) (a s : ℕ)
    → m.size a ≡ s
    → (a + s == free_block (m.links.next (list_node a))) ≡ false
    → merge_next m a ≡ m
unfolding merge_next
merge_next-stays m a s sized apart = rw (sized, apart) refl

-- Merging with the next block, if it touches.
pub merge_next-join :
    (h : Heap) (m : Memory) (a s : ℕ) (ws zs : List Block)
    → IsFree h m (ws ++ (a, s) ∷ zs)
    → IsFree h (merge_next m a) (ws ++ join (a, s) zs)
      × SameOutside (nodes (ws ++ (a, s) ∷ zs)) m.links (merge_next m a).links
      × ((merge_next m a).magic ≡ m.magic)
unfolding merge_next
merge_next-join h m a s ws [] ih =
    let is = rw nodes-append at ih.list in
    let sized = (Sizes-split m.size ws ((a, s) ∷ []) ih.sizes).1.0 in
    let next = next-last m.links h.free_list (list_node a) (nodes ws) is in
    let large = (Layout-split h.start ws a s [] (h.start + h.size) ih.layout).1 in
    let apart : (a + s == free_block (m.links.next (list_node a))) ≡ false =
      ne→== (λ e. absurd (omega (arith, head-le h m a s ws [] ih, next))) in
    rw (merge_next-stays m a s sized apart) (ih, (λ p out. (refl, refl)), refl)
merge_next-join h m a s ws ((b, t) ∷ zs) ih =
    let is = rw nodes-append at ih.list in
    let sizes = (Sizes-split m.size ws ((a, s) ∷ (b, t) ∷ zs) ih.sizes).1 in
    let next =
      (neighbours m.links h.free_list (list_node a) (list_node b) (nodes ws) (nodes zs) is).0 in
    elim (Bool-cases ((a + s) == b)) [
      | inl touch ↦
          let (free, same) = IsFree-grown h m a s b t ws zs ih ((==_iff (a + s) b).0 touch) in
          rw (next, free_block-list_node, sizes.0, sizes.1.0, touch) (free, same, refl)
      | inr apart ↦
          rw (next, free_block-list_node, sizes.0, apart) (ih, (λ p out. (refl, refl)), refl)
    ]

-- Merging with the previous block, if it touches: what is left of the two.
pub merge_prev-grown :
    (h : Heap) (m : Memory) (a s b t : ℕ) (ws zs : List Block)
    → IsFree h m (ws ++ (a, s) ∷ (b, t) ∷ zs)
    → (a + s == b) ≡ true
    → (m' : Memory) × (merge_prev m b t ≡ (a, m'))
      × IsFree h m' (ws ++ (a, s + t) ∷ zs)
      × SameOutside (nodes (ws ++ (a, s) ∷ (b, t) ∷ zs)) m.links m'.links
      × (m'.magic ≡ m.magic)
unfolding merge_prev
merge_prev-grown h m a s b t ws zs ih touch =
    let is = rw nodes-append at ih.list in
    let sizes = (Sizes-split m.size ws ((a, s) ∷ (b, t) ∷ zs) ih.sizes).1 in
    let prev =
      (neighbours m.links h.free_list (list_node a) (list_node b) (nodes ws) (nodes zs) is).1 in
    let (free, same) = IsFree-grown h m a s b t ws zs ih ((==_iff (a + s) b).0 touch) in
    (
      grown m a ((s + t) % 2 ^ 64) b,
      rw (prev, free_block-list_node, sizes.0, touch) refl,
      free,
      same,
      refl,
    )

pub merge_prev-stays :
    (m : Memory) (b t c : ℕ)
    → free_block (m.links.prev (list_node b)) ≡ c
    → (c + m.size c == b) ≡ false
    → merge_prev m b t ≡ (b, m)
unfolding merge_prev
merge_prev-stays m b t c prev apart = rw (prev, apart) refl

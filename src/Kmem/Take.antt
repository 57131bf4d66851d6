-- ===== src/Kmem/Take.antt =====
-- The second half of kmem_alloc: the block that was found leaves the free list, or is split.
use otrix.Prelude.{
  ℕ, ◌+◌, ◌-◌, ◌<◌, ◌≡◌, refl, sym, ◌∙◌, List, [], ◌∷◌, ◌++◌, arith, true, false, ltb, ne→==, ◌==◌,
  Outcome, returns,
}
use otrix.IntrusiveList.{Ptr, Links, update, self_link, delete, unlink_node, insert}
use otrix.IntrusiveList.Chain.{IsList}
use otrix.IntrusiveList.Distinct.{NotIn, Apart-cons, Apart-nil, NotIn-split}
use otrix.IntrusiveList.Frame.{SameOutside, IsList-frame, delete-SameOutside}
use otrix.Kmem.{
  Memory, Heap, list_node, new_free_block, replace_node, take_block, min_free_block_size,
  block_magic, set_links, set_size, set_magic,
}
use otrix.Kmem.Blocks.{Block, nodes}
use otrix.Kmem.Replace.{delete-IsList, replace-head, replace-inner}
use otrix.Kmem.Represents.{free_block-list_node, contains-middle}

-- The memory once the rest of the block at `a` has its header.
abbrev pub split_memory : Memory → Ptr → ℕ → ℕ → Memory
split_memory m a n s =
    set_magic (set_size (set_links m (self_link m.links (list_node (a + n)))) (a + n) (s - n))
      (a + n) block_magic

-- What a call of `take_block` that returns leaves: the nodes `ks` in the list, the sizes, and what it
-- wrote to: the list as it was, and the header of the rest, if there is one.
abbrev pub Takes :
    Heap → Memory → List Block → List Ptr → List Ptr → (Ptr → ℕ) → Outcome (Heap × Memory) → Type 0
Takes h m rest old ks size r =
    (f : Ptr) × (m' : Memory) × (r ≡ returns (record h { free_list = f }, m'))
    × IsList m'.links f ks
    × SameOutside (nodes rest ++ old) m.links m'.links
    × ((b : Ptr) → NotIn (list_node b) (nodes rest) → m'.magic b ≡ m.magic b)
    × (m'.size ≡ size)

module _ (h : Heap) (m : Memory) (a n s : ℕ) (sized : m.size a ≡ s) where
  new_free_block_lem : new_free_block m (list_node a) n ≡ returns (a + n, split_memory m a n s)
  unfolding new_free_block
  new_free_block_lem = ground (arith, free_block-list_node a)

  pub take-whole :
      (ys zs : List Ptr)
      → IsList m.links h.free_list (ys ++ list_node a ∷ zs)
      → ltb (s - n) min_free_block_size ≡ true
      → Takes h m [] (ys ++ list_node a ∷ zs) (ys ++ zs) m.size (take_block h m (list_node a) n)
  unfolding take_block
  take-whole ys zs is small =
      let same =
        delete-SameOutside m.links h.free_list (list_node a) _ is
          (contains-middle (list_node a) ys zs) in
      (
        (delete m.links h.free_list (list_node a)).0,
        set_links m (delete m.links h.free_list (list_node a)).1,
        rw (free_block-list_node, sized, small) (ground arith),
        delete-IsList m.links h.free_list (list_node a) ys zs is,
        same,
        (λ b out. refl),
        refl,
      )

  -- The header of the rest is outside the list.
  split_list :
      (f : Ptr) (ks : List Ptr)
      → IsList m.links f ks
      → NotIn (list_node (a + n)) ks
      → IsList (split_memory m a n s).links f ks
  split_list f ks is out =
      IsList-frame (list_node (a + n) ∷ []) m.links _ (λ b away. ground arith) f ks is
        (Apart-cons (list_node (a + n)) ks [] out (Apart-nil ks))

  module _ (large : ltb (s - n) min_free_block_size ≡ false) (taken : 0 < n) where
    replace_node_lem :
        (m' : Memory) (prev p_free node : Ptr) (l : Links)
        → insert (unlink_node m'.links p_free) prev node ≡ returns (node, l)
        → replace_node m' prev p_free node ≡ returns (set_links m' l)
    unfolding replace_node
    replace_node_lem m' prev p_free node l e = rw e refl

    take-alone :
        IsList m.links h.free_list (list_node a ∷ [])
        → Takes h m
            ((a + n, s - n) ∷ [])
            (list_node a ∷ [])
            (list_node (a + n) ∷ [])
            (update m.size (a + n) (s - n))
            (take_block h m (list_node a) n)
    unfolding take_block
    take-alone is = (
      list_node (a + n),
      split_memory m a n s,
      rw (free_block-list_node, sized, large, new_free_block_lem) (ground arith),
      (refl, (ground arith, ground arith), (tt, tt), ((λ e. absurd (omega arith)), tt)),
      (λ b out. ground arith),
      (λ b out. ground arith),
      refl,
    )

    take-head :
        (z : Ptr) (zs : List Ptr)
        → IsList m.links h.free_list (list_node a ∷ z ∷ zs)
        → NotIn (list_node (a + n)) (list_node a ∷ z ∷ zs)
        → Takes h m
            ((a + n, s - n) ∷ [])
            (list_node a ∷ z ∷ zs)
            (list_node (a + n) ∷ z ∷ zs)
            (update m.size (a + n) (s - n))
            (take_block h m (list_node a) n)
    unfolding take_block
    take-head z zs is out =
        let apart = split_list h.free_list (list_node a ∷ z ∷ zs) is out in
        let (l, calls, several, list, same) =
          replace-head (split_memory m a n s).links h.free_list (list_node a) (list_node (a + n)) z
            zs apart out (λ e. absurd (omega arith)) in
        let replaced = replace_node_lem (split_memory m a n s) _ _ _ l calls in
        let at_head : (list_node a == h.free_list) ≡ true = ground arith in
        (
          list_node (a + n),
          set_links (split_memory m a n s) l,
          rw
              (
                free_block-list_node,
                sized,
                large,
                new_free_block_lem,
                at_head,
                ne→== several,
                replaced,
              )
              refl,
          list,
          (λ b away. ground (arith, same b away)),
          (λ b away. ground arith),
          refl,
        )

    take-inner :
        (y : Ptr) (ys zs : List Ptr)
        → IsList m.links h.free_list (y ∷ (ys ++ list_node a ∷ zs))
        → NotIn (list_node (a + n)) (y ∷ (ys ++ list_node a ∷ zs))
        → Takes h m
            ((a + n, s - n) ∷ [])
            (y ∷ (ys ++ list_node a ∷ zs))
            (y ∷ (ys ++ list_node (a + n) ∷ zs))
            (update m.size (a + n) (s - n))
            (take_block h m (list_node a) n)
    unfolding take_block
    take-inner y ys zs is out =
        let apart = split_list h.free_list (y ∷ (ys ++ list_node a ∷ zs)) is out in
        let (l, calls, list, same) =
          replace-inner (split_memory m a n s).links h.free_list (list_node a) (list_node (a + n)) y
            ys zs apart out (λ e. absurd (omega arith)) in
        let replaced = replace_node_lem (split_memory m a n s) _ _ _ l calls in
        let head : h.free_list ≡ y = is.0 in
        let inner = NotIn-split y ys (list_node a ∷ zs) is.2.0 in
        let past_head : (list_node a == h.free_list) ≡ false =
          ne→== (λ e. inner.1.0 (sym (e ∙ head))) in
        let prev_kept : (split_memory m a n s).links.prev (list_node a)
            ≡ m.links.prev (list_node a) =
          ground arith in
        (
          h.free_list,
          set_links (split_memory m a n s) l,
          rw
              (
                free_block-list_node,
                sized,
                large,
                new_free_block_lem,
                past_head,
                ← prev_kept,
                replaced,
              )
              refl,
          list,
          (λ b away. ground (arith, same b away)),
          (λ b away. ground arith),
          refl,
        )

    pub take-split :
        (ys zs : List Ptr)
        → IsList m.links h.free_list (ys ++ list_node a ∷ zs)
        → NotIn (list_node (a + n)) (ys ++ list_node a ∷ zs)
        → Takes h m
            ((a + n, s - n) ∷ [])
            (ys ++ list_node a ∷ zs)
            (ys ++ list_node (a + n) ∷ zs)
            (update m.size (a + n) (s - n))
            (take_block h m (list_node a) n)
    take-split [] [] is out = take-alone is
    take-split [] (z ∷ zs) is out = take-head z zs is out
    take-split (y ∷ ys) zs is out = take-inner y ys zs is out

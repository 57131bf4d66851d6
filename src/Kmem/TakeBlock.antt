-- ===== src/Kmem/TakeBlock.antt =====
-- The block that first fit finds, taken from the free list of a heap: what is left of it, and what else
-- stays as it was.
use otrix.Prelude.{
  ℕ, ◌+◌, ◌-◌, ◌≤◌, ◌<◌, ◌≡◌, inl, inr, List, [], ◌∷◌, ◌++◌, arith, ltb, if◌then◌else◌, Bool-cases,
  Outcome, returns,
}
use otrix.IntrusiveList.{Ptr, update}
use otrix.IntrusiveList.Chain.{IsList}
use otrix.IntrusiveList.Distinct.{NotIn, Apart-cons, Apart-nil, NotIn-append, NotIn-split}
use otrix.IntrusiveList.Frame.{IsList-frame}
use otrix.Kmem.{Memory, Heap, list_node, take_block, used_size, min_free_block_size, set_used}
use otrix.Kmem.Blocks.{Block, nodes, Clear, remainder, nodes-append, Clear-NotIn}
use otrix.Kmem.FirstFit.{taken-Layout, taken-Coalesced, taken-Clear, block-Clear, remainder-NotIn}
use otrix.Kmem.Represents.{IsHeap, Sizes, Sizes-update, Sizes-append, Sizes-split}
use otrix.Kmem.Take.{Takes, take-whole, take-split}

-- The header of the used block at `b` is the same in both memories.
abbrev pub Kept : Memory → Memory → Ptr → Type 0
Kept m m' b = (used_size m' b ≡ used_size m b) × (m'.magic b ≡ m.magic b)

module _ (h : Heap) (m : Memory) (a n s : ℕ) (ys zs : List Block)
    (ih : IsHeap h m (ys ++ (a, s) ∷ zs)) (le : n ≤ s) (pos : 0 < n) where
  whole_list : IsList m.links h.free_list (nodes ys ++ list_node a ∷ nodes zs)
  whole_list = rw nodes-append at ih.list

  pub sized : m.size a ≡ s
  sized = (Sizes-split m.size ys ((a, s) ∷ zs) ih.sizes).1.0

  abbrev sizes_left : Ptr → ℕ
  sizes_left = if ltb (s - n) min_free_block_size then m.size else update m.size (a + n) (s - n)

  take_block-Takes :
      Takes h m
        (remainder n (a, s))
        (nodes ys ++ list_node a ∷ nodes zs)
        (nodes (ys ++ (remainder n (a, s) ++ zs)))
        sizes_left
        (take_block h m (list_node a) n)
  take_block-Takes = elim (Bool-cases (ltb (s - n) min_free_block_size)) [
    | inl small ↦
        rw (small, nodes-append) (take-whole h m a n s sized (nodes ys) (nodes zs) whole_list small)
    | inr large ↦
        let (left, right) = remainder-NotIn n a s zs _ le h.start ys ih.layout large pos in
        let out =
          NotIn-append (list_node (a + n)) (nodes ys) (list_node a ∷ nodes zs) left
            ((λ e. absurd (omega arith)), right) in
        rw (large, nodes-append)
          (take-split h m a n s sized large pos (nodes ys) (nodes zs) whole_list out)
  ]

  sizes_left-Sizes : Sizes sizes_left (ys ++ (remainder n (a, s) ++ zs))
  sizes_left-Sizes =
      let (x, y) = Sizes-split m.size ys ((a, s) ∷ zs) ih.sizes in
      elim (Bool-cases (ltb (s - n) min_free_block_size)) [
        | inl small ↦ rw small (Sizes-append m.size ys zs x y.1)
        | inr large ↦
            let (left, right) = remainder-NotIn n a s zs _ le h.start ys ih.layout large pos in
            let f = update m.size (a + n) (s - n) in
            rw large (
              Sizes-append f ys ((a + n, s - n) ∷ zs)
                (Sizes-update m.size (a + n) (s - n) ys x left)
                (ground arith, Sizes-update m.size (a + n) (s - n) zs y.1 right))
      ]

  untouched :
      (b t : ℕ)
      → Clear b t (ys ++ (a, s) ∷ zs)
      → 0 < t
      → NotIn (list_node b) (nodes (remainder n (a, s)) ++ (nodes ys ++ list_node a ∷ nodes zs))
  untouched b t c big =
      let left = taken-Clear n a s zs (h.start + h.size) le b t ys c in
      let new =
        Clear-NotIn b t h.start (ys ++ (remainder n (a, s) ++ zs)) _ big left
          (taken-Layout n a s zs _ le h.start ys ih.layout) in
      let old = Clear-NotIn b t h.start (ys ++ (a, s) ∷ zs) _ big c ih.layout in
      let parts =
        NotIn-split (list_node b) (nodes ys) (nodes (remainder n (a, s) ++ zs))
          (rw nodes-append at new) in
      let rest =
        NotIn-split (list_node b) (nodes (remainder n (a, s))) (nodes zs)
          (rw nodes-append at parts.1) in
      NotIn-append (list_node b) (nodes (remainder n (a, s))) (nodes ys ++ list_node a ∷ nodes zs)
        rest.0 (rw nodes-append at old)

  -- The call returns, and the header of the used block is written into the block that was taken, off
  -- the list.
  abbrev pub Leaves : Outcome (Heap × Memory) → Type 0
  Leaves r =
      (f : Ptr) × (m' : Memory) × (r ≡ returns (record h { free_list = f }, m'))
      × IsHeap (record h { free_list = f }) (set_used m' a n) (ys ++ (remainder n (a, s) ++ zs))
      × ((b t : ℕ) → Clear b t (ys ++ (a, s) ∷ zs) → 0 < t → Kept m (set_used m' a n) b)

  pub take_block-Leaves : Leaves (take_block h m (list_node a) n)
  take_block-Leaves =
      let (f, m', calls, list, same, magic, sizes) = take_block-Takes in
      let bs' = ys ++ (remainder n (a, s) ++ zs) in
      let layout = taken-Layout n a s zs _ le h.start ys ih.layout in
      let off : NotIn (list_node a) (nodes bs') =
        Clear-NotIn a n h.start bs' (h.start + h.size) pos
          (block-Clear n a s zs (h.start + h.size) le h.start ys ih.layout) layout in
      (
        f,
        m',
        calls,
        record {
          list =
              IsList-frame (list_node a ∷ []) m'.links (set_used m' a n).links
                (λ b away. ground arith) f (nodes bs') list
                (Apart-cons (list_node a) (nodes bs') [] off (Apart-nil (nodes bs')));
          sizes = rw sizes sizes_left-Sizes;
          layout = layout;
          coalesced = taken-Coalesced n a s zs (h.start + h.size) le ys ih.coalesced;
          in_memory = ih.in_memory;
        },
        λ b t c big.
            let away = untouched b t c big in
            let (new, old) =
              NotIn-split (list_node b) (nodes (remainder n (a, s)))
                (nodes ys ++ list_node a ∷ nodes zs) away in
            let ne = (NotIn-split (list_node b) (nodes ys) (list_node a ∷ nodes zs) old).1.0 in
            ground (arith, same (list_node b) away, magic b new),
      )

-- ===== src/Kmem/Merges.antt =====
-- The two merges of kmem_free, one after the other, on the sequence of free blocks.
use otrix.Prelude.{
  ℕ, ◌+◌, ◌≤◌, ◌≡◌, inl, inr, refl, sym, ap, subst, ◌∙◌, List, [], ◌∷◌, ◌++◌, append_assoc, arith,
  false, ◌==◌, ne→==, if◌then◌else◌, Bool-cases,
}
use otrix.IntrusiveList.{Ptr}
use otrix.IntrusiveList.Distinct.{NotIn}
use otrix.IntrusiveList.Frame.{SameOutside}
use otrix.IntrusiveList.Neighbours.{neighbours, last_of, prev-head}
use otrix.Kmem.{Memory, Heap, list_node, free_block, merge_prev, merge_next, min_free_block_size}
use otrix.Kmem.Blocks.{Block, nodes, Layout, join, put_back, nodes-append}
use otrix.Kmem.Link.{snoc_cases}
use otrix.Kmem.Merge.{IsFree, merge_next-join, merge_prev-grown, merge_prev-stays}
use otrix.Kmem.PutBack.{put_back-first, put_back-behind}
use otrix.Kmem.Represents.{Sizes-split, free_block-list_node}

abbrev pub merged : Memory → Ptr → ℕ → Memory
merged m b s = merge_next (merge_prev m b s).1 (merge_prev m b s).0

abbrev pub Merges : Heap → Memory → Ptr → ℕ → List Block → List Block → Type 0
Merges h m b s linked left =
    IsFree h (merged m b s) left
    × SameOutside (nodes linked) m.links (merged m b s).links
    × ((merged m b s).magic ≡ m.magic)

-- The node behind a chain of blocks that lie above `b`.
last_of-above :
    (b lo : ℕ) (zs : List Block) (hi x : ℕ)
    → Layout lo zs hi
    → b ≤ lo
    → b ≤ free_block x
    → b ≤ free_block (last_of x (nodes zs))
last_of-above b lo [] hi x l le k = k
last_of-above b lo ((a, s) ∷ zs) hi x l le k =
    last_of-above b (a + s) zs hi (list_node a) l.2 (omega arith) (omega arith)

NotIn-fewer :
    (p : Ptr) (ws : List Block) (q t u b s : ℕ) (zs : List Block)
    → NotIn p (nodes (ws ++ (q, t) ∷ (b, s) ∷ zs))
    → NotIn p (nodes (ws ++ (q, u) ∷ zs))
NotIn-fewer p [] q t u b s zs out = (out.0, out.1.1)
NotIn-fewer p ((a, v) ∷ ws) q t u b s zs out = (out.0, NotIn-fewer p ws q t u b s zs out.1)

module _ (h : Heap) (m : Memory) (b s : ℕ) (big : min_free_block_size ≤ s) where
  tail_apart :
      (zs : List Block)
      → IsFree h m ((b, s) ∷ zs)
      → (free_block (m.links.prev (list_node b)) + m.size (free_block (m.links.prev (list_node b)))
          == b)
        ≡ false
  tail_apart [] ih =
      let prev = prev-head m.links h.free_list (list_node b) [] ih.list in
      let e : free_block (m.links.prev (list_node b)) ≡ b =
        ap free_block prev ∙ free_block-list_node b in
      let bytes : m.size (free_block (m.links.prev (list_node b))) ≡ s = ap m.size e ∙ ih.sizes.0 in
      ne→== (λ k. absurd (omega (arith, e, bytes, k)))
  tail_apart ((a, t) ∷ zs) ih =
      let prev = prev-head m.links h.free_list (list_node b) (nodes ((a, t) ∷ zs)) ih.list in
      let (x, y, z) = ih.layout.2 in
      let above =
        last_of-above (b + s) (a + t) zs (h.start + h.size) (list_node a) z (omega arith)
          (omega arith) in
      let e : free_block (m.links.prev (list_node b))
          ≡ free_block (last_of (list_node a) (nodes zs)) =
        ap free_block prev in
      ne→== (λ k. absurd (omega (arith, e, above, k)))

  -- The lowest block has none before it to merge with.
  first-Merges :
      (zs : List Block) → IsFree h m ((b, s) ∷ zs) → Merges h m b s ((b, s) ∷ zs) (join (b, s) zs)
  first-Merges zs ih =
      let prev = prev-head m.links h.free_list (list_node b) (nodes zs) ih.list in
      let c = free_block (m.links.prev (list_node b)) in
      let stays = merge_prev-stays m b s c refl (tail_apart zs ih) in
      rw stays (merge_next-join h m b s [] zs ih)

  behind-Merges :
      (lo : ℕ) (ws : List Block) (q t : ℕ) (zs : List Block)
      → IsFree h m (ws ++ (q, t) ∷ (b, s) ∷ zs)
      → Merges h m b s
          (ws ++ (q, t) ∷ (b, s) ∷ zs)
          (ws ++ (if (q + t) == b then join (q, t + s) zs else (q, t) ∷ join (b, s) zs))
  behind-Merges lo ws q t zs ih = elim (Bool-cases ((q + t) == b)) [
    | inl touch ↦
        let (m', calls, free, same, magic) = merge_prev-grown h m q t b s ws zs ih touch in
        let (done, same', magic') = merge_next-join h m' q (t + s) ws zs free in
        rw (touch, calls)
          (
            done,
            (λ a out.
                let fewer = NotIn-fewer a ws q t (t + s) b s zs out in
                ((same' a fewer).0 ∙ (same a out).0, (same' a fewer).1 ∙ (same a out).1)),
            magic' ∙ magic,
          )
    | inr apart ↦
        let is = rw nodes-append at ih.list in
        let prev =
          (neighbours m.links h.free_list (list_node q) (list_node b) (nodes ws) (nodes zs) is).1 in
        let sized = (Sizes-split m.size ws ((q, t) ∷ (b, s) ∷ zs) ih.sizes).1.0 in
        let stays = merge_prev-stays m b s q (rw prev (free_block-list_node q)) (rw sized apart) in
        let shape : (cs : List Block) → (ws ++ (q, t) ∷ []) ++ cs ≡ ws ++ (q, t) ∷ cs =
          λ cs. append_assoc ws ((q, t) ∷ []) cs in
        let (done, same, magic) =
          merge_next-join h m b s (ws ++ (q, t) ∷ []) zs
            (subst (IsFree h m) (sym (shape ((b, s) ∷ zs))) ih) in
        rw (apart, stays)
          (
            subst (IsFree h (merge_next m b)) (shape (join (b, s) zs)) done,
            subst (λ cs. SameOutside (nodes cs) m.links (merge_next m b).links)
                (shape ((b, s) ∷ zs)) same,
            magic,
          )
  ]

  pub put_back-Merges :
      (lo : ℕ) (ys zs : List Block) (hi : ℕ)
      → IsFree h m (ys ++ (b, s) ∷ zs)
      → Layout lo ys b
      → Layout (b + s) zs hi
      → Merges h m b s (ys ++ (b, s) ∷ zs) (put_back (b, s) (ys ++ zs))
  put_back-Merges lo ys zs hi ih below above = elim (snoc_cases ys) [
    | inl e ↦ rw (e, put_back-first b s zs hi above big) (first-Merges zs (rw e at ih))
    | inr (ws, q, t, e) ↦
        let flat : (cs : List Block) → ys ++ cs ≡ ws ++ (q, t) ∷ cs =
          λ cs. ap (λ xs. xs ++ cs) e ∙ append_assoc ws ((q, t) ∷ []) cs in
        let shape = put_back-behind lo ws q t b s zs hi (rw e at below) above big in
        rw (flat ((b, s) ∷ zs), flat zs, shape)
          (behind-Merges lo ws q t zs (subst (IsFree h m) (flat ((b, s) ∷ zs)) ih))
  ]

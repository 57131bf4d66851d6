-- ===== src/Kmem/Free.antt =====
-- kmem_free on the memory of a heap is `put_back` on the sequence of its free blocks.
use otrix.Prelude.{
  ℕ, ◌+◌, ◌-◌, ◌≤◌, ◌<◌, ◌≡◌, ◌≢◌, refl, ap, subst, ◌∙◌, List, [], ◌∷◌, ◌++◌, arith, length, true,
  false, ltb, ◌==◌, ◌||◌, Outcome, returns,
}
use otrix.IntrusiveList.{Ptr, null, Links, update, self_link, init}
use otrix.IntrusiveList.Chain.{IsList}
use otrix.IntrusiveList.Distinct.{NotIn, NotIn-append, NotIn-split, Apart-cons, Apart-nil}
use otrix.IntrusiveList.Frame.{IsList-frame}
use otrix.Kmem.{
  Memory, Heap, list_node, kmem_free, link_free, used_size, used_header, min_free_block_size,
  block_magic, set_links, set_size, set_magic,
}
use otrix.Kmem.TakeBlock.{Kept}
use otrix.Kmem.Blocks.{
  Block, nodes, Layout, Clear, put_back, nodes-append, Layout-append, Clear-split, Clear-NotIn,
}
use otrix.Kmem.Link.{LinkedIn, link_free-LinkedIn}
use otrix.Kmem.Merge.{IsFree}
use otrix.Kmem.PutBack.{put_back-Coalesced}
use otrix.Kmem.Represents.{IsHeap, Sizes, Sizes-update, Sizes-append, Sizes-split}
use otrix.Kmem.Merges.{merged, put_back-Merges}

-- A block in use, with its header: it lies in the heap, and is clear of the free blocks.
pub record IsUsed (h : Heap) (m : Memory) (bs : List Block) (b s : ℕ) : Type 0 where
  pub starts : h.start ≤ b
  pub ends : b + s ≤ h.start + h.size
  pub large : min_free_block_size ≤ s
  pub bytes : used_size m b ≡ s
  pub magic : m.magic b ≡ block_magic
  pub clear : Clear b s bs

-- The memory once the header is that of a free block.
abbrev freed : Memory → Ptr → ℕ → Memory
freed m b s = set_magic (set_size (set_links m (self_link m.links (list_node b))) b s) b block_magic

-- What kmem_free leaves when the free blocks become `left`.
abbrev pub Frees :
    Heap → Memory → ℕ → ℕ → List Block → List Block → Outcome (Heap × Memory) → Type 0
Frees h m b s bs left r =
    (f : Ptr) × (m' : Memory) × (r ≡ returns (record h { free_list = f }, m'))
    × IsHeap (record h { free_list = f }) m' left
    × ((c t : ℕ) → Clear c t bs → Clear c t ((b, s) ∷ []) → 0 < t → Kept m m' c)

self_link-next : (m : Memory) (n p : Ptr) → p ≢ n → (self_link m.links n).next p ≡ m.links.next p
self_link-next m n p ne = ground arith

module _ (fuel : ℕ) (h : Heap) (m : Memory) (b s : ℕ) (ys zs : List Block)
    (ih : IsHeap h m (ys ++ zs)) (used : IsUsed h m (ys ++ zs) b s) (below : Layout h.start ys b)
    (above : Layout (b + s) zs (h.start + h.size)) (enough : length (ys ++ zs) ≤ fuel) where
  outside : NotIn (list_node b) (nodes (ys ++ zs))
  outside =
      Clear-NotIn b s h.start (ys ++ zs) (h.start + h.size) (omega (arith, used.large)) used.clear
        ih.layout

  alone : IsList (freed m b s).links (list_node b) (list_node b ∷ [])
  alone = (refl, (ground arith, ground arith), (tt, tt), ((λ e. absurd (omega arith)), tt))

  linked :
      LinkedIn fuel h
        (freed m b s)
        b
        s
        alone
        ys
        zs
        (link_free fuel h (freed m b s) (b + used_header) (list_node b))
  linked =
      link_free-LinkedIn fuel h (freed m b s) b s alone h.start ys zs (h.start + h.size)
        (IsList-frame (list_node b ∷ []) m.links (freed m b s).links (λ c away. ground arith)
          h.free_list (nodes (ys ++ zs)) ih.list
          (Apart-cons (list_node b) (nodes (ys ++ zs)) [] outside (Apart-nil (nodes (ys ++ zs)))))
        outside below above (omega (arith, used.large)) enough

  kept-Sizes : Sizes (update m.size b s) (ys ++ (b, s) ∷ zs)
  kept-Sizes =
      let (u, v) = Sizes-split m.size ys zs ih.sizes in
      let (n, k) = NotIn-split (list_node b) (nodes ys) (nodes zs) (rw nodes-append at outside) in
      Sizes-append (update m.size b s) ys ((b, s) ∷ zs) (Sizes-update m.size b s ys u n)
        (ground arith, Sizes-update m.size b s zs v k)

  calls :
      (f : Ptr) (l : Links)
      → link_free fuel h (freed m b s) (b + used_header) (list_node b)
        ≡ returns (record h { free_list = f }, set_links (freed m b s) l)
      → kmem_free fuel h m (b + used_header)
        ≡ returns (record h { free_list = f }, merged (set_links (freed m b s) l) b s)
  unfolding kmem_free init
  calls f l =
      let back : b + used_header - used_header ≡ b = omega arith in
      let some_ptr : (b + used_header == null) ≡ false = ground arith in
      let inside : (ltb b h.start || ltb (h.start + h.size) b) ≡ false =
        ground (arith, used.starts, used.ends) in
      let ours : (m.magic b == block_magic) ≡ true = ground (arith, used.magic) in
      let node : (list_node b == null) ≡ false = ground arith in
      subst
        (λ v.
          link_free fuel h (freed m b v) (b + used_header) (list_node b)
            ≡ returns (record h { free_list = f }, set_links (freed m b v) l)
          → kmem_free fuel h m (b + used_header)
            ≡ returns (record h { free_list = f }, merged (set_links (freed m b v) l) b v))
        used.bytes (λ e. rw (back, some_ptr, inside, ours, node, e) refl)

  magic_kept : (c : Ptr) → list_node c ≢ list_node b → (freed m b s).magic c ≡ m.magic c
  magic_kept c ne = ground arith

  frees :
      Frees h m b s (ys ++ zs) (put_back (b, s) (ys ++ zs)) (kmem_free fuel h m (b + used_header))
  frees =
      let (f, l, links, list, same) = linked in
      let m2 = set_links (freed m b s) l in
      let h2 = record h { free_list = f } in
      let before : IsFree h2 m2 (ys ++ (b, s) ∷ zs) = record {
        list = list;
        sizes = kept-Sizes;
        layout =
            Layout-append h.start ys b ((b, s) ∷ zs) (h.start + h.size) below
              (omega arith, used.large, above);
        in_memory = ih.in_memory;
      } in
      let (free, same', magic) =
        put_back-Merges h2 m2 b s used.large h.start ys zs (h.start + h.size) before below above in
      (
        f,
        merged m2 b s,
        calls f l links,
        record {
          list = free.list;
          sizes = free.sizes;
          layout = free.layout;
          coalesced =
              put_back-Coalesced h.start b s ys zs (h.start + h.size) below above used.large
                ih.coalesced;
          in_memory = ih.in_memory;
        },
        λ c t clear apart some_bytes.
            let ne : list_node c ≢ list_node b = ground (arith, used.large, apart.0) in
            let off =
              Clear-NotIn c t h.start (ys ++ zs) (h.start + h.size) some_bytes clear ih.layout in
            let (n, k) = NotIn-split (list_node c) (nodes ys) (nodes zs) (rw nodes-append at off) in
            let out : NotIn (list_node c) (nodes (ys ++ (b, s) ∷ zs)) =
              rw nodes-append
                (NotIn-append (list_node c) (nodes ys) (list_node b ∷ nodes zs) n (ne, k)) in
            let once = (same (list_node c) (ne, off)).0 in
            let twice = (same' (list_node c) out).0 in
            (
              twice ∙ once ∙ self_link-next m (list_node b) (list_node c) ne,
              ap (λ g. g c) magic ∙ magic_kept c ne,
            ),
      )

-- Freeing a block in use puts it back among the free blocks.
pub kmem_free-put_back :
    (fuel : ℕ) (h : Heap) (m : Memory) (b s : ℕ) (bs : List Block)
    → IsHeap h m bs
    → IsUsed h m bs b s
    → length bs ≤ fuel
    → Frees h m b s bs (put_back (b, s) bs) (kmem_free fuel h m (b + used_header))
kmem_free-put_back fuel h m b s bs ih used enough =
    let (ys, zs, e, below, above) =
      Clear-split b s h.start bs (h.start + h.size) ih.layout used.clear used.starts used.ends in
    rw e (frees fuel h m b s ys zs (rw e at ih) (rw e at used) below above (rw e at enough))

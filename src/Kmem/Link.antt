-- ===== src/Kmem/Link.antt =====
-- The place of a freed block in the free list: kmem_free links it in before it merges.
use otrix.Prelude.{
  ℕ, zero, suc, ◌+◌, ◌≤◌, ◌<◌, ◌≡◌, ◌⊎◌, inl, inr, refl, sym, ap, subst, ◌∙◌, List, [], ◌∷◌, ◌++◌,
  append_assoc, arith, length, true, false, ltb, ◌==◌, ne→==, if◌then◌else◌, Outcome, returns,
}
use otrix.IntrusiveList.{Ptr, null, Links, link_after, link_last}
use otrix.IntrusiveList.Chain.{Chain, IsList}
use otrix.IntrusiveList.Distinct.{NotIn}
use otrix.IntrusiveList.Frame.{SameOutside, link_last-SameOutside}
use otrix.IntrusiveList.Insert.{insert-IsList}
use otrix.IntrusiveList.PushBack.{push_back-append}
use otrix.Kmem.{Memory, Heap, list_node, find_prev, link_free, used_header, set_links}
use otrix.Kmem.Blocks.{Block, nodes, Layout, nodes-append, Layout-hi}
use otrix.Kmem.Replace.{link_after-SameOutside}
use otrix.Kmem.Represents.{free_block-list_node}

-- The node behind which the search of kmem_free stops.
abbrev last_below : ℕ → Ptr → List Block → Ptr
last_below p prev [] = prev
last_below p prev ((a, s) ∷ bs) = if ltb p a then prev else last_below p (list_node a) bs

find_prev-last_below :
    (fuel : ℕ) (l : Links) (head p prev a s : ℕ) (bs : List Block)
    → Chain l (list_node a) (nodes bs) head
    → NotIn head (nodes bs)
    → length bs < fuel
    → find_prev fuel l head p prev (list_node a) ≡ returns (last_below p prev ((a, s) ∷ bs))
unfolding find_prev
find_prev-last_below zero l head p prev a s bs c out f = absurd (omega arith)
find_prev-last_below (suc fuel) l head p prev a s [] c out f =
    ground (arith, free_block-list_node a)
find_prev-last_below (suc fuel) l head p prev a s ((b, t) ∷ bs) c out f =
    let rest = find_prev-last_below fuel l head p (list_node a) b t bs c.2 out.1 (omega arith) in
    let on : (list_node b == head) ≡ false = ne→== (λ e. out.0 (sym e)) in
    rw (free_block-list_node, c.0, on, rest) (ground arith)

last_below-above :
    (p prev lo : ℕ) (zs : List Block) (hi : ℕ)
    → Layout lo zs hi
    → p < lo
    → last_below p prev zs ≡ prev
last_below-above p prev lo [] hi l h = refl
last_below-above p prev lo ((a, s) ∷ zs) hi l h = ground arith

-- The search stops behind the last block below.
last_below-snoc :
    (p prev lo : ℕ) (ws : List Block) (q t b : ℕ) (zs : List Block) (up hi : ℕ)
    → Layout lo (ws ++ (q, t) ∷ []) b
    → b ≤ p
    → Layout up zs hi
    → p < up
    → last_below p prev (ws ++ (q, t) ∷ zs) ≡ list_node q
last_below-snoc p prev lo [] q t b zs up hi l le k h =
    let below : ltb p q ≡ false = ground arith in
    rw below (last_below-above p (list_node q) up zs hi k h)
last_below-snoc p prev lo ((a, s) ∷ ws) q t b zs up hi l le k h =
    let under = Layout-hi (a + s) (ws ++ (q, t) ∷ []) b l.2 in
    let below : ltb p a ≡ false = ground arith in
    rw below (last_below-snoc p (list_node a) (a + s) ws q t b zs up hi l.2 le k h)

pub snoc_cases :
    (ys : List Block)
    → (ys ≡ []) ⊎ ((ws : List Block) × (q : ℕ) × (t : ℕ) × (ys ≡ ws ++ (q, t) ∷ []))
snoc_cases [] = inl refl
snoc_cases ((a, s) ∷ ys) = elim (snoc_cases ys) [
  | inl e ↦ inr ([], a, s, cc)
  | inr (ws, q, t, e) ↦ inr ((a, s) ∷ ws, q, t, cc)
]

module _ (fuel : ℕ) (h : Heap) (m : Memory) (b s : ℕ)
    (alone : IsList m.links (list_node b) (list_node b ∷ [])) where
  -- The block at `b` is linked between `ys` and `zs`.
  abbrev pub LinkedIn : List Block → List Block → Outcome (Heap × Memory) → Type 0
  LinkedIn ys zs r =
      (f : Ptr) × (l : Links) × (r ≡ returns (record h { free_list = f }, set_links m l))
      × IsList l f (nodes (ys ++ (b, s) ∷ zs))
      × SameOutside (list_node b ∷ nodes (ys ++ zs)) m.links l

  link_first :
      IsList m.links h.free_list []
      → LinkedIn [] [] (link_free fuel h m (b + used_header) (list_node b))
  unfolding link_free
  link_first is =
      let empty : (h.free_list == null) ≡ true = ground arith in
      (list_node b, m.links, rw empty refl, alone, λ a out. (refl, refl))

  module _ (a u : ℕ) (bs : List Block) (is : IsList m.links h.free_list (nodes ((a, u) ∷ bs)))
      (enough : length bs < fuel) where
    searched :
        find_prev fuel m.links h.free_list (b + used_header) null h.free_list
        ≡ returns (last_below (b + used_header) null ((a, u) ∷ bs))
    searched =
        let head : h.free_list ≡ list_node a = is.0 in
        subst
          (λ p.
            find_prev fuel m.links p (b + used_header) null p
            ≡ returns (last_below (b + used_header) null ((a, u) ∷ bs)))
          (sym head)
          (find_prev-last_below fuel m.links (list_node a) (b + used_header) null a u bs is.1 is.2.0
            enough)

    some_block : (h.free_list == null) ≡ false
    some_block = ground (arith, is.0)

    link_front :
        b + used_header < a
        → NotIn (list_node b) (nodes ((a, u) ∷ bs))
        → LinkedIn [] ((a, u) ∷ bs) (link_free fuel h m (b + used_header) (list_node b))
    unfolding link_free
    link_front below out =
        let (calls, front, back) =
          push_back-append m.links h.free_list (list_node b) (list_node a) (nodes bs) is
            (λ e. absurd (omega arith)) out in
        let stops : last_below (b + used_header) null ((a, u) ∷ bs) ≡ null = ground arith in
        (
          list_node b,
          link_last m.links h.free_list (m.links.prev h.free_list) (list_node b),
          rw (some_block, searched, stops) refl,
          back,
          link_last-SameOutside m.links h.free_list (list_node b) (list_node a) (nodes bs) is,
        )

    link_behind :
        (ws : List Block) (q t : ℕ) (zs : List Block)
        → (a, u) ∷ bs ≡ ws ++ (q, t) ∷ zs
        → last_below (b + used_header) null (ws ++ (q, t) ∷ zs) ≡ list_node q
        → NotIn (list_node b) (nodes (ws ++ (q, t) ∷ zs))
        → LinkedIn (ws ++ (q, t) ∷ []) zs (link_free fuel h m (b + used_header) (list_node b))
    unfolding link_free
    link_behind ws q t zs cut stops out =
        let at : IsList m.links h.free_list (nodes ws ++ list_node q ∷ nodes zs) =
          rw nodes-append at (subst (λ cs. IsList m.links h.free_list (nodes cs)) cut is) in
        let fresh : NotIn (list_node b) (nodes ws ++ list_node q ∷ nodes zs) =
          rw nodes-append at out in
        let (calls, list) =
          insert-IsList m.links h.free_list (list_node b) (list_node q) (nodes ws) (nodes zs) at
            fresh (λ e. absurd (omega arith)) in
        let place : find_prev fuel m.links h.free_list (b + used_header) null h.free_list
            ≡ returns (list_node q) =
          searched
          ∙ ap (λ cs. returns (last_below (b + used_header) null cs)) cut
          ∙ ap returns stops in
        let node : (list_node q == null) ≡ false = ground arith in
        let same =
          link_after-SameOutside m.links h.free_list (list_node q) (list_node b) (nodes ws)
            (nodes zs) at in
        (
          h.free_list,
          link_after m.links (list_node q) (list_node b),
          rw (some_block, place, node, calls) refl,
          rw (append_assoc, nodes-append) list,
          rw (append_assoc, nodes-append) same,
        )

  -- Blocks below `b`, then `b`, then the blocks above it.
  pub link_free-LinkedIn :
      (lo : ℕ) (ys zs : List Block) (hi : ℕ)
      → IsList m.links h.free_list (nodes (ys ++ zs))
      → NotIn (list_node b) (nodes (ys ++ zs))
      → Layout lo ys b
      → Layout (b + s) zs hi
      → used_header < s
      → length (ys ++ zs) ≤ fuel
      → LinkedIn ys zs (link_free fuel h m (b + used_header) (list_node b))
  link_free-LinkedIn lo ys zs hi is out below above big enough = elim (snoc_cases ys) [
    | inl e ↦ rw e (front zs (rw e at is) (rw e at out) above (rw e at enough))
    | inr (ws, q, t, e) ↦
        let flat : ys ++ zs ≡ ws ++ (q, t) ∷ zs =
          ap (λ cs. cs ++ zs) e ∙ append_assoc ws ((q, t) ∷ []) zs in
        rw e (behind ws q t (rw flat at is) (rw flat at out) (rw e at below) (rw flat at enough))
  ]
    where
      front :
          (zs : List Block)
          → IsList m.links h.free_list (nodes zs)
          → NotIn (list_node b) (nodes zs)
          → Layout (b + s) zs hi
          → length zs ≤ fuel
          → LinkedIn [] zs (link_free fuel h m (b + used_header) (list_node b))
      front [] is out above enough = link_first is
      front ((a, u) ∷ bs) is out above enough = link_front a u bs is (omega arith) (omega arith) out

      behind :
          (ws : List Block) (q t : ℕ)
          → IsList m.links h.free_list (nodes (ws ++ (q, t) ∷ zs))
          → NotIn (list_node b) (nodes (ws ++ (q, t) ∷ zs))
          → Layout lo (ws ++ (q, t) ∷ []) b
          → length (ws ++ (q, t) ∷ zs) ≤ fuel
          → LinkedIn (ws ++ (q, t) ∷ []) zs (link_free fuel h m (b + used_header) (list_node b))
      behind [] q t is out below enough =
          link_behind q t zs is (omega arith) [] q t zs refl
            (last_below-snoc (b + used_header) null lo [] q t b zs (b + s) hi below (omega arith)
              above (omega arith))
            out
      behind ((w, v) ∷ ws) q t is out below enough =
          link_behind w v (ws ++ (q, t) ∷ zs) is (omega arith) ((w, v) ∷ ws) q t zs refl
            (last_below-snoc (b + used_header) null lo ((w, v) ∷ ws) q t b zs (b + s) hi below
              (omega arith) above (omega arith))
            out

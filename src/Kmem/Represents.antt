-- ===== src/Kmem/Represents.antt =====
-- The memory of a heap whose free list is a given sequence of blocks.
use otrix.Prelude.{ℕ, ◌+◌, ◌^◌, ◌≤◌, ◌<◌, ◌≡◌, refl, List, [], ◌∷◌, ◌++◌, arith, true, returns}
use otrix.IntrusiveList.{Ptr, update, self_link}
use otrix.IntrusiveList.Chain.{IsList}
use otrix.IntrusiveList.Distinct.{NotIn}
use otrix.IntrusiveList.Erase.{contains}
use otrix.Kmem.{Memory, Heap, list_node, free_block, kmem_init, min_free_block_size, block_magic}
use otrix.Kmem.Blocks.{Block, nodes, Layout, Coalesced}

abbrev pub Sizes : (Ptr → ℕ) → List Block → Type 0
Sizes f [] = Unit {0}
Sizes f ((a, s) ∷ bs) = (f a ≡ s) × Sizes f bs

-- The free list goes through the blocks in address order, within the heap, and no two touch.
pub record IsHeap (h : Heap) (m : Memory) (bs : List Block) : Type 0 where
  pub list : IsList m.links h.free_list (nodes bs)
  pub sizes : Sizes m.size bs
  pub layout : Layout h.start bs (h.start + h.size)
  pub coalesced : Coalesced bs
  pub in_memory : h.start + h.size < 2 ^ 64

pub free_block-list_node : (a : Ptr) → free_block (list_node a) ≡ a
free_block-list_node a = omega arith

pub Sizes-update :
    (f : Ptr → ℕ) (x v : ℕ) (bs : List Block)
    → Sizes f bs
    → NotIn (list_node x) (nodes bs)
    → Sizes (update f x v) bs
Sizes-update f x v [] h out = tt
Sizes-update f x v ((a, s) ∷ bs) h out = (ground arith, Sizes-update f x v bs h.1 out.1)

pub Sizes-append : (f : Ptr → ℕ) (bs cs : List Block) → Sizes f bs → Sizes f cs → Sizes f (bs ++ cs)
Sizes-append f [] cs x y = y
Sizes-append f ((a, s) ∷ bs) cs x y = (x.0, Sizes-append f bs cs x.1 y)

pub Sizes-split : (f : Ptr → ℕ) (bs cs : List Block) → Sizes f (bs ++ cs) → Sizes f bs × Sizes f cs
Sizes-split f [] cs h = (tt, h)
Sizes-split f ((a, s) ∷ bs) cs h = let (x, y) = Sizes-split f bs cs h.1 in ((h.0, x), y)

pub contains-middle : (p : Ptr) (ys zs : List Ptr) → contains p (ys ++ p ∷ zs) ≡ true
contains-middle p [] zs = ground arith
contains-middle p (y ∷ ys) zs = ground (arith, contains-middle p ys zs)

-- `kmem_init` makes a heap with one free block that is all of it.
pub kmem_init-IsHeap :
    (m : Memory) (start size : ℕ)
    → min_free_block_size ≤ size
    → start + size < 2 ^ 64
    → (h : Heap) × (m' : Memory) × (kmem_init m start size ≡ returns (h, m'))
      × IsHeap h m' ((start, size) ∷ [])
unfolding kmem_init
kmem_init-IsHeap m start size room fits = (
  record { start = start; size = size; free_list = list_node start },
  record {
    magic = update m.magic start block_magic;
    links = self_link m.links (list_node start);
    size = update m.size start size;
  },
  ground arith,
  record {
    list = (refl, (ground arith, ground arith), (tt, tt), ((λ e. absurd (omega arith)), tt));
    sizes = (ground arith, tt);
    layout = (omega arith, room, omega arith);
    coalesced = (tt, tt);
    in_memory = fits;
  },
)

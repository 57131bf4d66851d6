-- ===== src/Kmem/Live.antt =====
-- The heap with the blocks that are in use: kmem_alloc and kmem_free as its clients see them.
use otrix.Prelude.{
  ℕ, ◌+◌, ◌≤◌, ◌<◌, ◌≡◌, ◌⊎◌, refl, List, [], ◌∷◌, ◌++◌, arith, length, Option, none, some, Outcome,
  returns,
}
use otrix.IntrusiveList.{Ptr, null}
use otrix.Kmem.{Memory, Heap, kmem_alloc, kmem_free, block_size, used_header}
use otrix.Kmem.Alloc.{Allocates, kmem_alloc-first_fit}
use otrix.Kmem.Blocks.{Block, Clear, first_fit, put_back}
use otrix.Kmem.FirstFit.{first_fit-Taken}
use otrix.Kmem.Free.{IsUsed, kmem_free-put_back}
use otrix.Kmem.PutBack.{put_back-Clear}
use otrix.Kmem.TakeBlock.{Kept}
use otrix.Kmem.Represents.{IsHeap}

-- Blocks in use, each in the heap with its header, clear of the free blocks and of one another.
abbrev pub InUse : Heap → Memory → List Block → List Block → Type 0
InUse h m bs [] = Unit {0}
InUse h m bs ((b, s) ∷ us) = IsUsed h m bs b s × Clear b s us × InUse h m bs us

-- The free blocks are `bs`, and the blocks in use are `us`.
pub record IsValid (h : Heap) (m : Memory) (bs us : List Block) : Type 0 where
  pub heap : IsHeap h m bs
  pub used : InUse h m bs us

-- What a call of kmem_alloc that needs `n` bytes gives, when first fit gives `o`: NULL and no change,
-- or one more block in use.
abbrev pub Gives :
    Heap
    → Memory
    → ℕ
    → List Block
    → Option (Ptr × List Block)
    → Outcome (Ptr × Heap × Memory)
    → Type 0
Gives h m n us none r = r ≡ returns (null, h, m)
Gives h m n us (some (a, left)) r =
    (f : Ptr) × (m' : Memory) × (r ≡ returns (a + used_header, record h { free_list = f }, m'))
    × IsValid (record h { free_list = f }) m' left ((a, n) ∷ us)

module _ (h : Heap) (f : Ptr) (m m' : Memory) (bs left : List Block) where
  -- A block stays in use when its header is kept, and the free blocks stay clear of it.
  InUse-kept :
      (us : List Block)
      → ((b t : ℕ) → Clear b t bs → 0 < t → Kept m m' b)
      → ((b t : ℕ) → Clear b t bs → Clear b t left)
      → InUse h m bs us
      → InUse (record h { free_list = f }) m' left us
  InUse-kept [] kept clear used = tt
  InUse-kept ((b, s) ∷ us) kept clear (u, c, rest) =
      let k = kept b s u.clear (omega (arith, u.large)) in
      (
        record {
          starts = u.starts;
          ends = u.ends;
          large = u.large;
          bytes = ground (arith, k.0, u.bytes);
          magic = ground (arith, k.1, u.magic);
          clear = clear b s u.clear;
        },
        c,
        InUse-kept us kept clear rest,
      )

InUse-Clear :
    (h : Heap) (m : Memory) (a n : ℕ) (bs us : List Block)
    → ((b t : ℕ) → Clear b t bs → (b + t ≤ a) ⊎ (a + n ≤ b))
    → InUse h m bs us
    → Clear a n us
InUse-Clear h m a n bs [] apart used = tt
InUse-Clear h m a n bs ((b, s) ∷ us) apart (u, c, rest) =
    (ground (arith, apart b s u.clear), InUse-Clear h m a n bs us apart rest)

Gives-Allocates :
    (h : Heap) (m : Memory) (size : ℕ) (bs us : List Block) (o : Option (Ptr × List Block))
    (r : Outcome (Ptr × Heap × Memory))
    → IsValid h m bs us
    → first_fit (block_size size) bs ≡ o
    → Allocates h m (block_size size) bs o r
    → Gives h m (block_size size) us o r
Gives-Allocates h m size bs us none r v e a = a
Gives-Allocates h m size bs us (some (a, left)) r v e (f, m', calls, heap, bytes, magic, kept) =
    let t =
      first_fit-Taken (block_size size) h.start bs (h.start + h.size) a left v.heap.layout e in
    (
      f,
      m',
      calls,
      record {
        heap = heap;
        used = (
          record {
            starts = t.starts;
            ends = t.ends;
            large = ground arith;
            bytes = bytes;
            magic = magic;
            clear = t.apart;
          },
          InUse-Clear h m a (block_size size) bs us t.from_free v.used,
          InUse-kept h f m m' bs left us kept t.others v.used,
        );
      },
    )

-- On a valid heap, with fuel for its free blocks, kmem_alloc is first fit over them for the bytes asked
-- for and a header. When none fits it returns NULL and changes nothing; otherwise the heap is valid with
-- the block returned, 16 bytes before the pointer, in use beside the others: it lies in the heap and
-- overlaps no free block and no other block in use, and those keep their headers.
pub kmem_alloc-IsValid :
    (fuel : ℕ) (h : Heap) (m : Memory) (size : ℕ) (bs us : List Block)
    → IsValid h m bs us
    → length bs ≤ fuel
    → Gives h m (block_size size) us (first_fit (block_size size) bs) (kmem_alloc fuel h m size)
kmem_alloc-IsValid fuel h m size bs us v enough =
    Gives-Allocates h m size bs us (first_fit (block_size size) bs) (kmem_alloc fuel h m size) v
      refl (kmem_alloc-first_fit fuel h m size bs v.heap enough)

module _ (h : Heap) (f : Ptr) (m m' : Memory) (bs : List Block) (b s : ℕ) where
  InUse-freed :
      (us : List Block)
      → ((c t : ℕ) → Clear c t bs → Clear c t ((b, s) ∷ []) → 0 < t → Kept m m' c)
      → Clear b s us
      → InUse h m bs us
      → InUse (record h { free_list = f }) m' (put_back (b, s) bs) us
  InUse-freed [] kept clear used = tt
  InUse-freed ((c, t) ∷ us) kept clear (u, apart, rest) =
      let pos : 0 < t = omega (arith, u.large) in
      let off : (c + t ≤ b) ⊎ (b + s ≤ c) = ground (arith, clear.0) in
      let k = kept c t u.clear (off, tt) pos in
      (
        record {
          starts = u.starts;
          ends = u.ends;
          large = u.large;
          bytes = ground (arith, k.0, u.bytes);
          magic = ground (arith, k.1, u.magic);
          clear = put_back-Clear c t b s bs pos u.clear off;
        },
        apart,
        InUse-freed us kept clear.1 rest,
      )

-- A block in use is clear of all the others, and they are in use without it.
InUse-split :
    (h : Heap) (m : Memory) (bs us : List Block) (b s : ℕ) (vs : List Block)
    → InUse h m bs (us ++ (b, s) ∷ vs)
    → IsUsed h m bs b s × InUse h m bs (us ++ vs) × Clear b s (us ++ vs)
InUse-split h m bs [] b s vs used = (used.0, used.2, used.1)
InUse-split h m bs ((c, t) ∷ us) b s vs (u, apart, rest) =
    let (this, others, clear) = InUse-split h m bs us b s vs rest in
    (
      this,
      (u, Clear-drop c t us b s vs apart, others),
      (ground (arith, Clear-at c t us b s vs apart), clear),
    )
  where
    Clear-drop :
        (c t : ℕ) (us : List Block) (b s : ℕ) (vs : List Block)
        → Clear c t (us ++ (b, s) ∷ vs)
        → Clear c t (us ++ vs)
    Clear-drop c t [] b s vs k = k.1
    Clear-drop c t ((d, u) ∷ us) b s vs k = (k.0, Clear-drop c t us b s vs k.1)

    Clear-at :
        (c t : ℕ) (us : List Block) (b s : ℕ) (vs : List Block)
        → Clear c t (us ++ (b, s) ∷ vs)
        → (c + t ≤ b) ⊎ (b + s ≤ c)
    Clear-at c t [] b s vs k = k.0
    Clear-at c t ((d, u) ∷ us) b s vs k = Clear-at c t us b s vs k.1

-- On a valid heap, with fuel for its free blocks, kmem_free of any block in use returns, and leaves a
-- valid heap: the block is back among the free ones, in its place and merged with the neighbours that it
-- touches, and the other blocks stay in use, with their headers.
pub kmem_free-IsValid :
    (fuel : ℕ) (h : Heap) (m : Memory) (bs us : List Block) (b s : ℕ) (vs : List Block)
    → IsValid h m bs (us ++ (b, s) ∷ vs)
    → length bs ≤ fuel
    → (f : Ptr) × (m' : Memory) × (kmem_free fuel h m (b + used_header)
        ≡ returns (record h { free_list = f }, m'))
      × IsValid (record h { free_list = f }) m' (put_back (b, s) bs) (us ++ vs)
kmem_free-IsValid fuel h m bs us b s vs v enough =
    let (this, others, clear) = InUse-split h m bs us b s vs v.used in
    let (f, m', calls, heap, kept) = kmem_free-put_back fuel h m b s bs v.heap this enough in
    (
      f,
      m',
      calls,
      record { heap = heap; used = InUse-freed h f m m' bs b s (us ++ vs) kept clear others },
    )

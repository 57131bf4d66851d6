-- ===== src/Kmem/Blocks.antt =====
-- The free list of the heap as a sequence of blocks, without memory: what kmem_alloc and kmem_free
-- do to it.
use otrix.Prelude.{
  ℕ, ◌+◌, ◌-◌, ◌≤◌, ◌<◌, ◌≡◌, ◌⊎◌, inl, inr, refl, List, [], ◌∷◌, ◌++◌, arith, Option, none, some,
  ltb, leb, ◌==◌, if◌then◌else◌,
}
use otrix.IntrusiveList.{Ptr, null}
use otrix.IntrusiveList.Distinct.{NotIn, Distinct}
use otrix.Kmem.{list_node, min_free_block_size}

-- Where a block starts, and its bytes.
abbrev pub Block : Type 0
Block = Ptr × ℕ

abbrev pub nodes : List Block → List Ptr
nodes [] = []
nodes ((a, s) ∷ bs) = list_node a ∷ nodes bs

-- From `lo` to `hi`, blocks in address order that do not overlap and are large enough.
abbrev pub Layout : ℕ → List Block → ℕ → Type 0
Layout lo [] hi = lo ≤ hi
Layout lo ((a, s) ∷ bs) hi = (lo ≤ a) × (min_free_block_size ≤ s) × Layout (a + s) bs hi

-- The block from `a` of `s` bytes overlaps none of them.
abbrev pub Clear : Ptr → ℕ → List Block → Type 0
Clear a s [] = Unit {0}
Clear a s ((b, t) ∷ bs) = ((a + s ≤ b) ⊎ (b + t ≤ a)) × Clear a s bs

-- No block ends where the next one starts.
abbrev pub Beyond : ℕ → List Block → Type 0
Beyond e [] = Unit {0}
Beyond e ((a, s) ∷ bs) = e < a

abbrev pub Coalesced : List Block → Type 0
Coalesced [] = Unit {0}
Coalesced ((a, s) ∷ bs) = Beyond (a + s) bs × Coalesced bs

-- What is left of a block when `n` bytes are taken from its front: a rest too small for a block is
-- given along.
abbrev pub remainder : ℕ → Block → List Block
remainder n (a, s) = if ltb (s - n) min_free_block_size then [] else (a + n, s - n) ∷ []

abbrev pub keep_block : Block → Option (Ptr × List Block) → Option (Ptr × List Block)
keep_block b none = none
keep_block b (some (a, bs)) = some (a, b ∷ bs)

-- First fit: the first block of at least `n` bytes.
abbrev pub first_fit : ℕ → List Block → Option (Ptr × List Block)
first_fit n [] = none
first_fit n ((a, s) ∷ bs) =
    if leb n s then some (a, remainder n (a, s) ++ bs) else keep_block (a, s) (first_fit n bs)

abbrev pub join : Block → List Block → List Block
join (a, s) [] = (a, s) ∷ []
join (a, s) ((b, t) ∷ bs) = if (a + s) == b then (a, s + t) ∷ bs else (a, s) ∷ (b, t) ∷ bs

-- A freed block in its place, merged with the neighbours that it touches.
abbrev pub put_back : Block → List Block → List Block
put_back (a, s) [] = (a, s) ∷ []
put_back (a, s) ((b, t) ∷ bs) =
    if (b + t) == a
    then join (b, t + s) bs
    else (if ltb a b then join (a, s) ((b, t) ∷ bs) else (b, t) ∷ put_back (a, s) bs)

pub Layout-weaken :
    (lo lo' : ℕ) (bs : List Block) (hi : ℕ) → Layout lo bs hi → lo' ≤ lo → Layout lo' bs hi
Layout-weaken lo lo' [] hi l h = omega arith
Layout-weaken lo lo' ((a, s) ∷ bs) hi l h = (omega arith, l.1, l.2)

pub Layout-NotIn :
    (x lo : ℕ) (bs : List Block) (hi : ℕ)
    → Layout lo bs hi
    → x < lo
    → NotIn (list_node x) (nodes bs)
Layout-NotIn x lo [] hi l h = tt
Layout-NotIn x lo ((a, s) ∷ bs) hi l h =
    (omega arith, Layout-NotIn x (a + s) bs hi l.2 (omega arith))

pub Layout-hi : (lo : ℕ) (bs : List Block) (hi : ℕ) → Layout lo bs hi → lo ≤ hi
Layout-hi lo [] hi l = l
Layout-hi lo ((a, s) ∷ bs) hi l = omega (arith, Layout-hi (a + s) bs hi l.2)

pub Layout-NotIn_above :
    (x lo : ℕ) (bs : List Block) (hi : ℕ)
    → Layout lo bs hi
    → hi ≤ x
    → NotIn (list_node x) (nodes bs)
Layout-NotIn_above x lo [] hi l h = tt
Layout-NotIn_above x lo ((a, s) ∷ bs) hi l h = (
  (λ e. absurd (omega (arith, Layout-hi (a + s) bs hi l.2))),
  Layout-NotIn_above x (a + s) bs hi l.2 h,
)

pub Layout-Distinct : (lo : ℕ) (bs : List Block) (hi : ℕ) → Layout lo bs hi → Distinct (nodes bs)
Layout-Distinct lo [] hi l = tt
Layout-Distinct lo ((a, s) ∷ bs) hi l =
    (Layout-NotIn a (a + s) bs hi l.2 (omega arith), Layout-Distinct (a + s) bs hi l.2)

pub nodes-NotIn_null : (bs : List Block) → NotIn null (nodes bs)
nodes-NotIn_null [] = tt
nodes-NotIn_null ((a, s) ∷ bs) = ((λ e. absurd (omega arith)), nodes-NotIn_null bs)

pub nodes-append : (bs cs : List Block) → nodes (bs ++ cs) ≡ nodes bs ++ nodes cs
nodes-append [] cs = refl
nodes-append ((a, s) ∷ bs) cs = cc (nodes-append bs cs)

pub Layout-append :
    (lo : ℕ) (bs : List Block) (mid : ℕ) (cs : List Block) (hi : ℕ)
    → Layout lo bs mid
    → Layout mid cs hi
    → Layout lo (bs ++ cs) hi
Layout-append lo [] mid cs hi l r = Layout-weaken mid lo cs hi r l
Layout-append lo ((a, s) ∷ bs) mid cs hi l r = (l.0, l.1, Layout-append (a + s) bs mid cs hi l.2 r)

-- A layout is cut at any of its blocks.
pub Layout-split :
    (lo : ℕ) (bs : List Block) (a s : ℕ) (cs : List Block) (hi : ℕ)
    → Layout lo (bs ++ (a, s) ∷ cs) hi
    → Layout lo bs a × (min_free_block_size ≤ s) × Layout (a + s) cs hi
Layout-split lo [] a s cs hi l = (l.0, l.1, l.2)
Layout-split lo ((b, t) ∷ bs) a s cs hi l =
    let (x, y, z) = Layout-split (b + t) bs a s cs hi l.2 in ((l.0, l.1, x), y, z)

-- A block that overlaps none lies between the blocks below it and those above it.
pub Clear-split :
    (a s lo : ℕ) (bs : List Block) (hi : ℕ)
    → Layout lo bs hi
    → Clear a s bs
    → lo ≤ a
    → a + s ≤ hi
    → (ys zs : List Block) × (bs ≡ ys ++ zs) × Layout lo ys a × Layout (a + s) zs hi
Clear-split a s lo [] hi l c h k = ([], [], refl, h, k)
Clear-split a s lo ((b, t) ∷ bs) hi l c h k = elim c.0 [
  | inl above ↦ ([], (b, t) ∷ bs, refl, h, (above, l.1, l.2))
  | inr below ↦
      let (ys, zs, e, x, y) = Clear-split a s (b + t) bs hi l.2 c.1 below k in
      ((b, t) ∷ ys, zs, cc, (l.0, l.1, x), y)
]

-- A block below a layout, or above one, overlaps none of its blocks.
pub Clear-below :
    (a s lo : ℕ) (bs : List Block) (hi : ℕ) → Layout lo bs hi → a + s ≤ lo → Clear a s bs
Clear-below a s lo [] hi l h = tt
Clear-below a s lo ((b, t) ∷ bs) hi l h =
    (inl (omega arith), Clear-below a s (b + t) bs hi l.2 (omega arith))

pub Clear-above : (a s lo : ℕ) (bs : List Block) (hi : ℕ) → Layout lo bs hi → hi ≤ a → Clear a s bs
Clear-above a s lo [] hi l h = tt
Clear-above a s lo ((b, t) ∷ bs) hi l h =
    (inr (omega (arith, Layout-hi (b + t) bs hi l.2)), Clear-above a s (b + t) bs hi l.2 h)

pub Clear-append :
    (a s : ℕ) (bs cs : List Block) → Clear a s bs → Clear a s cs → Clear a s (bs ++ cs)
Clear-append a s [] cs x y = y
Clear-append a s ((b, t) ∷ bs) cs x y = (x.0, Clear-append a s bs cs x.1 y)

-- A block that is clear of the others is none of them.
pub Clear-NotIn :
    (a s lo : ℕ) (bs : List Block) (hi : ℕ)
    → 0 < s
    → Clear a s bs
    → Layout lo bs hi
    → NotIn (list_node a) (nodes bs)
Clear-NotIn a s lo [] hi big c l = tt
Clear-NotIn a s lo ((b, t) ∷ bs) hi big c l =
    (ground arith, Clear-NotIn a s (b + t) bs hi big c.1 l.2)

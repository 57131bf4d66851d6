-- ===== src/Kmem/FirstFit.antt =====
-- First fit on the sequence of free blocks: the block that is taken, and what becomes of the others.
use otrix.Prelude.{
  ℕ, ◌+◌, ◌-◌, ◌≤◌, ◌<◌, ◌≡◌, ◌⊎◌, inl, inr, refl, subst, List, [], ◌∷◌, ◌++◌, arith, false, none,
  some, ltb, leb, if◌then◌else◌, Bool-cases,
}
use otrix.IntrusiveList.{Ptr}
use otrix.IntrusiveList.Distinct.{NotIn}
use otrix.Kmem.{list_node, min_free_block_size}
use otrix.Kmem.Blocks.{
  Block, nodes, Layout, Clear, Beyond, Coalesced, remainder, first_fit, Layout-split, Layout-append,
  Layout-hi, Layout-weaken, Clear-below, Clear-above, Clear-append, Layout-NotIn,
  Layout-NotIn_above,
}

-- The node at which the search stops: that of the first block that fits, or else the head.
abbrev pub fit_node : ℕ → Ptr → List Block → Ptr
fit_node n head [] = head
fit_node n head ((a, s) ∷ bs) = if leb n s then list_node a else fit_node n head bs

abbrev pub AllBelow : ℕ → List Block → Type 0
AllBelow n [] = Unit {0}
AllBelow n ((a, s) ∷ bs) = (s < n) × AllBelow n bs

-- The blocks around the one that is taken.
pub record Fits (n : ℕ) (head : Ptr) (bs : List Block) : Type 0 where
  pub before : List Block
  pub at : Ptr
  pub bytes : ℕ
  pub behind : List Block
  pub whole : bs ≡ before ++ (at, bytes) ∷ behind
  pub enough : n ≤ bytes
  pub below : AllBelow n before
  pub taken : first_fit n bs ≡ some (at, before ++ (remainder n (at, bytes) ++ behind))
  pub found : fit_node n head bs ≡ list_node at

abbrev NoneFits : ℕ → Ptr → List Block → Type 0
NoneFits n head bs = (first_fit n bs ≡ none) × AllBelow n bs × (fit_node n head bs ≡ head)

Fits-cons :
    (n : ℕ) (head a s : ℕ) (bs : List Block)
    → leb n s ≡ false
    → Fits n head bs
    → Fits n head ((a, s) ∷ bs)
Fits-cons n head a s bs short f = record {
  before = (a, s) ∷ f.before;
  at = f.at;
  bytes = f.bytes;
  behind = f.behind;
  whole = cc (f.whole);
  enough = f.enough;
  below = (ground arith, f.below);
  taken = rw (short, f.taken) refl;
  found = rw (short, f.found) refl;
}

pub first_fit_cases :
    (n : ℕ) (head : Ptr) (bs : List Block)
    → ((first_fit n bs ≡ none) × AllBelow n bs × (fit_node n head bs ≡ head)) ⊎ Fits n head bs
first_fit_cases n head [] = inl (refl, tt, refl)
first_fit_cases n head ((a, s) ∷ bs) = elim (Bool-cases (leb n s)) [
  | inl fits ↦ inr record {
    before = [];
    at = a;
    bytes = s;
    behind = bs;
    whole = refl;
    enough = ground arith;
    below = tt;
    taken = rw fits refl;
    found = rw fits refl;
  }
  | inr short ↦ elim (first_fit_cases n head bs) [
    | inl (no_fit, below, stays) ↦
        inl (rw (short, no_fit) refl, (ground arith, below), rw (short, stays) refl)
    | inr f ↦ inr (Fits-cons n head a s bs short f)
  ]
]

Beyond-weaken : (e e' : ℕ) (bs : List Block) → Beyond e bs → e' ≤ e → Beyond e' bs
Beyond-weaken e e' [] b h = tt
Beyond-weaken e e' ((a, s) ∷ bs) b h = omega arith

module _ (n a s : ℕ) (zs : List Block) (hi : ℕ) (le : n ≤ s) where
  remainder-Layout : Layout (a + s) zs hi → Layout a (remainder n (a, s) ++ zs) hi
  remainder-Layout l = elim (Bool-cases (ltb (s - n) min_free_block_size)) [
    | inl small ↦ rw small (Layout-weaken (a + s) a zs hi l (omega arith))
    | inr large ↦
        rw large
          (omega arith, ground arith, Layout-weaken (a + s) (a + n + (s - n)) zs hi l (omega arith))
  ]

  -- The blocks stay in order, and apart.
  pub taken-Layout :
      (lo : ℕ) (ys : List Block)
      → Layout lo (ys ++ (a, s) ∷ zs) hi
      → Layout lo (ys ++ (remainder n (a, s) ++ zs)) hi
  taken-Layout lo ys l =
      let (x, y, z) = Layout-split lo ys a s zs hi l in
      Layout-append lo ys a (remainder n (a, s) ++ zs) hi x (remainder-Layout z)

  remainder-Beyond : (e : ℕ) → Coalesced ((a, s) ∷ zs) → e < a → Beyond e (remainder n (a, s) ++ zs)
  remainder-Beyond e c h = elim (Bool-cases (ltb (s - n) min_free_block_size)) [
    | inl small ↦ rw small (Beyond-weaken (a + s) e zs c.0 (omega arith))
    | inr large ↦ rw large (omega arith)
  ]

  remainder-Coalesced : Coalesced ((a, s) ∷ zs) → Coalesced (remainder n (a, s) ++ zs)
  remainder-Coalesced c = elim (Bool-cases (ltb (s - n) min_free_block_size)) [
    | inl small ↦ rw small c.1
    | inr large ↦ rw large (Beyond-weaken (a + s) (a + n + (s - n)) zs c.0 (omega arith), c.1)
  ]

  -- Nor do two of them come to touch.
  pub taken-Coalesced :
      (ys : List Block)
      → Coalesced (ys ++ (a, s) ∷ zs)
      → Coalesced (ys ++ (remainder n (a, s) ++ zs))
  taken-Coalesced [] c = remainder-Coalesced c
  taken-Coalesced ((b, t) ∷ []) c = (remainder-Beyond (b + t) c.1 c.0, remainder-Coalesced c.1)
  taken-Coalesced ((b, t) ∷ (d, u) ∷ ys) c = (c.0, taken-Coalesced ((d, u) ∷ ys) c.1)

  -- What was clear of the free blocks is clear of those that are left.
  pub taken-Clear :
      (b t : ℕ) (ys : List Block)
      → Clear b t (ys ++ (a, s) ∷ zs)
      → Clear b t (ys ++ (remainder n (a, s) ++ zs))
  taken-Clear b t [] c = elim (Bool-cases (ltb (s - n) min_free_block_size)) [
    | inl small ↦ rw small c.1
    | inr large ↦
        rw large (elim c.0 [ inl above ↦ inl (omega arith) | inr below ↦ inr (omega arith) ], c.1)
  ]
  taken-Clear b t ((d, u) ∷ ys) c = (c.0, taken-Clear b t ys c.1)

  -- The bytes taken are clear of the blocks that are left.
  pub block-Clear :
      (lo : ℕ) (ys : List Block)
      → Layout lo (ys ++ (a, s) ∷ zs) hi
      → Clear a n (ys ++ (remainder n (a, s) ++ zs))
  block-Clear lo ys l =
      let (x, y, z) = Layout-split lo ys a s zs hi l in
      let behind : Clear a n (remainder n (a, s) ++ zs) =
        elim (Bool-cases (ltb (s - n) min_free_block_size)) [
          | inl small ↦ rw small (Clear-below a n (a + s) zs hi z (omega arith))
          | inr large ↦ rw large (inl (omega arith), Clear-below a n (a + s) zs hi z (omega arith))
        ] in
      Clear-append a n ys (remainder n (a, s) ++ zs) (Clear-above a n lo ys a x (omega arith))
        behind

  -- The header of what is left lies outside the list.
  pub remainder-NotIn :
      (lo : ℕ) (ys : List Block)
      → Layout lo (ys ++ (a, s) ∷ zs) hi
      → ltb (s - n) min_free_block_size ≡ false
      → 0 < n
      → NotIn (list_node (a + n)) (nodes ys) × NotIn (list_node (a + n)) (nodes zs)
  remainder-NotIn lo ys l large pos =
      let (x, y, z) = Layout-split lo ys a s zs hi l in
      (
        Layout-NotIn_above (a + n) lo ys a x (omega arith),
        Layout-NotIn (a + n) (a + s) zs hi z (ground arith),
      )

-- Where the block that first fit takes lies, and what it is clear of.
pub record Taken (n lo : ℕ) (bs : List Block) (hi : ℕ) (a : Ptr) (left : List Block) : Type 0 where
  pub starts : lo ≤ a
  pub ends : a + n ≤ hi
  pub apart : Clear a n left
  pub others : (b t : ℕ) → Clear b t bs → Clear b t left
  pub from_free : (b t : ℕ) → Clear b t bs → (b + t ≤ a) ⊎ (a + n ≤ b)

Clear-member :
    (b t a s : ℕ) (ys zs : List Block) → Clear b t (ys ++ (a, s) ∷ zs) → (b + t ≤ a) ⊎ (a + s ≤ b)
Clear-member b t a s [] zs c = c.0
Clear-member b t a s ((d, u) ∷ ys) zs c = Clear-member b t a s ys zs c.1

pub first_fit-Taken :
    (n lo : ℕ) (bs : List Block) (hi : ℕ) (a : Ptr) (left : List Block)
    → Layout lo bs hi
    → first_fit n bs ≡ some (a, left)
    → Taken n lo bs hi a left
first_fit-Taken n lo bs hi a left l e = elim (first_fit_cases n a bs) [
  | inl (no_fit, below, stays) ↦ cc
  | inr f ↦
      let l' = rw (f.whole) at l in
      let (x, y, z) = Layout-split lo f.before f.at f.bytes f.behind hi l' in
      let same : f.at ≡ a = ground (arith, f.taken) in
      let rest : f.before ++ (remainder n (f.at, f.bytes) ++ f.behind) ≡ left =
        ground (arith, f.taken) in
      subst (λ k. Taken n lo bs hi k left) same
        (subst (λ k. Taken n lo bs hi f.at k) rest
          record {
            starts = Layout-hi lo f.before f.at x;
            ends = omega (arith, Layout-hi (f.at + f.bytes) f.behind hi z, f.enough);
            apart = block-Clear n f.at f.bytes f.behind hi f.enough lo f.before l';
            others = λ b t c.
                taken-Clear n f.at f.bytes f.behind hi f.enough b t f.before (rw (f.whole) at c);
            from_free = λ b t c. ground (
              arith,
              f.enough,
              Clear-member b t f.at f.bytes f.before f.behind (rw (f.whole) at c),
            );
          })
]

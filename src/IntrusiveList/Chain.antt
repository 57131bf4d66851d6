-- ===== src/IntrusiveList/Chain.antt =====
-- What the sequence of an intrusive list is: the `next` and `prev` members that link it.
use otrix.Prelude.{◌≡◌, ◌≢◌, refl, List, [], ◌∷◌, ◌++◌, arith}
use otrix.IntrusiveList.Distinct.{
  NotIn, Distinct, Distinct-append, Distinct-split, Apart-sym, NotIn-append, NotIn-split,
}
use otrix.IntrusiveList.{Ptr, null, Links, set_next, set_prev}

-- From `a` the links lead through `xs` to `b`, and back.
abbrev pub Chain : Links → Ptr → List Ptr → Ptr → Type 0
Chain m a [] b = (m.next a ≡ b) × (m.prev b ≡ a)
Chain m a (x ∷ xs) b = (m.next a ≡ x) × (m.prev x ≡ a) × Chain m x xs b

-- The list with head `h` has the nodes `xs`, in order: a ring of distinct nodes, or NULL.
abbrev pub IsList : Links → Ptr → List Ptr → Type 0
IsList m h [] = h ≡ null
IsList m h (x ∷ xs) = (h ≡ x) × Chain m x xs x × Distinct (x ∷ xs) × NotIn null (x ∷ xs)

pub Chain-prev_ne :
    (m : Links) (p x : Ptr) (xs : List Ptr) (b : Ptr)
    → Chain m x xs b
    → NotIn p (x ∷ xs)
    → p ≢ m.prev b
Chain-prev_ne m p x [] b c n = ground arith
Chain-prev_ne m p x (y ∷ ys) b c n = Chain-prev_ne m p y ys b c.2 n.1

pub Chain-next_ne :
    (m : Links) (p a : Ptr) (xs : List Ptr) (b : Ptr)
    → Chain m a xs b
    → NotIn p xs
    → p ≢ b
    → p ≢ m.next a
Chain-next_ne m p a [] b c n h = ground arith
Chain-next_ne m p a (y ∷ ys) b c n h = ground arith

-- Writes elsewhere leave a chain alone.
pub Chain-set_next :
    (m : Links) (p v a : Ptr) (xs : List Ptr) (b : Ptr)
    → Chain m a xs b
    → p ≢ a
    → NotIn p xs
    → Chain (set_next m p v) a xs b
Chain-set_next m p v a [] b c h n = ground arith
Chain-set_next m p v a (x ∷ xs) b c h n =
    (ground arith, c.1, Chain-set_next m p v x xs b c.2 n.0 n.1)

pub Chain-set_prev :
    (m : Links) (p v a : Ptr) (xs : List Ptr) (b : Ptr)
    → Chain m a xs b
    → NotIn p xs
    → p ≢ b
    → Chain (set_prev m p v) a xs b
Chain-set_prev m p v a [] b c n h = ground arith
Chain-set_prev m p v a (x ∷ xs) b c n h = (c.0, ground arith, Chain-set_prev m p v x xs b c.2 n.1 h)

pub Chain-append :
    (m : Links) (a : Ptr) (xs : List Ptr) (y : Ptr) (ys : List Ptr) (b : Ptr)
    → Chain m a xs y
    → Chain m y ys b
    → Chain m a (xs ++ y ∷ ys) b
Chain-append m a [] y ys b c d = (c.0, c.1, d)
Chain-append m a (x ∷ xs) y ys b c d = (c.0, c.1, Chain-append m x xs y ys b c.2 d)

pub Chain-split :
    (m : Links) (a : Ptr) (xs : List Ptr) (y : Ptr) (ys : List Ptr) (b : Ptr)
    → Chain m a (xs ++ y ∷ ys) b
    → Chain m a xs y × Chain m y ys b
Chain-split m a [] y ys b c = ((c.0, c.1), c.2)
Chain-split m a (x ∷ xs) y ys b c = ground (arith, Chain-split m x xs y ys b c.2)

-- A ring is read from any of its nodes.
pub IsList-rotate :
    (m : Links) (h x y : Ptr) (xs ys : List Ptr)
    → IsList m h (x ∷ (xs ++ y ∷ ys))
    → IsList m y (y ∷ (ys ++ x ∷ xs))
IsList-rotate m h x y xs ys is =
    let s = Chain-split m x xs y ys x is.1 in
    let (dx, dy, ap) = Distinct-split (x ∷ xs) (y ∷ ys) is.2 in
    let (nx, ny) = NotIn-split null (x ∷ xs) (y ∷ ys) is.3 in
    (
      refl,
      Chain-append m y ys x xs y s.1 s.0,
      Distinct-append (y ∷ ys) (x ∷ xs) dy dx (Apart-sym (x ∷ xs) (y ∷ ys) ap),
      NotIn-append null (y ∷ ys) (x ∷ xs) ny nx,
    )

pub IsList-self :
    (m : Links) (h x : Ptr) (xs : List Ptr) → IsList m h (x ∷ xs) → IsList m x (x ∷ xs)
IsList-self m h x xs is = (refl, is.1, is.2, is.3)

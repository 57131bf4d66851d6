-- ===== src/IntrusiveList/Frame.antt =====
-- What the operations of a list leave alone: the links of every other object.
use otrix.Prelude.{
  ◌≡◌, ◌≢◌, List, [], ◌∷◌, ◌++◌, arith, ◌⊎◌, inl, inr, true, ◌==◌, Bool-cases, returns,
}
use otrix.IntrusiveList.{Ptr, null, Links, self_link, link_last, push_back, unlink_node, delete}
use otrix.IntrusiveList.Distinct.{NotIn, Apart, NotIn-split}
use otrix.IntrusiveList.Chain.{Chain, IsList, Chain-prev_ne, Chain-next_ne, Chain-split}
use otrix.IntrusiveList.Erase.{contains, contains_split}
use otrix.IntrusiveList.PushBack.{push_back-append, push_back-null}

-- `m'` differs from `m` at most at the addresses of `xs`.
abbrev pub SameOutside : List Ptr → Links → Links → Type 0
SameOutside xs m m' = (a : Ptr) → NotIn a xs → (m'.next a ≡ m.next a) × (m'.prev a ≡ m.prev a)

module _ (xs : List Ptr) (m m' : Links) (same : SameOutside xs m m') where
  pub Chain-frame :
      (a : Ptr) (ys : List Ptr) (b : Ptr)
      → Chain m a ys b
      → Apart (a ∷ ys) xs
      → NotIn b xs
      → Chain m' a ys b
  Chain-frame a [] b c ap n = ground (arith, same a ap.0, same b n)
  Chain-frame a (y ∷ ys) b c ap n =
      let rest = Chain-frame y ys b c.2 ap.1 n in ground (arith, same a ap.0, same y ap.1.0, rest)

  -- A list apart from `xs` survives.
  pub IsList-frame : (h : Ptr) (ys : List Ptr) → IsList m h ys → Apart ys xs → IsList m' h ys
  IsList-frame h [] is ap = is
  IsList-frame h (y ∷ ys) is ap = (is.0, Chain-frame y ys y is.1 ap ap.0, is.2, is.3)

pub link_last-SameOutside :
    (m : Links) (h t x : Ptr) (xs : List Ptr)
    → IsList m h (x ∷ xs)
    → SameOutside (t ∷ x ∷ xs) m (link_last m h (m.prev h) t)
unfolding link_last
link_last-SameOutside m h t x xs is a out = ground (arith, Chain-prev_ne m a x xs x is.1 out.1)

pub unlink_node-SameOutside :
    (m : Links) (h x n : Ptr) (ys zs : List Ptr)
    → IsList m h (x ∷ (ys ++ n ∷ zs))
    → SameOutside (x ∷ (ys ++ n ∷ zs)) m (unlink_node m n)
unfolding unlink_node
unlink_node-SameOutside m h x n ys zs is a out =
    let (cy, cz) = Chain-split m x ys n zs x is.1 in
    let (left, right) = NotIn-split a (x ∷ ys) (n ∷ zs) out in
    ground (arith, Chain-prev_ne m a x ys n cy left, Chain-next_ne m a n zs x cz right.1 left.0)

pub unlink_head-SameOutside :
    (m : Links) (h x : Ptr) (xs : List Ptr)
    → IsList m h (x ∷ xs)
    → SameOutside (x ∷ xs) m (unlink_node m h)
unfolding unlink_node
unlink_head-SameOutside m h x xs is a out =
    ground (arith, Chain-prev_ne m a x xs x is.1 out, Chain-next_ne m a x xs x is.1 out.1 out.0)

unlink-SameOutside :
    (m : Links) (h n : Ptr) (xs : List Ptr)
    → IsList m h xs
    → contains n xs ≡ true
    → SameOutside xs m (unlink_node m n)
unlink-SameOutside m h n [] is mem = cc
unlink-SameOutside m h n (x ∷ xs) is mem = elim (Bool-cases (n == x)) [
  | inl e ↦ let same : n ≡ h = ground arith in rw same (unlink_head-SameOutside m h x xs is)
  | inr e ↦
      let (ys, zs, split, rest) = contains_split n xs (ground arith) in
      rw split (unlink_node-SameOutside m h x n ys zs (rw split at is))
]

-- For a caller that keeps the pointer which `push_back` returns, a node that is not NULL and not in the
-- list comes first in it, whether it was empty or not, and only the nodes of the new list are written.
pub push_back-cons :
    (m : Links) (h t : Ptr) (xs : List Ptr)
    → IsList m h xs
    → t ≢ null
    → NotIn t xs
    → (m' : Links) × (push_back m h t ≡ returns (t, m'))
      × IsList m' t (t ∷ xs)
      × SameOutside (t ∷ xs) m m'
push_back-cons m h t [] is ne out =
    let e : h ≡ null = is in
    let (calls, list) = push_back-null m t ne in (self_link m t, rw e calls, list, ground arith)
push_back-cons m h t (x ∷ xs) is ne out =
    let (calls, front, back) = push_back-append m h t x xs is ne out in
    (link_last m h (m.prev h) t, calls, back, link_last-SameOutside m h t x xs is)

delete_writes :
    (m : Links) (h n : Ptr) → ((delete m h n).1 ≡ m) ⊎ ((delete m h n).1 ≡ unlink_node m n)
unfolding delete
delete_writes m h n = ground arith

-- Deleting a member writes to the nodes of its list alone.
pub delete-SameOutside :
    (m : Links) (h n : Ptr) (xs : List Ptr)
    → IsList m h xs
    → contains n xs ≡ true
    → SameOutside xs m (delete m h n).1
delete-SameOutside m h n xs is mem = elim (delete_writes m h n) [
  | inl e ↦ λ a out. ground arith
  | inr e ↦ rw e (unlink-SameOutside m h n xs is mem)
]

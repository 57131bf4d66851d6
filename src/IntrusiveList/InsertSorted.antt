-- ===== src/IntrusiveList/InsertSorted.antt =====
-- `intrusive_list_insert_sorted`: what it does with a list of one node, and with a longer one.
use otrix.Prelude.{
  ℕ, zero, suc, ◌<◌, ◌≡◌, ◌≢◌, refl, sym, List, [], ◌∷◌, ◌++◌, arith, Bool, if◌then◌else◌, ne→==,
  Bool-cases, inl, inr, length, returns,
}
use otrix.IntrusiveList.{Ptr, null, Links, sorted_place, link_before, insert_sorted}
use otrix.IntrusiveList.Distinct.{NotIn, Distinct, NotIn-append}
use otrix.IntrusiveList.Chain.{Chain, IsList, IsList-rotate, IsList-self}

module _ (compare : Ptr → Ptr → Bool) where
  -- The first node of `xs` that compares above `n`, or else the head.
  abbrev pub place : Ptr → Ptr → List Ptr → Ptr
  place h n [] = h
  place h n (x ∷ xs) = if compare x n then x else place h n xs

  sorted_place-place :
      (fuel : ℕ) (m : Links) (h n p : Ptr) (xs : List Ptr)
      → Chain m p xs h
      → NotIn h xs
      → length xs < fuel
      → sorted_place fuel m compare h n (m.next p) ≡ returns (place h n xs)
  unfolding sorted_place
  sorted_place-place zero m h n p xs c k le = absurd (omega arith)
  sorted_place-place (suc fuel) m h n p [] c k le = ground arith
  sorted_place-place (suc fuel) m h n p (x ∷ xs) c k le =
      ground (arith, sorted_place-place fuel m h n x xs c.2 k.1)

  -- Into a list of one node the insertion is right: the new node comes first when the old one
  -- compares above it, else second, and the two form a list.
  pub insert_sorted-one :
      (fuel : ℕ) (m : Links) (h n x : Ptr)
      → IsList m h (x ∷ [])
      → n ≢ null
      → n ≢ x
      → (m' : Links) × (insert_sorted (suc fuel) m compare h n
          ≡ returns ((if compare x n then n else x), m'))
        × IsList m' (if compare x n then n else x) (if compare x n then n ∷ x ∷ [] else x ∷ n ∷ [])
  unfolding insert_sorted
  insert_sorted-one fuel m h n x is ne out = (link_before m x n, ground arith, ground arith)

module _ (compare : Ptr → Ptr → Bool) (m : Links) (h n : Ptr) where
  place-ne :
      (p : Ptr) (xs : List Ptr)
      → Chain m p xs h
      → Distinct (p ∷ xs)
      → NotIn h xs
      → NotIn n xs
      → n ≢ h
      → m.next h ≢ h
      → (n ≢ place compare h n xs) × (m.next (place compare h n xs) ≢ place compare h n xs)
  place-ne p [] c d k out ne two = ground arith
  place-ne p (x ∷ []) c d k out ne two = ground arith
  place-ne p (x ∷ y ∷ ys) c d k out ne two =
      ground (arith, place-ne x (y ∷ ys) c.2 d.1 k.1 out.1 ne two)

-- The node that `k` steps along the `next` members reach.
abbrev pub walk : ℕ → Links → Ptr → Ptr
walk zero m a = a
walk (suc k) m a = walk k m (m.next a)

-- Two memories that agree on every `next` but that of `n` walk alike round a ring without `n`.
walk-ne :
    (k : ℕ) (m m' : Links) (n x : Ptr) (xs : List Ptr)
    → IsList m x (x ∷ xs)
    → NotIn n (x ∷ xs)
    → ((a : Ptr) → a ≢ n → m'.next a ≡ m.next a)
    → walk k m' x ≢ n
walk-ne zero m m' n x xs is out same = λ e. out.0 (sym e)
walk-ne (suc k) m m' n x [] is out same =
    let step : m'.next x ≡ x = ground (arith, same x) in rw step (walk-ne k m m' n x [] is out same)
walk-ne (suc k) m m' n x (y ∷ ys) is out same =
    let step : m'.next x ≡ y = ground (arith, same x) in
    let fresh = NotIn-append n (y ∷ ys) (x ∷ []) out.1 (out.0, tt) in
    rw step (walk-ne k m m' n y (ys ++ x ∷ []) (IsList-rotate m x x y [] ys is) fresh same)

link_before-next :
    (m : Links) (c n a : Ptr) → n ≢ c → m.next c ≢ c → a ≢ n → (link_before m c n).next a ≡ m.next a
unfolding link_before
link_before-next m c n a ne two out = ground arith

insert_sorted-place :
    (fuel : ℕ) (m : Links) (compare : Ptr → Ptr → Bool) (h n c : Ptr)
    → n ≢ null
    → h ≢ null
    → sorted_place fuel m compare h n (m.next h) ≡ returns c
    → insert_sorted fuel m compare h n
      ≡ (if compare h n then returns (n, link_before m h n) else returns (h, link_before m c n))
unfolding insert_sorted
insert_sorted-place fuel m compare h n c ne v found =
    rw (ne→== ne, ne→== v, found, insert_sorted) refl

unreachable_from :
    (fuel : ℕ) (m : Links) (compare : Ptr → Ptr → Bool) (n h y : Ptr) (ys : List Ptr)
    → IsList m h (h ∷ y ∷ ys)
    → NotIn n (h ∷ y ∷ ys)
    → n ≢ null
    → length (y ∷ ys) < fuel
    → (h' : Ptr) × (m' : Links) × (insert_sorted fuel m compare h n ≡ returns (h', m'))
      × ((k : ℕ) → walk k m' h ≢ n)
unreachable_from fuel m compare n h y ys list fresh ne le =
    let two : m.next h ≢ h = λ e. list.2.0.0 (ground arith) in
    let c : Ptr = place compare h n (y ∷ ys) in
    let far = place-ne compare m h n h (y ∷ ys) list.1 list.2 list.2.0 fresh.1 fresh.0 two in
    let found : sorted_place fuel m compare h n (m.next h) ≡ returns c =
      sorted_place-place compare fuel m h n h (y ∷ ys) list.1 list.2.0 le in
    let calls = insert_sorted-place fuel m compare h n c ne (ground arith) found in
    elim (Bool-cases (compare h n)) [
      | inl e ↦ (
        n,
        link_before m h n,
        rw e at calls,
        λ k.
            walk-ne k m (link_before m h n) n h (y ∷ ys) list fresh
              (λ a off. link_before-next m h n a fresh.0 two off),
      )
      | inr e ↦ (
        h,
        link_before m c n,
        rw e at calls,
        λ k.
            walk-ne k m (link_before m c n) n h (y ∷ ys) list fresh
              (λ a off. link_before-next m c n a far.0 far.1 off),
      )
    ]

-- Into a list of two nodes or more the insertion returns, but no walk along the `next` members from
-- the old head ever reaches the new node: its predecessor still points past it.
pub insert_sorted-unreachable :
    (fuel : ℕ) (m : Links) (compare : Ptr → Ptr → Bool) (h n x y : Ptr) (ys : List Ptr)
    → IsList m h (x ∷ y ∷ ys)
    → NotIn n (x ∷ y ∷ ys)
    → n ≢ null
    → length (y ∷ ys) < fuel
    → (h' : Ptr) × (m' : Links) × (insert_sorted fuel m compare h n ≡ returns (h', m'))
      × ((k : ℕ) → walk k m' h ≢ n)
insert_sorted-unreachable fuel m compare h n x y ys is out ne le =
    rw is.0 (unreachable_from fuel m compare n x y ys (IsList-self m h x (y ∷ ys) is) out ne le)

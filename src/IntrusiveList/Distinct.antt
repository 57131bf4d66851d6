-- ===== src/IntrusiveList/Distinct.antt =====
-- Addresses that differ from one another.
use otrix.Prelude.{◌≢◌, sym, List, [], ◌∷◌, ◌++◌}
use otrix.IntrusiveList.{Ptr}

-- `a` is none of `xs`.
abbrev pub NotIn : Ptr → List Ptr → Type 0
NotIn a [] = Unit {0}
NotIn a (x ∷ xs) = (a ≢ x) × NotIn a xs

abbrev pub Distinct : List Ptr → Type 0
Distinct [] = Unit {0}
Distinct (x ∷ xs) = NotIn x xs × Distinct xs

abbrev pub Apart : List Ptr → List Ptr → Type 0
Apart [] ys = Unit {0}
Apart (x ∷ xs) ys = NotIn x ys × Apart xs ys

module _ (p : Ptr) where
  pub NotIn-append : (xs ys : List Ptr) → NotIn p xs → NotIn p ys → NotIn p (xs ++ ys)
  NotIn-append [] ys h k = k
  NotIn-append (x ∷ xs) ys h k = (h.0, NotIn-append xs ys h.1 k)

  pub NotIn-split : (xs ys : List Ptr) → NotIn p (xs ++ ys) → NotIn p xs × NotIn p ys
  NotIn-split [] ys h = (tt, h)
  NotIn-split (x ∷ xs) ys h = ((h.0, (NotIn-split xs ys h.1).0), (NotIn-split xs ys h.1).1)

pub Apart-NotIn : (y : Ptr) (xs ys : List Ptr) → Apart xs (y ∷ ys) → NotIn y xs × Apart xs ys
Apart-NotIn y [] ys h = (tt, tt)
Apart-NotIn y (x ∷ xs) ys h =
    let (n, ap) = Apart-NotIn y xs ys h.1 in ((λ e. h.0.0 (sym e), n), (h.0.1, ap))

pub Apart-cons : (y : Ptr) (xs ys : List Ptr) → NotIn y xs → Apart xs ys → Apart xs (y ∷ ys)
Apart-cons y [] ys n h = tt
Apart-cons y (x ∷ xs) ys n h = ((λ e. n.0 (sym e), h.0), Apart-cons y xs ys n.1 h.1)

pub Apart-nil : (xs : List Ptr) → Apart xs []
Apart-nil [] = tt
Apart-nil (x ∷ xs) = (tt, Apart-nil xs)

pub Apart-sym : (xs ys : List Ptr) → Apart xs ys → Apart ys xs
Apart-sym [] ys h = Apart-nil ys
Apart-sym (x ∷ xs) ys h = Apart-cons x ys xs h.0 (Apart-sym xs ys h.1)

pub Distinct-append :
    (xs ys : List Ptr) → Distinct xs → Distinct ys → Apart xs ys → Distinct (xs ++ ys)
Distinct-append [] ys dx dy ap = dy
Distinct-append (x ∷ xs) ys dx dy ap =
    (NotIn-append x xs ys dx.0 ap.0, Distinct-append xs ys dx.1 dy ap.1)

pub Distinct-split :
    (xs ys : List Ptr) → Distinct (xs ++ ys) → Distinct xs × Distinct ys × Apart xs ys
Distinct-split [] ys d = (tt, d, tt)
Distinct-split (x ∷ xs) ys d =
    let (dx, dy, ap) = Distinct-split xs ys d.1 in
    let (nx, ny) = NotIn-split x xs ys d.0 in ((nx, dx), dy, (ny, ap))

pub NotIn-remove : (p n : Ptr) (xs zs : List Ptr) → NotIn p (xs ++ n ∷ zs) → NotIn p (xs ++ zs)
NotIn-remove p n [] zs h = h.1
NotIn-remove p n (x ∷ xs) zs h = (h.0, NotIn-remove p n xs zs h.1)

-- What is left when a node is taken out of a list of distinct nodes.
pub Distinct-remove :
    (n : Ptr) (xs zs : List Ptr)
    → Distinct (xs ++ n ∷ zs)
    → Distinct (xs ++ zs) × NotIn n xs × NotIn n zs
Distinct-remove n [] zs d = (d.1, tt, d.0)
Distinct-remove n (x ∷ xs) zs d =
    let (rest, left, right) = Distinct-remove n xs zs d.1 in
    let ne : n ≢ x = λ e. (NotIn-split x xs (n ∷ zs) d.0).1.0 (sym e) in
    ((NotIn-remove x n xs zs d.0, rest), (ne, left), right)

pub Apart-append : (xs ys zs : List Ptr) → Apart xs zs → Apart ys zs → Apart (xs ++ ys) zs
Apart-append [] ys zs h k = k
Apart-append (x ∷ xs) ys zs h k = (h.0, Apart-append xs ys zs h.1 k)

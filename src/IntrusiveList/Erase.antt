-- ===== src/IntrusiveList/Erase.antt =====
-- The lists that the operations make, as functions on sequences.
use otrix.Prelude.{
  ◌≡◌, ◌≢◌, refl, sym, List, [], ◌∷◌, ◌++◌, arith, Bool, true, false, ◌||◌, ◌==◌, if◌then◌else◌,
  Bool-cases, ==_iff, inl, inr,
}
use otrix.IntrusiveList.{Ptr, null, Links, delete}
use otrix.IntrusiveList.Distinct.{NotIn, Distinct, Apart}
use otrix.IntrusiveList.Chain.{IsList}
use otrix.IntrusiveList.Delete.{delete-inner, delete-head, delete-last}

abbrev pub contains : Ptr → List Ptr → Bool
contains n [] = false
contains n (x ∷ xs) = (n == x) || contains n xs

abbrev pub erase : Ptr → List Ptr → List Ptr
erase n [] = []
erase n (x ∷ xs) = if n == x then xs else x ∷ erase n xs

-- A member splits the list that it is a member of.
pub contains_split :
    (n : Ptr) (xs : List Ptr)
    → contains n xs ≡ true
    → (ys zs : List Ptr) × (xs ≡ ys ++ n ∷ zs) × (erase n xs ≡ ys ++ zs)
contains_split n [] h = cc
contains_split n (x ∷ xs) h = elim (Bool-cases (n == x)) [
  | inl e ↦ ([], xs, ground arith, ground arith)
  | inr e ↦
      let (ys, zs, e1, e2) = contains_split n xs (ground arith) in
      (x ∷ ys, zs, ground arith, ground arith)
]

erase-head :
    (m : Links) (h x : Ptr) (xs : List Ptr)
    → IsList m h (x ∷ xs)
    → IsList (delete m h h).1 (delete m h h).0 xs
erase-head m h x [] is = rw (is.0, delete-last m x x (rw is.0 at is)) refl
erase-head m h x (y ∷ ys) is = let (e, rest) = delete-head m h x y ys is in rw e (rw e at rest)

-- Deleting a member of a list leaves the list of the others, in their order, with the head that
-- the call returns: the second node for the head, NULL for the only node.
pub delete-erase :
    (m : Links) (h n : Ptr) (xs : List Ptr)
    → IsList m h xs
    → contains n xs ≡ true
    → IsList (delete m h n).1 (delete m h n).0 (erase n xs)
delete-erase m h n [] is mem = cc
delete-erase m h n (x ∷ xs) is mem = elim (Bool-cases (n == x)) [
  | inl e ↦ let same : n ≡ h = ground arith in rw (e, same) (erase-head m h x xs is)
  | inr e ↦
      let (ys, zs, split, rest) = contains_split n xs (ground arith) in
      let (d, left) = delete-inner m h x n ys zs (rw split at is) in rw (e, rest, d) (rw d at left)
]

-- A list apart from one that has `n` does not have it.
pub Apart-contains : (n : Ptr) (xs ys : List Ptr) → contains n xs ≡ true → Apart xs ys → NotIn n ys
Apart-contains n [] ys mem ap = cc
Apart-contains n (x ∷ xs) ys mem ap = elim (Bool-cases (n == x)) [
  | inl e ↦ let same : n ≡ x = (==_iff n x).0 e in rw same ap.0
  | inr e ↦ Apart-contains n xs ys (ground arith) ap.1
]

pub NotIn-erase : (p n : Ptr) (xs : List Ptr) → NotIn p xs → NotIn p (erase n xs)
NotIn-erase p n [] h = tt
NotIn-erase p n (x ∷ xs) h = ground (arith, NotIn-erase p n xs h.1)

-- Nodes are distinct, so erasing leaves none behind.
pub NotIn-erase_self : (n : Ptr) (xs : List Ptr) → Distinct xs → NotIn n (erase n xs)
NotIn-erase_self n [] d = tt
NotIn-erase_self n (x ∷ xs) d = elim (Bool-cases (n == x)) [
  | inl e ↦ let same : n ≡ x = (==_iff n x).0 e in rw (e, same) d.0
  | inr e ↦ rw e ((λ k. ground arith), NotIn-erase_self n xs d.1)
]

pub IsList-Distinct : (m : Links) (h : Ptr) (xs : List Ptr) → IsList m h xs → Distinct xs
IsList-Distinct m h [] is = tt
IsList-Distinct m h (x ∷ xs) is = is.2

contains-ne : (p n : Ptr) (xs : List Ptr) → NotIn p xs → contains n xs ≡ true → p ≢ n
contains-ne p n [] out mem = cc
contains-ne p n (x ∷ xs) out mem = ground (arith, contains-ne p n xs out.1)

pub contains-ne_null :
    (m : Links) (h n : Ptr) (xs : List Ptr) → IsList m h xs → contains n xs ≡ true → n ≢ null
contains-ne_null m h n [] is mem = cc
contains-ne_null m h n (x ∷ xs) is mem = λ e. contains-ne null n (x ∷ xs) is.3 mem (sym e)

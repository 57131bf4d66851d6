-- ===== src/IntrusiveList/Find.antt =====
-- `intrusive_list_find_first` and `intrusive_list_delete_first` on the sequences of a list.
use otrix.Prelude.{
  ℕ, zero, suc, ◌≤◌, ◌≡◌, ◌≢◌, refl, List, [], ◌∷◌, ◌++◌, arith, Bool, true, false, if◌then◌else◌,
  Option, none, some, length, returns, out_of_fuel,
}
use otrix.IntrusiveList.{Ptr, null, Links, unlink_node, delete, find_loop, find_first, delete_first}
use otrix.IntrusiveList.Distinct.{NotIn}
use otrix.IntrusiveList.Chain.{Chain, IsList, IsList-rotate}
use otrix.IntrusiveList.Delete.{delete-last}

module _ (predicate : Ptr → Bool) where
  abbrev pub first : List Ptr → Option Ptr
  first [] = none
  first (x ∷ xs) = if predicate x then some x else first xs

  abbrev pub NoneOf : List Ptr → Type 0
  NoneOf [] = Unit {0}
  NoneOf (x ∷ xs) = (predicate x ≡ false) × NoneOf xs

  find_loop-first :
      (fuel : ℕ) (m : Links) (x : Ptr) (xs : List Ptr) (b n : Ptr)
      → Chain m x xs b
      → NotIn null xs
      → first (x ∷ xs) ≡ some n
      → length (x ∷ xs) ≤ fuel
      → find_loop fuel m predicate x ≡ returns n
  unfolding find_loop
  find_loop-first zero m x xs b n c v e h = absurd (omega arith)
  find_loop-first (suc fuel) m x [] b n c v e h = ground arith
  find_loop-first (suc fuel) m x (y ∷ ys) b n c v e h =
      ground (arith, find_loop-first fuel m y ys b n c.2 v.1)

  -- The search returns the first node of the list that the predicate accepts, when there is one and
  -- the loop may make one round for each node.
  pub find_first-first :
      (fuel : ℕ) (m : Links) (h n : Ptr) (xs : List Ptr)
      → IsList m h xs
      → first xs ≡ some n
      → length xs ≤ fuel
      → find_first fuel m h predicate ≡ returns n
  unfolding find_first
  find_first-first fuel m h n [] is e le = cc
  find_first-first fuel m h n (x ∷ xs) is e le =
      rw is.0 (ground (arith, find_loop-first fuel m x xs x n is.1 is.3.1 e le))

  NoneOf-snoc : (x : Ptr) (xs : List Ptr) → predicate x ≡ false → NoneOf xs → NoneOf (xs ++ x ∷ [])
  NoneOf-snoc x [] h k = (h, tt)
  NoneOf-snoc x (y ∷ ys) h k = (k.0, NoneOf-snoc x ys h k.1)

  find_loop-NoneOf :
      (fuel : ℕ) (m : Links) (x : Ptr) (xs : List Ptr)
      → IsList m x (x ∷ xs)
      → NoneOf (x ∷ xs)
      → find_loop fuel m predicate x ≡ out_of_fuel
  unfolding find_loop
  find_loop-NoneOf zero m x xs is nil = refl
  find_loop-NoneOf (suc fuel) m x [] is nil = ground (arith, find_loop-NoneOf fuel m x [] is nil)
  find_loop-NoneOf (suc fuel) m x (y ∷ ys) is nil = ground (
    arith,
    find_loop-NoneOf fuel m y (ys ++ x ∷ []) (IsList-rotate m x x y [] ys is)
        (nil.1.0, NoneOf-snoc x ys nil.0 nil.1.1),
  )

  -- On a list that holds no such node the search never returns: no number of rounds ends it, since
  -- the loop waits for a NULL that a ring does not have.
  pub find_first-NoneOf :
      (fuel : ℕ) (m : Links) (h : Ptr) (x : Ptr) (xs : List Ptr)
      → IsList m h (x ∷ xs)
      → NoneOf (x ∷ xs)
      → find_first fuel m h predicate ≡ out_of_fuel
  unfolding find_first
  find_first-NoneOf fuel m h x xs is nil =
      rw is.0 (ground (arith, find_loop-NoneOf fuel m x xs (rw is.0 at is) nil))

  first-ne_null : (n : Ptr) (xs : List Ptr) → NotIn null xs → first xs ≡ some n → n ≢ null
  first-ne_null n [] v e = cc
  first-ne_null n (x ∷ xs) v e = ground (arith, first-ne_null n xs v.1)

  delete_first_two :
      (fuel : ℕ) (m : Links) (h n y : Ptr)
      → find_first fuel m h predicate ≡ returns n
      → n ≢ null
      → m.next h ≡ y
      → h ≢ y
      → delete_first fuel m h predicate ≡ returns (delete m h n)
  unfolding delete_first delete
  delete_first_two fuel m h n y found ne e two = rw (found, delete_first) (ground arith)

  -- On a list of two nodes or more `delete_first` does what `delete` does with the first node that
  -- the predicate accepts.
  pub delete_first-delete :
      (fuel : ℕ) (m : Links) (h n x y : Ptr) (ys : List Ptr)
      → IsList m h (x ∷ y ∷ ys)
      → first (x ∷ y ∷ ys) ≡ some n
      → length (x ∷ y ∷ ys) ≤ fuel
      → delete_first fuel m h predicate ≡ returns (delete m h n)
  delete_first-delete fuel m h n x y ys is e le =
      delete_first_two fuel m h n y (find_first-first fuel m h n (x ∷ y ∷ ys) is e le)
        (first-ne_null n (x ∷ y ∷ ys) is.3 e) (ground arith) (λ k. is.2.0.0 (ground arith))

  delete_first_one :
      (fuel : ℕ) (m : Links) (h x : Ptr)
      → find_first fuel m h predicate ≡ returns x
      → x ≢ null
      → m.next x ≡ x
      → h ≡ x
      → delete_first fuel m h predicate ≡ returns (x, unlink_node m x)
  unfolding delete_first
  delete_first_one fuel m h x found ne e same = rw (found, delete_first) (ground arith)

  -- On a list of one accepted node `delete_first` returns that node for the new head, where `delete`
  -- returns NULL.
  pub delete_first-last :
      (fuel : ℕ) (m : Links) (h x : Ptr)
      → IsList m h (x ∷ [])
      → predicate x ≡ true
      → (delete_first (suc fuel) m h predicate ≡ returns (x, unlink_node m x))
        × (delete m h x ≡ (null, m))
  delete_first-last fuel m h x is e =
      let found : find_first (suc fuel) m h predicate ≡ returns x =
        find_first-first (suc fuel) m h x (x ∷ []) is (ground arith) (omega arith) in
      (delete_first_one (suc fuel) m h x found (ground arith) is.1.0 is.0, delete-last m h x is)

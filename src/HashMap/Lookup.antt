-- ===== src/HashMap/Lookup.antt =====
-- The hash table as a map from keys to nodes.
use otrix.Prelude.{
  ℕ, zero, suc, ◌≤◌, ◌≡◌, refl, List, [], ◌∷◌, true, false, ◌==◌, ==_iff, if◌then◌else◌, Bool-cases,
  inl, inr, length, arith, returns,
}
use otrix.IntrusiveList.{Ptr, null, Links}
use otrix.IntrusiveList.Distinct.{NotIn}
use otrix.IntrusiveList.Chain.{Chain, IsList}
use otrix.IntrusiveList.Erase.{contains, erase}
use otrix.IntrusiveList.Table.{Owns}
use otrix.HashMap.{Eq, HashMap, bucket, find, find_loop}

module _ {K : Type 0} ⦃e : Eq K⦄ (key : Ptr → K) where
  -- The first node of the list with the key, or NULL.
  abbrev pub lookup : K → List Ptr → Ptr
  lookup k [] = null
  lookup k (x ∷ xs) = if e.beq (key x) k then x else lookup k xs

  -- No node of `xs` has the key of `n`.
  abbrev pub Other : Ptr → List Ptr → Type 0
  Other n [] = Unit {0}
  Other n (x ∷ xs) = (e.beq (key n) (key x) ≡ false) × Other n xs

  abbrev pub Unique : List Ptr → Type 0
  Unique [] = Unit {0}
  Unique (x ∷ xs) = Other x xs × Unique xs

  Other-lookup : (n : Ptr) (xs : List Ptr) → Other n xs → lookup (key n) xs ≡ null
  Other-lookup n [] out = refl
  Other-lookup n (x ∷ xs) out =
      ground (arith, e.beq_iff (key n) (key x), e.beq_iff (key x) (key n), Other-lookup n xs out.1)

  Other-contains :
      (x n : Ptr) (xs : List Ptr)
      → Other x xs
      → contains n xs ≡ true
      → e.beq (key x) (key n) ≡ false
  Other-contains x n [] out mem = cc
  Other-contains x n (y ∷ ys) out mem = elim (Bool-cases (n == y)) [
    | inl h ↦ let same : n ≡ y = (==_iff n y).0 h in rw same out.0
    | inr h ↦ Other-contains x n ys out.1 (ground arith)
  ]

  pub lookup-erase :
      (k : K) (n : Ptr) (xs : List Ptr)
      → Unique xs
      → contains n xs ≡ true
      → lookup k (erase n xs) ≡ (if e.beq (key n) k then null else lookup k xs)
  lookup-erase k n [] only mem = cc
  lookup-erase k n (x ∷ xs) only mem = elim (Bool-cases (n == x)) [
    | inl h ↦
        let same : n ≡ x = (==_iff n x).0 h in
        elim (Bool-cases (e.beq (key x) k)) [
          | inl hit ↦
              let here : key x ≡ k = (e.beq_iff (key x) k).0 hit in
              let none_left : lookup k xs ≡ null = rw here at (Other-lookup x xs only.0) in
              rw (h, same, hit) none_left
          | inr miss ↦ rw (h, same, miss) refl
        ]
    | inr h ↦
        let rest = lookup-erase k n xs only.1 (ground arith) in
        let apart = Other-contains x n xs only.0 (ground arith) in
        ground
          (arith, rest, apart, e.beq_iff (key x) k, e.beq_iff (key n) k, e.beq_iff (key x) (key n))
  ]

  pub length-erase : (n : Ptr) (xs : List Ptr) → length (erase n xs) ≤ length xs
  length-erase n [] = omega arith
  length-erase n (x ∷ xs) = ground (arith, length-erase n xs)

  find_loop-lookup :
      (fuel : ℕ) (m : Links) (k : K) (b x : Ptr) (xs : List Ptr)
      → Chain m x xs b
      → NotIn b xs
      → length (x ∷ xs) ≤ fuel
      → find_loop fuel m key k b x ≡ returns (lookup k (x ∷ xs))
  unfolding find_loop
  find_loop-lookup zero m k b x xs c out le = absurd (omega arith)
  find_loop-lookup (suc fuel) m k b x [] c out le = ground arith
  find_loop-lookup (suc fuel) m k b x (y ∷ ys) c out le =
      ground (arith, find_loop-lookup fuel m k b y ys c.2 out.1)

  find-IsList :
      (fuel : ℕ) (m : Links) (hm : HashMap K) (k : K) (xs : List Ptr)
      → IsList m (hm.table (bucket hm k)) xs
      → length xs ≤ fuel
      → find fuel m hm key k ≡ returns (lookup k xs)
  unfolding find
  find-IsList fuel m hm k [] is le = ground arith
  find-IsList fuel m hm k (x ∷ xs) is le =
      ground (arith, find_loop-lookup fuel m k x x xs is.1 is.2.0)

  -- The bucket of a key does not depend on the table's contents.
  pub find-table :
      (fuel : ℕ) (m : Links) (hm : HashMap K) (table : ℕ → Ptr) (lists : ℕ → List Ptr)
      → Owns m table lists
      → (k : K) → length (lists (bucket hm k)) ≤ fuel
      → find fuel m (record hm { table = table }) key k ≡ returns (lookup k (lists (bucket hm k)))
  unfolding bucket
  find-table fuel m hm table lists owns k le =
      find-IsList fuel m (record hm { table = table }) k (lists (bucket hm k)) (owns.list _) le

  module _ (m : Links) (hm : HashMap K) (lists : ℕ → List Ptr) (owns : Owns m hm.table lists) where
    -- `find` returns the first node of the key's bucket that has the key, or NULL when there is none,
    -- if its loop may make one round for each node of the bucket.
    pub find-lookup :
        (fuel : ℕ) (k : K)
        → length (lists (bucket hm k)) ≤ fuel
        → find fuel m hm key k ≡ returns (lookup k (lists (bucket hm k)))
    find-lookup fuel k le = find-IsList fuel m hm k (lists (bucket hm k)) (owns.list _) le

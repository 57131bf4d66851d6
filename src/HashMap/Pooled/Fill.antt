-- ===== src/HashMap/Pooled/Fill.antt =====
-- The constructor of `pooled_hash_map` links every entry into the pool.
use otrix.Prelude.{
  ℕ, zero, suc, ◌+◌, ◌*◌, ◌≤◌, ◌<◌, ◌≡◌, ◌≢◌, refl, List, [], ◌∷◌, ne→==, returns, arith, subst,
}
use otrix.IntrusiveList.{Ptr, null, Links, self_link, init}
use otrix.IntrusiveList.Distinct.{NotIn, Apart-sym}
use otrix.IntrusiveList.Chain.{IsList}
use otrix.IntrusiveList.Frame.{SameOutside, IsList-frame, push_back-cons}
use otrix.HashMap.Pooled.{PooledHashMap, fill, pooled_hash_map}

init_lem : (m : Links) (n : Ptr) → n ≢ null → init m n ≡ returns (n, self_link m n)
unfolding init
init_lem m n ne = rw (ne→== ne) refl

self_link-SameOutside : (m : Links) (n : Ptr) → SameOutside (n ∷ []) m (self_link m n)
self_link-SameOutside m n a out = ground arith

module _ {K : Type 0} where
  -- The address of the node of entry `i`.
  abbrev pub entry_node : PooledHashMap K → ℕ → Ptr
  entry_node p i = p.pool_begin + i * p.entry_size + p.node_offset

  -- The nodes of the first `i` entries, the last one first.
  abbrev pub entry_nodes : PooledHashMap K → ℕ → List Ptr
  entry_nodes p zero = []
  entry_nodes p (suc i) = entry_node p i ∷ entry_nodes p i

  module _ (p : PooledHashMap K) (size : 0 < p.entry_size) (valid : 0 < p.pool_begin) where
    entry_node-ne : (i j : ℕ) → j < i → entry_node p i ≢ entry_node p j
    entry_node-ne i j lt = grind arith

    NotIn-entry_nodes : (i j : ℕ) → j ≤ i → NotIn (entry_node p i) (entry_nodes p j)
    NotIn-entry_nodes i zero le = tt
    NotIn-entry_nodes i (suc j) le =
        (entry_node-ne i j (omega arith), NotIn-entry_nodes i j (omega arith))

    fill-IsList :
        (left i n : ℕ) (m : Links) (head : Ptr)
        → i + left ≡ n
        → IsList m head (entry_nodes p i)
        → (head' : Ptr) × (m' : Links) × (fill left i m (record p { pool_head = head })
            ≡ returns (record p { pool_head = head' }, m'))
          × IsList m' head' (entry_nodes p n)
    unfolding fill
    fill-IsList zero i n m head e is =
        let same : i ≡ n = omega arith in (head, m, refl, rw same at is)
    fill-IsList (suc left) i n m head e is =
        let node : Ptr = entry_node p i in
        let fresh : NotIn node (entry_nodes p i) = NotIn-entry_nodes i i (omega arith) in
        let ne : node ≢ null = omega arith in
        let kept : IsList (self_link m node) head (entry_nodes p i) =
          IsList-frame (node ∷ []) m (self_link m node) (self_link-SameOutside m node) head
            (entry_nodes p i) is (Apart-sym (node ∷ []) (entry_nodes p i) (fresh, tt)) in
        let (m2, calls, is2, _) =
          push_back-cons (self_link m node) head node (entry_nodes p i) kept ne fresh in
        let next : IsList m2 node (entry_nodes p (i + 1)) =
          subst (λ k. IsList m2 node (entry_nodes p k)) (let e : suc i ≡ i + 1 = omega arith in e)
            is2 in
        let (head', m', rest, is') = fill-IsList left (i + 1) n m2 node (omega arith) next in
        (head', m', rw (init_lem m node ne, calls) rest, is')

    -- After construction the pool holds every entry of the array, the last one first, and the
    -- constructor ends, whatever the memory held before.
    pub pooled_hash_map-IsList :
        (m : Links)
        → (head : Ptr) × (m' : Links) × (pooled_hash_map m p
            ≡ returns (record p { pool_head = head }, m'))
          × IsList m' head (entry_nodes p p.pool_size)
    unfolding pooled_hash_map
    pooled_hash_map-IsList m = fill-IsList p.pool_size 0 p.pool_size m null (omega arith) refl

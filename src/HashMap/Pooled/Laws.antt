-- ===== src/HashMap/Pooled/Laws.antt =====
-- The pool and the buckets as lists that share no node: what inserting and removing does to them.
use otrix.Prelude.{
  ℕ, ◌≡◌, ◌≢◌, ◌↔◌, refl, List, [], ◌∷◌, Bool, true, false, ◌==◌, ==_self, ne→==, returns, arith,
}
use otrix.IntrusiveList.{Ptr, null, Links, update, push_back, delete}
use otrix.IntrusiveList.Erase.{contains, erase, contains-ne_null}
use otrix.IntrusiveList.Table.{Owns, Owns-ext, put, move-Owns}
use otrix.HashMap
use otrix.HashMap.{Eq, HashMap, bucket}
use otrix.HashMap.Update.{insert_calls}
use otrix.HashMap.Pooled.{Entries, PooledHashMap, insert, remove, in_pool}

pub data Slot : Type 0 where
  pool : Slot
  bucket_at : ℕ → Slot

abbrev pub same : Slot → Slot → Bool
same pool pool = true
same pool (bucket_at j) = false
same (bucket_at i) pool = false
same (bucket_at i) (bucket_at j) = i == j

pub same_iff : (i j : Slot) → (same i j ≡ true) ↔ (i ≡ j)
same_iff pool pool = ((λ e. refl), (λ e. refl))
same_iff pool (bucket_at j) = ((λ e. cc), (λ e. cc))
same_iff (bucket_at i) pool = ((λ e. cc), (λ e. cc))
same_iff (bucket_at i) (bucket_at j) = ground arith

module _ {K : Type 0} where
  abbrev pub heads : PooledHashMap K → Slot → Ptr
  heads p pool = p.pool_head
  heads p (bucket_at i) = p.base.table i

module _ {K V : Type 0} (s : Entries K V) (p : PooledHashMap K) (lists : Slot → List Ptr) where
  -- With an empty pool an insertion fails, and changes nothing.
  pub insert-nil :
      Owns s.links (heads p) lists
      → lists pool ≡ []
      → (k : K) (v : V) → insert s p k v ≡ returns (null, p, s)
  unfolding insert
  insert-nil owns e k v = let empty : p.pool_head ≡ null = rw e at (owns.list pool) in ground arith

  abbrev pub removed : Ptr → Slot → List Ptr
  removed n =
      let i : Slot = bucket_at (bucket p.base (s.key n)) in
      put same (put same lists i (erase n (lists i))) pool (n ∷ lists pool)

  abbrev pub inserted : K → Ptr → List Ptr → Slot → List Ptr
  inserted k n ns =
      put same (put same lists pool ns) (bucket_at (bucket p.base k))
        (n ∷ lists (bucket_at (bucket p.base k)))

  abbrev written : Links → K → V → Ptr → Entries K V
  written m' k v n = record { links = m'; key = update s.key n k; value = update s.value n v }

  insert_returns :
      (k : K) (v : V) (base : HashMap K) (m' : Links)
      → p.pool_head ≢ null
      → HashMap.insert
          (delete s.links p.pool_head p.pool_head).1
          p.base
          (update s.key p.pool_head k)
          p.pool_head
        ≡ returns (base, m')
      → insert s p k v
        ≡ returns (
          p.pool_head,
          record p { base = base; pool_head = (delete s.links p.pool_head p.pool_head).0 },
          written m' k v p.pool_head,
        )
  unfolding insert
  insert_returns k v base m' ne f = rw (ne→== ne, f) refl

  insert_head :
      (k : K) (v : V) (ns : List Ptr)
      → Owns s.links (heads p) lists
      → lists pool ≡ p.pool_head ∷ ns
      → (p' : PooledHashMap K) × (m' : Links) × (insert s p k v
          ≡ returns (p.pool_head, p', written m' k v p.pool_head))
        × Owns m' (heads p') (inserted k p.pool_head ns)
  insert_head k v ns owns e =
      let n : Ptr = p.pool_head in
      let i : ℕ = bucket p.base k in
      let mem : contains n (lists pool) ≡ true = rw (e, ==_self n) refl in
      let ne = contains-ne_null s.links n n (lists pool) (owns.list pool) mem in
      let (m', calls, owns') =
        move-Owns same same_iff s.links (heads p) lists owns pool (bucket_at i) (λ f. cc) n mem in
      let at : bucket p.base (update s.key n k n) ≡ i = rw (==_self n) refl in
      let base : HashMap K = record p.base { table = update p.base.table i n } in
      let h : Ptr = (delete s.links n n).0 in
      (
        record p { base = base; pool_head = h },
        m',
        insert_returns k v base m' ne (insert_calls _ m' p.base _ n i at calls),
        Owns-ext m' _ _ _ _ (elim [ pool ↦ refl | bucket_at j ↦ refl ])
            (elim [ pool ↦ rw (e, ==_self n) refl | bucket_at j ↦ refl ]) owns',
      )

  -- Otherwise it takes the first entry of the pool, gives it the key and the value, and puts it
  -- first in the key's bucket; no other entry's key or value changes.
  pub insert-cons :
      (k : K) (v : V) (n : Ptr) (ns : List Ptr)
      → Owns s.links (heads p) lists
      → lists pool ≡ n ∷ ns
      → (p' : PooledHashMap K) × (m' : Links) × (insert s p k v
          ≡ returns
              (n, p', record { links = m'; key = update s.key n k; value = update s.value n v }))
        × Owns m' (heads p') (inserted k n ns)
  insert-cons k v n ns owns e =
      let at_head : p.pool_head ≡ n = (rw e at (owns.list pool)).0 in
      rw (← at_head) (insert_head k v ns owns (rw (← at_head) at e))

  remove_returns :
      (i n : Ptr) (m' : Links)
      → bucket p.base (s.key n) ≡ i
      → in_pool p n ≡ true
      → push_back (delete s.links (p.base.table i) n).1 p.pool_head n ≡ returns (n, m')
      → remove s p n
        ≡ returns (
          record p {
            base = record p.base {
              table = update p.base.table i (delete s.links (p.base.table i) n).0;
            };
            pool_head = n;
          },
          record s { links = m' },
        )
  unfolding remove HashMap.remove
  remove_returns i n m' at inside calls = rw (at, inside, calls) refl

  -- Removing a node of the table that stands in the pool's array takes it out of its bucket and gives
  -- it back to the pool, first; keys and values stay as they are.
  pub remove-Owns :
      (n : Ptr)
      → Owns s.links (heads p) lists
      → contains n (lists (bucket_at (bucket p.base (s.key n)))) ≡ true
      → in_pool p n ≡ true
      → (p' : PooledHashMap K) × (m' : Links) × (remove s p n
          ≡ returns (p', record s { links = m' }))
        × Owns m' (heads p') (removed n)
  remove-Owns n owns mem inside =
      let i : ℕ = bucket p.base (s.key n) in
      let (m', calls, owns') =
        move-Owns same same_iff s.links (heads p) lists owns (bucket_at i) pool (λ f. cc) n mem in
      (
        record p {
          base = record p.base {
            table = update p.base.table i (delete s.links (p.base.table i) n).0;
          };
          pool_head = n;
        },
        m',
        remove_returns i n m' refl inside calls,
        Owns-ext m' _ _ _ _ (elim [ pool ↦ refl | bucket_at j ↦ refl ]) (λ j. refl) owns',
      )

-- ===== src/HashMap/Pooled.antt =====
-- `pooled_hash_map` of common/include/common/hash_map.hpp: the hash table whose nodes stand in an
-- array of entries, linked into a pool while they are not in the table.
use otrix.Prelude.{
  ℕ, zero, suc, ◌+◌, ◌*◌, Bool, ◌&&◌, ◌==◌, leb, ltb, if◌then◌else◌, Outcome, returns, ◌>>=◌,
}
use otrix.IntrusiveList.{Ptr, null, Links, update, push_back, delete, init}
use otrix.HashMap
use otrix.HashMap.{Eq, HashMap}
pub mod Fill
pub mod Laws

-- The memory of the entries: links, keys and values, each at the address of the entry's node.
pub record Entries (K V : Type 0) : Type 0 where
  pub links : Links
  pub key : Ptr → K
  pub value : Ptr → V

-- `pool_begin` is `pool_`; an entry has `entry_size` bytes, its node `node_offset` bytes in.
pub record PooledHashMap (K : Type 0) : Type 0 where
  pub base : HashMap K
  pub pool_begin : ℕ
  pub pool_size : ℕ
  pub entry_size : ℕ
  pub node_offset : ℕ
  pub pool_head : Ptr

module _ {K : Type 0} where
  -- The constructor's loop over the entries `i`, `i + 1`, … of which `left` are left.
  unfoldable pub fill : ℕ → ℕ → Links → PooledHashMap K → Outcome (PooledHashMap K × Links)
  fill zero i m p = returns (p, m)
  fill (suc left) i m p = do
    let node = p.pool_begin + i * p.entry_size + p.node_offset
    (_, m1) ← init m node
    (head, m2) ← push_back m1 p.pool_head node
    fill left (i + 1) m2 (record p { pool_head = head })

  unfoldable pub pooled_hash_map : Links → PooledHashMap K → Outcome (PooledHashMap K × Links)
  unfolding fill
  pooled_hash_map m p = fill p.pool_size 0 m (record p { pool_head = null })

  abbrev pub in_pool : PooledHashMap K → Ptr → Bool
  in_pool p node = leb p.pool_begin node && ltb node (p.pool_begin + p.pool_size * p.entry_size)

module _ {K V : Type 0} where
  -- `insert(key, value)` returns the entry, by its node's address, or NULL when the pool is empty.
  unfoldable pub insert :
      Entries K V → PooledHashMap K → K → V → Outcome (Ptr × PooledHashMap K × Entries K V)
  insert s p k v = if p.pool_head == null then returns (null, p, s) else (do
    let new_item = p.pool_head
    let value = update s.value new_item v
    let key = update s.key new_item k
    let (head, m) = delete s.links p.pool_head new_item
    (base, m') ← HashMap.insert m p.base key new_item
    returns (
      new_item,
      record p { base = base; pool_head = head },
      record { links = m'; key = key; value = value },
    ))

  unfoldable pub remove :
      Entries K V → PooledHashMap K → Ptr → Outcome (PooledHashMap K × Entries K V)
  remove s p node =
      let (base, m) = HashMap.remove s.links p.base s.key node in
      if in_pool p node
      then (do
        (head, m') ← push_back m p.pool_head node
        returns (record p { base = base; pool_head = head }, record s { links = m' }))
      else returns (record p { base = base }, record s { links = m })

module _ {K V : Type 0} ⦃e : Eq K⦄ where
  -- `remove(key)`
  unfoldable pub remove_key :
      ℕ → Entries K V → PooledHashMap K → K → Outcome (PooledHashMap K × Entries K V)
  remove_key fuel s p k = do
    node ← HashMap.find fuel s.links p.base s.key k
    if node == null then returns (p, s) else remove s p node

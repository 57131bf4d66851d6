-- ===== src/HashMap.antt =====
-- common/include/common/hash_map.hpp: a chained hash table whose buckets are intrusive lists, and the
-- table that takes its nodes from a pool. A node is named by the address of its `list_node`, its
-- first member; `key` is the memory of the `key` members.
use otrix.Prelude.{
  ℕ, zero, suc, ◌+◌, ◌*◌, ◌%◌, ◌≤◌, ◌<◌, ◌≡◌, ◌↔◌, Bool, true, false, not, ◌&&◌, ◌==◌, leb, ltb,
  if◌then◌else◌, Outcome, returns, spins, out_of_fuel, ◌>>=◌,
}
use otrix.IntrusiveList.{Ptr, null, Links, update, push_back, delete, init}
pub mod Lookup
pub mod Update
pub mod Pooled
mod Tests

-- `operator==` of the key type.
pub record Eq (K : Type 0) : Type 0 where
  pub beq : K → K → Bool
  pub beq_iff : (a b : K) → (beq a b ≡ true) ↔ (a ≡ b)

pub record HashMap (K : Type 0) : Type 0 where
  pub table_size : ℕ
  pub hash_func : K → ℕ
  pub table : ℕ → Ptr

module _ {K : Type 0} where
  -- `hash_map(table_size, hash_func)`: every bucket is NULL.
  unfoldable pub hash_map : ℕ → (K → ℕ) → HashMap K
  hash_map table_size hash_func = record {
    table_size = table_size;
    hash_func = hash_func;
    table = λ _. null;
  }

  -- `hash_func_(k) % table_size_`
  unfoldable pub bucket : HashMap K → K → ℕ
  bucket hm k = hm.hash_func k % hm.table_size

  unfoldable pub insert : Links → HashMap K → (Ptr → K) → Ptr → Outcome (HashMap K × Links)
  insert m hm key node = do
    let idx = bucket hm (key node)
    (head, m') ← push_back m (hm.table idx) node
    returns (record hm { table = update hm.table idx head }, m')

  unfoldable pub remove : Links → HashMap K → (Ptr → K) → Ptr → HashMap K × Links
  remove m hm key node =
      let idx = bucket hm (key node) in
      let (head, m') = delete m (hm.table idx) node in
      (record hm { table = update hm.table idx head }, m')

module _ {K : Type 0} ⦃e : Eq K⦄ where
  -- `do { … head = head->next; } while (head != table_[idx]);`
  unfoldable pub find_loop : ℕ → Links → (Ptr → K) → K → Ptr → Ptr → Outcome Ptr
  find_loop zero m key k first head = out_of_fuel
  find_loop (suc fuel) m key k first head =
      let again = find_loop fuel m key k first (m.next head) in
      if e.beq (key head) k
      then returns head
      else (if m.next head == first then returns null else again)

  unfoldable pub find : ℕ → Links → HashMap K → (Ptr → K) → K → Outcome Ptr
  unfolding find_loop bucket
  find fuel m hm key k =
      let head = hm.table (bucket hm k) in
      if head == null then returns null else find_loop fuel m key k head head

-- ===== src/Kmem.antt =====
-- kernel/kmem.cpp: the heap, a list of free blocks in address order that is threaded through the
-- blocks. An address is a number; pointer arithmetic past the address space is undefined there, so it
-- is not wrapped here; size_t arithmetic is.
use otrix.Prelude.{
  ℕ, zero, suc, ◌+◌, ◌-◌, ◌*◌, ◌%◌, ◌^◌, Bool, ◌==◌, ltb, leb, ◌||◌, not, if◌then◌else◌, Outcome,
  returns, out_of_fuel, ◌>>=◌,
}
pub mod Blocks
pub mod Replace
pub mod Represents
pub mod Take
pub mod FirstFit
pub mod TakeBlock
pub mod Alloc
pub mod Merge
pub mod Link
pub mod PutBack
pub mod Merges
pub mod Free
pub mod Live
pub mod RoundTrip
pub mod Wraps
mod Tests
use otrix.IntrusiveList.{
  Ptr, null, Links, update, set_next, init, delete, unlink_node, insert, link_last,
}

abbrev pub block_magic : ℕ
block_magic = 0xDEADBEEFABCDDCBA

-- sizeof(kmem_free_block_t), sizeof(kmem_used_block_t) and KMEM_MIN_FREE_BLOCK_SIZE
abbrev pub free_header : ℕ
free_header = 32

abbrev pub used_header : ℕ
used_header = 16

abbrev pub min_block_size : ℕ
min_block_size = if ltb used_header free_header then free_header else used_header

abbrev pub min_free_block_size : ℕ
min_free_block_size = min_block_size * 2

-- KMEM_ALLOCATION_SIZE
abbrev pub allocation_size : ℕ → ℕ
allocation_size size = if ltb min_free_block_size size then size else min_free_block_size

-- The headers of the blocks: `magic` and `size` by the address of the block, the list nodes by their
-- own address, 8 bytes into it. The `size` of a used block is the word that is `next` in a free one.
pub record Memory : Type 0 where
  pub magic : Ptr → ℕ
  pub links : Links
  pub size : Ptr → ℕ

abbrev pub list_node : Ptr → Ptr
list_node block = block + 8

-- KMEM_FREE_BLOCK_PTR: a node is never below 8.
abbrev pub free_block : Ptr → Ptr
free_block node = node - 8

abbrev pub used_size : Memory → Ptr → ℕ
used_size m block = m.links.next (list_node block)

abbrev pub set_magic : Memory → Ptr → ℕ → Memory
set_magic m block v = record m { magic = update m.magic block v }

abbrev pub set_size : Memory → Ptr → ℕ → Memory
set_size m block v = record m { size = update m.size block v }

abbrev pub set_links : Memory → Links → Memory
set_links m l = record m { links = l }

-- `p_block->magic = KMEM_BLOCK_MAGIC; p_block->size = size;` of a used block
abbrev pub set_used : Memory → Ptr → ℕ → Memory
set_used m block size =
    let m' = set_magic m block block_magic in
    set_links m' (set_next m'.links (list_node block) size)

pub record Heap : Type 0 where
  pub start : Ptr
  pub size : ℕ
  pub free_list : Ptr

unfoldable pub kmem_init : Memory → Ptr → ℕ → Outcome (Heap × Memory)
unfolding init
kmem_init m heap_start heap_size = do
  (node, l) ← init m.links (list_node heap_start)
  returns (
    record { start = heap_start; size = heap_size; free_list = list_node heap_start },
    set_magic (set_size (set_links m l) heap_start heap_size) heap_start block_magic,
  )

-- `do { if (size <= block->size) break; p_free = p_free->next; } while (p_free != free_list);`
unfoldable pub find_fit : ℕ → Memory → ℕ → Ptr → Ptr → Outcome Ptr
find_fit zero m size head p_free = out_of_fuel
find_fit (suc fuel) m size head p_free =
    let again = find_fit fuel m size head (m.links.next p_free) in
    if leb size (m.size (free_block p_free))
    then returns p_free
    else (if m.links.next p_free == head then returns head else again)

-- The rest of a block, behind the `size` bytes that are taken, becomes a block of its own.
unfoldable pub new_free_block : Memory → Ptr → ℕ → Outcome (Ptr × Memory)
unfolding init
new_free_block m p_free size = do
  let new_free = free_block p_free + size
  (node, l) ← init m.links (list_node new_free)
  returns (
    new_free,
    set_magic (set_size (set_links m l) new_free (m.size (free_block p_free) - size)) new_free
        block_magic,
  )

-- The new block takes the place of the old one in the list.
unfoldable pub replace_node : Memory → Ptr → Ptr → Ptr → Outcome Memory
unfolding unlink_node insert
replace_node m prev p_free node = do
  (inserted, l) ← insert (unlink_node m.links p_free) prev node
  returns (set_links m l)

-- Taking `size` bytes from the free block that was found.
unfoldable pub take_block : Heap → Memory → Ptr → ℕ → Outcome (Heap × Memory)
take_block h m p_free size =
    let rest = m.size (free_block p_free) - size in
    let deleted = delete m.links h.free_list p_free in
    let whole = returns (record h { free_list = deleted.0 }, set_links m deleted.1) in
    let split_head : Outcome (Heap × Memory) = (do
      (new_free, m') ← new_free_block m p_free size
      let prev = m'.links.prev p_free
      m'' ← if prev == p_free then returns m' else replace_node m' prev p_free (list_node new_free)
      returns (record h { free_list = list_node new_free }, m'')) in
    let split_inner : Outcome (Heap × Memory) = (do
      let prev = m.links.prev p_free
      (new_free, m') ← new_free_block m p_free size
      m'' ← replace_node m' prev p_free (list_node new_free)
      returns (h, m'')) in
    if p_free == h.free_list
    then (if ltb rest min_free_block_size then whole else split_head)
    else (if ltb rest min_free_block_size then whole else split_inner)

abbrev pub block_size : ℕ → ℕ
block_size size = allocation_size ((size + used_header) % 2 ^ 64)

unfoldable pub kmem_alloc : ℕ → Heap → Memory → ℕ → Outcome (Ptr × Heap × Memory)
kmem_alloc fuel h m size =
    let need = block_size size in
    if h.free_list == null then returns (null, h, m) else (do
      p_free ← find_fit fuel m need h.free_list h.free_list
      if ltb (m.size (free_block p_free)) need then returns (null, h, m) else (do
        (h', m') ← take_block h m p_free need
        returns (free_block p_free + used_header, h', set_used m' (free_block p_free) need)))

-- `do { if (block > ptr) break; p_prev = p_head; p_head = p_head->next; } while (p_head != free_list);`
unfoldable pub find_prev : ℕ → Links → Ptr → Ptr → Ptr → Ptr → Outcome Ptr
find_prev zero l head ptr p_prev p_head = out_of_fuel
find_prev (suc fuel) l head ptr p_prev p_head =
    let again = find_prev fuel l head ptr p_head (l.next p_head) in
    if ltb ptr (free_block p_head)
    then returns p_prev
    else (if l.next p_head == head then returns p_head else again)

-- The block at `node` is linked into the free list.
unfoldable pub link_free : ℕ → Heap → Memory → Ptr → Ptr → Outcome (Heap × Memory)
link_free fuel h m ptr node =
    if h.free_list == null then returns (record h { free_list = node }, m) else (do
      p_prev ← find_prev fuel m.links h.free_list ptr null h.free_list
      if p_prev == null
          then returns (
            record h { free_list = node },
            set_links m (link_last m.links h.free_list (m.links.prev h.free_list) node),
          )
          else (do (inserted, l) ← insert m.links p_prev node; returns (h, set_links m l)))

-- The block that the freed one belongs to when it is merged with the previous block, if that ends
-- where it starts.
unfoldable pub merge_prev : Memory → Ptr → ℕ → Ptr × Memory
unfolding unlink_node
merge_prev m p_free block_size =
    let p_prev_block = free_block (m.links.prev (list_node p_free)) in
    if (p_prev_block + m.size p_prev_block) == p_free
    then (
      p_prev_block,
      (let m' = set_size m p_prev_block ((m.size p_prev_block + block_size) % 2 ^ 64) in
          set_links m' (unlink_node m'.links (list_node p_free))),
    )
    else (p_free, m)

unfoldable pub merge_next : Memory → Ptr → Memory
unfolding unlink_node
merge_next m p_free =
    let p_next_block = free_block (m.links.next (list_node p_free)) in
    if (p_free + m.size p_free) == p_next_block
    then (let m' = set_size m p_free ((m.size p_free + m.size p_next_block) % 2 ^ 64) in
        set_links m' (unlink_node m'.links (list_node p_next_block)))
    else m

unfoldable pub kmem_free : ℕ → Heap → Memory → Ptr → Outcome (Heap × Memory)
kmem_free fuel h m ptr =
    let p_block = ptr - used_header in
    let size = used_size m p_block in
    if ptr == null
    then returns (h, m)
    else (if ltb p_block h.start || ltb (h.start + h.size) p_block
        then returns (h, m)
        else (if not (m.magic p_block == block_magic) then returns (h, m) else (do
          (node, l) ← init m.links (list_node p_block)
          let m1 = set_magic (set_size (set_links m l) p_block size) p_block block_magic
          (h', m2) ← link_free fuel h m1 ptr (list_node p_block)
          let merged = merge_prev m2 p_block size
          returns (h', merge_next merged.1 merged.0))))

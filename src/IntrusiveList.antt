-- ===== src/IntrusiveList.antt =====
-- common/include/common/list.h: the circular doubly linked list that the kernel threads through its
-- objects. A pointer is an address; `Links` is the memory of the `next` and `prev` members. An
-- access through a pointer is an access at its address, NULL included, since page 0 is mapped.
use otrix.Prelude.{
  ℕ, zero, suc, Bool, true, false, not, ◌&&◌, ◌==◌, if◌then◌else◌, Outcome, returns, spins,
  out_of_fuel, ◌>>=◌,
}
pub mod Chain
pub mod Distinct
pub mod PushBack
pub mod Delete
pub mod Frame
pub mod Erase
pub mod Find
pub mod Insert
pub mod InsertSorted
pub mod Table
pub mod Neighbours
mod Tests

abbrev pub Ptr : Type 0
Ptr = ℕ

abbrev pub null : Ptr
null = 0

-- `struct intrusive_list`, one at each address.
pub record Links : Type 0 where
  pub next : Ptr → Ptr
  pub prev : Ptr → Ptr

abbrev pub update {ℓ} : {A : Type ℓ} → (Ptr → A) → Ptr → A → Ptr → A
update f p v q = if q == p then v else f q

-- `p->next = v` and `p->prev = v`
abbrev pub set_next : Links → Ptr → Ptr → Links
set_next m p v = record m { next = update m.next p v }

abbrev pub set_prev : Links → Ptr → Ptr → Links
set_prev m p v = record m { prev = update m.prev p v }

-- `kASSERT(expr)` is `while (!(expr))`.
abbrev pub kassert : Bool → Outcome (Unit {0})
kassert true = returns tt
kassert false = spins

infixl 5 ◌>>◌
abbrev pub ◌>>◌ {ℓ} : {B : Type ℓ} → Outcome (Unit {0}) → Outcome B → Outcome B
m >> k = m >>= λ _. k

-- The two writes of `intrusive_list_init`.
abbrev pub self_link : Links → Ptr → Links
self_link m node = set_next (set_prev m node node) node node

unfoldable pub init : Links → Ptr → Outcome (Ptr × Links)
init m node = do kassert (not (node == null)); returns (node, self_link m node)

unfoldable pub get_tail : Links → Ptr → Outcome Ptr
get_tail m head = do kassert (not (head == null)); returns (m.prev head)

-- The four writes that put `tail` between `last` and `head`, in the source's order.
unfoldable pub link_last : Links → Ptr → Ptr → Ptr → Links
link_last m head last tail =
    set_prev (set_next (set_prev (set_next m last tail) tail last) tail head) head tail

unfoldable pub push_back : Links → Ptr → Ptr → Outcome (Ptr × Links)
unfolding init get_tail
push_back m head tail = do
  kassert (not (tail == null))
  if head == null
      then init m tail
      else (do last ← get_tail m head; returns (tail, link_last m head last tail))

unfoldable pub unlink_node : Links → Ptr → Links
unlink_node m node =
    if node == null
    then m
    else (let m' = set_next m (m.prev node) (m.next node) in
        set_prev m' (m'.next node) (m'.prev node))

-- `do { if (predicate(current)) return current; } while ((current = current->next));`
unfoldable pub find_loop : ℕ → Links → (Ptr → Bool) → Ptr → Outcome Ptr
find_loop zero m predicate current = out_of_fuel
find_loop (suc fuel) m predicate current =
    let again = find_loop fuel m predicate (m.next current) in
    if predicate current
    then returns current
    else (if m.next current == null then returns null else again)

unfoldable pub find_first : ℕ → Links → Ptr → (Ptr → Bool) → Outcome Ptr
unfolding find_loop
find_first fuel m head predicate = do kassert (not (head == null)); find_loop fuel m predicate head

unfoldable pub delete : Links → Ptr → Ptr → Ptr × Links
unfolding unlink_node
delete m head node =
    if node == head
    then (if node == m.next node then (null, m) else (m.next node, unlink_node m node))
    else (head, unlink_node m node)

unfoldable pub delete_first : ℕ → Links → Ptr → (Ptr → Bool) → Outcome (Ptr × Links)
unfolding find_first unlink_node
delete_first fuel m head predicate = do
  to_delete ← find_first fuel m head predicate
  if to_delete == null
      then returns (head, m)
      else returns ((if to_delete == head then m.next to_delete else head), unlink_node m to_delete)

-- The writes of `intrusive_list_insert`.
unfoldable pub link_after : Links → Ptr → Ptr → Links
link_after m prev node =
    let m1 = set_next m node (m.next prev) in
    let m2 = if m1.next node == null then m1 else set_prev m1 (m1.next node) node in
    set_next (set_prev m2 node prev) prev node

unfoldable pub insert : Links → Ptr → Ptr → Outcome (Ptr × Links)
unfolding link_after
insert m prev node = do
  kassert (not (prev == null) && not (node == null))
  returns (node, link_after m prev node)

-- `while (current != head && !compare(current, node)) current = current->next;`
unfoldable pub sorted_place : ℕ → Links → (Ptr → Ptr → Bool) → Ptr → Ptr → Ptr → Outcome Ptr
sorted_place zero m compare head node current = out_of_fuel
sorted_place (suc fuel) m compare head node current =
    let again = sorted_place fuel m compare head node (m.next current) in
    if not (current == head) && not (compare current node) then again else returns current

-- The writes that `intrusive_list_insert_sorted` makes, in both places: `node` before `current`.
unfoldable pub link_before : Links → Ptr → Ptr → Links
link_before m current node =
    let m1 = set_next m node current in
    let m2 = set_prev m1 node (m1.prev current) in
    let m3 = set_prev m2 current node in
    if m3.next current == current then set_next m3 current node else m3

unfoldable pub insert_sorted : ℕ → Links → (Ptr → Ptr → Bool) → Ptr → Ptr → Outcome (Ptr × Links)
unfolding sorted_place link_before
insert_sorted fuel m compare head node = do
  kassert (not (node == null))
  if head == null
      then returns (node, m)
      else (if compare head node then returns (node, link_before m head node) else (do
        current ← sorted_place fuel m compare head node (m.next head)
        returns (head, link_before m current node)))

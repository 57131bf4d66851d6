-- ===== src/TimerService/Construct.antt =====
-- The constructor: the descriptors of the array are in the pool, and no task is pending.
use otrix.Prelude.{◌≡◌, ◌≢◌, refl, sym, List, [], ◌∷◌, arith, false, ◌==◌, ne→==, returns}
use otrix.IntrusiveList.{Ptr, null, Links, self_link, init}
use otrix.IntrusiveList.Chain.{IsList}
use otrix.IntrusiveList.Distinct.{NotIn, Distinct, Apart, Apart-sym, Apart-cons, Apart-nil}
use otrix.IntrusiveList.Frame.{SameOutside, IsList-frame, push_back-cons}
use otrix.TimerService.{TimerService, fill_pool, construct}

-- The pending descriptors are `xs` and the free ones are `ys`, and none is both.
pub record Holds (t : TimerService) (xs ys : List Ptr) : Type 0 where
  pub pending : IsList t.links t.pending_tasks xs
  pub free : IsList t.links t.task_pool ys
  pub apart : Apart xs ys

-- The descriptors of the array in the order in which the pool has them, in front of `ys`.
abbrev pub onto : List Ptr → List Ptr → List Ptr
onto [] ys = ys
onto (x ∷ xs) ys = onto xs (x ∷ ys)

init-returns : (m : Links) (d : Ptr) → d ≢ null → init m d ≡ returns (d, self_link m d)
unfolding init
init-returns m d live = let test : (d == null) ≡ false = ne→== live in rw test refl

self_link-SameOutside : (m : Links) (d : Ptr) → SameOutside (d ∷ []) m (self_link m d)
self_link-SameOutside m d a out = ground arith

fill_pool-IsList :
    (tasks : List Ptr) (m : Links) (pool : Ptr) (ys : List Ptr)
    → IsList m pool ys
    → Distinct tasks
    → NotIn null tasks
    → Apart tasks ys
    → (pool' : Ptr) × (m' : Links) × (fill_pool tasks m pool ≡ returns (pool', m'))
      × IsList m' pool' (onto tasks ys)
unfolding fill_pool
fill_pool-IsList [] m pool ys is d ne ap = (pool, m, refl, is)
fill_pool-IsList (x ∷ xs) m pool ys is d ne ap =
    let live : x ≢ null = λ e. ne.0 (sym e) in
    let away = Apart-sym (x ∷ []) ys (ap.0, tt) in
    let still =
      IsList-frame (x ∷ []) m (self_link m x) (self_link-SameOutside m x) pool ys is away in
    let (m1, calls, list, same) = push_back-cons (self_link m x) pool x ys still live ap.0 in
    let (pool', m', rest, all) =
      fill_pool-IsList xs m1 x (x ∷ ys) list d.1 ne.1 (Apart-cons x xs ys d.0 ap.1) in
    (pool', m', rw (init-returns m x live, calls, rest) refl, all)

-- The constructor ends with every descriptor of the array in the pool, the last of them first, and no
-- task pending, whatever the memory held, when the descriptors are different and none is NULL.
pub construct-Holds :
    (blank : TimerService) (tasks : List Ptr)
    → Distinct tasks
    → NotIn null tasks
    → (t : TimerService) × (construct blank tasks ≡ returns t) × Holds t [] (onto tasks [])
unfolding construct
construct-Holds blank tasks d ne =
    let (pool, m, calls, list) =
      fill_pool-IsList tasks blank.links null [] refl d ne (Apart-nil tasks) in
    (
      record blank { links = m; pending_tasks = null; task_pool = pool },
      rw calls refl,
      record { pending = refl; free = list; apart = tt },
    )

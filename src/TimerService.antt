-- ===== src/TimerService.antt =====
-- kernel/timer_service.cpp: tasks that a thread of the kernel runs at their deadlines. A call is made
-- with the mutex held, so it is one step; the clock's readings and the callback are parameters.
use otrix.Prelude.{
  ℕ, ◌+◌, ◌-◌, ◌*◌, ◌%◌, ◌^◌, List, [], ◌∷◌, Bool, true, false, ◌||◌, ◌==◌, ltb, if◌then◌else◌,
  Outcome, returns, spins, faults, out_of_fuel, ◌>>=◌,
}
use otrix.IntrusiveList.{Ptr, null, Links, update, init, push_back, delete, insert_sorted}
pub mod Construct
pub mod Run
mod Tests

-- The members of the class, those of `task_desc_t` at each address, and the memory of the lists.
pub record TimerService : Type 0 where
  pub links : Links
  pub pending_tasks : Ptr
  pub task_pool : Ptr
  pub p_cb : Ptr → Ptr
  pub p_ctx : Ptr → Ptr
  pub deadline_tsc : Ptr → ℕ

-- The loop of the constructor, over the descriptors of the array.
unfoldable pub fill_pool : List Ptr → Links → Ptr → Outcome (Ptr × Links)
unfolding init push_back
fill_pool [] m pool = returns (pool, m)
fill_pool (task ∷ tasks) m pool = do
  linked ← init m task
  pooled ← push_back linked.1 pool task
  fill_pool tasks pooled.1 pooled.0

-- The constructor; `blank` has what the memory holds, and `task_pool_ptr` the descriptors.
unfoldable pub construct : TimerService → (task_pool_ptr : List Ptr) → Outcome TimerService
unfolding fill_pool
construct blank task_pool_ptr = do
  pooled ← fill_pool task_pool_ptr blank.links null
  returns (record blank { links = pooled.1; pending_tasks = null; task_pool = pooled.0 })

-- `TASK_PTR(a)->deadline_tsc > TASK_PTR(b)->deadline_tsc`
abbrev pub later : TimerService → Ptr → Ptr → Bool
later t a b = ltb (t.deadline_tsc b) (t.deadline_tsc a)

-- The descriptor is out of the pool, and filled in.
abbrev pub take_descriptor : TimerService → (cb ctx deadline : ℕ) → TimerService
take_descriptor t cb ctx deadline =
    let task = t.task_pool in
    let left = delete t.links task task in
    record {
      links = left.1;
      pending_tasks = t.pending_tasks;
      task_pool = left.0;
      p_cb = update t.p_cb task cb;
      p_ctx = update t.p_ctx task ctx;
      deadline_tsc = update t.deadline_tsc task deadline;
    }

-- The deadline of a task, in 64 bits; `ns_to_tsc` is the conversion of the clock.
abbrev pub deadline_of : (ns_to_tsc : ℕ → ℕ) → (now timeout_ms : ℕ) → ℕ
deadline_of ns_to_tsc now timeout_ms =
    (now + ns_to_tsc (timeout_ms * 1000 * 1000 % 2 ^ 64)) % 2 ^ 64

-- What is returned, whether the thread of the service is woken, and the state.
unfoldable pub add_task :
    ℕ
    → (ns_to_tsc : ℕ → ℕ) → (now : ℕ) → TimerService
    → (cb ctx timeout_ms : ℕ) → Outcome (Ptr × Bool × TimerService)
add_task fuel ns_to_tsc now t cb ctx timeout_ms =
    let task = t.task_pool in
    let t1 = take_descriptor t cb ctx (deadline_of ns_to_tsc now timeout_ms) in
    let inserted = insert_sorted fuel t1.links (later t1) t1.pending_tasks task in
    if (cb == null) || (t.task_pool == null) then returns (null, false, t) else (do
      placed ← inserted
      returns (task, task == placed.0, record t1 { pending_tasks = placed.0; links = placed.1 }))

unfoldable pub remove_task : TimerService → Ptr → Outcome TimerService
remove_task t p_task =
    let left = delete t.links t.pending_tasks p_task in
    if p_task == null then returns t else (do
      pooled ← push_back left.1 t.task_pool p_task
      returns (record t { pending_tasks = left.0; task_pool = pooled.0; links = pooled.1 }))

-- `p_cb(p_ctx, shared_ctx_)`, with what it makes of the service's state.
abbrev pub Callback : Type 0
Callback = (cb ctx : Ptr) → TimerService → TimerService

-- The first pending task is taken off the list, and called: the call, and what the callback leaves.
unfoldable pub run_task : Callback → TimerService → (Ptr × Ptr) × TimerService
run_task callback t =
    let task = t.pending_tasks in
    let left = delete t.links task task in
    (
      (t.p_cb task, t.p_ctx task),
      callback (t.p_cb task) (t.p_ctx task) (record t { pending_tasks = left.0; links = left.1 }),
    )

-- `memset(&task, 0, sizeof(task))` sets the pointer to NULL, and what it then points to goes to the pool.
unfoldable pub retire_task : TimerService → Outcome TimerService
retire_task t = do
  pooled ← push_back t.links t.task_pool null
  returns (record t { task_pool = pooled.0; links = pooled.1 })

-- The inner loop of `run`, with the clock's reading in each round: the calls that it makes, in order,
-- with their contexts, and how it ends, with the deadline that is slept until.
unfoldable pub run_pending :
    Callback → List ℕ → TimerService → List (Ptr × Ptr) × Outcome (ℕ × TimerService)
unfolding run_task retire_task
run_pending callback [] t = ([], out_of_fuel)
run_pending callback (now ∷ clock) t =
    let again = λ (t' : TimerService). run_pending callback clock t' in
    let deadline = t.deadline_tsc t.pending_tasks in
    let ran = run_task callback t in
    if t.pending_tasks == null
    then ([], returns (2 ^ 64 - 1, t))
    else (if ltb now deadline then ([], returns (deadline, t)) else elim (retire_task ran.1) [
      | returns t' ↦ (ran.0 ∷ (again t').0, (again t').1)
      | spins ↦ (ran.0 ∷ [], spins)
      | faults ↦ (ran.0 ∷ [], faults)
      | out_of_fuel ↦ (ran.0 ∷ [], out_of_fuel)
    ])

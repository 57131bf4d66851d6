-- ===== src/Sync.antt =====
-- kernel/waitq.cpp, kernel/semaphore.cpp, kernel/mutex.cpp and kernel/msgq.cpp. A wait queue is the list of
-- its items' threads from its head on: `intrusive_list_push_back` makes the new item the head. A call
-- that waits ends with the thread in the queue; what it does when it is woken is a call of its own.
use otrix.Prelude.{
  ℕ, ◌+◌, ◌-◌, ◌%◌, List, [], ◌∷◌, Bool, true, false, not, ◌&&◌, ◌==◌, if◌then◌else◌, Option, none,
  some,
}
use otrix.IntrusiveList.{update}
pub mod Semaphore
pub mod Mutex
pub mod Ring
pub mod Msgq
mod Tests

abbrev pub Thread : Type 0
Thread = ℕ

abbrev pub WaitQueue : Type 0
WaitQueue = List Thread

unfoldable pub wait : WaitQueue → Thread → WaitQueue
wait wq thread = thread ∷ wq

-- The thread of the item that is taken off, if any: `wake` is called for it, which does nothing for a
-- thread that is not blocked any more. An item whose wait timed out is still in the queue, and a
-- notification that takes it off is lost.
unfoldable pub notify_one : WaitQueue → Option Thread × WaitQueue
notify_one [] = (none, [])
notify_one (thread ∷ wq) = (some thread, wq)

-- How a call that may wait ends.
pub data Wait : Type 0 where
  gives_up got waits : Wait

-- `semaphore`
pub record SemaphoreState : Type 0 where
  pub waiting_queue : WaitQueue
  pub count : ℕ
  pub max_count : ℕ

unfoldable pub take : SemaphoreState → Thread → (timeout_ms : ℕ) → Wait × SemaphoreState
unfolding wait
take s thread timeout_ms =
    if s.count == 0
    then (if timeout_ms == 0
        then (gives_up, s)
        else (waits, record s { waiting_queue = wait s.waiting_queue thread }))
    else (got, record s { count = s.count - 1 })

-- The part of `give` below its maximum.
abbrev pub give_to : SemaphoreState → WaitQueue → Option Thread × SemaphoreState
give_to s [] = (none, record s { count = s.count + 1 })
give_to s (thread ∷ wq) =
    if s.count == 0
    then ((notify_one (thread ∷ wq)).0, record s { waiting_queue = (notify_one (thread ∷ wq)).1 })
    else (none, record s { count = s.count + 1 })

unfoldable pub give : SemaphoreState → Option Thread × SemaphoreState
unfolding notify_one
give s = if s.count == s.max_count then (none, s) else give_to s s.waiting_queue

-- `mutex`
pub record MutexState : Type 0 where
  pub waiting_queue : WaitQueue
  pub owner : Option Thread

-- The first part of `lock`, with interrupts off: whether the mutex was free, and is now the thread's.
unfoldable pub try_lock : MutexState → Thread → Bool × MutexState
try_lock m thread = elim m.owner [
  | none ↦ (true, record m { owner = some thread })
  | some other ↦ (false, m)
]

-- The second part, when it was not free, and the third, when the wait succeeds.
unfoldable pub wait_lock : MutexState → Thread → MutexState
unfolding wait
wait_lock m thread = record m { waiting_queue = wait m.waiting_queue thread }

unfoldable pub woken_lock : MutexState → Thread → MutexState
woken_lock m thread = record m { owner = some thread }

abbrev pub is_owner : Option Thread → Thread → Bool
is_owner none thread = false
is_owner (some other) thread = other == thread

abbrev pub hand_over : MutexState → WaitQueue → Option Thread × MutexState
hand_over m [] = (none, record m { owner = none })
hand_over m (thread ∷ wq) =
    ((notify_one (thread ∷ wq)).0, record m { waiting_queue = (notify_one (thread ∷ wq)).1 })

unfoldable pub unlock : MutexState → Thread → Option Thread × MutexState
unfolding notify_one
unlock m thread = if is_owner m.owner thread then hand_over m m.waiting_queue else (none, m)

-- `msgq`: a message is a number, the storage a function on places.
pub record MsgqState : Type 0 where
  pub storage : ℕ → ℕ
  pub read_p : ℕ
  pub write_p : ℕ
  pub size : ℕ
  pub sem : SemaphoreState

unfoldable pub msgq : ℕ → MsgqState
msgq size = record {
  storage = λ i. 0;
  read_p = 0;
  write_p = 0;
  size = size;
  sem = record { waiting_queue = []; count = 0; max_count = size };
}

-- `write`: whether the message was taken, the reader that is woken, and the queue.
unfoldable pub write : MsgqState → ℕ → Bool × Option Thread × MsgqState
unfolding give
write q msg =
    if (q.write_p == q.read_p) && not (q.sem.count == 0)
    then (false, none, q)
    else (let given = give q.sem in
        (
          true,
          given.0,
          record q {
            storage = update q.storage q.write_p msg;
            write_p = (q.write_p + 1) % q.size;
            sem = given.1;
          },
        ))

-- The part of `read` behind `take`, with interrupts off.
unfoldable pub fetch : MsgqState → ℕ × MsgqState
fetch q = (q.storage q.read_p, record q { read_p = (q.read_p + 1) % q.size })

-- The beginning of `read`.
unfoldable pub begin_read : MsgqState → Thread → (timeout_ms : ℕ) → Wait × MsgqState
unfolding take
begin_read q thread timeout_ms =
    let taken = take q.sem thread timeout_ms in (taken.0, record q { sem = taken.1 })

abbrev pub full : MsgqState → Bool
full q = q.sem.count == q.size

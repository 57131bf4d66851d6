-- ===== src/Scheduler.antt =====
-- kernel/kthread.cpp and kernel/include/kernel/kthread.hpp: the scheduler of the kernel's threads.
-- A thread is named by the address of its list node; reading `p_thread` of a node gives the thread
-- back. A call is the change up to its context switch, which is the last thing that `schedule` does
-- to the scheduler. Interrupts are off in every call, so a call is one step.
use otrix.Prelude.{
  ℕ, zero, suc, ◌+◌, ◌*◌, ◌-◌, ◌%◌, ◌^◌, Bool, true, false, not, ◌&&◌, ◌||◌, ◌==◌, ltb,
  if◌then◌else◌, Option, none, some, min, Outcome, returns, faults, out_of_fuel, ◌>>=◌,
}
use otrix.Error.{Kerror, ok, inval}
use otrix.IntrusiveList.{Ptr, null, Links, update, push_back, delete, insert_sorted}
pub mod Queues
pub mod Add
pub mod Timer
pub mod Wake
pub mod Schedule
pub mod RoundRobin
pub mod Sleep
pub mod TimerIrq
pub mod Starve
mod Tests

-- `kthread_state`
pub data KthreadState : Type 0 where
  zombie active runnable blocked : KthreadState

abbrev pub num_priorities : ℕ
num_priorities = 10

-- `static_cast<uint64_t>(-1)`
abbrev pub no_deadline : ℕ
no_deadline = 2 ^ 64 - 1

-- The scheduler, the members of the threads (`priority`, `state` and `tsc_deadline`, by thread) and
-- the deadline that the local APIC was armed with last.
pub record Scheduler : Type 0 where
  pub links : Links
  pub priority : Ptr → ℕ
  pub state : Ptr → KthreadState
  pub tsc_deadline : Ptr → ℕ
  pub runnable_queues : ℕ → Ptr
  pub blocked_queues : ℕ → Ptr
  pub current_thread : Ptr
  pub need_resched : Bool
  pub nearest_tsc_deadline : ℕ
  pub preempt_disable : ℕ
  pub armed : ℕ

unfoldable pub add_thread : Scheduler → Ptr → Outcome (Kerror × Scheduler)
add_thread s thread = if thread == null then returns (inval, s) else (do
  let prio = s.priority thread
  (head, links) ← push_back s.links (s.runnable_queues prio) thread
  let preempts = not (s.current_thread == null) && ltb (s.priority s.current_thread) prio
  returns (
    ok,
    record s {
      links = links;
      state = update s.state thread runnable;
      runnable_queues = update s.runnable_queues prio head;
      need_resched = if preempts then true else s.need_resched;
    },
  ))

-- `scheduler::scheduler()`, over threads of which `idle` is the idle thread.
unfoldable pub scheduler : Scheduler → Ptr → Outcome Scheduler
scheduler s idle = do
  (_, s') ←
      add_thread
        (record s {
          runnable_queues = λ _. null;
          blocked_queues = λ _. null;
          current_thread = null;
          need_resched = false;
          nearest_tsc_deadline = no_deadline;
          preempt_disable = 0;
        })
        idle
  returns (record s' { current_thread = idle })

unfoldable pub remove_thread : Scheduler → Ptr → Kerror × Scheduler
remove_thread s thread =
    if thread == null
    then (inval, s)
    else (let prio = s.priority thread in
        let (head, links) = delete s.links (s.runnable_queues prio) thread in
        (
          ok,
          record s {
            links = links;
            state = update s.state thread zombie;
            runnable_queues = update s.runnable_queues prio head;
          },
        ))

-- `while (prio >= 0) { … prio--; }` from `prio - 1` down: the first queue that is not empty.
unfoldable pub pick : (ℕ → Ptr) → ℕ → Option ℕ
pick queues zero = none
pick queues (suc prio) = if queues prio == null then pick queues prio else some prio

-- The part of `schedule` after the selection. With no thread to run it goes through NULL.
unfoldable pub switch_to : Scheduler → Option ℕ → Outcome (Kerror × Scheduler)
switch_to s none = faults
switch_to s (some prio) =
    let head = s.runnable_queues prio in
    returns (
      ok,
      record s {
        need_resched = false;
        current_thread = head;
        state = update s.state head active;
        runnable_queues = update s.runnable_queues prio (s.links.next head);
      },
    )

unfoldable pub schedule : Scheduler → Outcome (Kerror × Scheduler)
unfolding pick switch_to
schedule s =
    if ltb 0 s.preempt_disable
    then returns (ok, s)
    else switch_to s (pick s.runnable_queues num_priorities)

-- `if (nearest_tsc_deadline_ != -1) local_apic::start_timer(nearest_tsc_deadline_);`
abbrev pub arm_timer : Scheduler → Scheduler
arm_timer s =
    if s.nearest_tsc_deadline == no_deadline then s else record s { armed = s.nearest_tsc_deadline }

-- The queue that `sleep_until` makes of the queue of blocked threads of one priority.
unfoldable pub block : ℕ → Scheduler → Ptr → ℕ → ℕ → Outcome (Ptr × Links)
block fuel s thread prio deadline =
    let queue = s.blocked_queues prio in
    if deadline == no_deadline
    then push_back s.links queue thread
    else (if queue == null
        then push_back s.links queue thread
        else insert_sorted fuel s.links (λ a b. ltb (s.tsc_deadline b) (s.tsc_deadline a)) queue
            thread)

-- The fuel is for the walk of `insert_sorted`.
unfoldable pub sleep_until : ℕ → Scheduler → ℕ → Outcome (Kerror × Scheduler)
unfolding block
sleep_until fuel s deadline = do
  let thread = s.current_thread
  let prio = s.priority thread
  let removed = (remove_thread s thread).1
  let blocks = record removed {
    state = update removed.state thread blocked;
    tsc_deadline = update removed.tsc_deadline thread deadline;
    nearest_tsc_deadline =
        if deadline == no_deadline
        then removed.nearest_tsc_deadline
        else min removed.nearest_tsc_deadline deadline;
  }
  (head, links) ← block fuel blocks thread prio deadline
  let queued = record blocks {
    links = links;
    blocked_queues = update blocks.blocked_queues prio head;
  }
  (_, s') ← schedule (arm_timer queued)
  returns (ok, s')

-- `tsc` is what `arch_tsc()` reads, `ns_to_tsc` is that of arch/x86_64/kvmclock.cpp.
unfoldable pub sleep :
    ℕ → Scheduler → (tsc : ℕ) → (ns_to_tsc : ℕ → ℕ) → ℕ → Outcome (Kerror × Scheduler)
sleep fuel s tsc ns_to_tsc block_time_ms =
    if block_time_ms == no_deadline
    then sleep_until fuel s no_deadline
    else sleep_until fuel s ((tsc + ns_to_tsc (block_time_ms * 1000 * 1000 % 2 ^ 64)) % 2 ^ 64)

-- `for (int p = NUM_PRIORITIES - 1; p >= 0; p--)` of `setup_timer`.
unfoldable pub nearest_deadline : Scheduler → ℕ → ℕ → ℕ
nearest_deadline s zero nearest = nearest
nearest_deadline s (suc p) nearest = nearest_deadline s p (
    if s.blocked_queues p == null
    then nearest
    else min (s.tsc_deadline (s.blocked_queues p)) nearest)

unfoldable pub setup_timer : Scheduler → Scheduler
setup_timer s =
    arm_timer (record s { nearest_tsc_deadline = nearest_deadline s num_priorities no_deadline })

abbrev pub is_blocked : KthreadState → Bool
is_blocked zombie = false
is_blocked active = false
is_blocked runnable = false
is_blocked blocked = true

unfoldable pub wake : Scheduler → Ptr → Outcome (Kerror × Scheduler)
wake s thread =
    if is_blocked (s.state thread)
    then (do
      let prio = s.priority thread
      let (head, links) = delete s.links (s.blocked_queues prio) thread
      (_, s') ←
          add_thread
            (record s { links = links; blocked_queues = update s.blocked_queues prio head }) thread
      returns (ok, setup_timer s'))
    else returns (inval, s)

unfoldable pub preempt_disable : Scheduler → Scheduler
preempt_disable s = record s { preempt_disable = s.preempt_disable + 1 }

unfoldable pub preempt_enable : Scheduler → Bool → Outcome Scheduler
preempt_enable s reschedule =
    if ltb 0 s.preempt_disable
    then (let s1 = record s { preempt_disable = s.preempt_disable - 1 } in
        if (s1.preempt_disable == 0) && reschedule && s1.need_resched
        then (do (_, s2) ← schedule s1; returns s2)
        else returns s1)
    else returns s

-- ===== src/Scheduler/TimerIrq.antt =====
-- `handle_timer_irq`: the threads whose deadline has passed are woken.
use otrix.Prelude.{
  ℕ, zero, suc, ◌+◌, ◌≤◌, ◌<◌, ◌≡◌, ◌≢◌, refl, sym, subst, ◌∙◌, List, [], ◌∷◌, ◌++◌, length, true,
  false, ◌==◌, ltb, ne→==, ==_iff, ==_self, if◌then◌else◌, Bool-cases, inl, inr, arith, returns,
  min, Outcome, out_of_fuel, ◌>>=◌,
}
use otrix.Error.{ok}
use otrix.IntrusiveList.{Ptr, null}
use otrix.IntrusiveList.Chain.{IsList}
use otrix.IntrusiveList.Erase.{contains}
use otrix.Scheduler.{Scheduler, num_priorities, no_deadline, wake, schedule, arm_timer}
use otrix.Scheduler.Queues.{Queue, runnable_at, blocked_at, same, IsValid, All, Belongs}
use otrix.Scheduler.Add.{with_added}
use otrix.Scheduler.Timer.{arm_timer-any}
use otrix.Scheduler.Schedule.{scheduled}
use otrix.IntrusiveList.Table.{put}
use otrix.Scheduler.RoundRobin.{schedule-Highest}
use otrix.Scheduler.Wake.{unblocked, without_blocked, wake-IsValid}
pub mod Waits

-- `tsc k` is what the `k`-th call of `arch_tsc` in the interrupt reads, from 0; the number of the next
-- call is part of the results.
module _ (tsc : ℕ → ℕ) where
  -- The inner loop, over the queue of priority `p`.
  unfoldable pub wake_expired : ℕ → Scheduler → ℕ → ℕ → Outcome (Scheduler × ℕ)
  wake_expired zero s p k = out_of_fuel
  wake_expired (suc fuel) s p k =
      let head = s.blocked_queues p in
      let again = wake s head >>= λ r. wake_expired fuel r.1 p (k + 1) in
      if head == null
      then returns (s, k)
      else (if ltb (s.tsc_deadline head) (tsc k) then again else returns (s, k + 1))

  -- The outer loop, from priority `p - 1` down.
  unfoldable pub irq_queues : ℕ → Scheduler → ℕ → ℕ → Outcome Scheduler
  irq_queues fuel s zero k = returns s
  irq_queues fuel s (suc p) k = do
    (s1, k1) ← wake_expired fuel s p k
    let head = s1.blocked_queues p
    irq_queues fuel
        (record s1 {
          nearest_tsc_deadline =
              if head == null
              then s1.nearest_tsc_deadline
              else min (s1.tsc_deadline head) s1.nearest_tsc_deadline;
        })
        p k1

  -- The fuel is for each run of the inner loop.
  unfoldable pub handle_timer_irq : ℕ → Scheduler → Outcome Scheduler
  handle_timer_irq fuel s = do
    s1 ← irq_queues fuel (record s { nearest_tsc_deadline = no_deadline }) num_priorities 0
    let s2 = arm_timer s1
    if s2.need_resched then (do (_, s3) ← schedule s2; returns s3) else returns s2

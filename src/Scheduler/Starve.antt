-- ===== src/Scheduler/Starve.antt =====
-- A sleep without a deadline, and the timer interrupt after it.
use otrix.Prelude.{
  ℕ, suc, ◌+◌, ◌≤◌, ◌<◌, ◌≡◌, refl, sym, List, ◌∷◌, true, false, ◌==◌, ltb, ne→==, ==_self, inl,
  arith, returns,
}
use otrix.Error.{ok}
use otrix.IntrusiveList.{Ptr, null}
use otrix.IntrusiveList.Chain.{IsList}
use otrix.IntrusiveList.Erase.{contains}
use otrix.Scheduler.{Scheduler, no_deadline, num_priorities, sleep_until}
use otrix.Scheduler.Queues.{Queue, runnable_at, blocked_at, IsValid}
use otrix.Scheduler.Sleep.{without_running, sleep_until-IsValid}
use otrix.Scheduler.Schedule.{scheduled}
use otrix.Scheduler.TimerIrq.{wake_expired}

-- The running thread of a valid scheduler sleeps without a deadline, with preemption enabled and
-- another thread left to run. Then the timer interrupt, at any readings of the 64-bit clock, wakes no
-- thread of its priority, whatever the deadlines of the threads that were blocked before.
pub sleep_until-wake_expired :
    (fuel : ℕ) (s : Scheduler) (lists : Queue → List Ptr) (v : IsValid s lists) (prio : ℕ) (c : Ptr)
    (tsc : ℕ → ℕ) (rounds k : ℕ)
    → s.preempt_disable ≡ 0
    → prio < num_priorities
    → contains c (without_running s no_deadline lists v (runnable_at prio)) ≡ true
    → ((j : ℕ) → tsc j ≤ no_deadline)
    → (s' : Scheduler) × (sleep_until fuel s no_deadline ≡ returns (ok, s'))
      × (wake_expired tsc (suc rounds) s' (s.priority s.current_thread) k ≡ returns (s', k + 1))
unfolding wake_expired
sleep_until-wake_expired fuel s lists v prio c tsc rounds k enabled lt mem clock =
    let t = s.current_thread in
    let (s1, p, x, xs, calls, _, deadline, v') =
      sleep_until-IsValid fuel s no_deadline lists v prio c enabled (inl refl) lt mem in
    let s' : Scheduler = scheduled s1 p x in
    let is : IsList s'.links (s'.blocked_queues (s.priority t))
        (t ∷ lists (blocked_at (s.priority t))) =
      rw (==_self (s.priority t)) at (v'.owns.list (blocked_at (s.priority t))) in
    let not_null : (t == null) ≡ false = ne→== (λ e. is.3.0 (sym e)) in
    let waits : ltb (s1.tsc_deadline t) (tsc k) ≡ false = rw deadline (ground (arith, clock k)) in
    (s', calls, rw (is.0, not_null, waits) refl)

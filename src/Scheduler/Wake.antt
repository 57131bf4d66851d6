-- ===== src/Scheduler/Wake.antt =====
-- `wake`: a blocked thread goes back to its run queue.
use otrix.Prelude.{
  ℕ, ◌≤◌, ◌<◌, ◌≡◌, refl, subst, List, true, false, ◌==◌, Bool-cases, inl, inr, returns, ==_iff,
  ==_self,
}
use otrix.Error.{ok}
use otrix.IntrusiveList.{Ptr, update, delete}
use otrix.IntrusiveList.Erase.{contains, erase, contains-ne_null}
use otrix.IntrusiveList.Table.{Owns-ext, put, delete-Owns, NotIn-put}
use otrix.Scheduler.{Scheduler, num_priorities, is_blocked, add_thread, setup_timer, wake}
use otrix.Scheduler.Queues.{
  Queue, runnable_at, blocked_at, same, same_iff, heads, All, Belongs, IsValid, All-erase,
  All-contains,
}
use otrix.Scheduler.Add.{added, with_added, add_thread-IsValid}
use otrix.Scheduler.Timer.{
  setup_timer-IsValid, setup_timer-state, setup_timer-tsc_deadline, setup_timer-nearest,
  first_deadline,
}

module _ (s : Scheduler) (t : Ptr) where
  -- The scheduler after the deletion from the blocked queue.
  abbrev pub unblocked : Scheduler
  unblocked =
      let prio = s.priority t in
      let r = delete s.links (s.blocked_queues prio) t in
      record s { links = r.1; blocked_queues = update s.blocked_queues prio r.0 }

  module _ (lists : Queue → List Ptr) where
    abbrev pub without_blocked : Queue → List Ptr
    without_blocked =
        put same lists (blocked_at (s.priority t)) (erase t (lists (blocked_at (s.priority t))))

    unblocked-IsValid :
        IsValid s lists
        → contains t (lists (blocked_at (s.priority t))) ≡ true
        → IsValid unblocked without_blocked
    unblocked-IsValid v mem = record {
      owns =
          Owns-ext _ _ _ _ _ (elim [ runnable_at p ↦ refl | blocked_at p ↦ refl ]) (λ q. refl)
            (delete-Owns same same_iff s.links (heads s) lists v.owns (blocked_at (s.priority t)) t
              mem);
      belongs = belongs;
      current_runs = v.current_runs;
      current_priority = v.current_priority;
    }
      where
        belongs : (q : Queue) → All (Belongs unblocked q) (without_blocked q)
        belongs (runnable_at p) = v.belongs (runnable_at p)
        belongs (blocked_at p) = elim (Bool-cases (p == s.priority t)) [
          | inl e ↦
              let at : p ≡ s.priority t = (==_iff p (s.priority t)).0 e in
              rw e (
                subst (λ i. All (Belongs s (blocked_at p)) (erase t (lists (blocked_at i)))) at
                  (All-erase _ t (lists (blocked_at p)) (v.belongs (blocked_at p))))
          | inr e ↦ rw e (v.belongs (blocked_at p))
        ]

  wake_returns :
      (s' : Scheduler)
      → is_blocked (s.state t) ≡ true
      → add_thread unblocked t ≡ returns (ok, s')
      → wake s t ≡ returns (ok, setup_timer s')
  unfolding wake
  wake_returns s' e calls = rw (e, calls) refl

  -- In a valid scheduler, waking a member of the blocked queue of its priority: it leaves that queue and
  -- comes first in the run queue of its priority, every other thread keeps its place, the invariant
  -- holds, no deadline changes, and the nearest deadline is no later than that of the first thread
  -- that is still blocked, of any priority `p`.
  pub wake-IsValid :
      (lists : Queue → List Ptr)
      → IsValid s lists
      → contains t (lists (blocked_at (s.priority t))) ≡ true
      → (p : ℕ) → p < num_priorities
      → (s' : Scheduler) × (wake s t ≡ returns (ok, s'))
        × IsValid s' (with_added unblocked t (without_blocked lists))
        × (is_blocked (s'.state t) ≡ false)
        × (s'.tsc_deadline ≡ s.tsc_deadline)
        × (s'.nearest_tsc_deadline ≤ first_deadline s' p)
  wake-IsValid lists v mem p lt =
      let state : is_blocked (s.state t) ≡ true =
        (All-contains _ t (lists (blocked_at (s.priority t))) (v.belongs _) mem).1 in
      let ne =
        contains-ne_null s.links _ t (lists (blocked_at (s.priority t))) (v.owns.list _) mem in
      let fresh =
        NotIn-put same same_iff s.links (heads s) lists v.owns (blocked_at (s.priority t))
          (runnable_at (s.priority t)) (λ f. cc) t mem in
      let (m', calls, v') =
        add_thread-IsValid unblocked t (without_blocked lists) (unblocked-IsValid lists v mem) ne
          fresh in
      let s1 : Scheduler = added unblocked t m' in
      (
        setup_timer s1,
        wake_returns s1 state calls,
        setup_timer-IsValid s1 _ v',
        rw (setup_timer-state s1, ==_self t) refl,
        setup_timer-tsc_deadline s1,
        setup_timer-nearest s1 p lt,
      )

-- ===== src/Scheduler/Sleep.antt =====
-- `remove_thread` and `sleep_until`: the running thread leaves its run queue and is blocked.
use otrix.Prelude.{
  ℕ, ◌<◌, ◌≡◌, ◌≢◌, refl, sym, subst, List, [], ◌∷◌, ◌++◌, true, ◌==◌, ne→==, ==_iff, ==_self,
  if◌then◌else◌, Bool-cases, inl, inr, returns, min, ◌⊎◌,
}
use otrix.Error.{ok}
use otrix.IntrusiveList.{Ptr, null, Links, update, delete, push_back}
use otrix.IntrusiveList.Distinct.{NotIn}
use otrix.IntrusiveList.Erase.{contains, erase, contains-ne_null}
use otrix.IntrusiveList.Table.{Owns, Owns-ext, put, NotIn-put, move-Owns}
use otrix.Scheduler.{
  Scheduler, blocked, zombie, no_deadline, num_priorities, remove_thread, block, arm_timer,
  sleep_until, schedule,
}
use otrix.Scheduler.Queues.{
  Queue, runnable_at, blocked_at, same, same_iff, heads, All, Belongs, IsValid, All-frame,
  All-erase,
}
use otrix.Scheduler.Timer.{arm_timer-any}
use otrix.Scheduler.Schedule.{scheduled}
use otrix.Scheduler.RoundRobin.{Highest, runs-Highest}

module _ (s : Scheduler) (deadline : ℕ) where
  -- The running thread, blocked, in the memory `m` of the links.
  abbrev pub sleeping : Links → Scheduler
  sleeping m =
      let t = s.current_thread in
      let prio = s.priority t in
      record s {
        links = m;
        state = update (update s.state t zombie) t blocked;
        tsc_deadline = update s.tsc_deadline t deadline;
        nearest_tsc_deadline =
            if deadline == no_deadline
            then s.nearest_tsc_deadline
            else min s.nearest_tsc_deadline deadline;
        runnable_queues =
            update s.runnable_queues prio (delete s.links (s.runnable_queues prio) t).0;
        blocked_queues = update s.blocked_queues prio t;
      }

  Belongs-sleeping :
      (m : Links) (q : Queue) (a : Ptr)
      → a ≢ s.current_thread
      → Belongs s q a
      → Belongs (sleeping m) q a
  Belongs-sleeping m (runnable_at p) a ne b = rw (ne→== ne) b
  Belongs-sleeping m (blocked_at p) a ne b = rw (ne→== ne) b

  module _ (lists : Queue → List Ptr) (v : IsValid s lists) where
    abbrev pub without_running : Queue → List Ptr
    without_running =
        let t = s.current_thread in
        let prio = s.priority t in
        put same lists (runnable_at prio) (erase t (lists (runnable_at prio)))

    -- The queues once the running thread is blocked: first in the blocked queue of its priority.
    abbrev pub with_sleeping : Queue → List Ptr
    with_sleeping =
        let t = s.current_thread in
        let prio = s.priority t in
        put same without_running (blocked_at prio) (t ∷ lists (blocked_at prio))

    ne : s.current_thread ≢ null
    ne = contains-ne_null s.links _ s.current_thread _ (v.owns.list _) v.current_runs

    fresh : (q : Queue) → NotIn s.current_thread (without_running q)
    fresh =
        NotIn-put same same_iff s.links (heads s) lists v.owns
          (runnable_at (s.priority s.current_thread)) (blocked_at (s.priority s.current_thread))
          (λ e. cc) s.current_thread v.current_runs

    All-without_running : (q : Queue) → All (Belongs s q) (without_running q)
    All-without_running (runnable_at p) = elim (Bool-cases (p == s.priority s.current_thread)) [
      | inl e ↦
          let at : p ≡ s.priority s.current_thread = (==_iff p _).0 e in
          rw e (
            subst
              (λ i.
                All (Belongs s (runnable_at i))
                  (erase s.current_thread (lists (runnable_at (s.priority s.current_thread)))))
              (sym at)
              (All-erase _ s.current_thread (lists (runnable_at (s.priority s.current_thread)))
                (v.belongs _)))
      | inr e ↦ rw e (v.belongs (runnable_at p))
    ]
    All-without_running (blocked_at p) = v.belongs (blocked_at p)

    All-sleeping : (m : Links) (q : Queue) → All (Belongs (sleeping m) q) (with_sleeping q)
    All-sleeping m (runnable_at p) =
        All-frame _ _ s.current_thread (without_running (runnable_at p)) (fresh (runnable_at p))
          (Belongs-sleeping m (runnable_at p)) (All-without_running (runnable_at p))
    All-sleeping m (blocked_at p) = elim (Bool-cases (p == s.priority s.current_thread)) [
      | inl e ↦
          let at : p ≡ s.priority s.current_thread = (==_iff p _).0 e in
          let rest =
            All-frame _ _ s.current_thread (lists (blocked_at p)) (fresh (blocked_at p))
              (Belongs-sleeping m (blocked_at p)) (v.belongs (blocked_at p)) in
          let moved : All (Belongs (sleeping m) (blocked_at p))
              (lists (blocked_at (s.priority s.current_thread))) =
            subst (λ i. All (Belongs (sleeping m) (blocked_at p)) (lists (blocked_at i))) at rest in
          rw e ((sym at, rw (==_self s.current_thread) refl), moved)
      | inr e ↦ rw e (
          All-frame _ _ s.current_thread (lists (blocked_at p)) (fresh (blocked_at p))
            (Belongs-sleeping m (blocked_at p)) (v.belongs (blocked_at p)))
    ]

    Owns-sleeping :
        (m' : Links) × (push_back
            (delete s.links (s.runnable_queues (s.priority s.current_thread)) s.current_thread).1
            (s.blocked_queues (s.priority s.current_thread))
            s.current_thread
          ≡ returns (s.current_thread, m'))
        × Owns m' (heads (sleeping m')) with_sleeping
    Owns-sleeping =
        let (m', calls, owns) =
          move-Owns same same_iff s.links (heads s) lists v.owns
            (runnable_at (s.priority s.current_thread)) (blocked_at (s.priority s.current_thread))
            (λ e. cc) s.current_thread v.current_runs in
        (
          m',
          calls,
          Owns-ext m' _ _ _ _ (elim [ runnable_at p ↦ refl | blocked_at p ↦ refl ])
              (elim [ runnable_at p ↦ refl | blocked_at p ↦ refl ]) owns,
        )

-- When `sleep_until` does not take the sorted insertion: no deadline, or an empty blocked queue.
abbrev pub Unsorted : Scheduler → ℕ → Type 0
Unsorted s deadline =
    (deadline ≡ no_deadline) ⊎ (s.blocked_queues (s.priority s.current_thread) ≡ null)

block-push_back :
    (fuel : ℕ) (s : Scheduler) (t : Ptr) (prio deadline : ℕ)
    → (deadline ≡ no_deadline) ⊎ (s.blocked_queues prio ≡ null)
    → block fuel s t prio deadline ≡ push_back s.links (s.blocked_queues prio) t
unfolding block
block-push_back fuel s t prio deadline (inl e) = rw e refl
block-push_back fuel s t prio deadline (inr e) = elim (Bool-cases (deadline == no_deadline)) [
  | inl f ↦ rw f refl
  | inr f ↦ rw (f, e) refl
]

module _ (fuel : ℕ) (s : Scheduler) (deadline : ℕ) where
  sleep_until-schedule :
      (m' : Links) (s' : Scheduler)
      → s.current_thread ≢ null
      → Unsorted s deadline
      → (push_back
            (delete s.links (s.runnable_queues (s.priority s.current_thread)) s.current_thread).1
            (s.blocked_queues (s.priority s.current_thread))
            s.current_thread
          ≡ returns (s.current_thread, m'))
      → schedule (arm_timer (sleeping s deadline m')) ≡ returns (ok, s')
      → sleep_until fuel s deadline ≡ returns (ok, s')
  unfolding sleep_until remove_thread
  sleep_until-schedule m' s' live unsorted calls run =
      let t = s.current_thread in
      let removed : Links = (delete s.links (s.runnable_queues (s.priority t)) t).1 in
      let blocks : Scheduler = record (sleeping s deadline removed) {
        blocked_queues = s.blocked_queues;
      } in
      let pushes = block-push_back fuel blocks t (s.priority t) deadline unsorted in
      rw (ne→== live, pushes, calls, run) refl

  -- In a valid scheduler with preemption enabled, the running thread sleeps, with another thread `c`
  -- left to run, and with no deadline or no other thread of its priority blocked: it leaves its run
  -- queue and comes first in the blocked queue of its priority with its deadline, the first thread of
  -- the highest run queue runs, and the invariant holds.
  pub sleep_until-IsValid :
      (lists : Queue → List Ptr) (v : IsValid s lists) (prio : ℕ) (c : Ptr)
      → s.preempt_disable ≡ 0
      → Unsorted s deadline
      → prio < num_priorities
      → contains c (without_running s deadline lists v (runnable_at prio)) ≡ true
      → (s1 : Scheduler) × (p : ℕ) × (x : Ptr) × (xs : List Ptr) × (sleep_until fuel s deadline
          ≡ returns (ok, scheduled s1 p x))
        × Highest (with_sleeping s deadline lists v) p x xs
        × (s1.tsc_deadline s.current_thread ≡ deadline)
        × IsValid
            (scheduled s1 p x)
            (put same (with_sleeping s deadline lists v) (runnable_at p) (xs ++ x ∷ []))
  sleep_until-IsValid lists v prio c enabled unsorted lt mem =
      let (m', calls, owns) = Owns-sleeping s deadline lists v in
      let slept : Scheduler = sleeping s deadline m' in
      let (owns', belongs', enabled', at') : Ready (arm_timer slept) =
        arm_timer-any slept Ready (λ a. (
          owns,
          All-sleeping s deadline lists v m',
          enabled,
          rw (==_self s.current_thread) refl,
        )) in
      let (p, x, xs, high, _, run, v') =
        runs-Highest (arm_timer slept) (with_sleeping s deadline lists v) owns' prio lt c mem
          belongs' enabled' in
      (
        arm_timer slept,
        p,
        x,
        xs,
        sleep_until-schedule m' _ (ne s deadline lists v) unsorted calls run,
        high,
        at',
        v',
      )
    where
      Ready : Scheduler → Type 0
      Ready r =
          Owns r.links (heads r) (with_sleeping s deadline lists v)
          × ((q : Queue) → All (Belongs r q) (with_sleeping s deadline lists v q))
          × (r.preempt_disable ≡ 0)
          × (r.tsc_deadline s.current_thread ≡ deadline)

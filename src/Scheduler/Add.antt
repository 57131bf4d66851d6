-- ===== src/Scheduler/Add.antt =====
-- `add_thread`: a thread enters its run queue.
use otrix.Prelude.{
  ◌≡◌, ◌≢◌, refl, sym, subst, List, ◌∷◌, Bool, true, not, ◌&&◌, ◌==◌, ltb, ne→==, ==_iff, ==_self,
  if◌then◌else◌, Bool-cases, inl, inr, arith, returns,
}
use otrix.Error.{ok}
use otrix.IntrusiveList.{Ptr, null, Links, update, push_back}
use otrix.IntrusiveList.Distinct.{NotIn}
use otrix.IntrusiveList.Erase.{contains}
use otrix.IntrusiveList.Table.{Owns-ext, put, push_back-Owns}
use otrix.Scheduler.{Scheduler, runnable, add_thread}
use otrix.Scheduler.Queues.{
  Queue, runnable_at, blocked_at, same, same_iff, heads, All, Belongs, IsValid, All-frame,
}

module _ (s : Scheduler) (t : Ptr) where
  -- Whether the new thread is to preempt the running one.
  abbrev pub resched : Bool
  resched =
      if not (s.current_thread == null) && ltb (s.priority s.current_thread) (s.priority t)
      then true
      else s.need_resched

  abbrev pub added : Links → Scheduler
  added m' = record s {
    links = m';
    state = update s.state t runnable;
    runnable_queues = update s.runnable_queues (s.priority t) t;
    need_resched = resched;
  }

  add_thread-added :
      (m' : Links)
      → t ≢ null
      → push_back s.links (s.runnable_queues (s.priority t)) t ≡ returns (t, m')
      → add_thread s t ≡ returns (ok, added m')
  unfolding add_thread
  add_thread-added m' ne calls = rw (ne→== ne, calls) refl

  Belongs-added :
      (m' : Links) (q : Queue) (a : Ptr) → a ≢ t → Belongs s q a → Belongs (added m') q a
  Belongs-added m' (runnable_at p) a ne b = ground arith
  Belongs-added m' (blocked_at p) a ne b = ground arith

  abbrev pub with_added : (Queue → List Ptr) → Queue → List Ptr
  with_added lists =
      put same lists (runnable_at (s.priority t)) (t ∷ lists (runnable_at (s.priority t)))

  module _ (lists : Queue → List Ptr) (fresh : (q : Queue) → NotIn t (lists q)) where
    All-added :
        (m' : Links)
        → ((q : Queue) → All (Belongs s q) (lists q))
        → (q : Queue) → All (Belongs (added m') q) (with_added lists q)
    All-added m' belongs (runnable_at p) = elim (Bool-cases (p == s.priority t)) [
      | inl e ↦
          let at : p ≡ s.priority t = (==_iff p (s.priority t)).0 e in
          let rest =
            All-frame _ _ t (lists (runnable_at p)) (fresh _) (Belongs-added m' (runnable_at p))
              (belongs _) in
          let moved : All (Belongs (added m') (runnable_at p))
              (lists (runnable_at (s.priority t))) =
            subst (λ i. All (Belongs (added m') (runnable_at p)) (lists (runnable_at i))) at rest in
          rw e ((sym at, rw (==_self t) refl), moved)
      | inr e ↦ rw e (
          All-frame _ _ t (lists (runnable_at p)) (fresh _) (Belongs-added m' (runnable_at p))
            (belongs _))
    ]
    All-added m' belongs (blocked_at p) =
        All-frame _ _ t (lists (blocked_at p)) (fresh _) (Belongs-added m' (blocked_at p))
          (belongs _)

    contains-added :
        (c : Ptr) (q : Queue) → contains c (lists q) ≡ true → contains c (with_added lists q) ≡ true
    contains-added c (runnable_at p) mem = elim (Bool-cases (p == s.priority t)) [
      | inl e ↦
          let at : p ≡ s.priority t = (==_iff p (s.priority t)).0 e in
          let kept : contains c (lists (runnable_at (s.priority t))) ≡ true =
            subst (λ i. contains c (lists (runnable_at i)) ≡ true) at mem in
          rw e (ground arith)
      | inr e ↦ rw e mem
    ]
    contains-added c (blocked_at p) mem = mem

  -- Adding a thread that is not NULL and in no queue to a valid scheduler: it comes first in the run
  -- queue of its priority and is runnable, the others keep their places, a rescheduling is asked for
  -- if its priority is above the running thread's, and the invariant holds.
  pub add_thread-IsValid :
      (lists : Queue → List Ptr)
      → IsValid s lists
      → t ≢ null
      → ((q : Queue) → NotIn t (lists q))
      → (m' : Links) × (add_thread s t ≡ returns (ok, added m'))
        × IsValid (added m') (with_added lists)
  add_thread-IsValid lists v ne fresh =
      let (m', calls, owns, _) =
        push_back-Owns same same_iff s.links (heads s) lists v.owns (runnable_at (s.priority t)) t
          ne fresh in
      (
        m',
        add_thread-added m' ne calls,
        record {
          owns =
              Owns-ext m' _ _ _ _ (elim [ runnable_at p ↦ refl | blocked_at p ↦ refl ]) (λ q. refl)
                owns;
          belongs = All-added lists fresh m' v.belongs;
          current_runs = contains-added lists fresh s.current_thread _ v.current_runs;
          current_priority = v.current_priority;
        },
      )

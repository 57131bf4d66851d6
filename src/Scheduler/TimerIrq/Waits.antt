-- ===== src/Scheduler/TimerIrq/Waits.antt =====
-- What the timer interrupt leaves of the blocked queues.
use otrix.Prelude.{
  ℕ, zero, suc, ◌+◌, ◌≤◌, ◌<◌, ◌≡◌, ◌≢◌, refl, sym, subst, ◌∙◌, List, [], ◌∷◌, ◌++◌, length, true,
  false, ◌==◌, ltb, ne→==, ==_iff, ==_self, if◌then◌else◌, Bool-cases, inl, inr, arith, returns,
  min,
}
use otrix.Error.{ok}
use otrix.IntrusiveList.{Ptr, null}
use otrix.IntrusiveList.Chain.{IsList}
use otrix.IntrusiveList.Erase.{contains}
use otrix.Scheduler.{Scheduler, num_priorities, no_deadline, schedule, arm_timer}
use otrix.Scheduler.Queues.{Queue, runnable_at, blocked_at, same, IsValid, All, Belongs}
use otrix.Scheduler.Add.{with_added}
use otrix.Scheduler.Timer.{arm_timer-any}
use otrix.Scheduler.Schedule.{scheduled}
use otrix.IntrusiveList.Table.{put}
use otrix.Scheduler.RoundRobin.{schedule-Highest}
use otrix.Scheduler.Wake.{unblocked, without_blocked, wake-IsValid}
use otrix.Scheduler.TimerIrq.{wake_expired, irq_queues, handle_timer_irq}

IsValid-nearest :
    (s : Scheduler) (nearest : ℕ) (lists : Queue → List Ptr)
    → IsValid s lists
    → IsValid (record s { nearest_tsc_deadline = nearest }) lists
IsValid-nearest s nearest lists v = record {
  owns = v.owns;
  belongs = v.belongs;
  current_runs = v.current_runs;
  current_priority = v.current_priority;
}

IsValid-armed :
    (s : Scheduler) (armed : ℕ) (lists : Queue → List Ptr)
    → IsValid s lists
    → IsValid (record s { armed = armed }) lists
IsValid-armed s armed lists v = record {
  owns = v.owns;
  belongs = v.belongs;
  current_runs = v.current_runs;
  current_priority = v.current_priority;
}

-- The first thread of a queue, if it has one, has its deadline at `now` or later.
abbrev pub NotExpired : ℕ → Scheduler → List Ptr → Type 0
NotExpired now s [] = Unit {0}
NotExpired now s (x ∷ xs) = now ≤ s.tsc_deadline x

module _ (tsc : ℕ → ℕ) where
  -- The first thread of a queue had not expired at some reading of the clock.
  abbrev pub Waits : Scheduler → List Ptr → Type 0
  Waits s [] = Unit {0}
  Waits s (x ∷ xs) = (j : ℕ) × (tsc j ≤ s.tsc_deadline x)

  Waits-deadlines :
      (l : List Ptr) (s s' : Scheduler) → s'.tsc_deadline ≡ s.tsc_deadline → Waits s l → Waits s' l
  Waits-deadlines [] s s' e w = tt
  Waits-deadlines (x ∷ xs) s s' e w = (w.0, rw e w.1)

  -- With one round more than the queue has threads the inner loop ends, and what it leaves of the
  -- queue is empty or begins with a thread that still waits; no other blocked queue changes, and
  -- the invariant is kept.
  pub wake_expired-Waits :
      (xs : List Ptr) (fuel : ℕ) (s : Scheduler) (lists : Queue → List Ptr) (p k : ℕ)
      → IsValid s lists
      → lists (blocked_at p) ≡ xs
      → length xs < fuel
      → (s' : Scheduler) × (k' : ℕ) × (lists' : Queue → List Ptr) × (wake_expired tsc fuel s p k
          ≡ returns (s', k'))
        × IsValid s' lists'
        × Waits s' (lists' (blocked_at p))
        × ((q : ℕ) → q ≢ p → lists' (blocked_at q) ≡ lists (blocked_at q))
        × (s'.tsc_deadline ≡ s.tsc_deadline)
  unfolding wake_expired
  wake_expired-Waits xs zero s lists p k v at enough = elim enough [ ]
  wake_expired-Waits [] (suc fuel) s lists p k v at enough =
      let is : IsList s.links (s.blocked_queues p) [] =
        subst (λ l. IsList s.links (s.blocked_queues p) l) at (v.owns.list (blocked_at p)) in
      (s, k, lists, rw is refl, v, subst (λ l. Waits s l) (sym at) tt, λ q ne. refl, refl)
  wake_expired-Waits (x ∷ xs) (suc fuel) s lists p k v at enough =
      let is : IsList s.links (s.blocked_queues p) (x ∷ xs) =
        subst (λ l. IsList s.links (s.blocked_queues p) l) at (v.owns.list (blocked_at p)) in
      let members : All (Belongs s (blocked_at p)) (x ∷ xs) =
        subst (λ l. All (Belongs s (blocked_at p)) l) at (v.belongs (blocked_at p)) in
      let not_null : (x == null) ≡ false = ne→== (λ e. is.3.0 (sym e)) in
      elim (Bool-cases (ltb (s.tsc_deadline x) (tsc k))) [
        | inl e ↦
            let prio : s.priority x ≡ p = members.0.0 in
            let mem : contains x (lists (blocked_at (s.priority x))) ≡ true =
              rw (prio, at, ==_self x) refl in
            let (s1, calls, v1, _, deadlines, _) = wake-IsValid s x lists v mem 0 (omega arith) in
            let lists1 : Queue → List Ptr =
              with_added (unblocked s x) x (without_blocked s x lists) in
            let at1 : lists1 (blocked_at p) ≡ xs = rw (prio, ==_self p, at, ==_self x) refl in
            let (s', k', lists', calls', v', waits, others, deadlines') =
              wake_expired-Waits xs fuel s1 lists1 p (k + 1) v1 at1 (omega arith) in
            (
              s',
              k',
              lists',
              rw (is.0, not_null, e, calls, calls') refl,
              v',
              waits,
              λ q ne. others q ne ∙ rw (prio, ne→== ne) refl,
              deadlines' ∙ deadlines,
            )
        | inr e ↦ (
          s,
          k + 1,
          lists,
          rw (is.0, not_null, e) refl,
          v,
          subst (λ l. Waits s l) (sym at) (k, ground arith),
          λ q ne. refl,
          refl,
        )
      ]

  irq_queues-Waits :
      (fuel : ℕ) (p : ℕ) (s : Scheduler) (lists : Queue → List Ptr) (k : ℕ)
      → IsValid s lists
      → ((q : ℕ) → q < p → length (lists (blocked_at q)) < fuel)
      → (s' : Scheduler) × (lists' : Queue → List Ptr) × (irq_queues tsc fuel s p k ≡ returns s')
        × IsValid s' lists'
        × ((q : ℕ) → q < p → Waits s' (lists' (blocked_at q)))
        × ((q : ℕ) → p ≤ q → lists' (blocked_at q) ≡ lists (blocked_at q))
        × (s'.tsc_deadline ≡ s.tsc_deadline)
  unfolding irq_queues
  irq_queues-Waits fuel zero s lists k v enough =
      (s, lists, refl, v, (λ q lt. elim lt [ ]), (λ q le. refl), refl)
  irq_queues-Waits fuel (suc p) s lists k v enough =
      let (s1, k1, lists1, calls, v1, waits, others, deadlines) =
        wake_expired-Waits (lists (blocked_at p)) fuel s lists p k v refl
          (enough p (omega arith)) in
      let nearest =
        if s1.blocked_queues p == null
        then s1.nearest_tsc_deadline
        else min (s1.tsc_deadline (s1.blocked_queues p)) s1.nearest_tsc_deadline in
      let (s', lists', calls', v', waits', kept, deadlines') =
        irq_queues-Waits fuel p (record s1 { nearest_tsc_deadline = nearest }) lists1 k1
          (IsValid-nearest s1 nearest lists1 v1)
          (λ q lt.
            subst (λ l. length l < fuel) (sym (others q (omega arith))) (enough q (omega arith))) in
      (
        s',
        lists',
        rw calls calls',
        v',
        (λ q lt. elim (Bool-cases (q == p)) [
          | inl e ↦
              let at : q ≡ p = (==_iff q p).0 e in
              rw (at, kept p (omega arith))
                (Waits-deadlines (lists1 (blocked_at p)) s1 s' deadlines' waits)
          | inr e ↦ waits' q (ground arith)
        ]),
        (λ q le. kept q (omega arith) ∙ others q (omega arith)),
        deadlines' ∙ deadlines,
      )

  -- A valid scheduler, of which each blocked queue is empty or begins with a thread that waits.
  abbrev pub Handled : Scheduler → Type 0
  Handled s' =
      (lists' : Queue → List Ptr) × IsValid s' lists'
      × ((q : ℕ) → q < num_priorities → Waits s' (lists' (blocked_at q)))

  schedule-Handled :
      (s : Scheduler) → Handled s → (s' : Scheduler) × (schedule s ≡ returns (ok, s')) × Handled s'
  unfolding schedule
  schedule-Handled s (lists, v, waits) = elim (Bool-cases (ltb 0 s.preempt_disable)) [
    | inl e ↦ (s, rw e refl, (lists, v, waits))
    | inr e ↦
        let (p, x, xs, _, _, calls, v') = schedule-Highest s lists v (ground arith) in
        (
          scheduled s p x,
          calls,
          (
            put same lists (runnable_at p) (xs ++ x ∷ []),
            v',
            λ q lt. Waits-deadlines (lists (blocked_at q)) s (scheduled s p x) refl (waits q lt),
          ),
        )
  ]

  handle_timer_irq-Handled :
      (fuel : ℕ) (s : Scheduler) (lists : Queue → List Ptr)
      → IsValid s lists
      → ((q : ℕ) → q < num_priorities → length (lists (blocked_at q)) < fuel)
      → (s' : Scheduler) × (handle_timer_irq tsc fuel s ≡ returns s') × Handled s'
  unfolding handle_timer_irq
  handle_timer_irq-Handled fuel s lists v enough =
      let (s1, lists1, calls, v1, waits1, _, _) =
        irq_queues-Waits fuel num_priorities (record s { nearest_tsc_deadline = no_deadline }) lists
          0 (IsValid-nearest s no_deadline lists v) enough in
      let handled : Handled (arm_timer s1) = arm_timer-any s1 Handled (λ a. (
        lists1,
        IsValid-armed s1 a lists1 v1,
        λ q lt.
            Waits-deadlines (lists1 (blocked_at q)) s1 (record s1 { armed = a }) refl (waits1 q lt),
      )) in
      elim (Bool-cases ((arm_timer s1).need_resched)) [
        | inl e ↦
            let (s', calls', handled') = schedule-Handled (arm_timer s1) handled in
            (s', rw (calls, e, calls') refl, handled')
        | inr e ↦ (arm_timer s1, rw (calls, e) refl, handled)
      ]

  Waits-NotExpired :
      (s : Scheduler) (l : List Ptr)
      → ((i j : ℕ) → i ≤ j → tsc i ≤ tsc j)
      → Waits s l
      → NotExpired (tsc 0) s l
  Waits-NotExpired s [] forward w = tt
  Waits-NotExpired s (x ∷ xs) forward w = omega (arith, forward 0 w.0 (omega arith), w.1)

  -- In a valid scheduler, with a clock that does not run backwards, the timer interrupt ends if the fuel
  -- exceeds the length of every blocked queue. It keeps the invariant, and the blocked queue of any
  -- priority `q` is then empty or begins with a thread whose deadline is no earlier than the first
  -- reading of the clock in the interrupt.
  pub handle_timer_irq-NotExpired :
      (fuel : ℕ) (s : Scheduler) (lists : Queue → List Ptr) (q : ℕ)
      → IsValid s lists
      → q < num_priorities
      → ((i j : ℕ) → i ≤ j → tsc i ≤ tsc j)
      → ((i : ℕ) → i < num_priorities → length (lists (blocked_at i)) < fuel)
      → (s' : Scheduler) × (handle_timer_irq tsc fuel s ≡ returns s')
        × (lists' : Queue → List Ptr) × IsValid s' lists'
        × NotExpired (tsc 0) s' (lists' (blocked_at q))
  handle_timer_irq-NotExpired fuel s lists q v lt forward enough =
      let (s', calls, handled) = handle_timer_irq-Handled fuel s lists v enough in
      (
        s',
        calls,
        handled.0,
        handled.1,
        Waits-NotExpired s' (handled.0 (blocked_at q)) forward (handled.2 q lt),
      )

-- ===== src/Scheduler/Tests.antt =====
-- The scheduler at concrete threads, and the theorems at them.
use otrix.Prelude.{
  ℕ, ◌+◌, length, zero, suc, ◌≤◌, ◌<◌, ◌≡◌, refl, List, [], ◌∷◌, ◌++◌, false, ◌==◌, if◌then◌else◌,
  Bool-cases, inl, inr, arith, returns,
}
use otrix.Error.{ok}
use otrix.IntrusiveList.{Ptr, null, Links, update}
use otrix.IntrusiveList.Distinct.{NotIn, Apart, Apart-nil}
use otrix.IntrusiveList.Chain.{IsList}
use otrix.IntrusiveList.Table.{Owns, Owns-ext, Owns-put, put}
use otrix.Scheduler.{
  Scheduler, is_blocked, runnable, blocked, active, no_deadline, num_priorities, add_thread,
  schedule, sleep_until, wake,
}
use otrix.Scheduler.Queues.{
  Queue, runnable_at, blocked_at, same, same_iff, heads, All, Belongs, IsValid,
}
use otrix.Scheduler.Add.{added, with_added, add_thread-IsValid}
use otrix.Scheduler.Timer.{first_deadline}
use otrix.Scheduler.Wake.{unblocked, without_blocked, wake-IsValid}
use otrix.Scheduler.Schedule.{scheduled}
use otrix.Scheduler.RoundRobin.{Highest, schedule-Highest, turns, turns-RoundRobin}
use otrix.Scheduler.TimerIrq.{handle_timer_irq}
use otrix.Scheduler.TimerIrq.Waits.{NotExpired, handle_timer_irq-NotExpired}
use otrix.Scheduler.Sleep.{with_sleeping, sleep_until-IsValid}

-- The idle thread 10, threads 20 and 30 of priority 1 with 20 running, and 40 blocked; 50 is new.
abbrev ring : Links
ring = record {
  next = λ p. if p == 20 then 30 else if p == 30 then 20 else p;
  prev = λ p. if p == 20 then 30 else if p == 30 then 20 else p;
}

abbrev four : Scheduler
four = record {
  links = ring;
  priority = λ t. if t == 10 then 0 else 1;
  state = λ t. if t == 40 then blocked else if t == 20 then active else runnable;
  tsc_deadline = λ t. if t == 40 then 700 else 0;
  runnable_queues = update (update (λ p. null) 0 10) 1 20;
  blocked_queues = update (λ p. null) 1 40;
  current_thread = 20;
  need_resched = false;
  nearest_tsc_deadline = 700;
  preempt_disable = 0;
  armed = 700;
}

abbrev none_yet : Queue → List Ptr
none_yet q = []

abbrev idle_only : Queue → List Ptr
idle_only = put same none_yet (runnable_at 0) (10 ∷ [])

abbrev three_runnable : Queue → List Ptr
three_runnable = put same idle_only (runnable_at 1) (20 ∷ 30 ∷ [])

abbrev four_lists : Queue → List Ptr
four_lists = put same three_runnable (blocked_at 1) (40 ∷ [])

Apart-put :
    (lists : Queue → List Ptr) (i : Queue) (xs ys : List Ptr)
    → ((j : Queue) → Apart (lists j) ys)
    → Apart xs ys
    → (j : Queue) → Apart (put same lists i xs j) ys
Apart-put lists i xs ys h k j = elim (Bool-cases (same j i)) [ inl e ↦ rw e k | inr e ↦ rw e (h j) ]

-- One more list, in the memory `ring`.
with_list :
    (heads_of : Queue → Ptr) (lists : Queue → List Ptr) (i : Queue) (h : Ptr) (xs : List Ptr)
    → Owns ring heads_of lists
    → IsList ring h xs
    → ((j : Queue) → Apart (lists j) xs)
    → Owns ring (put same heads_of i h) (put same lists i xs)
with_list heads_of lists i h xs owns is apart =
    Owns-put same same_iff ring heads_of lists owns i ring h xs [] is (λ a out. (refl, refl))
      (λ j ne. Apart-nil (lists j)) (λ j ne. apart j)

none_yet-Owns : Owns ring (λ q. null) none_yet
none_yet-Owns = record { list = λ q. refl; apart = λ i j ne. tt }

idle_only-Owns : Owns ring (put same (λ q. null) (runnable_at 0) 10) idle_only
idle_only-Owns = with_list _ _ _ _ _ none_yet-Owns (omega arith) (λ j. tt)

three_runnable-Owns :
    Owns ring (put same (put same (λ q. null) (runnable_at 0) 10) (runnable_at 1) 20) three_runnable
three_runnable-Owns =
    with_list _ _ _ _ _ idle_only-Owns (omega arith) (Apart-put _ _ _ _ (λ j. tt) (omega arith))

four-Owns : Owns ring (heads four) four_lists
four-Owns =
    Owns-ext ring _ _ _ _ (elim [ runnable_at p ↦ refl | blocked_at p ↦ refl ]) (λ q. refl)
      (with_list _ _ (blocked_at 1) 40 (40 ∷ []) three_runnable-Owns (omega arith)
        (Apart-put _ _ _ _ (Apart-put _ _ _ _ (λ j. tt) (omega arith)) (omega arith)))

big : (p : ℕ) → ((suc (suc p) == 1) ≡ false) × ((suc (suc p) == 0) ≡ false)
big p = (ground arith, ground arith)

four-Belongs : (q : Queue) → All (Belongs four q) (four_lists q)
four-Belongs (runnable_at zero) = ((refl, refl), tt)
four-Belongs (runnable_at (suc zero)) = ((refl, refl), ((refl, refl), tt))
four-Belongs (runnable_at (suc (suc p))) = rw (big p).0 (rw (big p).1 tt)
four-Belongs (blocked_at zero) = tt
four-Belongs (blocked_at (suc zero)) = ((refl, refl), tt)
four-Belongs (blocked_at (suc (suc p))) = rw (big p).0 tt

four-IsValid : IsValid four four_lists
four-IsValid = record {
  owns = four-Owns;
  belongs = four-Belongs;
  current_runs = refl;
  current_priority = omega arith;
}

fresh : (q : Queue) → NotIn 50 (four_lists q)
fresh (runnable_at zero) = omega arith
fresh (runnable_at (suc zero)) = omega arith
fresh (runnable_at (suc (suc p))) = rw (big p).0 (rw (big p).1 tt)
fresh (blocked_at zero) = tt
fresh (blocked_at (suc zero)) = omega arith
fresh (blocked_at (suc (suc p))) = rw (big p).0 tt

add_thread-IsValid_example :
    (m' : Links) × (add_thread four 50 ≡ returns (ok, added four 50 m'))
    × IsValid (added four 50 m') (with_added four 50 four_lists)
add_thread-IsValid_example = add_thread-IsValid four 50 four_lists four-IsValid (omega arith) fresh

wake-IsValid_example :
    (s' : Scheduler) × (wake four 40 ≡ returns (ok, s'))
    × IsValid s' (with_added (unblocked four 40) 40 (without_blocked four 40 four_lists))
    × (is_blocked (s'.state 40) ≡ false)
    × (s'.tsc_deadline ≡ four.tsc_deadline)
    × (s'.nearest_tsc_deadline ≤ first_deadline s' 1)
wake-IsValid_example = wake-IsValid four 40 four_lists four-IsValid refl 1 (omega arith)

schedule-Highest_example :
    (p : ℕ) × (x : Ptr) × (xs : List Ptr) × Highest four_lists p x xs
    × (1 ≤ p)
    × (schedule four ≡ returns (ok, scheduled four p x))
    × IsValid (scheduled four p x) (put same four_lists (runnable_at p) (xs ++ x ∷ []))
schedule-Highest_example = schedule-Highest four four_lists four-IsValid refl

not_above : (i : ℕ) → i ≤ 1 → ¬ (1 < i)
not_above i le = omega arith

above_one : (i : ℕ) → 1 < i → i < num_priorities → four_lists (runnable_at i) ≡ []
above_one zero lo hi = absurd (not_above 0 (omega arith) lo)
above_one (suc zero) lo hi = absurd (not_above 1 (omega arith) lo)
above_one (suc (suc i)) lo hi = rw (big i).0 (rw (big i).1 refl)

turns-RoundRobin_example : (s' : Scheduler) × (turns 2 four ≡ returns s') × (s'.current_thread ≡ 30)
turns-RoundRobin_example =
    turns-RoundRobin four four_lists 1 (20 ∷ []) 30 [] four-IsValid refl (omega arith) refl
      above_one

sleep_until-IsValid_example :
    (s1 : Scheduler) × (p : ℕ) × (x : Ptr) × (xs : List Ptr) × (sleep_until 0 four no_deadline
      ≡ returns (ok, scheduled s1 p x))
    × Highest (with_sleeping four no_deadline four_lists four-IsValid) p x xs
    × (s1.tsc_deadline 20 ≡ no_deadline)
    × IsValid (scheduled s1 p x) (
        put same
          (with_sleeping four no_deadline four_lists four-IsValid)
          (runnable_at p)
          (xs ++ x ∷ []))
sleep_until-IsValid_example =
    sleep_until-IsValid 0 four no_deadline four_lists four-IsValid 1 30 refl (inl refl)
      (omega arith) refl

-- Every queue has at most two threads.
short : (q : ℕ) → q < num_priorities → length (four_lists (blocked_at q)) < 3
short zero lt = omega arith
short (suc zero) lt = omega arith
short (suc (suc q)) lt = rw (big q).0 (omega arith)

handle_timer_irq-NotExpired_example :
    (s' : Scheduler) × (handle_timer_irq (λ k. 800 + k) 3 four ≡ returns s')
    × (lists' : Queue → List Ptr) × IsValid s' lists'
    × NotExpired 800 s' (lists' (blocked_at 1))
handle_timer_irq-NotExpired_example =
    handle_timer_irq-NotExpired (λ k. 800 + k) 3 four four_lists 1 four-IsValid (omega arith)
      (λ i j le. omega arith) short

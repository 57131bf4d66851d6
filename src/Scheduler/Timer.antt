-- ===== src/Scheduler/Timer.antt =====
-- `setup_timer`: the deadline that the scheduler waits for.
use otrix.Prelude.{
  ℕ, if◌then◌else◌, zero, suc, ◌≤◌, ◌<◌, ◌≡◌, ◌≢◌, refl, List, ◌==◌, ==_iff, ne→==, subst, sym,
  Bool-cases, inl, inr, arith, min,
}
use otrix.IntrusiveList.{Ptr, null}
use otrix.Scheduler.{
  Scheduler, num_priorities, no_deadline, arm_timer, nearest_deadline, setup_timer,
}
use otrix.Scheduler.Queues.{Queue, IsValid}

-- The deadline of the first thread of a blocked queue; without one, none.
abbrev pub first_deadline : Scheduler → ℕ → ℕ
first_deadline s p =
    if s.blocked_queues p == null then no_deadline else s.tsc_deadline (s.blocked_queues p)

nearest_deadline-le_start : (s : Scheduler) (p nearest : ℕ) → nearest_deadline s p nearest ≤ nearest
unfolding nearest_deadline
nearest_deadline-le_start s zero nearest = omega arith
nearest_deadline-le_start s (suc p) nearest = elim (Bool-cases (s.blocked_queues p == null)) [
  | inl e ↦ rw e (nearest_deadline-le_start s p nearest)
  | inr e ↦ rw e (
      omega
        (arith, nearest_deadline-le_start s p (min (s.tsc_deadline (s.blocked_queues p)) nearest)))
]

-- The deadline found is no later than that of the first thread of any of the first `p` queues.
nearest_deadline-le :
    (s : Scheduler) (p nearest i : ℕ)
    → i < p
    → s.blocked_queues i ≢ null
    → nearest_deadline s p nearest ≤ s.tsc_deadline (s.blocked_queues i)
unfolding nearest_deadline
nearest_deadline-le s zero nearest i lt ne = elim lt [ ]
nearest_deadline-le s (suc p) nearest i lt ne = elim (Bool-cases (i == p)) [
  | inl e ↦
      let at : i ≡ p = (==_iff i p).0 e in
      let here : s.blocked_queues p ≢ null = subst (λ j. s.blocked_queues j ≢ null) at ne in
      subst (λ j. nearest_deadline s (suc p) nearest ≤ s.tsc_deadline (s.blocked_queues j)) (sym at)
        (rw (ne→== here) (
          omega (
            arith,
            nearest_deadline-le_start s p (min (s.tsc_deadline (s.blocked_queues p)) nearest),
          )))
  | inr e ↦ nearest_deadline-le s p _ i (ground arith) ne
]

pub setup_timer-IsValid :
    (s : Scheduler) (lists : Queue → List Ptr) → IsValid s lists → IsValid (setup_timer s) lists
unfolding setup_timer
setup_timer-IsValid s lists v =
    elim (Bool-cases (nearest_deadline s num_priorities no_deadline == no_deadline)) [
      | inl e ↦ rw e (record {
        owns = v.owns;
        belongs = v.belongs;
        current_runs = v.current_runs;
        current_priority = v.current_priority;
      })
      | inr e ↦ rw e (record {
        owns = v.owns;
        belongs = v.belongs;
        current_runs = v.current_runs;
        current_priority = v.current_priority;
      })
    ]

module _ (s : Scheduler) where
  -- What `setup_timer` leaves in the fields that it writes and reads.
  setup_timer_fields :
      ((setup_timer s).nearest_tsc_deadline ≡ nearest_deadline s num_priorities no_deadline)
      × ((setup_timer s).blocked_queues ≡ s.blocked_queues)
      × ((setup_timer s).tsc_deadline ≡ s.tsc_deadline)
      × ((setup_timer s).state ≡ s.state)
  unfolding setup_timer
  setup_timer_fields =
      elim (Bool-cases (nearest_deadline s num_priorities no_deadline == no_deadline)) [
        | inl e ↦ rw e (refl, refl, refl, refl)
        | inr e ↦ rw e (refl, refl, refl, refl)
      ]

  pub setup_timer-state : (setup_timer s).state ≡ s.state
  setup_timer-state = setup_timer_fields.3

  pub setup_timer-tsc_deadline : (setup_timer s).tsc_deadline ≡ s.tsc_deadline
  setup_timer-tsc_deadline = setup_timer_fields.2

  -- After `setup_timer` the nearest deadline is no later than that of the first thread of any blocked
  -- queue.
  pub setup_timer-nearest :
      (p : ℕ)
      → p < num_priorities
      → (setup_timer s).nearest_tsc_deadline ≤ first_deadline (setup_timer s) p
  setup_timer-nearest p lt =
      let (near, queues, deadlines, _) = setup_timer_fields in
      elim (Bool-cases (s.blocked_queues p == null)) [
        | inl e ↦
            rw (near, queues, deadlines, e) (nearest_deadline-le_start s num_priorities no_deadline)
        | inr e ↦
            rw (near, queues, deadlines, e)
              (nearest_deadline-le s num_priorities no_deadline p lt (ground arith))
      ]

module _ (s : Scheduler) where
  -- `arm_timer` writes `armed` at most.
  pub arm_timer-any :
      (P : Scheduler → Type 0) → ((a : ℕ) → P (record s { armed = a })) → P (arm_timer s)
  arm_timer-any P h = elim (Bool-cases (s.nearest_tsc_deadline == no_deadline)) [
    | inl e ↦ rw e (h s.armed)
    | inr e ↦ rw e (h s.nearest_tsc_deadline)
  ]

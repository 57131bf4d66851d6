-- ===== src/Sync/Semaphore.antt =====
-- Sequences of calls of a semaphore: its bounds, and where the gives go.
use otrix.Prelude.{
  ==→ne, ℕ, ◌+◌, ◌≤◌, ◌<◌, ◌≡◌, ◌≢◌, refl, ◌∙◌, List, [], ◌∷◌, true, ◌==◌, ==_iff, if◌then◌else◌,
  Bool-cases, inl, inr, ◌⊎◌, Option, none, some, arith,
}
use otrix.Sync.{Thread, WaitQueue, notify_one, Wait, got, SemaphoreState, take, give_to, give}

-- The default of `take`: wait without a deadline.
abbrev pub forever : ℕ
forever = 18446744073709551615

-- The calls, with no wait that can time out: a thread takes and waits as long as it must, or it only tries.
pub data Call : Type 0 where
  takes tries : Thread → Call
  gives : Call

abbrev pub step : SemaphoreState → Call → SemaphoreState
step s (takes thread) = (take s thread forever).1
step s (tries thread) = (take s thread 0).1
step s gives = (give s).1

abbrev pub run : SemaphoreState → List Call → SemaphoreState
run s [] = s
run s (c ∷ cs) = run (step s c) cs

-- Threads that get through: at once, or woken by a give.
abbrev count_got : Wait → ℕ
count_got got = 1
count_got _ = 0

abbrev count_woken : Option Thread → ℕ
count_woken none = 0
count_woken (some thread) = 1

abbrev pub through : SemaphoreState → Call → ℕ
through s (takes thread) = count_got (take s thread forever).0
through s (tries thread) = count_got (take s thread 0).0
through s gives = count_woken (give s).0

-- Gives that are not lost at the maximum.
abbrev pub accepted : SemaphoreState → Call → ℕ
accepted s (takes thread) = 0
accepted s (tries thread) = 0
accepted s gives = if s.count == s.max_count then 0 else 1

abbrev pub total : (SemaphoreState → Call → ℕ) → SemaphoreState → List Call → ℕ
total f s [] = 0
total f s (c ∷ cs) = f s c + total f (step s c) cs

-- The count is within its bounds, and nobody waits while it is above 0.
pub record Sound (s : SemaphoreState) : Type 0 where
  pub bound : s.count ≤ s.max_count
  pub idle : (s.waiting_queue ≡ []) ⊎ (s.count ≡ 0)

cons_ne_nil : {x : ℕ} {xs : List ℕ} → (x ∷ xs) ≢ []
cons_ne_nil e = cc

-- One call, from `s` to `s'`, which lets `passed` threads through and takes `given` gives.
record Moves (s s' : SemaphoreState) (passed given : ℕ) : Type 0 where
  sound : Sound s'
  ledger : s'.count + passed ≡ s.count + given
  same_max : s'.max_count ≡ s.max_count

abbrev Keeps : SemaphoreState → Call → Type 0
Keeps s c = Moves s (step s c) (through s c) (accepted s c)

take-Moves :
    (s : SemaphoreState) (thread timeout_ms : ℕ)
    → Sound s
    → Moves s (take s thread timeout_ms).1 (count_got (take s thread timeout_ms).0) 0
unfolding take
take-Moves s thread timeout_ms h = elim (Bool-cases (s.count == 0)) [
  | inr e ↦
      let some_left : s.count ≢ 0 = λ z. ==→ne e z in
      let idle : s.waiting_queue ≡ [] = elim h.idle [ inl q ↦ q | inr z ↦ absurd (some_left z) ] in
      let bound = h.bound in
      record {
        sound = rw (take, e) (record { bound = omega arith; idle = inl idle });
        ledger = rw (take, e) (omega arith);
        same_max = rw (take, e) refl;
      }
  | inl e ↦
      let nothing : s.count ≡ 0 = (==_iff s.count 0).0 e in
      elim (Bool-cases (timeout_ms == 0)) [
        | inl t ↦ record {
          sound = rw (take, e, t) h;
          ledger = rw (take, e, t) refl;
          same_max = rw (take, e, t) refl;
        }
        | inr t ↦ record {
          sound = rw (take, e, t) (record { bound = h.bound; idle = inr nothing });
          ledger = rw (take, e, t) refl;
          same_max = rw (take, e, t) refl;
        }
      ]
]

-- A give below the maximum, by the queue.
give_to-Sound :
    (s : SemaphoreState) (wq : WaitQueue)
    → s.waiting_queue ≡ wq
    → s.count < s.max_count
    → (wq ≡ []) ⊎ (s.count ≡ 0)
    → Sound (give_to s wq).1
      × ((give_to s wq).1.count + count_woken (give_to s wq).0 ≡ s.count + 1)
      × ((give_to s wq).1.max_count ≡ s.max_count)
unfolding notify_one
give_to-Sound s [] at less idle = (record { bound = omega arith; idle = inl at }, omega arith, refl)
give_to-Sound s (thread ∷ wq) at less (inl q) = absurd (cons_ne_nil q)
give_to-Sound s (thread ∷ wq) at less (inr z) =
    let e : (s.count == 0) ≡ true = (==_iff s.count 0).1 z in
    let bound : s.count ≤ s.max_count = omega arith in
    rw e (record { bound = bound; idle = inr z }, refl, refl)

give-Keeps : (s : SemaphoreState) → Sound s → Keeps s gives
unfolding give
give-Keeps s h = elim (Bool-cases (s.count == s.max_count)) [
  | inl e ↦ record {
    sound = rw (step, give, e) h;
    ledger = rw (step, give, e) refl;
    same_max = rw (step, give, e) refl;
  }
  | inr e ↦
      let bound = h.bound in
      let (sound, ledger, same) = give_to-Sound s s.waiting_queue refl (ground arith) h.idle in
      record {
        sound = rw (step, give, e) sound;
        ledger = rw (step, give, e) ledger;
        same_max = rw (step, give, e) same;
      }
]

step-Keeps : (s : SemaphoreState) (c : Call) → Sound s → Keeps s c
step-Keeps s (takes thread) h = take-Moves s thread forever h
step-Keeps s (tries thread) h = take-Moves s thread 0 h
step-Keeps s gives h = give-Keeps s h

-- After any calls of a sound semaphore, with no wait that can time out, its count is between 0 and its maximum, nobody waits while it is
-- above 0, and every give that was not lost at the maximum is in the count or let one thread through.
pub run-Sound :
    (s : SemaphoreState) (cs : List Call)
    → Sound s
    → Sound (run s cs)
      × ((run s cs).count + total through s cs ≡ s.count + total accepted s cs)
      × ((run s cs).max_count ≡ s.max_count)
run-Sound s [] h = (h, refl, refl)
run-Sound s (c ∷ cs) h =
    let k = step-Keeps s c h in
    let (sound, ledger, same) = run-Sound (step s c) cs k.sound in
    let first = k.ledger in (sound, omega arith, same ∙ k.same_max)

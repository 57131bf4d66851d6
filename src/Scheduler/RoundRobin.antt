-- ===== src/Scheduler/RoundRobin.antt =====
-- Successive calls of `schedule`: the highest run queue takes turns.
use otrix.Prelude.{
  ℕ, zero, suc, ◌≤◌, ◌<◌, ◌≡◌, ◌≢◌, refl, sym, subst, ◌∙◌, List, [], ◌∷◌, ◌++◌, true, ltb, ne→==,
  ==_self, Bool-cases, inl, inr, arith, returns, some, append_assoc, Outcome, ◌>>=◌, ap, length,
}
use otrix.Error.{ok}
use otrix.IntrusiveList.{Ptr, null, Links}
use otrix.IntrusiveList.Chain.{IsList}
use otrix.IntrusiveList.Erase.{contains}
use otrix.IntrusiveList.Table.{Owns, put}
use otrix.Scheduler.{Scheduler, num_priorities, pick, switch_to, schedule}
use otrix.Scheduler.Queues.{Queue, runnable_at, same, heads, All, Belongs, IsValid}
use otrix.Scheduler.Schedule.{pick-highest, scheduled, scheduled-IsValid}

-- A list is empty exactly if its head is NULL.
head-null : (m : Links) (h : Ptr) (xs : List Ptr) → IsList m h xs → h ≡ null → xs ≡ []
head-null m h [] is e = refl
head-null m h (x ∷ xs) is e = absurd (is.3.0 (sym e ∙ is.0))

head-cons :
    (m : Links) (h : Ptr) (l : List Ptr) → IsList m h l → h ≢ null → (xs : List Ptr) × (l ≡ h ∷ xs)
head-cons m h [] is ne = absurd (ne is)
head-cons m h (x ∷ xs) is ne = (xs, ap (λ y. y ∷ xs) (sym is.0))

contains-head :
    (m : Links) (h c : Ptr) (l : List Ptr) → IsList m h l → contains c l ≡ true → h ≢ null
contains-head m h c [] is mem = cc
contains-head m h c (x ∷ xs) is mem = λ e. is.3.0 (sym e ∙ is.0)

-- `p` is the highest priority with a runnable thread, and its run queue is `x ∷ xs`.
abbrev pub Highest : (Queue → List Ptr) → ℕ → Ptr → List Ptr → Type 0
Highest lists p x xs =
    (p < num_priorities)
    × (lists (runnable_at p) ≡ x ∷ xs)
    × ((i : ℕ) → p < i → i < num_priorities → lists (runnable_at i) ≡ [])

module _ (s : Scheduler) (lists : Queue → List Ptr) (owns : Owns s.links (heads s) lists) (prio : ℕ)
    (lt : prio < num_priorities) (c : Ptr)
    (mem : contains c (lists (runnable_at prio)) ≡ true) where
  -- A runnable thread of priority `prio` is enough for a highest run queue.
  highest :
      (p : ℕ) × (x : Ptr) × (xs : List Ptr) × Highest lists p x xs
      × (prio ≤ p)
      × (pick s.runnable_queues num_priorities ≡ some p)
      × (s.runnable_queues p ≡ x)
  highest =
      let (p, found, lt_p, above, ne, empty) =
        pick-highest s.runnable_queues num_priorities prio lt
          (contains-head s.links _ c _ (owns.list (runnable_at prio)) mem) in
      let (xs, at) = head-cons s.links _ _ (owns.list (runnable_at p)) ne in
      (
        p,
        s.runnable_queues p,
        xs,
        (lt_p, at, λ i lo hi. head-null s.links _ _ (owns.list (runnable_at i)) (empty i lo hi)),
        above,
        found,
        refl,
      )

  module _ (belongs : (q : Queue) → All (Belongs s q) (lists q))
      (enabled : s.preempt_disable ≡ 0) where
    schedule-scheduled :
        (p : ℕ) (x : Ptr)
        → pick s.runnable_queues num_priorities ≡ some p
        → s.runnable_queues p ≡ x
        → schedule s ≡ returns (ok, scheduled s p x)
    unfolding schedule switch_to
    schedule-scheduled p x found at = rw (enabled, found, at) refl

    pub runs-Highest :
        (p : ℕ) × (x : Ptr) × (xs : List Ptr) × Highest lists p x xs
        × (prio ≤ p)
        × (schedule s ≡ returns (ok, scheduled s p x))
        × IsValid (scheduled s p x) (put same lists (runnable_at p) (xs ++ x ∷ []))
    runs-Highest =
        let (p, x, xs, (lt_p, at, empty), above, found, head) = highest in
        (
          p,
          x,
          xs,
          (lt_p, at, empty),
          above,
          schedule-scheduled p x found head,
          scheduled-IsValid s lists owns belongs p x xs at lt_p,
        )

module _ (s : Scheduler) (lists : Queue → List Ptr) (v : IsValid s lists) where
  -- In a valid scheduler with preemption enabled, `schedule` runs the first thread of the run queue of the highest
  -- priority that has a runnable thread, no lower than the running thread's, puts it last in
  -- that queue, clears the request and keeps the invariant.
  pub schedule-Highest :
      s.preempt_disable ≡ 0
      → (p : ℕ) × (x : Ptr) × (xs : List Ptr) × Highest lists p x xs
        × (s.priority s.current_thread ≤ p)
        × (schedule s ≡ returns (ok, scheduled s p x))
        × IsValid (scheduled s p x) (put same lists (runnable_at p) (xs ++ x ∷ []))
  schedule-Highest enabled =
      runs-Highest s lists v.owns _ v.current_priority s.current_thread v.current_runs v.belongs
        enabled

Highest-unique :
    (lists : Queue → List Ptr) (p : ℕ) (x : Ptr) (xs : List Ptr) (q : ℕ) (y : Ptr) (ys : List Ptr)
    → Highest lists p x xs
    → Highest lists q y ys
    → p ≡ q
Highest-unique lists p x xs q y ys h k = elim (Bool-cases (ltb p q)) [
  | inl e ↦ absurd (cons_ne_nil (sym k.1 ∙ h.2 q (ground arith) k.0))
  | inr e ↦ elim (Bool-cases (ltb q p)) [
    | inl f ↦ absurd (cons_ne_nil (sym h.1 ∙ k.2 p (ground arith) h.0))
    | inr f ↦ ground arith
  ]
]
  where
    cons_ne_nil : {a : Ptr} {l : List Ptr} → (a ∷ l) ≢ []
    cons_ne_nil = λ e. cc

-- `n` successive calls of `schedule`.
unfoldable pub turns : ℕ → Scheduler → Outcome Scheduler
turns zero s = returns s
turns (suc n) s = schedule s >>= λ r. turns n r.1

rotated_tail :
    (x w y : Ptr) (zs xs ys : List Ptr)
    → x ∷ zs ≡ w ∷ (xs ++ y ∷ ys)
    → zs ++ x ∷ [] ≡ xs ++ y ∷ (ys ++ x ∷ [])
rotated_tail x w y zs xs ys e =
    let tail : zs ≡ xs ++ y ∷ ys = cc in rw tail (append_assoc xs (y ∷ ys) (x ∷ []))

above_ne : {q i : ℕ} → q < i → i ≢ q
above_ne lt = omega arith

-- Round robin: when `y` is behind the threads `xs` in the run queue of the highest priority of a valid
-- scheduler with preemption enabled, it runs after one call of `schedule` for each of them and one
-- more.
pub turns-RoundRobin :
    (s : Scheduler) (lists : Queue → List Ptr) (p : ℕ) (xs : List Ptr) (y : Ptr) (ys : List Ptr)
    → IsValid s lists
    → s.preempt_disable ≡ 0
    → p < num_priorities
    → lists (runnable_at p) ≡ xs ++ y ∷ ys
    → ((i : ℕ) → p < i → i < num_priorities → lists (runnable_at i) ≡ [])
    → (s' : Scheduler) × (turns (suc (length xs)) s ≡ returns s') × (s'.current_thread ≡ y)
unfolding turns
turns-RoundRobin s lists p [] y ys v enabled lt at above =
    let (q, x, zs, h, _, calls, _) = schedule-Highest s lists v enabled in
    let same_p : p ≡ q = Highest-unique lists p y ys q x zs (lt, at, above) h in
    let here : lists (runnable_at q) ≡ y ∷ ys =
      subst (λ i. lists (runnable_at i) ≡ y ∷ ys) same_p at in
    let first : x ∷ zs ≡ y ∷ ys = sym h.1 ∙ here in (scheduled s q x, rw calls refl, cc)
turns-RoundRobin s lists p (w ∷ xs) y ys v enabled lt at above =
    let (q, x, zs, h, _, calls, v') = schedule-Highest s lists v enabled in
    let same_p : p ≡ q = Highest-unique lists p w (xs ++ y ∷ ys) q x zs (lt, at, above) h in
    let here : lists (runnable_at q) ≡ w ∷ (xs ++ y ∷ ys) =
      subst (λ i. lists (runnable_at i) ≡ w ∷ (xs ++ y ∷ ys)) same_p at in
    let rest : zs ++ x ∷ [] ≡ xs ++ y ∷ (ys ++ x ∷ []) =
      rotated_tail x w y zs xs ys (sym h.1 ∙ here) in
    let later : (i : ℕ)
        → q < i
        → i < num_priorities
        → put same lists (runnable_at q) (zs ++ x ∷ []) (runnable_at i) ≡ [] =
      λ i lo hi. rw (ne→== (above_ne lo)) (h.2 i lo hi) in
    let (s', calls', runs) =
      turns-RoundRobin (scheduled s q x) _ q xs y (ys ++ x ∷ []) v' enabled h.0
        (rw (==_self q) rest) later in
    (s', rw (calls, calls') refl, runs)

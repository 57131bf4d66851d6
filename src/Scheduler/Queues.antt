-- ===== src/Scheduler/Queues.antt =====
-- The scheduler's run queues and blocked queues as sequences of threads, and its invariant.
use otrix.Prelude.{
  ℕ, ◌<◌, ◌≡◌, ◌≢◌, ◌↔◌, sym, List, [], ◌∷◌, ◌++◌, Bool, true, false, ◌==◌, ==_iff, Bool-cases, inl,
  inr, arith,
}
use otrix.IntrusiveList.{Ptr}
use otrix.IntrusiveList.Distinct.{NotIn}
use otrix.IntrusiveList.Erase.{contains, erase}
use otrix.IntrusiveList.Table.{Owns}
use otrix.Scheduler.{Scheduler, is_blocked, num_priorities}

-- A run queue or a blocked queue, by its priority.
pub data Queue : Type 0 where
  runnable_at : ℕ → Queue
  blocked_at : ℕ → Queue

abbrev pub same : Queue → Queue → Bool
same (runnable_at i) (runnable_at j) = i == j
same (runnable_at i) (blocked_at j) = false
same (blocked_at i) (runnable_at j) = false
same (blocked_at i) (blocked_at j) = i == j

pub same_iff : (i j : Queue) → (same i j ≡ true) ↔ (i ≡ j)
same_iff (runnable_at i) (runnable_at j) = ground arith
same_iff (runnable_at i) (blocked_at j) = ((λ e. cc), (λ e. cc))
same_iff (blocked_at i) (runnable_at j) = ((λ e. cc), (λ e. cc))
same_iff (blocked_at i) (blocked_at j) = ground arith

abbrev pub heads : Scheduler → Queue → Ptr
heads s (runnable_at p) = s.runnable_queues p
heads s (blocked_at p) = s.blocked_queues p

abbrev pub All {ℓ} : (Ptr → Type ℓ) → List Ptr → Type ℓ
All P [] = Unit
All P (x ∷ xs) = P x × All P xs

-- What every thread of a queue satisfies: its priority is the queue's, and its state says which of
-- the two kinds of queue it is in.
abbrev pub Belongs : Scheduler → Queue → Ptr → Type 0
Belongs s (runnable_at p) t = (s.priority t ≡ p) × (is_blocked (s.state t) ≡ false)
Belongs s (blocked_at p) t = (s.priority t ≡ p) × (is_blocked (s.state t) ≡ true)

pub record IsValid (s : Scheduler) (lists : Queue → List Ptr) : Type 0 where
  pub owns : Owns s.links (heads s) lists
  pub belongs : (q : Queue) → All (Belongs s q) (lists q)
  pub current_runs :
      contains s.current_thread (lists (runnable_at (s.priority s.current_thread))) ≡ true
  pub current_priority : s.priority s.current_thread < num_priorities

-- A predicate that changes at `t` alone, over a list without `t`.
pub All-frame {ℓ κ} :
    (P : Ptr → Type ℓ) (Q : Ptr → Type κ) (t : Ptr) (xs : List Ptr)
    → NotIn t xs
    → ((a : Ptr) → a ≢ t → P a → Q a)
    → All P xs
    → All Q xs
All-frame P Q t [] out keep all = tt
All-frame P Q t (x ∷ xs) out keep all =
    (keep x (λ e. out.0 (sym e)) all.0, All-frame P Q t xs out.1 keep all.1)

pub All-append {ℓ} : (P : Ptr → Type ℓ) (xs ys : List Ptr) → All P xs → All P ys → All P (xs ++ ys)
All-append P [] ys hx hy = hy
All-append P (x ∷ xs) ys hx hy = (hx.0, All-append P xs ys hx.1 hy)

pub All-erase {ℓ} : (P : Ptr → Type ℓ) (n : Ptr) (xs : List Ptr) → All P xs → All P (erase n xs)
All-erase P n [] all = tt
All-erase P n (x ∷ xs) all = elim (Bool-cases (n == x)) [
  | inl e ↦ rw e all.1
  | inr e ↦ rw e (all.0, All-erase P n xs all.1)
]

pub All-contains {ℓ} :
    (P : Ptr → Type ℓ) (n : Ptr) (xs : List Ptr) → All P xs → contains n xs ≡ true → P n
All-contains P n [] all mem = cc
All-contains P n (x ∷ xs) all mem = elim (Bool-cases (n == x)) [
  | inl e ↦ let same_node : n ≡ x = (==_iff n x).0 e in rw same_node all.0
  | inr e ↦ All-contains P n xs all.1 (ground arith)
]

pub All-map {ℓ κ} :
    (P : Ptr → Type ℓ) (Q : Ptr → Type κ) (xs : List Ptr)
    → ((a : Ptr) → P a → Q a)
    → All P xs
    → All Q xs
All-map P Q [] f all = tt
All-map P Q (x ∷ xs) f all = (f x all.0, All-map P Q xs f all.1)

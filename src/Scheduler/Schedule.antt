-- ===== src/Scheduler/Schedule.antt =====
-- `schedule`: which thread runs next.
use otrix.Prelude.{
  ℕ, zero, suc, ◌≤◌, ◌<◌, ◌≡◌, ◌≢◌, refl, sym, subst, List, [], ◌∷◌, ◌++◌, true, false, ◌==◌, ne→==,
  ==_iff, ==_self, Bool-cases, inl, inr, arith, some,
}
use otrix.IntrusiveList.{Ptr, null, Links, update}
use otrix.IntrusiveList.Distinct.{Apart, Apart-nil, Apart-sym, Apart-append}
use otrix.IntrusiveList.Chain.{IsList, IsList-rotate, IsList-self}
use otrix.IntrusiveList.Erase.{contains}
use otrix.IntrusiveList.Table.{Owns, Owns-ext, Owns-put, put}
use otrix.Scheduler.{Scheduler, active, num_priorities, pick}
use otrix.Scheduler.Queues.{
  Queue, runnable_at, blocked_at, same, same_iff, heads, All, All-append, All-frame, All-map,
  Belongs, IsValid,
}

-- A queue that is not empty below `n` is enough for `pick` to find the highest one.
pub pick-highest :
    (queues : ℕ → Ptr) (n p : ℕ)
    → p < n
    → queues p ≢ null
    → (q : ℕ) × (pick queues n ≡ some q)
      × (q < n)
      × (p ≤ q)
      × (queues q ≢ null)
      × ((i : ℕ) → q < i → i < n → queues i ≡ null)
unfolding pick
pick-highest queues zero p lt ne = elim lt [ ]
pick-highest queues (suc n) p lt ne = elim (Bool-cases (queues n == null)) [
  | inl e ↦
      let empty : queues n ≡ null = (==_iff (queues n) null).0 e in
      let (q, found, below, above, here, rest) =
        pick-highest queues n p
          (elim (Bool-cases (p == n)) [
            | inl f ↦ absurd (ne (subst (λ i. queues i ≡ null) (sym ((==_iff p n).0 f)) empty))
            | inr f ↦ ground arith
          ])
          ne in
      (
        q,
        rw e found,
        omega arith,
        above,
        here,
        λ i lo hi. elim (Bool-cases (i == n)) [
          | inl f ↦ subst (λ j. queues j ≡ null) (sym ((==_iff i n).0 f)) empty
          | inr f ↦ rest i lo (ground arith)
        ],
      )
  | inr e ↦ (n, rw e refl, omega arith, omega arith, ground arith, λ i lo hi. omega arith)
]

-- The queue after its first thread was picked.
abbrev pub rotate : List Ptr → List Ptr
rotate [] = []
rotate (x ∷ xs) = xs ++ x ∷ []

IsList-next :
    (m : Links) (h x : Ptr) (xs : List Ptr)
    → IsList m h (x ∷ xs)
    → IsList m (m.next h) (xs ++ x ∷ [])
IsList-next m h x [] is = rw is.0 (is.1.0, is.1, is.2, is.3)
IsList-next m h x (y ∷ ys) is =
    let at : m.next h ≡ y = rw is.0 is.1.0 in rw at (IsList-rotate m h x y [] ys is)

Apart-rotate : (x : Ptr) (xs ys : List Ptr) → Apart ys (x ∷ xs) → Apart ys (xs ++ x ∷ [])
Apart-rotate x xs ys ap =
    let ap' = Apart-sym ys (x ∷ xs) ap in
    Apart-sym (xs ++ x ∷ []) ys (Apart-append xs (x ∷ []) ys ap'.1 (ap'.0, tt))

contains-append_left :
    (c : Ptr) (xs ys : List Ptr) → contains c xs ≡ true → contains c (xs ++ ys) ≡ true
contains-append_left c [] ys mem = cc
contains-append_left c (x ∷ xs) ys mem = elim (Bool-cases (c == x)) [
  | inl e ↦ ground arith
  | inr e ↦ ground (arith, contains-append_left c xs ys (ground arith))
]

contains-last : (x : Ptr) (xs : List Ptr) → contains x (xs ++ x ∷ []) ≡ true
contains-last x [] = ground arith
contains-last x (y ∷ ys) = ground (arith, contains-last x ys)

-- Before the choice: the scheduler `s` and the priority `prio` that was chosen.
module _ (s : Scheduler) (prio : ℕ) (x : Ptr) where
  abbrev pub scheduled : Scheduler
  scheduled = record s {
    need_resched = false;
    current_thread = x;
    state = update s.state x active;
    runnable_queues = update s.runnable_queues prio (s.links.next x);
  }

  Belongs-scheduled_run :
      (p : ℕ) (a : Ptr) → Belongs s (runnable_at p) a → Belongs scheduled (runnable_at p) a
  Belongs-scheduled_run p a b = elim (Bool-cases (a == x)) [
    | inl e ↦ rw e (b.0, refl)
    | inr e ↦ rw e b
  ]

  Belongs-scheduled_blocked :
      (p : ℕ) (a : Ptr) → a ≢ x → Belongs s (blocked_at p) a → Belongs scheduled (blocked_at p) a
  Belongs-scheduled_blocked p a ne b = rw (ne→== ne) b

module _ (s : Scheduler) (lists : Queue → List Ptr) (owns : Owns s.links (heads s) lists)
    (belongs : (q : Queue) → All (Belongs s q) (lists q)) (prio : ℕ) (x : Ptr) (xs : List Ptr)
    (at : lists (runnable_at prio) ≡ x ∷ xs) (lt : prio < num_priorities) where
  abbrev pub rotated : Queue → List Ptr
  rotated = put same lists (runnable_at prio) (xs ++ x ∷ [])

  queue : IsList s.links (s.runnable_queues prio) (x ∷ xs)
  queue = subst (λ l. IsList s.links (s.runnable_queues prio) l) at (owns.list (runnable_at prio))

  next_queue : IsList s.links (s.links.next x) (xs ++ x ∷ [])
  next_queue = IsList-next s.links x x xs (IsList-self s.links _ x xs queue)

  apart : (q : Queue) → q ≢ runnable_at prio → Apart (lists q) (x ∷ xs)
  apart q ne = subst (λ l. Apart (lists q) l) at (owns.apart q (runnable_at prio) ne)

  Owns-rotated : Owns s.links (heads (scheduled s prio x)) rotated
  Owns-rotated =
      Owns-ext s.links _ _ _ _ (elim [ runnable_at p ↦ refl | blocked_at p ↦ refl ]) (λ q. refl)
        (Owns-put same same_iff s.links (heads s) lists owns (runnable_at prio) s.links
          (s.links.next x) (xs ++ x ∷ []) [] next_queue (λ a out. (refl, refl))
          (λ q ne. Apart-nil (lists q)) (λ q ne. Apart-rotate x xs (lists q) (apart q ne)))

  members : All (Belongs s (runnable_at prio)) (x ∷ xs)
  members = subst (λ l. All (Belongs s (runnable_at prio)) l) at (belongs (runnable_at prio))

  All-rotated : (q : Queue) → All (Belongs (scheduled s prio x) q) (rotated q)
  All-rotated (runnable_at p) = elim (Bool-cases (p == prio)) [
    | inl e ↦
        let same_prio : p ≡ prio = (==_iff p prio).0 e in
        rw e (
          All-map _ _ (xs ++ x ∷ []) (Belongs-scheduled_run s prio x p) (
            subst (λ i. All (Belongs s (runnable_at i)) (xs ++ x ∷ [])) (sym same_prio)
              (All-append _ xs (x ∷ []) members.1 (members.0, tt))))
    | inr e ↦ rw e (
        All-map _ _ (lists (runnable_at p)) (Belongs-scheduled_run s prio x p)
          (belongs (runnable_at p)))
  ]
  All-rotated (blocked_at p) =
      All-frame _ _ x (lists (blocked_at p))
        (Apart-sym (lists (blocked_at p)) (x ∷ xs) (apart (blocked_at p) (λ e. cc))).0
        (Belongs-scheduled_blocked s prio x p) (belongs (blocked_at p))

  pub scheduled-IsValid : IsValid (scheduled s prio x) rotated
  scheduled-IsValid = record {
    owns = Owns-rotated;
    belongs = All-rotated;
    current_runs = rw (members.0.0, ==_self prio) (contains-last x xs);
    current_priority = rw members.0.0 lt;
  }

-- ===== src/Sync/Mutex.antt =====
-- The mutex: threads that lock it, hold it and release it, in any order.
use otrix.Prelude.{
  ◌≡◌, refl, subst, List, [], ◌∷◌, true, false, ==_iff, ==_self, Option, none, some,
}
use otrix.Sync.{
  Thread, WaitQueue, wait, notify_one, MutexState, try_lock, wait_lock, woken_lock, unlock,
}

-- The threads that hold the mutex: those behind `lock`, and those that were woken and did not go on yet.
pub record System : Type 0 where
  pub mutex : MutexState
  pub inside : List Thread
  pub woken : List Thread

abbrev pub with_woken : Option Thread → List Thread → List Thread
with_woken none ts = ts
with_woken (some t) ts = t ∷ ts

-- The steps of the threads: the parts of `lock`, and `unlock` by a thread that holds the mutex. A thread
-- that found the mutex taken may be delayed before it waits.
pub data Step : System → System → Type 0 where
  enters :
      (s : System) (t : Thread)
      → (try_lock s.mutex t).0 ≡ true
      → Step s (record { mutex = (try_lock s.mutex t).1; inside = t ∷ s.inside; woken = s.woken })
  blocks : (s : System) (t : Thread) → Step s (record s { mutex = wait_lock s.mutex t })
  goes_on :
      (s : System) (t : Thread) (ts : List Thread)
      → s.woken ≡ t ∷ ts
      → Step s (record { mutex = woken_lock s.mutex t; inside = t ∷ s.inside; woken = ts })
  leaves :
      (s : System) (t : Thread) (ts : List Thread)
      → s.inside ≡ t ∷ ts
      → Step s (record {
        mutex = (unlock s.mutex t).1;
        inside = ts;
        woken = with_woken (unlock s.mutex t).0 s.woken;
      })

-- The mutex is free and nobody holds it; or one thread is behind `lock`, and is its owner; or one was
-- woken, and the mutex is not free.
abbrev pub Holds : Option Thread → (inside woken : List Thread) → Type 0
Holds none [] [] = Unit
Holds (some owner) (t ∷ []) [] = owner ≡ t
Holds (some owner) [] (t ∷ []) = Unit
Holds _ _ _ = ⊥

abbrev pub Exclusive : System → Type 0
Exclusive s = Holds s.mutex.owner s.inside s.woken

enter-Holds :
    (wq : WaitQueue) (owner : Option Thread) (inside woken : List Thread) (t : Thread)
    → (try_lock (record { waiting_queue = wq; owner = owner }) t).0 ≡ true
    → Holds owner inside woken
    → Holds (try_lock (record { waiting_queue = wq; owner = owner }) t).1.owner (t ∷ inside) woken
unfolding try_lock
enter-Holds wq none [] [] t got h = refl
enter-Holds wq none [] (w ∷ ws) t got h = absurd h
enter-Holds wq none (i ∷ is) woken t got h = absurd h
enter-Holds wq (some owner) inside woken t got h = cc

leave-Holds :
    (wq : WaitQueue) (owner : Option Thread) (t : Thread) (ts woken : List Thread)
    → Holds owner (t ∷ ts) woken
    → Holds
        (unlock (record { waiting_queue = wq; owner = owner }) t).1.owner
        ts
        (with_woken (unlock (record { waiting_queue = wq; owner = owner }) t).0 woken)
unfolding unlock notify_one
leave-Holds wq none t ts woken h = absurd h
leave-Holds [] (some owner) t [] [] h = rw ((==_iff owner t).1 h) tt
leave-Holds (w ∷ wq) (some owner) t [] [] h = rw ((==_iff owner t).1 h) tt
leave-Holds wq (some owner) t [] (w ∷ ws) h = absurd h
leave-Holds wq (some owner) t (x ∷ xs) woken h = absurd h

go_on-Holds :
    (owner : Option Thread) (inside : List Thread) (t : Thread) (ts : List Thread)
    → Holds owner inside (t ∷ ts)
    → Holds (some t) (t ∷ inside) ts
go_on-Holds none [] t ts h = absurd h
go_on-Holds none (i ∷ is) t ts h = absurd h
go_on-Holds (some owner) [] t [] h = refl
go_on-Holds (some owner) [] t (x ∷ xs) h = absurd h
go_on-Holds (some owner) (i ∷ []) t ts h = absurd h
go_on-Holds (some owner) (i ∷ j ∷ is) t ts h = absurd h

Step-Exclusive : {s s' : System} → Step s s' → Exclusive s → Exclusive s'
unfolding wait_lock woken_lock
Step-Exclusive (enters s t got) h =
    enter-Holds s.mutex.waiting_queue s.mutex.owner s.inside s.woken t got h
Step-Exclusive (blocks s t) h = h
Step-Exclusive (goes_on s t ts at) h =
    go_on-Holds s.mutex.owner s.inside t ts (subst (λ w. Holds s.mutex.owner s.inside w) at h)
Step-Exclusive (leaves s t ts at) h =
    leave-Holds s.mutex.waiting_queue s.mutex.owner t ts s.woken
      (subst (λ i. Holds s.mutex.owner i s.woken) at h)

-- Any number of steps.
pub data Reaches : System → System → Type 0 where
  here : (s : System) → Reaches s s
  after : (s s' s'' : System) → Step s s' → Reaches s' s'' → Reaches s s''

-- From a state where at most one thread holds the mutex every state that the threads reach is such a
-- state, whatever they do in whatever order, when only a thread that holds the mutex releases it.
pub Reaches-Exclusive : {s s' : System} → Reaches s s' → Exclusive s → Exclusive s'
Reaches-Exclusive (here s) h = h
Reaches-Exclusive (after s s' s'' first rest) h = Reaches-Exclusive rest (Step-Exclusive first h)

abbrev pub taken_by : Thread → MutexState
taken_by owner = record { waiting_queue = []; owner = some owner }

-- A thread that finds the mutex taken, and waits only after the owner released it with an empty queue,
-- waits on a mutex that is free.
pub unlock-wait_lock :
    (owner t : Thread)
    → ((try_lock (taken_by owner) t).0 ≡ false)
      × ((wait_lock (unlock (taken_by owner) owner).1 t).owner ≡ none)
      × ((wait_lock (unlock (taken_by owner) owner).1 t).waiting_queue ≡ t ∷ [])
unfolding try_lock wait_lock wait unlock
unlock-wait_lock owner t = rw (unlock, ==_self owner) (refl, refl, refl)

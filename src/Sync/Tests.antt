-- ===== src/Sync/Tests.antt =====
-- A semaphore, a mutex and a queue of two messages, and the theorems at them.
use otrix.Prelude.{◌+◌, ◌≡◌, refl, sym, ap, subst, List, [], ◌∷◌, true, none, inl, arith}
use otrix.Sync
use otrix.Sync.{
  SemaphoreState, MutexState, MsgqState, Thread, Wait, got, try_lock, unlock, msgq, write,
  begin_read, fetch,
}
use otrix.Sync.Semaphore.{
  Call, takes, tries, gives, run, total, through, accepted, Sound, run-Sound,
}
use otrix.Sync.Mutex.{
  System, enters, blocks, leaves, goes_on, Reaches, here, after, Exclusive, with_woken,
  Reaches-Exclusive,
}
use otrix.Sync.Msgq.{Represents, msgq-Represents, write-Represents, begin_read-Represents}

abbrev binary : SemaphoreState
binary = record { waiting_queue = []; count = 1; max_count = 1 }

binary-Sound : Sound binary
binary-Sound = record { bound = omega arith; idle = inl refl }

-- Two threads take, the second one waits, a third one tries in vain, and two gives follow.
abbrev calls : List Call
calls = takes 11 ∷ takes 12 ∷ tries 13 ∷ gives ∷ gives ∷ []

run-Sound_example :
    Sound (run binary calls)
    × ((run binary calls).count + total through binary calls
        ≡ binary.count + total accepted binary calls)
    × ((run binary calls).max_count ≡ binary.max_count)
run-Sound_example = run-Sound binary calls binary-Sound

abbrev free_mutex : MutexState
free_mutex = record { waiting_queue = []; owner = none }

abbrev nobody : System
nobody = record { mutex = free_mutex; inside = []; woken = [] }

-- Thread 11 locks, thread 12 waits, 11 releases, 12 is behind `lock`.
abbrev locked : System
locked = record { mutex = (try_lock free_mutex 11).1; inside = 11 ∷ []; woken = [] }

abbrev waiting : System
waiting = record locked { mutex = Sync.wait_lock locked.mutex 12 }

abbrev released : System
released = record {
  mutex = (unlock waiting.mutex 11).1;
  inside = [];
  woken = with_woken (unlock waiting.mutex 11).0 [];
}

abbrev passed : System
passed = record { mutex = Sync.woken_lock released.mutex 12; inside = 12 ∷ []; woken = [] }

passed_on : Reaches nobody passed
unfolding Sync.try_lock Sync.unlock Sync.wait_lock Sync.woken_lock Sync.wait Sync.notify_one
passed_on = after nobody locked passed (enters nobody 11 refl) (
    after locked waiting passed (blocks locked 12) (
      after waiting released passed (leaves waiting 11 [] refl)
        (after released passed passed (goes_on released 12 [] refl) (here passed))))

Reaches-Exclusive_example : Exclusive passed
Reaches-Exclusive_example = Reaches-Exclusive passed_on tt

write-Represents_example :
    (q' : MsgqState) × (write (msgq 2) 7 ≡ (true, none, q')) × Represents q' (7 ∷ [])
unfolding Sync.msgq
write-Represents_example =
    write-Represents (msgq 2) [] 7 (msgq-Represents 2 (omega arith)) (omega arith)

abbrev with_7 : MsgqState
with_7 = (write (msgq 2) 7).2

with_7-Represents : Represents with_7 (7 ∷ [])
unfolding Sync.write Sync.give Sync.msgq
with_7-Represents =
    let (q', at, r) =
      write-Represents (msgq 2) [] 7 (msgq-Represents 2 (omega arith)) (omega arith) in
    subst (λ x. Represents x (7 ∷ [])) (sym (ap (λ x. x.2) at)) r

begin_read-Represents_example :
    (q' q'' : MsgqState) × (begin_read with_7 11 0 ≡ (got, q'))
    × (fetch q' ≡ (7, q''))
    × Represents q'' []
begin_read-Represents_example = begin_read-Represents with_7 7 [] 11 0 with_7-Represents

-- ===== src/Sync/Msgq.antt =====
-- The message queue's ring against a first-in first-out list, while no reader waits.
use otrix.Prelude.{
  ==→ne, ℕ, zero, suc, ◌+◌, ◌-◌, ◌%◌, ◌≤◌, ◌<◌, ◌≡◌, ◌≢◌, refl, sym, ap, ◌∙◌, List, [], ◌∷◌, ◌++◌,
  length, length-append, get_or, true, false, not, ◌&&◌, ◌==◌, ==_iff, ne→==, Bool-cases, inl, inr,
  none, some, arith,
}
use native.Mathlib.Nat.{mod-lt, mod-eq_of_lt, mod-eq-sub-mod, mod-add-mod}
use otrix.IntrusiveList.{update}
use otrix.Sync.{
  got, SemaphoreState, take, notify_one, give, give_to, MsgqState, msgq, write, fetch, begin_read,
}
use otrix.Sync.Ring.{place-ne, and_false}

-- The queue holds the messages, the oldest first.
pub record Represents (q : MsgqState) (msgs : List ℕ) : Type 0 where
  pub cells : (i : ℕ) → i < length msgs → q.storage ((q.read_p + i) % q.size) ≡ get_or msgs i 0
  pub write_at : q.write_p ≡ (q.read_p + length msgs) % q.size
  pub count : q.sem.count ≡ length msgs
  pub max : q.sem.max_count ≡ q.size
  pub idle : q.sem.waiting_queue ≡ []
  pub fits : q.read_p < q.size
  pub bound : length msgs ≤ q.size

get_or-append_lt :
    (xs : List ℕ) (x i : ℕ) → i < length xs → get_or (xs ++ (x ∷ [])) i 0 ≡ get_or xs i 0
get_or-append_lt [] x i h = absurd (omega arith)
get_or-append_lt (y ∷ ys) x zero h = refl
get_or-append_lt (y ∷ ys) x (suc i) h = get_or-append_lt ys x i (omega arith)

get_or-append_at : (xs : List ℕ) (x : ℕ) → get_or (xs ++ (x ∷ [])) (length xs) 0 ≡ x
get_or-append_at [] x = refl
get_or-append_at (y ∷ ys) x = get_or-append_at ys x

written_test :
    (q : MsgqState) (msgs : List ℕ)
    → Represents q msgs
    → length msgs < q.size
    → ((q.write_p == q.read_p) && not (q.sem.count == 0)) ≡ false
written_test q msgs r room = elim (Bool-cases (q.sem.count == 0)) [
  | inl e ↦ rw e (and_false (q.write_p == q.read_p))
  | inr e ↦
      let some_there : length msgs ≢ 0 = λ z. ==→ne e (r.count ∙ z) in
      let fits = r.fits in
      let apart = place-ne q.size q.read_p (length msgs) 0 fits room (omega arith) some_there in
      let start : (q.read_p + 0) % q.size ≡ q.read_p =
        ap (λ x. x % q.size) (omega arith) ∙ mod-eq_of_lt fits in
      let test : (q.write_p == q.read_p) ≡ false =
        ne→== (λ same. apart (sym r.write_at ∙ same ∙ sym start)) in
      rw test refl
]

give-idle :
    (s : SemaphoreState)
    → s.waiting_queue ≡ []
    → s.count < s.max_count
    → give s ≡ (none, record s { count = s.count + 1 })
unfolding give
give-idle s idle less =
    let below : (s.count == s.max_count) ≡ false = ground arith in
    rw (give, below) (ap (give_to s) idle)

-- What a write of a message leaves in a queue with room.
abbrev pub after_write : MsgqState → ℕ → MsgqState
after_write q msg = record q {
  storage = update q.storage q.write_p msg;
  write_p = (q.write_p + 1) % q.size;
  sem = record q.sem { count = q.sem.count + 1 };
}

after_write-cells :
    (q : MsgqState) (msgs : List ℕ) (msg : ℕ)
    → Represents q msgs
    → length msgs < q.size
    → (i : ℕ) → i < length msgs + 1
    → (after_write q msg).storage ((q.read_p + i) % q.size) ≡ get_or (msgs ++ (msg ∷ [])) i 0
after_write-cells q msgs msg r room i h = elim (Bool-cases (i == length msgs)) [
  | inl e ↦
      let last : i ≡ length msgs = (==_iff i (length msgs)).0 e in
      let here : ((q.read_p + i) % q.size == q.write_p) ≡ true =
        (==_iff _ _).1 (ap (λ x. (q.read_p + x) % q.size) last ∙ sym r.write_at) in
      rw here
        (sym (get_or-append_at msgs msg) ∙ ap (λ x. get_or (msgs ++ (msg ∷ [])) x 0) (sym last))
  | inr e ↦
      let inside : i < length msgs = ground arith in
      let apart =
        place-ne q.size q.read_p i (length msgs) r.fits (omega arith) room (omega arith) in
      let elsewhere : ((q.read_p + i) % q.size == q.write_p) ≡ false =
        ne→== (λ same. apart (same ∙ r.write_at)) in
      rw elsewhere (r.cells i inside ∙ sym (get_or-append_lt msgs msg i inside))
]

after_write-Represents :
    (q : MsgqState) (msgs : List ℕ) (msg : ℕ)
    → Represents q msgs
    → length msgs < q.size
    → Represents (after_write q msg) (msgs ++ (msg ∷ []))
after_write-Represents q msgs msg r room =
    let longer : length (msgs ++ (msg ∷ [])) ≡ length msgs + 1 = length-append msgs (msg ∷ []) in
    record {
      cells = λ i h. after_write-cells q msgs msg r room i (omega arith);
      write_at =
          ap (λ x. (x + 1) % q.size) r.write_at
          ∙ mod-add-mod (q.read_p + length msgs) q.size 1
          ∙ ap (λ x. x % q.size) (omega arith);
      count = omega (arith, r.count);
      max = r.max;
      idle = r.idle;
      fits = r.fits;
      bound = omega arith;
    }

-- While no reader waits, a queue that holds fewer messages than its size takes one more at the end.
pub write-Represents :
    (q : MsgqState) (msgs : List ℕ) (msg : ℕ)
    → Represents q msgs
    → length msgs < q.size
    → (q' : MsgqState) × (write q msg ≡ (true, none, q')) × Represents q' (msgs ++ (msg ∷ []))
unfolding write
write-Represents q msgs msg r room =
    let given = give-idle q.sem r.idle (omega (arith, r.count, r.max)) in
    (
      after_write q msg,
      rw (write, written_test q msgs r room, given) refl,
      after_write-Represents q msgs msg r room,
    )

-- A full queue takes no message, and does not change.
pub write-full :
    (q : MsgqState) (msgs : List ℕ) (msg : ℕ)
    → Represents q msgs
    → length msgs ≡ q.size
    → write q msg ≡ (false, none, q)
unfolding write
write-full q msgs msg r all =
    let fits = r.fits in
    let wraps : (q.read_p + length msgs) % q.size ≡ q.read_p =
      mod-eq-sub-mod (omega arith) ∙ ap (λ x. x % q.size) (omega arith) ∙ mod-eq_of_lt fits in
    let same : (q.write_p == q.read_p) ≡ true = (==_iff _ _).1 (r.write_at ∙ wraps) in
    let some_there : (q.sem.count == 0) ≡ false = ne→== (λ z. none_there r z) in
    rw (write, same, some_there) refl
  where
    none_there : Represents q msgs → q.sem.count ≢ 0
    none_there r z = omega (arith, r.count, r.fits, all)

-- What a read leaves.
abbrev pub after_read : MsgqState → MsgqState
after_read q = record q {
  read_p = (q.read_p + 1) % q.size;
  sem = record q.sem { count = q.sem.count - 1 };
}

-- A reader of a queue with a message does not wait, and gets the oldest; the others stay in order.
pub begin_read-Represents :
    (q : MsgqState) (msg : ℕ) (msgs : List ℕ) (thread timeout_ms : ℕ)
    → Represents q (msg ∷ msgs)
    → (q' q'' : MsgqState) × (begin_read q thread timeout_ms ≡ (got, q'))
      × (fetch q' ≡ (msg, q''))
      × Represents q'' msgs
unfolding begin_read fetch take
begin_read-Represents q msg msgs thread timeout_ms r =
    let some_there : (q.sem.count == 0) ≡ false = ne→== (λ z. none_there z) in
    let fits = r.fits in
    let first : q.storage q.read_p ≡ msg =
      ap q.storage (sym (ap (λ x. x % q.size) (omega arith) ∙ mod-eq_of_lt fits))
      ∙ r.cells 0 (omega arith) in
    (
      record q { sem = record q.sem { count = q.sem.count - 1 } },
      after_read q,
      rw (begin_read, take, some_there) refl,
      ap (λ m. (m, after_read q)) first,
      record {
        cells = λ i h.
            ap q.storage (mod-add-mod (q.read_p + 1) q.size i ∙ ap (λ x. x % q.size) (omega arith))
            ∙ r.cells (suc i) (omega arith);
        write_at =
            r.write_at
            ∙ ap (λ x. x % q.size) (omega arith)
            ∙ sym (mod-add-mod (q.read_p + 1) q.size (length msgs));
        count = omega (arith, r.count);
        max = r.max;
        idle = r.idle;
        fits = mod-lt (q.read_p + 1) (omega arith);
        bound = omega (arith, r.bound);
      },
    )
  where
    none_there : q.sem.count ≢ 0
    none_there z = omega (arith, r.count)

-- A queue that was made for at least one message is empty.
pub msgq-Represents : (size : ℕ) → 0 < size → Represents (msgq size) []
unfolding msgq
msgq-Represents size room = record {
  cells = λ i h. absurd (omega arith);
  write_at = sym (mod-eq_of_lt room);
  count = refl;
  max = refl;
  idle = refl;
  fits = room;
  bound = omega arith;
}

-- When a write to a queue of one message wakes the reader that waits, a second write before the reader
-- fetches is taken too, and goes over the first message: the reader gets the second.
pub write-overruns :
    (thread first second : ℕ)
    → (q q' : MsgqState) × (write
          (record (msgq 1) { sem = record (msgq 1).sem { waiting_queue = thread ∷ [] } })
          first
        ≡ (true, some thread, q))
      × (write q second ≡ (true, none, q'))
      × ((fetch q').0 ≡ second)
unfolding write give notify_one msgq fetch
write-overruns thread first second = (_, _, refl, refl, refl)

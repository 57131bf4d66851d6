-- ===== src/TimerService/Run.antt =====
-- `run`: what becomes of the thread when a task is due.
use otrix.Prelude.{
  ℕ, ◌≤◌, ◌≡◌, ◌≢◌, refl, ap, ◌∙◌, List, [], ◌∷◌, arith, true, false, ◌==◌, ==_iff, ne→==, ltb,
  returns, spins,
}
use otrix.IntrusiveList.{Ptr, null, delete, push_back, insert_sorted}
use otrix.TimerService.{
  TimerService, Callback, add_task, deadline_of, take_descriptor, run_task, retire_task,
  run_pending,
}

retire_task-spins : (t : TimerService) → retire_task t ≡ spins
unfolding retire_task push_back
retire_task-spins t = refl

-- When the first pending task is due the thread calls it, and then never goes on.
run_pending-spins :
    (callback : Callback) (now : ℕ) (clock : List ℕ) (t : TimerService)
    → t.pending_tasks ≢ null
    → t.deadline_tsc t.pending_tasks ≤ now
    → run_pending callback (now ∷ clock) t
      ≡ ((t.p_cb t.pending_tasks, t.p_ctx t.pending_tasks) ∷ [], spins)
unfolding run_pending run_task
run_pending-spins callback now clock t live due =
    let test : (t.pending_tasks == null) ≡ false = ne→== live in
    let over : ltb now (t.deadline_tsc t.pending_tasks) ≡ false = ground arith in
    rw (test, over, retire_task-spins (run_task callback t).1) refl

-- What is left of the service when its only task is taken off, as the callback finds it.
abbrev pub taken_off : TimerService → Ptr → TimerService
taken_off t task = record t {
  pending_tasks = (delete t.links task task).0;
  links = (delete t.links task task).1;
}

-- A task for an empty service, of a callback that is not NULL, takes the first free descriptor, and the
-- thread of the service is woken. At its deadline, or later, the callback is called with its context and
-- gets the service with the task taken off; the thread then never goes on, whatever the callback does: it
-- makes no other call.
pub add_task-run_pending :
    (fuel : ℕ) (ns_to_tsc : ℕ → ℕ) (before now : ℕ) (t : TimerService) (cb ctx timeout_ms : ℕ)
    (callback : Callback) (clock : List ℕ)
    → t.pending_tasks ≡ null
    → t.task_pool ≢ null
    → cb ≢ null
    → deadline_of ns_to_tsc before timeout_ms ≤ now
    → (t' : TimerService) × (add_task fuel ns_to_tsc before t cb ctx timeout_ms
        ≡ returns (t.task_pool, true, t'))
      × ((run_task callback t').1 ≡ callback cb ctx (taken_off t' t.task_pool))
      × (run_pending callback (now ∷ clock) t' ≡ ((cb, ctx) ∷ [], spins))
unfolding add_task insert_sorted run_task
add_task-run_pending fuel ns_to_tsc before now t cb ctx timeout_ms callback clock empty free live
      due =
    let t1 : TimerService = take_descriptor t cb ctx (deadline_of ns_to_tsc before timeout_ms) in
    let t' : TimerService = record t1 { pending_tasks = t.task_pool } in
    let no_cb : (cb == null) ≡ false = ne→== live in
    let no_pool : (t.task_pool == null) ≡ false = ne→== free in
    let none_pending : (t.pending_tasks == null) ≡ true = (==_iff _ _).1 empty in
    let self : (t.task_pool == t.task_pool) ≡ true = (==_iff t.task_pool t.task_pool).1 refl in
    let at : t'.deadline_tsc t.task_pool ≤ now = rw self due in
    let cb_at : t'.p_cb t.task_pool ≡ cb = rw self refl in
    let ctx_at : t'.p_ctx t.task_pool ≡ ctx = rw self refl in
    (
      t',
      rw (no_cb, no_pool, none_pending, self) refl,
      ap (λ c. callback c (t'.p_ctx t.task_pool) (taken_off t' t.task_pool)) cb_at
          ∙ ap (λ x. callback cb x (taken_off t' t.task_pool)) ctx_at,
      run_pending-spins callback now clock t' free at
          ∙ ap (λ c. ((c, t'.p_ctx t.task_pool) ∷ [], spins)) cb_at
          ∙ ap (λ x. ((cb, x) ∷ [], spins)) ctx_at,
    )

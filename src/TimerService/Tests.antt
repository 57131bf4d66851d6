-- ===== src/TimerService/Tests.antt =====
-- A service that was constructed with two descriptors, and an empty one.
use otrix.Prelude.{◌≡◌, refl, [], ◌∷◌, arith, true, returns, spins}
use otrix.IntrusiveList.{Links}
use otrix.TimerService.{TimerService, construct, add_task, run_task, run_pending}
use otrix.TimerService.Construct.{Holds, construct-Holds}
use otrix.TimerService.Run.{taken_off, add_task-run_pending}

abbrev links : Links
links = record { next = λ a. a; prev = λ a. a }

abbrev no_pending : TimerService
no_pending = record {
  links = links;
  pending_tasks = 0;
  task_pool = 128;
  p_cb = λ a. 5000;
  p_ctx = λ a. 6000;
  deadline_tsc = λ a. a;
}

construct-Holds_example :
    (t : TimerService) × (construct no_pending (64 ∷ 96 ∷ []) ≡ returns t)
    × Holds t [] (96 ∷ 64 ∷ [])
construct-Holds_example = construct-Holds no_pending (64 ∷ 96 ∷ []) (ground arith) (ground arith)

add_task-run_pending_example :
    (t' : TimerService) × (add_task 1 (λ ns. ns) 1000 no_pending 5000 7000 2
      ≡ returns (128, true, t'))
    × ((run_task (λ cb ctx t. t) t').1 ≡ taken_off t' 128)
    × (run_pending (λ cb ctx t. t) (2001000 ∷ []) t' ≡ ((5000, 7000) ∷ [], spins))
add_task-run_pending_example =
    add_task-run_pending 1 (λ ns. ns) 1000 2001000 no_pending 5000 7000 2 (λ cb ctx t. t) [] refl
      (omega arith) (omega arith) (omega arith)

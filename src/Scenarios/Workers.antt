-- ===== src/Scenarios/Workers.antt =====
-- Two workers with the thread ids 10 and 11.
use mathlib.Core.List.{Perm, Memᴰ}
use synergy_lib.Scheduler.{empty_task, start, a_cb, new_scheduler}
use synergy_lib.Prelude.{
  ℕ, refl, arith, ◌≡◌, ◌+◌, none, some, List, ◌∷◌, false, true, Bool, update, [], u64_mod, ◌↔◌,
  ◌++◌, any, all, ◌<◌, ◌≢◌,
}
use synergy_lib.Prelude.Int.{ℤ, pos, negsuc}
use synergy_lib.Prelude.Total.{total}
use synergy_lib.Piber.{State, ready}
use synergy_lib.Scheduler.{
  ScheduleTask, a_piber, Scheduler, Phase, looking, working, idling, ended, run_round, idle_returns,
  schedule_no_lock, stop, scan, has_work, any_thread, is_elsewhere,
}
use synergy_lib.Scheduler.Queue.{is_eligible, run_round_serves_first}
use synergy_lib.Scheduler.Workers.{
  System, rounds, idle_back, moves, stops, inside, here, next, is_working, outside,
}
use synergy_lib.Scheduler.Counters.{Inv, counters_count}
use synergy_lib.Scheduler.Shutdown.{IsQuiet, WorkerReach, ended_worker_leaves_nothing}
use synergy_lib.Scheduler.Conservation.{begins, scheduled, tasks_conserved, queued_by}
use synergy_lib.Scheduler.Foreign.{foreign_task_blocks_stop}

abbrev ids_of_new : ℕ → ℤ
ids_of_new i = pos (10 + i)

abbrev ids : ℕ → ℤ
ids i = pos (10 + i)

abbrev all_ready : ℕ → State
all_ready _ = ready

-- A callback bound to the thread 11, and a coroutine for any thread.
abbrev bound : ScheduleTask
bound = record { piber = none; cb = some 1; thread = pos 11 }

abbrev free : ScheduleTask
free = record { piber = some 7; cb = none; thread = any_thread }

abbrev lost : ScheduleTask
lost = record { piber = none; cb = some 2; thread = pos 99 }

abbrev with_tasks : List ScheduleTask → Scheduler
with_tasks ts = record {
  tasks = ts;
  threads = [];
  thread_count = 2;
  thread_ids = [];
  active_thread_count = 0;
  idle_thread_count = 0;
  use_caller = false;
  root_piber = none;
  root_thread = negsuc 0;
  stopping = false;
}

abbrev at_rest : List ScheduleTask → System
at_rest ts = record { sched = with_tasks ts; phase = λ _. looking false }

at_rest-Inv : (ts : List ScheduleTask) → all has_work ts ≡ true → Inv 2 (at_rest ts)
unfolding total
at_rest-Inv ts h = record { active = refl; idle = refl; runnable = h }

skips_bound :
    scan (pos 10) all_ready (bound ∷ free ∷ [])
    ≡ record { chosen = some free; rest = bound ∷ []; tickle_me = true }
unfolding scan
skips_bound = refl

-- The comment on the idle branch of Scheduler::run says that the queue must be empty there.
idles_with_a_queue : (run_round (pos 10) all_ready false (with_tasks (bound ∷ []))).1 ≡ idling
unfolding run_round empty_task
idles_with_a_queue = refl

run_round_serves_first_example :
    (((t : ScheduleTask) × ((run_round (pos 10) all_ready false (with_tasks (bound ∷ free ∷ []))).1
          ≡ working t false))
      ↔ (any (is_eligible (pos 10) all_ready) (bound ∷ free ∷ []) ≡ true))
    × ((t : ScheduleTask)
        → (run_round (pos 10) all_ready false (with_tasks (bound ∷ free ∷ []))).1 ≡ working t false
        → (is_eligible (pos 10) all_ready t ≡ true)
          × (before : List ScheduleTask) × (after : List ScheduleTask) × (bound ∷ free ∷ []
              ≡ before ++ t ∷ after)
          × ((run_round (pos 10) all_ready false (with_tasks (bound ∷ free ∷ []))).0.tasks
              ≡ before ++ after)
          × (any (is_eligible (pos 10) all_ready) before ≡ false))
run_round_serves_first_example =
    run_round_serves_first (pos 10) all_ready false (with_tasks (bound ∷ free ∷ [])) refl

abbrev first_round : Scheduler × Phase × Bool
first_round = run_round (pos 10) all_ready false (with_tasks (bound ∷ free ∷ []))

abbrev worker_0_runs : System
worker_0_runs = record {
  sched = first_round.0;
  phase = update (λ _. looking false) 0 first_round.1;
}

-- A scheduler for two threads; a callback is scheduled, the workers start, and the worker 0 takes it.
abbrev started : System
started = record {
  sched =
      start ids_of_new
        (schedule_no_lock (a_cb (some 5)) any_thread (new_scheduler 2 false (negsuc 0) 0)).0;
  phase = λ _. looking false;
}

abbrev taken : Scheduler × Phase × Bool
taken = run_round (pos 10) all_ready false started.sched

counters_count_example : Inv 2 (record { sched = taken.0; phase = update started.phase 0 taken.1 })
counters_count_example =
    counters_count 2 ids (omega arith) 2 false (negsuc 0) 0 ids_of_new
      (next here (outside (a_cb (some 5)) any_thread))
      (next here (inside (moves 0 (omega arith) (rounds all_ready false))))

tasks_conserved_example :
    Perm
      ((bound ∷ []) ++ ([] ++ queued_by (a_piber (some 7)) any_thread))
      ([] ++ (schedule_no_lock (a_piber (some 7)) any_thread (with_tasks (bound ∷ []))).0.tasks)
tasks_conserved_example =
    tasks_conserved 2 ids (omega arith) (scheduled (a_piber (some 7)) any_thread begins)
      (at_rest-Inv (bound ∷ []) refl)

foreign_task_blocks_stop_example :
    Memᴰ lost (stop (with_tasks (lost ∷ []))).0.tasks
    × ((i : ℕ) → i < 2 → (at_rest (lost ∷ [])).phase i ≢ ended)
unfolding is_elsewhere
foreign_task_blocks_stop_example =
    foreign_task_blocks_stop 2 ids (omega arith) lost (λ i h. ground arith)
      (next here (inside stops)) (at_rest-Inv (lost ∷ []) refl) (Memᴰ.head refl) (λ i h. refl)

abbrev stop_called : Scheduler
stop_called = (stop (with_tasks [])).0

abbrev idle_entered : Scheduler × Phase × Bool
idle_entered = run_round (pos 10) all_ready false stop_called

abbrev idle_left : Scheduler × Bool
idle_left = idle_returns idle_entered.0

abbrev last_round : Scheduler × Phase × Bool
last_round = run_round (pos 10) all_ready true idle_left.0

abbrev one_ended : System
one_ended = record {
  sched = last_round.0;
  phase =
      update (update (update (λ _. looking false) 0 idle_entered.1) 0 (looking idle_left.1)) 0
        last_round.1;
}

ended_worker_leaves_nothing_example :
    IsQuiet last_round.0 × ((j : ℕ) → j < 1 → is_working (one_ended.phase j) ≡ 0)
unfolding run_round empty_task stop idle_returns total
ended_worker_leaves_nothing_example =
    ended_worker_leaves_nothing 1 ids (omega arith) {s = at_rest []}
      (WorkerReach.next {u = one_ended}
        (WorkerReach.next
          (WorkerReach.next (WorkerReach.next WorkerReach.here stops)
            (moves 0 (omega arith) (rounds all_ready false)))
          (moves 0 (omega arith) idle_back))
        (moves 0 (omega arith) (rounds all_ready true)))
      (record { active = refl; idle = refl; runnable = refl }) (λ i h. refl) 0 (omega arith) refl

few_workers : 2 < u64_mod
few_workers = omega arith

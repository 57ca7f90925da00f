-- ===== src/Scenarios/Dispatches.antt =====
-- Two workers, 0 and 1, with the thread ids 10 and 11: worker 0 runs the coroutine 7.
use synergy_lib.Prelude.{
  ℕ, refl, arith, ◌≡◌, ◌+◌, none, some, false, true, [], ◌∷◌, List, if◌then◌else◌, ◌==◌, ◌≤◌,
  update,
}
use synergy_lib.Prelude.Int.{ℤ, pos, negsuc}
use synergy_lib.Prelude.Total.{total}
use synergy_lib.Piber.{ready, runing}
use synergy_lib.Scheduler.{
  ScheduleTask, Scheduler, any_thread, run_round, scan, is_elsewhere, runs_already,
}
use synergy_lib.Dispatch.{
  looking, running, leaving, World, searches, moves, Reach, here, next, queued, uses, after_round,
}
use synergy_lib.Dispatch.Exclusive.{exclusive, Unused}
use synergy_lib.Dispatch.Race.{self_schedule_races, Always}

abbrev ids : ℕ → ℤ
ids i = pos (10 + i)

abbrev task_7 : ScheduleTask
task_7 = record { piber = some 7; cb = none; thread = any_thread }

abbrev for_11 : ScheduleTask
for_11 = record { piber = none; cb = some 3; thread = pos 11 }

abbrev sched_with : List ScheduleTask → Scheduler
sched_with ts = record {
  tasks = ts;
  threads = [];
  thread_count = 2;
  thread_ids = [];
  active_thread_count = 0;
  idle_thread_count = 0;
  use_caller = false;
  root_piber = none;
  root_thread = negsuc 0;
  stopping = true;
}

abbrev with_7_queued : World
with_7_queued = record {
  sched = sched_with (task_7 ∷ []);
  state = λ p. ready;
  point = λ p. 0;
  place = λ i. looking false;
}

abbrev with_7_running : World
with_7_running = record {
  sched = sched_with [];
  state = λ p. runing;
  point = λ p. 5;
  place = λ i. if i == 0 then running task_7 7 20 false else looking false;
}

-- Worker 0 takes the coroutine.
takes_7 :
    (may : World → ℕ → Type 0)
    → Reach 2 ids may with_7_queued (record with_7_queued {
      sched = (run_round (pos 10) (λ p. ready) false (sched_with (task_7 ∷ []))).0;
      place =
          update
            (λ i. looking false)
            0
            (after_round (run_round (pos 10) (λ p. ready) false (sched_with (task_7 ∷ []))).1);
    })
takes_7 may = next here (moves 0 (omega arith) (searches false))

once_queued : (p : ℕ) → uses 2 p with_7_queued ≤ 1
unfolding total
once_queued p = ground arith

exclusive_example :
    ◌≡◌ {A = ℕ} 0 0
    × (queued 7 (run_round (pos 10) (λ p. ready) false (sched_with (task_7 ∷ []))).0.tasks ≡ 0)
unfolding run_round scan is_elsewhere runs_already
exclusive_example =
    exclusive 2 ids (takes_7 (Unused 2 ids)) once_queued 7 0 0 (omega arith) (omega arith) refl refl

self_schedule_races_example :
    (w' : World) × Reach 2 ids Always with_7_running w'
    × (w'.place 0 ≡ leaving task_7 7 20 false)
    × (w'.place 1 ≡ running task_7 7 5 false)
self_schedule_races_example =
    self_schedule_races 2 ids with_7_running task_7 0 1 7 20 false false (omega arith) (omega arith)
      (omega arith) refl refl refl refl

-- ===== src/Scheduler/Drain.antt =====
-- The loop of Scheduler::run (synergy/Scheduler.cc) from its start to its end, on the only worker.
use synergy_lib.Prelude.{
  ℕ, zero, suc, refl, arith, Bool, true, false, Option, none, some, List, [], ◌∷◌, ◌+◌, ◌<◌, ◌≡◌,
  ◌&&◌, if◌then◌else◌, leb, length, all, u64, u64_mod, ap, ◌∙◌, inl, inr, Bool-cases, not, is_empty,
}
use synergy_lib.Prelude.Int.{ℤ}
use synergy_lib.Piber.{State}
use synergy_lib.Scheduler.{
  ScheduleTask, Scheduler, looking, working, idling, ended, run_round, task_returns, idle_returns,
  is_stopping, has_work, scan, empty_task,
}
use synergy_lib.Scheduler.Queue.{is_eligible, scan-take}

abbrev pub Result : Type 0
Result = Option (Scheduler × List ScheduleTask)

abbrev pub after_task : ScheduleTask → Result → Result
after_task t none = none
after_task t (some (s, ts)) = some (s, t ∷ ts)

-- Scheduler::run with at most `fuel` rounds, where a task that is resumed returns and schedules
-- nothing: the scheduler when the loop has ended, and the tasks that were run; `none` if it has not
-- ended by then.
unfoldable pub run : ℕ → ℤ → (ℕ → State) → Bool → Scheduler → Result
unfolding run_round task_returns idle_returns
run zero tid state idle_term s = none
run (suc fuel) tid state idle_term s =
    let r = run_round tid state idle_term s in
    elim r.1 [
      | looking b ↦ none
      | working t b ↦ after_task t (run fuel tid state b (task_returns r.0))
      | idling ↦ run fuel tid state (idle_returns r.0).1 (idle_returns r.0).0
      | ended ↦ some (r.0, [])
    ]

module _ (tid : ℤ) (state : ℕ → State) where
  unfoldable pub ready_task : ScheduleTask → Bool
  ready_task t = has_work t && is_eligible tid state t

  abbrev pub with_tasks : Scheduler → List ScheduleTask → Scheduler
  with_tasks s ts = record s { tasks = ts }

  -- A round on a queue whose first task may be taken.
  round_task :
      (s : Scheduler) (t : ScheduleTask) (ts : List ScheduleTask)
      → ready_task t ≡ true
      → run_round tid state false (with_tasks s (t ∷ ts)) ≡ (
        record s { tasks = ts; active_thread_count = u64 (s.active_thread_count + 1) },
        working t false,
        not (is_empty ts),
      )
  unfolding run_round ready_task
  round_task s t ts h = ground (arith, scan-take tid state t ts)

  returns :
      (s : Scheduler) (ts : List ScheduleTask)
      → s.active_thread_count < u64_mod
      → task_returns
          (record s { tasks = ts; active_thread_count = u64 (s.active_thread_count + 1) })
        ≡ with_tasks s ts
  unfolding task_returns
  returns s ts lt = ground arith

  back :
      (s : Scheduler) (t : ScheduleTask) (ts : List ScheduleTask)
      → ready_task t ≡ true
      → s.active_thread_count < u64_mod
      → task_returns (run_round tid state false (with_tasks s (t ∷ ts))).0 ≡ with_tasks s ts
  back s t ts h lt = ap (λ r. task_returns r.0) (round_task s t ts h) ∙ returns s ts lt

  run-task :
      (fuel : ℕ) (s : Scheduler) (t : ScheduleTask) (ts : List ScheduleTask)
      → ready_task t ≡ true
      → s.active_thread_count < u64_mod
      → run (suc fuel) tid state false (with_tasks s (t ∷ ts))
        ≡ after_task t (run fuel tid state false (with_tasks s ts))
  unfolding run
  run-task fuel s t ts h lt = rw (round_task s t ts h, run) (rw (back s t ts h lt) refl)

  -- The idle coroutine ends if the scheduler is stopping, and else looks again.
  run-idle :
      (fuel : ℕ) (s : Scheduler)
      → s.active_thread_count ≡ 0
      → s.idle_thread_count < u64_mod
      → run (suc fuel) tid state false (with_tasks s [])
        ≡ run fuel tid state s.stopping (with_tasks s [])
  unfolding run run_round scan empty_task idle_returns is_stopping
  run-idle fuel s none_active lt = ground arith

  run-end :
      (fuel : ℕ) (s : Scheduler)
      → run (suc fuel) tid state true (with_tasks s []) ≡ some (with_tasks s [], [])
  unfolding run run_round scan empty_task
  run-end fuel s = refl

  run_at_idle :
      (fuel : ℕ) (s : Scheduler)
      → s.stopping ≡ true
      → run fuel tid state true (with_tasks s [])
        ≡ (if leb 1 fuel then some (with_tasks s [], []) else none)
  unfolding run
  run_at_idle zero s h = refl
  run_at_idle (suc fuel) s h = run-end fuel s ∙ ground arith

  -- On the only worker, with tasks that its thread may take, that return and that schedule nothing,
  -- the loop ends exactly if stop() was called, in exactly two rounds more than there are tasks: it
  -- has run all of them in their order, and left the queue empty and the counters as they were.
  pub run_drains :
      (fuel : ℕ) (s : Scheduler) (ts : List ScheduleTask)
      → all ready_task ts ≡ true
      → s.active_thread_count ≡ 0
      → s.idle_thread_count < u64_mod
      → run fuel tid state false (with_tasks s ts)
        ≡ (if s.stopping && leb (length ts + 2) fuel then some (with_tasks s [], ts) else none)
  unfolding run
  run_drains zero s ts a n lt = ground arith
  run_drains (suc fuel) s [] a n lt = elim (Bool-cases s.stopping) [
    | inl h ↦ ground (arith, h, run-idle fuel s n lt, run_at_idle fuel s h)
    | inr h ↦ ground (arith, h, run-idle fuel s n lt, run_drains fuel s [] a n lt)
  ]
  run_drains (suc fuel) s (t ∷ ts) a n lt =
      let x : ready_task t ≡ true = ground arith in
      let e = run-task fuel s t ts x (omega (arith, n)) in e ∙ ground (arith, run_drains fuel s ts)

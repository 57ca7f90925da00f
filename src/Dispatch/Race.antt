-- ===== src/Dispatch/Race.antt =====
-- A coroutine that schedules itself and yields, as testcase/SchedulerTest.cc does.
use synergy_lib.Prelude.{subst, sym, ℕ, refl, arith, Bool, none, some, [], ◌<◌, ◌≡◌, update, ◌≢◌}
use synergy_lib.Prelude.Int.{ℤ}
use synergy_lib.Piber.{runing, yielded}
use synergy_lib.Scheduler.{
  ScheduleTask, a_piber, Phase, scan, run_round, schedule_no_lock, new_task, any_thread,
  is_elsewhere, runs_already, empty_task,
}
use synergy_lib.Dispatch.{
  Place, looking, taken, running, leaving, after_round, World, Move, searches, resumes, schedules,
  marks, Step, moves, Reach, here, next,
}

-- Nothing keeps the program from scheduling a coroutine.
abbrev pub Always : World → ℕ → Type 0
Always w q = Unit {0}

module _ (n : ℕ) (tid : ℕ → ℤ) where
  moves_from :
      (i : ℕ) {w w' : World} (from : Place) {to : Place}
      → i < n
      → w.place i ≡ from
      → Move n tid Always i w from w' to
      → Step n tid Always w (record w' { place = update w.place i to })
  moves_from i {w} {w'} from {to} lt at mv =
      moves i lt (subst (λ x. Move n tid Always i w x w' to) (sym at) mv)

module _ (n : ℕ) (tid : ℕ → ℤ) (w : World) (t : ScheduleTask) (i j p k : ℕ) (b c : Bool)
    (lt_i : i < n) (lt_j : j < n) (other : i ≢ j) (runs : w.place i ≡ running t p k b)
    (looks : w.place j ≡ looking c) (nothing : w.sched.tasks ≡ [])
    (alive : w.state p ≡ runing) where
  abbrev task : ScheduleTask
  task = record { piber = some p; cb = none; thread = any_thread }

  abbrev scheduled : World
  scheduled = record w { sched = (schedule_no_lock (a_piber (some p)) any_thread w.sched).0 }

  abbrev marked : World
  marked = record scheduled {
    state = update w.state p (yielded (w.state p));
    place = update (update w.place i (running t p k b)) i (leaving t p k b);
  }

  round_takes : (run_round (tid j) marked.state c marked.sched).1 ≡ Phase.working task c
  unfolding run_round scan is_elsewhere runs_already schedule_no_lock new_task empty_task
  round_takes = rw (nothing, alive) (ground arith)

  abbrev found : World
  found = record marked {
    sched = (run_round (tid j) marked.state c marked.sched).0;
    place = update marked.place j (after_round (run_round (tid j) marked.state c marked.sched).1);
  }

  abbrev raced : World
  raced = record found {
    state = update found.state p runing;
    place = update found.place j (running task p (w.point p) c);
  }

  found_at : found.place j ≡ taken task c
  found_at = ground (arith, round_takes)

  raced-Reach : Reach n tid Always w raced
  raced-Reach =
      next
        (next
          (next
            (next here (
              moves_from n tid i (running t p k b) lt_i runs
                (schedules t p k b (a_piber (some p)) any_thread (λ q h. tt))))
            (moves_from n tid i (running t p k b) lt_i (ground arith) (marks t p k b)))
          (moves_from n tid j (looking c) lt_j (ground (arith, looks)) (searches c)))
        (moves_from n tid j (taken task c) lt_j found_at (resumes task c p refl))

  -- While a worker that found the queue empty looks for a task, a coroutine that runs on another
  -- worker schedules itself and calls yield(). Before its swapcontext has saved where it is, the
  -- first worker can take it and resume it, from the point that was saved the last time: two workers
  -- run the same coroutine.
  pub self_schedule_races :
      (w' : World) × Reach n tid Always w w'
      × (w'.place i ≡ leaving t p k b)
      × (w'.place j ≡ running task p (w.point p) c)
  self_schedule_races = (raced, raced-Reach, ground (arith, other), ground arith)

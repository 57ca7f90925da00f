-- ===== src/Task/Passes.antt =====
-- Single rounds of the loop of Scheduler::run (synergy/Scheduler.cc) with its coroutines.
use synergy_lib.Prelude.{
  ℕ, suc, refl, arith, some, Bool, true, false, ◌≡◌, ◌<◌, List, [], ◌∷◌, ap, u64_mod, none,
}
use synergy_lib.Prelude.Int.{ℤ}
use synergy_lib.Scheduler.{
  ScheduleTask, has_work, run_round, idle_returns, is_stopping, scan, empty_task,
}
use synergy_lib.Scheduler.Queue.{takes_first, take, is_eligible}
use synergy_lib.Task.{Body, Pool, run_task, serve}

-- The loop goes on behind a round that runs the first task.
pub serve-first :
    (code : ℕ → Body) (fuel : ℕ) (tid : ℤ) (b : Bool) (w u : Pool) (t : ScheduleTask)
    (ts : List ScheduleTask)
    → w.sched.tasks ≡ t ∷ ts
    → has_work t ≡ true
    → is_eligible tid (λ q. (w.fibers q).state) t ≡ true
    → run_task code none t (record w { sched = take w.sched ts }) ≡ some (u, none)
    → serve code (suc fuel) tid b none w ≡ serve code fuel tid b none u
unfolding serve
serve-first code fuel tid b w u t ts e k h r =
    let first = takes_first tid (λ q. (w.fibers q).state) b w.sched t ts e k h in
    rw (first, serve) (rw (ap (λ x. x.0) first) (rw r refl))

-- With an empty queue a stopped scheduler's loop enters the idle coroutine, which ends, and leaves.
pub serve-empty :
    (code : ℕ → Body) (fuel : ℕ) (tid : ℤ) (w : Pool)
    → w.sched.tasks ≡ []
    → w.sched.stopping ≡ true
    → w.sched.active_thread_count ≡ 0
    → w.sched.idle_thread_count < u64_mod
    → serve code (suc (suc fuel)) tid false none w ≡ some w
unfolding serve run_round scan empty_task idle_returns is_stopping
serve-empty code fuel tid w e f a lt = ground (arith, e, f, a)

-- One round is not enough for that.
pub serve-idle :
    (code : ℕ → Body) (tid : ℤ) (w : Pool)
    → w.sched.tasks ≡ []
    → w.sched.stopping ≡ true
    → w.sched.active_thread_count ≡ 0
    → serve code 1 tid false none w ≡ none
unfolding serve run_round scan empty_task idle_returns
serve-idle code tid w e f a = ground (arith, e, f, a)

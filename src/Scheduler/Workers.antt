-- ===== src/Scheduler/Workers.antt =====
-- The worker threads of a Scheduler (synergy/Scheduler.cc), interleaved: each step is one section
-- under m_mutex, or one atomic update of a counter.
use synergy_lib.Prelude.{ℕ, Bool, ◌<◌, update}
use synergy_lib.Prelude.Int.{ℤ}
use synergy_lib.Piber.{State}
use synergy_lib.Scheduler.{
  ScheduleTask, FiberOrCb, Scheduler, Phase, looking, working, idling, run_round, task_returns,
  idle_returns, schedule_no_lock, stop,
}

-- The scheduler, and where the loop of each worker is.
pub record System : Type 0 where
  pub sched : Scheduler
  pub phase : ℕ → Phase

abbrev pub is_working : Phase → ℕ
is_working (working t b) = 1
is_working _ = 0

abbrev pub is_idling : Phase → ℕ
is_idling idling = 1
is_idling _ = 0

-- The moves of worker `i`, whose thread has the id `tid`; `state` is what getState() returns. After
-- a resume() the worker goes on with its loop.
pub data Move (tid : ℤ) (s : Scheduler) : Phase → Scheduler → Phase → Type 0 where
  rounds :
      (state : ℕ → State) (b : Bool)
      → Move tid s (looking b) (run_round tid state b s).0 (run_round tid state b s).1
  task_back : (t : ScheduleTask) (b : Bool) → Move tid s (working t b) (task_returns s) (looking b)
  idle_back : Move tid s idling (idle_returns s).0 (looking (idle_returns s).1)
  -- The task that it runs schedules another one.
  task_schedules :
      (t : ScheduleTask) (b : Bool) (fc : FiberOrCb) (thread : ℤ)
      → Move tid s (working t b) (schedule_no_lock fc thread s).0 (working t b)

module _ (n : ℕ) (tid : ℕ → ℤ) where
  -- A step of a worker, or a call of stop() by any thread.
  pub data WorkerStep (s : System) : System → Type 0 where
    moves :
        (i : ℕ) {s' : Scheduler} {p' : Phase}
        → i < n
        → Move (tid i) s.sched (s.phase i) s' p'
        → WorkerStep s (record { sched = s'; phase = update s.phase i p' })
    stops : WorkerStep s (record s { sched = (stop s.sched).0 })

  -- Or a call of schedule() from outside the tasks.
  pub data Step (s : System) : System → Type 0 where
    inside : {s' : System} → WorkerStep s s' → Step s s'
    outside :
        (fc : FiberOrCb) (thread : ℤ)
        → Step s (record s { sched = (schedule_no_lock fc thread s.sched).0 })

  pub data Reach (s : System) : System → Type 0 where
    here : Reach s s
    next : {t u : System} → Reach s t → Step t u → Reach s u

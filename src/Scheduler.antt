-- ===== src/Scheduler.antt =====
-- synergy/Scheduler.h and synergy/Scheduler.cc: the task queue, the counters, and the loop of a
-- worker thread, cut where control leaves it. What a function does under m_mutex is one step.
-- A coroutine (Piber::ptr) and a callback are numbers, and `none` where they are null or empty.
pub mod Queue
pub mod Workers
pub mod Counters
pub mod Shutdown
pub mod Conservation
pub mod Setup
pub mod Foreign
pub mod Drain
pub mod Locals
use synergy_lib.Prelude.{
  ℕ, zero, suc, refl, Option, none, Bool, List, u64, some, is_some, [], if◌then◌else◌, ◌&&◌, ltb,
  not, true, false, ◌+◌, ◌∷◌, ◌||◌, u64_mod, ◌++◌, is_empty, ◌-◌, ◌==◌,
}
use synergy_lib.Prelude.Int.{ℤ, pos, negsuc, ◌==ℤ◌}
use synergy_lib.Piber.{State, ready, runing, term}

-- struct ScheduleTask
pub record ScheduleTask : Type 0 where
  pub piber : Option ℕ
  pub cb : Option ℕ
  pub thread : ℤ

-- -1
abbrev pub any_thread : ℤ
any_thread = negsuc 0

-- ScheduleTask::ScheduleTask() and ScheduleTask::reset()
unfoldable pub empty_task : ScheduleTask
empty_task = record { piber = none; cb = none; thread = any_thread }

-- What schedule() takes: a Piber::ptr, a pointer to one, or a function.
pub data FiberOrCb : Type 0 where
  a_piber : Option ℕ → FiberOrCb
  a_piber_ptr : Option ℕ → FiberOrCb
  a_cb : Option ℕ → FiberOrCb

-- The three constructors of ScheduleTask from what schedule() takes.
unfoldable pub new_task : FiberOrCb → ℤ → ScheduleTask
new_task (a_piber p) thr = record { piber = p; cb = none; thread = thr }
new_task (a_piber_ptr p) thr = record { piber = p; cb = none; thread = thr }
new_task (a_cb f) thr = record { piber = none; cb = f; thread = thr }

-- What the constructor that takes a pointer leaves behind it: it swaps the coroutine out.
unfoldable pub left_behind : FiberOrCb → FiberOrCb
left_behind (a_piber_ptr p) = a_piber_ptr none
left_behind fc = fc

-- task.piber || task.cb
abbrev pub has_work : ScheduleTask → Bool
has_work t = is_some t.piber || is_some t.cb

pub record Scheduler : Type 0 where
  pub tasks : List ScheduleTask
  pub threads : List ℤ
  pub thread_count : ℕ
  pub thread_ids : List ℤ
  pub active_thread_count : ℕ
  pub idle_thread_count : ℕ
  pub use_caller : Bool
  pub root_piber : Option ℕ
  pub root_thread : ℤ
  pub stopping : Bool

-- Scheduler::Scheduler(threads, use_caller, name), in the thread `tid`; a use of the calling thread
-- puts the loop of that thread into the coroutine `root`.
unfoldable pub new_scheduler : ℕ → Bool → ℤ → ℕ → Scheduler
new_scheduler threads use_caller tid root = record {
  tasks = [];
  threads = [];
  thread_count = if use_caller then u64 (threads + u64_mod - 1) else threads;
  thread_ids = if use_caller then tid ∷ [] else [];
  active_thread_count = 0;
  idle_thread_count = 0;
  use_caller = use_caller;
  root_piber = if use_caller then some root else none;
  root_thread = if use_caller then tid else negsuc 0;
  stopping = false;
}

-- The loop of Scheduler::start: the ids of `n` new threads, from the one with the index `i` on.
unfoldable pub new_threads : (ℕ → ℤ) → ℕ → ℕ → List ℤ
new_threads new_id i zero = []
new_threads new_id i (suc n) = new_id i ∷ new_threads new_id (suc i) n

-- Scheduler::start, where the thread that it creates with the index `i` has the id `new_id i`.
unfoldable pub start : (ℕ → ℤ) → Scheduler → Scheduler
start new_id s = if s.stopping then s else record s {
  threads = new_threads new_id 0 s.thread_count;
  thread_ids = s.thread_ids ++ new_threads new_id 0 s.thread_count;
}

-- Scheduler::scheduleNoLock: the flag tells whether to call tickle().
unfoldable pub schedule_no_lock : FiberOrCb → ℤ → Scheduler → Scheduler × Bool
unfolding new_task
schedule_no_lock fc thread s =
    let task = new_task fc thread in
    (if has_work task then record s { tasks = s.tasks ++ task ∷ [] } else s, is_empty s.tasks)

-- Scheduler::stopping()
unfoldable pub is_stopping : Scheduler → Bool
is_stopping s = s.stopping && is_empty s.tasks && s.active_thread_count == 0

-- Scheduler::hasIdleThreads()
unfoldable pub has_idle_threads : Scheduler → Bool
has_idle_threads s = ltb 0 s.idle_thread_count

-- it->thread != -1 && it->thread != getThreadId()
unfoldable pub is_elsewhere : ℤ → ScheduleTask → Bool
is_elsewhere tid t = not (t.thread ==ℤ any_thread) && not (t.thread ==ℤ tid)

abbrev pub is_runing : State → Bool
is_runing runing = true
is_runing _ = false

-- it->piber && it->piber->getState() == Piber::RUNING
unfoldable pub runs_already : (ℕ → State) → ScheduleTask → Bool
runs_already state t = elim t.piber [ none ↦ false | some p ↦ is_runing (state p) ]

-- What the search of Scheduler::run through the queue finds.
pub record Scan : Type 0 where
  pub chosen : Option ScheduleTask
  pub rest : List ScheduleTask
  pub tickle_me : Bool

-- The search of Scheduler::run through m_tasks, in the thread `tid`, with the last `tickle_me |=`.
unfoldable pub scan : ℤ → (ℕ → State) → List ScheduleTask → Scan
unfolding is_elsewhere runs_already
scan tid state [] = record { chosen = none; rest = []; tickle_me = false }
scan tid state (t ∷ ts) =
    let later = scan tid state ts in
    if is_elsewhere tid t
    then record later { rest = t ∷ later.rest; tickle_me = true }
    else if runs_already state t
    then record later { rest = t ∷ later.rest }
    else record { chosen = some t; rest = ts; tickle_me = not (is_empty ts) }

-- Where the loop of a worker is: about to search the queue, in a resume() of a task, in the resume()
-- of its idle coroutine, or out of the loop. The flag tells whether the idle coroutine is TERM.
pub data Phase : Type 0 where
  looking : Bool → Phase
  working : ScheduleTask → Bool → Phase
  idling : Phase
  ended : Phase

-- One round of Scheduler::run up to the resume(): the state, where the loop is, and whether it
-- called tickle().
unfoldable pub run_round : ℤ → (ℕ → State) → Bool → Scheduler → Scheduler × Phase × Bool
unfolding scan
run_round tid state idle_term s =
    let found = scan tid state s.tasks in
    let s' : Scheduler = elim found.chosen [
      | none ↦ record s { tasks = found.rest }
      | some _ ↦ record s {
        tasks = found.rest;
        active_thread_count = u64 (s.active_thread_count + 1);
      }
    ] in
    let task : ScheduleTask = elim found.chosen [ none ↦ empty_task | some t ↦ t ] in
    if has_work task
    then (s', working task idle_term, found.tickle_me)
    else if idle_term
    then (s', ended, found.tickle_me)
    else (record s' { idle_thread_count = u64 (s'.idle_thread_count + 1) }, idling, found.tickle_me)

-- --m_activeThreadCount after the resume() of a task.
unfoldable pub task_returns : Scheduler → Scheduler
task_returns s = record s { active_thread_count = u64 (s.active_thread_count + u64_mod - 1) }

-- Scheduler::idle from one yield to the next, and --m_idleThreadCount behind it: the flag tells
-- whether the idle coroutine has come to its end.
unfoldable pub idle_returns : Scheduler → Scheduler × Bool
unfolding is_stopping
idle_returns s =
    (record s { idle_thread_count = u64 (s.idle_thread_count + u64_mod - 1) }, is_stopping s)

-- Scheduler::stop before it resumes the root coroutine; the flag tells whether it goes on.
unfoldable pub stop : Scheduler → Scheduler × Bool
unfolding is_stopping
stop s = if is_stopping s then (s, false) else (record s { stopping = true }, true)

-- The rest of Scheduler::stop: m_threads is emptied, and these threads are joined.
unfoldable pub join_threads : Scheduler → Scheduler × List ℤ
join_threads s = (record s { threads = [] }, s.threads)

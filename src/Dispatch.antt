-- ===== src/Dispatch.antt =====
-- Scheduler::run (synergy/Scheduler.cc) with Piber::resume, Piber::yield and Piber::MainFunc
-- (synergy/Piber.cc), on several worker threads. What happens under m_mutex is one step; resume()
-- sets m_state after the queue's lock is released, and yield() sets it before swapcontext saves the
-- context, so these are steps of their own. The context of a coroutine is the point of its code at
-- which it continues.
pub mod Exclusive
pub mod Race
use synergy_lib.Prelude.{
  ℕ, refl, Bool, Option, none, some, List, [], ◌∷◌, ◌+◌, ◌<◌, ◌≡◌, ◌==◌, if◌then◌else◌, update,
}
use synergy_lib.Prelude.Int.{ℤ}
use synergy_lib.Prelude.Total.{total}
use synergy_lib.Piber.{State, runing, term, yielded}
use synergy_lib.Scheduler.{
  ScheduleTask, FiberOrCb, a_piber, a_piber_ptr, a_cb, Scheduler, Phase, run_round, task_returns,
  idle_returns, schedule_no_lock, stop,
}

-- Where a worker is: in its loop, between taking a task and resuming it, in a coroutine at a point
-- of its code, in that coroutine's yield() between the write of m_state and swapcontext, in its idle
-- coroutine, or out of the loop.
pub data Place : Type 0 where
  looking : Bool → Place
  taken : ScheduleTask → Bool → Place
  running : ScheduleTask → ℕ → ℕ → Bool → Place
  leaving : ScheduleTask → ℕ → ℕ → Bool → Place
  idling : Place
  ended : Place

-- Where the loop is after a round up to the resume().
abbrev pub after_round : Phase → Place
after_round (Phase.looking b) = looking b
after_round (Phase.working t b) = taken t b
after_round Phase.idling = idling
after_round Phase.ended = ended

-- The scheduler, m_state of each coroutine, the point in its m_ctx, and where each worker is.
pub record World : Type 0 where
  pub sched : Scheduler
  pub state : ℕ → State
  pub point : ℕ → ℕ
  pub place : ℕ → Place

abbrev pub names : ℕ → Option ℕ → ℕ
names p none = 0
names p (some q) = if q == p then 1 else 0

-- How often the coroutine is in the queue.
abbrev pub queued : ℕ → List ScheduleTask → ℕ
queued p [] = 0
queued p (t ∷ ts) = names p t.piber + queued p ts

-- Whether the worker has the coroutine: it took it, runs it, or is leaving it.
abbrev pub has : ℕ → Place → ℕ
has p (looking b) = 0
has p (taken t b) = names p t.piber
has p (running t q k b) = names p (some q)
has p (leaving t q k b) = names p (some q)
has p idling = 0
has p ended = 0

-- How often the coroutine is in the queue or with one of `n` workers.
abbrev pub uses : ℕ → ℕ → World → ℕ
uses n p w = queued p w.sched.tasks + total (has p) n w.place

abbrev pub piber_of : FiberOrCb → Option ℕ
piber_of (a_piber p) = p
piber_of (a_piber_ptr p) = p
piber_of (a_cb f) = none

-- `May w q` says when the program may schedule the coroutine `q`.
module _ (n : ℕ) (tid : ℕ → ℤ) (May : World → ℕ → Type 0) where
  -- The moves of worker `i` from a place: the world but for its own place, and its place.
  pub data Move (i : ℕ) (w : World) : Place → World → Place → Type 0 where
    searches :
        (b : Bool)
        → Move i w
            (looking b)
            (record w { sched = (run_round (tid i) w.state b w.sched).0 })
            (after_round (run_round (tid i) w.state b w.sched).1)
    resumes :
        (t : ScheduleTask) (b : Bool) (p : ℕ)
        → t.piber ≡ some p
        → Move i w
            (taken t b)
            (record w { state = update w.state p runing })
            (running t p (w.point p) b)
    -- A callback runs in a coroutine of its own, a new object.
    wraps :
        (t : ScheduleTask) (b : Bool) (p f : ℕ)
        → t.piber ≡ none
        → t.cb ≡ some f
        → uses n p w ≡ 0
        → Move i w
            (taken t b)
            (record w { state = update w.state p runing; point = update w.point p 0 })
            (running t p 0 b)
    works :
        (t : ScheduleTask) (p k k' : ℕ) (b : Bool) → Move i w (running t p k b) w (running t p k' b)
    schedules :
        (t : ScheduleTask) (p k : ℕ) (b : Bool) (fc : FiberOrCb) (thread : ℤ)
        → ((q : ℕ) → piber_of fc ≡ some q → May w q)
        → Move i w
            (running t p k b)
            (record w { sched = (schedule_no_lock fc thread w.sched).0 })
            (running t p k b)
    -- yield() up to swapcontext
    marks :
        (t : ScheduleTask) (p k : ℕ) (b : Bool)
        → Move i w
            (running t p k b)
            (record w { state = update w.state p (yielded (w.state p)) })
            (leaving t p k b)
    -- The end of MainFunc, up to swapcontext in its yield()
    finishes :
        (t : ScheduleTask) (p k : ℕ) (b : Bool)
        → Move i w (running t p k b) (record w { state = update w.state p term }) (leaving t p k b)
    -- swapcontext, and --m_activeThreadCount in the loop of the worker
    switches :
        (t : ScheduleTask) (p k : ℕ) (b : Bool)
        → Move i w
            (leaving t p k b)
            (record w { sched = task_returns w.sched; point = update w.point p k })
            (looking b)
    idle_back :
        Move i w idling
          (record w { sched = (idle_returns w.sched).0 })
          (looking (idle_returns w.sched).1)

  -- A move of a worker, or a call of schedule() or stop() from any thread.
  pub data Step (w : World) : World → Type 0 where
    moves :
        (i : ℕ) {w' : World} {to : Place}
        → i < n
        → Move i w (w.place i) w' to
        → Step w (record w' { place = update w.place i to })
    outside :
        (fc : FiberOrCb) (thread : ℤ)
        → ((q : ℕ) → piber_of fc ≡ some q → May w q)
        → Step w (record w { sched = (schedule_no_lock fc thread w.sched).0 })
    stops : Step w (record w { sched = (stop w.sched).0 })

  pub data Reach (w : World) : World → Type 0 where
    here : Reach w w
    next : {u v : World} → Reach w u → Step u v → Reach w v

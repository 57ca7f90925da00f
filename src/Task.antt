-- ===== src/Task.antt =====
-- Scheduler::run (synergy/Scheduler.cc) on one thread, together with the coroutines that it resumes
-- (synergy/Piber.cc), what their callbacks do, and the counts of the pointers (Piber::ptr) to them.
-- A callback is a number, and `code` says what it does. The addresses of new coroutines are not used
-- again.
pub mod Programs
pub mod Alone
pub mod Handles
pub mod Frames
pub mod Outcomes
pub mod Costs
pub mod Rounds
pub mod Taking
pub mod Passes
pub mod Serving
pub mod Endings
pub mod Switches
pub mod Contexts
pub mod Standing
pub mod Refines
pub mod Loop
pub mod Owned
pub mod OnObjects
pub mod Together
pub mod Served
use synergy_lib.Prelude.{ℕ, zero, suc, Option, none, some, Bool, update, ◌+◌, ◌-◌}
use synergy_lib.Prelude.Int.{ℤ}
use synergy_lib.Piber.{State, ready, runing, term}
use synergy_lib.Scheduler.{
  Scheduler, ScheduleTask, looking, working, idling, ended, a_piber, a_cb, any_thread, empty_task,
  schedule_no_lock, run_round, task_returns, idle_returns,
}

-- What is left of a callback: it returns, calls Piber::GetThis()->yield(), schedules its own coroutine
-- by schedule(Piber::GetThis()), or schedules the callback `f` for a thread.
pub data Body : Type 0 where
  returns : Body
  yields : Body → Body
  schedules_self : Body → Body
  schedules : (f : ℕ) → (thread : ℤ) → Body → Body

-- What a coroutine goes on with when it is resumed: MainFunc from its start, a callback behind its
-- yield(), or the end of MainFunc behind the last yield().
pub data Stack : Type 0 where
  at_start : Body → Stack
  in_callback : Body → Stack
  at_end : Stack

-- A coroutine: m_state, what its context continues with, and the use_count() of the pointers to it.
-- It is destroyed when that count is 0.
pub record Fiber : Type 0 where
  pub state : State
  pub stack : Stack
  pub use_count : ℕ

pub record Pool : Type 0 where
  pub sched : Scheduler
  pub fibers : ℕ → Fiber
  pub next_address : ℕ

abbrev pub set_fiber : ℕ → Fiber → Pool → Pool
set_fiber p x w = record w { fibers = update w.fibers p x }

-- One pointer to the coroutine less.
unfoldable pub release : ℕ → Pool → Pool
release p w = let x = w.fibers p in set_fiber p (record x { use_count = x.use_count - 1 }) w

-- A pointer to the coroutine more, which goes to the end of the queue.
unfoldable pub schedule_fiber : ℕ → Pool → Pool
unfolding schedule_no_lock
schedule_fiber p w =
    let x = w.fibers p in
    record w {
      sched = (schedule_no_lock (a_piber (some p)) any_thread w.sched).0;
      fibers = update w.fibers p (record x { use_count = x.use_count + 1 });
    }

unfoldable pub schedule_callback : ℕ → ℤ → Pool → Pool
unfolding schedule_no_lock
schedule_callback f thread w = record w {
  sched = (schedule_no_lock (a_cb (some f)) thread w.sched).0;
}

-- The coroutine `p` runs the rest of its callback until it switches back: at a yield(), while the
-- pointer that GetThis() returned lives on; or in MainFunc behind the callback, which has let go of
-- its own pointer.
unfoldable pub run_body : ℕ → Body → Pool → Pool
unfolding schedule_fiber schedule_callback
run_body p returns w =
    let x = w.fibers p in
    set_fiber p (record { state = term; stack = at_end; use_count = x.use_count - 1 }) w
run_body p (yields b) w =
    let x = w.fibers p in
    set_fiber p (record { state = ready; stack = in_callback b; use_count = x.use_count + 1 }) w
run_body p (schedules_self b) w = run_body p b (schedule_fiber p w)
run_body p (schedules f thread b) w = run_body p b (schedule_callback f thread w)

abbrev pub entered : Fiber → Fiber
entered x = record x { state = runing; use_count = x.use_count + 1 }

abbrev pub continued : Fiber → Fiber
continued x = record x { state = runing; use_count = x.use_count - 1 }

-- Piber::resume until the coroutine switches back: MainFunc takes a pointer to the coroutine and calls
-- the callback, and a callback behind its yield() drops the pointer of GetThis(). `none` is the
-- coroutine that has ended, where MainFunc returns and ends the thread.
unfoldable pub resume_fiber : ℕ → Pool → Option Pool
unfolding run_body
resume_fiber p w =
    let x = w.fibers p in
    elim x.stack [
      | at_start b ↦ some (run_body p b (set_fiber p (entered x) w))
      | in_callback b ↦ some (run_body p b (set_fiber p (continued x) w))
      | at_end ↦ none
    ]

module _ (code : ℕ → Body) where
  -- Piber::reset with a callback.
  unfoldable pub reset_fiber : ℕ → ℕ → Pool → Pool
  reset_fiber p f w =
      set_fiber p (record (w.fibers p) { state = ready; stack = at_start (code f) }) w

  -- new Piber(f), with the pointer to it.
  unfoldable pub new_fiber : ℕ → Pool → Pool
  new_fiber f w = record w {
    fibers =
        update w.fibers w.next_address
          (record { state = ready; stack = at_start (code f); use_count = 1 });
    next_address = w.next_address + 1;
  }

  -- --m_activeThreadCount, and the pointer of the loop goes.
  abbrev pub comes_back : ℕ → Option Pool → Option Pool
  comes_back p none = none
  comes_back p (some w) = some (release p (record w { sched = task_returns w.sched }))

  -- The coroutine for a callback: cb_piber, reset, or a new one.
  unfoldable pub coroutine_for : Option ℕ → ℕ → Pool → ℕ × Pool
  unfolding reset_fiber new_fiber
  coroutine_for (some p) f w = (p, reset_fiber p f w)
  coroutine_for none f w = (w.next_address, new_fiber f w)

  abbrev pub with_cb_piber : Option ℕ → Option Pool → Option (Pool × Option ℕ)
  with_cb_piber c none = none
  with_cb_piber c (some w) = some (w, c)

  -- What Scheduler::run does with the task that it has found, and its cb_piber afterwards, which it
  -- resets when it has run a callback.
  unfoldable pub run_task : Option ℕ → ScheduleTask → Pool → Option (Pool × Option ℕ)
  unfolding resume_fiber coroutine_for release task_returns
  run_task cb_piber t w = elim t.piber [
    | some p ↦ with_cb_piber cb_piber (comes_back p (resume_fiber p w))
    | none ↦ elim t.cb [
      | some f ↦
          let (p, v) = coroutine_for cb_piber f w in
          with_cb_piber none (comes_back p (resume_fiber p v))
      | none ↦ some (w, cb_piber)
    ]
  ]

  -- The loop of Scheduler::run in the thread `tid`, with at most `fuel` rounds: `none` if it has not
  -- ended by then, or if the thread has. `idle_term` tells whether the idle coroutine has ended.
  unfoldable pub serve : ℕ → ℤ → Bool → Option ℕ → Pool → Option Pool
  serve zero tid idle_term cb_piber w = none
  serve (suc fuel) tid idle_term cb_piber w =
      let r = run_round tid (λ q. (w.fibers q).state) idle_term w.sched in
      let w' : Pool = record w { sched = r.0 } in
      elim r.1 [
        | looking b ↦ none
        | working t b ↦ elim (run_task cb_piber t w') [
          | none ↦ none
          | some (u, c) ↦ serve fuel tid b c u
        ]
        | idling ↦
            serve fuel tid (idle_returns r.0).1 cb_piber (record w { sched = (idle_returns r.0).0 })
        | ended ↦ some w'
      ]

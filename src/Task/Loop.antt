-- ===== src/Task/Loop.antt =====
-- The loop of Scheduler::run (synergy/Scheduler.cc) on one thread, on the objects of Piber.
use synergy_lib.Prelude.{ℕ, zero, suc, Option, none, some, Bool}
use synergy_lib.Prelude.Int.{ℤ}
use synergy_lib.Piber
use synergy_lib.Scheduler.{
  ScheduleTask, looking, working, idling, ended, run_round, task_returns, idle_returns,
}
use synergy_lib.Task.{Body, Stack}
use synergy_lib.Task.Switches.{Objects, made, acts, resumes}

-- --m_activeThreadCount, and the coroutine that the loop keeps for the next callback.
abbrev pub returned : Option ℕ → Option Objects → Option (Objects × Option ℕ)
returned c none = none
returned c (some o) = some (record o { sched = task_returns o.sched }, c)

-- The object for a callback: cb_piber, reset, or a new one.
unfoldable pub object_for : Option ℕ → ℕ → Objects → ℕ × Objects
object_for (some p) f o = (p, record o { machine = Piber.reset p f o.machine })
object_for none f o = (o.next_address, made f o)

-- `here` is the place behind the call of resume().
module _ (code : ℕ → Body) (place : Stack → ℕ) (at : ℕ → Stack) (here : ℕ) where
  -- What Scheduler::run does with the task that it has found, and its cb_piber afterwards.
  unfoldable pub run_on_objects : Option ℕ → ScheduleTask → Objects → Option (Objects × Option ℕ)
  unfolding object_for acts task_returns
  run_on_objects cb_piber t o = elim t.piber [
    | some p ↦ returned cb_piber (acts code place at (resumes p here) o)
    | none ↦ elim t.cb [
      | some f ↦
          let (p, v) = object_for cb_piber f o in
          returned none (acts code place at (resumes p here) v)
      | none ↦ some (o, cb_piber)
    ]
  ]

  -- The loop of Scheduler::run in the thread `tid`, with at most `fuel` rounds: `none` if it has not
  -- ended by then, or if the thread has. `idle_term` tells whether the idle coroutine has ended.
  unfoldable pub serve_objects : ℕ → ℤ → Bool → Option ℕ → Objects → Option Objects
  serve_objects zero tid idle_term cb_piber o = none
  serve_objects (suc fuel) tid idle_term cb_piber o =
      let r = run_round tid (λ q. (o.machine.heap q).state) idle_term o.sched in
      let o' : Objects = record o { sched = r.0 } in
      elim r.1 [
        | looking b ↦ none
        | working t b ↦ elim (run_on_objects cb_piber t o') [
          | none ↦ none
          | some (v, c) ↦ serve_objects fuel tid b c v
        ]
        | idling ↦
            serve_objects fuel tid (idle_returns r.0).1 cb_piber
              (record o { sched = (idle_returns r.0).0 })
        | ended ↦ some o'
      ]

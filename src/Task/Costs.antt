-- ===== src/Task/Costs.antt =====
-- How many rounds of the loop of Scheduler::run (synergy/Scheduler.cc) the tasks of the queue take.
use synergy_lib.Prelude.{
  ℕ, refl, arith, none, some, Bool, true, false, ◌≡◌, ◌+◌, List, [], ◌∷◌, ◌++◌, ap, fun_ext, update,
  ◌∙◌, sym,
}
use synergy_lib.Prelude.Int.{ℤ}
use synergy_lib.Scheduler.{ScheduleTask, any_thread}
use synergy_lib.Task.{
  Body, returns, yields, schedules_self, schedules, Stack, at_start, in_callback, at_end, Fiber,
  Pool, run_body, schedule_fiber, schedule_callback,
}
use synergy_lib.Task.Handles.{
  is_tidy, queued, callback_task, as_number, schedule_fiber-queued, schedule_callback-queued,
}

module _ (cost : ℕ → ℕ) where
  -- The rounds that a callback brings about after the one that it runs in. The flag tells whether its
  -- coroutine is in the queue.
  abbrev pub work : Bool → Body → ℕ
  work in_queue returns = 0
  work true (yields b) = 1 + work false b
  work false (yields b) = 0
  work in_queue (schedules_self b) = work true b
  work in_queue (schedules f thread b) = cost f + work in_queue b

  abbrev pub stack_cost : Stack → ℕ
  stack_cost (at_start b) = 1 + work false b
  stack_cost (in_callback b) = 1 + work false b
  stack_cost at_end = 0

  abbrev pub fiber_costs : Pool → ℕ → ℕ
  fiber_costs w p = stack_cost (w.fibers p).stack

  abbrev pub task_cost : (ℕ → ℕ) → ScheduleTask → ℕ
  task_cost g t = elim t.piber [ some p ↦ g p | none ↦ elim t.cb [ some f ↦ cost f | none ↦ 0 ] ]

  -- The rounds for the queue, where the coroutine `p` takes `g p` of them.
  abbrev pub load_with : (ℕ → ℕ) → List ScheduleTask → ℕ
  load_with g [] = 0
  load_with g (t ∷ ts) = task_cost g t + load_with g ts

  abbrev pub load : Pool → ℕ
  load w = load_with (fiber_costs w) w.sched.tasks

  -- The same without the coroutine `p`.
  abbrev pub load_without : ℕ → Pool → ℕ
  load_without p w = load_with (update (fiber_costs w) p 0) w.sched.tasks

  load_with-append :
      (g : ℕ → ℕ) (ts us : List ScheduleTask)
      → load_with g (ts ++ us) ≡ load_with g ts + load_with g us
  load_with-append g [] us = omega arith
  load_with-append g (t ∷ ts) us = omega (arith, load_with-append g ts us)

  pub load_with-ext :
      (g k : ℕ → ℕ) (ts : List ScheduleTask)
      → ((q : ℕ) → g q ≡ k q)
      → load_with g ts ≡ load_with k ts
  load_with-ext g k ts e = ap (λ x. load_with x ts) {x = g} {y = k} (fun_ext e)

  pub load_with-absent :
      (g : ℕ → ℕ) (p c : ℕ) (ts : List ScheduleTask)
      → queued p ts ≡ 0
      → load_with (update g p c) ts ≡ load_with g ts
  load_with-absent g p c [] e = refl
  load_with-absent g p c (t ∷ ts) e = ground (arith, load_with-absent g p c ts, e)

  pub load_with-once :
      (g : ℕ → ℕ) (p c : ℕ) (ts : List ScheduleTask)
      → queued p ts ≡ 1
      → load_with (update g p c) ts ≡ c + load_with (update g p 0) ts
  load_with-once g p c [] e = absurd (omega (arith, e))
  load_with-once g p c (t ∷ ts) e =
      ground
        (arith, load_with-once g p c ts, load_with-absent g p c ts, load_with-absent g p 0 ts, e)

  -- The costs after a write to one coroutine.
  abbrev written : ℕ → Fiber → Pool → Pool
  written p x w = record w { fibers = update w.fibers p x }

  load-written_absent :
      (p : ℕ) (x : Fiber) (w : Pool)
      → queued p w.sched.tasks ≡ 0
      → load (written p x w) ≡ load_without p w
  load-written_absent p x w e =
      load_with-ext (fiber_costs (written p x w)) (update (fiber_costs w) p (stack_cost x.stack))
        w.sched.tasks (λ q. ground arith)
      ∙ (load_with-absent (fiber_costs w) p (stack_cost x.stack) w.sched.tasks e
          ∙ sym (load_with-absent (fiber_costs w) p 0 w.sched.tasks e))

  load-written_once :
      (p : ℕ) (x : Fiber) (w : Pool)
      → queued p w.sched.tasks ≡ 1
      → load (written p x w) ≡ stack_cost x.stack + load_without p w
  load-written_once p x w e =
      load_with-ext (fiber_costs (written p x w)) (update (fiber_costs w) p (stack_cost x.stack))
        w.sched.tasks (λ q. ground arith)
      ∙ load_with-once (fiber_costs w) p (stack_cost x.stack) w.sched.tasks e

  -- A write to the coroutine itself does not count.
  pub load_without-written :
      (p : ℕ) (x : Fiber) (w : Pool) → load_without p (written p x w) ≡ load_without p w
  load_without-written p x w =
      load_with-ext (update (fiber_costs (written p x w)) p 0) (update (fiber_costs w) p 0)
        w.sched.tasks (λ q. ground arith)

  schedule_fiber-load : (p : ℕ) (w : Pool) → load_without p (schedule_fiber p w) ≡ load_without p w
  unfolding schedule_fiber
  schedule_fiber-load p w =
      load_with-append (update (fiber_costs (schedule_fiber p w)) p 0) w.sched.tasks
        ((record { piber = some p; cb = none; thread = any_thread }) ∷ [])
      ∙ ground (
        arith,
        load_with-ext (update (fiber_costs (schedule_fiber p w)) p 0) (update (fiber_costs w) p 0)
            w.sched.tasks (λ q. ground arith),
      )

  schedule_callback-load :
      (p f : ℕ) (thread : ℤ) (w : Pool)
      → load_without p (schedule_callback f thread w) ≡ load_without p w + cost f
  unfolding schedule_callback
  schedule_callback-load p f thread w =
      load_with-append (update (fiber_costs w) p 0) w.sched.tasks (callback_task f thread ∷ [])
      ∙ omega arith

  -- A callback that runs to its next switch leaves in the queue the rounds that it brings about.
  pub run_body-load :
      (tid : ℤ) (p : ℕ) (b : Body) (in_queue : Bool) (w : Pool)
      → queued p w.sched.tasks ≡ as_number in_queue
      → is_tidy tid in_queue b ≡ true
      → load (run_body p b w) ≡ work in_queue b + load_without p w
  unfolding run_body
  run_body-load tid p returns true w q e = absurd cc
  run_body-load tid p returns false w q e = load-written_absent p _ w q ∙ omega arith
  run_body-load tid p (yields b) true w q e = load-written_once p _ w q
  run_body-load tid p (yields b) false w q e = load-written_absent p _ w q ∙ omega arith
  run_body-load tid p (schedules_self b) true w q e = absurd cc
  run_body-load tid p (schedules_self b) false w q e =
      run_body-load tid p b true (schedule_fiber p w)
        (ground (arith, q, schedule_fiber-queued p p w)) e
      ∙ ap (λ n. work true b + n) (schedule_fiber-load p w)
  run_body-load tid p (schedules f thread b) in_queue w q e =
      run_body-load tid p b in_queue (schedule_callback f thread w)
        (ground (arith, q, schedule_callback-queued p f thread w)) (ground arith)
      ∙ omega (arith, schedule_callback-load p f thread w)

-- ===== src/Task/Contexts.antt =====
-- A coroutine of Piber (synergy/Piber.cc) from a resume() to the switch back to the loop.
use synergy_lib.Prelude.{refl, ℕ, ◌≡◌, ◌≢◌, arith, true, some, update, none, ◌∙◌, ap}
use synergy_lib.Piber.{
  Machine, saved, resume, yield, main_func_end, swapcontext, yielded, State, ready, runing, term,
}
use synergy_lib.Task.{
  Body, returns, yields, schedules_self, schedules, Stack, in_callback, at_end, Pool, run_body,
  schedule_fiber, schedule_callback, Scheduler, schedule_no_lock, a_piber, any_thread, a_cb,
}
use synergy_lib.Task.Switches.{continues_with, switches, turn, Objects, with_machine}

-- The state and the stack with which a callback switches back.
abbrev pub last_switch : Body → State × Stack
last_switch returns = (term, at_end)
last_switch (yields b) = (ready, in_callback b)
last_switch (schedules_self b) = last_switch b
last_switch (schedules f thread b) = last_switch b

pub run_body-last_switch :
    (p : ℕ) (b : Body) (w : Pool)
    → (((run_body p b w).fibers p).state ≡ (last_switch b).0)
      × (((run_body p b w).fibers p).stack ≡ (last_switch b).1)
unfolding run_body
run_body-last_switch p returns w = ground arith
run_body-last_switch p (yields b) w = ground arith
run_body-last_switch p (schedules_self b) w = run_body-last_switch p b (schedule_fiber p w)
run_body-last_switch p (schedules f thread b) w =
    run_body-last_switch p b (schedule_callback f thread w)

-- The scheduler behind the calls of schedule() up to that switch.
abbrev pub calls : ℕ → Body → Scheduler → Scheduler
calls p returns s = s
calls p (yields b) s = s
calls p (schedules_self b) s = calls p b (schedule_no_lock (a_piber (some p)) any_thread s).0
calls p (schedules f thread b) s = calls p b (schedule_no_lock (a_cb (some f)) thread s).0

pub run_body-calls : (p : ℕ) (b : Body) (w : Pool) → (run_body p b w).sched ≡ calls p b w.sched
unfolding run_body schedule_fiber schedule_callback
run_body-calls p returns w = refl
run_body-calls p (yields b) w = refl
run_body-calls p (schedules_self b) w = run_body-calls p b (schedule_fiber p w)
run_body-calls p (schedules f thread b) w = run_body-calls p b (schedule_callback f thread w)

abbrev pub switched : ℕ → Body → Objects → Machine → Objects
switched p b o m = record o { sched = calls p b o.sched; machine = m }

-- `loop` is the coroutine of the loop, which resumes the others.
module _ (code : ℕ → Body) (place : Stack → ℕ) (at : ℕ → Stack) (loop : ℕ) where
  -- The machine behind a switch of `p` back to the loop.
  pub record Back (p : ℕ) (s : State) (k : Stack) (m m' : Machine) : Type 0 where
    pub state : (m'.heap p).state ≡ s
    pub ctx : (m'.heap p).ctx ≡ saved (place k)
    pub in_scheduler : (m'.heap p).run_in_scheduler ≡ true
    pub others : (q : ℕ) → q ≢ p → m'.heap q ≡ m.heap q
    pub scheduler_piber : m'.t_scheduler_piber ≡ some loop

  yield-Back :
      (p : ℕ) (k : Stack) (m : Machine)
      → p ≢ loop
      → m.t_scheduler_piber ≡ some loop
      → (m.heap p).run_in_scheduler ≡ true
      → (m' : Machine) × (yield p (place k) m ≡ some (m', (m.heap loop).ctx))
        × Back p (yielded (m.heap p).state) k m m'
  unfolding yield swapcontext
  yield-Back p k m ne sched inside = (
    (swapcontext p loop (place k) leaving).0,
    ground (arith, ne, sched, inside),
    record {
      state = ground (arith, ne, sched, inside);
      ctx = ground (arith, ne, sched, inside);
      in_scheduler = ground (arith, ne, sched, inside);
      others = λ q d. ground (arith, d);
      scheduler_piber = sched;
    },
  )
    where
      leaving : Machine
      leaving = record m {
        t_piber = m.t_thread_piber;
        heap = update m.heap p (record (m.heap p) { state = yielded (m.heap p).state });
      }

  switches-Back :
      (p : ℕ) (b : Body) (o : Objects)
      → p ≢ loop
      → o.machine.t_scheduler_piber ≡ some loop
      → (o.machine.heap p).run_in_scheduler ≡ true
      → (o.machine.heap p).state ≡ runing
      → (m' : Machine) × (switches code place at p b o
          ≡ some (switched p b o m', (o.machine.heap loop).ctx))
        × Back p (last_switch b).0 (last_switch b).1 o.machine m'
  unfolding switches main_func_end
  switches-Back p returns o ne sched inside runs =
      let m = o.machine in
      let over : Machine = record m {
        heap = update m.heap p (record (m.heap p) { cb = none; state = term });
      } in
      let (m', e, b) = yield-Back p at_end over ne sched (ground (arith, inside)) in
      (
        m',
        ap (with_machine o) e ∙ ground (arith, ne),
        record {
          state = ground (arith, b.state);
          ctx = b.ctx;
          in_scheduler = b.in_scheduler;
          others = λ q d. b.others q d ∙ ground (arith, d);
          scheduler_piber = b.scheduler_piber;
        },
      )
  switches-Back p (yields b) o ne sched inside runs =
      let (m', e, r) = yield-Back p (in_callback b) o.machine ne sched inside in
      (
        m',
        ap (with_machine o) e,
        record {
          state = ground (arith, r.state, runs);
          ctx = r.ctx;
          in_scheduler = r.in_scheduler;
          others = r.others;
          scheduler_piber = r.scheduler_piber;
        },
      )
  switches-Back p (schedules_self b) o ne sched inside runs =
      switches-Back p b
        (record o { sched = (schedule_no_lock (a_piber (some p)) any_thread o.sched).0 }) ne sched
        inside runs
  switches-Back p (schedules f thread b) o ne sched inside runs =
      switches-Back p b (record o { sched = (schedule_no_lock (a_cb (some f)) thread o.sched).0 })
        ne sched inside runs

  -- The machine when `p` has been resumed at `here`.
  pub record Resumed (p here : ℕ) (m m' : Machine) : Type 0 where
    pub called_at : (m'.heap loop).ctx ≡ saved here
    pub state : (m'.heap p).state ≡ runing
    pub cb : (m'.heap p).cb ≡ (m.heap p).cb
    pub in_scheduler : (m'.heap p).run_in_scheduler ≡ true
    pub others : (q : ℕ) → q ≢ p → q ≢ loop → m'.heap q ≡ m.heap q
    pub scheduler_piber : m'.t_scheduler_piber ≡ some loop

  resume-Resumed :
      (p here : ℕ) (m : Machine)
      → p ≢ loop
      → m.t_scheduler_piber ≡ some loop
      → (m.heap p).run_in_scheduler ≡ true
      → (m' : Machine) × (resume p here m ≡ some (m', (m.heap p).ctx)) × Resumed p here m m'
  unfolding resume swapcontext
  resume-Resumed p here m ne sched inside = (
    (swapcontext loop p here running).0,
    ground (arith, ne, sched, inside),
    record {
      called_at = ground (arith, ne);
      state = ground (arith, ne);
      cb = ground (arith, ne);
      in_scheduler = ground (arith, ne, inside);
      others = λ q d e. ground (arith, d, e);
      scheduler_piber = sched;
    },
  )
    where
      running : Machine
      running = record m {
        t_piber = some p;
        heap = update m.heap p (record (m.heap p) { state = runing });
      }

  -- The callback `b` runs in a coroutine that is resumed.
  pub turn-Back :
      (p here : ℕ) (b : Body) (o : Objects)
      → p ≢ loop
      → o.machine.t_scheduler_piber ≡ some loop
      → (o.machine.heap p).run_in_scheduler ≡ true
      → continues_with code place at (o.machine.heap p).ctx (o.machine.heap p).cb ≡ some b
      → (m1 m' : Machine) × (turn code place at p here o ≡ some (switched p b o m', saved here))
        × Resumed p here o.machine m1
        × Back p (last_switch b).0 (last_switch b).1 m1 m'
  unfolding turn
  turn-Back p here b o ne sched inside e =
      let (m1, r, a) = resume-Resumed p here o.machine ne sched inside in
      let (m', s, back) =
        switches-Back p b (record o { machine = m1 }) ne a.scheduler_piber a.in_scheduler a.state in
      (m1, m', ground (arith, r, a.cb, e, s, a.called_at), a, back)

  pub turn-none :
      (p here : ℕ) (o : Objects)
      → p ≢ loop
      → o.machine.t_scheduler_piber ≡ some loop
      → (o.machine.heap p).run_in_scheduler ≡ true
      → continues_with code place at (o.machine.heap p).ctx (o.machine.heap p).cb ≡ none
      → turn code place at p here o ≡ none
  unfolding turn
  turn-none p here o ne sched inside e =
      let (m1, r, a) = resume-Resumed p here o.machine ne sched inside in ground (arith, r, a.cb, e)

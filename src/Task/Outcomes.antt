-- ===== src/Task/Outcomes.antt =====
-- Where a callback stands (Piber::yield and MainFunc in synergy/Piber.cc) when the loop of
-- Scheduler::run has resumed its coroutine as often as it is in the queue.
use synergy_lib.Prelude.{Bool, ℕ, false, if◌then◌else◌, ◌≢◌, true, ◌==◌, ◌≡◌, arith}
use synergy_lib.Task.Handles.{
  is_tidy, queued, as_number, schedule_fiber-queued, schedule_callback-queued,
}
use synergy_lib.Task.{
  Body, returns, yields, schedules_self, schedules, Stack, at_start, in_callback, at_end, Pool,
  run_body, schedule_fiber, schedule_callback, ℤ,
}
use synergy_lib.Task.Frames.{run_body-others}

-- A callback ends, or stops at the first yield() outside of the queue. The flag tells whether its
-- coroutine is in the queue.
abbrev pub comes_to : Bool → Body → Stack
comes_to in_queue returns = at_end
comes_to true (yields b) = comes_to false b
comes_to false (yields b) = in_callback b
comes_to in_queue (schedules_self b) = comes_to true b
comes_to in_queue (schedules f thread b) = comes_to in_queue b

abbrev pub resumed_to : Stack → Stack
resumed_to (at_start b) = comes_to false b
resumed_to (in_callback b) = comes_to false b
resumed_to at_end = at_end

-- A coroutine that is not in the queue stays where it is.
abbrev pub outcome : ℕ → Pool → Stack
outcome p w =
    if queued p w.sched.tasks == 0 then (w.fibers p).stack else resumed_to (w.fibers p).stack

pub run_body-outcome :
    (tid : ℤ) (p : ℕ) (b : Body) (in_queue : Bool) (w : Pool)
    → queued p w.sched.tasks ≡ as_number in_queue
    → is_tidy tid in_queue b ≡ true
    → outcome p (run_body p b w) ≡ comes_to in_queue b
unfolding run_body
run_body-outcome tid p returns true w q e = absurd cc
run_body-outcome tid p returns false w q e = ground (arith, q)
run_body-outcome tid p (yields b) true w q e = ground (arith, q)
run_body-outcome tid p (yields b) false w q e = ground (arith, q)
run_body-outcome tid p (schedules_self b) true w q e = absurd cc
run_body-outcome tid p (schedules_self b) false w q e =
    run_body-outcome tid p b true (schedule_fiber p w)
      (ground (arith, q, schedule_fiber-queued p p w)) e
run_body-outcome tid p (schedules f thread b) in_queue w q e =
    run_body-outcome tid p b in_queue (schedule_callback f thread w)
      (ground (arith, q, schedule_callback-queued p f thread w)) (ground arith)

-- The other coroutines are not concerned.
pub run_body-others_outcome :
    (p q : ℕ) (b : Body) (w : Pool) → q ≢ p → outcome q (run_body p b w) ≡ outcome q w
run_body-others_outcome p q b w ne = ground (arith, run_body-others p q b w ne)

-- ===== src/Task/Programs.antt =====
-- The programs testcase/PiberTest.cc and testcase/SchedulerTest.cc, without their output.
use synergy_lib.Prelude.{
  ◌>>=◌, ℕ, Option, none, some, List, [], suc, ◌∷◌, if◌then◌else◌, true, false, zero, ◌==◌,
}
use synergy_lib.Prelude.Int.{ℤ}
use synergy_lib.Scheduler.{
  run_round, idle_returns, empty_task, new_scheduler, start, stop, any_thread,
}
use synergy_lib.Task.{
  Body, returns, yields, schedules_self, schedules, Fiber, Pool, new_fiber, schedule_fiber,
  schedule_callback, resume_fiber, reset_fiber, serve, run_task,
}

-- run_in_fiber and run_in_fiber2 of PiberTest.cc.
unfoldable pub run_in_fiber : Body
run_in_fiber = yields returns

unfoldable pub run_in_fiber2 : Body
run_in_fiber2 = returns

unfoldable pub piber_test_code : ℕ → Body
unfolding run_in_fiber run_in_fiber2
piber_test_code zero = run_in_fiber
piber_test_code (suc _) = run_in_fiber2

-- test_fiber of PiberTest.cc: the coroutine as it is after its construction and after each of the
-- three calls of resume().
unfoldable pub test_fiber : Pool → Option (List Fiber)
unfolding new_fiber resume_fiber reset_fiber piber_test_code
test_fiber w =
    let p = w.next_address in
    let made = new_fiber piber_test_code 0 w in
    do
      first ← resume_fiber p made
      second ← resume_fiber p first
      third ← resume_fiber p (reset_fiber piber_test_code p 1 second)
      some (made.fibers p ∷ first.fibers p ∷ second.fibers p ∷ third.fibers p ∷ [])

-- test_fiber1 to test_fiber5 of SchedulerTest.cc, which run in the thread `tid`.
unfoldable pub test_fiber1 : Body
test_fiber1 = schedules_self (yields returns)

unfoldable pub test_fiber2 : Body
test_fiber2 = returns

unfoldable pub test_fiber3 : Body
test_fiber3 = returns

unfoldable pub test_fiber4 : ℤ → Body
test_fiber4 tid = schedules 5 tid (schedules 5 tid (schedules 5 tid returns))

unfoldable pub test_fiber5 : Body
test_fiber5 = returns

unfoldable pub scheduler_test_code : ℤ → ℕ → Body
unfolding test_fiber1 test_fiber2 test_fiber3 test_fiber4 test_fiber5
scheduler_test_code tid f =
    if f == 1
    then test_fiber1
    else if f == 2
    then test_fiber2
    else if f == 3
    then test_fiber3
    else if f == 4
    then test_fiber4 tid
    else test_fiber5

-- main of SchedulerTest.cc up to the call of stop(), in the thread `tid`: `root` is the coroutine that
-- the scheduler makes for its loop, and `new_id` gives the ids of the threads that start() creates.
unfoldable pub scheduler_test : ℤ → ℕ → (ℕ → ℤ) → Pool → Pool
unfolding new_scheduler new_fiber schedule_fiber schedule_callback start scheduler_test_code
scheduler_test tid root new_id w0 =
    let w1 = schedule_callback 1 any_thread (record w0 { sched = new_scheduler 1 true tid root }) in
    let w2 = schedule_callback 2 any_thread w1 in
    let w3 = schedule_fiber w2.next_address (new_fiber (scheduler_test_code tid) 3 w2) in
    schedule_callback 4 any_thread (record w3 { sched = start new_id w3.sched })

-- main of SchedulerTest.cc to its end, with at most `fuel` rounds of the loop.
unfoldable pub scheduler_test_main : ℕ → ℤ → ℕ → (ℕ → ℤ) → Pool → Option Pool
unfolding scheduler_test stop serve run_round run_task idle_returns empty_task
scheduler_test_main fuel tid root new_id w0 =
    let w = scheduler_test tid root new_id w0 in
    serve (scheduler_test_code tid) fuel tid false none (record w { sched = (stop w.sched).0 })

-- ===== src/Scenarios/Tasks.antt =====
-- The programs of testcase/ (PiberTest.cc, SchedulerTest.cc) run to their ends.
use synergy_lib.Prelude.{
  ℕ, refl, some, none, map, List, true, ◌≡◌, ◌∷◌, [], if◌then◌else◌, false, ◌<◌, arith, ◌==◌, ◌+◌,
  ◌≤◌,
}
use mathlib.Core.Option
use synergy_lib.Piber.{State, ready, term}
use synergy_lib.Prelude.Int.{pos}
use synergy_lib.Scheduler.{new_scheduler, ScheduleTask, stop, is_elsewhere}
use synergy_lib.Task.Handles.{Inv, is_tidy}
use synergy_lib.Task.Costs.{work}
use synergy_lib.Task.Serving.{own_pointers}
use synergy_lib.Task.Outcomes.{comes_to, outcome}
use synergy_lib.Task.Endings.{loop_serves_all, none_left}
use synergy_lib.Task.Alone.{resumes_lem, resumes, fiber_of, expected, pauses}
use synergy_lib.Scheduler.{run_round, idle_returns, empty_task}
use synergy_lib.Task.{
  Body, yields, returns, run_task, new_fiber, reset_fiber, Pool, Fiber, at_end, serve,
}
use synergy_lib.Task.Programs.{
  piber_test_code, test_fiber, scheduler_test, scheduler_test_code, scheduler_test_main,
}

abbrev no_fiber : Fiber
no_fiber = record { state = term; stack = at_end; use_count = 0 }

abbrev empty_pool : Pool
empty_pool = record {
  sched = new_scheduler 1 true (pos 9) 1;
  fibers = λ _. no_fiber;
  next_address = 20;
}

abbrev what_is_printed : Fiber → ℕ × State
what_is_printed x = (x.use_count, x.state)

-- The comments of test_fiber: the counts 1, 3, 1 and 1, and the states READY and TERM.
use_counts_of_test_fiber :
    Option.map (map what_is_printed) (test_fiber empty_pool)
    ≡ some ((1, ready) ∷ (3, ready) ∷ (1, term) ∷ (1, term) ∷ [])
unfolding test_fiber
use_counts_of_test_fiber = refl

abbrev what_is_left : Pool → List ScheduleTask × ℕ × ℕ × ℕ
what_is_left w = (w.sched.tasks, (w.fibers 20).use_count, (w.fibers 21).use_count, w.next_address)

-- The loop has run the eight tasks, and entered and left its idle coroutine. The main function still
-- has its pointer to the coroutine 20.
scheduler_test_ends :
    Option.map what_is_left (scheduler_test_main 10 (pos 9) 1 (λ i. pos i) empty_pool)
    ≡ some ([], 1, 0, 27)
unfolding scheduler_test_main
scheduler_test_ends = refl

scheduler_test_needs_ten : scheduler_test_main 9 (pos 9) 1 (λ i. pos i) empty_pool ≡ none
unfolding scheduler_test_main
scheduler_test_needs_ten = refl

abbrev test_costs : ℕ → ℕ
test_costs f = if f == 1 then 2 else if f == 4 then 4 else 1

-- The pointer of the main function to the coroutine 20.
abbrev pointers : ℕ → ℕ
pointers p = if p == 20 then 1 else 0

tidy_code : (f : ℕ) → is_tidy (pos 9) false (scheduler_test_code (pos 9) f) ≡ true
unfolding scheduler_test_code is_elsewhere
tidy_code f = ground arith

paid_code : (f : ℕ) → test_costs f ≡ 1 + work test_costs false (scheduler_test_code (pos 9) f)
unfolding scheduler_test_code
paid_code f = ground arith

abbrev before_stop : Pool
before_stop = scheduler_test (pos 9) 1 (λ i. pos i) empty_pool

abbrev stopped_pool : Pool
stopped_pool = record before_stop { sched = (stop before_stop.sched).0 }

stopped_pool-Inv : Inv (pos 9) pointers stopped_pool
unfolding scheduler_test stop is_elsewhere scheduler_test_code
stopped_pool-Inv = record {
  takeable = refl;
  fibers_settled = λ p lt. ground arith;
  unused = λ p le. ground arith;
}

none_left_of_scheduler_test :
    (u : Pool) × (serve (scheduler_test_code (pos 9)) 10 (pos 9) false none stopped_pool ≡ some u)
    × ((p : ℕ) → p < u.next_address → (u.fibers p).use_count ≡ pointers p)
unfolding scheduler_test stop scheduler_test_code
none_left_of_scheduler_test =
    none_left (scheduler_test_code (pos 9)) (pos 9) test_costs pointers tidy_code paid_code 10
      stopped_pool stopped_pool-Inv refl refl (omega arith) (omega arith) (λ f. ground arith)
      (λ p lt. ground arith)

-- The program without the call of schedule() in test_fiber1, which its comment proposes to try.
abbrev experiment_code : ℕ → Body
experiment_code f = if f == 1 then yields returns else scheduler_test_code (pos 9) f

abbrev experiment_costs : ℕ → ℕ
experiment_costs f = if f == 4 then 4 else 1

tidy_experiment : (f : ℕ) → is_tidy (pos 9) false (experiment_code f) ≡ true
unfolding scheduler_test_code is_elsewhere
tidy_experiment f = ground arith

paid_experiment : (f : ℕ) → experiment_costs f ≡ 1 + work experiment_costs false (experiment_code f)
unfolding scheduler_test_code
paid_experiment f = ground arith

-- The coroutine of test_fiber1, which is the second one that is made, is left in its yield() with two
-- pointers.
experiment_loses_one :
    Option.map what_is_left (serve experiment_code 9 (pos 9) false none stopped_pool)
    ≡ some ([], 1, 2, 27)
unfolding serve scheduler_test stop scheduler_test_code run_round run_task idle_returns empty_task
experiment_loses_one = refl

loop_serves_all_example :
    (9 ≤ 9
      → (u : Pool) × (serve experiment_code 9 (pos 9) false none stopped_pool ≡ some u)
        × (u.sched ≡ record stopped_pool.sched { tasks = [] })
        × ((p : ℕ) → p < stopped_pool.next_address → (u.fibers p).stack ≡ outcome p stopped_pool)
        × ((p : ℕ)
            → stopped_pool.next_address ≤ p
            → p < u.next_address
            → (f : ℕ) × ((u.fibers p).stack ≡ comes_to false (experiment_code f)))
        × ((p : ℕ)
            → p < u.next_address
            → (u.fibers p).use_count ≡ pointers p + own_pointers (u.fibers p).stack))
    × (9 < 9 → serve experiment_code 9 (pos 9) false none stopped_pool ≡ none)
unfolding scheduler_test stop scheduler_test_code
loop_serves_all_example =
    loop_serves_all experiment_code (pos 9) experiment_costs pointers tidy_experiment
      paid_experiment 9 stopped_pool stopped_pool-Inv refl refl (omega arith)

-- The callback of PiberTest.cc, which yields once, and its successor, which does not.
resumes_lem_example :
    (fiber_of 20 (resumes 2 20 (new_fiber piber_test_code 0 empty_pool)) ≡ expected 1 2 1)
    × (fiber_of 7 (resumes 2 7 (reset_fiber piber_test_code 7 0 empty_pool)) ≡ expected 1 2 0)
unfolding piber_test_code pauses
resumes_lem_example = resumes_lem piber_test_code 0 1 1 7 empty_pool refl

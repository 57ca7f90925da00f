-- ===== src/Scenarios/Pibers.antt =====
-- A thread whose main coroutine 1 resumes the coroutine 2, as worker threads do.
use synergy_lib.Prelude.{sym, refl, arith, ◌≡◌, none, some, false, true, ◌==◌, if◌then◌else◌}
use synergy_lib.Piber.{
  ready, runing, main_func, saved, unset, Piber, Machine, resume, yield, swapcontext, new_piber,
  swapcontext, get_this,
}
use synergy_lib.Piber.Switching.{yield_returns_to_resume}
use synergy_lib.Piber.Current.{in_loop, get_this_runs, begins, goes_on, creates, resumes}
use synergy_lib.Prelude.Int.{pos}
use synergy_lib.Scheduler.Locals.{Locals, looping, loop_resumes, enter_run, constructor_locals}

abbrev main_piber : Piber
main_piber = record {
  id = 0;
  stacksize = 0;
  state = runing;
  ctx = unset;
  stack = none;
  cb = none;
  run_in_scheduler = false;
}

abbrev task_piber : Piber
task_piber = record {
  id = 1;
  stacksize = 131072;
  state = ready;
  ctx = main_func;
  stack = some 900;
  cb = some 5;
  run_in_scheduler = true;
}

abbrev worker : Machine
worker = record {
  heap = λ q. if q == 2 then task_piber else main_piber;
  piber_count = 2;
  piber_id = 2;
  t_piber = some 1;
  t_thread_piber = some 1;
  t_scheduler_piber = some 1;
}

-- The coroutine 2 runs: the thread stands behind its resume at the place 70.
abbrev in_task : Machine
in_task = record worker {
  heap = λ q.
      if q == 2 then record task_piber { state = runing } else record main_piber { ctx = saved 70 };
  t_piber = some 2;
}

resumes_task :
    (m : Machine) × (resume 2 70 worker ≡ some (m, main_func)) × ((m.heap 1).ctx ≡ saved 70)
unfolding resume swapcontext
resumes_task = (_, refl, refl)

yield_returns_to_resume_example :
    (main_func ≡ main_func)
    × (m2 : Machine) × (yield 2 80 in_task ≡ some (m2, saved 70))
    × (m3 : Machine) × (resume 2 71 m2 ≡ some (m3, saved 80))
yield_returns_to_resume_example =
    yield_returns_to_resume 2 1 worker refl (omega arith) 70 80 71 resumes_task.0 in_task main_func
      resumes_task.1 (sym resumes_task.2) refl

abbrev new_thread : Machine
new_thread = record worker { t_piber = none; t_thread_piber = none; t_scheduler_piber = none }

-- A new thread enters run(): its main coroutine gets the address 3, its idle coroutine the address 4.
abbrev worker_locals : Locals
worker_locals = record { t_scheduler = none; machine = new_thread }

loop_resumes_example :
    let m = looping 50 (pos 12) (pos 9) 3 false 8 4 910 920 6 worker_locals in
    (m' : Machine) × (resume 4 70 m ≡ some (m', (m.heap 4).ctx)) × ((m'.heap 3).ctx ≡ saved 70)
unfolding enter_run constructor_locals get_this new_piber
loop_resumes_example =
    loop_resumes 50 (pos 12) (pos 9) 3 false 8 4 910 920 6 worker_locals 4 70 refl (omega arith)

abbrev looping_worker : Machine
looping_worker = in_loop 50 (pos 12) (pos 9) 3 false 4 920 6 worker_locals

abbrev with_task : Machine
with_task = new_piber 5 930 7 0 true looping_worker

in_new_task : (m : Machine) × (resume 5 70 with_task ≡ some (m, main_func))
unfolding resume swapcontext enter_run new_piber get_this
in_new_task = (_, refl)

-- The loop makes a coroutine for a task, and resumes it.
get_this_runs_example :
    (get_this 6 false in_new_task.0 ≡ (in_new_task.0, 5)) × ((in_new_task.0.heap 5).state ≡ runing)
unfolding enter_run get_this new_piber in_new_task
get_this_runs_example =
    get_this_runs 50 (pos 12) (pos 9) 3 false 4 920 6 worker_locals 6 false refl refl (omega arith)
      (goes_on (goes_on begins (creates 5 930 7 0 true (λ e. ground (arith, e)) (omega arith)))
        (resumes 5 70 refl (omega arith) in_new_task.1))

-- ===== src/Scheduler/Locals.antt =====
-- The thread-local variables of synergy/Scheduler.cc, on the machine of synergy/Piber.cc: what the
-- constructor and the start of Scheduler::run do to them in their thread.
use synergy_lib.Prelude.{ℕ, arith, Bool, true, false, not, Option, some, ◌≡◌, if◌then◌else◌, ◌≢◌}
use synergy_lib.Prelude.Int.{ℤ, ◌==ℤ◌}
use synergy_lib.Piber.{Machine, saved, get_this, new_piber, new_main, resume}
use synergy_lib.Piber.Switching.{resume_lem}

-- A thread's t_scheduler, and its coroutines.
pub record Locals : Type 0 where
  pub t_scheduler : Option ℕ
  pub machine : Machine

-- Scheduler::setThis
unfoldable pub set_this : ℕ → Locals → Locals
set_this self l = record l { t_scheduler = some self }

-- Scheduler::Scheduler in the calling thread, for the scheduler at `self`: `main` and `root` are the
-- addresses of the coroutines that it makes, `stack` and `cb` the stack and the bound run() of the
-- latter.
unfoldable pub constructor_locals : ℕ → Bool → ℕ → Bool → ℕ → ℕ → ℕ → Locals → Locals
unfolding get_this new_piber
constructor_locals self use_caller main garbage root stack cb l =
    if use_caller
    then record {
      t_scheduler = some self;
      machine = record (new_piber root stack cb 0 false (get_this main garbage l.machine).0) {
        t_scheduler_piber = some root;
      };
    }
    else l

-- Scheduler::run in the thread `tid` up to its loop: `idle` is the address of the idle coroutine.
unfoldable pub enter_run : ℕ → ℤ → ℤ → ℕ → Bool → ℕ → ℕ → ℕ → Locals → Locals
unfolding set_this get_this new_piber
enter_run self tid root_thread main garbage idle stack cb l =
    let l' = set_this self l in
    let found = get_this main garbage l'.machine in
    let m =
      if not (tid ==ℤ root_thread)
      then record (found.0) { t_scheduler_piber = some found.1 }
      else l'.machine in
    record l' { machine = new_piber idle stack cb 0 true m }

module _ (self : ℕ) (tid root_thread : ℤ) (main : ℕ) (garbage : Bool)
    (root idle stack stack' cb : ℕ) (l : Locals) where
  -- A thread of the scheduler when its loop begins: the caller's, in which the constructor ran, or a
  -- worker's.
  abbrev pub looping : Machine
  looping =
      (enter_run self tid root_thread main garbage idle stack' cb
        (constructor_locals self (tid ==ℤ root_thread) main garbage root stack cb l)).machine

  -- The coroutine that the loop runs in.
  abbrev pub loop_piber : ℕ
  loop_piber = if tid ==ℤ root_thread then root else (get_this main garbage l.machine).1

  looping-scheduler_piber : looping.t_scheduler_piber ≡ some loop_piber
  unfolding enter_run constructor_locals set_this new_piber get_this new_main
  looping-scheduler_piber = ground arith

  -- In each thread of the scheduler, once its loop begins, resume() of a coroutine of the scheduler
  -- other than the loop's own finds the loop's coroutine, in which it keeps the place of the call,
  -- and continues the coroutine where its context says.
  pub loop_resumes :
      (q here : ℕ)
      → (looping.heap q).run_in_scheduler ≡ true
      → loop_piber ≢ q
      → (m : Machine) × (resume q here looping ≡ some (m, (looping.heap q).ctx))
        × ((m.heap loop_piber).ctx ≡ saved here)
  loop_resumes q here own other =
      let r = resume_lem q loop_piber looping (rw own looping-scheduler_piber) other here in
      (r.0, r.1, r.2)

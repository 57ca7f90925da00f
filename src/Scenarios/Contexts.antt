-- ===== src/Scenarios/Contexts.antt =====
-- The coroutine of testcase/PiberTest.cc, which the loop of a thread resumes, on the objects of Piber.
use synergy_lib.Prelude.{
  refl, zero, suc, arith, ◌≡◌, none, some, true, ◌==◌, if◌then◌else◌, List, [], ◌∷◌, ℕ, subst, ◌<◌,
  ◌≢◌, false, ◌≤◌,
}
use synergy_lib.Prelude.Int.{pos}
use synergy_lib.Piber.{
  ready, runing, main_func, unset, Piber, new_piber, resume, yield, main_func_end, reset, term,
}
use synergy_lib.Scheduler.{new_scheduler, any_thread, is_elsewhere}
use synergy_lib.Task.{
  returns, Stack, at_start, in_callback, at_end, Pool, new_fiber, resume_fiber, reset_fiber, serve,
}
use synergy_lib.Task.Programs.{piber_test_code}
use synergy_lib.Task.Owned.{Owned}
use synergy_lib.Task.Handles.{Inv}
use synergy_lib.Task.Outcomes.{outcome, comes_to}
use synergy_lib.Task.Loop.{serve_objects}
use synergy_lib.Task.Together.{serve-refines}
use synergy_lib.Task.Served.{objects_served, StandsAt}
use synergy_lib.Task.Switches.{act_all, act_all_on, Objects, Action, makes, resets, resumes}
use synergy_lib.Task.Standing.{HasPlaces, StandsFor, Alike}
use synergy_lib.Task.Refines.{Agree, coroutines-refine}

-- The yield() of run_in_fiber is at the place 1, and that of MainFunc at the place 0.
abbrev place : Stack → ℕ
place at_end = 0
place (at_start b) = 2
place (in_callback b) = 1

abbrev at : ℕ → Stack
at k = if k == 1 then in_callback returns else at_end

piber_test_places : (f : ℕ) → HasPlaces piber_test_code place at 0 (piber_test_code f)
unfolding piber_test_code
piber_test_places zero = (refl, tt)
piber_test_places (suc f) = tt

-- The coroutine 1, with the callback run_in_fiber, beside the coroutine 0 of the loop; it is in the
-- queue of a scheduler on which stop() has been called, and a callback behind it.
abbrev one_coroutine : Pool
one_coroutine = record {
  sched = record (new_scheduler 1 true (pos 9) 0) {
    tasks =
        record { piber = some 1; cb = none; thread = any_thread }
        ∷ record { piber = none; cb = some 1; thread = any_thread }
        ∷ [];
    stopping = true;
  };
  fibers = λ q.
      if q == 1
      then record { state = ready; stack = at_start (piber_test_code 0); use_count = 1 }
      else record { state = term; stack = at_end; use_count = 0 };
  next_address = 2;
}

abbrev fresh_piber : Piber
fresh_piber = record {
  id = 1;
  stacksize = 131072;
  state = ready;
  ctx = main_func;
  stack = some 900;
  cb = some 0;
  run_in_scheduler = true;
}

abbrev loop_piber : Piber
loop_piber = record {
  id = 0;
  stacksize = 0;
  state = runing;
  ctx = unset;
  stack = none;
  cb = none;
  run_in_scheduler = true;
}

abbrev one_object : Objects
one_object = record {
  sched = one_coroutine.sched;
  machine = record {
    heap = λ q. if q == 0 then loop_piber else fresh_piber;
    piber_count = 2;
    piber_id = 2;
    t_piber = some 0;
    t_thread_piber = some 0;
    t_scheduler_piber = some 0;
  };
  next_address = 2;
}

one_coroutine-StandsFor : StandsFor piber_test_code place at 0 one_coroutine one_object
one_coroutine-StandsFor = record {
  scheduler = refl;
  addresses = refl;
  scheduler_piber = refl;
  alike = λ p lt ne.
      subst
        (λ q. Alike piber_test_code place at 0 (one_coroutine.fibers q) (one_object.machine.heap q))
        {x = 1} {y = p} (omega (arith, lt, ne))
        (record { state = refl; in_scheduler = refl; stack = (refl, 0, refl, refl) });
}

-- The coroutine runs to its yield() and to its end, is reset, and runs the other callback.
abbrev test_actions : List Action
test_actions = resumes 1 70 ∷ makes 1 ∷ resumes 1 70 ∷ resets 1 1 ∷ resumes 2 71 ∷ resumes 1 72 ∷ []

both_end :
    (u : Pool) × (o : Objects) × (act_all_on piber_test_code test_actions one_coroutine ≡ some u)
    × (act_all piber_test_code place at test_actions one_object ≡ some o)
    × ((u.fibers 1).state ≡ term)
    × ((o.machine.heap 1).state ≡ term)
unfolding act_all act_all_on piber_test_code resume_fiber new_fiber reset_fiber resume yield
    new_piber main_func_end reset
both_end = (_, _, refl, refl, refl, refl)

coroutines-refine_example :
    Agree piber_test_code place at 0
      (act_all_on piber_test_code test_actions one_coroutine)
      (act_all piber_test_code place at test_actions one_object)
coroutines-refine_example =
    coroutines-refine piber_test_code place at 0 piber_test_places refl test_actions one_coroutine
      one_object one_coroutine-StandsFor
      (
        (omega arith, ground arith),
        (tt, (there, (there, ((omega arith, ground arith), (there, tt))))),
      )
  where
    there : (1 < 3) × (◌≢◌ {A = ℕ} 1 0)
    there = (omega arith, ground arith)

one_coroutine-Owned : Owned 0 none one_coroutine
one_coroutine-Owned = record { queue = refl; kept = refl; loop_below = omega arith }

serve-refines_example :
    Agree piber_test_code place at 0
      (serve piber_test_code 4 (pos 9) false none one_coroutine)
      (serve_objects piber_test_code place at 70 4 (pos 9) false none one_object)
serve-refines_example =
    serve-refines piber_test_code place at 0 piber_test_places refl 70 4 (pos 9) false none
      one_coroutine one_object one_coroutine-StandsFor one_coroutine-Owned

one_coroutine-Inv : Inv (pos 9) (λ _. 0) one_coroutine
unfolding piber_test_code is_elsewhere
one_coroutine-Inv = record {
  takeable = refl;
  fibers_settled = λ p lt. ground arith;
  unused = λ p le. ground arith;
}

objects_served_example :
    (v : Objects) × (serve_objects piber_test_code place at 70 4 (pos 9) false none one_object
      ≡ some v)
    × (v.sched ≡ record one_object.sched { tasks = [] })
    × ((p : ℕ) → p < 2 → p ≢ 0 → StandsAt piber_test_code place at 0 v p (outcome p one_coroutine))
    × ((p : ℕ)
        → 2 ≤ p
        → p < v.next_address
        → (f : ℕ) × StandsAt piber_test_code place at 0 v p (comes_to false (piber_test_code f)))
unfolding new_scheduler piber_test_code
objects_served_example =
    objects_served piber_test_code place at 0 piber_test_places refl 70 (pos 9) (λ _. 1) (λ _. 0)
      (λ f. ground arith) (λ f. ground arith) 4 one_coroutine one_object one_coroutine-StandsFor
      one_coroutine-Owned one_coroutine-Inv refl refl (omega arith) (omega arith)

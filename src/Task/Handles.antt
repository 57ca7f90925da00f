-- ===== src/Task/Handles.antt =====
-- Who points to the coroutines of the loop of Scheduler::run (synergy/Scheduler.cc), when no callback
-- schedules its coroutine twice before a switch, or before its end.
use synergy_lib.Prelude.{
  ℕ, arith, none, some, Bool, true, false, not, ◌&&◌, ◌≡◌, ◌≢◌, ◌<◌, ◌≤◌, ◌+◌, List, [], ◌∷◌, ◌++◌,
  ◌||◌, all, all-append, ◌==◌, leb, ◌∙◌,
}
use synergy_lib.Prelude.Int.{ℤ}
use synergy_lib.Piber.{State, ready, term}
use synergy_lib.Scheduler.{ScheduleTask, has_work, is_elsewhere, any_thread}
use synergy_lib.Task.{
  Body, returns, yields, schedules_self, schedules, Stack, at_start, in_callback, at_end, Fiber,
  Pool, run_body, schedule_fiber, schedule_callback,
}

abbrev pub callback_task : ℕ → ℤ → ScheduleTask
callback_task f thread = record { piber = none; cb = some f; thread = thread }

-- A callback that schedules its coroutine at most once before a yield() and not before its end, and
-- that schedules callbacks only for the thread `tid` or for any thread. The flag tells whether the
-- coroutine is in the queue. What follows a yield() outside of the queue is never run.
abbrev pub is_tidy : ℤ → Bool → Body → Bool
is_tidy tid in_queue returns = not in_queue
is_tidy tid in_queue (yields b) = not in_queue || is_tidy tid false b
is_tidy tid in_queue (schedules_self b) = not in_queue && is_tidy tid true b
is_tidy tid in_queue (schedules f thread b) =
    not (is_elsewhere tid (callback_task f thread)) && is_tidy tid in_queue b

-- A task of the queue that the thread may take, as far as the queue shows.
abbrev pub is_for : ℕ → ScheduleTask → Bool
is_for p t = elim t.piber [ none ↦ false | some q ↦ q == p ]

abbrev pub is_takeable : ℤ → ScheduleTask → Bool
is_takeable tid t = has_work t && not (is_elsewhere tid t)

abbrev pub as_number : Bool → ℕ
as_number true = 1
as_number false = 0

-- How often the coroutine is in the queue.
abbrev pub queued : ℕ → List ScheduleTask → ℕ
queued p [] = 0
queued p (t ∷ ts) = as_number (is_for p t) + queued p ts

pub queued-append :
    (p : ℕ) (ts us : List ScheduleTask) → queued p (ts ++ us) ≡ queued p ts + queued p us
queued-append p [] us = omega arith
queued-append p (t ∷ ts) us = omega (arith, queued-append p ts us)

pub schedule_fiber-queued :
    (p q : ℕ) (w : Pool)
    → queued q (schedule_fiber p w).sched.tasks ≡ queued q w.sched.tasks + as_number (p == q)
unfolding schedule_fiber
schedule_fiber-queued p q w =
    queued-append q w.sched.tasks (record { piber = some p; cb = none; thread = any_thread } ∷ [])
    ∙ omega arith

pub schedule_callback-queued :
    (q f : ℕ) (thread : ℤ) (w : Pool)
    → queued q (schedule_callback f thread w).sched.tasks ≡ queued q w.sched.tasks
unfolding schedule_callback
schedule_callback-queued q f thread w =
    queued-append q w.sched.tasks (callback_task f thread ∷ []) ∙ omega arith

abbrev pub is_ready : State → Bool
is_ready ready = true
is_ready _ = false

abbrev pub is_term : State → Bool
is_term term = true
is_term _ = false

-- A coroutine between two rounds, which is `q` times in the queue and has `h` pointers from elsewhere:
-- it has not begun; it is in a yield(), and may be in the queue; or it has ended.
abbrev pub is_settled : ℤ → ℕ → ℕ → State → ℕ → Stack → Bool
is_settled tid q h state count (at_start b) =
    is_tidy tid false b && leb q 1 && is_ready state && count == h + q
is_settled tid q h state count (in_callback b) =
    (q == 0 || q == 1 && is_tidy tid false b) && is_ready state && count == h + 2 + q
is_settled tid q h state count at_end = q == 0 && is_term state && count == h

abbrev pub settled : ℤ → ℕ → ℕ → Fiber → Bool
settled tid q h x = is_settled tid q h x.state x.use_count x.stack

-- Between two rounds: `h` counts the pointers to each coroutine that are not in the queue and not on
-- its own stack.
pub record Inv (tid : ℤ) (h : ℕ → ℕ) (w : Pool) : Type 0 where
  pub takeable : all (is_takeable tid) w.sched.tasks ≡ true
  pub fibers_settled :
      (p : ℕ) → p < w.next_address → settled tid (queued p w.sched.tasks) (h p) (w.fibers p) ≡ true
  pub unused : (p : ℕ) → w.next_address ≤ p → (queued p w.sched.tasks ≡ 0) × (h p ≡ 0)

-- While the coroutine `p` runs its callback.
pub record Runs (tid : ℤ) (h : ℕ → ℕ) (p : ℕ) (in_queue : Bool) (w : Pool) : Type 0 where
  pub takeable : all (is_takeable tid) w.sched.tasks ≡ true
  pub others_settled :
      (q : ℕ)
      → q < w.next_address
      → q ≢ p
      → settled tid (queued q w.sched.tasks) (h q) (w.fibers q) ≡ true
  pub unused : (q : ℕ) → w.next_address ≤ q → (queued q w.sched.tasks ≡ 0) × (h q ≡ 0)
  pub own_queued : queued p w.sched.tasks ≡ as_number in_queue
  pub own_count : (w.fibers p).use_count ≡ h p + 1 + as_number in_queue
  pub own_address : p < w.next_address

module _ (tid : ℤ) (h : ℕ → ℕ) (p : ℕ) where
  schedule_fiber-Runs : (w : Pool) → Runs tid h p false w → Runs tid h p true (schedule_fiber p w)
  unfolding schedule_fiber is_elsewhere
  schedule_fiber-Runs w r =
      let t : ScheduleTask = record { piber = some p; cb = none; thread = any_thread } in
      record {
        takeable = ground (arith, r.takeable, all-append (is_takeable tid) w.sched.tasks (t ∷ []));
        others_settled =
            λ q lt ne. ground (arith, r.others_settled q, queued-append q w.sched.tasks (t ∷ []));
        unused = λ q le.
            ground (arith, r.unused q, r.own_address, queued-append q w.sched.tasks (t ∷ []));
        own_queued = ground (arith, r.own_queued, queued-append p w.sched.tasks (t ∷ []));
        own_count = ground (arith, r.own_count);
        own_address = r.own_address;
      }

  schedule_callback-Runs :
      (f : ℕ) (thread : ℤ) (b : Bool) (w : Pool)
      → is_elsewhere tid (callback_task f thread) ≡ false
      → Runs tid h p b w
      → Runs tid h p b (schedule_callback f thread w)
  unfolding schedule_callback
  schedule_callback-Runs f thread b w e r =
      let t = callback_task f thread in
      record {
        takeable = ground (arith, r.takeable, all-append (is_takeable tid) w.sched.tasks (t ∷ []));
        others_settled =
            λ q lt ne. ground (arith, r.others_settled q, queued-append q w.sched.tasks (t ∷ []));
        unused = λ q le. ground (arith, r.unused q, queued-append q w.sched.tasks (t ∷ []));
        own_queued = ground (arith, r.own_queued, queued-append p w.sched.tasks (t ∷ []));
        own_count = ground (arith, r.own_count);
        own_address = r.own_address;
      }

  pub run_body-Inv :
      (b : Body) (in_queue : Bool) (w : Pool)
      → Runs tid h p in_queue w
      → is_tidy tid in_queue b ≡ true
      → Inv tid h (run_body p b w)
  unfolding run_body
  run_body-Inv returns in_queue w r e = record {
    takeable = r.takeable;
    fibers_settled = λ q lt. ground (arith, r.others_settled q, r.own_queued, r.own_count);
    unused = r.unused;
  }
  run_body-Inv (yields b) in_queue w r e = record {
    takeable = r.takeable;
    fibers_settled = λ q lt. ground (arith, r.others_settled q, r.own_queued, r.own_count);
    unused = r.unused;
  }
  run_body-Inv (schedules_self b) true w r e = absurd cc
  run_body-Inv (schedules_self b) false w r e =
      run_body-Inv b true (schedule_fiber p w) (schedule_fiber-Runs w r) e
  run_body-Inv (schedules f thread b) in_queue w r e =
      run_body-Inv b in_queue (schedule_callback f thread w)
        (schedule_callback-Runs f thread in_queue w (ground arith) r) (ground arith)

-- ===== src/Scheduler/Counters.antt =====
-- The counters of a Scheduler (synergy/Scheduler.cc) against its workers.
use synergy_lib.Prelude.{
  zero, suc, ℕ, refl, arith, inl, inr, subst, ◌≡◌, List, all, Bool, ◌+◌, ◌<◌, true, ◌++◌, u64_mod,
  ◌∷◌, update, [], u64, ◌≤◌, ◌⊎◌, false, all-append, all-middle,
}
use synergy_lib.Prelude.Int.{ℤ}
use synergy_lib.Prelude.Total.{total, total-update, total-le, le-total}
use synergy_lib.Piber.{State}
use synergy_lib.Scheduler.{
  new_scheduler, start, ScheduleTask, FiberOrCb, Scheduler, Phase, looking, working, idling, ended,
  run_round, task_returns, idle_returns, schedule_no_lock, stop, has_work, empty_task, new_task,
}
use synergy_lib.Scheduler.Queue.{scan_lem}
use synergy_lib.Scheduler.Workers.{
  System, Move, rounds, task_back, idle_back, task_schedules, WorkerStep, Step, Reach, is_working,
  is_idling, moves, stops, inside, outside, here, next,
}

-- The counters count the workers, and every task of the queue has something to run.
pub record Inv (n : ℕ) (s : System) : Type 0 where
  pub active : s.sched.active_thread_count ≡ total is_working n s.phase
  pub idle : s.sched.idle_thread_count ≡ total is_idling n s.phase
  pub runnable : all has_work s.sched.tasks ≡ true

pub schedule-runnable :
    (fc : FiberOrCb) (thread : ℤ) (s : Scheduler)
    → all has_work s.tasks ≡ true
    → all has_work (schedule_no_lock fc thread s).0.tasks ≡ true
unfolding schedule_no_lock
schedule-runnable fc thread s h =
    ground (arith, all-append has_work s.tasks (new_task fc thread ∷ []))

-- A round of the loop: the worker works, idles or leaves, and the counters follow.
pub round_cases :
    (tid : ℤ) (state : ℕ → State) (b : Bool) (s : Scheduler)
    → all has_work s.tasks ≡ true
    → let r = run_round tid state b s in
      ((t : ScheduleTask) × (before : List ScheduleTask) × (after : List ScheduleTask) × (s.tasks
          ≡ before ++ t ∷ after)
        × (r.1 ≡ working t b)
        × (has_work t ≡ true)
        × (r.0 ≡ record s {
          tasks = before ++ after;
          active_thread_count = u64 (s.active_thread_count + 1);
        }))
      ⊎ ((b ≡ true) × (r.1 ≡ ended) × (r.0 ≡ s))
      ⊎ ((b ≡ false)
          × (r.1 ≡ idling)
          × (r.0 ≡ record s { idle_thread_count = u64 (s.idle_thread_count + 1) }))
unfolding run_round empty_task
round_cases tid state b s h = elim (scan_lem tid state s.tasks) [
  | inl (c, e, a, k) ↦ inr (ground arith)
  | inr (t, before, after, c, e, k, el, nb, tk) ↦
      let w : has_work t ≡ true =
        (all-middle has_work before t after (subst (λ ts. all has_work ts ≡ true) e h)).0 in
      inl (t, before, after, e, ground arith, w, ground arith)
]

-- What a move does to the counters, and to the tasks in the queue.
record Counted (s : Scheduler) (p : Phase) (s' : Scheduler) (p' : Phase) : Type 0 where
  active : s'.active_thread_count + is_working p ≡ s.active_thread_count + is_working p'
  idle : s'.idle_thread_count + is_idling p ≡ s.idle_thread_count + is_idling p'
  runnable : all has_work s'.tasks ≡ true

rounds-Counted :
    (tid : ℤ) (state : ℕ → State) (b : Bool) (s : Scheduler)
    → s.active_thread_count + 1 < u64_mod
    → s.idle_thread_count + 1 < u64_mod
    → all has_work s.tasks ≡ true
    → Counted s (looking b) (run_round tid state b s).0 (run_round tid state b s).1
rounds-Counted tid state b s a i h = elim (round_cases tid state b s h) [
  | inl (t, before, after, e, p, w, r) ↦
      let k = (all-middle has_work before t after (subst (λ ts. all has_work ts ≡ true) e h)).1 in
      rw (p, r) (record { active = omega arith; idle = omega arith; runnable = k })
  | inr (inl (x, p, r)) ↦ rw (p, r) (record { active = refl; idle = refl; runnable = h })
  | inr (inr (x, p, r)) ↦
      rw (p, r) (record { active = omega arith; idle = omega arith; runnable = h })
]

schedule_no_lock-counters :
    (fc : FiberOrCb) (thread : ℤ) (s : Scheduler)
    → ((schedule_no_lock fc thread s).0.active_thread_count ≡ s.active_thread_count)
      × ((schedule_no_lock fc thread s).0.idle_thread_count ≡ s.idle_thread_count)
unfolding schedule_no_lock
schedule_no_lock-counters fc thread s = ground arith

Move-Counted :
    (tid : ℤ) (s : Scheduler) {p : Phase} {s' : Scheduler} {p' : Phase}
    → Move tid s p s' p'
    → s.active_thread_count < u64_mod
    → s.idle_thread_count < u64_mod
    → (is_working p ≡ 1 → 0 < s.active_thread_count)
    → (is_idling p ≡ 1 → 0 < s.idle_thread_count)
    → (is_working p ≡ 0 → s.active_thread_count + 1 < u64_mod)
    → (is_idling p ≡ 0 → s.idle_thread_count + 1 < u64_mod)
    → all has_work s.tasks ≡ true
    → Counted s p s' p'
unfolding task_returns idle_returns
Move-Counted tid s (rounds state b) a i wa wi ra ri h =
    rounds-Counted tid state b s (ra refl) (ri refl) h
Move-Counted tid s (task_back t b) a i wa wi ra ri h = record {
  active = ground arith;
  idle = refl;
  runnable = h;
}
Move-Counted tid s idle_back a i wa wi ra ri h = record {
  active = refl;
  idle = ground arith;
  runnable = h;
}
Move-Counted tid s (task_schedules t b fc thread) a i wa wi ra ri h = record {
  active = ground (arith, schedule_no_lock-counters fc thread s);
  idle = ground (arith, schedule_no_lock-counters fc thread s);
  runnable = schedule-runnable fc thread s h;
}

-- A new scheduler, and workers whose loops have not begun.
abbrev pub made : ℕ → Bool → ℤ → ℕ → System
made threads use_caller caller root = record {
  sched = new_scheduler threads use_caller caller root;
  phase = λ _. looking false;
}

none_of : (f : Phase → ℕ) (n : ℕ) → f (looking false) ≡ 0 → total f n (λ _. looking false) ≡ 0
unfolding total
none_of f zero e = refl
none_of f (suc n) e = omega (arith, none_of f n e, e)

made-Inv :
    (n threads : ℕ) (use_caller : Bool) (caller : ℤ) (root : ℕ)
    → Inv n (made threads use_caller caller root)
unfolding new_scheduler
made-Inv n threads true caller root = record {
  active = ground (arith, none_of is_working n refl);
  idle = ground (arith, none_of is_idling n refl);
  runnable = refl;
}
made-Inv n threads false caller root = record {
  active = ground (arith, none_of is_working n refl);
  idle = ground (arith, none_of is_idling n refl);
  runnable = refl;
}

module _ (n : ℕ) (tid : ℕ → ℤ) (few : n < u64_mod) where
  working_le : (phase : ℕ → Phase) → total is_working n phase ≤ n
  working_le phase = omega (arith, total-le is_working n 1 phase (λ p. ground arith))

  idling_le : (phase : ℕ → Phase) → total is_idling n phase ≤ n
  idling_le phase = omega (arith, total-le is_idling n 1 phase (λ p. ground arith))

  moves-Inv :
      (s : System) (i : ℕ) {s' : Scheduler} {p' : Phase}
      → i < n
      → Move (tid i) s.sched (s.phase i) s' p'
      → Inv n s
      → Inv n (record { sched = s'; phase = update s.phase i p' })
  moves-Inv s i {s'} {p'} lt mv v = record {
    active = omega (arith, total-update is_working n i p' s.phase lt, c.active, v.active);
    idle = omega (arith, total-update is_idling n i p' s.phase lt, c.idle, v.idle);
    runnable = c.runnable;
  }
    where
      c : Counted s.sched (s.phase i) s' p'
      c =
          Move-Counted (tid i) s.sched mv (omega (arith, v.active, working_le s.phase))
            (omega (arith, v.idle, idling_le s.phase))
            (λ e. omega (arith, v.active, le-total is_working n i s.phase lt))
            (λ e. omega (arith, v.idle, le-total is_idling n i s.phase lt))
            (λ e. omega (
              arith,
              v.active,
              total-update is_working n i (working empty_task false) s.phase lt,
              working_le (update s.phase i (working empty_task false)),
            ))
            (λ e. omega (
              arith,
              v.idle,
              total-update is_idling n i idling s.phase lt,
              idling_le (update s.phase i idling),
            ))
            v.runnable

  pub WorkerStep-Inv : {s u : System} → WorkerStep n tid s u → Inv n s → Inv n u
  unfolding stop
  WorkerStep-Inv {s} (moves i lt mv) v = moves-Inv s i lt mv v
  WorkerStep-Inv stops v = record {
    active = ground (arith, v.active);
    idle = ground (arith, v.idle);
    runnable = ground (arith, v.runnable);
  }

  pub Step-Inv : {s u : System} → Step n tid s u → Inv n s → Inv n u
  Step-Inv (inside st) v = WorkerStep-Inv st v
  Step-Inv {s} (outside fc thread) v = record {
    active = ground (arith, v.active, schedule_no_lock-counters fc thread s.sched);
    idle = ground (arith, v.idle, schedule_no_lock-counters fc thread s.sched);
    runnable = schedule-runnable fc thread s.sched v.runnable;
  }

  Reach-Inv : {s u : System} → Reach n tid s u → Inv n s → Inv n u
  Reach-Inv here v = v
  Reach-Inv (next r st) v = Step-Inv st (Reach-Inv r v)

  -- A scheduler is made for any number of threads; schedule() is called on it; start() is called; and
  -- then fewer than 2 ^ 64 workers, callers of schedule() and of stop() do whatever they do. Then
  -- m_activeThreadCount is the number of workers that run a task, m_idleThreadCount the number of
  -- workers in their idle coroutine, and no queued task is empty.
  pub counters_count :
      (threads : ℕ) (use_caller : Bool) (caller : ℤ) (root : ℕ) (new_id : ℕ → ℤ) {s u : System}
      → Reach n tid (made threads use_caller caller root) s
      → Reach n tid (record s { sched = start new_id s.sched }) u
      → Inv n u
  unfolding start
  counters_count threads use_caller caller root new_id {s} before after =
      let v = Reach-Inv before (made-Inv n threads use_caller caller root) in
      Reach-Inv after (record {
        active = ground (arith, v.active);
        idle = ground (arith, v.idle);
        runnable = ground (arith, v.runnable);
      })

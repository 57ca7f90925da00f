-- ===== src/Scheduler/Queue.antt =====
-- The search of Scheduler::run (synergy/Scheduler.cc) through the task queue.
use synergy_lib.Prelude.{
  ℕ, refl, arith, ◌++◌, Bool, List, not, ◌≡◌, ◌∷◌, ◌⊎◌, ◌&&◌, none, some, ◌||◌, false, true, inl,
  inr, any, is_empty, Bool-cases, [], all, ◌↔◌, subst, sym, any-middle, all-middle, ap, u64,
  Option-cases, ◌+◌,
}
use synergy_lib.Prelude.Int.{ℤ}
use synergy_lib.Piber.{State, ready}
use synergy_lib.Scheduler.{
  ScheduleTask, Scan, scan, is_elsewhere, runs_already, Scheduler, run_round, has_work, working,
  empty_task,
}

-- A task that the thread `tid` may take.
abbrev pub is_eligible : ℤ → (ℕ → State) → ScheduleTask → Bool
is_eligible tid state t = not (is_elsewhere tid t) && not (runs_already state t)

-- The thread takes nothing: the queue is as it was and holds nothing that it may take.
abbrev pub FindsNone : ℤ → (ℕ → State) → List ScheduleTask → Scan → Type 0
FindsNone tid state ts r =
    (r.chosen ≡ none)
    × (r.rest ≡ ts)
    × (any (is_eligible tid state) ts ≡ false)
    × (r.tickle_me ≡ any (is_elsewhere tid) ts)

-- The thread takes the first task that it may take, and leaves the others in their order.
abbrev pub FindsFirst : ℤ → (ℕ → State) → List ScheduleTask → Scan → Type 0
FindsFirst tid state ts r =
    (t : ScheduleTask) × (before : List ScheduleTask) × (after : List ScheduleTask) × (r.chosen
      ≡ some t)
    × (ts ≡ before ++ t ∷ after)
    × (r.rest ≡ before ++ after)
    × (is_eligible tid state t ≡ true)
    × (any (is_eligible tid state) before ≡ false)
    × (r.tickle_me ≡ (any (is_elsewhere tid) before || not (is_empty after)))

abbrev skipped : ScheduleTask → Bool → Scan → Scan
skipped t elsewhere later = record later {
  rest = t ∷ later.rest;
  tickle_me = elsewhere || later.tickle_me;
}

pub scan-skip :
    (tid : ℤ) (state : ℕ → State) (t : ScheduleTask) (ts : List ScheduleTask)
    → is_eligible tid state t ≡ false
    → scan tid state (t ∷ ts) ≡ skipped t (is_elsewhere tid t) (scan tid state ts)
unfolding scan
scan-skip tid state t ts h = ground arith

pub scan-take :
    (tid : ℤ) (state : ℕ → State) (t : ScheduleTask) (ts : List ScheduleTask)
    → is_eligible tid state t ≡ true
    → scan tid state (t ∷ ts) ≡ record { chosen = some t; rest = ts; tickle_me = not (is_empty ts) }
unfolding scan
scan-take tid state t ts h = ground arith

skip-Finds :
    (tid : ℤ) (state : ℕ → State) (t : ScheduleTask) (ts : List ScheduleTask) (r : Scan)
    → is_eligible tid state t ≡ false
    → FindsNone tid state ts r ⊎ FindsFirst tid state ts r
    → FindsNone tid state (t ∷ ts) (skipped t (is_elsewhere tid t) r)
      ⊎ FindsFirst tid state (t ∷ ts) (skipped t (is_elsewhere tid t) r)
skip-Finds tid state t ts r h (inl (c, e, a, k)) = inl (c, ground arith, ground arith, ground arith)
skip-Finds tid state t ts r h (inr (u, before, after, c, e, k, el, b, tk)) =
    inr (u, t ∷ before, after, c, ground arith, ground arith, el, ground arith, ground arith)

-- The search ends in one of two ways: nothing in the queue may be taken by the thread, and the queue
-- stays as it was; or the first task that may be taken is taken out, and the others stay in their
-- order. The thread calls tickle() exactly if it passed a task bound to another thread, or left a
-- task behind the one it took.
pub scan_lem :
    (tid : ℤ) (state : ℕ → State) (ts : List ScheduleTask)
    → FindsNone tid state ts (scan tid state ts) ⊎ FindsFirst tid state ts (scan tid state ts)
scan_lem tid state [] = inl (unfold scan in (refl, refl, refl, refl))
scan_lem tid state (t ∷ ts) = elim (Bool-cases (is_eligible tid state t)) [
  | inl h ↦ rw (scan-take tid state t ts h) (inr (t, [], ts, refl, refl, refl, h, refl, refl))
  | inr h ↦ rw (scan-skip tid state t ts h) (skip-Finds tid state t ts _ h (scan_lem tid state ts))
]

run_round_works_iff :
    (tid : ℤ) (state : ℕ → State) (b : Bool) (s : Scheduler)
    → all has_work s.tasks ≡ true
    → ((t : ScheduleTask) × ((run_round tid state b s).1 ≡ working t b))
      ↔ (any (is_eligible tid state) s.tasks ≡ true)
unfolding run_round empty_task
run_round_works_iff tid state b s h = elim (scan_lem tid state s.tasks) [
  | inl (c, e, a, k) ↦ (λ (t, w). absurd (ground arith), λ w. absurd (ground arith))
  | inr (t, before, after, c, e, k, el, nb, tk) ↦ (
    λ _.
        subst (λ ts. any (is_eligible tid state) ts ≡ true) (sym e)
          (any-middle (is_eligible tid state) before t after el),
    λ _. (t, ground (arith, all-middle has_work before t after, ap (all has_work) e)),
  )
]

run_round_takes_first :
    (tid : ℤ) (state : ℕ → State) (b b' : Bool) (s : Scheduler) (t : ScheduleTask)
    → (run_round tid state b s).1 ≡ working t b'
    → (is_eligible tid state t ≡ true)
      × (before : List ScheduleTask) × (after : List ScheduleTask) × (s.tasks ≡ before ++ t ∷ after)
      × ((run_round tid state b s).0.tasks ≡ before ++ after)
      × (any (is_eligible tid state) before ≡ false)
unfolding run_round empty_task
run_round_takes_first tid state b b' s t w = elim (scan_lem tid state s.tasks) [
  | inl (c, e, a, k) ↦ absurd (ground arith)
  | inr (u, before, after, c, e, k, el, nb, tk) ↦
      let q : t ≡ u = ground arith in
      (
        subst (λ x. is_eligible tid state x ≡ true) (sym q) el,
        before,
        after,
        subst (λ x. s.tasks ≡ before ++ x ∷ after) (sym q) e,
        ground arith,
        nb,
      )
]

-- When every queued task has something to run, a round of a worker's loop hands out a task exactly if
-- the queue holds one that its thread may take: one that is bound to no other thread and whose
-- coroutine is not running already. What it hands out is then the first such task of the queue, and
-- behind the round the queue is as before without it.
pub run_round_serves_first :
    (tid : ℤ) (state : ℕ → State) (b : Bool) (s : Scheduler)
    → all has_work s.tasks ≡ true
    → (((t : ScheduleTask) × ((run_round tid state b s).1 ≡ working t b))
        ↔ (any (is_eligible tid state) s.tasks ≡ true))
      × ((t : ScheduleTask)
          → (run_round tid state b s).1 ≡ working t b
          → (is_eligible tid state t ≡ true)
            × (before : List ScheduleTask) × (after : List ScheduleTask) × (s.tasks
                ≡ before ++ t ∷ after)
            × ((run_round tid state b s).0.tasks ≡ before ++ after)
            × (any (is_eligible tid state) before ≡ false))
run_round_serves_first tid state b s h =
    (run_round_works_iff tid state b s h, λ t w. run_round_takes_first tid state b b s t w)

-- No coroutine is running, as when no worker runs a task.
abbrev pub none_runs : ℕ → State
none_runs _ = ready

abbrev pub take : Scheduler → List ScheduleTask → Scheduler
take s ts = record s { tasks = ts; active_thread_count = u64 (s.active_thread_count + 1) }

may_take :
    (tid : ℤ) (t : ScheduleTask) → is_elsewhere tid t ≡ false → is_eligible tid none_runs t ≡ true
unfolding runs_already
may_take tid t h = rw h (elim (Option-cases t.piber) [ inl e ↦ rw e refl | inr (p, e) ↦ rw e refl ])

-- A round on a queue whose first task may be taken.
pub takes_first :
    (tid : ℤ) (state : ℕ → State) (b : Bool) (s : Scheduler) (t : ScheduleTask)
    (ts : List ScheduleTask)
    → s.tasks ≡ t ∷ ts
    → has_work t ≡ true
    → is_eligible tid state t ≡ true
    → run_round tid state b s ≡ (take s ts, working t b, not (is_empty ts))
unfolding run_round
takes_first tid state b s t ts e w h = ground (arith, scan-take tid state t ts h, e)

pub takes_head :
    (tid : ℤ) (b : Bool) (s : Scheduler) (t : ScheduleTask) (ts : List ScheduleTask)
    → s.tasks ≡ t ∷ ts
    → has_work t ≡ true
    → is_elsewhere tid t ≡ false
    → ((run_round tid none_runs b s).0 ≡ take s ts)
      × ((run_round tid none_runs b s).1 ≡ working t b)
takes_head tid b s t ts e w h =
    let r = takes_first tid none_runs b s t ts e w (may_take tid t h) in
    (ap (λ x. x.0) r, ap (λ x. x.1) r)

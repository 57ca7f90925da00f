-- ===== src/Task/Taking.antt =====
-- The tasks that a round of Scheduler::run (synergy/Scheduler.cc) takes from the front of the queue.
use synergy_lib.Prelude.{
  ℕ, refl, arith, none, some, true, false, ◌≡◌, ◌<◌, ◌+◌, List, ◌∷◌, ap, ◌∙◌, ◌≤◌, update,
  Option-cases, inr, inl,
}
use synergy_lib.Prelude.Int.{ℤ}
use synergy_lib.Piber.{State}
use synergy_lib.Scheduler.{Scheduler, ScheduleTask}
use synergy_lib.Task.{
  coroutine_for, comes_back, with_cb_piber, Body, returns, Stack, at_start, in_callback, at_end,
  Fiber, Pool, run_body, set_fiber, entered, continued, new_fiber, run_task, resume_fiber,
}
use synergy_lib.Task.Handles.{Inv, Runs, is_tidy, queued, is_settled}
use synergy_lib.Task.Costs.{
  work, stack_cost, load, load_without, fiber_costs, load_with-ext, load_with-absent, load_with,
  task_cost,
}
use synergy_lib.Task.Outcomes.{comes_to, resumed_to}
use synergy_lib.Task.Rounds.{Round, runs-Round, one_more, dropped}

settled-le :
    (tid : ℤ) (q h : ℕ) (s : State) (count : ℕ) (k : Stack)
    → is_settled tid q h s count k ≡ true
    → q ≤ 1
settled-le tid q h s count (at_start b) e = ground arith
settled-le tid q h s count (in_callback b) e = ground arith
settled-le tid q h s count at_end e = ground arith

pub resume-at_start :
    (p : ℕ) (b : Body) (w : Pool)
    → (w.fibers p).stack ≡ at_start b
    → resume_fiber p w ≡ some (run_body p b (set_fiber p (entered (w.fibers p)) w))
unfolding resume_fiber
resume-at_start p b w m = ground (arith, m)

pub resume-in_callback :
    (p : ℕ) (b : Body) (w : Pool)
    → (w.fibers p).stack ≡ in_callback b
    → resume_fiber p w ≡ some (run_body p b (set_fiber p (continued (w.fibers p)) w))
unfolding resume_fiber
resume-in_callback p b w m = ground (arith, m)

run_task-piber :
    (code : ℕ → Body) (t : ScheduleTask) (p : ℕ) (w : Pool)
    → t.piber ≡ some p
    → run_task code none t w ≡ with_cb_piber code none (comes_back code p (resume_fiber p w))
unfolding run_task coroutine_for
run_task-piber code t p w e = rw (e, run_task) refl

run_task-callback :
    (code : ℕ → Body) (t : ScheduleTask) (f : ℕ) (w : Pool)
    → t.piber ≡ none
    → t.cb ≡ some f
    → run_task code none t w
      ≡ with_cb_piber code none
          (comes_back code w.next_address (resume_fiber w.next_address (new_fiber code f w)))
unfolding run_task coroutine_for
run_task-callback code t f w e k = rw (e, k, run_task) refl

module _ (code : ℕ → Body) (tid : ℤ) (cost h : ℕ → ℕ) (w : Pool) (t : ScheduleTask)
    (ts : List ScheduleTask) (s : Scheduler) (inv : Inv tid h w) (first : w.sched.tasks ≡ t ∷ ts)
    (popped : s.tasks ≡ ts) where
  abbrev pub before : Pool
  before = record w { sched = s }

  -- A coroutine of the queue, set to `x` when it is entered.
  module _ (p : ℕ) (b : Body) (x : Fiber) (is_piber : t.piber ≡ some p) where
    abbrev v : Pool
    v = set_fiber p x before

    own_address : p < w.next_address
    own_address = ground (arith, inv.unused p, first, is_piber)

    once : queued p ts ≡ 0
    once = ground (
      arith,
      settled-le tid (queued p w.sched.tasks) (h p) (w.fibers p).state (w.fibers p).use_count
          (w.fibers p).stack (inv.fibers_settled p own_address),
      first,
      is_piber,
    )

    fiber-Runs : x.use_count ≡ h p + 2 → Runs tid (one_more h p) p false v
    fiber-Runs n = record {
      takeable = ground (arith, inv.takeable, first, popped);
      others_settled = λ q lt ne. ground (arith, inv.fibers_settled q, first, popped, is_piber);
      unused = λ q le. ground (arith, inv.unused q, first, popped, own_address);
      own_queued = ground (arith, once, popped);
      own_count = ground (arith, n);
      own_address = own_address;
    }

    fiber_paid :
        stack_cost cost (w.fibers p).stack ≡ 1 + work cost false b
        → work cost false b + load_without cost p v + 1 ≡ load cost w
    fiber_paid c =
        let g = fiber_costs cost w in
        let e1 : load_without cost p v ≡ load_with cost (update g p 0) s.tasks =
          load_with-ext cost (update (fiber_costs cost v) p 0) (update g p 0) s.tasks
            (λ q. ground arith) in
        let e2 : load_with cost (update g p 0) s.tasks ≡ load_with cost g s.tasks =
          load_with-absent cost g p 0 s.tasks (ground (arith, once, popped)) in
        let e3 : load cost w ≡ task_cost cost g t + load_with cost g ts =
          ap (load_with cost g) first in
        let e4 : task_cost cost g t ≡ 1 + work cost false b = ground (arith, is_piber, c) in
        let e5 : load_with cost g s.tasks ≡ load_with cost g ts = ap (load_with cost g) popped in
        omega (arith, e1, e2, e3, e4, e5)

    fiber-Round :
        x.use_count ≡ h p + 2
        → is_tidy tid false b ≡ true
        → stack_cost cost (w.fibers p).stack ≡ 1 + work cost false b
        → resumed_to (w.fibers p).stack ≡ comes_to false b
        → Round code tid cost h w s (dropped p (run_body p b v))
    fiber-Round n tidy c o =
        runs-Round code tid cost h w s p b v (fiber-Runs n) tidy refl (fiber_paid c) (omega arith)
          (λ lt. ground (arith, o, first, is_piber))
          (λ q ne lt. ground (arith, first, popped, is_piber))
          (λ q le lt. absurd (omega (arith, le, lt)))

  abbrev Done : Type 0
  Done = (u : Pool) × (run_task code none t before ≡ some (u, none)) × Round code tid cost h w s u

  piber-Done : (p : ℕ) (k : Stack) → t.piber ≡ some p → (w.fibers p).stack ≡ k → Done
  piber-Done p (at_start b) e m =
      let x = entered (w.fibers p) in
      let fine = inv.fibers_settled p (own_address p b x e) in
      let q = once p b x e in
      (
        dropped p (run_body p b (v p b x e)),
        run_task-piber code t p before e
            ∙ ap (λ r. with_cb_piber code none (comes_back code p r))
                (resume-at_start p b before m),
        fiber-Round p b x e (ground (arith, fine, m, first, e, q)) (ground (arith, fine, m))
            (ap (stack_cost cost) m) (ap resumed_to m),
      )
  piber-Done p (in_callback b) e m =
      let x = continued (w.fibers p) in
      let fine = inv.fibers_settled p (own_address p b x e) in
      let q = once p b x e in
      (
        dropped p (run_body p b (v p b x e)),
        run_task-piber code t p before e
            ∙ ap (λ r. with_cb_piber code none (comes_back code p r))
                (resume-in_callback p b before m),
        fiber-Round p b x e (ground (arith, fine, m, first, e, q)) (ground (arith, fine, m))
            (ap (stack_cost cost) m) (ap resumed_to m),
      )
  piber-Done p at_end e m =
      let fine = inv.fibers_settled p (own_address p returns (w.fibers p) e) in
      absurd (ground (arith, fine, m, first, e))

  -- A callback of the queue, in the coroutine that is made for it.
  module _ (f : ℕ) (no_piber : t.piber ≡ none) (is_callback : t.cb ≡ some f) where
    abbrev own : ℕ
    own = w.next_address

    abbrev made : Pool
    made = new_fiber code f before

    abbrev into : Pool
    into = set_fiber own (entered (made.fibers own)) made

    callback-Runs : Runs tid (one_more h own) own false into
    unfolding new_fiber
    callback-Runs = record {
      takeable = ground (arith, inv.takeable, first, popped);
      others_settled = λ q lt ne. ground (arith, inv.fibers_settled q, first, popped, no_piber);
      unused = λ q le. ground (arith, inv.unused q, first, popped, no_piber);
      own_queued = ground (arith, inv.unused own, first, popped, no_piber);
      own_count = ground (arith, inv.unused own);
      own_address = omega arith;
    }

    callback_paid :
        cost f ≡ 1 + work cost false (code f)
        → work cost false (code f) + load_without cost own into + 1 ≡ load cost w
    unfolding new_fiber
    callback_paid c =
        let g = fiber_costs cost w in
        let e1 : load_without cost own into ≡ load_with cost (update g own 0) s.tasks =
          load_with-ext cost (update (fiber_costs cost into) own 0) (update g own 0) s.tasks
            (λ q. ground arith) in
        let e2 : load_with cost (update g own 0) s.tasks ≡ load_with cost g s.tasks =
          load_with-absent cost g own 0 s.tasks
            (ground (arith, inv.unused own, first, popped, no_piber)) in
        let e3 : load cost w ≡ task_cost cost g t + load_with cost g ts =
          ap (load_with cost g) first in
        let e4 : task_cost cost g t ≡ cost f = ground (arith, no_piber, is_callback) in
        let e5 : load_with cost g s.tasks ≡ load_with cost g ts = ap (load_with cost g) popped in
        omega (arith, e1, e2, e3, e4, e5)

    begins_code : resume_fiber own made ≡ some (run_body own (code f) into)
    unfolding new_fiber
    begins_code = resume-at_start own (code f) made (ground arith)

    callback-Done : is_tidy tid false (code f) ≡ true → cost f ≡ 1 + work cost false (code f) → Done
    unfolding new_fiber
    callback-Done tidy pays = (
      dropped own (run_body own (code f) into),
      run_task-callback code t f before no_piber is_callback
          ∙ ap (λ r. with_cb_piber code none (comes_back code own r)) begins_code,
      runs-Round code tid cost h w s own (code f) into callback-Runs tidy refl (callback_paid pays)
          (omega arith) (λ lt. absurd (omega (arith, lt)))
          (λ q ne lt. ground (arith, first, popped, no_piber, ne, lt))
          (λ q le lt. (omega (arith, le, lt), f, refl)),
    )

  -- A round that runs the first task of the queue does not fail.
  pub first-Done :
      ((f : ℕ) → is_tidy tid false (code f) ≡ true)
      → ((f : ℕ) → cost f ≡ 1 + work cost false (code f))
      → Done
  first-Done tidy pays = elim (Option-cases t.piber) [
    | inr (p, e) ↦ piber-Done p (w.fibers p).stack e refl
    | inl e ↦ elim (Option-cases t.cb) [
      | inr (f, k) ↦ callback-Done f e k (tidy f) (pays f)
      | inl k ↦ absurd (ground (arith, inv.takeable, first, e, k))
    ]
  ]

-- ===== src/Task/Rounds.antt =====
-- One round of the loop of Scheduler::run (synergy/Scheduler.cc) that runs a task.
use synergy_lib.Prelude.{
  ℕ, arith, true, false, ◌≡◌, ◌≢◌, ◌<◌, ◌+◌, ◌==◌, update, Bool-cases, inl, inr, ◌-◌, ◌≤◌, ◌∙◌, ap,
}
use synergy_lib.Prelude.Int.{ℤ}
use synergy_lib.Piber.{State}
use synergy_lib.Scheduler.{Scheduler, task_returns}
use synergy_lib.Task.{Body, Stack, at_start, in_callback, at_end, Pool, run_body, release}
use synergy_lib.Task.Handles.{Inv, Runs, is_tidy, queued, run_body-Inv, is_settled}
use synergy_lib.Task.Frames.{run_body-SameBut}
use synergy_lib.Task.Outcomes.{comes_to, outcome, run_body-outcome, run_body-others_outcome}
use synergy_lib.Task.Costs.{work, load, load_without, run_body-load, fiber_costs, load_with-ext}

abbrev pub one_more : (ℕ → ℕ) → ℕ → ℕ → ℕ
one_more h p = update h p (h p + 1)

-- The end of the round: the loop drops its pointer.
abbrev pub dropped : ℕ → Pool → Pool
dropped p w = release p (record w { sched = task_returns w.sched })

settled-dropped :
    (tid : ℤ) (q h : ℕ) (s : State) (count : ℕ) (k : Stack)
    → is_settled tid q (h + 1) s count k ≡ true
    → is_settled tid q h s (count - 1) k ≡ true
settled-dropped tid q h s count (at_start b) e = ground arith
settled-dropped tid q h s count (in_callback b) e = ground arith
settled-dropped tid q h s count at_end e = ground arith

dropped-Inv :
    (tid : ℤ) (h : ℕ → ℕ) (p : ℕ) (w : Pool)
    → Inv tid (one_more h p) w
    → p < w.next_address
    → Inv tid h (dropped p w)
unfolding release task_returns
dropped-Inv tid h p w v lt = record {
  takeable = v.takeable;
  fibers_settled = λ q k. ground (
    arith,
    v.fibers_settled q,
    settled-dropped tid (queued q w.sched.tasks) (h q) (w.fibers q).state (w.fibers q).use_count
        (w.fibers q).stack,
  );
  unused = λ q k. ground (arith, v.unused q, lt);
}

-- What a round does that runs a task, from the pool before it: `s` is the scheduler without the task.
-- The loop will come to the same stacks as before, and to those of a callback for a new coroutine.
pub record Round (code : ℕ → Body) (tid : ℤ) (cost h : ℕ → ℕ) (w : Pool) (s : Scheduler) (u : Pool)
    : Type 0 where
  pub inv : Inv tid h u
  pub falls : load cost u + 1 ≡ load cost w
  pub scheduler : u.sched ≡ record (task_returns s) { tasks = u.sched.tasks }
  pub grows : w.next_address ≤ u.next_address
  pub keeps : (q : ℕ) → q < w.next_address → outcome q u ≡ outcome q w
  pub makes :
      (q : ℕ)
      → w.next_address ≤ q
      → q < u.next_address
      → (f : ℕ) × (outcome q u ≡ comes_to false (code f))

-- The callback of `p` runs from the pool `v` on, which the round has come to from `w`.
module _ (code : ℕ → Body) (tid : ℤ) (cost h : ℕ → ℕ) (w : Pool) (s : Scheduler) (p : ℕ) (b : Body)
    (v : Pool) (runs : Runs tid (one_more h p) p false v) (tidy : is_tidy tid false b ≡ true)
    (same : v.sched ≡ s) (paid : work cost false b + load_without cost p v + 1 ≡ load cost w)
    (grew : w.next_address ≤ v.next_address)
    (own : p < w.next_address → comes_to false b ≡ outcome p w)
    (others : (q : ℕ) → q ≢ p → q < w.next_address → outcome q v ≡ outcome q w)
    (news : (q : ℕ)
      → w.next_address ≤ q
      → q < v.next_address
      → (q ≡ p) × (f : ℕ) × (b ≡ code f)) where
  abbrev pub after : Pool
  after = run_body p b v

  after-Inv : Inv tid (one_more h p) after
  after-Inv = run_body-Inv tid (one_more h p) p b false v runs tidy

  after_address : after.next_address ≡ v.next_address
  after_address = (run_body-SameBut p b v).addresses

  own_outcome : outcome p (dropped p after) ≡ comes_to false b
  unfolding release task_returns
  own_outcome = ground (arith, run_body-outcome tid p b false v runs.own_queued tidy)

  other_outcome : (q : ℕ) → q ≢ p → outcome q (dropped p after) ≡ outcome q v
  unfolding release task_returns
  other_outcome q ne = ground (arith, run_body-others_outcome p q b v ne, ne)

  pub runs-Round : Round code tid cost h w s (dropped p after)
  unfolding release task_returns
  runs-Round = record {
    inv = dropped-Inv tid h p after after-Inv (omega (arith, runs.own_address, after_address));
    falls = omega (
      arith,
      paid,
      run_body-load cost tid p b false v runs.own_queued tidy,
      load_with-ext cost (fiber_costs cost (dropped p after)) (fiber_costs cost after)
          after.sched.tasks (λ q. ground arith),
    );
    scheduler = ground (arith, (run_body-SameBut p b v).scheduler, same);
    grows = omega (arith, grew, after_address);
    keeps = λ q lt. elim (Bool-cases (q == p)) [
      | inl k ↦ ground (arith, own_outcome, own, k, lt)
      | inr k ↦ other_outcome q (ground (arith, k)) ∙ others q (ground (arith, k)) lt
    ];
    makes = λ q le lt.
        let (same_address, f, e) = news q le (omega (arith, lt, after_address)) in
        (
          f,
          ap (λ r. outcome r (dropped p after)) same_address
              ∙ (own_outcome ∙ ap (comes_to false) e),
        );
  }

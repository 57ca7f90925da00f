-- ===== src/Task/Serving.antt =====
-- The rounds of the loop of Scheduler::run (synergy/Scheduler.cc) with its coroutines, to its end.
use synergy_lib.Prelude.{
  ℕ, suc, refl, arith, some, true, false, ◌≡◌, ◌<◌, ◌≤◌, ◌+◌, List, [], ◌∷◌, ap, ◌∙◌, u64_mod, zero,
  Option-cases, inl, inr, none, Bool-cases, ltb,
}
use synergy_lib.Prelude.Int.{ℤ}
use synergy_lib.Piber.{State}
use synergy_lib.Scheduler.{ScheduleTask, has_work, task_returns, runs_already, is_runing}
use synergy_lib.Scheduler.Queue.{take, is_eligible}
use synergy_lib.Task.{Body, Stack, at_start, in_callback, at_end, Pool, serve}
use synergy_lib.Task.Handles.{Inv, is_tidy, queued, is_settled}
use synergy_lib.Task.Costs.{work, load, load_with, fiber_costs}
use synergy_lib.Task.Outcomes.{comes_to, outcome}
use synergy_lib.Task.Rounds.{Round}
use synergy_lib.Task.Taking.{first-Done}
use synergy_lib.Task.Passes.{serve-first, serve-empty, serve-idle}

-- The pointers on the coroutine's own stack in a yield(): that of MainFunc and that of GetThis().
abbrev pub own_pointers : Stack → ℕ
own_pointers (at_start b) = 0
own_pointers (in_callback b) = 2
own_pointers at_end = 0

pub settled-quiet :
    (tid : ℤ) (q h : ℕ) (s : State) (count : ℕ) (k : Stack)
    → is_settled tid q h s count k ≡ true
    → (is_runing s ≡ false) × (q ≡ 0 → count ≡ h + own_pointers k)
settled-quiet tid q h s count (at_start b) e = ground arith
settled-quiet tid q h s count (in_callback b) e = ground arith
settled-quiet tid q h s count at_end e = ground arith

module _ (code : ℕ → Body) (tid : ℤ) (cost h : ℕ → ℕ)
    (tidy : (f : ℕ) → is_tidy tid false (code f) ≡ true)
    (pays : (f : ℕ) → cost f ≡ 1 + work cost false (code f)) where
  -- The loop's state between two rounds, when stop() has been called.
  pub record Stopped (w : Pool) : Type 0 where
    pub inv : Inv tid h w
    pub flagged : w.sched.stopping ≡ true
    pub none_active : w.sched.active_thread_count ≡ 0
    pub idle_count : w.sched.idle_thread_count < u64_mod

  pub record Served (w u : Pool) : Type 0 where
    pub inv : Inv tid h u
    pub drained : u.sched ≡ record w.sched { tasks = [] }
    pub grows : w.next_address ≤ u.next_address
    pub keeps : (q : ℕ) → q < w.next_address → outcome q u ≡ outcome q w
    pub makes :
        (q : ℕ)
        → w.next_address ≤ q
        → q < u.next_address
        → (f : ℕ) × (outcome q u ≡ comes_to false (code f))

  Round-Stopped :
      (w u : Pool) (ts : List ScheduleTask)
      → Stopped w
      → Round code tid cost h w (take w.sched ts) u
      → Stopped u × (u.sched ≡ record w.sched { tasks = u.sched.tasks })
  unfolding task_returns
  Round-Stopped w u ts v r = (
    record {
      inv = r.inv;
      flagged = ground (arith, r.scheduler, v.flagged);
      none_active = ground (arith, r.scheduler, v.none_active);
      idle_count = ground (arith, r.scheduler, v.idle_count);
    },
    ground (arith, r.scheduler, v.none_active),
  )

  -- The rounds that follow come to the same stacks.
  Served-trans :
      (w u z : Pool) (ts : List ScheduleTask)
      → Round code tid cost h w (take w.sched ts) u
      → u.sched ≡ record w.sched { tasks = u.sched.tasks }
      → Served u z
      → Served w z
  Served-trans w u z ts r same s = record {
    inv = s.inv;
    drained = ground (arith, s.drained, same);
    grows = omega (arith, r.grows, s.grows);
    keeps = λ q lt. s.keeps q (omega (arith, lt, r.grows)) ∙ r.keeps q lt;
    makes = λ q le lt. elim (Bool-cases (ltb q u.next_address)) [
      | inr k ↦ s.makes q (ground (arith, k)) lt
      | inl k ↦
          let (f, e) = r.makes q le (ground (arith, k)) in (f, s.keeps q (ground (arith, k)) ∙ e)
    ];
  }

  -- No queued coroutine is running.
  none_runs :
      (w : Pool) (t : ScheduleTask) (ts : List ScheduleTask)
      → Inv tid h w
      → w.sched.tasks ≡ t ∷ ts
      → runs_already (λ q. (w.fibers q).state) t ≡ false
  unfolding runs_already
  none_runs w t ts v e = elim (Option-cases t.piber) [
    | inl k ↦ ground (arith, k)
    | inr (p, k) ↦
        let lt : p < w.next_address = ground (arith, v.unused p, e, k) in
        let x = w.fibers p in
        ground (
          arith,
          k,
          settled-quiet tid (queued p w.sched.tasks) (h p) x.state x.use_count x.stack
              (v.fibers_settled p lt),
        )
  ]

  eligible :
      (w : Pool) (t : ScheduleTask) (ts : List ScheduleTask)
      → Inv tid h w
      → w.sched.tasks ≡ t ∷ ts
      → (has_work t ≡ true) × (is_eligible tid (λ q. (w.fibers q).state) t ≡ true)
  eligible w t ts v e =
      (ground (arith, v.takeable, e), ground (arith, v.takeable, e, none_runs w t ts v e))

  pub serves :
      (fuel : ℕ) (w : Pool) (ts : List ScheduleTask)
      → w.sched.tasks ≡ ts
      → Stopped w
      → load cost w + 2 ≤ fuel
      → (u : Pool) × (serve code fuel tid false none w ≡ some u) × Served w u
  serves zero w ts e v enough = absurd (omega (arith, enough))
  serves (suc zero) w ts e v enough = absurd (omega (arith, enough))
  serves (suc (suc fuel)) w [] e v enough = (
    w,
    serve-empty code fuel tid w e v.flagged v.none_active v.idle_count,
    record {
      inv = v.inv;
      drained = ground (arith, e);
      grows = omega arith;
      keeps = λ q lt. refl;
      makes = λ q le lt. absurd (omega (arith, le, lt));
    },
  )
  serves (suc (suc fuel)) w (t ∷ ts) e v enough =
      let (u, runs, r) =
        first-Done code tid cost h w t ts (take w.sched ts) v.inv e refl tidy pays in
      let (work_there, free) = eligible w t ts v.inv e in
      let (v', same) = Round-Stopped w u ts v r in
      let (z, ends, s) =
        serves (suc fuel) u u.sched.tasks refl v' (omega (arith, enough, r.falls)) in
      (
        z,
        serve-first code (suc fuel) tid false w u t ts e work_there free runs ∙ ends,
        Served-trans w u z ts r same s,
      )

  -- With fewer rounds it does not end.
  pub serves_not :
      (fuel : ℕ) (w : Pool) (ts : List ScheduleTask)
      → w.sched.tasks ≡ ts
      → Stopped w
      → fuel < load cost w + 2
      → serve code fuel tid false none w ≡ none
  unfolding serve
  serves_not zero w ts e v few = refl
  serves_not (suc zero) w [] e v few = serve-idle code tid w e v.flagged v.none_active
  serves_not (suc (suc fuel)) w [] e v few =
      absurd (omega (arith, few, ap (load_with cost (fiber_costs cost w)) e))
  serves_not (suc fuel) w (t ∷ ts) e v few =
      let (u, runs, r) =
        first-Done code tid cost h w t ts (take w.sched ts) v.inv e refl tidy pays in
      let (work_there, free) = eligible w t ts v.inv e in
      serve-first code fuel tid false w u t ts e work_there free runs
      ∙ serves_not fuel u u.sched.tasks refl (Round-Stopped w u ts v r).0
          (omega (arith, few, r.falls))

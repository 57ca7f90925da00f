-- ===== src/Task/OnObjects.antt =====
-- One task of the loop of Scheduler::run (synergy/Scheduler.cc), in Task and on the objects of Piber.
use synergy_lib.Prelude.{
  ℕ, Option, none, some, true, ◌≡◌, ◌⊎◌, inl, inr, refl, sym, ◌∙◌, subst, arith, Option-cases, ap,
  all, ◌+◌,
}
use synergy_lib.Scheduler.{ScheduleTask, task_returns, runs_already, Scheduler}
use synergy_lib.Task.{
  Body, Stack, at_end, Pool, new_fiber, reset_fiber, resume_fiber, release, comes_back,
  with_cb_piber, coroutine_for, run_task,
}
use synergy_lib.Task.Switches.{Objects, acts, acts_on, resumes}
use synergy_lib.Task.Standing.{HasPlaces, StandsFor, Stands}
use synergy_lib.Task.Refines.{acts_alike, resets-StandsFor, makes-StandsFor}
use synergy_lib.Task.Loop.{returned, object_for, run_on_objects}
use synergy_lib.Task.Owned.{is_own, task_is_own, Owned, queue-grows, resume-own}

module _ (code : ℕ → Body) (place : Stack → ℕ) (at : ℕ → Stack) (loop : ℕ) where
  -- A queued coroutine is running in Task exactly if its object is.
  pub alike_running :
      (w : Pool) (o : Objects) (t : ScheduleTask)
      → StandsFor code place at loop w o
      → task_is_own loop w.next_address t ≡ true
      → runs_already (λ q. (o.machine.heap q).state) t ≡ runs_already (λ q. (w.fibers q).state) t
  unfolding runs_already
  alike_running w o t sim own = elim (Option-cases t.piber) [
    | inl e ↦ rw e refl
    | inr (p, e) ↦
        ground (arith, e, (sim.alike p (ground (arith, own, e)) (ground (arith, own, e))).state)
  ]

  -- A write to the scheduler of both, and to the use count of one coroutine.
  dropped-StandsFor :
      (p : ℕ) (w : Pool) (o : Objects)
      → StandsFor code place at loop w o
      → StandsFor code place at loop
          (release p (record w { sched = task_returns w.sched }))
          (record o { sched = task_returns o.sched })
  unfolding release
  dropped-StandsFor p w o sim = record {
    scheduler = ap task_returns sim.scheduler;
    addresses = sim.addresses;
    scheduler_piber = sim.scheduler_piber;
    alike = λ q lt ne.
        let a = sim.alike q lt ne in
        record {
          state = a.state ∙ ground arith;
          in_scheduler = a.in_scheduler;
          stack =
              subst (λ k. Stands code place at loop k (o.machine.heap q).ctx (o.machine.heap q).cb)
                {x = (w.fibers q).stack} (ground arith) a.stack;
        };
  }

  pub in_step :
      (w : Pool) (o : Objects) (s t : Scheduler)
      → StandsFor code place at loop w o
      → s ≡ t
      → StandsFor code place at loop (record w { sched = s }) (record o { sched = t })
  in_step w o s t sim e = record {
    scheduler = sym e;
    addresses = sim.addresses;
    scheduler_piber = sim.scheduler_piber;
    alike = sim.alike;
  }

  module _ (places : (f : ℕ) → HasPlaces code place at loop (code f))
      (ends : at (place at_end) ≡ at_end) (here : ℕ) where
    -- Both go on with the loop.
    abbrev pub BothGo : Option (Pool × Option ℕ) → Option (Objects × Option ℕ) → Type 0
    BothGo x y =
        (u : Pool) × (c : Option ℕ) × (o' : Objects) × (x ≡ some (u, c))
        × (y ≡ some (o', c))
        × StandsFor code place at loop u o'
        × Owned loop c u

    abbrev pub BothStop : Option (Pool × Option ℕ) → Option (Objects × Option ℕ) → Type 0
    BothStop x y = (x ≡ none) × (y ≡ none)

    resumed_alike :
        (p : ℕ) (c : Option ℕ) (w : Pool) (o : Objects)
        → StandsFor code place at loop w o
        → Owned loop c w
        → is_own loop w.next_address (some p) ≡ true
        → BothGo
            (with_cb_piber code c (comes_back code p (resume_fiber p w)))
            (returned c (acts code place at (resumes p here) o))
          ⊎ BothStop
              (with_cb_piber code c (comes_back code p (resume_fiber p w)))
              (returned c (acts code place at (resumes p here) o))
    unfolding acts_on
    resumed_alike p c w o sim own mine =
        elim (acts_alike code place at loop places ends (resumes p here) w o sim
          (ground (arith, mine), ground (arith, mine))) [
            | inr (e, f) ↦ inr (rw e refl, rw f refl)
            | inl (u, o', e, f, sim', same) ↦ inl (
              release p (record u { sched = task_returns u.sched }),
              c,
              record o' { sched = task_returns o'.sched },
              rw e refl,
              rw f refl,
              dropped-StandsFor p u o' sim',
              unfold release task_returns in
                  record {
                    queue =
                        subst (λ n. all (task_is_own loop n) u.sched.tasks ≡ true) (sym same)
                          (resume-own loop w.next_address p (w.fibers p).stack w u refl e mine
                            own.queue);
                    kept = subst (λ n. is_own loop n c ≡ true) (sym same) own.kept;
                    loop_below = omega (arith, own.loop_below, same);
                  },
            )
          ]

    -- The coroutine that the loop takes for a callback.
    taken_alike :
        (c : Option ℕ) (f : ℕ) (w : Pool) (o : Objects)
        → StandsFor code place at loop w o
        → Owned loop c w
        → ((object_for c f o).0 ≡ (coroutine_for code c f w).0)
          × StandsFor code place at loop (coroutine_for code c f w).1 (object_for c f o).1
          × Owned loop none (coroutine_for code c f w).1
          × (is_own loop
                (coroutine_for code c f w).1.next_address
                (some (coroutine_for code c f w).0)
              ≡ true)
    unfolding coroutine_for object_for new_fiber reset_fiber
    taken_alike (some p) f w o sim own = (
      refl,
      resets-StandsFor code place at loop p f w o sim (ground (arith, own.kept))
          (ground (arith, own.kept)),
      record { queue = own.queue; kept = refl; loop_below = own.loop_below },
      own.kept,
    )
    taken_alike none f w o sim own = (
      sim.addresses,
      makes-StandsFor code place at loop f w o sim,
      record {
        queue =
            queue-grows loop w.next_address (w.next_address + 1) w.sched.tasks (omega arith)
              own.queue;
        kept = refl;
        loop_below = omega (arith, own.loop_below);
      },
      ground (arith, own.loop_below),
    )

    pub run_alike :
        (c : Option ℕ) (t : ScheduleTask) (w : Pool) (o : Objects)
        → StandsFor code place at loop w o
        → Owned loop c w
        → task_is_own loop w.next_address t ≡ true
        → BothGo (run_task code c t w) (run_on_objects code place at here c t o)
          ⊎ BothStop (run_task code c t w) (run_on_objects code place at here c t o)
    unfolding run_task run_on_objects
    run_alike c t w o sim own mine = elim (Option-cases t.piber) [
      | inr (p, e) ↦
          rw e (resumed_alike p c w o sim own (ap (is_own loop w.next_address) (sym e) ∙ mine))
      | inl e ↦ elim (Option-cases t.cb) [
        | inl k ↦ rw (e, k) (inl (w, c, o, refl, refl, sim, own))
        | inr (f, k) ↦
            let (same, sim', own', mine') = taken_alike c f w o sim own in
            rw (e, k, same)
              (resumed_alike (coroutine_for code c f w).0 none (coroutine_for code c f w).1
                (object_for c f o).1 sim' own' mine')
      ]
    ]

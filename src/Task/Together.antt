-- ===== src/Task/Together.antt =====
-- The loop of Scheduler::run (synergy/Scheduler.cc) to its end, in Task and on the objects of Piber.
use synergy_lib.Prelude.{
  ℕ, zero, suc, Option, none, some, Bool, true, ◌≡◌, inl, inr, refl, sym, ◌∙◌, subst, ap,
}
use synergy_lib.Prelude.Int.{ℤ}
use synergy_lib.Scheduler.{
  ScheduleTask, looking, working, idling, ended, run_round, idle_returns, Phase, empty_task,
  Scheduler,
}
use synergy_lib.Task.{Body, Stack, at_end, Pool, run_task, serve}
use synergy_lib.Task.Switches.{Objects}
use synergy_lib.Task.Standing.{HasPlaces, StandsFor}
use synergy_lib.Task.Refines.{Agree}
use synergy_lib.Task.Loop.{run_on_objects, serve_objects}
use synergy_lib.Task.Owned.{same_round, round-all, task_is_own, Owned}
use synergy_lib.Task.OnObjects.{alike_running, in_step, run_alike}

module _ (code : ℕ → Body) (place : Stack → ℕ) (at : ℕ → Stack) (loop : ℕ)
    (places : (f : ℕ) → HasPlaces code place at loop (code f)) (ends : at (place at_end) ≡ at_end)
    (here : ℕ) where
  -- A round of both searches the queue alike.
  round_alike :
      (tid : ℤ) (b : Bool) (c : Option ℕ) (w : Pool) (o : Objects)
      → StandsFor code place at loop w o
      → Owned loop c w
      → run_round tid (λ q. (o.machine.heap q).state) b o.sched
        ≡ run_round tid (λ q. (w.fibers q).state) b w.sched
  round_alike tid b c w o sim own =
      ap (run_round tid (λ q. (o.machine.heap q).state) b) sim.scheduler
      ∙ same_round tid (λ q. (o.machine.heap q).state) (λ q. (w.fibers q).state) b w.sched
          (task_is_own loop w.next_address) (λ t h. alike_running code place at loop w o t sim h)
          own.queue

  -- What the loops do behind the search of a round.
  abbrev behind : ℕ → ℤ → Option ℕ → Pool → Scheduler × Phase × Bool → Option Pool
  behind fuel tid c w r = elim r.1 [
    | looking b ↦ none
    | working t b ↦ elim (run_task code c t (record w { sched = r.0 })) [
      | none ↦ none
      | some (u, c') ↦ serve code fuel tid b c' u
    ]
    | idling ↦
        serve code fuel tid (idle_returns r.0).1 c (record w { sched = (idle_returns r.0).0 })
    | ended ↦ some (record w { sched = r.0 })
  ]

  abbrev objects_behind : ℕ → ℤ → Option ℕ → Objects → Scheduler × Phase × Bool → Option Objects
  objects_behind fuel tid c o r = elim r.1 [
    | looking b ↦ none
    | working t b ↦ elim (run_on_objects code place at here c t (record o { sched = r.0 })) [
      | none ↦ none
      | some (v, c') ↦ serve_objects code place at here fuel tid b c' v
    ]
    | idling ↦
        serve_objects code place at here fuel tid (idle_returns r.0).1 c
          (record o { sched = (idle_returns r.0).0 })
    | ended ↦ some (record o { sched = r.0 })
  ]

  serve_objects-behind :
      (fuel : ℕ) (tid : ℤ) (b : Bool) (c : Option ℕ) (o : Objects)
      → serve_objects code place at here (suc fuel) tid b c o
        ≡ objects_behind fuel tid c o (run_round tid (λ q. (o.machine.heap q).state) b o.sched)
  unfolding serve_objects
  serve_objects-behind fuel tid b c o = refl

  -- Both go on alike behind the search, if they do in the rounds that follow.
  behind-Agree :
      (fuel : ℕ) (tid : ℤ) (c : Option ℕ) (w : Pool) (o : Objects) (s : Scheduler) (x : Phase)
      (k : Bool)
      → StandsFor code place at loop (record w { sched = s }) (record o { sched = s })
      → Owned loop c (record w { sched = s })
      → ((t : ScheduleTask) (b : Bool) → x ≡ working t b → task_is_own loop w.next_address t ≡ true)
      → ((b : Bool) (c' : Option ℕ) (u : Pool) (v : Objects)
          → StandsFor code place at loop u v
          → Owned loop c' u
          → Agree code place at loop
              (serve code fuel tid b c' u)
              (serve_objects code place at here fuel tid b c' v))
      → Agree code place at loop
          (behind fuel tid c w (s, x, k))
          (objects_behind fuel tid c o (s, x, k))
  behind-Agree fuel tid c w o s (looking b) k sim own mine again = unfold Agree in tt
  behind-Agree fuel tid c w o s (working t b) k sim own mine again =
      elim (run_alike code place at loop places ends here c t (record w { sched = s })
        (record o { sched = s }) sim own (mine t b refl)) [
          | inl (u, c', v, e, f, sim', own') ↦
              rw (e, f, behind, objects_behind) (again b c' u v sim' own')
          | inr (e, f) ↦ rw (e, f, behind, objects_behind) (unfold Agree in tt)
        ]
  behind-Agree fuel tid c w o s idling k sim own mine again =
      again (idle_returns s).1 c (record w { sched = (idle_returns s).0 })
        (record o { sched = (idle_returns s).0 })
        (in_step code place at loop (record w { sched = s }) (record o { sched = s })
          (idle_returns s).0 (idle_returns s).0 sim refl)
        (unfold idle_returns in
          record { queue = own.queue; kept = own.kept; loop_below = own.loop_below })
  behind-Agree fuel tid c w o s ended k sim own mine again = unfold Agree in sim

  -- The loop of Scheduler::run on one thread is run in Task and on the objects of Piber, which stand for
  -- each other at the start, in any thread, before or behind the end of the idle coroutine, and for any
  -- bound on the rounds. The coroutines of the queue, and the one that the loop keeps for the next
  -- callback, exist and are not that of the loop, whose address new coroutines do not take; every
  -- yield() of the callbacks has a place of its own that leads back to what follows it, and the place
  -- behind the yield() of MainFunc leads to the end. Then neither run ends within the bound, or both
  -- do, in states that stand for each other again: the same scheduler, and for each coroutine but that
  -- of the loop the same m_state, and a context (and m_cb) that continues with what Task says the
  -- coroutine goes on with.
  pub serve-refines :
      (fuel : ℕ) (tid : ℤ) (b : Bool) (c : Option ℕ) (w : Pool) (o : Objects)
      → StandsFor code place at loop w o
      → Owned loop c w
      → Agree code place at loop
          (serve code fuel tid b c w)
          (serve_objects code place at here fuel tid b c o)
  unfolding serve serve_objects
  serve-refines zero tid b c w o sim own = unfold Agree in tt
  serve-refines (suc fuel) tid b c w o sim own =
      let r = run_round tid (λ q. (w.fibers q).state) b w.sched in
      let (queue, mine) =
        round-all tid (λ q. (w.fibers q).state) b w.sched (task_is_own loop w.next_address)
          (unfold empty_task in refl) own.queue in
      subst (Agree code place at loop (serve code (suc fuel) tid b c w))
        (sym (
          serve_objects-behind fuel tid b c o
          ∙ ap (objects_behind fuel tid c o) (round_alike tid b c w o sim own)))
        (behind-Agree fuel tid c w o r.0 r.1 r.2 (in_step code place at loop w o r.0 r.0 sim refl)
          (record { queue = queue; kept = own.kept; loop_below = own.loop_below }) mine
          (λ b' c' u v sim' own'. serve-refines fuel tid b' c' u v sim' own'))

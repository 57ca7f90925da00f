-- ===== src/Task/Served.antt =====
-- How the loop of Scheduler::run (synergy/Scheduler.cc) ends on the objects of Piber.
use synergy_lib.Prelude.{
  ℕ, Option, none, some, true, false, ◌≡◌, ◌≢◌, ◌<◌, ◌≤◌, refl, ◌∙◌, subst, arith, ap, ◌+◌, u64_mod,
  [], some-injective,
}
use synergy_lib.Prelude.Int.{ℤ}
use synergy_lib.Task.{Body, at_start, in_callback, Stack, at_end, Pool, serve, State, ready, term}
use synergy_lib.Task.Switches.{Objects}
use synergy_lib.Task.Standing.{HasPlaces, StandsFor, Stands}
use synergy_lib.Task.Refines.{Agree}
use synergy_lib.Task.Loop.{serve_objects}
use synergy_lib.Task.Owned.{Owned}
use synergy_lib.Task.Handles.{is_settled, Inv, is_tidy, queued}
use synergy_lib.Task.Costs.{work, load}
use synergy_lib.Task.Outcomes.{outcome, comes_to}
use synergy_lib.Task.Serving.{Stopped, serves}
use synergy_lib.Task.Together.{serve-refines}

-- m_state of a coroutine that stands there between two rounds.
abbrev pub state_at : Stack → State
state_at (at_start b) = ready
state_at (in_callback b) = ready
state_at at_end = term

settled-state_at :
    (tid : ℤ) (q h : ℕ) (s : State) (count : ℕ) (k : Stack)
    → is_settled tid q h s count k ≡ true
    → s ≡ state_at k
settled-state_at tid q h s count (at_start b) e = ground arith
settled-state_at tid q h s count (in_callback b) e = ground arith
settled-state_at tid q h s count at_end e = ground arith

module _ (code : ℕ → Body) (place : Stack → ℕ) (at : ℕ → Stack) (loop : ℕ) where
  agreed :
      (u : Pool) (x : Option Pool) (y : Option Objects)
      → x ≡ some u
      → Agree code place at loop x y
      → (v : Objects) × (y ≡ some v) × StandsFor code place at loop u v
  unfolding Agree
  agreed u none y e a = absurd cc
  agreed u (some x) none e a = absurd a
  agreed u (some x) (some v) e a =
      (v, refl, subst (λ z. StandsFor code place at loop z v) (some-injective e) a)

  -- Where a coroutine stands when the queue is empty.
  abbrev pub StandsAt : Objects → ℕ → Stack → Type 0
  StandsAt v p k =
      Stands code place at loop k (v.machine.heap p).ctx (v.machine.heap p).cb
      × ((v.machine.heap p).state ≡ state_at k)

  outcome-StandsAt :
      (tid : ℤ) (h : ℕ → ℕ) (u : Pool) (v : Objects) (p : ℕ) (k : Stack)
      → StandsFor code place at loop u v
      → Inv tid h u
      → u.sched.tasks ≡ []
      → p < u.next_address
      → p ≢ loop
      → outcome p u ≡ k
      → StandsAt v p k
  outcome-StandsAt tid h u v p k sim inv empty lt ne is =
      let a = sim.alike p lt ne in
      let x = u.fibers p in
      let stands : x.stack ≡ k = ground (arith, is, empty) in
      (
        subst (λ k. Stands code place at loop k (v.machine.heap p).ctx (v.machine.heap p).cb) stands
            a.stack,
        a.state
            ∙ (settled-state_at tid (queued p u.sched.tasks) (h p) x.state x.use_count x.stack
                  (inv.fibers_settled p lt)
                ∙ ap state_at stands),
      )

  module _ (places : (f : ℕ) → HasPlaces code place at loop (code f))
      (ends : at (place at_end) ≡ at_end) (here : ℕ) where
    -- The loop of Scheduler::run on the objects of Piber, which at the start stand for coroutines
    -- of Task. The conditions: every yield() of the callbacks has a place of its own that leads
    -- back to what follows it, and the place behind the yield() of MainFunc leads to the end; the
    -- coroutines of the queue exist and are not that of the loop, whose address new coroutines do
    -- not take; stop() has been called, and the thread `tid` may take every task of the queue; the
    -- callbacks schedule only such tasks, schedule their coroutine at most once before a yield()
    -- and not before their end, and bring about a fixed number of rounds each; and the bound on
    -- the rounds is at least two more than the tasks of the queue bring about. Then the loop ends:
    -- no null pointer is used, no coroutine is resumed behind its end, and every switch comes back
    -- to the loop. The queue is then empty and the counters are as they were. Each coroutine that
    -- was there, but that of the loop, has a context that continues where Task says it comes to,
    -- and is TERM if that is its end and READY if not; and so has each that was made for a
    -- callback.
    pub objects_served :
        (tid : ℤ) (cost h : ℕ → ℕ)
        → ((f : ℕ) → is_tidy tid false (code f) ≡ true)
        → ((f : ℕ) → cost f ≡ 1 + work cost false (code f))
        → (fuel : ℕ) (w : Pool) (o : Objects) → StandsFor code place at loop w o
        → Owned loop none w
        → Inv tid h w
        → w.sched.stopping ≡ true
        → w.sched.active_thread_count ≡ 0
        → w.sched.idle_thread_count < u64_mod
        → load cost w + 2 ≤ fuel
        → (v : Objects) × (serve_objects code place at here fuel tid false none o ≡ some v)
          × (v.sched ≡ record o.sched { tasks = [] })
          × ((p : ℕ) → p < w.next_address → p ≢ loop → StandsAt v p (outcome p w))
          × ((p : ℕ)
              → w.next_address ≤ p
              → p < v.next_address
              → (f : ℕ) × StandsAt v p (comes_to false (code f)))
    objects_served tid cost h tidy pays fuel w o sim own inv f a i enough =
        let stopped : Stopped code tid cost h tidy pays w = record {
          inv = inv;
          flagged = f;
          none_active = a;
          idle_count = i;
        } in
        let (u, runs, s) =
          serves code tid cost h tidy pays fuel w w.sched.tasks refl stopped enough in
        let (v, e, sim') =
          agreed u (serve code fuel tid false none w)
            (serve_objects code place at here fuel tid false none o) runs
            (serve-refines code place at loop places ends here fuel tid false none w o sim own) in
        (
          v,
          e,
          ground (arith, sim'.scheduler, s.drained, sim.scheduler),
          λ p lt ne.
              outcome-StandsAt tid h u v p (outcome p w) sim' s.inv (ap (λ x. x.tasks) s.drained)
                (omega (arith, lt, s.grows)) ne (s.keeps p lt),
          λ p le lt.
              let there : p < u.next_address = omega (arith, lt, sim'.addresses) in
              let (f, e) = s.makes p le there in
              (
                f,
                outcome-StandsAt tid h u v p (comes_to false (code f)) sim' s.inv
                    (ap (λ x. x.tasks) s.drained) there (omega (arith, le, own.loop_below)) e,
              ),
        )

-- ===== src/Task/Refines.antt =====
-- Runs of coroutines on the objects of Piber (synergy/Piber.cc) and in Task.
use synergy_lib.Prelude.{
  inr, inl, ℕ, ◌≡◌, Option, ◌≢◌, some, refl, ◌<◌, true, Bool-cases, ◌==◌, subst, arith, ◌∙◌, List,
  sym, none, ◌⊎◌, ◌+◌, [], ◌∷◌, ◌*◌, ◌%◌, ◌^◌, ap,
}
use synergy_lib.Piber
use synergy_lib.Piber.{Machine, main_func, new_piber, ready}
use synergy_lib.Task.{Body, Stack, at_start, at_end, Pool, Fiber, new_fiber, reset_fiber}
use synergy_lib.Task.Switches.{
  Objects, act_all, act_all_on, made, acts, acts_on, Action, makes, resets, resumes,
}
use synergy_lib.Task.Standing.{HasPlaces, Alike, StandsFor, turns_alike}

-- The address for the next coroutine behind an action.
abbrev pub grows : Action → ℕ → ℕ
grows (makes f) next = next + 1
grows (resets p f) next = next
grows (resumes p here) next = next

module _ (loop : ℕ) where
  -- An action on a coroutine that is there and is not the loop's.
  abbrev pub IsAllowed : Action → ℕ → Type 0
  IsAllowed (makes f) next = Unit
  IsAllowed (resets p f) next = (p < next) × (p ≢ loop)
  IsAllowed (resumes p here) next = (p < next) × (p ≢ loop)

  abbrev pub AreAllowed : List Action → ℕ → Type 0
  AreAllowed [] next = Unit
  AreAllowed (a ∷ rest) next = IsAllowed a next × AreAllowed rest (grows a next)

module _ (code : ℕ → Body) (place : Stack → ℕ) (at : ℕ → Stack) (loop : ℕ) where
  -- Both end the thread, or both go on in states that stand for each other.
  unfoldable pub Agree : Option Pool → Option Objects → Type 0
  Agree none none = Unit
  Agree none (some o) = ⊥
  Agree (some w) none = ⊥
  Agree (some w) (some o) = StandsFor code place at loop w o

  -- A coroutine that starts at MainFunc in both.
  starts-StandsFor :
      (p : ℕ) (w v : Pool) (o o' : Objects)
      → StandsFor code place at loop w o
      → (v.sched ≡ w.sched) × (o'.sched ≡ o.sched)
      → o'.next_address ≡ v.next_address
      → o'.machine.t_scheduler_piber ≡ o.machine.t_scheduler_piber
      → (x : Fiber) (y : Piber.Piber) → Alike code place at loop x y
      → v.fibers p ≡ x
      → o'.machine.heap p ≡ y
      → ((q : ℕ) → q ≢ p → (v.fibers q ≡ w.fibers q) × (o'.machine.heap q ≡ o.machine.heap q))
      → ((q : ℕ) → q < v.next_address → q ≢ p → q < w.next_address)
      → StandsFor code place at loop v o'
  starts-StandsFor p w v o o' sim still there sched x y new is is' same old = record {
    scheduler = still.1 ∙ (sim.scheduler ∙ sym still.0);
    addresses = there;
    scheduler_piber = sched ∙ sim.scheduler_piber;
    alike = λ q lt ne. elim (Bool-cases (q == p)) [
      | inl k ↦
          subst (λ x. Alike code place at loop (v.fibers x) (o'.machine.heap x)) {x = p} {y = q}
            (ground (arith, k))
            (subst (λ z. Alike code place at loop z (o'.machine.heap p)) (sym is)
              (subst (Alike code place at loop x) (sym is') new))
      | inr k ↦
          let d : q ≢ p = ground (arith, k) in
          subst (λ x. Alike code place at loop x (o'.machine.heap q)) (sym (same q d).0)
            (subst (Alike code place at loop (w.fibers q)) (sym (same q d).1)
              (sim.alike q (old q lt d) ne))
    ];
  }

  pub makes-StandsFor :
      (f : ℕ) (w : Pool) (o : Objects)
      → StandsFor code place at loop w o
      → StandsFor code place at loop (new_fiber code f w) (made f o)
  unfolding new_fiber new_piber
  makes-StandsFor f w o sim =
      let m = o.machine in
      let p = o.next_address in
      starts-StandsFor w.next_address w (new_fiber code f w) o (made f o) sim (refl, refl)
        (ap (λ n. n + 1) sim.addresses) refl
        (record { state = ready; stack = at_start (code f); use_count = 1 })
        (record {
          id = m.piber_id;
          stacksize = (128 * 1024) % 2 ^ 32;
          state = ready;
          ctx = main_func;
          stack = some p;
          cb = some f;
          run_in_scheduler = true;
        })
        (record { state = refl; in_scheduler = refl; stack = (refl, f, refl, refl) }) (ground arith)
        (ground (arith, sim.addresses))
        (λ q d. (ground (arith, d), ground (arith, d, sim.addresses)))
        (λ q lt d. ground (arith, lt, d))

  pub resets-StandsFor :
      (p f : ℕ) (w : Pool) (o : Objects)
      → StandsFor code place at loop w o
      → p < w.next_address
      → p ≢ loop
      → StandsFor code place at loop
          (reset_fiber code p f w)
          (record o { machine = Piber.reset p f o.machine })
  unfolding reset_fiber Piber.reset
  resets-StandsFor p f w o sim lt ne =
      starts-StandsFor p w (reset_fiber code p f w) o
        (record o { machine = Piber.reset p f o.machine }) sim (refl, refl) sim.addresses refl
        (record (w.fibers p) { state = ready; stack = at_start (code f) })
        (record (o.machine.heap p) { cb = some f; ctx = main_func; state = ready })
        (record {
          state = refl;
          in_scheduler = (sim.alike p lt ne).in_scheduler;
          stack = (refl, f, refl, refl);
        })
        (ground arith) (ground arith) (λ q d. (ground (arith, d), ground (arith, d))) (λ q l d. l)

  module _ (places : (f : ℕ) → HasPlaces code place at loop (code f))
      (ends : at (place at_end) ≡ at_end) where
    -- One action in both.
    abbrev pub BothAct : Action → Pool → Objects → Type 0
    BothAct a w o =
        (u : Pool) × (o' : Objects) × (acts_on code a w ≡ some u)
        × (acts code place at a o ≡ some o')
        × StandsFor code place at loop u o'
        × (u.next_address ≡ grows a w.next_address)

    pub acts_alike :
        (a : Action) (w : Pool) (o : Objects)
        → StandsFor code place at loop w o
        → IsAllowed loop a w.next_address
        → BothAct a w o ⊎ ((acts_on code a w ≡ none) × (acts code place at a o ≡ none))
    unfolding acts acts_on
    acts_alike (makes f) w o sim ok =
        inl (_, _, refl, refl, makes-StandsFor f w o sim, unfold new_fiber in refl)
    acts_alike (resets p f) w o sim ok =
        inl (_, _, refl, refl, resets-StandsFor p f w o sim ok.0 ok.1, unfold reset_fiber in refl)
    acts_alike (resumes p here) w o sim ok =
        elim (turns_alike code place at loop places ends p here w o sim ok.0 ok.1) [
          | inl (u, o', runs, turns, sim', same) ↦
              inl (u, o', runs, rw turns (ground arith), sim', same)
          | inr (e, f) ↦ inr (e, rw f refl)
        ]

    -- A list of actions (new Piber(f), Piber::reset, and Piber::resume up to the next switch) is run on
    -- the objects of Piber and on the coroutines of Task, which stand for each other at the start. Each
    -- action is on a coroutine that exists and is not that of the loop; every yield() of the callbacks
    -- has a place of its own that leads back to what follows it, and the place behind the yield() of
    -- MainFunc leads to the end. Then either both runs end the thread, or both come to their end, in
    -- states that stand for each other again: the same scheduler, and for each coroutine but that of
    -- the loop the same m_state, and a context (and m_cb) that continues with what Task says the
    -- coroutine goes on with.
    pub coroutines-refine :
        (todo : List Action) (w : Pool) (o : Objects)
        → StandsFor code place at loop w o
        → AreAllowed loop todo w.next_address
        → Agree (act_all_on code todo w) (act_all code place at todo o)
    unfolding act_all act_all_on
    coroutines-refine [] w o sim ok = unfold Agree in sim
    coroutines-refine (a ∷ rest) w o sim ok = elim (acts_alike a w o sim ok.0) [
      | inl (u, o', e, f, sim', grown) ↦
          rw (e, f)
            (coroutines-refine rest u o' sim' (subst (AreAllowed loop rest) (sym grown) ok.1))
      | inr (e, f) ↦ rw (e, f) (unfold Agree in tt)
    ]

-- ===== src/Task/Standing.antt =====
-- The coroutines of Task stand for the objects of Piber (synergy/Piber.cc).
use synergy_lib.Prelude.{
  inr, inl, ℕ, ◌≡◌, Option, ◌≢◌, some, refl, ◌<◌, true, Bool-cases, ◌==◌, inl, subst, arith, ◌∙◌,
  sym, inr, none, ◌⊎◌, Option-cases, ap, some-injective,
}
use synergy_lib.Piber
use synergy_lib.Piber.{Machine, Context, unset, main_func, saved, new_piber}
use synergy_lib.Task.{
  Body, returns, yields, schedules_self, schedules, Stack, at_start, in_callback, at_end, Fiber,
  Pool, resume_fiber, run_body, set_fiber, entered, continued,
}
use synergy_lib.Task.Frames.{run_body-others, run_body-SameBut}
use synergy_lib.Task.Switches.{turn, continues_with, Objects}
use synergy_lib.Task.Contexts.{
  last_switch, run_body-last_switch, Back, Resumed, turn-Back, turn-none, switched, calls,
  run_body-calls,
}

module _ (code : ℕ → Body) (place : Stack → ℕ) (at : ℕ → Stack) (loop : ℕ) where
  -- What a coroutine of the pool goes on with.
  abbrev continued_by : Stack → Option Body
  continued_by (at_start b) = some b
  continued_by (in_callback b) = some b
  continued_by at_end = none

  -- Each place behind a yield() of the callback leads back to what follows it.
  abbrev pub HasPlaces : Body → Type 0
  HasPlaces returns = Unit
  HasPlaces (yields b) = (at (place (in_callback b)) ≡ in_callback b) × HasPlaces b
  HasPlaces (schedules_self b) = HasPlaces b
  HasPlaces (schedules f thread b) = HasPlaces b

  -- A stack of Task, and the context and callback of the object.
  abbrev pub Stands : Stack → Context → Option ℕ → Type 0
  Stands (at_start b) c cb = (c ≡ main_func) × (f : ℕ) × (cb ≡ some f) × (code f ≡ b)
  Stands (in_callback b) c cb =
      (c ≡ saved (place (in_callback b)))
      × (at (place (in_callback b)) ≡ in_callback b)
      × HasPlaces b
  Stands at_end c cb = c ≡ saved (place at_end)

  pub record Alike (x : Fiber) (y : Piber.Piber) : Type 0 where
    pub state : y.state ≡ x.state
    pub in_scheduler : y.run_in_scheduler ≡ true
    pub stack : Stands x.stack y.ctx y.cb

  -- The coroutines of the pool, of which the loop's is none.
  pub record StandsFor (w : Pool) (o : Objects) : Type 0 where
    pub scheduler : o.sched ≡ w.sched
    pub addresses : o.next_address ≡ w.next_address
    pub scheduler_piber : o.machine.t_scheduler_piber ≡ some loop
    pub alike : (p : ℕ) → p < w.next_address → p ≢ loop → Alike (w.fibers p) (o.machine.heap p)

  last_switch-Stands :
      (b : Body) (cb : Option ℕ)
      → HasPlaces b
      → Stands (last_switch b).1 (saved (place (last_switch b).1)) cb
  last_switch-Stands returns cb h = refl
  last_switch-Stands (yields b) cb h = (refl, h.0, h.1)
  last_switch-Stands (schedules_self b) cb h = last_switch-Stands b cb h
  last_switch-Stands (schedules f thread b) cb h = last_switch-Stands b cb h

  -- A resume() in both.
  abbrev pub BothTurn : ℕ → ℕ → Pool → Objects → Type 0
  BothTurn p here w o =
      (u : Pool) × (o' : Objects) × (resume_fiber p w ≡ some u)
      × (turn code place at p here o ≡ some (o', saved here))
      × StandsFor u o'
      × (u.next_address ≡ w.next_address)

  ran-StandsFor :
      (p here : ℕ) (b : Body) (w v : Pool) (o : Objects) (m1 m' : Machine)
      → StandsFor w o
      → HasPlaces b
      → ((q : ℕ) → q ≢ p → v.fibers q ≡ w.fibers q)
      → v.next_address ≡ w.next_address
      → v.sched ≡ w.sched
      → Resumed code place at loop p here o.machine m1
      → Back code place at loop p (last_switch b).0 (last_switch b).1 m1 m'
      → StandsFor (run_body p b v) (switched p b o m')
  ran-StandsFor p here b w v o m1 m' sim has same grown still r back = record {
    scheduler = ap (calls p b) (sim.scheduler ∙ sym still) ∙ sym (run_body-calls p b v);
    addresses = sim.addresses ∙ sym ((run_body-SameBut p b v).addresses ∙ grown);
    scheduler_piber = back.scheduler_piber;
    alike = λ q lt ne. elim (Bool-cases (q == p)) [
      | inl k ↦
          subst (λ x. Alike ((run_body p b v).fibers x) (m'.heap x)) {x = p} {y = q}
            (ground (arith, k))
            (record {
              state = back.state ∙ sym l.0;
              in_scheduler = back.in_scheduler;
              stack =
                  subst (λ k. Stands k (m'.heap p).ctx (m'.heap p).cb) (sym l.1)
                    (subst (λ c. Stands (last_switch b).1 c (m'.heap p).cb) (sym back.ctx)
                      (last_switch-Stands b (m'.heap p).cb has));
            })
      | inr k ↦
          let d : q ≢ p = ground (arith, k) in
          subst (λ x. Alike x (m'.heap q)) (sym ((run_body-others p q b v d).0 ∙ same q d))
            (subst (Alike (w.fibers q)) (sym (back.others q d ∙ r.others q d ne))
              (sim.alike q (omega (arith, lt, (run_body-SameBut p b v).addresses, grown)) ne))
    ];
  }
    where
      l :
          (((run_body p b v).fibers p).state ≡ (last_switch b).0)
          × (((run_body p b v).fibers p).stack ≡ (last_switch b).1)
      l = run_body-last_switch p b v

  module _ (places : (f : ℕ) → HasPlaces (code f)) (ends : at (place at_end) ≡ at_end) where
    Stands-HasPlaces :
        (k : Stack) (b : Body) (c : Context) (cb : Option ℕ)
        → Stands k c cb
        → continued_by k ≡ some b
        → HasPlaces b
    Stands-HasPlaces (at_start d) b c cb st e =
        subst HasPlaces (st.3 ∙ some-injective e) (places st.1)
    Stands-HasPlaces (in_callback d) b c cb st e = subst HasPlaces (some-injective e) st.2
    Stands-HasPlaces at_end b c cb st e = cc

    Stands-continues :
        (k : Stack) (c : Context) (cb : Option ℕ)
        → Stands k c cb
        → continues_with code place at c cb ≡ continued_by k
    Stands-continues (at_start b) c cb st = ground (arith, st.0, st.2, st.3)
    Stands-continues (in_callback b) c cb st = ground (arith, st.0, st.1)
    Stands-continues at_end c cb st = ground (arith, st, ends)

    -- What resume() does in the pool.
    resume-run_body :
        (p : ℕ) (w : Pool) (k : Stack) (b : Body)
        → (w.fibers p).stack ≡ k
        → continued_by k ≡ some b
        → (v : Pool) × (resume_fiber p w ≡ some (run_body p b v))
          × ((q : ℕ) → q ≢ p → v.fibers q ≡ w.fibers q)
          × (v.next_address ≡ w.next_address)
          × (v.sched ≡ w.sched)
    unfolding resume_fiber
    resume-run_body p w (at_start c) b e f = (
      set_fiber p (entered (w.fibers p)) w,
      ground (arith, e, f),
      λ q d. ground (arith, d),
      refl,
      refl,
    )
    resume-run_body p w (in_callback c) b e f = (
      set_fiber p (continued (w.fibers p)) w,
      ground (arith, e, f),
      λ q d. ground (arith, d),
      refl,
      refl,
    )
    resume-run_body p w at_end b e f = cc

    resume-none :
        (p : ℕ) (w : Pool) (k : Stack)
        → (w.fibers p).stack ≡ k
        → continued_by k ≡ none
        → resume_fiber p w ≡ none
    unfolding resume_fiber
    resume-none p w (at_start c) e f = cc
    resume-none p w (in_callback c) e f = cc
    resume-none p w at_end e f = ground (arith, e)

    pub turns_alike :
        (p here : ℕ) (w : Pool) (o : Objects)
        → StandsFor w o
        → p < w.next_address
        → p ≢ loop
        → BothTurn p here w o ⊎ ((resume_fiber p w ≡ none) × (turn code place at p here o ≡ none))
    turns_alike p here w o sim lt ne =
        let a = sim.alike p lt ne in
        let x = o.machine.heap p in
        let c = Stands-continues (w.fibers p).stack x.ctx x.cb a.stack in
        elim (Option-cases (continued_by (w.fibers p).stack)) [
          | inl e ↦ inr (
            resume-none p w (w.fibers p).stack refl e,
            turn-none code place at loop p here o ne sim.scheduler_piber a.in_scheduler (c ∙ e),
          )
          | inr (b, e) ↦
              let (v, runs, same, grown, still) = resume-run_body p w (w.fibers p).stack b refl e in
              let (m1, m', turns, r, back) =
                turn-Back code place at loop p here b o ne sim.scheduler_piber a.in_scheduler
                  (c ∙ e) in
              inl (
                run_body p b v,
                switched p b o m',
                runs,
                turns,
                ran-StandsFor p here b w v o m1 m' sim
                    (Stands-HasPlaces (w.fibers p).stack b x.ctx x.cb a.stack e) same grown still r
                    back,
                (run_body-SameBut p b v).addresses ∙ grown,
              )
        ]

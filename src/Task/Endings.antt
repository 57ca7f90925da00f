-- ===== src/Task/Endings.antt =====
-- How the loop of Scheduler::run (synergy/Scheduler.cc) ends.
use synergy_lib.Prelude.{
  ℕ, false, ◌≡◌, true, ◌+◌, [], ◌<◌, arith, u64_mod, ◌≤◌, none, some, ap, Bool-cases, sym, ltb, inl,
  ◌∙◌, refl, inr,
}
use synergy_lib.Task.Handles.{Inv, is_tidy, queued}
use synergy_lib.Task.Costs.{work, load}
use synergy_lib.Task.Outcomes.{comes_to, outcome}
use synergy_lib.Task.Serving.{Stopped, serves, serves_not, own_pointers, settled-quiet}
use synergy_lib.Prelude.Int.{ℤ}
use synergy_lib.Task.{Body, at_end, Pool, serve}

module _ (code : ℕ → Body) (tid : ℤ) (cost h : ℕ → ℕ)
    (tidy : (f : ℕ) → is_tidy tid false (code f) ≡ true)
    (pays : (f : ℕ) → cost f ≡ 1 + work cost false (code f)) where
  -- With an empty queue each coroutine stands where it comes to.
  standing : (u : Pool) (p : ℕ) → u.sched.tasks ≡ [] → outcome p u ≡ (u.fibers p).stack
  standing u p e = ground (arith, e)

  pointed_to :
      (u : Pool) (p : ℕ)
      → Inv tid h u
      → u.sched.tasks ≡ []
      → p < u.next_address
      → (u.fibers p).use_count ≡ h p + own_pointers (u.fibers p).stack
  pointed_to u p v e lt =
      let x = u.fibers p in
      (settled-quiet tid (queued p u.sched.tasks) (h p) x.state x.use_count x.stack
          (v.fibers_settled p lt)).1
        (ground (arith, e))

  -- In the thread `tid`, when stop() has been called, from a queue of tasks that the thread may take,
  -- whose callbacks schedule only such tasks, schedule their coroutine at most once before a yield()
  -- and not before their end, and bring about a fixed number of rounds each: the loop ends, in exactly
  -- two rounds more than the tasks of the queue bring about, with an empty queue and the counters as
  -- they were. No coroutine is resumed behind its end. A coroutine of the queue has then ended, if it
  -- has scheduled itself before each yield(), or else is in the first yield() before which it has not;
  -- so has each coroutine that was made for a callback; any other is where it was. Each has just the
  -- pointers from outside of the queue, and two more if it is in a yield(): one that has none is
  -- destroyed, and one that is in a yield() is not.
  pub loop_serves_all :
      (fuel : ℕ) (w : Pool)
      → Inv tid h w
      → w.sched.stopping ≡ true
      → w.sched.active_thread_count ≡ 0
      → w.sched.idle_thread_count < u64_mod
      → (load cost w + 2 ≤ fuel
          → (u : Pool) × (serve code fuel tid false none w ≡ some u)
            × (u.sched ≡ record w.sched { tasks = [] })
            × ((p : ℕ) → p < w.next_address → (u.fibers p).stack ≡ outcome p w)
            × ((p : ℕ)
                → w.next_address ≤ p
                → p < u.next_address
                → (f : ℕ) × ((u.fibers p).stack ≡ comes_to false (code f)))
            × ((p : ℕ)
                → p < u.next_address
                → (u.fibers p).use_count ≡ h p + own_pointers (u.fibers p).stack))
        × (fuel < load cost w + 2 → serve code fuel tid false none w ≡ none)
  loop_serves_all fuel w v f a i =
      let stopped : Stopped code tid cost h tidy pays w = record {
        inv = v;
        flagged = f;
        none_active = a;
        idle_count = i;
      } in
      (
        λ enough.
            let (u, ends, s) =
              serves code tid cost h tidy pays fuel w w.sched.tasks refl stopped enough in
            let empty : u.sched.tasks ≡ [] = ap (λ x. x.tasks) s.drained in
            (
              u,
              ends,
              s.drained,
              λ p lt. sym (standing u p empty) ∙ s.keeps p lt,
              λ p le lt. let (f, e) = s.makes p le lt in (f, sym (standing u p empty) ∙ e),
              λ p lt. pointed_to u p s.inv empty lt,
            ),
        λ few. serves_not code tid cost h tidy pays fuel w w.sched.tasks refl stopped few,
      )

  -- If no callback yields without having scheduled its coroutine, and no coroutine is in a yield() and
  -- not in the queue, then the loop leaves each coroutine with just the pointers from outside.
  pub none_left :
      (fuel : ℕ) (w : Pool)
      → Inv tid h w
      → w.sched.stopping ≡ true
      → w.sched.active_thread_count ≡ 0
      → w.sched.idle_thread_count < u64_mod
      → load cost w + 2 ≤ fuel
      → ((f : ℕ) → comes_to false (code f) ≡ at_end)
      → ((p : ℕ) → p < w.next_address → own_pointers (outcome p w) ≡ 0)
      → (u : Pool) × (serve code fuel tid false none w ≡ some u)
        × ((p : ℕ) → p < u.next_address → (u.fibers p).use_count ≡ h p)
  none_left fuel w v f a i enough ends stays =
      let (u, runs, drained, old, new, counts) = (loop_serves_all fuel w v f a i).0 enough in
      (
        u,
        runs,
        λ p lt. elim (Bool-cases (ltb p w.next_address)) [
          | inl k ↦
              let before : p < w.next_address = ground (arith, k) in
              omega (arith, counts p lt, ap own_pointers (old p before), stays p before)
          | inr k ↦
              let (g, e) = new p (ground (arith, k)) lt in
              omega (arith, counts p lt, ap own_pointers (e ∙ ends g))
        ],
      )

-- ===== src/Task/Owned.antt =====
-- The coroutines that the loop of Scheduler::run (synergy/Scheduler.cc) comes by: those of the queue
-- and cb_piber.
use synergy_lib.Prelude.{
  ℕ, Option, none, some, Bool, true, ◌≡◌, ◌<◌, ◌≤◌, ltb, ◌==◌, not, ◌&&◌, all, all-append,
  all-middle, List, [], ◌∷◌, ap, arith, refl, inl, inr, ◌∙◌, sym, subst, some-injective,
}
use synergy_lib.Prelude.Int.{ℤ}
use synergy_lib.Piber.{State}
use synergy_lib.Scheduler.{
  Scheduler, ScheduleTask, working, run_round, scan, any_thread, runs_already, empty_task,
}
use synergy_lib.Scheduler.Queue.{scan_lem}
use synergy_lib.Task.Taking.{resume-at_start, resume-in_callback}
use synergy_lib.Task.{
  Body, returns, yields, schedules_self, schedules, Pool, run_body, schedule_fiber, Stack, at_start,
  in_callback, at_end, set_fiber, entered, continued, resume_fiber, schedule_callback,
}

-- The round of a loop depends on the states of the queued coroutines only.
same_scan :
    (tid : ℤ) (f g : ℕ → State) (ts : List ScheduleTask)
    → (P : ScheduleTask → Bool)
    → ((t : ScheduleTask) → P t ≡ true → runs_already f t ≡ runs_already g t)
    → all P ts ≡ true
    → scan tid f ts ≡ scan tid g ts
unfolding scan
same_scan tid f g [] P same h = refl
same_scan tid f g (t ∷ ts) P same h =
    let e = same_scan tid f g ts P same (ground (arith, h)) in
    let d = same t (ground (arith, h)) in rw (e, d) refl

pub same_round :
    (tid : ℤ) (f g : ℕ → State) (b : Bool) (s : Scheduler)
    → (P : ScheduleTask → Bool)
    → ((t : ScheduleTask) → P t ≡ true → runs_already f t ≡ runs_already g t)
    → all P s.tasks ≡ true
    → run_round tid f b s ≡ run_round tid g b s
unfolding run_round
same_round tid f g b s P same h = ground (arith, same_scan tid f g s.tasks P same h)

-- What holds of every queued task holds of the one that a round hands out, and of those left.
pub round-all :
    (tid : ℤ) (f : ℕ → State) (b : Bool) (s : Scheduler) (P : ScheduleTask → Bool)
    → P empty_task ≡ true
    → all P s.tasks ≡ true
    → (all P (run_round tid f b s).0.tasks ≡ true)
      × ((t : ScheduleTask) (b' : Bool) → (run_round tid f b s).1 ≡ working t b' → P t ≡ true)
unfolding run_round
round-all tid f b s P e h = elim (scan_lem tid f s.tasks) [
  | inl (c, k, a, q) ↦ (ground (arith, c, k, h), λ t b' w. ground (arith, c, w))
  | inr (t, before, after, c, k, q, el, nb, tk) ↦
      let m = all-middle P before t after (ap (all P) (sym k) ∙ h) in
      (ground (arith, c, q, m.1), λ u b' w. ground (arith, c, w, m.0))
]

module _ (loop : ℕ) where
  -- A pointer to a coroutine that is there and is not the loop's, or the null pointer.
  abbrev pub is_own : ℕ → Option ℕ → Bool
  is_own n none = true
  is_own n (some p) = ltb p n && not (p == loop)

  abbrev pub task_is_own : ℕ → ScheduleTask → Bool
  task_is_own n t = is_own n t.piber

  -- Between two rounds, where `c` is cb_piber.
  pub record Owned (c : Option ℕ) (w : Pool) : Type 0 where
    pub queue : all (task_is_own w.next_address) w.sched.tasks ≡ true
    pub kept : is_own w.next_address c ≡ true
    pub loop_below : loop < w.next_address

  is_own-grows : (n k : ℕ) (c : Option ℕ) → n ≤ k → is_own n c ≡ true → is_own k c ≡ true
  is_own-grows n k none le h = refl
  is_own-grows n k (some p) le h = ground (arith, le, h)

  pub queue-grows :
      (n k : ℕ) (ts : List ScheduleTask)
      → n ≤ k
      → all (task_is_own n) ts ≡ true
      → all (task_is_own k) ts ≡ true
  queue-grows n k [] le h = refl
  queue-grows n k (t ∷ ts) le h =
      ground (arith, is_own-grows n k t.piber le, queue-grows n k ts le, h)

  pub run_body-own :
      (n p : ℕ) (b : Body) (w : Pool)
      → is_own n (some p) ≡ true
      → all (task_is_own n) w.sched.tasks ≡ true
      → all (task_is_own n) (run_body p b w).sched.tasks ≡ true
  unfolding run_body schedule_fiber schedule_callback
  run_body-own n p returns w own h = h
  run_body-own n p (yields b) w own h = h
  run_body-own n p (schedules_self b) w own h = run_body-own n p b (schedule_fiber p w) own (
      ground (
        arith,
        all-append (task_is_own n) w.sched.tasks
            (record { piber = some p; cb = none; thread = any_thread } ∷ []),
        own,
        h,
      ))
  run_body-own n p (schedules f thread b) w own h =
      run_body-own n p b (schedule_callback f thread w) own (
        ground (
          arith,
          all-append (task_is_own n) w.sched.tasks
              (record { piber = none; cb = some f; thread = thread } ∷ []),
          own,
          h,
        ))

  -- Behind a resume() too.
  pub resume-own :
      (n p : ℕ) (k : Stack) (w u : Pool)
      → (w.fibers p).stack ≡ k
      → resume_fiber p w ≡ some u
      → is_own n (some p) ≡ true
      → all (task_is_own n) w.sched.tasks ≡ true
      → all (task_is_own n) u.sched.tasks ≡ true
  resume-own n p (at_start b) w u e r own h =
      subst (λ x. all (task_is_own n) x.sched.tasks ≡ true)
        (some-injective (sym (resume-at_start p b w e) ∙ r))
        (run_body-own n p b (set_fiber p (entered (w.fibers p)) w) own h)
  resume-own n p (in_callback b) w u e r own h =
      subst (λ x. all (task_is_own n) x.sched.tasks ≡ true)
        (some-injective (sym (resume-in_callback p b w e) ∙ r))
        (run_body-own n p b (set_fiber p (continued (w.fibers p)) w) own h)
  resume-own n p at_end w u e r own h = absurd (unfold resume_fiber in ground (arith, e, r))

-- ===== src/Dispatch/Exclusive.antt =====
-- No coroutine with two workers at once.
use synergy_lib.Prelude.{
  ap, subst, ◌⊎◌, ℕ, refl, arith, Bool, true, false, Option, none, some, List, [], ◌∷◌, ◌+◌, ◌<◌,
  ◌≤◌, ◌≡◌, ◌==◌, if◌then◌else◌, update, ◌++◌, inl, inr, Bool-cases,
}
use synergy_lib.Prelude.Int.{ℤ}
use synergy_lib.Prelude.Total.{total-update, le-total}
use synergy_lib.Piber.{State}
use synergy_lib.Scheduler.{
  ScheduleTask, FiberOrCb, a_piber, a_piber_ptr, a_cb, Scheduler, scan, run_round, task_returns,
  idle_returns, schedule_no_lock, new_task, stop, empty_task,
}
use synergy_lib.Dispatch.{
  Place, idling, after_round, World, names, queued, has, uses, piber_of, Move, searches, resumes,
  wraps, works, schedules, marks, finishes, switches, idle_back, Step, moves, outside, stops, Reach,
  here, next,
}

queued-append :
    (p : ℕ) (ts us : List ScheduleTask) → queued p (ts ++ us) ≡ queued p ts + queued p us
queued-append p [] us = omega arith
queued-append p (t ∷ ts) us = omega (arith, queued-append p ts us)

abbrev chosen_names : ℕ → Option ScheduleTask → ℕ
chosen_names p none = 0
chosen_names p (some t) = names p t.piber

queued-scan :
    (p : ℕ) (tid : ℤ) (state : ℕ → State) (ts : List ScheduleTask)
    → queued p (scan tid state ts).rest + chosen_names p (scan tid state ts).chosen ≡ queued p ts
unfolding scan
queued-scan p tid state [] = refl
queued-scan p tid state (t ∷ ts) = ground (arith, queued-scan p tid state ts)

-- A search moves a coroutine from the queue to the worker, or leaves it there.
searches-le :
    (p : ℕ) (tid : ℤ) (state : ℕ → State) (b : Bool) (s : Scheduler)
    → queued p (run_round tid state b s).0.tasks + has p (after_round (run_round tid state b s).1)
      ≤ queued p s.tasks
unfolding run_round empty_task
searches-le p tid state b s = ground (arith, queued-scan p tid state s.tasks)

schedule-le :
    (p : ℕ) (fc : FiberOrCb) (thread : ℤ) (s : Scheduler)
    → queued p (schedule_no_lock fc thread s).0.tasks ≤ queued p s.tasks + names p (piber_of fc)
unfolding schedule_no_lock new_task
schedule-le p (a_piber q) thread s =
    ground (arith, queued-append p s.tasks (new_task (a_piber q) thread ∷ []))
schedule-le p (a_piber_ptr q) thread s =
    ground (arith, queued-append p s.tasks (new_task (a_piber_ptr q) thread ∷ []))
schedule-le p (a_cb f) thread s =
    ground (arith, queued-append p s.tasks (new_task (a_cb f) thread ∷ []))

stop_tasks : (s : Scheduler) → (stop s).0.tasks ≡ s.tasks
unfolding stop
stop_tasks s = ground arith

abbrev named : ℕ → Option ℕ → Bool
named p none = false
named p (some q) = q == p

named-some : (p : ℕ) (o : Option ℕ) → named p o ≡ true → o ≡ some p
named-some p none h = cc
named-some p (some q) h = ground (arith, h)

names-named : (p : ℕ) (o : Option ℕ) → names p o ≡ (if named p o then 1 else 0)
names-named p none = refl
names-named p (some q) = refl

module _ (n : ℕ) (tid : ℕ → ℤ) where
  -- The program schedules a coroutine only while it is in no queue and with no worker.
  abbrev pub Unused : World → ℕ → Type 0
  Unused w q = uses n q w ≡ 0

  -- A part `new` of the uses replaces a part `old`, or the coroutine had none.
  abbrev Replaces : World → ℕ → ℕ → ℕ → Type 0
  Replaces w p old new = (new ≤ old) ⊎ ((uses n p w ≡ 0) × (new ≤ old + 1))

  schedule-Replaces :
      (w : World) (p : ℕ) (fc : FiberOrCb) (thread : ℤ)
      → ((q : ℕ) → piber_of fc ≡ some q → Unused w q)
      → Replaces w p
          (queued p w.sched.tasks)
          (queued p (schedule_no_lock fc thread w.sched).0.tasks)
  schedule-Replaces w p fc thread h = elim (Bool-cases (named p (piber_of fc))) [
    | inl same ↦ inr (
      h p (named-some p (piber_of fc) same),
      ground (arith, same, schedule-le p fc thread w.sched, names-named p (piber_of fc)),
    )
    | inr other ↦
        inl ground (arith, other, schedule-le p fc thread w.sched, names-named p (piber_of fc))
  ]

  Move-Replaces :
      {i : ℕ} {w w' : World} {from to : Place}
      → Move n tid Unused i w from w' to
      → (p : ℕ)
      → Replaces w p (queued p w.sched.tasks + has p from) (queued p w'.sched.tasks + has p to)
  unfolding task_returns idle_returns
  Move-Replaces {i} {w} (searches b) p =
      inl (ground (arith, searches-le p (tid i) w.state b w.sched))
  Move-Replaces (resumes t b q e) p = inl (ground (arith, e))
  Move-Replaces {i} {w} (wraps t b q f e c fresh) p = elim (Bool-cases (q == p)) [
    | inl same ↦
        inr (subst (λ x. uses n x w ≡ 0) (ground (arith, same)) fresh, ground (arith, same))
    | inr other ↦ inl (ground (arith, other))
  ]
  Move-Replaces (works t q k k' b) p = inl (omega arith)
  Move-Replaces {i} {w} (schedules t q k b fc thread h) p =
      elim (schedule-Replaces w p fc thread h) [
        | inl le ↦ inl (omega (arith, le))
        | inr (new, le) ↦ inr (new, omega (arith, le))
      ]
  Move-Replaces (marks t q k b) p = inl (omega arith)
  Move-Replaces (finishes t q k b) p = inl (omega arith)
  Move-Replaces (switches t q k b) p = inl (omega arith)
  Move-Replaces idle_back p = inl (omega arith)

  -- Each coroutine is at most once in the queue or with a worker.
  abbrev pub IsOnce : World → Type 0
  IsOnce w = (p : ℕ) → uses n p w ≤ 1

  Step-IsOnce : {w w' : World} → Step n tid Unused w w' → IsOnce w → IsOnce w'
  Step-IsOnce {w} (moves i {w'} {to} lt mv) once p =
      let sum = total-update (has p) n i to w.place lt in
      elim (Move-Replaces mv p) [
        | inl le ↦ omega (arith, le, sum, once p)
        | inr (new, le) ↦ omega (arith, new, le, sum)
      ]
  Step-IsOnce {w} (outside fc thread h) once p = elim (schedule-Replaces w p fc thread h) [
    | inl le ↦ omega (arith, le, once p)
    | inr (new, le) ↦ omega (arith, new, le)
  ]
  Step-IsOnce {w} stops once p = omega (arith, ap (queued p) (stop_tasks w.sched), once p)

  Reach-IsOnce : {w w' : World} → Reach n tid Unused w w' → IsOnce w → IsOnce w'
  Reach-IsOnce here once = once
  Reach-IsOnce (next r st) once = Step-IsOnce st (Reach-IsOnce r once)

  -- If the program schedules a coroutine only while it is in no queue and with no worker, then from a
  -- world where each is at most once in these places, in every interleaving of the workers, two
  -- workers never have the same coroutine, and a coroutine that a worker has is not in the queue.
  pub exclusive :
      {w w' : World}
      → Reach n tid Unused w w'
      → IsOnce w
      → (p i j : ℕ) → i < n
      → j < n
      → has p (w'.place i) ≡ 1
      → has p (w'.place j) ≡ 1
      → (i ≡ j) × (queued p w'.sched.tasks ≡ 0)
  exclusive {w} {w'} r once p i j lt_i lt_j at_i at_j =
      let all_once = Reach-IsOnce r once p in
      let without = total-update (has p) n i idling w'.place lt_i in
      let rest = le-total (has p) n j (update w'.place i idling) lt_j in
      (
        ground (arith, all_once, without, rest),
        omega (arith, all_once, le-total (has p) n i w'.place lt_i),
      )

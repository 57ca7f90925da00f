-- ===== src/Scheduler/Shutdown.antt =====
-- How the workers of a Scheduler (synergy/Scheduler.cc) leave their loops: Scheduler::stopping().
use synergy_lib.Prelude.{
  ℕ, refl, arith, inl, inr, ◌≡◌, Bool, List, all, ◌<◌, true, false, [], u64_mod, ◌↔◌, ◌≢◌, ◌⊎◌,
  ◌==◌, ◌++◌, u64, Bool-cases, ◌∷◌, ◌+◌, sym, ◌∙◌,
}
use synergy_lib.Prelude.Int.{ℤ}
use synergy_lib.Prelude.Total.{le-total}
use synergy_lib.Piber.{State}
use synergy_lib.Scheduler.{
  ScheduleTask, Scheduler, Phase, looking, working, idling, ended, run_round, idle_returns, stop,
  has_work, is_stopping,
}
use synergy_lib.Scheduler.Workers.{
  System, Move, rounds, task_back, idle_back, task_schedules, WorkerStep, is_working, moves, stops,
}
use synergy_lib.Scheduler.Counters.{Inv, WorkerStep-Inv, round_cases}

-- stop() was called, the queue is empty, and no task is being run.
pub record IsQuiet (s : Scheduler) : Type 0 where
  pub flagged : s.stopping ≡ true
  pub drained : s.tasks ≡ []
  pub inactive : s.active_thread_count ≡ 0

-- The idle coroutine of a worker has come to its end.
abbrev pub idle_ended : Phase → Bool
idle_ended (looking b) = b
idle_ended (working t b) = b
idle_ended idling = false
idle_ended ended = true

pub is_stopping_iff : (s : Scheduler) → (is_stopping s ≡ true) ↔ IsQuiet s
unfolding is_stopping
is_stopping_iff s = (
  λ e. record { flagged = ground arith; drained = ground arith; inactive = ground arith },
  λ q. ground (arith, q.flagged, q.drained, q.inactive),
)

not_split :
    (before : List ScheduleTask) (t : ScheduleTask) (after : List ScheduleTask)
    → [] ≢ before ++ t ∷ after
not_split [] t after e = cc
not_split (x ∷ before) t after e = cc

-- A round on an empty queue: the worker idles, or leaves if its idle coroutine is at its end.
pub quiet_round :
    (tid : ℤ) (state : ℕ → State) (b : Bool) (s : Scheduler)
    → s.tasks ≡ []
    → ((b ≡ true) × ((run_round tid state b s).1 ≡ ended) × ((run_round tid state b s).0 ≡ s))
      ⊎ ((b ≡ false)
          × ((run_round tid state b s).1 ≡ idling)
          × ((run_round tid state b s).0
              ≡ record s { idle_thread_count = u64 (s.idle_thread_count + 1) }))
quiet_round tid state b s e = elim (round_cases tid state b s (ground arith)) [
  | inl (t, before, after, f, _, _, _) ↦ absurd (not_split before t after (sym e ∙ f))
  | inr (inl (x, p, r)) ↦ inl (x, p, r)
  | inr (inr (x, p, r)) ↦ inr (x, p, r)
]

Move-IsQuiet :
    (tid : ℤ) (s : Scheduler) {p : Phase} {s' : Scheduler} {p' : Phase}
    → Move tid s p s' p'
    → (is_working p ≡ 1 → 0 < s.active_thread_count)
    → IsQuiet s
    → IsQuiet s'
unfolding idle_returns
Move-IsQuiet tid s (rounds state b) w q = elim (quiet_round tid state b s q.drained) [
  | inl (x, p, r) ↦ rw r q
  | inr (x, p, r) ↦
      rw r (record { flagged = q.flagged; drained = q.drained; inactive = q.inactive })
]
Move-IsQuiet tid s (task_back t b) w q = absurd (omega (arith, w refl, q.inactive))
Move-IsQuiet tid s idle_back w q = record {
  flagged = q.flagged;
  drained = q.drained;
  inactive = q.inactive;
}
Move-IsQuiet tid s (task_schedules t b fc thread) w q = absurd (omega (arith, w refl, q.inactive))

-- A worker whose idle coroutine ends in this move finds the scheduler quiet.
pub Move-idle_ended :
    (tid : ℤ) (s : Scheduler) {p : Phase} {s' : Scheduler} {p' : Phase}
    → Move tid s p s' p'
    → all has_work s.tasks ≡ true
    → idle_ended p' ≡ true
    → (idle_ended p ≡ true) ⊎ IsQuiet s
unfolding idle_returns
Move-idle_ended tid s (rounds state b) h e = elim (round_cases tid state b s h) [
  | inl (t, before, after, f, p, w, r) ↦ inl (ground arith)
  | inr (inl (x, p, r)) ↦ inl x
  | inr (inr (x, p, r)) ↦ absurd (ground arith)
]
Move-idle_ended tid s (task_back t b) h e = inl e
Move-idle_ended tid s idle_back h e = inr ((is_stopping_iff s).0 e)
Move-idle_ended tid s (task_schedules t b fc thread) h e = inl e

module _ (n : ℕ) (tid : ℕ → ℤ) (few : n < u64_mod) where
  -- Steps of the workers and of stop(), with no schedule() from outside the tasks.
  pub data WorkerReach (s : System) : System → Type 0 where
    here : WorkerReach s s
    next : {t u : System} → WorkerReach s t → WorkerStep n tid t u → WorkerReach s u

  pub WorkerReach-Inv : {s u : System} → WorkerReach s u → Inv n s → Inv n u
  WorkerReach-Inv here v = v
  WorkerReach-Inv (next r st) v = WorkerStep-Inv n tid few st (WorkerReach-Inv r v)

  -- If any idle coroutine has ended, the scheduler is quiet.
  abbrev pub Ends : System → Type 0
  Ends s = (i : ℕ) → i < n → idle_ended (s.phase i) ≡ true → IsQuiet s.sched

  WorkerStep-IsQuiet :
      {s u : System} → WorkerStep n tid s u → Inv n s → IsQuiet s.sched → IsQuiet u.sched
  unfolding stop
  WorkerStep-IsQuiet {s} (moves i lt mv) v q =
      Move-IsQuiet (tid i) s.sched mv
        (λ e. omega (arith, v.active, le-total is_working n i s.phase lt)) q
  WorkerStep-IsQuiet {s} stops v q = ground (arith, q.flagged, q.drained, q.inactive)

  WorkerStep-Ends : {s u : System} → WorkerStep n tid s u → Inv n s → Ends s → Ends u
  unfolding stop
  WorkerStep-Ends {s} (moves i {s'} {p'} lt mv) v h j lj e =
      WorkerStep-IsQuiet (moves i lt mv) v (quiet (Bool-cases (i == j)))
    where
      quiet : ((i == j) ≡ true) ⊎ ((i == j) ≡ false) → IsQuiet s.sched
      quiet (inl k) = elim (Move-idle_ended (tid i) s.sched mv v.runnable (ground arith)) [
        | inl old ↦ h i lt old
        | inr q ↦ q
      ]
      quiet (inr k) = h j lj (ground arith)
  WorkerStep-Ends {s} stops v h j lj e = WorkerStep-IsQuiet stops v (h j lj e)

  pub WorkerReach-Ends : {s u : System} → WorkerReach s u → Inv n s → Ends s → Ends u
  WorkerReach-Ends here v h = h
  WorkerReach-Ends (next r st) v h =
      WorkerStep-Ends st (WorkerReach-Inv r v) (WorkerReach-Ends r v h)

  -- No task is abandoned: from a state in which no idle coroutine has ended, and with no schedule()
  -- from outside the tasks, a worker leaves its loop only after stop() was called, when the queue is
  -- empty and no worker runs a task.
  pub ended_worker_leaves_nothing :
      {s u : System}
      → WorkerReach s u
      → Inv n s
      → ((i : ℕ) → i < n → idle_ended (s.phase i) ≡ false)
      → (i : ℕ) → i < n
      → u.phase i ≡ ended
      → IsQuiet u.sched × ((j : ℕ) → j < n → is_working (u.phase j) ≡ 0)
  ended_worker_leaves_nothing {s} {u} r v fresh i lt e = (
    q,
    λ j lj.
        omega (arith, q.inactive, (WorkerReach-Inv r v).active, le-total is_working n j u.phase lj),
  )
    where
      q : IsQuiet u.sched
      q = WorkerReach-Ends r v (λ k lk h. absurd (ground (arith, fresh k))) i lt (ground arith)

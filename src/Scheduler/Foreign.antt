-- ===== src/Scheduler/Foreign.antt =====
-- A task bound to a thread that is no worker of the Scheduler (synergy/Scheduler.cc).
use mathlib.Core.List.{Memᴰ, ◌∷◌}
use synergy_lib.Prelude.{
  ℕ, arith, inl, inr, subst, List, ◌≡◌, true, Bool-cases, Bool, ◌++◌, [], ◌<◌, u64_mod, false, ◌≢◌,
}
use synergy_lib.Prelude.Int.{ℤ}
use synergy_lib.Piber.{State}
use synergy_lib.Scheduler.{
  ScheduleTask, FiberOrCb, Scheduler, Phase, ended, run_round, task_returns, idle_returns,
  schedule_no_lock, stop, scan, is_elsewhere, has_work, new_task,
}
use synergy_lib.Scheduler.Queue.{is_eligible, scan-skip, scan-take}
use synergy_lib.Scheduler.Workers.{
  System, Move, rounds, task_back, idle_back, task_schedules, Step, Reach, moves, stops, inside,
  outside, here, next,
}
use synergy_lib.Scheduler.Counters.{Inv, Step-Inv}
use synergy_lib.Scheduler.Shutdown.{IsQuiet, idle_ended, Move-idle_ended}

scan-Memᴰ :
    (tid : ℤ) (state : ℕ → State) {t : ScheduleTask} {ts : List ScheduleTask}
    → Memᴰ t ts
    → is_elsewhere tid t ≡ true
    → Memᴰ t (scan tid state ts).rest
scan-Memᴰ tid state {t} (Memᴰ.head {x} {xs} e) h =
    rw (scan-skip tid state x xs (ground arith)) (Memᴰ.head e)
scan-Memᴰ tid state {t} (Memᴰ.tail {x} {xs} m) h = elim (Bool-cases (is_eligible tid state x)) [
  | inl k ↦ rw (scan-take tid state x xs k) m
  | inr k ↦ rw (scan-skip tid state x xs k) (Memᴰ.tail (scan-Memᴰ tid state m h))
]

run_round-tasks :
    (tid : ℤ) (state : ℕ → State) (b : Bool) (s : Scheduler)
    → (run_round tid state b s).0.tasks ≡ (scan tid state s.tasks).rest
unfolding run_round
run_round-tasks tid state b s = ground arith

Memᴰ-append : {t : ScheduleTask} (ts us : List ScheduleTask) → Memᴰ t ts → Memᴰ t (ts ++ us)
Memᴰ-append [] us m = elim m [ ]
Memᴰ-append (x ∷ ts) us (Memᴰ.head e) = Memᴰ.head e
Memᴰ-append (x ∷ ts) us (Memᴰ.tail m) = Memᴰ.tail (Memᴰ-append ts us m)

schedule-Memᴰ :
    (fc : FiberOrCb) (thread : ℤ) (s : Scheduler) {t : ScheduleTask}
    → Memᴰ t s.tasks
    → Memᴰ t (schedule_no_lock fc thread s).0.tasks
unfolding schedule_no_lock
schedule-Memᴰ fc thread s m = elim (Bool-cases (has_work (new_task fc thread))) [
  | inl h ↦ rw h (Memᴰ-append s.tasks _ m)
  | inr h ↦ rw h m
]

Move-Memᴰ :
    (tid : ℤ) (s : Scheduler) {p : Phase} {s' : Scheduler} {p' : Phase} {t : ScheduleTask}
    → Move tid s p s' p'
    → is_elsewhere tid t ≡ true
    → Memᴰ t s.tasks
    → Memᴰ t s'.tasks
unfolding task_returns idle_returns
Move-Memᴰ tid s (rounds state b) h m = rw (run_round-tasks tid state b s) (scan-Memᴰ tid state m h)
Move-Memᴰ tid s (task_back u b) h m = m
Move-Memᴰ tid s idle_back h m = m
Move-Memᴰ tid s (task_schedules u b fc thread) h m = schedule-Memᴰ fc thread s m

stop_tasks : (s : Scheduler) → s.tasks ≡ (stop s).0.tasks
unfolding stop
stop_tasks s = ground arith

not_quiet : (s : Scheduler) {t : ScheduleTask} → Memᴰ t s.tasks → IsQuiet s → ⊥
not_quiet s {t} m q = go (subst (Memᴰ t) q.drained m)
  where
    go : Memᴰ t [] → ⊥
    go k = elim k [ ]

module _ (n : ℕ) (tid : ℕ → ℤ) (few : n < u64_mod) (t : ScheduleTask)
    (foreign : (i : ℕ) → i < n → is_elsewhere (tid i) t ≡ true) where
  -- The task is queued, and no worker has come to the end of its idle coroutine.
  record Stuck (s : System) : Type 0 where
    inv : Inv n s
    queued : Memᴰ t s.sched.tasks
    awake : (i : ℕ) → i < n → idle_ended (s.phase i) ≡ false

  moves-awake :
      (s : System) (i : ℕ) {s' : Scheduler} {p' : Phase}
      → Move (tid i) s.sched (s.phase i) s' p'
      → i < n
      → Stuck s
      → idle_ended p' ≡ false
  moves-awake s i {s'} {p'} mv lt k = elim (Bool-cases (idle_ended p')) [
    | inl e ↦ elim (Move-idle_ended (tid i) s.sched mv k.inv.runnable e) [
      | inl old ↦ absurd (ground (arith, old, k.awake i lt))
      | inr q ↦ absurd (not_quiet s.sched k.queued q)
    ]
    | inr e ↦ e
  ]

  Step-Stuck : {s u : System} → Step n tid s u → Stuck s → Stuck u
  unfolding stop
  Step-Stuck {s} (inside (moves i {s'} {p'} lt mv)) k = record {
    inv = Step-Inv n tid few (inside (moves i lt mv)) k.inv;
    queued = Move-Memᴰ (tid i) s.sched mv (foreign i lt) k.queued;
    awake = λ j lj. ground (arith, moves-awake s i mv lt k, k.awake j lj);
  }
  Step-Stuck {s} (inside stops) k = record {
    inv = Step-Inv n tid few (inside stops) k.inv;
    queued = subst (Memᴰ t) (stop_tasks s.sched) k.queued;
    awake = k.awake;
  }
  Step-Stuck {s} (outside fc thread) k = record {
    inv = Step-Inv n tid few (outside fc thread) k.inv;
    queued = schedule-Memᴰ fc thread s.sched k.queued;
    awake = k.awake;
  }

  Reach-Stuck : {s u : System} → Reach n tid s u → Stuck s → Stuck u
  Reach-Stuck here k = k
  Reach-Stuck (next r st) k = Step-Stuck st (Reach-Stuck r k)

  -- A queued task that is bound to a thread that is no worker is never taken, and no worker ever
  -- leaves its loop, also after stop(): in every state that is reached from one in which no idle
  -- coroutine has ended, the task is in the queue and no worker has ended.
  pub foreign_task_blocks_stop :
      {s u : System}
      → Reach n tid s u
      → Inv n s
      → Memᴰ t s.sched.tasks
      → ((i : ℕ) → i < n → idle_ended (s.phase i) ≡ false)
      → Memᴰ t u.sched.tasks × ((i : ℕ) → i < n → u.phase i ≢ ended)
  foreign_task_blocks_stop {s} {u} r v m a = (k.queued, λ i lt e. ground (arith, k.awake i lt))
    where
      k : Stuck u
      k = Reach-Stuck r (record { inv = v; queued = m; awake = a })

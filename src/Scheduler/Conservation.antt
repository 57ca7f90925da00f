-- ===== src/Scheduler/Conservation.antt =====
-- What becomes of the tasks given to a Scheduler (synergy/Scheduler.h, synergy/Scheduler.cc).
use mathlib.Core.List.{Perm, perm_middle, append_assoc, append-nil}
use mathlib.Core.List.Perm
use synergy_lib.Prelude.{
  ℕ, arith, inl, inr, List, ◌≡◌, all, if◌then◌else◌, ◌∷◌, [], ◌++◌, true, Bool-cases, ◌<◌, update,
  u64_mod,
}
use synergy_lib.Prelude.Int.{ℤ}
use synergy_lib.Scheduler.{
  ScheduleTask, FiberOrCb, Scheduler, Phase, working, run_round, task_returns, idle_returns,
  schedule_no_lock, stop, has_work, new_task,
}
use synergy_lib.Scheduler.Workers.{
  System, Move, rounds, task_back, idle_back, task_schedules, moves, stops, inside, outside,
}
use synergy_lib.Scheduler.Counters.{Inv, Step-Inv, round_cases}

-- The tasks that a move puts into the queue.
abbrev pub queued_by : FiberOrCb → ℤ → List ScheduleTask
queued_by fc thread = if has_work (new_task fc thread) then new_task fc thread ∷ [] else []

-- The task that a worker is running.
abbrev pub handed_to : Phase → List ScheduleTask
handed_to (working t b) = t ∷ []
handed_to _ = []

abbrev pub queued_in :
    {tid : ℤ} {s s' : Scheduler} {p p' : Phase} → Move tid s p s' p' → List ScheduleTask
queued_in (rounds state b) = []
queued_in (task_back t b) = []
queued_in idle_back = []
queued_in (task_schedules t b fc thread) = queued_by fc thread

-- A round hands its task out; the other moves hand nothing out.
abbrev pub handed_in :
    {tid : ℤ} {s s' : Scheduler} {p p' : Phase} → Move tid s p s' p' → List ScheduleTask
handed_in {tid} {s} (rounds state b) = handed_to (run_round tid state b s).1
handed_in (task_back t b) = []
handed_in idle_back = []
handed_in (task_schedules t b fc thread) = []

schedule_tasks :
    (fc : FiberOrCb) (thread : ℤ) (s : Scheduler)
    → (schedule_no_lock fc thread s).0.tasks ≡ s.tasks ++ queued_by fc thread
unfolding schedule_no_lock
schedule_tasks fc thread s = elim (Bool-cases (has_work (new_task fc thread))) [
  | inl h ↦ rw h
  | inr h ↦ rw (h, append-nil)
]

-- What was in the queue and what came in is what was handed out and what is in the queue.
Move-conserves :
    {tid : ℤ} {s s' : Scheduler} {p p' : Phase} (mv : Move tid s p s' p')
    → all has_work s.tasks ≡ true
    → Perm (s.tasks ++ queued_in mv) (handed_in mv ++ s'.tasks)
unfolding task_returns idle_returns
Move-conserves {tid} {s} (rounds state b) h = elim (round_cases tid state b s h) [
  | inl (t, before, after, e, p, w, r) ↦ rw (p, r, e, append-nil) (perm_middle before after)
  | inr (inl (x, p, r)) ↦ rw (p, r, append-nil) (Perm.refl s.tasks)
  | inr (inr (x, p, r)) ↦ rw (p, r, append-nil) (Perm.refl s.tasks)
]
Move-conserves {tid} {s} (task_back t b) h = rw append-nil (Perm.refl s.tasks)
Move-conserves {tid} {s} idle_back h = rw append-nil (Perm.refl s.tasks)
Move-conserves {tid} {s} (task_schedules t b fc thread) h =
    rw (schedule_tasks fc thread s) (Perm.refl _)

module _ {A : Type 0} where
  Perm_grow :
      (ss qs hs ts ns : List A)
      → Perm (ss ++ qs) (hs ++ ts)
      → Perm (ss ++ (qs ++ ns)) (hs ++ (ts ++ ns))
  Perm_grow ss qs hs ts ns p =
      rw (← append_assoc ss qs ns, ← append_assoc hs ts ns) (Perm.append_right ns p)

  Perm_chain :
      (ss qs hs ts ns bs us : List A)
      → Perm (ss ++ qs) (hs ++ ts)
      → Perm (ts ++ ns) (bs ++ us)
      → Perm (ss ++ (qs ++ ns)) ((hs ++ bs) ++ us)
  Perm_chain ss qs hs ts ns bs us p q =
      Perm.trans (Perm_grow ss qs hs ts ns p) (rw (append_assoc hs bs us) (Perm.append_left hs q))

module _ (n : ℕ) (tid : ℕ → ℤ) where
  -- A run from `s`, with the tasks that came into the queue and the tasks that were handed out.
  pub data Run (s : System) : System → List ScheduleTask → List ScheduleTask → Type 0 where
    begins : Run s s [] []
    worker_moves :
        {t : System} {qs hs : List ScheduleTask} {s' : Scheduler} {p' : Phase} (i : ℕ)
        → Run s t qs hs
        → i < n
        → (mv : Move (tid i) t.sched (t.phase i) s' p')
        → Run s
            (record { sched = s'; phase = update t.phase i p' })
            (qs ++ queued_in mv)
            (hs ++ handed_in mv)
    scheduled :
        {t : System} {qs hs : List ScheduleTask} (fc : FiberOrCb) (thread : ℤ)
        → Run s t qs hs
        → Run s
            (record t { sched = (schedule_no_lock fc thread t.sched).0 })
            (qs ++ queued_by fc thread)
            hs
    stopped :
        {t : System} {qs hs : List ScheduleTask}
        → Run s t qs hs
        → Run s (record t { sched = (stop t.sched).0 }) qs hs

  Run-Inv :
      n < u64_mod → {s u : System} {qs hs : List ScheduleTask} → Run s u qs hs → Inv n s → Inv n u
  Run-Inv few begins v = v
  Run-Inv few (worker_moves i r lt mv) v =
      Step-Inv n tid few (inside (moves i lt mv)) (Run-Inv few r v)
  Run-Inv few (scheduled fc thread r) v = Step-Inv n tid few (outside fc thread) (Run-Inv few r v)
  Run-Inv few (stopped r) v = Step-Inv n tid few (inside stops) (Run-Inv few r v)

  stop_tasks : (s : Scheduler) → (stop s).0.tasks ≡ s.tasks
  unfolding stop
  stop_tasks s = ground arith

  -- No task is lost or run twice: in every run of the workers and their callers, the tasks that were
  -- in the queue at first and those that came in are, as a multiset, the tasks that were handed out
  -- and those that are in the queue at last.
  pub tasks_conserved :
      n < u64_mod
      → {s u : System} {qs hs : List ScheduleTask} → Run s u qs hs
      → Inv n s
      → Perm (s.sched.tasks ++ qs) (hs ++ u.sched.tasks)
  tasks_conserved few {s} begins v = rw append-nil (Perm.refl s.sched.tasks)
  tasks_conserved few {s} (worker_moves {t} {qs} {hs} i r lt mv) v =
      Perm_chain s.sched.tasks qs hs t.sched.tasks (queued_in mv) (handed_in mv) _
        (tasks_conserved few r v) (Move-conserves mv (Run-Inv few r v).runnable)
  tasks_conserved few {s} (scheduled {t} {qs} {hs} fc thread r) v =
      rw (schedule_tasks fc thread t.sched) (
        Perm_grow s.sched.tasks qs hs t.sched.tasks (queued_by fc thread) (tasks_conserved few r v))
  tasks_conserved few {s} (stopped {t} r) v = rw (stop_tasks t.sched) (tasks_conserved few r v)

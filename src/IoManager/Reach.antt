-- ===== src/IoManager/Reach.antt =====
-- Every sequence of calls of IOManager (synergy/iomanager.cc), from its constructor on.
use synergy_lib.Prelude.{
  ℕ, refl, arith, ◌≡◌, Option, Bool, none, ◌<◌, ◌≤◌, ◌^◌, inl, inr, subst, ap, ◌≢◌, Bool-cases, sym,
  length, ◌∙◌, List, some, ◌*◌, ◌/◌, get_elem?,
}
use synergy_lib.IoManager.{
  FdContext, Event, read, only, Epoll, FdOps, IoManager, Outcome, ok, out_of_range,
  assertion_failed, ctl_add,
}
use synergy_lib.IoManager.Ops.{add_to, enlarge_table, del_event, cancel_event, cancel_all}
use synergy_lib.IoManager.Loop.{idle_turn, IdleRound, Wait, new_io_manager}
use synergy_lib.Prelude.Total.{total}
use synergy_lib.IoManager.Invariant.{Inv}
use synergy_lib.IoManager.Pending.{del_event-Inv, cancel_event-Inv}
use synergy_lib.IoManager.CancelAll.{cancel_all-Cancels}
use synergy_lib.IoManager.Adding.{add_to-Returns, IsFree}
use synergy_lib.IoManager.Resizing.{enlarge-Inv}
use synergy_lib.IoManager.Idle.{idle_turn-Inv, TurnAsked, first_wait, after}
use synergy_lib.Scheduler.{Scheduler}

module _ (e : Epoll) (f : FdOps) where
  -- A call that returns; addEvent is cut between its section under the write lock, which comes only if
  -- its test of the table's size has failed, and the rest. The resize makes the table no smaller, as it
  -- does when no other thread has enlarged it since the test. The event that is added is not waited for
  -- and has no EventContext in use; idle() is given reports for events that are waited for.
  pub data Step (m : IoManager e.Kernel) : IoManager e.Kernel → Type 0 where
    enlarges :
        (fd : ℕ)
        → fd < 2 ^ 30
        → length m.contexts ≤ fd * 3 / 2
        → Step m (record m { contexts = enlarge_table e f fd m.contexts })
    adds :
        (fd : ℕ) (ev : Event) (cb : Option ℕ) (scheduler current : ℕ) (c : FdContext)
        (m' : IoManager e.Kernel) (done : Bool)
        → get_elem? m.contexts fd ≡ some c
        → IsFree e f fd ev m.contexts
        → add_to e f fd ev cb scheduler current m c ≡ ok (m', done)
        → Step m m'
    deletes : (fd : ℕ) (ev : Event) → Step m (del_event e f fd ev m).0
    cancels : (fd : ℕ) (ev : Event) → Step m (cancel_event e f fd ev m).0
    cancels_all :
        (fd : ℕ) (m' : IoManager e.Kernel) (done : Bool)
        → cancel_all e f fd m ≡ ok (m', done)
        → Step m m'
    idles :
        (ws : List (Wait e f)) (r : IdleRound e f)
        → TurnAsked e f (first_wait e f ws) m
        → idle_turn e f ws m ≡ some r
        → Step m (after e f r)
    -- Anything that the scheduler's own methods do.
    schedules : (sched : Scheduler) → Step m (record m { sched = sched })

  pub data Reach (s : IoManager e.Kernel) : IoManager e.Kernel → Type 0 where
    here : Reach s s
    next : {m m' : IoManager e.Kernel} → Reach s m → Step m m' → Reach s m'

  result : IoManager e.Kernel → Outcome (IoManager e.Kernel × Bool) → IoManager e.Kernel
  result m (ok x) = x.0
  result m out_of_range = m
  result m assertion_failed = m

  same_result : (x y : IoManager e.Kernel × Bool) → Outcome.ok x ≡ ok y → x.0 ≡ y.0
  unfolding result
  same_result x y eq = ap (result x.0) eq

  module _ (tickle_fd : ℕ) where
    Step-Inv : {m m' : IoManager e.Kernel} → Step m m' → Inv e tickle_fd m → Inv e tickle_fd m'
    Step-Inv {m} (enlarges fd range grows) v = enlarge-Inv e f tickle_fd fd m v range grows
    Step-Inv {m} (adds fd ev cb scheduler current c m' done at free eq) v =
        let r = add_to-Returns e f tickle_fd fd ev cb scheduler current m v free c at in
        subst (Inv e tickle_fd) (same_result (r.0, r.1) (m', done) (sym r.2 ∙ eq)) r.3
    Step-Inv {m} (deletes fd ev) v = del_event-Inv e f tickle_fd fd ev m v
    Step-Inv {m} (cancels fd ev) v = cancel_event-Inv e f tickle_fd fd ev m v
    Step-Inv {m} (cancels_all fd m' done eq) v =
        let r = cancel_all-Cancels e f tickle_fd fd m v in
        subst (Inv e tickle_fd) (same_result (r.0, r.1) (m', done) (sym r.2 ∙ eq)) r.3
    Step-Inv {m} (idles ws r q eq) v = idle_turn-Inv e f tickle_fd ws m r v q eq
    Step-Inv (schedules sched) v = record {
      own = v.own;
      watched = v.watched;
      counted = v.counted;
      small = v.small;
    }

    Reach-Inv : {s m : IoManager e.Kernel} → Reach s m → Inv e tickle_fd s → Inv e tickle_fd m
    Reach-Inv here v = v
    Reach-Inv (next r st) v = Step-Inv st (Reach-Inv r v)

    pipe_keeps :
        (k : e.Kernel) (i : ℕ)
        → i ≢ tickle_fd
        → e.interest (e.ctl ctl_add tickle_fd (only read) k).0 i ≡ e.interest k i
    pipe_keeps k i ne = elim (Bool-cases (e.ctl ctl_add tickle_fd (only read) k).1) [
      | inl done ↦ ground (arith, e.ctl_adds tickle_fd (only read) k done i)
      | inr fails ↦ e.ctl_fails ctl_add tickle_fd (only read) k fails i
    ]

    new-Inv :
        (k : e.Kernel) (sched : Scheduler)
        → ((q : ℕ) → e.interest k q ≡ none)
        → Inv e tickle_fd (new_io_manager e f tickle_fd k sched)
    unfolding new_io_manager total
    new-Inv k sched empty = record {
      own = λ i c h. cc;
      watched = λ i ne. pipe_keeps k i ne ∙ empty i;
      counted = refl;
      small = omega arith;
    }

  -- In every sequence of calls that return, from the constructor on a new epoll, where other calls may
  -- come between the resize of addEvent and the rest of it, each context stands at the index of its
  -- descriptor, epoll waits for exactly the events of the contexts, but for the pipe's own entry, and
  -- m_pendingEventCount counts these events. The conditions: addEvent resizes the table for a descriptor
  -- below 2^30, and to no smaller size; it is called for a descriptor that the table then has, and for an
  -- event that is not waited for and has no EventContext in use; idle() is given no report of input or
  -- output for an event that its context does not wait for when the report's turn comes; and
  -- contextResize(n) of a table of at most n contexts keeps them and has behind them contexts of their
  -- descriptors that wait for nothing.
  pub io_manager_stays-Inv :
      (tickle_fd : ℕ) (k : e.Kernel) (sched : Scheduler) {m : IoManager e.Kernel}
      → ((q : ℕ) → e.interest k q ≡ none)
      → Reach (new_io_manager e f tickle_fd k sched) m
      → Inv e tickle_fd m
  io_manager_stays-Inv tickle_fd k sched empty r =
      Reach-Inv tickle_fd r (new-Inv tickle_fd k sched empty)

-- ===== src/IoManager.antt =====
-- synergy/iomanager.h and synergy/iomanager.cc: the events that descriptors wait for.
-- A set of events (the enum Event as a bit mask: READ is 1 and WRITE is 4) is a record of two bits,
-- and what epoll reports a record of four; EPOLLET is left out. epoll_ctl and the methods of FdContext
-- that have no body in the repository are the fields of `Epoll` and `FdOps`.
pub mod Ops
pub mod Loop
pub mod Invariant
pub mod Pending
pub mod Triggering
pub mod CancelAll
pub mod Stale
pub mod Resizing
pub mod Adding
pub mod Idle
pub mod Wakeup
pub mod Reach
use synergy_lib.Prelude.{
  ℕ, refl, ◌*◌, ◌/◌, Bool, false, true, ◌||◌, ◌&&◌, Option, List, not, ◌≡◌, if◌then◌else◌, length,
  ◌==◌, ◌≤◌, some, ◌<◌, none, get_elem?, u64, ◌+◌, u64_mod, ◌-◌,
}
use synergy_lib.Scheduler.{Scheduler, is_stopping, has_idle_threads}

-- enum Event, as the name of one event. NONE is the empty set.
pub data Event : Type 0 where
  read write : Event

pub record Events : Type 0 where
  pub has_read : Bool
  pub has_write : Bool

abbrev pub no_events : Events
no_events = record { has_read = false; has_write = false }

abbrev pub only : Event → Events
only read = record { has_read = true; has_write = false }
only write = record { has_read = false; has_write = true }

-- a | b
unfoldable pub union : Events → Events → Events
union a b = record { has_read = a.has_read || b.has_read; has_write = a.has_write || b.has_write }

-- a & b
unfoldable pub inter : Events → Events → Events
inter a b = record { has_read = a.has_read && b.has_read; has_write = a.has_write && b.has_write }

-- a & ~b
unfoldable pub minus : Events → Events → Events
minus a b = record {
  has_read = a.has_read && not b.has_read;
  has_write = a.has_write && not b.has_write;
}

-- A set of events as a condition.
abbrev pub nonempty : Events → Bool
nonempty a = a.has_read || a.has_write

-- EPOLLIN, EPOLLOUT, EPOLLERR and EPOLLHUP of epoll_event::events.
pub record Report : Type 0 where
  pub epollin : Bool
  pub epollout : Bool
  pub epollerr : Bool
  pub epollhup : Bool

-- FdContext::EventContext
pub record EventContext : Type 0 where
  pub scheduler : Option ℕ
  pub piber : Option ℕ
  pub cb : Option ℕ

-- FdContext
pub record FdContext : Type 0 where
  pub read_ctx : EventContext
  pub write_ctx : EventContext
  pub fd : ℕ
  pub events : Events

-- EPOLL_CTL_ADD, EPOLL_CTL_MOD and EPOLL_CTL_DEL
pub data CtlOp : Type 0 where
  ctl_add ctl_mod ctl_del : CtlOp

-- What epoll_ctl(2) documents: a call that returns 0 adds, changes or removes the entry of the
-- descriptor in the interest list, and any other call leaves the list as it is.
pub record Epoll : Type 1 where
  pub Kernel : Type 0
  pub interest : Kernel → ℕ → Option Events
  pub ctl : CtlOp → ℕ → Events → Kernel → Kernel × Bool
  pub ctl_fails :
      (op : CtlOp) (fd : ℕ) (ev : Events) (k : Kernel)
      → (ctl op fd ev k).1 ≡ false
      → (q : ℕ) → interest (ctl op fd ev k).0 q ≡ interest k q
  pub ctl_adds :
      (fd : ℕ) (ev : Events) (k : Kernel)
      → (ctl ctl_add fd ev k).1 ≡ true
      → (q : ℕ) → interest (ctl ctl_add fd ev k).0 q ≡ (if fd == q then some ev else interest k q)
  pub ctl_changes :
      (fd : ℕ) (ev : Events) (k : Kernel)
      → (ctl ctl_mod fd ev k).1 ≡ true
      → (q : ℕ) → interest (ctl ctl_mod fd ev k).0 q ≡ (if fd == q then some ev else interest k q)
  pub ctl_removes :
      (fd : ℕ) (ev : Events) (k : Kernel)
      → (ctl ctl_del fd ev k).1 ≡ true
      → (q : ℕ) → interest (ctl ctl_del fd ev k).0 q ≡ (if fd == q then none else interest k q)

-- The methods of FdContext that iomanager.h declares, and contextResize, which it does not: what
-- their comments and their callers say of them. `write_event_context` stores through the reference
-- that getEventContext returns.
pub record FdOps : Type 0 where
  pub get_event_context : Event → FdContext → EventContext
  pub write_event_context : Event → EventContext → FdContext → FdContext
  pub reset_event_context : EventContext → EventContext
  pub trigger_event : Event → FdContext → Scheduler → FdContext × Scheduler
  pub context_resize : ℕ → List FdContext → List FdContext
  -- An event context is no part of `fd` and `events`.
  pub write-events :
      (ev : Event) (x : EventContext) (c : FdContext)
      → (write_event_context ev x c).events ≡ c.events
  pub write-fd :
      (ev : Event) (x : EventContext) (c : FdContext) → (write_event_context ev x c).fd ≡ c.fd
  -- The event that is triggered is no longer waited for, on which cancelEvent and cancelAll rely.
  pub trigger-events :
      (ev : Event) (c : FdContext) (s : Scheduler)
      → (trigger_event ev c s).0.events ≡ minus c.events (only ev)
  pub trigger-fd : (ev : Event) (c : FdContext) (s : Scheduler) → (trigger_event ev c s).0.fd ≡ c.fd
  -- The table has the size asked for, its old contexts, and behind them contexts that wait for nothing.
  pub resize-length :
      (n : ℕ) (cs : List FdContext) → length cs ≤ n → length (context_resize n cs) ≡ n
  pub resize-old :
      (n i : ℕ) (cs : List FdContext)
      → i < length cs
      → length cs ≤ n
      → get_elem? (context_resize n cs) i ≡ get_elem? cs i
  pub resize-new :
      (n i : ℕ) (cs : List FdContext) (c : FdContext)
      → length cs ≤ i
      → length cs ≤ n
      → get_elem? (context_resize n cs) i ≡ some c
      → (c.fd ≡ i) × (c.events ≡ no_events)

pub record IoManager (K : Type 0) : Type 0 where
  pub kernel : K
  pub contexts : List FdContext
  pub pending_event_count : ℕ
  pub sched : Scheduler

-- How a call can end: with a result, by an access behind the end of m_fdContexts, or at a failed
-- SYLAR_ASSERT.
pub data Outcome (A : Type 0) : Type 0 where
  ok : A → Outcome A
  out_of_range : Outcome A
  assertion_failed : Outcome A

-- ++m_pendingEventCount and --m_pendingEventCount
abbrev pub increment : ℕ → ℕ
increment n = u64 (n + 1)

abbrev pub decrement : ℕ → ℕ
decrement n = u64 (n + u64_mod - 1)

-- IOManager::stopping
unfoldable pub stopping : {K : Type 0} → IoManager K → Bool
unfolding is_stopping
stopping m = m.pending_event_count == 0 && is_stopping m.sched

-- IOManager::tickle: whether it writes to the pipe.
unfoldable pub tickle : {K : Type 0} → IoManager K → Bool
unfolding has_idle_threads
tickle m = has_idle_threads m.sched

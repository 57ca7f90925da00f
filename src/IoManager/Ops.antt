-- ===== src/IoManager/Ops.antt =====
-- The methods of IOManager (synergy/iomanager.cc) on the events of a descriptor. A call holds the
-- context's lock from the lookup on, and is one step.
use synergy_lib.Prelude.Int.{ℤ, pos, negsuc}
use synergy_lib.Prelude.{
  ◌%◌, ◌^◌, ℕ, Bool, Option, List, set, ◌||◌, if◌then◌else◌, get_elem?, not, some, ltb, ◌&&◌,
  is_some, length, false, none, ◌*◌, true, ◌/◌,
}
use synergy_lib.IoManager.{
  Event, read, write, Events, no_events, only, union, inter, minus, nonempty, Report, EventContext,
  FdContext, ctl_add, ctl_mod, ctl_del, Epoll, FdOps, IoManager, Outcome, ok, out_of_range,
  assertion_failed, increment, decrement,
}

abbrev pub is_unused : EventContext → Bool
is_unused x = not (is_some x.scheduler) && not (is_some x.piber) && not (is_some x.cb)

-- The event context that addEvent fills in: the callback, or the current coroutine if there is none.
abbrev pub filled : ℕ → Option ℕ → ℕ → EventContext
filled scheduler cb current = record {
  scheduler = some scheduler;
  piber = if is_some cb then none else some current;
  cb = cb;
}

-- (int)m_fdContexts.size() > fd, for a descriptor that is not negative; the conversion to int keeps the
-- lowest 32 bits, and is negative from 2^31 on.
abbrev pub reaches : ℕ → List FdContext → Bool
reaches fd cs = let size = length cs % 2 ^ 32 in ltb size (2 ^ 31) && ltb fd size

module _ (e : Epoll) (f : FdOps) where
  -- What addEvent does to the table under its write lock, when the test under its read lock has
  -- failed: contextResize(fd * 1.5).
  unfoldable pub enlarge_table : ℕ → List FdContext → List FdContext
  enlarge_table fd cs = f.context_resize (fd * 3 / 2) cs

  -- The lookup of addEvent, when no other thread takes the lock between the test and the resize.
  unfoldable pub find_table : ℕ → List FdContext → List FdContext
  unfolding enlarge_table
  find_table fd cs = if reaches fd cs then cs else enlarge_table fd cs

  unfoldable pub add_to :
      ℕ
      → Event
      → Option ℕ
      → ℕ
      → ℕ
      → IoManager e.Kernel
      → FdContext
      → Outcome (IoManager e.Kernel × Bool)
  add_to fd ev cb scheduler current m c =
      let asked = union c.events (only ev) in
      let (kernel, done) =
        e.ctl (if nonempty c.events then ctl_mod else ctl_add) fd asked m.kernel in
      let c' : FdContext = record c { events = asked } in
      let x = filled scheduler cb current in
      if not done
      then ok (record m { kernel = kernel }, false)
      else if is_unused (f.get_event_context ev c')
      then ok (
        record m {
          kernel = kernel;
          contexts = set m.contexts fd (f.write_event_context ev x c');
          pending_event_count = increment m.pending_event_count;
        },
        true,
      )
      else assertion_failed

  -- IOManager::addEvent: true stands for the result 0, false for -1. `scheduler` and `current` are
  -- what Scheduler::GetThis() and Piber::GetThis() return. A negative `fd` is an index behind the end of
  -- any table, whether the test under the read lock holds or not. No other thread takes the lock between
  -- that test and the resize.
  unfoldable pub add_event :
      ℤ → Event → Option ℕ → ℕ → ℕ → IoManager e.Kernel → Outcome (IoManager e.Kernel × Bool)
  unfolding add_to find_table
  add_event (negsuc k) ev cb scheduler current m = out_of_range
  add_event (pos fd) ev cb scheduler current m =
      let m' = record m { contexts = find_table fd m.contexts } in
      elim (get_elem? m'.contexts fd) [
        | none ↦ out_of_range
        | some c ↦ add_to fd ev cb scheduler current m' c
      ]

  unfoldable pub del_from : ℕ → Event → IoManager e.Kernel → FdContext → IoManager e.Kernel × Bool
  del_from fd ev m c =
      let left = minus c.events (only ev) in
      let (kernel, done) = e.ctl (if nonempty left then ctl_mod else ctl_del) fd left m.kernel in
      let c' : FdContext = record c { events = left } in
      if not (nonempty (inter c.events (only ev)))
      then (m, false)
      else if not done
      then (record m { kernel = kernel }, false)
      else (
        record m {
          kernel = kernel;
          contexts =
              set m.contexts fd
                (f.write_event_context ev (f.reset_event_context (f.get_event_context ev c')) c');
          pending_event_count = decrement m.pending_event_count;
        },
        true,
      )

  -- IOManager::delEvent
  unfoldable pub del_event : ℕ → Event → IoManager e.Kernel → IoManager e.Kernel × Bool
  unfolding del_from
  del_event fd ev m = elim (get_elem? m.contexts fd) [
    | none ↦ (m, false)
    | some c ↦ del_from fd ev m c
  ]

  -- fd_ctx->triggerEvent(event); --m_pendingEventCount
  unfoldable pub trigger :
      ℕ → Event → FdContext → IoManager e.Kernel → IoManager e.Kernel × FdContext
  trigger fd ev c m =
      let (c', sched) = f.trigger_event ev c m.sched in
      (
        record m {
          contexts = set m.contexts fd c';
          pending_event_count = decrement m.pending_event_count;
          sched = sched;
        },
        c',
      )

  unfoldable pub cancel_from :
      ℕ → Event → IoManager e.Kernel → FdContext → IoManager e.Kernel × Bool
  unfolding trigger
  cancel_from fd ev m c =
      let left = minus c.events (only ev) in
      let (kernel, done) = e.ctl (if nonempty left then ctl_mod else ctl_del) fd left m.kernel in
      if not (nonempty (inter c.events (only ev)))
      then (m, false)
      else if not done
      then (record m { kernel = kernel }, false)
      else ((trigger fd ev c (record m { kernel = kernel })).0, true)

  -- IOManager::cancelEvent
  unfoldable pub cancel_event : ℕ → Event → IoManager e.Kernel → IoManager e.Kernel × Bool
  unfolding cancel_from
  cancel_event fd ev m = elim (get_elem? m.contexts fd) [
    | none ↦ (m, false)
    | some c ↦ cancel_from fd ev m c
  ]

  -- if(test) { fd_ctx->triggerEvent(event); --m_pendingEventCount; }
  unfoldable pub trigger_if :
      Bool → ℕ → Event → FdContext → IoManager e.Kernel → IoManager e.Kernel × FdContext
  unfolding trigger
  trigger_if test fd ev c m = if test then trigger fd ev c m else (m, c)

  unfoldable pub cancel_all_from :
      ℕ → IoManager e.Kernel → FdContext → Outcome (IoManager e.Kernel × Bool)
  cancel_all_from fd m c =
      let (kernel, done) = e.ctl ctl_del fd no_events m.kernel in
      let (m1, c1) = trigger_if c.events.has_read fd read c (record m { kernel = kernel }) in
      let (m2, c2) = trigger_if c1.events.has_write fd write c1 m1 in
      if not (nonempty c.events)
      then ok (m, false)
      else if not done
      then ok (record m { kernel = kernel }, false)
      else if nonempty c2.events
      then assertion_failed
      else ok (m2, true)

  -- IOManager::cancelAll
  unfoldable pub cancel_all : ℕ → IoManager e.Kernel → Outcome (IoManager e.Kernel × Bool)
  unfolding cancel_all_from
  cancel_all fd m = elim (get_elem? m.contexts fd) [
    | none ↦ ok (m, false)
    | some c ↦ cancel_all_from fd m c
  ]

  -- The events that idle() takes a report for: an error or a hang-up stands for all that are waited for.
  unfoldable pub real_events : Report → Events → Events
  real_events r waited =
      let broken = r.epollerr || r.epollhup in
      record {
        has_read = r.epollin || broken && waited.has_read;
        has_write = r.epollout || broken && waited.has_write;
      }

  unfoldable pub handle : Report → ℕ → IoManager e.Kernel → FdContext → IoManager e.Kernel
  unfolding trigger_if real_events
  handle r i m c =
      let real = real_events r c.events in
      let left = minus c.events real in
      let (kernel, done) = e.ctl (if nonempty left then ctl_mod else ctl_del) c.fd left m.kernel in
      let (m1, c1) = trigger_if real.has_read i read c (record m { kernel = kernel }) in
      let (m2, c2) = trigger_if real.has_write i write c1 m1 in
      if not (nonempty (inter c.events real))
      then m
      else if not done
      then record m { kernel = kernel }
      else m2

  -- One round of the loop of IOManager::idle over the reports, for the context with the index `i`.
  unfoldable pub handle_report : Report → ℕ → IoManager e.Kernel → IoManager e.Kernel
  unfolding handle
  handle_report r i m = elim (get_elem? m.contexts i) [ none ↦ m | some c ↦ handle r i m c ]

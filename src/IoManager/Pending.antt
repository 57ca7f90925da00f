-- ===== src/IoManager/Pending.antt =====
-- The methods of IOManager (synergy/iomanager.cc) keep what holds of it.
use synergy_lib.Prelude.{
  ℕ, arith, inl, inr, ◌≡◌, get_elem?, Option-cases, true, some, ◌+◌, ◌≤◌, ◌<◌, u64_mod,
  if◌then◌else◌, Bool-cases,
}
use synergy_lib.IoManager.{
  Event, read, write, Events, only, minus, inter, nonempty, FdContext, CtlOp, ctl_mod, ctl_del,
  Epoll, IoManager, FdOps, decrement,
}
use synergy_lib.IoManager.Ops.{del_event, del_from, cancel_event, cancel_from, trigger}
use synergy_lib.IoManager.Invariant.{
  Inv, store-Inv, failed-Inv, leave-Entered, size, waiting-le, size-le-waiting,
}

size-minus-only :
    (a : Events) (ev : Event)
    → nonempty (inter a (only ev)) ≡ true
    → size (minus a (only ev)) + 1 ≡ size a
unfolding minus inter
size-minus-only a read h = ground arith
size-minus-only a write h = ground arith

module _ (e : Epoll) (f : FdOps) (tickle_fd : ℕ) where
  -- The count is positive while a context waits for something, and far from its bound.
  pub pending_range :
      (m : IoManager e.Kernel) (i : ℕ) (c : FdContext)
      → Inv e tickle_fd m
      → get_elem? m.contexts i ≡ some c
      → (size c.events ≤ m.pending_event_count) × (m.pending_event_count + 2 < u64_mod)
  pending_range m i c v h = (
    omega (arith, v.counted, size-le-waiting m.contexts i c h),
    omega (arith, v.counted, waiting-le m.contexts, v.small),
  )

  module _ (fd : ℕ) (ev : Event) (m : IoManager e.Kernel) (v : Inv e tickle_fd m) (c : FdContext)
      (h : get_elem? m.contexts fd ≡ some c) where
    abbrev left : Events
    left = minus c.events (only ev)

    abbrev leaving : CtlOp
    leaving = if nonempty left then ctl_mod else ctl_del

    del_from-Inv : Inv e tickle_fd (del_from e f fd ev m c).0
    unfolding del_from
    del_from-Inv = elim (Bool-cases (nonempty (inter c.events (only ev)))) [
      | inr none_such ↦ rw none_such v
      | inl there ↦ rw there (elim (Bool-cases (e.ctl leaving fd left m.kernel).1) [
        | inr fails ↦ rw fails (failed-Inv e tickle_fd m leaving fd left fails v)
        | inl done ↦ rw done (
            store-Inv e tickle_fd m fd c
              (f.write_event_context ev
                (f.reset_event_context (f.get_event_context ev (record c { events = left })))
                (record c { events = left }))
              _ (decrement m.pending_event_count) m.sched v h (f.write-fd ev _ _)
              (rw (f.write-events ev _ _) (leave-Entered e tickle_fd fd left m.kernel done))
              (rw (f.write-events ev _ _)
                (omega (arith, size-minus-only c.events ev there, pending_range m fd c v h))))
      ])
    ]

    cancel_from-Inv : Inv e tickle_fd (cancel_from e f fd ev m c).0
    unfolding cancel_from trigger
    cancel_from-Inv = elim (Bool-cases (nonempty (inter c.events (only ev)))) [
      | inr none_such ↦ rw none_such v
      | inl there ↦ rw there (elim (Bool-cases (e.ctl leaving fd left m.kernel).1) [
        | inr fails ↦ rw fails (failed-Inv e tickle_fd m leaving fd left fails v)
        | inl done ↦ rw done (
            store-Inv e tickle_fd m fd c (f.trigger_event ev c m.sched).0 _
              (decrement m.pending_event_count) (f.trigger_event ev c m.sched).1 v h
              (f.trigger-fd ev c m.sched)
              (rw (f.trigger-events ev c m.sched) (leave-Entered e tickle_fd fd left m.kernel done))
              (rw (f.trigger-events ev c m.sched)
                (omega (arith, size-minus-only c.events ev there, pending_range m fd c v h))))
      ])
    ]

  -- delEvent, on every path, keeps the count and the interest list in step with the events that the
  -- contexts wait for.
  pub del_event-Inv :
      (fd : ℕ) (ev : Event) (m : IoManager e.Kernel)
      → Inv e tickle_fd m
      → Inv e tickle_fd (del_event e f fd ev m).0
  unfolding del_event
  del_event-Inv fd ev m v = elim (Option-cases (get_elem? m.contexts fd)) [
    | inl n ↦ rw (n, del_event) v
    | inr (c, h) ↦ rw (h, del_event) (del_from-Inv fd ev m v c h)
  ]

  -- cancelEvent, on every path, keeps the count and the interest list in step with the events that
  -- the contexts wait for.
  pub cancel_event-Inv :
      (fd : ℕ) (ev : Event) (m : IoManager e.Kernel)
      → Inv e tickle_fd m
      → Inv e tickle_fd (cancel_event e f fd ev m).0
  unfolding cancel_event
  cancel_event-Inv fd ev m v = elim (Option-cases (get_elem? m.contexts fd)) [
    | inl n ↦ rw (n, cancel_event) v
    | inr (c, h) ↦ rw (h, cancel_event) (cancel_from-Inv fd ev m v c h)
  ]

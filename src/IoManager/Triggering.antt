-- ===== src/IoManager/Triggering.antt =====
-- The reports that IOManager::idle handles, and IOManager::cancelAll (synergy/iomanager.cc): both
-- trigger the read event and the write event of a context in turn.
use synergy_lib.Prelude.{
  true, false, Bool, ◌-◌, ◌∙◌, ℕ, arith, inl, inr, Bool, ◌≡◌, ◌||◌, set, true, ◌-◌, ◌+◌, ◌≤◌, ◌<◌,
  u64_mod, ◌∙◌, get_elem?, Option-cases, some, subst, if◌then◌else◌, sym, Bool-cases,
}
use synergy_lib.Prelude.Table.{set-set}
use synergy_lib.IoManager.{
  read, write, Events, minus, inter, nonempty, FdContext, CtlOp, ctl_mod, ctl_del, Epoll, IoManager,
  FdOps, Report,
}
use synergy_lib.IoManager.Ops.{handle_report, handle, trigger, trigger_if, real_events}
use synergy_lib.IoManager.Invariant.{
  Inv, store-Inv, failed-Inv, leave-Entered, Entered, size, bit, events_at,
}
use synergy_lib.IoManager.Pending.{pending_range}

abbrev pub both : Bool → Bool → Events
both r w = record { has_read = r; has_write = w }

module _ (e : Epoll) (f : FdOps) where
  -- The state and the context after both events were triggered, each if its flag is set.
  abbrev pub twice :
      Bool → Bool → ℕ → FdContext → IoManager e.Kernel → IoManager e.Kernel × FdContext
  twice r w fd c m =
      let first = trigger_if e f r fd read c m in trigger_if e f w fd write first.1 first.0

  abbrev pub Twice : Bool → Bool → ℕ → FdContext → IoManager e.Kernel → Type 0
  Twice r w fd c m =
      let t = twice r w fd c m in
      (t.1.events ≡ minus c.events (both r w))
      × (t.1.fd ≡ c.fd)
      × (t.0 ≡ record m {
        contexts = set m.contexts fd t.1;
        pending_event_count = m.pending_event_count - (bit r + bit w);
        sched = t.0.sched;
      })

  pub twice_lem :
      (r w : Bool) (fd : ℕ) (c : FdContext) (m : IoManager e.Kernel)
      → (r || w) ≡ true
      → bit r + bit w ≤ m.pending_event_count
      → m.pending_event_count < u64_mod
      → Twice r w fd c m
  unfolding trigger_if trigger minus
  twice_lem true true fd c m h n lt =
      let p = f.trigger_event read c m.sched in
      let q = f.trigger_event write p.0 p.1 in
      (
        ground (arith, f.trigger-events read c m.sched, f.trigger-events write p.0 p.1),
        f.trigger-fd write p.0 p.1 ∙ f.trigger-fd read c m.sched,
        ground (arith, set-set m.contexts fd p.0 q.0),
      )
  twice_lem true false fd c m h n lt =
      (ground (arith, f.trigger-events read c m.sched), f.trigger-fd read c m.sched, ground arith)
  twice_lem false true fd c m h n lt =
      (ground (arith, f.trigger-events write c m.sched), f.trigger-fd write c m.sched, ground arith)
  twice_lem false false fd c m h n lt = cc

nonempty-inter : (a b : Events) → nonempty (inter a b) ≡ true → nonempty b ≡ true
unfolding inter
nonempty-inter a b h = ground arith

-- epoll reports input or output only for a descriptor that waits for it.
pub record IsAsked (r : Report) (waited : Events) : Type 0 where
  pub input : r.epollin ≡ true → waited.has_read ≡ true
  pub output : r.epollout ≡ true → waited.has_write ≡ true

module _ (e : Epoll) (f : FdOps) where
  size-real_events :
      (r : Report) (a : Events)
      → IsAsked r a
      → size (minus a (real_events e f r a)) + size (real_events e f r a) ≡ size a
  unfolding minus real_events
  size-real_events r a q = ground (arith, q.input, q.output)

  module _ (tickle_fd i : ℕ) (m : IoManager e.Kernel) (c : FdContext) (v : Inv e tickle_fd m)
      (h : get_elem? m.contexts i ≡ some c) where
    -- The events `real` are taken from the context and triggered, and the entry follows.
    pub twice-Inv :
        (real : Events) (k : e.Kernel)
        → nonempty real ≡ true
        → size (minus c.events real) + size real ≡ size c.events
        → Entered e tickle_fd m.kernel i (minus c.events real) k
        → Inv e tickle_fd (twice e f real.has_read real.has_write i c (record m { kernel = k })).0
    twice-Inv real k some_event sizes entered =
        let range = pending_range e f tickle_fd m i c v h in
        let t =
          twice_lem e f real.has_read real.has_write i c (record m { kernel = k }) some_event
            (omega (arith, sizes, range.0)) (omega (arith, range.1)) in
        subst (Inv e tickle_fd) (sym t.2) (
          store-Inv e tickle_fd m i c _ k _ _ v h t.1 (rw t.0 entered)
            (rw t.0 (omega (arith, sizes, range.0))))

    pub handle-Inv : (r : Report) → IsAsked r c.events → Inv e tickle_fd (handle e f r i m c)
    unfolding handle
    handle-Inv r q = elim (Bool-cases (nonempty (inter c.events real))) [
      | inr none_such ↦ rw none_such v
      | inl there ↦ rw there (elim (Bool-cases (e.ctl op c.fd left m.kernel).1) [
        | inr fails ↦ rw fails (failed-Inv e tickle_fd m op c.fd left fails v)
        | inl done ↦ rw done (
            twice-Inv real _ (nonempty-inter c.events real there) (size-real_events r c.events q) (
              subst (λ n. Entered e tickle_fd m.kernel n left (e.ctl op c.fd left m.kernel).0)
                (v.own i c h) (leave-Entered e tickle_fd c.fd left m.kernel done)))
      ])
    ]
      where
        real : Events
        real = real_events e f r c.events

        left : Events
        left = minus c.events real

        op : CtlOp
        op = if nonempty left then ctl_mod else ctl_del

  -- A round of idle() over one report keeps the count and the interest list in step, if epoll reports
  -- only what the context waits for when its lock is taken.
  pub handle_report-Inv :
      (tickle_fd : ℕ) (r : Report) (i : ℕ) (m : IoManager e.Kernel)
      → Inv e tickle_fd m
      → IsAsked r (events_at m.contexts i)
      → Inv e tickle_fd (handle_report e f r i m)
  unfolding handle_report
  handle_report-Inv tickle_fd r i m v q = elim (Option-cases (get_elem? m.contexts i)) [
    | inl n ↦ rw (n, handle_report) v
    | inr (c, h) ↦
        rw (h, handle_report)
          (handle-Inv tickle_fd i m c v h r
            (record { input = ground (arith, q.input, h); output = ground (arith, q.output, h) }))
  ]

-- ===== src/IoManager/Stale.antt =====
-- A report of IOManager::idle (synergy/iomanager.cc) that is older than the context's events.
use synergy_lib.IoManager.Pending.{del_event-Inv}
use synergy_lib.IoManager.Triggering.{twice}
use synergy_lib.Prelude.{ℕ, refl, arith, true, ◌∙◌, get_elem?, ◌≡◌, some, set, ap, sym}
use synergy_lib.Prelude.Table.{set-set, get_elem?-set}
use synergy_lib.IoManager.{
  read, write, no_events, only, minus, inter, FdContext, ctl_del, Epoll, IoManager, FdOps, Report,
  decrement, Events,
}
use synergy_lib.IoManager.Ops.{
  trigger, trigger_if, handle, handle_report, real_events, del_from, del_event,
}
use synergy_lib.IoManager.Invariant.{Inv, waiting-set, size-le-waiting, waiting-le}

module _ (e : Epoll) (f : FdOps) (tickle_fd i : ℕ) (r : Report) (m : IoManager e.Kernel)
    (c : FdContext) where
  handled_both :
      c.events ≡ only write
      → r.epollin ≡ true
      → r.epollout ≡ true
      → (e.ctl ctl_del c.fd no_events m.kernel).1 ≡ true
      → handle e f r i m c
        ≡ (twice e f true true i c
            (record m { kernel = (e.ctl ctl_del c.fd no_events m.kernel).0 })).0
  unfolding handle real_events minus inter
  handled_both w x y done = ground (arith, done)

  both_pending :
      (k : e.Kernel)
      → let t = twice e f true true i c (record m { kernel = k }) in
        (t.0.pending_event_count ≡ decrement (decrement m.pending_event_count))
        × (t.0.contexts ≡ set m.contexts i t.1)
        × (t.1.events ≡ minus (minus c.events (only read)) (only write))
  unfolding trigger_if trigger
  both_pending k =
      let p = f.trigger_event read c m.sched in
      (
        refl,
        set-set m.contexts i p.0 (f.trigger_event write p.0 p.1).0,
        f.trigger-events write p.0 p.1
            ∙ ap (λ a. minus a (only write)) (f.trigger-events read c m.sched),
      )

  -- In a manager in step, a report of input and output for a context that waits for output only, as
  -- when its read event is taken away after epoll_wait has returned, takes 2 from
  -- m_pendingEventCount for one event if epoll_ctl succeeds: afterwards the manager is out of step.
  stale_report_breaks_count :
      Inv e tickle_fd m
      → get_elem? m.contexts i ≡ some c
      → c.events ≡ only write
      → r.epollin ≡ true
      → r.epollout ≡ true
      → (e.ctl ctl_del c.fd no_events m.kernel).1 ≡ true
      → let m' = handle_report e f r i m in
        (m'.pending_event_count ≡ decrement (decrement m.pending_event_count))
        × ¬ Inv e tickle_fd m'
  unfolding handle_report minus
  stale_report_breaks_count v h w x y done =
      rw (h, handle_report)
        (rw (handled_both w x y done) (
          b.0,
          λ v'. ground (
            arith,
            v'.counted,
            b.0,
            b.1,
            b.2,
            v.counted,
            v.small,
            waiting-set m.contexts i c t.1 h,
            waiting-le m.contexts,
            size-le-waiting m.contexts i c h,
          ),
        ))
    where
      k : e.Kernel
      k = (e.ctl ctl_del c.fd no_events m.kernel).0

      t : IoManager e.Kernel × FdContext
      t = twice e f true true i c (record m { kernel = k })

      b :
          (t.0.pending_event_count ≡ decrement (decrement m.pending_event_count))
          × (t.0.contexts ≡ set m.contexts i t.1)
          × (t.1.events ≡ minus (minus c.events (only read)) (only write))
      b = both_pending k

abbrev both : Events
both = record { has_read = true; has_write = true }

-- What a delEvent of READ that returns true leaves of a context that waits for both events.
module _ (e : Epoll) (f : FdOps) (i : ℕ) (m : IoManager e.Kernel) (c : FdContext) where
  abbrev without_read : FdContext
  without_read =
      let c' : FdContext = record c { events = minus c.events (only read) } in
      f.write_event_context read (f.reset_event_context (f.get_event_context read c')) c'

  del_done :
      c.events ≡ both
      → (del_from e f i read m c).1 ≡ true
      → ((del_from e f i read m c).0.contexts ≡ set m.contexts i without_read)
        × ((del_from e f i read m c).0.pending_event_count ≡ decrement m.pending_event_count)
  unfolding del_from inter minus
  del_done w done = ground (arith, w, done)

  del_looks_up : get_elem? m.contexts i ≡ some c → del_event e f i read m ≡ del_from e f i read m c
  unfolding del_event
  del_looks_up h = rw (h, del_event) refl

  after_del :
      get_elem? m.contexts i ≡ some c
      → c.events ≡ both
      → (del_event e f i read m).1 ≡ true
      → (get_elem? (del_event e f i read m).0.contexts i ≡ some without_read)
        × ((del_event e f i read m).0.pending_event_count ≡ decrement m.pending_event_count)
  after_del h w done =
      let looked = del_looks_up h in
      let d = del_done w (ap (λ r. r.1) (sym looked) ∙ done) in
      (
        ap (λ r. get_elem? r.0.contexts i) looked
            ∙ (ap (λ cs. get_elem? cs i) d.0
                ∙ ground (arith, get_elem?-set m.contexts i i without_read c h)),
        ap (λ r. r.0.pending_event_count) looked ∙ d.1,
      )

  -- In a manager in step, a descriptor waits for input and output, and epoll_wait reports both. If
  -- another thread's delEvent of READ succeeds before idle() handles the report, and epoll_ctl then
  -- removes the descriptor, idle() takes 2 from m_pendingEventCount, which is 3 in all for two
  -- events, and leaves the manager out of step.
  pub late_report_breaks_count :
      (tickle_fd : ℕ) (r : Report)
      → Inv e tickle_fd m
      → get_elem? m.contexts i ≡ some c
      → c.events ≡ both
      → r.epollin ≡ true
      → r.epollout ≡ true
      → (del_event e f i read m).1 ≡ true
      → (e.ctl ctl_del c.fd no_events (del_event e f i read m).0.kernel).1 ≡ true
      → let m' = handle_report e f r i (del_event e f i read m).0 in
        (m'.pending_event_count ≡ decrement (decrement (decrement m.pending_event_count)))
        × ¬ Inv e tickle_fd m'
  unfolding minus
  late_report_breaks_count tickle_fd r v h w x y done removed =
      let d = after_del h w done in
      let same_fd : without_read.fd ≡ c.fd = f.write-fd read _ _ in
      let b =
        stale_report_breaks_count e f tickle_fd i r (del_event e f i read m).0 without_read
          (del_event-Inv e f tickle_fd i read m v) d.0
          (f.write-events read _ _ ∙ ap (λ a. minus a (only read)) w) x y
          (ap (λ q. (e.ctl ctl_del q no_events (del_event e f i read m).0.kernel).1) same_fd
            ∙ removed) in
      (b.0 ∙ ap (λ q. decrement (decrement q)) d.1, b.1)

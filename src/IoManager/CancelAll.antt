-- ===== src/IoManager/CancelAll.antt =====
-- IOManager::cancelAll (synergy/iomanager.cc).
use synergy_lib.Prelude.{
  ℕ, refl, arith, inl, inr, true, false, Bool, ◌∙◌, ◌≡◌, get_elem?, some, Bool-cases, Option-cases,
}
use synergy_lib.IoManager.{
  read, Events, no_events, minus, nonempty, FdContext, ctl_del, Epoll, IoManager, FdOps, Outcome,
  ok,
}
use synergy_lib.IoManager.Ops.{trigger, trigger_if, cancel_all, cancel_all_from}
use synergy_lib.IoManager.Invariant.{Inv, failed-Inv, events_at}
use synergy_lib.IoManager.Pending.{pending_range}
use synergy_lib.Prelude.Table.{get_elem?-set}
use synergy_lib.IoManager.Triggering.{twice, Twice, twice_lem, twice-Inv}

minus_self : (a : Events) → minus a a ≡ no_events
unfolding minus
minus_self a = ground arith

module _ (e : Epoll) (f : FdOps) where
  -- The first trigger leaves the test for the second event as it was.
  write_stays :
      (r : Bool) (fd : ℕ) (c : FdContext) (m : IoManager e.Kernel)
      → (trigger_if e f r fd read c m).1.events.has_write ≡ c.events.has_write
  unfolding trigger_if trigger minus
  write_stays true fd c m = ground (arith, f.trigger-events read c m.sched)
  write_stays false fd c m = refl

  -- What cancelAll returns: no assertion fails, the state stays in step, and after a success the
  -- context waits for nothing.
  abbrev pub Cancels : ℕ → ℕ → Outcome (IoManager e.Kernel × Bool) → Type 0
  Cancels tickle_fd fd o =
      (m' : IoManager e.Kernel) × (done : Bool) × (o ≡ ok (m', done))
      × Inv e tickle_fd m'
      × (done ≡ true → events_at m'.contexts fd ≡ no_events)

  module _ (tickle_fd fd : ℕ) (m : IoManager e.Kernel) (c : FdContext) (v : Inv e tickle_fd m)
      (h : get_elem? m.contexts fd ≡ some c) where
    cancel_all_from-Cancels : Cancels tickle_fd fd (cancel_all_from e f fd m c)
    unfolding cancel_all_from
    cancel_all_from-Cancels = elim (Bool-cases (nonempty c.events)) [
      | inr none_such ↦ (m, false, rw none_such, v, λ x. cc)
      | inl there ↦ elim (Bool-cases (e.ctl ctl_del fd no_events m.kernel).1) [
        | inr fails ↦ (
          record m { kernel = k },
          false,
          rw (there, fails),
          failed-Inv e tickle_fd m ctl_del fd no_events fails v,
          λ x. cc,
        )
        | inl done ↦ (
          t.0,
          true,
          rw
              (
                there,
                done,
                write_stays c.events.has_read fd c (record m { kernel = k }),
                drained there,
              )
              refl,
          twice-Inv e f tickle_fd fd m c v h c.events k there
              (rw (minus_self c.events) (omega arith))
              (rw (minus_self c.events) (e.ctl_removes fd no_events m.kernel done)),
          λ _. gone there,
        )
      ]
    ]
      where
        k : e.Kernel
        k = (e.ctl ctl_del fd no_events m.kernel).0

        t : IoManager e.Kernel × FdContext
        t = twice e f c.events.has_read c.events.has_write fd c (record m { kernel = k })

        lem :
            nonempty c.events ≡ true
            → Twice e f c.events.has_read c.events.has_write fd c (record m { kernel = k })
        lem there =
            let range = pending_range e f tickle_fd m fd c v h in
            twice_lem e f c.events.has_read c.events.has_write fd c (record m { kernel = k }) there
              range.0 (omega (arith, range.1))

        drained : nonempty c.events ≡ true → t.1.events ≡ no_events
        drained there = (lem there).0 ∙ minus_self c.events

        gone : nonempty c.events ≡ true → events_at t.0.contexts fd ≡ no_events
        gone there =
            rw (lem there).2 (ground (arith, get_elem?-set m.contexts fd fd t.1 c h, drained there))

  -- cancelAll on a manager in step never fails its assertion: it returns, keeps the count and the
  -- interest list in step, and if it reports a success the context waits for nothing any more.
  pub cancel_all-Cancels :
      (tickle_fd fd : ℕ) (m : IoManager e.Kernel)
      → Inv e tickle_fd m
      → Cancels tickle_fd fd (cancel_all e f fd m)
  unfolding cancel_all
  cancel_all-Cancels tickle_fd fd m v = elim (Option-cases (get_elem? m.contexts fd)) [
    | inl n ↦ rw (n, cancel_all) (m, false, refl, v, λ x. cc)
    | inr (c, h) ↦ rw (h, cancel_all) (cancel_all_from-Cancels tickle_fd fd m c v h)
  ]

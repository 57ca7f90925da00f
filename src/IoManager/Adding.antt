-- ===== src/IoManager/Adding.antt =====
-- IOManager::addEvent (synergy/iomanager.cc).
use synergy_lib.Prelude.{
  ◌⊎◌, Bool-cases, ℕ, refl, arith, inl, inr, true, false, Bool, List, Option, length, ◌≡◌,
  if◌then◌else◌, ◌≤◌, ◌<◌, Option-cases, get_elem?, ◌^◌, some, ◌+◌, set,
}
use synergy_lib.Prelude.Int.{ℤ, pos, negsuc}
use synergy_lib.Prelude.Table.{le_of_none}
use synergy_lib.IoManager.{
  Event, read, write, Events, only, union, inter, nonempty, FdContext, CtlOp, ctl_mod, ctl_add,
  Epoll, IoManager, FdOps, increment, Outcome, ok,
}
use synergy_lib.IoManager.Ops.{find_table, add_event, add_to, is_unused, filled}
use synergy_lib.IoManager.Invariant.{Inv, size, store-Inv, failed-Inv, add-Entered}
use synergy_lib.IoManager.Pending.{pending_range}
use synergy_lib.IoManager.Resizing.{length-find_table, found-Inv}

size-union :
    (a : Events) (ev : Event)
    → nonempty (inter a (only ev)) ≡ false
    → size (union a (only ev)) ≡ size a + 1
unfolding union inter
size-union a read h = ground arith
size-union a write h = ground arith

nonempty-union : (a : Events) (ev : Event) → nonempty (union a (only ev)) ≡ true
unfolding union
nonempty-union a read = ground arith
nonempty-union a write = ground arith

-- A descriptor without a context, when the table cannot be enlarged for it.
abbrev pub IsOutside : ℤ → List FdContext → Type 0
IsOutside (negsuc k) cs = Unit
IsOutside (pos fd) cs = (length cs ≤ fd) × (fd < 2)

module _ (e : Epoll) (f : FdOps) where
  -- A call of addEvent that returns, and what holds afterwards.
  abbrev pub Returns : ℕ → Outcome (IoManager e.Kernel × Bool) → Type 0
  Returns tickle_fd o =
      (m' : IoManager e.Kernel) × (done : Bool) × (o ≡ ok (m', done)) × Inv e tickle_fd m'

  -- No EventContext is left over for an event that the context at `fd` does not wait for.
  abbrev pub IsFree : ℕ → Event → List FdContext → Type 0
  IsFree fd ev cs =
      (c : FdContext)
      → get_elem? cs fd ≡ some c
      → (nonempty (inter c.events (only ev)) ≡ false)
        × (is_unused (f.get_event_context ev (record c { events = union c.events (only ev) }))
            ≡ true)

  module _ (tickle_fd fd : ℕ) (ev : Event) (cb : Option ℕ) (scheduler current : ℕ)
      (m : IoManager e.Kernel) (v : Inv e tickle_fd m) (free : IsFree fd ev m.contexts)
      (c : FdContext) (h : get_elem? m.contexts fd ≡ some c) where
    abbrev asked : Events
    asked = union c.events (only ev)

    abbrev adding : CtlOp
    adding = if nonempty c.events then ctl_mod else ctl_add

    abbrev stored : FdContext
    stored = f.write_event_context ev (filled scheduler cb current) (record c { events = asked })

    pub add_to-Returns : Returns tickle_fd (add_to e f fd ev cb scheduler current m c)
    unfolding add_to
    add_to-Returns = elim (Bool-cases (e.ctl adding fd asked m.kernel).1) [
      | inr fails ↦ (
        record m { kernel = (e.ctl adding fd asked m.kernel).0 },
        false,
        rw fails refl,
        failed-Inv e tickle_fd m adding fd asked fails v,
      )
      | inl done ↦ (
        record m {
          kernel = (e.ctl adding fd asked m.kernel).0;
          contexts = set m.contexts fd stored;
          pending_event_count = increment m.pending_event_count;
        },
        true,
        rw (done, (free c h).1) refl,
        store-Inv e tickle_fd m fd c stored (e.ctl adding fd asked m.kernel).0
            (increment m.pending_event_count) m.sched v h (f.write-fd ev _ _)
            (rw (f.write-events ev _ _) (
              add-Entered e tickle_fd (nonempty c.events) fd asked m.kernel
                (nonempty-union c.events ev) done))
            (rw (f.write-events ev _ _) (
              omega (
                arith,
                size-union c.events ev (free c h).0,
                pending_range e f tickle_fd m fd c v h,
              ))),
      )
    ]

  -- addEvent on a manager in step, whose table has a size that an int can hold, for a descriptor below 2^30
  -- that the table has or that is at least 2, and an event that is not waited for and has no EventContext
  -- in use, returns and keeps the count and the interest list in step. No other thread takes the lock
  -- between its test of the size and its resize, and contextResize(n) of a table of at most n contexts
  -- keeps them and has behind them contexts of their descriptors that wait for nothing.
  pub add_event-Returns :
      (tickle_fd fd : ℕ) (ev : Event) (cb : Option ℕ) (scheduler current : ℕ)
      (m : IoManager e.Kernel)
      → Inv e tickle_fd m
      → fd < 2 ^ 30
      → (fd < length m.contexts) ⊎ (2 ≤ fd)
      → IsFree fd ev (find_table e f fd m.contexts)
      → Returns tickle_fd (add_event e f (pos fd) ev cb scheduler current m)
  unfolding add_event
  add_event-Returns tickle_fd fd ev cb scheduler current m v range found free =
      elim (Option-cases (get_elem? (find_table e f fd m.contexts) fd)) [
        | inl n ↦ absurd (
            ground (
              arith,
              le_of_none (find_table e f fd m.contexts) fd n,
              length-find_table e f fd m.contexts v.small,
              found,
            ))
        | inr (c, h) ↦
            rw (h, add_event)
              (add_to-Returns tickle_fd fd ev cb scheduler current
                (record m { contexts = find_table e f fd m.contexts })
                (found-Inv e f tickle_fd fd m v range) free c h)
      ]

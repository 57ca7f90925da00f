-- ===== src/IoManager/Invariant.antt =====
-- What holds of an IOManager (synergy/iomanager.cc) between two calls.
use synergy_lib.Prelude.{
  ℕ, refl, arith, Bool, ◌+◌, List, Option, get_elem?, ◌≡◌, if◌then◌else◌, true, some, length, ◌≤◌,
  ◌==◌, false, none, set, ◌*◌, ◌≢◌, ◌∙◌, update, fun_ext, ◌^◌, ◌<◌,
}
use synergy_lib.Prelude.Total.{total, total-update, total-le, le-total}
use synergy_lib.Prelude.Table.{length-set, get_elem?-lt, get_elem?-set}
use synergy_lib.IoManager.{
  Events, no_events, nonempty, FdContext, CtlOp, ctl_add, ctl_mod, ctl_del, Epoll, IoManager,
}
use synergy_lib.Scheduler.{Scheduler}

abbrev pub bit : Bool → ℕ
bit true = 1
bit false = 0

-- How many events a set has.
abbrev pub size : Events → ℕ
size a = bit a.has_read + bit a.has_write

-- The events that the context with an index waits for.
abbrev pub events_at : List FdContext → ℕ → Events
events_at cs i = elim (get_elem? cs i) [ none ↦ no_events | some c ↦ c.events ]

-- The entry of the interest list for a descriptor that waits for these events.
abbrev pub entry : Events → Option Events
entry a = if nonempty a then some a else none

abbrev pub waiting : List FdContext → ℕ
waiting cs = total size (length cs) (events_at cs)

events_at-set :
    (cs : List FdContext) (i j : ℕ) (c c' : FdContext)
    → get_elem? cs i ≡ some c
    → events_at (set cs i c') j ≡ update (events_at cs) i c'.events j
events_at-set cs i j c c' h = ground (arith, get_elem?-set cs i j c' c h)

pub waiting-set :
    (cs : List FdContext) (i : ℕ) (c c' : FdContext)
    → get_elem? cs i ≡ some c
    → waiting (set cs i c') + size c.events ≡ waiting cs + size c'.events
waiting-set cs i c c' h =
    rw (length-set cs i c', fun_ext (λ j. events_at-set cs i j c c' h))
      (ground (
        arith,
        total-update size (length cs) i c'.events (events_at cs) (get_elem?-lt cs i c h),
        h,
      ))

pub waiting-le : (cs : List FdContext) → waiting cs ≤ 2 * length cs
waiting-le cs = total-le size (length cs) 2 (events_at cs) (λ a. ground arith)

pub size-le-waiting :
    (cs : List FdContext) (i : ℕ) (c : FdContext)
    → get_elem? cs i ≡ some c
    → size c.events ≤ waiting cs
size-le-waiting cs i c h =
    ground (arith, le-total size (length cs) i (events_at cs) (get_elem?-lt cs i c h), h)

module _ (e : Epoll) (tickle_fd : ℕ) where
  -- A context stands at the index of its descriptor; the interest list has for each descriptor but
  -- that of the pipe the events that its context waits for; m_pendingEventCount counts these events;
  -- and the table has a size that an int can hold.
  pub record Inv (m : IoManager e.Kernel) : Type 0 where
    pub own : (i : ℕ) (c : FdContext) → get_elem? m.contexts i ≡ some c → c.fd ≡ i
    pub watched : (i : ℕ) → i ≢ tickle_fd → e.interest m.kernel i ≡ entry (events_at m.contexts i)
    pub counted : m.pending_event_count ≡ waiting m.contexts
    pub small : length m.contexts < 2 ^ 31

  -- The entry after a successful epoll_ctl.
  abbrev pub Entered : e.Kernel → ℕ → Events → e.Kernel → Type 0
  Entered k fd a k' = (q : ℕ) → e.interest k' q ≡ (if fd == q then entry a else e.interest k q)

  pub add-Entered :
      (b : Bool) (fd : ℕ) (a : Events) (k : e.Kernel)
      → nonempty a ≡ true
      → (e.ctl (if b then ctl_mod else ctl_add) fd a k).1 ≡ true
      → Entered k fd a (e.ctl (if b then ctl_mod else ctl_add) fd a k).0
  add-Entered true fd a k n h q = rw n (e.ctl_changes fd a k h q)
  add-Entered false fd a k n h q = rw n (e.ctl_adds fd a k h q)

  leave-Entered-if :
      (b : Bool) (fd : ℕ) (a : Events) (k : e.Kernel)
      → nonempty a ≡ b
      → (e.ctl (if b then ctl_mod else ctl_del) fd a k).1 ≡ true
      → Entered k fd a (e.ctl (if b then ctl_mod else ctl_del) fd a k).0
  leave-Entered-if true fd a k n h q = rw n (e.ctl_changes fd a k h q)
  leave-Entered-if false fd a k n h q = rw n (e.ctl_removes fd a k h q)

  pub leave-Entered :
      (fd : ℕ) (a : Events) (k : e.Kernel)
      → (e.ctl (if nonempty a then ctl_mod else ctl_del) fd a k).1 ≡ true
      → Entered k fd a (e.ctl (if nonempty a then ctl_mod else ctl_del) fd a k).0
  leave-Entered fd a k h = leave-Entered-if (nonempty a) fd a k refl h

  -- A call that changes the events of one context, its entry and the count together.
  pub store-Inv :
      (m : IoManager e.Kernel) (i : ℕ) (c c' : FdContext) (k : e.Kernel) (n : ℕ) (s : Scheduler)
      → Inv m
      → get_elem? m.contexts i ≡ some c
      → c'.fd ≡ c.fd
      → Entered m.kernel i c'.events k
      → n + size c.events ≡ m.pending_event_count + size c'.events
      → Inv (record m {
        kernel = k;
        contexts = set m.contexts i c';
        pending_event_count = n;
        sched = s;
      })
  store-Inv m i c c' k n s v h same entered count = record {
    own = λ j d g. ground (arith, get_elem?-set m.contexts i j c' c h, v.own i c, v.own j d);
    watched = λ j ne. ground (arith, entered j, v.watched j, events_at-set m.contexts i j c c' h);
    counted = omega (arith, count, v.counted, waiting-set m.contexts i c c' h);
    small = rw (length-set m.contexts i c') v.small;
  }

  -- A failed epoll_ctl changes nothing that matters.
  pub failed-Inv :
      (m : IoManager e.Kernel) (op : CtlOp) (fd : ℕ) (a : Events)
      → (e.ctl op fd a m.kernel).1 ≡ false
      → Inv m
      → Inv (record m { kernel = (e.ctl op fd a m.kernel).0 })
  failed-Inv m op fd a h v = record {
    own = v.own;
    watched = λ i ne. e.ctl_fails op fd a m.kernel h i ∙ v.watched i ne;
    counted = v.counted;
    small = v.small;
  }

-- ===== src/Scenarios/Epolls.antt =====
-- For synergy/iomanager.cc: an epoll that never fails, and methods of FdContext as their comments
-- have them.
use synergy_lib.Prelude.{
  ap, sym, ◌∙◌, ℕ, refl, arith, ◌≡◌, ◌+◌, none, some, List, ◌∷◌, false, true, update, length, [],
  ◌++◌, ◌-◌, Option, ◌≤◌, ◌<◌, get_elem?, zero, suc, if◌then◌else◌, ◌==◌,
}
use synergy_lib.IoManager.{
  Event, read, write, Events, no_events, only, minus, EventContext, FdContext, CtlOp, ctl_add,
  ctl_mod, ctl_del, Epoll, FdOps,
}

abbrev pub entered : CtlOp → Events → Option Events
entered ctl_add ev = some ev
entered ctl_mod ev = some ev
entered ctl_del ev = none

pub update_if :
    (k : ℕ → Option Events) (fd : ℕ) (ev : Option Events) (q : ℕ)
    → update k fd ev q ≡ (if fd == q then ev else k q)
update_if k fd ev q = ground arith

pub true_false {ℓ} : {A : Type ℓ} → true ≡ false → A
true_false h = absurd cc

abbrev pub epoll : Epoll
epoll = record {
  Kernel = ℕ → Option Events;
  interest = λ k q. k q;
  ctl = λ op fd ev k. (update k fd (entered op ev), true);
  ctl_fails = λ op fd ev k h q. true_false h;
  ctl_adds = λ fd ev k h q. update_if k fd (some ev) q;
  ctl_changes = λ fd ev k h q. update_if k fd (some ev) q;
  ctl_removes = λ fd ev k h q. update_if k fd none q;
}

abbrev pub unset : EventContext
unset = record { scheduler = none; piber = none; cb = none }

abbrev pub blank : ℕ → FdContext
blank i = record { read_ctx = unset; write_ctx = unset; fd = i; events = no_events }

abbrev pub fresh : ℕ → ℕ → List FdContext
fresh zero i = []
fresh (suc k) i = blank i ∷ fresh k (i + 1)

pub length-fresh : (k i : ℕ) → length (fresh k i) ≡ k
length-fresh zero i = refl
length-fresh (suc k) i = omega (arith, length-fresh k (i + 1))

fresh_lem :
    (k i j : ℕ) (c : FdContext)
    → get_elem? (fresh k i) j ≡ some c
    → (c.fd ≡ i + j) × (c.events ≡ no_events)
fresh_lem zero i j c h = cc
fresh_lem (suc k) i zero c h = ground (arith, h)
fresh_lem (suc k) i (suc j) c h =
    let rest = fresh_lem k (i + 1) j c h in (omega (arith, rest.0), rest.1)

pub length-append : (cs ds : List FdContext) → length (cs ++ ds) ≡ length cs + length ds
length-append [] ds = omega arith
length-append (c ∷ cs) ds = omega (arith, length-append cs ds)

pub append-old :
    (cs ds : List FdContext) (i : ℕ) → i < length cs → get_elem? (cs ++ ds) i ≡ get_elem? cs i
append-old [] ds i h = absurd (omega arith)
append-old (c ∷ cs) ds zero h = refl
append-old (c ∷ cs) ds (suc i) h = append-old cs ds i (omega arith)

append-new :
    (cs ds : List FdContext) (i j : ℕ) → i ≡ length cs + j → get_elem? (cs ++ ds) i ≡ get_elem? ds j
append-new [] ds i j h = ap (get_elem? ds) (omega (arith, h))
append-new (c ∷ cs) ds zero j h = absurd (omega (arith, h))
append-new (c ∷ cs) ds (suc i) j h = append-new cs ds i j (omega (arith, h))

pub resized-new :
    (n i : ℕ) (cs : List FdContext) (c : FdContext)
    → length cs ≤ i
    → get_elem? (cs ++ fresh (n - length cs) (length cs)) i ≡ some c
    → (c.fd ≡ i) × (c.events ≡ no_events)
resized-new n i cs c le eq =
    let j = i - length cs in
    let new = append-new cs (fresh (n - length cs) (length cs)) i j (omega arith) in
    let blank_there = fresh_lem (n - length cs) (length cs) j c (sym new ∙ eq) in
    (omega (arith, blank_there.0), blank_there.1)

abbrev get_context : Event → FdContext → EventContext
get_context read c = c.read_ctx
get_context write c = c.write_ctx

abbrev put_context : Event → EventContext → FdContext → FdContext
put_context read x c = record c { read_ctx = x }
put_context write x c = record c { write_ctx = x }

pub put-events :
    (ev : Event) (x : EventContext) (c : FdContext)
    → ((put_context ev x c).events ≡ c.events) × ((put_context ev x c).fd ≡ c.fd)
put-events read x c = (refl, refl)
put-events write x c = (refl, refl)

abbrev pub methods : FdOps
methods = record {
  get_event_context = get_context;
  write_event_context = put_context;
  reset_event_context = λ x. unset;
  trigger_event = λ ev c s. (record c { events = minus c.events (only ev) }, s);
  context_resize = λ n cs. cs ++ fresh (n - length cs) (length cs);
  write-events = λ ev x c. (put-events ev x c).0;
  write-fd = λ ev x c. (put-events ev x c).1;
  trigger-events = λ ev c s. refl;
  trigger-fd = λ ev c s. refl;
  resize-length = λ n cs h. omega (
    arith,
    length-append cs (fresh (n - length cs) (length cs)),
    length-fresh (n - length cs) (length cs),
  );
  resize-old = λ n i cs lt h. append-old cs (fresh (n - length cs) (length cs)) i lt;
  resize-new = λ n i cs c le h eq. resized-new n i cs c le eq;
}

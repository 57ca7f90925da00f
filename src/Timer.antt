-- ===== src/Timer.antt =====
-- common/Timer.h and common/Timer.cc: the timers, as objects at addresses, and their manager.
-- A method of a timer or of the manager takes the manager's state and returns the new one. What
-- GetElapsedMS() returns during a call is the argument `elapsed`, and the address at which a call
-- allocates a timer is an argument too. What a method does under the manager's lock is one step;
-- reset looks at m_ms before it takes the lock, and listExpiredCb takes it twice, so that what they
-- do from the last lock on are functions of their own. listExpiredCb is in the child Listing.
pub mod Listing
pub mod Invariant
pub mod Expiry
pub mod Firing
pub mod Expired
pub mod Reach
pub mod Deadline
pub mod Clock
pub mod Abstract
pub mod Least
pub mod Sparing
pub mod Lifetime
pub mod Recurring
use synergy_lib.Prelude.{
  ℕ, zero, suc, ◌+◌, ◌-◌, ◌*◌, Bool, true, false, not, ◌&&◌, ◌||◌, Option, none, some, List, [],
  ◌∷◌, ltb, leb, ◌==◌, if◌then◌else◌, u64, u64_mod, is_empty, is_some, take, drop, update, length,
}
use synergy_lib.TimerSet
use synergy_lib.TimerSet.{erase_at}

-- A std::function<void()>: a user's function, or OnTimer bound to a weak pointer and a function.
pub data Callback : Type 0 where
  function : ℕ → Callback
  on_timer : ℕ → Callback → Callback

pub record Timer : Type 0 where
  pub recurring : Bool
  pub ms : ℕ
  pub next : ℕ
  pub cb : Option Callback

-- `heap` holds the timer object at each address.
pub record TimerManager : Type 0 where
  pub heap : ℕ → Timer
  pub timers : List ℕ
  pub tickled : Bool
  pub previouse_time : ℕ

abbrev pub next_at : (ℕ → Timer) → ℕ → ℕ
next_at heap p = (heap p).next

-- `m_cb` converts to true if it holds a function.
abbrev pub armed : (ℕ → Timer) → ℕ → Bool
armed heap p = is_some (heap p).cb

-- Timer::Timer(ms, cb, recurring, manager)
unfoldable pub new_timer : ℕ → Option Callback → Bool → ℕ → Timer
new_timer ms cb recurring elapsed = record {
  recurring = recurring;
  ms = ms;
  next = u64 (elapsed + ms);
  cb = cb;
}

-- Timer::Timer(next)
unfoldable pub new_timer_at : ℕ → Timer
new_timer_at next = record { recurring = false; ms = 0; next = next; cb = none }

-- TimerManager::TimerManager()
unfoldable pub new_manager : (ℕ → Timer) → ℕ → TimerManager
new_manager heap elapsed = record {
  heap = heap;
  timers = [];
  tickled = false;
  previouse_time = elapsed;
}

-- TimerManager::addTimer(val, lock). The flag is true if onTimerInsertedAtFront() is called.
unfoldable pub add_timer_locked : ℕ → TimerManager → TimerManager × Bool
add_timer_locked val m =
    let (timers, it) = TimerSet.insert (next_at m.heap) val m.timers in
    let at_front = it == 0 && not m.tickled in
    (record m { timers = timers; tickled = at_front || m.tickled }, at_front)

-- TimerManager::addTimer(ms, cb, recurring); the new timer stands at the address `p`.
unfoldable pub add_timer : ℕ → ℕ → ℕ → Option Callback → Bool → TimerManager → TimerManager × Bool
unfolding add_timer_locked new_timer
add_timer p elapsed ms cb recurring m =
    add_timer_locked p (record m { heap = update m.heap p (new_timer ms cb recurring elapsed) })

-- TimerManager::addConditionTimer
unfoldable pub add_condition_timer :
    ℕ → ℕ → ℕ → Callback → ℕ → Bool → TimerManager → TimerManager × Bool
unfolding add_timer
add_condition_timer p elapsed ms cb weak_cond recurring m =
    add_timer p elapsed ms (some (on_timer weak_cond cb)) recurring m

-- What calling a callback runs, where `alive` tells whether a weak pointer can be locked: OnTimer.
unfoldable pub invoke : (ℕ → Bool) → Callback → List ℕ
invoke alive (function f) = f ∷ []
invoke alive (on_timer weak_cond cb) =
    let rest = invoke alive cb in if alive weak_cond then rest else []

-- Timer::cancel; `none` is undefined behaviour, the erase of end().
unfoldable pub cancel : ℕ → TimerManager → Option (TimerManager × Bool)
cancel p m =
    if armed m.heap p
    then elim (erase_at (TimerSet.find (next_at heap) p m.timers) m.timers) [
      | none ↦ none
      | some timers ↦ some (record m { heap = heap; timers = timers }, true)
    ]
    else some (m, false)
  where
    heap : ℕ → Timer
    heap = update m.heap p (record (m.heap p) { cb = none })

-- Timer::refresh
unfoldable pub refresh : ℕ → ℕ → TimerManager → TimerManager × Bool
refresh p elapsed m =
    if not (armed m.heap p)
    then (m, false)
    else elim (erase_at (TimerSet.find (next_at m.heap) p m.timers) m.timers) [
      | none ↦ (m, false)
      | some timers ↦
          (record m { heap = heap; timers = (TimerSet.insert (next_at heap) p timers).0 }, true)
    ]
  where
    heap : ℕ → Timer
    heap = update m.heap p (record (m.heap p) { next = u64 (elapsed + (m.heap p).ms) })

-- The fields that Timer::reset gives a timer; `start` is unsigned, so the difference wraps.
unfoldable pub rescheduled : ℕ → Bool → ℕ → Timer → Timer
rescheduled ms from_now elapsed t =
    let start = if from_now then elapsed else u64 (t.next + u64_mod - t.ms) in
    record t { ms = ms; next = u64 (start + ms) }

-- Timer::reset from its lock on: the manager, the result, and whether onTimerInsertedAtFront() is
-- called.
unfoldable pub reset_locked : ℕ → ℕ → Bool → ℕ → TimerManager → TimerManager × Bool × Bool
unfolding add_timer_locked rescheduled
reset_locked p ms from_now elapsed m =
    if not (armed m.heap p)
    then (m, false, false)
    else elim (erase_at (TimerSet.find (next_at m.heap) p m.timers) m.timers) [
      | none ↦ (m, false, false)
      | some timers ↦
          let r = add_timer_locked p (record m {
            heap = update m.heap p (rescheduled ms from_now elapsed (m.heap p));
            timers = timers;
          }) in
          (r.0, true, r.1)
    ]

-- Timer::reset, when no other thread takes the lock between its test of m_ms and its own lock.
unfoldable pub reset : ℕ → ℕ → Bool → ℕ → TimerManager → TimerManager × Bool × Bool
unfolding reset_locked
reset p ms from_now elapsed m =
    if ms == (m.heap p).ms && not from_now
    then (m, true, false)
    else reset_locked p ms from_now elapsed m

-- ~0ull
abbrev pub no_timer : ℕ
no_timer = u64_mod - 1

-- TimerManager::getNextTimer
unfoldable pub get_next_timer : ℕ → TimerManager → TimerManager × ℕ
get_next_timer elapsed m = (
  record m { tickled = false },
  elim m.timers [
    | [] ↦ no_timer
    | first ∷ _ ↦ if leb (next_at m.heap first) elapsed then 0 else next_at m.heap first - elapsed
  ],
)

-- TimerManager::hasTimer
unfoldable pub has_timer : TimerManager → Bool
has_timer m = not (is_empty m.timers)

-- ===== src/Timer/Listing.antt =====
-- TimerManager::detectClockRollover and TimerManager::listExpiredCb (common/Timer.cc).
use synergy_lib.Prelude.{
  ℕ, Bool, ◌*◌, ltb, List, if◌then◌else◌, ◌∷◌, ◌&&◌, u64, Option, length, ◌+◌, ◌==◌, update,
  is_empty, [], u64_mod, suc, none, zero, ◌-◌, not, take, drop,
}
use synergy_lib.TimerSet
use synergy_lib.Timer.{Timer, TimerManager, Callback, next_at, new_timer_at}

-- 60 * 60 * 1000
abbrev pub hour_ms : ℕ
hour_ms = 60 * 60 * 1000

-- The test of TimerManager::detectClockRollover, in unsigned 64-bit arithmetic.
unfoldable pub clock_rollover : ℕ → ℕ → Bool
clock_rollover previouse_time now_ms =
    ltb now_ms previouse_time && ltb now_ms (u64 (previouse_time + u64_mod - hour_ms))

-- TimerManager::detectClockRollover
unfoldable pub detect_clock_rollover : ℕ → TimerManager → TimerManager × Bool
unfolding clock_rollover
detect_clock_rollover now_ms m =
    (record m { previouse_time = now_ms }, clock_rollover m.previouse_time now_ms)

-- while(it != m_timers.end() && (*it)->m_next == now_ms) ++it
unfoldable pub skip_equal : (ℕ → ℕ) → ℕ → ℕ → List ℕ → ℕ
skip_equal next now_ms it [] = it
skip_equal next now_ms zero (x ∷ xs) =
    if next x == now_ms then suc (skip_equal next now_ms zero xs) else zero
skip_equal next now_ms (suc it) (x ∷ xs) = suc (skip_equal next now_ms it xs)

-- What the loop over the expired timers does to one of them.
unfoldable pub after_firing : ℕ → Timer → Timer
after_firing now_ms t =
    if t.recurring then record t { next = u64 (now_ms + t.ms) } else record t { cb = none }

-- The loop over the expired timers: the objects, the set, and the callbacks in order.
unfoldable pub fire_all :
    ℕ → List ℕ → (ℕ → Timer) → List ℕ → (ℕ → Timer) × List ℕ × List (Option Callback)
unfolding after_firing
fire_all now_ms [] heap timers = (heap, timers, [])
fire_all now_ms (p ∷ ps) heap timers =
    let heap' : ℕ → Timer = update heap p (after_firing now_ms (heap p)) in
    let timers' =
      if (heap p).recurring then (TimerSet.insert (next_at heap') p timers).0 else timers in
    let rest = fire_all now_ms ps heap' timers' in (rest.0, rest.1, (heap p).cb ∷ rest.2)

-- How many elements listExpiredCb takes from the front; `now_timer` is the address of the timer
-- that it allocates for the search.
unfoldable pub expired_end : Bool → ℕ → ℕ → (ℕ → Timer) → List ℕ → ℕ
unfolding new_timer_at
expired_end rollover now_timer now_ms heap timers =
    skip_equal (next_at heap) now_ms
      (if rollover
        then length timers
        else TimerSet.lower_bound (next_at (update heap now_timer (new_timer_at now_ms))) now_timer
            timers)
      timers

-- TimerManager::listExpiredCb from its second lock on, with the callbacks it appends.
unfoldable pub list_expired_locked : ℕ → ℕ → TimerManager → TimerManager × List (Option Callback)
unfolding detect_clock_rollover
list_expired_locked now_timer now_ms m = elim m.timers [
  | [] ↦ (m, [])
  | first ∷ _ ↦
      let (m', rollover) = detect_clock_rollover now_ms m in
      if not rollover && ltb now_ms (next_at m.heap first)
      then (m', [])
      else let n = expired_end rollover now_timer now_ms m.heap m.timers in
        let fired = fire_all now_ms (take n m.timers) m.heap (drop n m.timers) in
        (record m' { heap = fired.0; timers = fired.1 }, fired.2)
]

-- TimerManager::listExpiredCb, when no other thread takes the lock between its two locks.
unfoldable pub list_expired_cb : ℕ → ℕ → TimerManager → TimerManager × List (Option Callback)
unfolding list_expired_locked
list_expired_cb now_timer now_ms m =
    if is_empty m.timers then (m, []) else list_expired_locked now_timer now_ms m

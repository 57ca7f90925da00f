-- ===== src/Scenarios/Intervals.antt =====
-- A recurring timer of common/Timer.cc that fires twice, among another one.
use synergy_lib.Prelude.{arith, ◌≡◌, contains, refl, true, ◌+◌, ◌≤◌, ℕ, false, some, ◌∷◌, []}
use mathlib.Core.List.{Memᴰ}
use synergy_lib.TimerSet.{insert, lower_bound, less}
use synergy_lib.Timer.{TimerManager, function}
use synergy_lib.Timer.Listing.{
  list_expired_locked, clock_rollover, expired_end, fire_all, skip_equal,
}
use synergy_lib.Timer.Recurring.{Firings, begins, fires, fires_each_interval}
use synergy_lib.Scenarios.Timers.{two_timers, two_timers-IsValid}

abbrev fired_once : TimerManager
fired_once = (list_expired_locked 9 7_200_000 two_timers).0

-- The second call comes ten milliseconds late.
abbrev fired_twice : TimerManager
fired_twice = (list_expired_locked 9 7_200_060 fired_once).0

two_timers-Firings : Firings 3 two_timers (7_200_060 ∷ 7_200_000 ∷ []) fired_twice
unfolding list_expired_locked clock_rollover expired_end fire_all skip_equal insert lower_bound less
two_timers-Firings =
    fires 9 7_200_060 (fires 9 7_200_000 begins refl (omega arith) refl (omega arith)) refl
      (omega arith) refl (omega arith)

deadline_of_3 : (fired_twice.heap 3).next ≡ 7_200_110
unfolding list_expired_locked clock_rollover expired_end fire_all skip_equal insert lower_bound less
deadline_of_3 = refl

fires_each_interval_example :
    ((7_200_000 + 50 ≤ 7_200_060) × ((150 ≤ 7_200_000) × Unit {0}))
    × (contains 3 fired_twice.timers ≡ true)
    × (fired_twice.heap 3 ≡ record (two_timers.heap 3) { next = 7_200_060 + 50 })
    × ((now_timer now_ms : ℕ)
        → contains now_timer fired_twice.timers ≡ false
        → (fired_twice.heap 3).next ≤ now_ms
        → Memᴰ (some (function 2)) (list_expired_locked now_timer now_ms fired_twice).1)
fires_each_interval_example =
    fires_each_interval 3 (7_200_060 ∷ 7_200_000 ∷ []) two_timers-IsValid refl refl
      two_timers-Firings

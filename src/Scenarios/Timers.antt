-- ===== src/Scenarios/Timers.antt =====
-- Two timers: a one-shot timer at the address 5, due at 100, and one at the address 3 that recurs
-- every 50 ms and is due at 150.
use mathlib.Core.List.{Memᴰ}
use synergy_lib.Prelude.{
  leb, ℕ, refl, arith, ◌≡◌, false, true, update, ◌∷◌, some, map, is_empty, none, ◌==◌, [],
  if◌then◌else◌, ltb, ◌↔◌, ◌≤◌, ◌+◌, contains, ◌<◌, ◌⊎◌, ◌&&◌, ◌*◌, ◌||◌, not, u64,
}
use synergy_lib.TimerSet.{less, insert, find, erase, lower_bound}
use synergy_lib.Timer.{
  Timer, TimerManager, function, new_manager, add_timer, cancel, refresh, reset, get_next_timer,
  has_timer, invoke, on_timer, next_at,
}
use synergy_lib.Timer.Listing.{
  list_expired_cb, list_expired_locked, clock_rollover, fire_all, expired_end, skip_equal,
}
use synergy_lib.Timer.Invariant.{IsValid, cancel_lem}
use synergy_lib.Timer.Expired.{list_expired_lem, expired_timers}
use synergy_lib.Timer.Deadline.{no_add, one_more, next_timer_exact, silent_add_keeps_wait}
use synergy_lib.Timer.Clock.{clock_rollover_iff}
use synergy_lib.Util.{get_elapsed_ms}
use synergy_lib.Util.Clocks.{steady_clock_never_rolls_over}
use synergy_lib.Timer.Abstract.{Call, after, fires, view, manager-refines}
use synergy_lib.Timer.Sparing.{begins, goes_on, Spares}
use synergy_lib.Timer.Lifetime.{fires_when_due}
use synergy_lib.Timer.Least.{least_left, get_next_timer-least_left}
use synergy_lib.Timer.Reach.{here, next, adds, expires, refreshes, manager_stays-IsValid}

abbrev no_object : Timer
no_object = record { recurring = false; ms = 0; next = 0; cb = none }

abbrev once : Timer
once = record { recurring = false; ms = 100; next = 100; cb = some (function 1) }

abbrev often : Timer
often = record { recurring = true; ms = 50; next = 150; cb = some (function 2) }

abbrev pub nothing : ℕ → Timer
nothing _ = no_object

abbrev pub two_objects : ℕ → Timer
two_objects = update (update nothing 3 often) 5 once

abbrev pub two_timers : TimerManager
two_timers = record {
  heap = two_objects;
  timers = 5 ∷ 3 ∷ [];
  tickled = false;
  previouse_time = 7_200_000;
}

pub two_timers-IsValid : IsValid two_timers
unfolding less
two_timers-IsValid = record { sorted = ((refl, tt), (tt, tt)); pending = λ p. ground arith }

cancel_lem_example :
    cancel 5 two_timers
    ≡ some (
      record two_timers {
        heap = update two_objects 5 (record once { cb = none });
        timers = 3 ∷ [];
      },
      true,
    )
cancel_lem_example = cancel_lem 5 two_timers two_timers-IsValid

refresh_moves_behind : (refresh 5 60 two_timers).0.timers ≡ 3 ∷ 5 ∷ []
unfolding refresh insert find erase less
refresh_moves_behind = refl

reset_notifies : (reset 3 10 true 60 two_timers).2 ≡ true
unfolding reset insert find erase less
reset_notifies = refl

fires_once_at_100 :
    let r =
      list_expired_cb 9 7_200_000
        (record two_timers { heap = update two_objects 3 (record often { next = 7_300_000 }) }) in
    (r.1 ≡ some (function 1) ∷ []) × (r.0.timers ≡ 3 ∷ [])
unfolding list_expired_cb insert lower_bound less expired_end fire_all skip_equal
fires_once_at_100 = (refl, refl)

list_expired_lem_example :
    let r = list_expired_cb 9 7_200_000 two_timers in
    (r.1 ≡ map (λ p. (two_objects p).cb) (expired_timers 7_200_000 two_timers))
    × ((q : ℕ)
        → r.0.heap q ≡ (
            if contains q (expired_timers 7_200_000 two_timers)
            then if (two_objects q).recurring
              then record (two_objects q) { next = u64 (7_200_000 + (two_objects q).ms) }
              else record (two_objects q) { cb = none }
            else two_objects q))
    × ((q : ℕ)
        → contains q r.0.timers ≡ (
            contains q (5 ∷ 3 ∷ [])
            && ((two_objects q).recurring
                || not (contains q (expired_timers 7_200_000 two_timers)))))
    × IsValid r.0
list_expired_lem_example = list_expired_lem 7_200_000 two_timers two_timers-IsValid 9 refl

next_timer_exact_example :
    is_empty (expired_timers 7_200_000 two_timers)
    ≡ ltb 7_200_000 (40 + (get_next_timer 40 two_timers).1)
unfolding has_timer clock_rollover
next_timer_exact_example =
    next_timer_exact 40 7_200_000 two_timers two_timers-IsValid refl (omega arith) refl

waits_sixty : (get_next_timer 40 two_timers).1 ≡ 60
unfolding get_next_timer
waits_sixty = refl

-- A flag that is still set from an earlier call is cleared by getNextTimer.
abbrev notified : TimerManager
notified = record two_timers { tickled = true }

silent_add_keeps_wait_example :
    (get_next_timer 40
      (add_timer 8 10 500 (some (function 3)) false (get_next_timer 20 notified).0).0).1
    ≡ (get_next_timer 40 notified).1
unfolding add_timer insert less get_next_timer
silent_add_keeps_wait_example =
    silent_add_keeps_wait 20 40 notified
      (one_more 8 10 500 (some (function 3)) false no_add refl refl)

-- The clock goes back by one millisecond within the first hour.
clock_rollover_iff_example :
    (clock_rollover 5000 4999 ≡ true)
    ↔ ((4999 < 5000) × ((4999 + 60 * 60 * 1000 < 5000) ⊎ (5000 < 60 * 60 * 1000)))
clock_rollover_iff_example = clock_rollover_iff 5000 4999 (omega arith)

-- A timer is added, fires, and is added anew; another thread's search finds nothing in between.
manager_stays-IsValid_example :
    IsValid
      (add_timer 5 10 20
        (some (function 2))
        true
        (list_expired_locked 9 8
          (add_timer 5 0 7 (some (function 1)) false (new_manager nothing 0)).0).0).0
unfolding add_timer list_expired_locked insert lower_bound less expired_end fire_all skip_equal
    new_manager
manager_stays-IsValid_example =
    manager_stays-IsValid nothing 0 (λ p. refl)
      (next (next (next here (adds 5 0 7 (function 1) false _ refl)) (expires 9 8 _ refl))
        (adds 5 10 20 (function 2) true _ refl))

-- The callback of a timer with a condition runs only while the condition lives.
condition_is_gone : invoke (λ w. w == 4) (on_timer 6 (function 1)) ≡ []
unfolding invoke
condition_is_gone = refl

manager-refines_example :
    view
      (list_expired_locked 9 8
        (add_timer 5 0 7 (some (function 1)) true (new_manager nothing 0)).0).0
    ≡ after (fires 8 false) (after (Call.adds 5 0 7 (function 1) true) (λ p. none))
unfolding new_manager add_timer insert less clock_rollover
manager-refines_example =
    manager-refines nothing 0 (λ p. refl)
      (next (next here (adds 5 0 7 (function 1) true _ refl)) (expires 9 8 _ refl))

get_next_timer-least_left_example :
    (get_next_timer 40 two_timers).1 ≡ least_left (next_at two_objects) 40 (5 ∷ 3 ∷ [])
get_next_timer-least_left_example =
    get_next_timer-least_left 40 two_timers two_timers-IsValid (λ p h. ground arith)

-- A reading at 5.25 s and one at 9 s.
steady_clock_never_rolls_over_example :
    (get_elapsed_ms 5 250_000_000 ≤ get_elapsed_ms 9 0)
    × (clock_rollover (get_elapsed_ms 5 250_000_000) (get_elapsed_ms 9 0) ≡ false)
steady_clock_never_rolls_over_example =
    steady_clock_never_rolls_over 5 250_000_000 9 0 (omega arith) (omega arith) (omega arith)
      (omega arith)

-- The other timer is refreshed before the one-shot timer fires.
abbrev refreshed_timers : TimerManager
refreshed_timers = (refresh 3 60 two_timers).0

fires_when_due_example :
    let r = list_expired_cb 9 7_200_000 refreshed_timers in
    let is_time = clock_rollover refreshed_timers.previouse_time 7_200_000 || leb 100 7_200_000 in
    (is_time ≡ true
      → Memᴰ (some (function 1)) r.1 × (contains 5 r.0.timers ≡ false) × ((r.0.heap 5).cb ≡ none))
    × (is_time ≡ false → (contains 5 r.0.timers ≡ true) × (r.0.heap 5 ≡ once))
unfolding refresh insert find erase less Spares
fires_when_due_example =
    fires_when_due 5 9 7_200_000 two_timers-IsValid refl refl
      (goes_on begins (refreshes 3 60 two_timers) (omega arith)) refl

-- ===== src/Timer/Clock.antt =====
-- The times of common/Timer.cc as unsigned 64-bit numbers: where they wrap.
use synergy_lib.Prelude.{
  ℕ, arith, ◌<◌, Option, Bool, u64_mod, ◌≡◌, true, ◌≤◌, ◌+◌, ◌↔◌, if◌then◌else◌, ◌⊎◌,
}
use synergy_lib.Timer.{Timer, Callback, new_timer, rescheduled}
use synergy_lib.Timer.Listing.{clock_rollover, hour_ms}

-- For 64-bit times the rollover test passes exactly if the clock went back by more than an hour, or
-- if it went back at all and the last recorded time was within the first hour.
pub clock_rollover_iff :
    (previouse_time now_ms : ℕ)
    → previouse_time < u64_mod
    → (clock_rollover previouse_time now_ms ≡ true) ↔ (
        (now_ms < previouse_time)
        × ((now_ms + hour_ms < previouse_time) ⊎ (previouse_time < hour_ms)))
unfolding clock_rollover
clock_rollover_iff previouse_time now_ms h = ground arith

-- A new timer is due at the time of its creation exactly if its interval is zero or its deadline
-- wraps around.
pub new_timer_due_iff :
    (ms elapsed : ℕ) (cb : Option Callback) (recurring : Bool)
    → ms < u64_mod
    → elapsed < u64_mod
    → ((new_timer ms cb recurring elapsed).next ≤ elapsed) ↔ ((ms ≡ 0) ⊎ (u64_mod ≤ elapsed + ms))
unfolding new_timer
new_timer_due_iff ms elapsed cb recurring h k = ground arith

-- reset keeps the start of the running interval, or starts at the current time if asked to: a timer
-- that was started at `start` for `t.ms` is due at `start + ms` afterwards, or at `elapsed + ms`,
-- provided that these times fit into 64 bits.
pub rescheduled_lem :
    (ms start elapsed : ℕ) (from_now : Bool) (t : Timer)
    → t.next ≡ start + t.ms
    → t.next < u64_mod
    → start + ms < u64_mod
    → elapsed + ms < u64_mod
    → (rescheduled ms from_now elapsed t).next ≡ (if from_now then elapsed else start) + ms
unfolding rescheduled
rescheduled_lem ms start elapsed from_now t e h k l = ground arith

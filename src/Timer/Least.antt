-- ===== src/Timer/Least.antt =====
-- TimerManager::getNextTimer (common/Timer.cc) against a search through all timers.
use synergy_lib.Prelude.{
  ℕ, refl, arith, List, [], ◌∷◌, ◌≡◌, ◌-◌, ◌<◌, ◌≤◌, ltb, if◌then◌else◌, u64_mod, contains, true,
  Bool,
}
use synergy_lib.TimerSet.Search.{IsSorted, Above}
use synergy_lib.TimerSet.{less}
use synergy_lib.Timer.{Timer, TimerManager, next_at, no_timer, get_next_timer}
use synergy_lib.Timer.Invariant.{IsValid}

-- The least time that is left on any of the timers, in any order, or ~0ull.
pub least_left : (ℕ → ℕ) → ℕ → List ℕ → ℕ
least_left next elapsed [] = no_timer
least_left next elapsed (p ∷ ps) =
    let rest = least_left next elapsed ps in
    let left = next p - elapsed in if ltb left rest then left else rest

-- Nothing further back in the set has less time left.
least_left-Above :
    (next : ℕ → ℕ) (elapsed p : ℕ) (ps : List ℕ)
    → Above next p ps
    → next p < u64_mod
    → next p - elapsed ≤ least_left next elapsed ps
unfolding least_left less
least_left-Above next elapsed p [] a lt = omega arith
least_left-Above next elapsed p (q ∷ ps) a lt =
    ground (arith, a.0, least_left-Above next elapsed p ps a.1 lt)

get_next_timer_at :
    (elapsed : ℕ) (heap : ℕ → Timer) (timers : List ℕ) (tickled : Bool) (previouse_time : ℕ)
    → let m : TimerManager = record {
      heap = heap;
      timers = timers;
      tickled = tickled;
      previouse_time = previouse_time;
    } in
      IsSorted (next_at heap) timers
      → ((p : ℕ) → contains p timers ≡ true → (heap p).next < u64_mod)
      → (get_next_timer elapsed m).1 ≡ least_left (next_at heap) elapsed timers
unfolding get_next_timer least_left
get_next_timer_at elapsed heap [] tickled previouse_time s lt = refl
get_next_timer_at elapsed heap (p ∷ ps) tickled previouse_time s lt =
    ground (arith, s.0, lt p (ground arith), least_left-Above (next_at heap) elapsed p ps s.0)

-- getNextTimer reads only the first timer of the set, and returns what a search through all timers
-- finds: the least time left, 0 if one is due, or ~0ull if there is none; for a valid manager whose
-- deadlines have 64 bits.
pub get_next_timer-least_left :
    (elapsed : ℕ) (m : TimerManager)
    → IsValid m
    → ((p : ℕ) → contains p m.timers ≡ true → (m.heap p).next < u64_mod)
    → (get_next_timer elapsed m).1 ≡ least_left (next_at m.heap) elapsed m.timers
get_next_timer-least_left elapsed m v lt =
    get_next_timer_at elapsed m.heap m.timers m.tickled m.previouse_time v.sorted lt

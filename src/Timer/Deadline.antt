-- ===== src/Timer/Deadline.antt =====
-- TimerManager::getNextTimer against the set, and the call of onTimerInsertedAtFront
-- (common/Timer.cc).
use synergy_lib.TimerSet.Order.{less-total, less_trans, less-asymm}
use synergy_lib.Prelude.{
  ℕ, refl, arith, List, ◌≡◌, Bool, true, contains, ◌≤◌, false, is_empty, ◌↔◌, ◌∷◌, filter, ltb, [],
  ◌+◌, Option, update, ◌∙◌,
}
use synergy_lib.TimerSet.{less, insert}
use synergy_lib.TimerSet.Search.{IsSorted, less-Above}
use synergy_lib.Timer.{
  Timer, TimerManager, Callback, next_at, add_timer, get_next_timer, has_timer, new_timer,
}
use synergy_lib.Timer.Listing.{clock_rollover}
use synergy_lib.Timer.Invariant.{IsValid, IsSorted-update}
use synergy_lib.Timer.Expiry.{is_due, Cuts-none}
use synergy_lib.Timer.Expired.{expired_timers}

next_timer_exact_at :
    (elapsed t : ℕ) (heap : ℕ → Timer) (timers : List ℕ) (tickled : Bool) (previouse_time : ℕ)
    → let m : TimerManager = record {
      heap = heap;
      timers = timers;
      tickled = tickled;
      previouse_time = previouse_time;
    } in
      IsSorted (next_at heap) timers
      → has_timer m ≡ true
      → elapsed ≤ t
      → is_empty (filter (is_due (next_at heap) t) timers)
        ≡ ltb t (elapsed + (get_next_timer elapsed m).1)
unfolding get_next_timer has_timer
next_timer_exact_at elapsed t heap [] tickled previouse_time s h le = cc
next_timer_exact_at elapsed t heap (x ∷ xs) tickled previouse_time s h le =
    ground (arith, Cuts-none (next_at heap) t x xs, s.0)

-- The wait that getNextTimer returns is exact: for a valid manager with a timer, and a time `t` from
-- now on at which no rollover is seen, nothing has expired at `t` exactly if `t` is before the end
-- of the wait.
pub next_timer_exact :
    (elapsed t : ℕ) (m : TimerManager)
    → IsValid m
    → has_timer m ≡ true
    → elapsed ≤ t
    → clock_rollover m.previouse_time t ≡ false
    → is_empty (expired_timers t m) ≡ ltb t (elapsed + (get_next_timer elapsed m).1)
next_timer_exact elapsed t m v h le r =
    rw r (next_timer_exact_at elapsed t m.heap m.timers m.tickled m.previouse_time v.sorted h le)

insert_position :
    (next : ℕ → ℕ) (x : ℕ) (xs : List ℕ)
    → contains x xs ≡ false
    → IsSorted next xs
    → ((insert next x xs).1 ≡ 0) ↔ ((q : ℕ) → contains q xs ≡ true → less next x q ≡ true)
unfolding insert
insert_position next x [] n s = (λ e q k. cc, λ f. refl)
insert_position next x (y ∷ ys) n s = (
  λ e q k. ground (arith, less-total next x y, less-Above next y q ys s.0, less_trans next x y q),
  λ f. ground (arith, f y, less-asymm next x y),
)

-- addTimer calls onTimerInsertedAtFront exactly if no call is outstanding and the new timer comes
-- before every timer of the set.
pub add_timer_notifies_iff :
    (p elapsed ms : ℕ) (cb : Option Callback) (recurring : Bool) (m : TimerManager)
    → IsValid m
    → contains p m.timers ≡ false
    → let r = add_timer p elapsed ms cb recurring m in
      (r.1 ≡ true) ↔ (
        (m.tickled ≡ false)
        × ((q : ℕ) → contains q m.timers ≡ true → less (next_at r.0.heap) p q ≡ true))
unfolding add_timer
add_timer_notifies_iff p elapsed ms cb recurring m v n =
    let heap : ℕ → Timer = update m.heap p (new_timer ms cb recurring elapsed) in
    let pos =
      insert_position (next_at heap) p m.timers n
        (IsSorted-update m.heap p _ m.timers n v.sorted) in
    (λ e. (ground arith, pos.0 (ground arith)), λ f. ground (arith, f.0, pos.1 f.1))

wait_at :
    (elapsed p : ℕ) (t : Timer) (heap : ℕ → Timer) (timers : List ℕ) (tickled tickled' : Bool)
    (previouse_time : ℕ)
    → let heap' : ℕ → Timer = update heap p t in
      let m : TimerManager = record {
        heap = heap;
        timers = timers;
        tickled = tickled;
        previouse_time = previouse_time;
      } in
      let m' : TimerManager = record {
        heap = heap';
        timers = (insert (next_at heap') p timers).0;
        tickled = tickled';
        previouse_time = previouse_time;
      } in
      contains p timers ≡ false
      → ((insert (next_at heap') p timers).1 ≡ 0 → ⊥)
      → (get_next_timer elapsed m').1 ≡ (get_next_timer elapsed m).1
unfolding get_next_timer insert
wait_at elapsed p t heap [] tickled tickled' previouse_time n h = absurd (h refl)
wait_at elapsed p t heap (y ∷ ys) tickled tickled' previouse_time n h = ground arith

-- Calls of addTimer, by any threads, of which none calls onTimerInsertedAtFront.
pub data SilentAdds (m : TimerManager) : TimerManager → Type 0 where
  no_add : SilentAdds m m
  one_more :
      {m' : TimerManager} (p elapsed ms : ℕ) (cb : Option Callback) (recurring : Bool)
      → SilentAdds m m'
      → contains p m'.timers ≡ false
      → (add_timer p elapsed ms cb recurring m').1 ≡ false
      → SilentAdds m (add_timer p elapsed ms cb recurring m').0

silent_add :
    (p elapsed ms : ℕ) (cb : Option Callback) (recurring : Bool) (m : TimerManager) (later : ℕ)
    → contains p m.timers ≡ false
    → m.tickled ≡ false
    → (add_timer p elapsed ms cb recurring m).1 ≡ false
    → ((add_timer p elapsed ms cb recurring m).0.tickled ≡ false)
      × ((get_next_timer later (add_timer p elapsed ms cb recurring m).0).1
          ≡ (get_next_timer later m).1)
unfolding add_timer
silent_add p elapsed ms cb recurring m later n t s = (
  ground (arith, t, s),
  wait_at later p _ m.heap m.timers m.tickled _ m.previouse_time n (λ e. ground arith),
)

silent_adds :
    {m m' : TimerManager} (later : ℕ)
    → m.tickled ≡ false
    → SilentAdds m m'
    → (m'.tickled ≡ false) × ((get_next_timer later m').1 ≡ (get_next_timer later m).1)
silent_adds later t no_add = (t, refl)
silent_adds later t (one_more {m'} p elapsed ms cb recurring r n s) =
    let rest = silent_adds later t r in
    let one = silent_add p elapsed ms cb recurring m' later n rest.0 s in (one.0, one.1 ∙ rest.1)

-- No wake-up is lost: when a thread has asked getNextTimer how long to wait, then calls of addTimer by
-- any threads, of which none calls onTimerInsertedAtFront, leave the wait that getNextTimer would return
-- as it was when the thread asked, for any reading of the clock.
pub silent_add_keeps_wait :
    (asked later : ℕ) (m : TimerManager) {m' : TimerManager}
    → SilentAdds (get_next_timer asked m).0 m'
    → (get_next_timer later m').1 ≡ (get_next_timer later m).1
unfolding get_next_timer
silent_add_keeps_wait asked later m r = (silent_adds later refl r).1

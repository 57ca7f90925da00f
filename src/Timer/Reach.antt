-- ===== src/Timer/Reach.antt =====
-- Every interleaving of the locked sections of common/Timer.cc, by any number of threads.
use synergy_lib.Prelude.{ℕ, arith, Bool, ◌≡◌, contains, none, false, some}
use synergy_lib.Timer.{
  TimerManager, Timer, Callback, new_manager, add_timer, add_condition_timer, cancel, refresh,
  reset_locked, get_next_timer, on_timer,
}
use synergy_lib.Timer.Listing.{list_expired_locked}
use synergy_lib.Timer.Invariant.{
  IsValid, add_timer-IsValid, refresh-IsValid, reset_locked-IsValid, get_next_timer-IsValid,
  cancel-IsValid,
}
use synergy_lib.Timer.Expired.{list_expired-IsValid}

-- One locked section. A new timer, and the timer that listExpiredCb allocates for its search, stand
-- at addresses that are not in the set; a timer is given a callback that can be called.
pub data Step : TimerManager → TimerManager → Type 0 where
  adds :
      (p elapsed ms : ℕ) (cb : Callback) (recurring : Bool) (m : TimerManager)
      → contains p m.timers ≡ false
      → Step m (add_timer p elapsed ms (some cb) recurring m).0
  adds_condition :
      (p elapsed ms : ℕ) (cb : Callback) (weak_cond : ℕ) (recurring : Bool) (m : TimerManager)
      → contains p m.timers ≡ false
      → Step m (add_condition_timer p elapsed ms cb weak_cond recurring m).0
  cancels : (p : ℕ) (m m' : TimerManager) (r : Bool) → cancel p m ≡ some (m', r) → Step m m'
  refreshes : (p elapsed : ℕ) (m : TimerManager) → Step m (refresh p elapsed m).0
  resets :
      (p ms : ℕ) (from_now : Bool) (elapsed : ℕ) (m : TimerManager)
      → Step m (reset_locked p ms from_now elapsed m).0
  asks : (elapsed : ℕ) (m : TimerManager) → Step m (get_next_timer elapsed m).0
  expires :
      (now_timer now_ms : ℕ) (m : TimerManager)
      → contains now_timer m.timers ≡ false
      → Step m (list_expired_locked now_timer now_ms m).0

pub data Reach (s : TimerManager) : TimerManager → Type 0 where
  here : Reach s s
  next : {m m' : TimerManager} → Reach s m → Step m m' → Reach s m'

-- Each section keeps the set in order, and the timers of the set the ones that have a callback.
pub Step-IsValid : {m m' : TimerManager} → Step m m' → IsValid m → IsValid m'
unfolding add_condition_timer
Step-IsValid (adds p elapsed ms cb recurring m n) v =
    add_timer-IsValid p elapsed ms cb recurring m n v
Step-IsValid (adds_condition p elapsed ms cb w recurring m n) v =
    add_timer-IsValid p elapsed ms (on_timer w cb) recurring m n v
Step-IsValid (cancels p m m' r e) v = cancel-IsValid p m m' r e v
Step-IsValid (refreshes p elapsed m) v = refresh-IsValid p elapsed m v
Step-IsValid (resets p ms from_now elapsed m) v = reset_locked-IsValid p ms from_now elapsed m v
Step-IsValid (asks elapsed m) v = get_next_timer-IsValid elapsed m v
Step-IsValid (expires now_timer now_ms m n) v = list_expired-IsValid now_ms m v now_timer n

pub Reach-IsValid : {s m : TimerManager} → Reach s m → IsValid s → IsValid m
Reach-IsValid here v = v
Reach-IsValid (next r st) v = Step-IsValid st (Reach-IsValid r v)

-- Whatever the threads do, a manager that started with no timer keeps its set in order and holding
-- exactly the timers that have a callback.
pub manager_stays-IsValid :
    (heap : ℕ → Timer) (elapsed : ℕ) {m : TimerManager}
    → ((p : ℕ) → (heap p).cb ≡ none)
    → Reach (new_manager heap elapsed) m
    → IsValid m
unfolding new_manager
manager_stays-IsValid heap elapsed e r =
    Reach-IsValid r (record { sorted = tt; pending = λ p. ground (arith, e p) })

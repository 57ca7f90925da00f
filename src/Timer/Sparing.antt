-- ===== src/Timer/Sparing.antt =====
-- The sections of common/Timer.cc that are not about a timer leave it as it is.
use synergy_lib.Prelude.{
  ℕ, arith, Bool, true, false, ◌≡◌, ◌≢◌, ◌<◌, contains, some, subst, update, contains-filter,
  remove, Bool-cases, inl, inr,
}
use synergy_lib.TimerSet.{insert}
use synergy_lib.TimerSet.Search.{contains-insert, contains-remove}
use synergy_lib.Timer.{
  TimerManager, Timer, next_at, add_timer, add_condition_timer, cancel, refresh, reset_locked,
  get_next_timer, new_timer, Callback, add_timer_locked, on_timer, rescheduled,
}
use synergy_lib.Timer.Listing.{clock_rollover, list_expired_locked}
use synergy_lib.Timer.Invariant.{IsValid, cancel_lem, refresh_lem, reset_locked_lem}
use synergy_lib.Timer.Expired.{list_expired_cb-locked, list_expired_lem}
use synergy_lib.Timer.Expiry.{is_due}
use synergy_lib.Timer.Reach.{
  Step, adds, adds_condition, cancels, refreshes, resets, asks, expires, Step-IsValid,
}

-- A section that is not about the timer `p`, and in which it does not expire.
unfoldable pub Spares : (p : ℕ) {m m' : TimerManager} → Step m m' → Type 0
Spares p (adds q elapsed ms cb recurring m n) = Unit
Spares p (adds_condition q elapsed ms cb w recurring m n) = Unit
Spares p (cancels q m m' r e) = q ≢ p
Spares p (refreshes q elapsed m) = q ≢ p
Spares p (resets q ms from_now elapsed m) = q ≢ p
Spares p (asks elapsed m) = Unit
Spares p (expires now_timer now_ms m n) =
    (now_ms < (m.heap p).next) × (clock_rollover m.previouse_time now_ms ≡ false)

pub data Meanwhile (p : ℕ) (s : TimerManager) : TimerManager → Type 0 where
  begins : Meanwhile p s s
  goes_on :
      {m m' : TimerManager} → Meanwhile p s m → (st : Step m m') → Spares p st → Meanwhile p s m'

-- The timer is in the set, set to `t`.
pub record Holds (p : ℕ) (t : Timer) (m : TimerManager) : Type 0 where
  pub queued : contains p m.timers ≡ true
  pub set_to : m.heap p ≡ t

add-Holds :
    (p : ℕ) (t : Timer) (q elapsed ms : ℕ) (cb : Callback) (recurring : Bool) (m : TimerManager)
    → contains q m.timers ≡ false
    → Holds p t m
    → Holds p t (add_timer q elapsed ms (some cb) recurring m).0
unfolding add_timer
add-Holds p t q elapsed ms cb recurring m n h = record {
  queued = ground (
    arith,
    h.queued,
    contains-insert (next_at (update m.heap q (new_timer ms (some cb) recurring elapsed))) q p
        m.timers,
  );
  set_to = ground (arith, h.queued, h.set_to, n);
}

cancel-Holds :
    (p : ℕ) (t : Timer) (q : ℕ) (m m' : TimerManager) (r : Bool)
    → cancel q m ≡ some (m', r)
    → q ≢ p
    → IsValid m
    → Holds p t m
    → Holds p t m'
cancel-Holds p t q m m' r e other v h = record {
  queued = ground (
    arith,
    e,
    other,
    cancel_lem q m v,
    h.queued,
    contains-remove (next_at m.heap) q p m.timers v.sorted,
  );
  set_to = ground (arith, e, other, cancel_lem q m v, h.set_to);
}

put_back-Holds :
    (p : ℕ) (t : Timer) (q : ℕ) (t' : Timer) (m : TimerManager)
    → q ≢ p
    → IsValid m
    → Holds p t m
    → let heap : ℕ → Timer = update m.heap q t' in
      Holds p t (record m { heap = heap; timers = (insert (next_at heap) q (remove q m.timers)).0 })
put_back-Holds p t q t' m other v h = record {
  queued = ground (
    arith,
    other,
    h.queued,
    contains-insert (next_at (update m.heap q t')) q p (remove q m.timers),
    contains-remove (next_at m.heap) q p m.timers v.sorted,
  );
  set_to = ground (arith, other, h.set_to);
}

refresh-Holds :
    (p : ℕ) (t : Timer) (q elapsed : ℕ) (m : TimerManager)
    → q ≢ p
    → IsValid m
    → Holds p t m
    → Holds p t (refresh q elapsed m).0
refresh-Holds p t q elapsed m other v h =
    rw (refresh_lem q elapsed m v) (elim (Bool-cases (contains q m.timers)) [
      | inl k ↦ rw k (put_back-Holds p t q _ m other v h)
      | inr k ↦ rw k h
    ])

reset_locked-Holds :
    (p : ℕ) (t : Timer) (q ms : ℕ) (from_now : Bool) (elapsed : ℕ) (m : TimerManager)
    → q ≢ p
    → IsValid m
    → Holds p t m
    → Holds p t (reset_locked q ms from_now elapsed m).0
unfolding add_timer_locked
reset_locked-Holds p t q ms from_now elapsed m other v h =
    rw (reset_locked_lem q ms from_now elapsed m v) (elim (Bool-cases (contains q m.timers)) [
      | inl k ↦
          let b = put_back-Holds p t q (rescheduled ms from_now elapsed (m.heap q)) m other v h in
          rw k (record { queued = b.queued; set_to = b.set_to })
      | inr k ↦ rw k h
    ])

expire-Holds :
    (p : ℕ) (t : Timer) (now_timer now_ms : ℕ) (m : TimerManager)
    → contains now_timer m.timers ≡ false
    → now_ms < t.next
    → clock_rollover m.previouse_time now_ms ≡ false
    → IsValid m
    → Holds p t m
    → Holds p t (list_expired_locked now_timer now_ms m).0
expire-Holds p t now_timer now_ms m n early steady v h =
    let r = list_expired_lem now_ms m v now_timer n in
    subst (λ x. Holds p t x.0) (list_expired_cb-locked now_timer now_ms m)
      (record {
        queued = ground (
          arith,
          r.2 p,
          h.queued,
          h.set_to,
          contains-filter (is_due (next_at m.heap) now_ms) p m.timers,
        );
        set_to =
            ground
              (arith, r.1 p, h.set_to, contains-filter (is_due (next_at m.heap) now_ms) p m.timers);
      })

pub Step-Holds :
    (p : ℕ) (t : Timer) {m m' : TimerManager} (st : Step m m')
    → Spares p st
    → IsValid m
    → Holds p t m
    → Holds p t m'
unfolding Spares get_next_timer add_condition_timer
Step-Holds p t (adds q elapsed ms cb recurring m n) k v h =
    add-Holds p t q elapsed ms cb recurring m n h
Step-Holds p t (adds_condition q elapsed ms cb w recurring m n) k v h =
    add-Holds p t q elapsed ms (on_timer w cb) recurring m n h
Step-Holds p t (cancels q m m' r e) k v h = cancel-Holds p t q m m' r e k v h
Step-Holds p t (refreshes q elapsed m) k v h = refresh-Holds p t q elapsed m k v h
Step-Holds p t (resets q ms from_now elapsed m) k v h =
    reset_locked-Holds p t q ms from_now elapsed m k v h
Step-Holds p t (asks elapsed m) k v h = record { queued = h.queued; set_to = h.set_to }
Step-Holds p t (expires now_timer now_ms m n) k v h =
    expire-Holds p t now_timer now_ms m n (ground (arith, k.0, h.set_to)) k.1 v h

pub Meanwhile-Holds :
    (p : ℕ) (t : Timer) {s m : TimerManager}
    → Meanwhile p s m
    → IsValid s × Holds p t s
    → IsValid m × Holds p t m
Meanwhile-Holds p t begins h = h
Meanwhile-Holds p t (goes_on r st k) h =
    let (v, held) = Meanwhile-Holds p t r h in (Step-IsValid st v, Step-Holds p t st k v held)

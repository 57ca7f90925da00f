-- ===== src/Timer/Expired.antt =====
-- TimerManager::listExpiredCb (common/Timer.cc) as a whole.
use synergy_lib.Prelude.{
  ℕ, refl, arith, List, if◌then◌else◌, Option, Bool, filter, [], is_empty, contains, ◌≡◌, false,
  ◌∷◌, take-length, drop-length, Bool-cases, ◌||◌, inl, contains-filter, inr, filter-IsDistinct,
  map, ◌&&◌, not, ◌∙◌, u64, ◌+◌, none,
}
use synergy_lib.TimerSet.Search.{IsSorted, IsSorted-IsDistinct, filter-IsSorted}
use synergy_lib.Timer.{Timer, TimerManager, Callback, next_at}
use synergy_lib.Timer.Listing.{
  fire_all, after_firing, clock_rollover, list_expired_locked, list_expired_cb,
}
use synergy_lib.Timer.Expiry.{is_due, is_later, Cuts-none, expired_end-Cuts, expired_end-rollover}
use synergy_lib.Timer.Firing.{
  Firing, heap-fire_all, contains-fire_all, fire_all-IsSorted, callbacks-fire_all,
}
use synergy_lib.Timer.Invariant.{IsValid}

-- The timers that a call at the time `now_ms` has to fire: the due ones, or all after a rollover.
abbrev pub expired_timers : ℕ → TimerManager → List ℕ
expired_timers now_ms m =
    if clock_rollover m.previouse_time now_ms
    then m.timers
    else filter (is_due (next_at m.heap) now_ms) m.timers

abbrev pub kept_timers : ℕ → TimerManager → List ℕ
kept_timers now_ms m =
    if clock_rollover m.previouse_time now_ms
    then []
    else filter (is_later (next_at m.heap) now_ms) m.timers

abbrev fired_manager : ℕ → TimerManager → TimerManager × List (Option Callback)
fired_manager now_ms m =
    let fired = fire_all now_ms (expired_timers now_ms m) m.heap (kept_timers now_ms m) in
    (
      record m {
        heap = fired.0;
        timers = fired.1;
        previouse_time = if is_empty m.timers then m.previouse_time else now_ms;
      },
      fired.2,
    )

fire_all_nil :
    (now_ms : ℕ) (heap : ℕ → Timer) (timers : List ℕ)
    → fire_all now_ms [] heap timers ≡ (heap, timers, [])
unfolding fire_all
fire_all_nil now_ms heap timers = refl

-- The search, the loop and the early returns together fire the expired timers and nothing else.
list_expired_at :
    (now_timer now_ms : ℕ) (heap : ℕ → Timer) (timers : List ℕ) (tickled : Bool)
    (previouse_time : ℕ)
    → contains now_timer timers ≡ false
    → IsSorted (next_at heap) timers
    → let m : TimerManager = record {
      heap = heap;
      timers = timers;
      tickled = tickled;
      previouse_time = previouse_time;
    } in
      list_expired_locked now_timer now_ms m ≡ fired_manager now_ms m
unfolding list_expired_locked
list_expired_at now_timer now_ms heap [] tickled previouse_time n s =
    ground (arith, fire_all_nil now_ms heap [])
list_expired_at now_timer now_ms heap (x ∷ xs) tickled previouse_time n s = ground (
  arith,
  fire_all_nil now_ms heap (x ∷ xs),
  expired_end-rollover now_timer now_ms heap (x ∷ xs),
  take-length (x ∷ xs),
  drop-length (x ∷ xs),
  expired_end-Cuts now_timer now_ms heap (x ∷ xs) n s,
  Cuts-none (next_at heap) now_ms x xs,
  s.0,
)

-- The early return under the read lock changes nothing: the second part returns at once as well.
list_expired_cb_at :
    (now_timer now_ms : ℕ) (heap : ℕ → Timer) (timers : List ℕ) (tickled : Bool)
    (previouse_time : ℕ)
    → let m : TimerManager = record {
      heap = heap;
      timers = timers;
      tickled = tickled;
      previouse_time = previouse_time;
    } in
      list_expired_cb now_timer now_ms m ≡ list_expired_locked now_timer now_ms m
unfolding list_expired_cb
list_expired_cb_at now_timer now_ms heap [] tickled previouse_time = refl
list_expired_cb_at now_timer now_ms heap (x ∷ xs) tickled previouse_time = refl

pub list_expired_cb-locked :
    (now_timer now_ms : ℕ) (m : TimerManager)
    → list_expired_cb now_timer now_ms m ≡ list_expired_locked now_timer now_ms m
list_expired_cb-locked now_timer now_ms m =
    list_expired_cb_at now_timer now_ms m.heap m.timers m.tickled m.previouse_time

module _ (now_ms : ℕ) (m : TimerManager) (v : IsValid m) where
  expired-Firing : Firing (expired_timers now_ms m) m.heap (kept_timers now_ms m)
  expired-Firing = elim (Bool-cases (clock_rollover m.previouse_time now_ms)) [
    | inl r ↦ rw r (record {
      distinct = IsSorted-IsDistinct (next_at m.heap) m.timers v.sorted;
      disjoint = λ q k. refl;
      sorted = tt;
    })
    | inr r ↦ rw r (record {
      distinct =
          filter-IsDistinct (is_due (next_at m.heap) now_ms) m.timers
            (IsSorted-IsDistinct (next_at m.heap) m.timers v.sorted);
      disjoint = λ q k. ground (
        arith,
        contains-filter (is_due (next_at m.heap) now_ms) q m.timers,
        contains-filter (is_later (next_at m.heap) now_ms) q m.timers,
      );
      sorted =
          filter-IsSorted (next_at m.heap) (is_later (next_at m.heap) now_ms) m.timers v.sorted;
    })
  ]

  contains-expired-kept :
      (q : ℕ)
      → contains q m.timers
        ≡ (contains q (expired_timers now_ms m) || contains q (kept_timers now_ms m))
  contains-expired-kept q = ground (
    arith,
    contains-filter (is_due (next_at m.heap) now_ms) q m.timers,
    contains-filter (is_later (next_at m.heap) now_ms) q m.timers,
  )

  fired-IsValid : IsValid (fired_manager now_ms m).0
  unfolding after_firing
  fired-IsValid = record {
    sorted = fire_all-IsSorted now_ms _ m.heap _ expired-Firing;
    pending = λ q. ground (
      arith,
      heap-fire_all now_ms (expired_timers now_ms m) m.heap (kept_timers now_ms m) q
          expired-Firing.distinct,
      contains-fire_all now_ms (expired_timers now_ms m) m.heap (kept_timers now_ms m) q
          expired-Firing,
      contains-expired-kept q,
      expired-Firing.disjoint q,
      v.pending q,
    );
  }

  pub list_expired-IsValid :
      (now_timer : ℕ)
      → contains now_timer m.timers ≡ false
      → IsValid (list_expired_locked now_timer now_ms m).0
  list_expired-IsValid now_timer n =
      rw (list_expired_at now_timer now_ms m.heap m.timers m.tickled m.previouse_time n v.sorted)
        fired-IsValid

  -- One call of listExpiredCb on a valid manager, whose search timer is at an unused address, hands
  -- out the callbacks of the expired timers in their order; a timer that fired is rescheduled at the
  -- current time plus its interval if it recurs and loses its callback if not, and every other
  -- object is untouched; and exactly the timers of the set that recur or did not expire remain in it.
  pub list_expired_lem :
      (now_timer : ℕ)
      → contains now_timer m.timers ≡ false
      → let r = list_expired_cb now_timer now_ms m in
        (r.1 ≡ map (λ p. (m.heap p).cb) (expired_timers now_ms m))
        × ((q : ℕ)
            → r.0.heap q ≡ (
                if contains q (expired_timers now_ms m)
                then if (m.heap q).recurring
                  then record (m.heap q) { next = u64 (now_ms + (m.heap q).ms) }
                  else record (m.heap q) { cb = none }
                else m.heap q))
        × ((q : ℕ)
            → contains q r.0.timers ≡ (
                contains q m.timers
                && ((m.heap q).recurring || not (contains q (expired_timers now_ms m)))))
        × IsValid r.0
  unfolding after_firing
  list_expired_lem now_timer n =
      rw (list_expired_cb_at now_timer now_ms m.heap m.timers m.tickled m.previouse_time) (
        rw (list_expired_at now_timer now_ms m.heap m.timers m.tickled m.previouse_time n v.sorted)
          (
            callbacks-fire_all now_ms (expired_timers now_ms m) m.heap (kept_timers now_ms m)
                expired-Firing.distinct,
            λ q.
                heap-fire_all now_ms (expired_timers now_ms m) m.heap (kept_timers now_ms m) q
                  expired-Firing.distinct,
            λ q.
                contains-fire_all now_ms (expired_timers now_ms m) m.heap (kept_timers now_ms m) q
                  expired-Firing
                ∙ ground (arith, contains-expired-kept q, expired-Firing.disjoint q),
            fired-IsValid,
          ))

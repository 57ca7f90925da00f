-- ===== src/Timer/Recurring.antt =====
-- A recurring timer over many calls of listExpiredCb (common/Timer.cc).
use synergy_lib.Prelude.{
  refl, contains-filter, ℕ, contains, ◌+◌, ◌≡◌, false, true, ◌≤◌, ◌<◌, u64_mod, contains-filter,
  subst, arith, sym, map, ap, List, [], ◌∷◌,
}
use mathlib.Core.List.{Memᴰ, ◌∷◌}
use synergy_lib.Timer.{TimerManager, Timer, next_at}
use synergy_lib.Timer.Listing.{clock_rollover, list_expired_locked}
use synergy_lib.Timer.Invariant.{IsValid}
use synergy_lib.Timer.Expired.{
  list_expired_lem, list_expired_cb-locked, list_expired-IsValid, expired_timers,
}
use synergy_lib.Timer.Expiry.{is_due}
use synergy_lib.Timer.Reach.{Step, Step-IsValid}
use synergy_lib.Timer.Sparing.{Spares, Holds, Step-Holds}
use synergy_lib.Timer.Lifetime.{map-Memᴰ}

-- Sections of any threads, in which the timer `p` is neither cancelled, refreshed nor reset, and
-- listExpiredCb fires it, because it is due, at the clock times of the list, the last one first.
pub data Firings (p : ℕ) (s : TimerManager) : List ℕ → TimerManager → Type 0 where
  begins : Firings p s [] s
  spares :
      {times : List ℕ} {m m' : TimerManager}
      → Firings p s times m
      → (st : Step m m') → Spares p st
      → Firings p s times m'
  fires :
      {times : List ℕ} {m : TimerManager} (now_timer now_ms : ℕ)
      → Firings p s times m
      → contains now_timer m.timers ≡ false
      → (m.heap p).next ≤ now_ms
      → clock_rollover m.previouse_time now_ms ≡ false
      → now_ms + (m.heap p).ms < u64_mod
      → Firings p s (now_ms ∷ times) (list_expired_locked now_timer now_ms m).0

-- The deadline of a timer that was due at `first`, behind firings at these times.
abbrev pub due_behind : ℕ → ℕ → List ℕ → ℕ
due_behind first ms [] = first
due_behind first ms (t ∷ times) = t + ms

-- Each firing comes no earlier than the first deadline, or an interval behind the one before it.
abbrev pub AreSpaced : ℕ → ℕ → List ℕ → Type 0
AreSpaced first ms [] = Unit
AreSpaced first ms (t ∷ times) = (due_behind first ms times ≤ t) × AreSpaced first ms times

-- The timer is in the set, set to `t` but for the deadline.
record Beats (p : ℕ) (t : Timer) (times : List ℕ) (m : TimerManager) : Type 0 where
  valid : IsValid m
  held : Holds p (record t { next = due_behind t.next t.ms times }) m
  spaced : AreSpaced t.next t.ms times

fired-Beats :
    (p : ℕ) (t : Timer) (times : List ℕ) (now_timer now_ms : ℕ) (m : TimerManager)
    → t.recurring ≡ true
    → Beats p t times m
    → contains now_timer m.timers ≡ false
    → (m.heap p).next ≤ now_ms
    → clock_rollover m.previouse_time now_ms ≡ false
    → now_ms + (m.heap p).ms < u64_mod
    → Beats p t (now_ms ∷ times) (list_expired_locked now_timer now_ms m).0
fired-Beats p t times now_timer now_ms m rec b free due steady fits =
    let r = list_expired_lem now_ms m b.valid now_timer free in
    let now = contains-filter (is_due (next_at m.heap) now_ms) p m.timers in
    record {
      valid = list_expired-IsValid now_ms m b.valid now_timer free;
      held =
          subst (λ x. Holds p (record t { next = now_ms + t.ms }) x.0)
            (list_expired_cb-locked now_timer now_ms m)
            (record {
              queued = ground (arith, r.2 p, now, b.held.queued, b.held.set_to);
              set_to = ground (arith, r.1 p, now, b.held.queued, b.held.set_to);
            });
      spaced = (ground (arith, b.held.set_to, due), b.spaced);
    }

Firings-Beats :
    (p : ℕ) {s m : TimerManager} {times : List ℕ}
    → IsValid s
    → contains p s.timers ≡ true
    → (s.heap p).recurring ≡ true
    → Firings p s times m
    → Beats p (s.heap p) times m
Firings-Beats p {s} v in_set rec begins = record {
  valid = v;
  held = record { queued = in_set; set_to = refl };
  spaced = tt;
}
Firings-Beats p {s} {times = times} v in_set rec (spares r st k) =
    let b = Firings-Beats p v in_set rec r in
    let t = s.heap p in
    record {
      valid = Step-IsValid st b.valid;
      held = Step-Holds p (record t { next = due_behind t.next t.ms times }) st k b.valid b.held;
      spaced = b.spaced;
    }
Firings-Beats p {s} v in_set rec (fires {times} {m} now_timer now_ms r free due steady fits) =
    fired-Beats p (s.heap p) times now_timer now_ms m rec (Firings-Beats p v in_set rec r) free due
      steady fits

-- A recurring timer of a valid manager, which nobody cancels, refreshes or resets, is fired by calls of
-- listExpiredCb at which it is due, of any threads and among sections of any other kind; the clock is
-- not taken for one that was set back, and the times fit into 64 bits. Then the first firing comes no
-- earlier than its deadline, and each later one no earlier than an interval behind the one before it;
-- the timer is in the set with the same callback and interval, and with the deadline an interval
-- behind the last firing; and the next call at which it is due hands its callback out.
pub fires_each_interval :
    (p : ℕ) (times : List ℕ) {s m : TimerManager}
    → IsValid s
    → contains p s.timers ≡ true
    → (s.heap p).recurring ≡ true
    → Firings p s times m
    → AreSpaced (s.heap p).next (s.heap p).ms times
      × (contains p m.timers ≡ true)
      × (m.heap p ≡ record (s.heap p) { next = due_behind (s.heap p).next (s.heap p).ms times })
      × ((now_timer now_ms : ℕ)
          → contains now_timer m.timers ≡ false
          → (m.heap p).next ≤ now_ms
          → Memᴰ (s.heap p).cb (list_expired_locked now_timer now_ms m).1)
fires_each_interval p times {s} {m} v in_set rec r =
    let b = Firings-Beats p v in_set rec r in
    (
      b.spaced,
      b.held.queued,
      b.held.set_to,
      λ now_timer now_ms free due.
          let l = list_expired_lem now_ms m b.valid now_timer free in
          let here = contains-filter (is_due (next_at m.heap) now_ms) p m.timers in
          subst (λ x. Memᴰ (s.heap p).cb x.1) (list_expired_cb-locked now_timer now_ms m)
            (subst (λ cs. Memᴰ (s.heap p).cb cs) (sym l.0)
              (subst (λ c. Memᴰ c (map (λ q. (m.heap q).cb) (expired_timers now_ms m)))
                (ap (λ x. x.cb) b.held.set_to)
                (map-Memᴰ (λ q. (m.heap q).cb) p (expired_timers now_ms m)
                  (ground (arith, here, b.held.queued))))),
    )

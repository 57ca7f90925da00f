-- ===== src/Timer/Abstract.antt =====
-- The timer manager (common/Timer.cc) as its callers see it: a table from timers to what they are
-- set to. The set's order, the comparator and the search for the expired timers are not part of it.
use synergy_lib.Prelude.{
  contains-filter, ℕ, arith, Bool, false, Option, none, some, ◌≡◌, ◌+◌, ◌||◌, contains,
  if◌then◌else◌, update, u64, fun_ext, leb, subst, inl, inr, Bool-cases, remove, refl, u64_mod,
  List, ◌∙◌, ◌∷◌, ◌-◌, [], ap, true,
}
use synergy_lib.TimerSet.{insert}
use synergy_lib.TimerSet.Search.{contains-insert, contains-remove}
use synergy_lib.Timer.{
  TimerManager, Timer, Callback, new_timer, new_manager, add_timer, add_timer_locked,
  add_condition_timer, cancel, refresh, reset_locked, rescheduled, get_next_timer, on_timer,
  next_at,
}
use synergy_lib.Timer.Listing.{list_expired_locked, clock_rollover}
use synergy_lib.Timer.Invariant.{IsValid, cancel_lem, refresh_lem, reset_locked_lem}
use synergy_lib.Timer.Expired.{list_expired_cb-locked, list_expired_lem}
use synergy_lib.Timer.Expiry.{is_due}
use synergy_lib.Timer.Reach
use synergy_lib.Timer.Reach.{Step, Reach-IsValid}

-- What each timer is set to, `none` for one that is not pending.
abbrev pub View : Type 0
View = ℕ → Option Timer

abbrev pub view : TimerManager → View
view m p = if contains p m.timers then some (m.heap p) else none

-- A timer when the expired ones fire at `now_ms`, or all of them.
abbrev pub fire : ℕ → Bool → Option Timer → Option Timer
fire now_ms every none = none
fire now_ms every (some t) =
    if every || leb t.next now_ms
    then (if t.recurring then some (record t { next = u64 (now_ms + t.ms) }) else none)
    else some t

-- The start of a timer's interval behind a reset; the difference is unsigned.
abbrev pub started_at : Bool → ℕ → Timer → ℕ
started_at true elapsed t = elapsed
started_at false elapsed t = u64 (t.next + u64_mod - t.ms)

-- A timer that is set anew, if it is pending.
abbrev pub refreshed : ℕ → Option Timer → Option Timer
refreshed elapsed none = none
refreshed elapsed (some t) = some (record t { next = u64 (elapsed + t.ms) })

abbrev pub was_reset : ℕ → Bool → ℕ → Option Timer → Option Timer
was_reset ms from_now elapsed none = none
was_reset ms from_now elapsed (some t) =
    some (record t { ms = ms; next = u64 (started_at from_now elapsed t + ms) })

-- A call of the table, with what it is called with; `every` tells whether the clock was seen to go back.
pub data Call : Type 0 where
  adds : (p elapsed ms : ℕ) (cb : Callback) (recurring : Bool) → Call
  cancels : (p : ℕ) → Call
  refreshes : (p elapsed : ℕ) → Call
  resets : (p ms : ℕ) (from_now : Bool) (elapsed : ℕ) → Call
  fires : (now_ms : ℕ) (every : Bool) → Call
  asks : Call

abbrev pub after : Call → View → View
after (adds p elapsed ms cb recurring) v =
    update v p
      (some (record { recurring = recurring; ms = ms; next = u64 (elapsed + ms); cb = some cb }))
after (cancels p) v = update v p none
after (refreshes p elapsed) v = update v p (refreshed elapsed (v p))
after (resets p ms from_now elapsed) v = update v p (was_reset ms from_now elapsed (v p))
after (fires now_ms every) v = λ p. fire now_ms every (v p)
after asks v = v

-- The last call first.
abbrev pub after_all : List Call → View → View
after_all [] v = v
after_all (c ∷ cs) v = after c (after_all cs v)

-- The call that a locked section of the manager is.
abbrev pub call_of : {m m' : TimerManager} → Step m m' → Call
call_of (Reach.adds p elapsed ms cb recurring m n) = adds p elapsed ms cb recurring
call_of (Reach.adds_condition p elapsed ms cb w recurring m n) =
    adds p elapsed ms (on_timer w cb) recurring
call_of (Reach.cancels p m m' r e) = cancels p
call_of (Reach.refreshes p elapsed m) = refreshes p elapsed
call_of (Reach.resets p ms from_now elapsed m) = resets p ms from_now elapsed
call_of (Reach.asks elapsed m) = asks
call_of (Reach.expires now_timer now_ms m n) = fires now_ms (clock_rollover m.previouse_time now_ms)

abbrev pub calls_of : {s m : TimerManager} → Reach.Reach s m → List Call
calls_of Reach.here = []
calls_of (Reach.next r st) = call_of st ∷ calls_of r

adds_view :
    (p elapsed ms : ℕ) (cb : Callback) (recurring : Bool) (m : TimerManager) (q : ℕ)
    → view (add_timer p elapsed ms (some cb) recurring m).0 q
      ≡ after (adds p elapsed ms cb recurring) (view m) q
unfolding add_timer new_timer
adds_view p elapsed ms cb recurring m q = ground (
  arith,
  contains-insert (next_at (update m.heap p (new_timer ms (some cb) recurring elapsed))) p q
      m.timers,
)

cancels_view :
    (p : ℕ) (m m' : TimerManager) (r : Bool)
    → cancel p m ≡ some (m', r)
    → IsValid m
    → (q : ℕ) → view m' q ≡ after (cancels p) (view m) q
cancels_view p m m' r e v q = elim (Bool-cases (contains p m.timers)) [
  | inl h ↦
      subst (λ x. view x q ≡ after (cancels p) (view m) q) {x = without} {y = m'}
        (ground (arith, e, cancel_lem p m v))
        (ground (arith, contains-remove (next_at m.heap) p q m.timers v.sorted))
  | inr h ↦
      subst (λ x. view x q ≡ after (cancels p) (view m) q) {x = m} {y = m'}
        (ground (arith, e, cancel_lem p m v)) (ground (arith, h))
]
  where
    without : TimerManager
    without = record m {
      heap = update m.heap p (record (m.heap p) { cb = none });
      timers = remove p m.timers;
    }

-- A pending timer that is taken out, set to `t` and put back.
put_back :
    (p q : ℕ) (t : Timer) (m : TimerManager)
    → IsValid m
    → let heap : ℕ → Timer = update m.heap p t in
      view (record m { heap = heap; timers = (insert (next_at heap) p (remove p m.timers)).0 }) q
      ≡ update (view m) p (some t) q
put_back p q t m v = ground (
  arith,
  contains-insert (next_at (update m.heap p t)) p q (remove p m.timers),
  contains-remove (next_at m.heap) p q m.timers v.sorted,
)

refreshes_view :
    (p elapsed : ℕ) (m : TimerManager)
    → IsValid m
    → (q : ℕ) → view (refresh p elapsed m).0 q ≡ after (refreshes p elapsed) (view m) q
refreshes_view p elapsed m v q =
    rw (refresh_lem p elapsed m v) (elim (Bool-cases (contains p m.timers)) [
      | inl h ↦ rw h (
          put_back p q (record (m.heap p) { next = u64 (elapsed + (m.heap p).ms) }) m v
          ∙ ground (arith, h))
      | inr h ↦ rw h (ground (arith, h))
    ])

resets_view :
    (p ms : ℕ) (from_now : Bool) (elapsed : ℕ) (m : TimerManager)
    → IsValid m
    → (q : ℕ)
    → view (reset_locked p ms from_now elapsed m).0 q
      ≡ after (resets p ms from_now elapsed) (view m) q
unfolding add_timer_locked rescheduled
resets_view p ms from_now elapsed m v q =
    rw (reset_locked_lem p ms from_now elapsed m v) (elim (Bool-cases (contains p m.timers)) [
      | inl h ↦
          rw h (put_back p q (rescheduled ms from_now elapsed (m.heap p)) m v ∙ ground (arith, h))
      | inr h ↦ rw h (ground (arith, h))
    ])

expires_view :
    (now_timer now_ms : ℕ) (m : TimerManager)
    → contains now_timer m.timers ≡ false
    → IsValid m
    → (q : ℕ)
    → view (list_expired_locked now_timer now_ms m).0 q
      ≡ after (fires now_ms (clock_rollover m.previouse_time now_ms)) (view m) q
expires_view now_timer now_ms m n v q =
    let r = list_expired_lem now_ms m v now_timer n in
    subst
      (λ x. view x.0 q ≡ after (fires now_ms (clock_rollover m.previouse_time now_ms)) (view m) q)
      (list_expired_cb-locked now_timer now_ms m)
      (ground (arith, r.1 q, r.2 q, contains-filter (is_due (next_at m.heap) now_ms) q m.timers))

Step-view :
    {m m' : TimerManager} (st : Step m m')
    → IsValid m
    → (q : ℕ) → view m' q ≡ after (call_of st) (view m) q
unfolding get_next_timer add_condition_timer
Step-view (Reach.adds p elapsed ms cb recurring m n) v q = adds_view p elapsed ms cb recurring m q
Step-view (Reach.adds_condition p elapsed ms cb w recurring m n) v q =
    adds_view p elapsed ms (on_timer w cb) recurring m q
Step-view (Reach.cancels p m m' r e) v q = cancels_view p m m' r e v q
Step-view (Reach.refreshes p elapsed m) v q = refreshes_view p elapsed m v q
Step-view (Reach.resets p ms from_now elapsed m) v q = resets_view p ms from_now elapsed m v q
Step-view (Reach.asks elapsed m) v q = refl
Step-view (Reach.expires now_timer now_ms m n) v q = expires_view now_timer now_ms m n v q

Reach-view :
    {s m : TimerManager} (r : Reach.Reach s m)
    → IsValid s
    → view m ≡ after_all (calls_of r) (view s)
Reach-view Reach.here v = refl
Reach-view (Reach.next r st) v =
    fun_ext (λ q. Step-view st (Reach-IsValid r v) q) ∙ ap (after (call_of st)) (Reach-view r v)

-- The manager refines the table: for every sequence of locked sections, by any threads, on a manager
-- that started with no timer, the timers of its set with their settings are what the same calls, one
-- for each section and with the same arguments, make of the empty table. There a call adds, removes,
-- refreshes or resets the one timer that it names, the last two if it is pending, or fires the timers
-- that are due, or all of them when the section sees a clock that was set back: those that recur are
-- set to the current time plus their interval and the others removed. getNextTimer changes nothing.
pub manager-refines :
    (heap : ℕ → Timer) (elapsed : ℕ) {m : TimerManager}
    → ((p : ℕ) → (heap p).cb ≡ none)
    → (r : Reach.Reach (new_manager heap elapsed) m) → view m ≡ after_all (calls_of r) (λ p. none)
unfolding new_manager
manager-refines heap elapsed e r =
    Reach-view r (record { sorted = tt; pending = λ p. ground (arith, e p) })

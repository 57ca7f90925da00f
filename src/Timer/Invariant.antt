-- ===== src/Timer/Invariant.antt =====
-- What holds of the timers and their manager (common/Timer.cc) between two locked sections.
use synergy_lib.TimerSet.{insert}
use synergy_lib.Prelude.{
  ℕ, ◌≡◌, refl, sym, ◌∙◌, Bool, true, false, ◌||◌, none, some, List, arith, ◌==◌, if◌then◌else◌,
  contains, remove, update, u64, ◌+◌, Bool-cases, inl, inr, subst,
}
use synergy_lib.TimerSet.Search.{
  IsSorted, IsSorted-ext, insert-IsSorted, contains-insert, contains-remove, erase_at-find,
  remove-IsSorted,
}
use synergy_lib.Timer.{
  Timer, TimerManager, Callback, next_at, armed, add_timer_locked, add_timer, cancel, refresh,
  reset_locked, rescheduled, get_next_timer,
}

-- The set is in order, and it holds exactly the timers that have a callback.
pub record IsValid (m : TimerManager) : Type 0 where
  pub sorted : IsSorted (next_at m.heap) m.timers
  pub pending : (p : ℕ) → armed m.heap p ≡ contains p m.timers

pub IsSorted-update :
    (h : ℕ → Timer) (p : ℕ) (t : Timer) (xs : List ℕ)
    → contains p xs ≡ false
    → IsSorted (next_at h) xs
    → IsSorted (next_at (update h p t)) xs
IsSorted-update h p t xs n s = IsSorted-ext (next_at h) _ xs (λ q k. ground arith) s

pub IsSorted-update_same :
    (h : ℕ → Timer) (p : ℕ) (t : Timer) (xs : List ℕ)
    → t.next ≡ (h p).next
    → IsSorted (next_at h) xs
    → IsSorted (next_at (update h p t)) xs
IsSorted-update_same h p t xs e s = IsSorted-ext (next_at h) _ xs (λ q k. ground arith) s

pub not_contains-remove :
    (f : ℕ → ℕ) (p : ℕ) (xs : List ℕ) → IsSorted f xs → contains p (remove p xs) ≡ false
not_contains-remove f p xs s = ground (arith, contains-remove f p p xs s)

-- Putting a timer with a callback into the set, from a state where it is the one that is missing.
add_timer_locked-IsValid :
    (p : ℕ) (m : TimerManager)
    → IsSorted (next_at m.heap) m.timers
    → ((q : ℕ) → armed m.heap q ≡ (p == q || contains q m.timers))
    → IsValid (add_timer_locked p m).0
unfolding add_timer_locked
add_timer_locked-IsValid p m s e = record {
  sorted = insert-IsSorted (next_at m.heap) p m.timers s;
  pending = λ q. e q ∙ sym (contains-insert (next_at m.heap) p q m.timers);
}

pub add_timer-IsValid :
    (p elapsed ms : ℕ) (cb : Callback) (recurring : Bool) (m : TimerManager)
    → contains p m.timers ≡ false
    → IsValid m
    → IsValid (add_timer p elapsed ms (some cb) recurring m).0
unfolding add_timer
add_timer-IsValid p elapsed ms cb recurring m n v =
    add_timer_locked-IsValid p _ (IsSorted-update m.heap p _ m.timers n v.sorted)
      (λ q. ground (arith, v.pending q))

-- Timer::cancel in a valid state is never undefined behaviour, and removes the timer if it was in
-- the set.
pub cancel_lem :
    (p : ℕ) (m : TimerManager)
    → IsValid m
    → cancel p m
      ≡ some (
          if contains p m.timers
          then (
            record m {
              heap = update m.heap p (record (m.heap p) { cb = none });
              timers = remove p m.timers;
            },
            true,
          )
          else (m, false))
unfolding cancel
cancel_lem p m v = ground (
  arith,
  v.pending p,
  erase_at-find (next_at heap) p m.timers (IsSorted-update_same m.heap p _ m.timers refl v.sorted),
)
  where
    heap : ℕ → Timer
    heap = update m.heap p (record (m.heap p) { cb = none })

pub cancelled-IsValid :
    (p : ℕ) (m : TimerManager)
    → IsValid m
    → IsValid (record m {
      heap = update m.heap p (record (m.heap p) { cb = none });
      timers = remove p m.timers;
    })
cancelled-IsValid p m v = record {
  sorted =
      IsSorted-update_same m.heap p _ (remove p m.timers) refl
        (remove-IsSorted (next_at m.heap) p m.timers v.sorted);
  pending =
      λ q. ground (arith, v.pending q, contains-remove (next_at m.heap) p q m.timers v.sorted);
}

-- A timer that is in the set, taken out, given new times and put back.
moved-IsValid :
    (p : ℕ) (t : Timer) (m : TimerManager)
    → contains p m.timers ≡ true
    → t.cb ≡ (m.heap p).cb
    → IsValid m
    → let heap : ℕ → Timer = update m.heap p t in
      IsSorted (next_at heap) (remove p m.timers)
      × ((q : ℕ) → armed heap q ≡ (p == q || contains q (remove p m.timers)))
moved-IsValid p t m h e v = (
  IsSorted-update m.heap p t (remove p m.timers)
      (not_contains-remove (next_at m.heap) p m.timers v.sorted)
      (remove-IsSorted (next_at m.heap) p m.timers v.sorted),
  λ q.
      ground
        (arith, v.pending q, v.pending p, contains-remove (next_at m.heap) p q m.timers v.sorted),
)

-- Timer::refresh in a valid state: a timer of the set is put back with its full interval to go.
pub refresh_lem :
    (p elapsed : ℕ) (m : TimerManager)
    → IsValid m
    → refresh p elapsed m ≡ (
        let heap : ℕ → Timer =
          update m.heap p (record (m.heap p) { next = u64 (elapsed + (m.heap p).ms) }) in
        if contains p m.timers
        then (
          record m { heap = heap; timers = (insert (next_at heap) p (remove p m.timers)).0 },
          true,
        )
        else (m, false))
unfolding refresh
refresh_lem p elapsed m v =
    ground (arith, v.pending p, erase_at-find (next_at m.heap) p m.timers v.sorted)

pub refresh-IsValid :
    (p elapsed : ℕ) (m : TimerManager) → IsValid m → IsValid (refresh p elapsed m).0
refresh-IsValid p elapsed m v =
    rw (refresh_lem p elapsed m v)
      (elim (Bool-cases (contains p m.timers)) [ inl h ↦ rw h (put h) | inr h ↦ rw h v ])
  where
    heap : ℕ → Timer
    heap = update m.heap p (record (m.heap p) { next = u64 (elapsed + (m.heap p).ms) })

    put :
        contains p m.timers ≡ true
        → IsValid
            (record m { heap = heap; timers = (insert (next_at heap) p (remove p m.timers)).0 })
    put h =
        let r =
          moved-IsValid p (record (m.heap p) { next = u64 (elapsed + (m.heap p).ms) }) m h refl v in
        record {
          sorted = insert-IsSorted (next_at heap) p (remove p m.timers) r.0;
          pending = λ q. r.1 q ∙ sym (contains-insert (next_at heap) p q (remove p m.timers));
        }

-- Timer::reset from its lock on, in a valid state: a timer of the set is put back with the new
-- interval.
pub reset_locked_lem :
    (p ms : ℕ) (from_now : Bool) (elapsed : ℕ) (m : TimerManager)
    → IsValid m
    → reset_locked p ms from_now elapsed m ≡ (
        if contains p m.timers
        then (let r = add_timer_locked p (record m {
          heap = update m.heap p (rescheduled ms from_now elapsed (m.heap p));
          timers = remove p m.timers;
        }) in
            (r.0, true, r.1))
        else (m, false, false))
unfolding reset_locked
reset_locked_lem p ms from_now elapsed m v =
    ground (arith, v.pending p, erase_at-find (next_at m.heap) p m.timers v.sorted)

pub reset_locked-IsValid :
    (p ms : ℕ) (from_now : Bool) (elapsed : ℕ) (m : TimerManager)
    → IsValid m
    → IsValid (reset_locked p ms from_now elapsed m).0
unfolding rescheduled
reset_locked-IsValid p ms from_now elapsed m v =
    rw (reset_locked_lem p ms from_now elapsed m v)
      (elim (Bool-cases (contains p m.timers)) [ inl k ↦ rw k (put k) | inr k ↦ rw k v ])
  where
    t : Timer
    t = rescheduled ms from_now elapsed (m.heap p)

    put :
        contains p m.timers ≡ true
        → IsValid
            (add_timer_locked p
              (record m { heap = update m.heap p t; timers = remove p m.timers })).0
    put h =
        let r = moved-IsValid p t m h refl v in
        add_timer_locked-IsValid p
          (record m { heap = update m.heap p t; timers = remove p m.timers }) r.0 r.1

pub get_next_timer-IsValid :
    (elapsed : ℕ) (m : TimerManager) → IsValid m → IsValid (get_next_timer elapsed m).0
unfolding get_next_timer
get_next_timer-IsValid elapsed m v = record { sorted = v.sorted; pending = v.pending }

pub cancel-IsValid :
    (p : ℕ) (m m' : TimerManager) (r : Bool) → cancel p m ≡ some (m', r) → IsValid m → IsValid m'
cancel-IsValid p m m' r e v = elim (Bool-cases (contains p m.timers)) [
  | inl h ↦ subst IsValid (ground (arith, e, cancel_lem p m v)) (cancelled-IsValid p m v)
  | inr h ↦ subst IsValid (ground (arith, e, cancel_lem p m v)) v
]

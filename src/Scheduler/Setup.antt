-- ===== src/Scheduler/Setup.antt =====
-- The construction and start of a Scheduler (synergy/Scheduler.cc), and a task that no thread of it
-- can take.
use synergy_lib.Prelude.{
  ℕ, refl, arith, length, ◌≡◌, Bool, true, suc, ◌<◌, u64_mod, ap, if◌then◌else◌, ◌-◌, zero, ◌∷◌, [],
  ◌++◌, false, u64, ◌+◌,
}
use synergy_lib.Prelude.Int.{ℤ}
use synergy_lib.Scheduler.{new_scheduler, new_threads, start, is_stopping}

length-new_threads : (new_id : ℕ → ℤ) (i n : ℕ) → length (new_threads new_id i n) ≡ n
unfolding new_threads
length-new_threads new_id i zero = refl
length-new_threads new_id i (suc n) = ap suc (length-new_threads new_id (suc i) n)

-- A scheduler made for `threads` threads, at least one, has that many thread ids once it is started,
-- with the calling thread first if it takes part, and has created the others.
pub start-new_scheduler :
    (threads : ℕ) (use_caller : Bool) (caller : ℤ) (root : ℕ) (new_id : ℕ → ℤ)
    → 0 < threads
    → threads < u64_mod
    → let s = start new_id (new_scheduler threads use_caller caller root) in
      (length s.thread_ids ≡ threads)
      × (s.thread_ids ≡ (if use_caller then caller ∷ [] else []) ++ s.threads)
      × (is_stopping s ≡ false)
unfolding start new_scheduler is_stopping
start-new_scheduler threads true caller root new_id h k =
    (ground (arith, length-new_threads new_id 0 (u64 (threads + u64_mod - 1))), refl, refl)
start-new_scheduler threads false caller root new_id h k =
    (length-new_threads new_id 0 threads, refl, refl)

-- With no thread but the calling one asked for, or more precisely with the count 0, the count wraps:
-- starting such a scheduler creates 2 ^ 64 - 1 threads.
pub start_without_threads :
    (caller : ℤ) (root : ℕ) (new_id : ℕ → ℤ)
    → length (start new_id (new_scheduler 0 true caller root)).threads ≡ u64_mod - 1
unfolding start new_scheduler
start_without_threads caller root new_id = length-new_threads new_id 0 (u64_mod - 1)

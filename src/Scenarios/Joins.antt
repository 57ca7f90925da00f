-- ===== src/Scenarios/Joins.antt =====
-- A run of the main function of testcase/PiberTest.cc up to its first join().
use synergy_lib.Prelude.{ℕ, arith, update, ◌+◌, some, ◌∷◌, ◌<◌, ◌≡◌, refl, ◌≤◌, [], subst, sym, ap}
use synergy_lib.Thread.{
  Session, new_session, Step, creates, waits, identifies, swaps, notifies, calls, waiting, begun,
  returned, identify, swap_cb, notify, wait, destruct, new_thread,
}
use synergy_lib.Thread.Threads.{
  Threads, main_begins, thread_name, after_join, moves, makes, joins, MainReach, at_begin, goes_on,
  joined_threads_ran,
}
use synergy_lib.Prelude.Int.{ℤ, pos}

abbrev address : ℕ → ℕ
address i = 100 + i

abbrev thread_id : ℕ → ℤ
thread_id i = pos i

-- The thread behind each of its steps.
abbrev unstarted : ℕ → Session
unstarted i = new_session (some 0) (thread_name i)

abbrev started : ℕ → Session
started i = record (unstarted i) {
  object = record ((unstarted i).object) { thread = some i };
  creator = waiting;
  runner = begun;
}

abbrev identified_by : ℕ → Session
identified_by i = identify (address i) (thread_id i) (started i)

abbrev notified_by : ℕ → Session
notified_by i = notify (swap_cb (identified_by i))

abbrev built_by : ℕ → Session
built_by i = wait (notified_by i)

abbrev over : ℕ → Session
over i = record (built_by i) {
  runner = returned;
  called = (built_by i).local_cb ∷ (built_by i).called;
}

abbrev at : ℕ → Session → Threads → Threads
at i s m = record m { thread_at = update m.thread_at i s }

abbrev Run : Threads → Type 0
Run m = MainReach address thread_id (main_begins 0) m

moved :
    (i : ℕ) (t s : Session) (m : Threads)
    → i < 3
    → i ≤ m.made
    → m.thread_at i ≡ t
    → Step (address i) (thread_id i) t s
    → Run m
    → Run (at i s m)
moved i t s m lt le e st r =
    goes_on r (moves i lt le (subst (λ x. Step (address i) (thread_id i) x s) (sym e) st))

here_now : (i : ℕ) (s : Session) (m : Threads) → (at i s m).thread_at i ≡ s
here_now i s m = ground arith

-- The thread `i` from its creation to the end of its constructor and its callback.
abbrev lived : ℕ → Threads → Threads
lived i m =
    let n =
      at i (notified_by i)
        (at i (swap_cb (identified_by i)) (at i (identified_by i) (at i (started i) m))) in
    record (at i (over i) (at i (built_by i) n)) { made = i + 1 }

lives :
    (i : ℕ) (m : Threads)
    → i < 3
    → m.made ≡ i
    → m.thread_at i ≡ unstarted i
    → Run m
    → Run (lived i m)
unfolding new_session new_thread identify swap_cb notify wait
lives i m lt e fresh r =
    let le : i ≤ m.made = omega (arith, e) in
    let m1 = at i (started i) m in
    let m2 = at i (identified_by i) m1 in
    let m3 = at i (swap_cb (identified_by i)) m2 in
    let m4 = at i (notified_by i) m3 in
    let m5 = at i (built_by i) m4 in
    let m6 = at i (over i) m5 in
    let r1 = moved i (unstarted i) (started i) m lt le fresh (creates i refl) r in
    let r2 =
      moved i (started i) (identified_by i) m1 lt le (here_now i (started i) m) (identifies refl)
        r1 in
    let r3 =
      moved i (identified_by i) (swap_cb (identified_by i)) m2 lt le
        (here_now i (identified_by i) m1) (swaps refl) r2 in
    let r4 =
      moved i (swap_cb (identified_by i)) (notified_by i) m3 lt le
        (here_now i (swap_cb (identified_by i)) m2) (notifies refl) r3 in
    let r5 =
      moved i (notified_by i) (built_by i) m4 lt le (here_now i (notified_by i) m3)
        (waits refl (omega arith)) r4 in
    let r6 = moved i (built_by i) (over i) m5 lt le (here_now i (built_by i) m4) (calls refl) r5 in
    subst (λ n. Run (record m6 { made = n })) (ap (λ x. x + 1) e)
      (goes_on r6 (makes (omega (arith, lt, e)) (ground (arith, e))))

abbrev all_made : Threads
all_made = lived 2 (lived 1 (lived 0 (main_begins 0)))

all_made-Run : Run all_made
unfolding main_begins
all_made-Run = lives 2 (lived 1 (lived 0 (main_begins 0))) (omega arith) refl refl (
    lives 1 (lived 0 (main_begins 0)) (omega arith) refl refl
      (lives 0 (main_begins 0) (omega arith) refl refl at_begin))

abbrev first_joined : Threads
first_joined = record all_made {
  thread_at = update all_made.thread_at 0 (after_join (over 0));
  joined = 1;
}

first_joined-Run : Run first_joined
unfolding main_begins wait identify swap_cb notify
first_joined-Run = goes_on all_made-Run (joins refl (omega arith) refl)

joined_threads_ran_example :
    ((i : ℕ)
      → i < 1
      → ((first_joined.thread_at i).runner ≡ returned)
        × ((first_joined.thread_at i).called ≡ some 0 ∷ [])
        × (destruct (first_joined.thread_at i).object ≡ []))
    × (1 ≤ 3)
    × (3 ≤ 3)
unfolding main_begins
joined_threads_ran_example = joined_threads_ran address thread_id first_joined-Run

-- ===== src/Thread/Threads.antt =====
-- The main function of testcase/PiberTest.cc: three threads that run test_fiber (common/thread.cc).
use synergy_lib.Prelude.{
  ℕ, false, List, some, ◌∷◌, ◌<◌, ◌≡◌, Option, ◌+◌, ◌≤◌, arith, none, refl, [], update,
  Option-cases, inl, inr, ◌==◌, Bool-cases, subst,
}
use synergy_lib.Thread.{
  destruct, constructed, returned, Session, new_session, Step, creates, create_fails, waits,
  wait_fails, identifies, swaps, notifies, calls, renames, join, identify, swap_cb, notify, wait,
  set_name, ℤ,
}
use synergy_lib.Thread.Handshake.{Inv, Step-Inv, new_session-Inv}

-- "thread_" and the number
abbrev pub thread_name : ℕ → List ℕ
thread_name i = 116 ∷ 104 ∷ 114 ∷ 101 ∷ 97 ∷ 100 ∷ 95 ∷ (48 + i) ∷ []

-- The threads, how many the first loop has constructed, and how many the second has joined.
pub record Threads : Type 0 where
  pub thread_at : ℕ → Session
  pub made : ℕ
  pub joined : ℕ

-- The callback of each thread is `test_fiber`.
unfoldable pub main_begins : ℕ → Threads
unfolding new_session
main_begins test_fiber = record {
  thread_at = λ i. new_session (some test_fiber) (thread_name i);
  made = 0;
  joined = 0;
}

-- i->join(), when pthread_join returns 0.
abbrev pub after_join : Session → Session
after_join s = record s { object = (join false s.object).0 }

module _ (self : ℕ → ℕ) (tid : ℕ → ℤ) where
  -- The threads whose constructor has been called move; main goes on when a constructor returns, and
  -- when pthread_join returns, at the thread's end.
  pub data MainStep (m : Threads) : Threads → Type 0 where
    moves :
        (i : ℕ) {s : Session}
        → i < 3
        → i ≤ m.made
        → Step (self i) (tid i) (m.thread_at i) s
        → MainStep m (record m { thread_at = update m.thread_at i s })
    makes :
        m.made < 3
        → (m.thread_at m.made).creator ≡ constructed
        → MainStep m (record m { made = m.made + 1 })
    joins :
        m.made ≡ 3
        → m.joined < 3
        → (m.thread_at m.joined).runner ≡ returned
        → MainStep m (record m {
          thread_at = update m.thread_at m.joined (after_join (m.thread_at m.joined));
          joined = m.joined + 1;
        })

  pub data MainReach (m : Threads) : Threads → Type 0 where
    at_begin : MainReach m m
    goes_on : {u v : Threads} → MainReach m u → MainStep u v → MainReach m v

  Step-constructed :
      {i : ℕ} {t : ℤ} {s s' : Session}
      → Step i t s s'
      → s.creator ≡ constructed
      → s'.creator ≡ constructed
  unfolding wait identify swap_cb notify set_name
  Step-constructed (creates handle e) c = absurd (ground (arith, e, c))
  Step-constructed (create_fails e) c = absurd (ground (arith, e, c))
  Step-constructed (waits e lt) c = refl
  Step-constructed (wait_fails e) c = absurd (ground (arith, e, c))
  Step-constructed (identifies e) c = c
  Step-constructed (swaps e) c = c
  Step-constructed (notifies e) c = c
  Step-constructed (calls e) c = c
  Step-constructed {s = s} (renames name e) c = ground (arith, c)

  -- A thread that has ended, and whose constructor has, does not move.
  ended_stays :
      {i : ℕ} {t : ℤ} {s s' : Session}
      → Step i t s s'
      → s.creator ≡ constructed
      → s.runner ≡ returned
      → ⊥
  ended_stays (creates handle e) c r = ground (arith, e, c)
  ended_stays (create_fails e) c r = ground (arith, e, c)
  ended_stays (waits e lt) c r = ground (arith, e, c)
  ended_stays (wait_fails e) c r = ground (arith, e, c)
  ended_stays (identifies e) c r = ground (arith, e, r)
  ended_stays (swaps e) c r = ground (arith, e, r)
  ended_stays (notifies e) c r = ground (arith, e, r)
  ended_stays (calls e) c r = ground (arith, e, r)
  ended_stays (renames name e) c r = ground (arith, e, r)

  join-Inv :
      (i : ℕ) (t : ℤ) (cb : Option ℕ) (s : Session)
      → Inv i t cb s
      → Inv i t cb (after_join s) × ((after_join s).object.thread ≡ none)
  unfolding join
  join-Inv i t cb s v = elim (Option-cases s.object.thread) [
    | inl k ↦ ground (arith, k, v)
    | inr (h, k) ↦ ground (arith, k, v)
  ]

  record MainInv (test_fiber : ℕ) (m : Threads) : Type 0 where
    each : (i : ℕ) → Inv (self i) (tid i) (some test_fiber) (m.thread_at i)
    bounded : m.made ≤ 3
    in_order : m.joined ≤ m.made
    built : (i : ℕ) → i < m.made → (m.thread_at i).creator ≡ constructed
    ended :
        (i : ℕ)
        → i < m.joined
        → ((m.thread_at i).runner ≡ returned) × ((m.thread_at i).object.thread ≡ none)

  each-update :
      (cb : Option ℕ) (f : ℕ → Session) (i : ℕ) (s : Session)
      → ((q : ℕ) → Inv (self q) (tid q) cb (f q))
      → Inv (self i) (tid i) cb s
      → (q : ℕ) → Inv (self q) (tid q) cb (update f i s q)
  each-update cb f i s v new q = elim (Bool-cases (q == i)) [
    | inl k ↦
        let e : i ≡ q = ground (arith, k) in
        subst (λ x. Inv (self x) (tid x) cb (update f i s x)) e
          (subst (Inv (self i) (tid i) cb) (ground arith) new)
    | inr k ↦ subst (Inv (self q) (tid q) cb) (ground (arith, k)) (v q)
  ]

  moved-MainInv :
      (test_fiber i : ℕ) (m : Threads) (s : Session)
      → Step (self i) (tid i) (m.thread_at i) s
      → MainInv test_fiber m
      → MainInv test_fiber (record m { thread_at = update m.thread_at i s })
  moved-MainInv test_fiber i m s st v = record {
    each =
        each-update (some test_fiber) m.thread_at i s v.each
          (Step-Inv (some test_fiber) st (v.each i));
    bounded = v.bounded;
    in_order = v.in_order;
    built = λ q lt. elim (Bool-cases (i == q)) [
      | inl k ↦ ground (arith, k, Step-constructed st, v.built q lt)
      | inr k ↦ ground (arith, k, v.built q lt)
    ];
    ended = λ q lt. elim (Bool-cases (i == q)) [
      | inl k ↦
          let e : i ≡ q = ground (arith, k) in
          absurd (
            ended_stays st (v.built i (omega (arith, e, lt, v.in_order)))
              (v.ended i (omega (arith, e, lt))).0)
      | inr k ↦ ground (arith, k, v.ended q lt)
    ];
  }

  MainStep-MainInv :
      {test_fiber : ℕ} {m m' : Threads}
      → MainStep m m'
      → MainInv test_fiber m
      → MainInv test_fiber m'
  MainStep-MainInv {test_fiber} {m} (moves i {s} lt le st) v = moved-MainInv test_fiber i m s st v
  MainStep-MainInv {m = m} (makes lt c) v = record {
    each = v.each;
    bounded = omega (arith, lt);
    in_order = omega (arith, v.in_order);
    built = λ q k. ground (arith, k, c, v.built q);
    ended = v.ended;
  }
  MainStep-MainInv {test_fiber} {m} (joins all_made lt r) v =
      let s = m.thread_at m.joined in
      let (new, gone) =
        join-Inv (self m.joined) (tid m.joined) (some test_fiber) s (v.each m.joined) in
      record {
        each = each-update (some test_fiber) m.thread_at m.joined (after_join s) v.each new;
        bounded = v.bounded;
        in_order = omega (arith, all_made, lt);
        built = λ q k. ground (arith, v.built q k);
        ended = λ q k. ground (arith, k, r, gone, v.ended q);
      }

  MainReach-MainInv :
      {test_fiber : ℕ} {m m' : Threads}
      → MainReach m m'
      → MainInv test_fiber m
      → MainInv test_fiber m'
  MainReach-MainInv at_begin v = v
  MainReach-MainInv (goes_on r st) v = MainStep-MainInv st (MainReach-MainInv r v)

  main_begins-MainInv : (test_fiber : ℕ) → MainInv test_fiber (main_begins test_fiber)
  unfolding main_begins
  main_begins-MainInv test_fiber = record {
    each = λ i. new_session-Inv (self i) (tid i) (some test_fiber) (thread_name i);
    bounded = omega arith;
    in_order = omega arith;
    built = λ i lt. absurd (omega (arith, lt));
    ended = λ i lt. absurd (omega (arith, lt));
  }

  -- In every interleaving of main and its threads, where no call of pthread or of a semaphore fails in
  -- main: each thread that main has joined has run test_fiber once and nothing else and has ended, and
  -- its object refers to no thread, so that its destructor gives nothing back a second time. Main joins
  -- no more threads than it has constructed, which are at most three.
  pub joined_threads_ran :
      {test_fiber : ℕ} {m : Threads}
      → MainReach (main_begins test_fiber) m
      → ((i : ℕ)
          → i < m.joined
          → ((m.thread_at i).runner ≡ returned)
            × ((m.thread_at i).called ≡ some test_fiber ∷ [])
            × (destruct (m.thread_at i).object ≡ []))
        × (m.joined ≤ m.made)
        × (m.made ≤ 3)
  unfolding destruct
  joined_threads_ran {test_fiber} {m} r =
      let v = MainReach-MainInv r (main_begins-MainInv test_fiber) in
      (
        λ i lt.
            let w = v.each i in
            let e = v.ended i lt in (e.0, ground (arith, w.once, e.0), ground (arith, e.1)),
        v.in_order,
        v.bounded,
      )

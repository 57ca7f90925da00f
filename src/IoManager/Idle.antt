-- ===== src/IoManager/Idle.antt =====
-- IOManager::idle and IOManager::stopping (synergy/iomanager.cc).
use synergy_lib.Prelude.{
  Bool-cases, Option-cases, ℕ, arith, inl, inr, true, ◌∙◌, ◌≡◌, ◌↔◌, some, none, List, [], ◌∷◌,
  Option, length, get_elem?, ap, if◌then◌else◌, refl, subst,
}
use synergy_lib.Prelude.Total.{total, total-more}
use synergy_lib.IoManager.{Events, no_events, FdContext, Epoll, FdOps, IoManager, Report, stopping}
use synergy_lib.IoManager.Ops.{handle_report}
use synergy_lib.IoManager.Loop.{
  handle_all, idle_round, idle_wait, IdleRound, waits_again, yields, leaves, Wait, interrupted,
  wait_failed, reports, idle_turn,
}
use synergy_lib.IoManager.Invariant.{Inv, size-le-waiting, waiting, size, events_at}
use synergy_lib.IoManager.Triggering.{IsAsked, handle_report-Inv}
use synergy_lib.Scheduler.{is_stopping}

size_zero : (a : Events) → size a ≡ 0 → a ≡ no_events
size_zero a h = ground (arith, h)

-- Nobody waits, when the sum over all contexts is 0.
none_waiting : (cs : List FdContext) → waiting cs ≡ 0 → (i : ℕ) → events_at cs i ≡ no_events
none_waiting cs h i = elim (Option-cases (get_elem? cs i)) [
  | inl n ↦ ground (arith, n)
  | inr (c, g) ↦ size_zero (events_at cs i) (ground (arith, h, g, size-le-waiting cs i c g))
]

waiting_none : (cs : List FdContext) → ((i : ℕ) → events_at cs i ≡ no_events) → waiting cs ≡ 0
unfolding total
waiting_none cs h =
    ap (λ n. total size n (events_at cs)) (omega arith)
    ∙ total-more size 0 (length cs) (events_at cs) (λ i _. ap size (h i))

module _ (e : Epoll) where
  -- A manager in step is stopping exactly when no descriptor waits for an event and the scheduler
  -- is stopping.
  stopping_iff :
      (tickle_fd : ℕ) (m : IoManager e.Kernel)
      → Inv e tickle_fd m
      → (stopping m ≡ true)
        ↔ (((i : ℕ) → events_at m.contexts i ≡ no_events) × (is_stopping m.sched ≡ true))
  unfolding stopping
  stopping_iff tickle_fd m v = (
    λ h. (none_waiting m.contexts (ground (arith, h, v.counted)), ground (arith, h)),
    λ x. ground (arith, v.counted, waiting_none m.contexts x.0, x.1),
  )

module _ (e : Epoll) (f : FdOps) where
  -- Each report of a round is for events that its context waits for when the report's turn comes.
  unfoldable pub AllAsked : List (Option (ℕ × Report)) → IoManager e.Kernel → Type 0
  AllAsked [] m = Unit
  AllAsked (none ∷ rs) m = AllAsked rs m
  AllAsked (some (i, r) ∷ rs) m =
      IsAsked r (events_at m.contexts i) × AllAsked rs (handle_report e f r i m)

  pub handle_all-Inv :
      (tickle_fd : ℕ) (rs : List (Option (ℕ × Report))) (m : IoManager e.Kernel)
      → Inv e tickle_fd m
      → AllAsked rs m
      → Inv e tickle_fd (handle_all e f rs m)
  unfolding handle_all AllAsked
  handle_all-Inv tickle_fd [] m v q = v
  handle_all-Inv tickle_fd (none ∷ rs) m v q = handle_all-Inv tickle_fd rs m v q
  handle_all-Inv tickle_fd (some (i, r) ∷ rs) m v q =
      handle_all-Inv tickle_fd rs (handle_report e f r i m)
        (handle_report-Inv e f tickle_fd r i m v q.0) q.1

  abbrev pub after : IdleRound e f → IoManager e.Kernel
  after (waits_again m) = m
  after (yields m) = m
  after (leaves m) = m

  unfoldable pub Asked : Wait e f → IoManager e.Kernel → Type 0
  Asked interrupted m = Unit
  Asked wait_failed m = Unit
  Asked (reports rs) m = AllAsked rs m

  idle_wait-Inv :
      (tickle_fd : ℕ) (w : Wait e f) (m : IoManager e.Kernel)
      → Inv e tickle_fd m
      → Asked w m
      → Inv e tickle_fd (after (idle_wait e f w m))
  unfolding idle_wait Asked
  idle_wait-Inv tickle_fd interrupted m v q = v
  idle_wait-Inv tickle_fd wait_failed m v q = v
  idle_wait-Inv tickle_fd (reports rs) m v q = handle_all-Inv tickle_fd rs m v q

  -- The first call of epoll_wait that no signal interrupts.
  abbrev pub first_wait : List (Wait e f) → Option (Wait e f)
  first_wait [] = none
  first_wait (interrupted ∷ ws) = first_wait ws
  first_wait (w ∷ ws) = some w

  abbrev pub turn : Option (Wait e f) → IoManager e.Kernel → Option (IdleRound e f)
  turn none m = none
  turn (some w) m = some (idle_wait e f w m)

  -- From a resume on, idle() leaves if the manager is stopping; else it goes on with the first call of
  -- epoll_wait that no signal interrupts, whatever number of signals come before it.
  pub idle_turn_lem :
      (ws : List (Wait e f)) (m : IoManager e.Kernel)
      → idle_turn e f ws m ≡ (if stopping m then some (leaves m) else turn (first_wait ws) m)
  unfolding idle_turn idle_round idle_wait
  idle_turn_lem [] m = refl
  idle_turn_lem (interrupted ∷ ws) m = ground (arith, idle_turn_lem ws m)
  idle_turn_lem (wait_failed ∷ ws) m = ground arith
  idle_turn_lem (reports rs ∷ ws) m = ground arith

  -- The reports of a turn, if it comes to any.
  unfoldable pub TurnAsked : Option (Wait e f) → IoManager e.Kernel → Type 0
  TurnAsked none m = Unit
  TurnAsked (some w) m = Asked w m

  unfoldable Keeps : ℕ → Option (IdleRound e f) → Type 0
  Keeps tickle_fd none = Unit
  Keeps tickle_fd (some r) = Inv e tickle_fd (after r)

  turn-Keeps :
      (tickle_fd : ℕ) (w : Option (Wait e f)) (m : IoManager e.Kernel)
      → Inv e tickle_fd m
      → TurnAsked w m
      → Keeps tickle_fd (turn w m)
  unfolding TurnAsked Keeps
  turn-Keeps tickle_fd none m v q = tt
  turn-Keeps tickle_fd (some w) m v q = idle_wait-Inv tickle_fd w m v q

  idle_turn-Keeps :
      (tickle_fd : ℕ) (ws : List (Wait e f)) (m : IoManager e.Kernel)
      → Inv e tickle_fd m
      → TurnAsked (first_wait ws) m
      → Keeps tickle_fd (idle_turn e f ws m)
  unfolding Keeps
  idle_turn-Keeps tickle_fd ws m v q = elim (Bool-cases (stopping m)) [
    | inl h ↦ rw (idle_turn_lem ws m, h) v
    | inr h ↦ rw (idle_turn_lem ws m, h) (turn-Keeps tickle_fd (first_wait ws) m v q)
  ]

  -- What idle() does from a resume to its yield() or its end keeps the count and the interest list in
  -- step, if each report is for events that its context waits for when the report's turn comes.
  pub idle_turn-Inv :
      (tickle_fd : ℕ) (ws : List (Wait e f)) (m : IoManager e.Kernel) (r : IdleRound e f)
      → Inv e tickle_fd m
      → TurnAsked (first_wait ws) m
      → idle_turn e f ws m ≡ some r
      → Inv e tickle_fd (after r)
  unfolding Keeps
  idle_turn-Inv tickle_fd ws m r v q eq =
      subst (Keeps tickle_fd) eq (idle_turn-Keeps tickle_fd ws m v q)

-- ===== src/Scenarios/Locks.antt =====
-- Guards that are unlocked and locked by hand.
use synergy_lib.Prelude.{
  false, some, none, true, [], ◌∷◌, List, if◌then◌else◌, ◌≡◌, ℕ, update, arith, ◌≢◌, refl, ◌==◌, ap,
  ◌∙◌, all, inr,
}
use synergy_lib.Lock.{Method, lock_method, unlock_method, scope_guard}
use synergy_lib.Lock.{Call, lock, rdlock, wrlock, unlock}
use synergy_lib.Lock.Sharing.{
  RwLock, Mode, free, reads, writes, System, no_guard, reading, writing, Reach, begins, goes_on,
  uses, use_guard, makes_reader, makes_writer, unlocks, one_call, Guard,
}
use synergy_lib.Lock.Exclusion.{guards_exclude}
use synergy_lib.Lock.Guards.{ends_locked}
use synergy_lib.Lock.Classes.{
  RwGuard, a_writer, a_reader, scope_guards, rw_guards, mutex_life, rw_mutex_life, outlived, raw,
}
use synergy_lib.Lock.Lives.{lives_allowed_iff}

abbrev relocked : List Method
relocked = unlock_method ∷ lock_method ∷ unlock_method ∷ lock_method ∷ []

-- The second guard's last method is unlock().
abbrev two_guards : List (List Method)
two_guards = relocked ∷ (lock_method ∷ unlock_method ∷ []) ∷ []

-- A writer that gives the lock back by hand, and a reader.
abbrev writer_then_reader : List RwGuard
writer_then_reader = a_writer (unlock_method ∷ []) ∷ a_reader relocked ∷ []

lives_allowed_iff_example :
    (outlived raw (mutex_life (scope_guards two_guards))
      ≡ (if all (ends_locked true) two_guards then some raw else none))
    × (outlived raw (rw_mutex_life (rw_guards writer_then_reader)) ≡ some raw)
lives_allowed_iff_example = lives_allowed_iff two_guards writer_then_reader

one_scope : outlived raw (mutex_life (scope_guards (relocked ∷ relocked ∷ []))) ≡ some raw
unfolding scope_guards scope_guard mutex_life
one_scope = refl

-- The destructor of the second guard unlocks a mutex that is not locked.
second_fails : outlived raw (mutex_life (scope_guards two_guards)) ≡ none
unfolding scope_guards scope_guard mutex_life
second_fails = refl

-- A lock that grants what it may grant.
abbrev Granted : Call → ℕ → (ℕ → Mode) → (ℕ → Mode) → Type 0
Granted wrlock i k k' = ((q : ℕ) → k q ≡ free) × (k' ≡ update k i writes)
Granted rdlock i k k' = ((q : ℕ) → k q ≢ writes) × (k' ≡ update k i reads)
Granted unlock i k k' = k' ≡ update k i free
Granted lock i k k' = ⊥

taken :
    (i : ℕ) (a : Mode) (k k' : ℕ → Mode)
    → k' ≡ update k i a
    → (q : ℕ) → k' q ≡ (if i == q then a else k q)
taken i a k k' e q = ap (λ x. x q) e ∙ ground arith

abbrev granting : RwLock
granting = record {
  State = ℕ → Mode;
  mode = λ k q. k q;
  returns = Granted;
  wrlock_waits = λ i f r. r.0;
  wrlock_takes = λ i f r. taken i writes _ _ (r.1);
  rdlock_waits = λ i f r. r.0;
  rdlock_takes = λ i f r. taken i reads _ _ (r.1);
  unlock_gives = λ i f r. taken i free _ _ r;
}

abbrev nobody : System granting
nobody = record { lock_state = λ _. free; guard = λ _ _. no_guard }

-- The thread 1 reads through its guard 0, unlocks it by hand, and writes through its guard 1, as addEvent
-- of IOManager does.
abbrev read_then_write : System granting
read_then_write = record {
  lock_state = update (update (update (λ _. free) 1 reads) 1 free) 1 writes;
  guard =
      let first : ℕ → ℕ → Guard =
        update (λ _ _. no_guard) 1 (update (λ _. no_guard) 0 (reading true)) in
      let second : ℕ → ℕ → Guard = update first 1 (update (first 1) 0 (reading false)) in
      update second 1 (update (second 1) 1 (writing true));
}

reads_then_writes : Reach granting nobody read_then_write
unfolding use_guard
reads_then_writes =
    goes_on
      (goes_on
        (goes_on begins
          (uses 1 0 makes_reader refl (one_call (λ q e. cc, refl)) (inr (λ y ne. refl))))
        (uses 1 0 unlocks refl (one_call refl) (inr (λ y ne. ground (arith, ne)))))
      (uses 1 1 makes_writer refl (one_call (λ q. ground arith, refl))
        (inr (λ y ne. ground (arith, ne))))

guards_exclude_example : (no_guard ≢ writing true) × (no_guard ≢ reading true)
guards_exclude_example =
    guards_exclude granting 1 0 1 0 (λ q. refl) (λ q z. refl) reads_then_writes (omega arith) refl

-- ===== src/Lock/Exclusion.antt =====
-- The guards of a read-write lock (common/mutex.h) exclude each other.
use synergy_lib.Prelude.{
  fun_ext, ℕ, true, false, List, [], ◌∷◌, Option, none, some, ◌≡◌, ◌≢◌, ◌==◌, if◌then◌else◌, update,
  ◌⊎◌, arith, inr, inl, refl, sym, ◌∙◌, Bool-cases, subst, ap,
}
use synergy_lib.Lock.Sharing.{
  Mode, free, reads, writes, RwLock, Guard, no_guard, writing, reading, Use, makes_writer,
  makes_reader, locks, unlocks, leaves, use_guard, mode_of, System, Calls, no_call, one_call, Step,
  uses, Reach, begins, goes_on,
}
use synergy_lib.Lock.{Call, rdlock, wrlock, unlock}

writes_or_free : writes ≢ free
writes_or_free e = cc

reads_or_free : reads ≢ free
reads_or_free e = cc

module _ (lock : RwLock) where
  -- What a use of the guard by the thread `i` does to the lock.
  record Change (i : ℕ) (g g' : Guard) (k k' : lock.State) : Type 0 where
    own : (q : ℕ) → lock.mode k' q ≡ (if i == q then mode_of g' else lock.mode k q)
    alone : mode_of g' ≡ writes → (mode_of g ≡ writes) ⊎ ((q : ℕ) → lock.mode k q ≡ free)
    no_writer : mode_of g' ≡ reads → (mode_of g ≡ reads) ⊎ ((q : ℕ) → lock.mode k q ≢ writes)

  takes_write :
      (i : ℕ) (g g' : Guard) {k k' : lock.State}
      → mode_of g' ≡ writes
      → lock.mode k i ≡ free
      → Calls lock i k (wrlock ∷ []) k'
      → Change i g g' k k'
  takes_write i g g' w f (one_call r) = record {
    own = λ q. rw w (lock.wrlock_takes i f r q);
    alone = λ e. inr (lock.wrlock_waits i f r);
    no_writer = λ e. absurd cc;
  }

  takes_read :
      (i : ℕ) (g g' : Guard) {k k' : lock.State}
      → mode_of g' ≡ reads
      → lock.mode k i ≡ free
      → Calls lock i k (rdlock ∷ []) k'
      → Change i g g' k k'
  takes_read i g g' w f (one_call r) = record {
    own = λ q. rw w (lock.rdlock_takes i f r q);
    alone = λ e. absurd cc;
    no_writer = λ e. inr (lock.rdlock_waits i f r);
  }

  gives_back :
      (i : ℕ) (g g' : Guard) {k k' : lock.State}
      → mode_of g' ≡ free
      → lock.mode k i ≢ free
      → Calls lock i k (unlock ∷ []) k'
      → Change i g g' k k'
  gives_back i g g' w h (one_call r) = record {
    own = λ q. rw w (lock.unlock_gives i h r q);
    alone = λ e. absurd cc;
    no_writer = λ e. absurd cc;
  }

  -- What a use of a guard does to the lock, if the guard says how the thread holds the lock.
  abbrev Changes : ℕ → Guard → lock.State → lock.State → Option (Guard × List Call) → Type 0
  Changes i g k k' none = Unit
  Changes i g k k' (some (g', cs)) = Calls lock i k cs k' → Change i g g' k k'

  no_calls :
      (i : ℕ) (g g' : Guard) {k k' : lock.State}
      → mode_of g' ≡ mode_of g
      → lock.mode k i ≡ mode_of g
      → Calls lock i k [] k'
      → Change i g g' k k'
  no_calls i g g' w h no_call = record {
    own = λ q. ground (arith, h, w);
    alone = λ e. inl (sym w ∙ e);
    no_writer = λ e. inl (sym w ∙ e);
  }

  use_lem :
      (i : ℕ) (u : Use) (g : Guard) (k k' : lock.State)
      → lock.mode k i ≡ mode_of g
      → Changes i g k k' (use_guard u g)
  unfolding use_guard
  use_lem i makes_writer no_guard k k' h = takes_write i _ _ refl h
  use_lem i makes_writer (writing b) k k' h = tt
  use_lem i makes_writer (reading b) k k' h = tt
  use_lem i makes_reader no_guard k k' h = takes_read i _ _ refl h
  use_lem i makes_reader (writing b) k k' h = tt
  use_lem i makes_reader (reading b) k k' h = tt
  use_lem i locks no_guard k k' h = tt
  use_lem i locks (writing true) k k' h = no_calls i _ _ refl h
  use_lem i locks (writing false) k k' h = takes_write i _ _ refl h
  use_lem i locks (reading true) k k' h = no_calls i _ _ refl h
  use_lem i locks (reading false) k k' h = takes_read i _ _ refl h
  use_lem i unlocks no_guard k k' h = tt
  use_lem i unlocks (writing true) k k' h = gives_back i _ _ refl (λ e. absurd (cc))
  use_lem i unlocks (writing false) k k' h = no_calls i _ _ refl h
  use_lem i unlocks (reading true) k k' h = gives_back i _ _ refl (λ e. absurd (cc))
  use_lem i unlocks (reading false) k k' h = no_calls i _ _ refl h
  use_lem i leaves no_guard k k' h = tt
  use_lem i leaves (writing true) k k' h = gives_back i _ _ refl (λ e. absurd (cc))
  use_lem i leaves (writing false) k k' h = no_calls i _ _ refl h
  use_lem i leaves (reading true) k k' h = gives_back i _ _ refl (λ e. absurd (cc))
  use_lem i leaves (reading false) k k' h = no_calls i _ _ refl h

  -- A use without a call changes no flag.
  silent_lem : (u : Use) (g g' : Guard) → use_guard u g ≡ some (g', []) → mode_of g' ≡ mode_of g
  unfolding use_guard
  silent_lem makes_writer no_guard g' e = ground (arith, e)
  silent_lem makes_writer (writing b) g' e = ground (arith, e)
  silent_lem makes_writer (reading b) g' e = ground (arith, e)
  silent_lem makes_reader no_guard g' e = ground (arith, e)
  silent_lem makes_reader (writing b) g' e = ground (arith, e)
  silent_lem makes_reader (reading b) g' e = ground (arith, e)
  silent_lem locks no_guard g' e = ground (arith, e)
  silent_lem locks (writing b) g' e = ground (arith, e)
  silent_lem locks (reading b) g' e = ground (arith, e)
  silent_lem unlocks no_guard g' e = ground (arith, e)
  silent_lem unlocks (writing b) g' e = ground (arith, e)
  silent_lem unlocks (reading b) g' e = ground (arith, e)
  silent_lem leaves no_guard g' e = ground (arith, e)
  silent_lem leaves (writing b) g' e = ground (arith, e)
  silent_lem leaves (reading b) g' e = ground (arith, e)

  silent_call : (i : ℕ) {k k' : lock.State} → Calls lock i k [] k' → k' ≡ k
  silent_call i no_call = refl

  -- How each guard says that its thread holds the lock.
  abbrev holds : System lock → ℕ → ℕ → Mode
  holds s i x = mode_of (s.guard i x)

  -- A thread holds the lock through one guard at most, which says how; and one that writes is alone.
  record Inv (k : lock.State) (h : ℕ → ℕ → Mode) : Type 0 where
    says : (i x : ℕ) → ((y : ℕ) → y ≢ x → h i y ≡ free) → lock.mode k i ≡ h i x
    one : (i x y : ℕ) → x ≢ y → h i x ≢ free → h i y ≡ free
    alone : (i j x y : ℕ) → i ≢ j → h i x ≡ writes → h j y ≡ free

  Mode-cases : (a : Mode) → (a ≡ free) ⊎ (a ≡ reads) ⊎ (a ≡ writes)
  Mode-cases free = inl refl
  Mode-cases reads = inr (inl refl)
  Mode-cases writes = inr (inr refl)

  held_lem :
      (k : lock.State) (h : ℕ → ℕ → Mode) (i x : ℕ) → Inv k h → h i x ≢ free → lock.mode k i ≡ h i x
  held_lem k h i x v held = v.says i x (λ y ne. v.one i x y (λ e. ne (sym e)) held)

  -- No guard of a thread that does not hold the lock says that it does.
  unheld_lem :
      (k : lock.State) (h : ℕ → ℕ → Mode) (i x : ℕ) → Inv k h → lock.mode k i ≡ free → h i x ≡ free
  unheld_lem k h i x v f = elim (Mode-cases (h i x)) [
    | inl e ↦ e
    | inr (inl r) ↦
        absurd
          (reads_or_free (sym r ∙ (sym (held_lem k h i x v (λ e. reads_or_free (sym r ∙ e))) ∙ f)))
    | inr (inr w) ↦
        absurd (
          writes_or_free (sym w ∙ (sym (held_lem k h i x v (λ e. writes_or_free (sym w ∙ e))) ∙ f)))
  ]

  -- The thread `i` changes its guard from `g` to `g'`.
  module _ (k k' : lock.State) (h : ℕ → ℕ → Mode) (i x : ℕ) (g g' : Guard) (was : h i x ≡ mode_of g)
      (c : Change i g g' k k') (v : Inv k h) where
    -- A thread that writes keeps the others from getting the lock.
    kept_out : (w y : ℕ) → w ≢ i → h w y ≡ writes → mode_of g' ≡ free
    kept_out w y ne e =
        let held : lock.mode k w ≡ writes =
          held_lem k h w y v (λ f. writes_or_free (sym e ∙ f)) ∙ e in
        elim (Mode-cases (mode_of g')) [
          | inl f ↦ f
          | inr (inl r) ↦ elim (c.no_writer r) [
            | inl old ↦ absurd (reads_or_free (sym old ∙ (sym was ∙ v.alone w i y x ne e)))
            | inr none_writes ↦ absurd (none_writes w held)
          ]
          | inr (inr z) ↦ elim (c.alone z) [
            | inl old ↦ absurd (writes_or_free (sym old ∙ (sym was ∙ v.alone w i y x ne e)))
            | inr all_free ↦ absurd (writes_or_free (sym held ∙ all_free w))
          ]
        ]

    keeps_out : (j y : ℕ) → i ≢ j → mode_of g' ≡ writes → h j y ≡ free
    keeps_out j y ne e = elim (c.alone e) [
      | inl old ↦ v.alone i j x y ne (was ∙ old)
      | inr all_free ↦ unheld_lem k h j y v (all_free j)
    ]

    abbrev changed : ℕ → ℕ → Mode
    changed = update h i (update (h i) x (mode_of g'))

    changed-Inv : ((y : ℕ) → y ≢ x → h i y ≡ free) → Inv k' changed
    changed-Inv others = record {
      says = λ q y o. elim (Bool-cases (q == i)) [
        | inr n ↦ ground (arith, n, c.own q, v.says q y (λ z ne. ground (arith, o z, ne, n)))
        | inl n ↦ elim (Bool-cases (y == x)) [
          | inl m ↦ ground (arith, n, m, c.own q)
          | inr m ↦ ground (arith, n, m, c.own q, o x, others y)
        ]
      ];
      one = λ q y z ne held. elim (Bool-cases (q == i)) [
        | inr n ↦ ground (arith, n, v.one q y z ne, held)
        | inl n ↦ elim (Bool-cases (y == x)) [
          | inl m ↦ ground (arith, n, m, others z, ne)
          | inr m ↦ absurd (ground (arith, n, m, others y, held))
        ]
      ];
      alone = λ a b y z ne e. elim (Bool-cases (a == i)) [
        | inl n ↦ elim (Bool-cases (y == x)) [
          | inl m ↦ ground (arith, keeps_out b z, n, m, ne, e)
          | inr m ↦ absurd (ground (arith, n, m, others y, e))
        ]
        | inr n ↦ elim (Bool-cases (b == i)) [
          | inl m ↦ ground (arith, kept_out a y, others z, n, m, ne, e)
          | inr m ↦ ground (arith, v.alone a b y z ne, n, m, e)
        ]
      ];
    }

  -- The guards behind a use.
  holds-update :
      (s : System lock) (k : lock.State) (i x : ℕ) (g : Guard)
      → holds (record { lock_state = k; guard = update s.guard i (update (s.guard i) x g) })
        ≡ update (holds s) i (update (holds s i) x (mode_of g))
  holds-update s k i x g = fun_ext (λ a. fun_ext (λ y. ground arith))

  same-Inv :
      (k k' : lock.State) (h : ℕ → ℕ → Mode) (i x : ℕ) (a : Mode)
      → k' ≡ k
      → a ≡ h i x
      → Inv k h
      → Inv k' (update h i (update (h i) x a))
  same-Inv k k' h i x a e f v =
      subst (λ z. Inv z (update h i (update (h i) x a))) (sym e)
        (subst (Inv k) {x = h} (fun_ext (λ b. fun_ext (λ y. ground (arith, f)))) v)

  Step-Inv :
      {s u : System lock} → Step lock s u → Inv s.lock_state (holds s) → Inv u.lock_state (holds u)
  Step-Inv {s} (uses i x u {g} {cs} {k'} e c allowed) v =
      subst (Inv k') (sym (holds-update s k' i x g)) (elim allowed [
        | inl none_called ↦
            same-Inv s.lock_state k' (holds s) i x (mode_of g)
              (silent_call i (subst (λ z. Calls lock i s.lock_state z k') none_called c))
              (silent_lem u (s.guard i x) g
                (subst (λ z. use_guard u (s.guard i x) ≡ some (g, z)) none_called e))
              v
        | inr others ↦
            changed-Inv s.lock_state k' (holds s) i x (s.guard i x) g refl
              (subst (Changes i (s.guard i x) s.lock_state k') e
                (use_lem i u (s.guard i x) s.lock_state k' (v.says i x others)) c)
              v others
      ])

  Reach-Inv :
      {s u : System lock} → Reach lock s u → Inv s.lock_state (holds s) → Inv u.lock_state (holds u)
  Reach-Inv begins v = v
  Reach-Inv (goes_on r st) v = Step-Inv st (Reach-Inv r v)

  -- With a lock that behaves as POSIX documents, in every order in which threads make guards on it, of
  -- which each thread may have several, call their methods and leave their scopes, if a thread calls the
  -- lock through a guard only while none of its other guards has its flag set: while a write guard of one
  -- thread has its flag set, no guard of another thread has.
  pub guards_exclude :
      {s u : System lock} (i j x y : ℕ)
      → ((q : ℕ) → lock.mode s.lock_state q ≡ free)
      → ((q z : ℕ) → s.guard q z ≡ no_guard)
      → Reach lock s u
      → i ≢ j
      → u.guard i x ≡ writing true
      → (u.guard j y ≢ writing true) × (u.guard j y ≢ reading true)
  guards_exclude {s} {u} i j x y unheld unguarded r ne w =
      let v = Reach-Inv r (record {
        says = λ q z o. ground (arith, unheld q, unguarded q z);
        one = λ q a b n h. ground (arith, unguarded q b);
        alone = λ a b p q n e. ground (arith, unguarded b q);
      }) in
      let out = v.alone i j x y ne (ap mode_of w) in
      (
        λ e. writes_or_free (sym (ap mode_of e) ∙ out),
        λ e. reads_or_free (sym (ap mode_of e) ∙ out),
      )

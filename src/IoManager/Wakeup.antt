-- ===== src/IoManager/Wakeup.antt =====
-- The pipe of IOManager (synergy/iomanager.cc): tickle() writes a byte to it, and idle() reads it empty
-- when epoll_wait reports it. It is on epoll's list with EPOLLIN | EPOLLET, where epoll(7) documents
-- that a write makes it ready, and that epoll_wait then reports it once, to one thread. A write to a
-- full pipe waits, and is a step when there is room.
use synergy_lib.Prelude.{
  ℕ, false, ◌+◌, if◌then◌else◌, ◌<◌, Bool-cases, arith, inl, Bool, true, Option, ◌≡◌, suc, ◌/◌, inr,
  none, update, ◌≤◌, ◌⊎◌, ◌-◌, some, refl, ◌==◌, zero,
}
use synergy_lib.IoManager.{IoManager, tickle}

-- `drains i` tells whether the worker `i` is in the loop that reads the pipe.
pub record Wakeup : Type 0 where
  pub bytes : ℕ
  pub is_ready : Bool
  pub drains : ℕ → Bool

-- The pipe behind the constructor.
abbrev pub new_pipe : Wakeup
new_pipe = record { bytes = 0; is_ready = false; drains = λ _. false }

-- write(m_tickleFds[1], "W", 1)
abbrev pub written : Wakeup → Wakeup
written s = record s { bytes = s.bytes + 1; is_ready = true }

unfoldable pub tickle_pipe : {K : Type 0} → IoManager K → Wakeup → Wakeup
unfolding tickle
tickle_pipe m s = if tickle m then written s else s

-- while (read(m_tickleFds[0], dummy, sizeof(dummy)) > 0); from a pipe with so many bytes, with at most
-- `fuel` reads.
unfoldable pub drain : ℕ → ℕ → Option ℕ
drain zero bytes = none
drain (suc fuel) bytes =
    let rest = drain fuel (bytes - 256) in if bytes == 0 then some bytes else rest

-- A worker's steps in idle(): epoll_wait reports the pipe; a read of the loop finds bytes, of which it
-- takes at most 256; and a read that finds none ends the loop.
pub data ReaderStep (i : ℕ) (s : Wakeup) : Wakeup → Type 0 where
  is_woken :
      s.is_ready ≡ true
      → s.drains i ≡ false
      → ReaderStep i s (record s { is_ready = false; drains = update s.drains i true })
  reads : s.drains i ≡ true → 0 < s.bytes → ReaderStep i s (record s { bytes = s.bytes - 256 })
  reads_nothing :
      s.drains i ≡ true
      → s.bytes ≡ 0
      → ReaderStep i s (record s { drains = update s.drains i false })

pub data PipeStep (s : Wakeup) : Wakeup → Type 1 where
  tickles : {K : Type 0} (m : IoManager K) → PipeStep s (tickle_pipe m s)
  works : (i : ℕ) {u : Wakeup} → ReaderStep i s u → PipeStep s u

pub data Reach : Wakeup → Type 1 where
  begins : Reach new_pipe
  goes_on : {s u : Wakeup} → Reach s → PipeStep s u → Reach u

-- Steps of one worker, and how many.
pub data Turns (i : ℕ) : Wakeup → ℕ → Wakeup → Type 0 where
  stays : {s : Wakeup} → Turns i s 0 s
  moves : {n : ℕ} {s u v : Wakeup} → ReaderStep i s u → Turns i u n v → Turns i s (suc n) v

-- The loop ends, after a read for each 256 bytes that are begun and one more, and the pipe is empty.
pub drain_lem :
    (fuel bytes : ℕ)
    → ((bytes + 255) / 256 + 1 ≤ fuel → drain fuel bytes ≡ some 0)
      × (fuel < (bytes + 255) / 256 + 1 → drain fuel bytes ≡ none)
unfolding drain
drain_lem zero bytes = (λ e. absurd (omega (arith, e)), λ e. refl)
drain_lem (suc fuel) bytes =
    let rest = drain_lem fuel (bytes - 256) in
    elim (Bool-cases (bytes == 0)) [
      | inl k ↦ (λ e. ground (arith, k), λ e. absurd (ground (arith, e, k)))
      | inr k ↦
          (λ e. rw k (rest.0 (ground (arith, e, k))), λ e. rw k (rest.1 (ground (arith, e, k))))
    ]

-- Nobody forgets a byte.
abbrev Remembered : Wakeup → Type 0
Remembered s = 0 < s.bytes → (s.is_ready ≡ true) ⊎ ((i : ℕ) × (s.drains i ≡ true))

ReaderStep-Remembered : (i : ℕ) {s u : Wakeup} → ReaderStep i s u → Remembered s → Remembered u
ReaderStep-Remembered i (is_woken r d) h = λ p. inr (i, ground arith)
ReaderStep-Remembered i (reads d k) h = λ p. inr (i, d)
ReaderStep-Remembered i (reads_nothing d z) h = λ p. absurd (omega (arith, p, z))

Step-Remembered : {s u : Wakeup} → PipeStep s u → Remembered s → Remembered u
unfolding tickle_pipe
Step-Remembered {s} (tickles m) h = elim (Bool-cases (tickle m)) [
  | inl k ↦ rw k (λ p. inl refl)
  | inr k ↦ rw k h
]
Step-Remembered (works i st) h = ReaderStep-Remembered i st h

Reach-Remembered : {s : Wakeup} → Reach s → Remembered s
Reach-Remembered begins = λ p. absurd (omega (arith, p))
Reach-Remembered (goes_on r st) = Step-Remembered st (Reach-Remembered r)

-- A worker that reads the pipe empties it.
empties :
    (k i : ℕ) (s : Wakeup)
    → s.drains i ≡ true
    → (s.bytes + 255) / 256 ≡ k
    → (u : Wakeup) × Turns i s (suc k) u × (u.bytes ≡ 0) × (u.drains i ≡ false)
empties zero i s d e =
    let z : s.bytes ≡ 0 = omega (arith, e) in
    (
      record s { drains = update s.drains i false },
      moves (reads_nothing d z) stays,
      z,
      ground arith,
    )
empties (suc k) i s d e =
    let (u, t, z, f) = empties k i (record s { bytes = s.bytes - 256 }) d (omega (arith, e)) in
    (u, moves (reads d (omega (arith, e))) t, z, f)

-- However tickle() and the workers' reads follow each other: when there are bytes in the pipe, and the
-- worker `i` is not reading, then epoll_wait is going to report the pipe to a worker that asks, or a
-- worker is reading. The steps of one worker, which is `i` or one that is reading already, are enough
-- to empty the pipe and to end its loop: at most one, and a read for each 256 bytes that are begun, and
-- one more.
pub no_wakeup_lost :
    {s : Wakeup} (i : ℕ)
    → Reach s
    → s.drains i ≡ false
    → 0 < s.bytes
    → (j n : ℕ) × (u : Wakeup) × ((j ≡ i) ⊎ (s.drains j ≡ true))
      × Turns j s n u
      × (u.bytes ≡ 0)
      × (u.drains j ≡ false)
      × (n ≤ (s.bytes + 255) / 256 + 2)
no_wakeup_lost {s} i r d p = elim (Reach-Remembered r p) [
  | inl ready ↦
      let s' : Wakeup = record s { is_ready = false; drains = update s.drains i true } in
      let (u, t, z, f) = empties ((s.bytes + 255) / 256) i s' (ground arith) refl in
      (
        i,
        suc (suc ((s.bytes + 255) / 256)),
        u,
        inl refl,
        moves (is_woken ready d) t,
        z,
        f,
        omega arith,
      )
  | inr (j, reading) ↦
      let (u, t, z, f) = empties ((s.bytes + 255) / 256) j s reading refl in
      (j, suc ((s.bytes + 255) / 256), u, inr reading, t, z, f, omega arith)
]

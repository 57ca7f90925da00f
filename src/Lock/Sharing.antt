-- ===== src/Lock/Sharing.antt =====
-- The guards of a read-write lock (common/mutex.h) on several threads. pthread's lock is a parameter.
use synergy_lib.Prelude.{
  ℕ, Bool, true, false, List, [], ◌∷◌, Option, none, some, ◌≡◌, ◌≢◌, ◌==◌, if◌then◌else◌, update,
  ◌⊎◌,
}
use synergy_lib.Lock.{
  Call, rdlock, wrlock, unlock, write_lock, read_lock, write_unlock, read_unlock, write_end,
  read_end,
}

-- How a thread holds a lock.
pub data Mode : Type 0 where
  free reads writes : Mode

-- What POSIX documents of the calls that succeed: a thread that holds nothing gets the lock for
-- writing when nobody holds it, and for reading when nobody writes; a thread that holds the lock
-- gives it back. Nothing is said of an unlock by a thread that holds nothing, which is undefined.
pub record RwLock : Type 1 where
  pub State : Type 0
  pub mode : State → ℕ → Mode
  pub returns : Call → ℕ → State → State → Type 0
  pub wrlock_waits :
      (i : ℕ) {k k' : State} → mode k i ≡ free → returns wrlock i k k' → (q : ℕ) → mode k q ≡ free
  pub wrlock_takes :
      (i : ℕ) {k k' : State}
      → mode k i ≡ free
      → returns wrlock i k k'
      → (q : ℕ) → mode k' q ≡ (if i == q then writes else mode k q)
  pub rdlock_waits :
      (i : ℕ) {k k' : State} → mode k i ≡ free → returns rdlock i k k' → (q : ℕ) → mode k q ≢ writes
  pub rdlock_takes :
      (i : ℕ) {k k' : State}
      → mode k i ≡ free
      → returns rdlock i k k'
      → (q : ℕ) → mode k' q ≡ (if i == q then reads else mode k q)
  pub unlock_gives :
      (i : ℕ) {k k' : State}
      → mode k i ≢ free
      → returns unlock i k k'
      → (q : ℕ) → mode k' q ≡ (if i == q then free else mode k q)

-- A guard of a thread on the lock, with its flag m_locked; `no_guard` is one whose scope the thread is
-- not in.
pub data Guard : Type 0 where
  no_guard : Guard
  writing : Bool → Guard
  reading : Bool → Guard

-- What a thread does with a guard: it makes one, calls a method, or ends its scope. A method is one
-- step with its call on the lock, since the flag is the thread's own.
pub data Use : Type 0 where
  makes_writer makes_reader locks unlocks leaves : Use

-- The guard afterwards, and the calls on the lock; `none` where there is no such guard.
unfoldable pub use_guard : Use → Guard → Option (Guard × List Call)
use_guard makes_writer no_guard = some (writing true, wrlock ∷ [])
use_guard makes_reader no_guard = some (reading true, rdlock ∷ [])
use_guard locks (writing b) = some (writing (write_lock b).0, (write_lock b).1)
use_guard locks (reading b) = some (reading (read_lock b).0, (read_lock b).1)
use_guard unlocks (writing b) = some (writing (write_unlock b).0, (write_unlock b).1)
use_guard unlocks (reading b) = some (reading (read_unlock b).0, (read_unlock b).1)
use_guard leaves (writing b) = some (no_guard, write_end b)
use_guard leaves (reading b) = some (no_guard, read_end b)
use_guard _ _ = none

-- How a thread holds the lock by what its guard says.
abbrev pub mode_of : Guard → Mode
mode_of no_guard = free
mode_of (writing true) = writes
mode_of (writing false) = free
mode_of (reading true) = reads
mode_of (reading false) = free

module _ (lock : RwLock) where
  -- The lock, and the guards of each thread, of which it may be in the scopes of several at once.
  pub record System : Type 0 where
    pub lock_state : lock.State
    pub guard : ℕ → ℕ → Guard

  -- The calls of one method return.
  pub data Calls (i : ℕ) (k : lock.State) : List Call → lock.State → Type 0 where
    no_call : Calls i k [] k
    one_call : {c : Call} {k' : lock.State} → lock.returns c i k k' → Calls i k (c ∷ []) k'

  -- The thread `i` uses its guard `x`. It calls the lock through one guard only while no other guard of
  -- its own has its flag set, as addEvent of IOManager does, which unlocks its read guard before it makes
  -- a write guard.
  pub data Step (s : System) : System → Type 0 where
    uses :
        (i x : ℕ) (u : Use) {g : Guard} {cs : List Call} {k' : lock.State}
        → use_guard u (s.guard i x) ≡ some (g, cs)
        → Calls i s.lock_state cs k'
        → (cs ≡ []) ⊎ ((y : ℕ) → y ≢ x → mode_of (s.guard i y) ≡ free)
        → Step s (record { lock_state = k'; guard = update s.guard i (update (s.guard i) x g) })

  pub data Reach (s : System) : System → Type 0 where
    begins : Reach s s
    goes_on : {t u : System} → Reach s t → Step t u → Reach s u

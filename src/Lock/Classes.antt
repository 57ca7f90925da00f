-- ===== src/Lock/Classes.antt =====
-- The classes Mutex and RWMutex of common/mutex.h, as the calls of pthread that they make, and their
-- guards in one thread, one after the other.
use synergy_lib.Prelude.{
  ◌>>=◌, Option, List, Bool, some, none, is_some, all, false, ◌++◌, ◌≡◌, [], true, arith, refl,
}
use synergy_lib.Lock.{
  Call, lock, rdlock, wrlock, unlock, Method, scope_guard, write_guard, read_guard, held, ◌∷◌, some,
}

pub data PthreadCall : Type 0 where
  mutex_init mutex_destroy mutex_lock mutex_unlock : PthreadCall
  rwlock_init rwlock_destroy rwlock_rdlock rwlock_wrlock rwlock_unlock : PthreadCall

-- The methods of Mutex; `none` is a method that the class does not have.
abbrev pub mutex_method : Call → Option PthreadCall
mutex_method lock = some mutex_lock
mutex_method unlock = some mutex_unlock
mutex_method rdlock = none
mutex_method wrlock = none

-- The methods of RWMutex.
abbrev pub rw_mutex_method : Call → Option PthreadCall
rw_mutex_method lock = none
rw_mutex_method unlock = some rwlock_unlock
rw_mutex_method rdlock = some rwlock_rdlock
rw_mutex_method wrlock = some rwlock_wrlock

-- The calls of methods on an object, and of its destructor behind them.
unfoldable pub calls_until :
    (Call → Option PthreadCall) → PthreadCall → List Call → Option (List PthreadCall)
calls_until method destructor [] = some (destructor ∷ [])
calls_until method destructor (c ∷ cs) =
    let rest = calls_until method destructor cs in do m ← method c; ms ← rest; some (m ∷ ms)

-- Mutex from its constructor to its destructor.
unfoldable pub mutex_life : List Call → Option (List PthreadCall)
unfolding calls_until
mutex_life cs = do ms ← calls_until mutex_method mutex_destroy cs; some (mutex_init ∷ ms)

unfoldable pub rw_mutex_life : List Call → Option (List PthreadCall)
unfolding calls_until
rw_mutex_life cs = do ms ← calls_until rw_mutex_method rwlock_destroy cs; some (rwlock_init ∷ ms)

-- What POSIX allows one thread to call: `mutex` and `rwlock` say whether it holds the lock, which is
-- destroyed only when nobody holds it.
pub data PthreadPhase : Type 0 where
  raw : PthreadPhase
  mutex : Bool → PthreadPhase
  rwlock : Bool → PthreadPhase

abbrev pub allowed : PthreadPhase → PthreadCall → Option PthreadPhase
allowed raw mutex_init = some (mutex false)
allowed (mutex false) mutex_lock = some (mutex true)
allowed (mutex true) mutex_unlock = some (mutex false)
allowed (mutex false) mutex_destroy = some raw
allowed raw rwlock_init = some (rwlock false)
allowed (rwlock false) rwlock_rdlock = some (rwlock true)
allowed (rwlock false) rwlock_wrlock = some (rwlock true)
allowed (rwlock true) rwlock_unlock = some (rwlock false)
allowed (rwlock false) rwlock_destroy = some raw
allowed _ _ = none

abbrev pub all_allowed : PthreadPhase → List PthreadCall → Option PthreadPhase
all_allowed s [] = some s
all_allowed s (c ∷ cs) = do s' ← allowed s c; all_allowed s' cs

-- The phase after these calls, if they are all allowed.
abbrev pub outlived : PthreadPhase → Option (List PthreadCall) → Option PthreadPhase
outlived s none = none
outlived s (some cs) = all_allowed s cs

-- The guards on an RWMutex.
pub data RwGuard : Type 0 where
  a_writer a_reader : List Method → RwGuard

-- The calls of guards that follow each other.
unfoldable pub scope_guards : List (List Method) → List Call
scope_guards [] = []
scope_guards (ms ∷ mss) = scope_guard ms ++ scope_guards mss

abbrev pub rw_guard : RwGuard → List Call
rw_guard (a_writer ms) = write_guard ms
rw_guard (a_reader ms) = read_guard ms

unfoldable pub rw_guards : List RwGuard → List Call
rw_guards [] = []
rw_guards (g ∷ gs) = rw_guard g ++ rw_guards gs

-- The calls that a class has.
abbrev pub is_of_mutex : Call → Bool
is_of_mutex c = is_some (mutex_method c)

abbrev pub is_of_rw_mutex : Call → Bool
is_of_rw_mutex c = is_some (rw_mutex_method c)

-- The destructor, when the lock is held as `h` says.
abbrev pub destroyed : Option Bool → Option PthreadPhase
destroyed (some false) = some raw
destroyed _ = none

pub mutex_allowed :
    (h : Bool) (cs : List Call)
    → all is_of_mutex cs ≡ true
    → outlived (mutex h) (calls_until mutex_method mutex_destroy cs) ≡ destroyed (held h cs)
unfolding calls_until held
mutex_allowed true [] e = refl
mutex_allowed false [] e = refl
mutex_allowed true (lock ∷ cs) e = ground (arith, e)
mutex_allowed false (lock ∷ cs) e = ground (arith, mutex_allowed true cs, e)
mutex_allowed true (unlock ∷ cs) e = ground (arith, mutex_allowed false cs, e)
mutex_allowed false (unlock ∷ cs) e = ground (arith, e)
mutex_allowed h (rdlock ∷ cs) e = absurd cc
mutex_allowed h (wrlock ∷ cs) e = absurd cc

pub rw_mutex_allowed :
    (h : Bool) (cs : List Call)
    → all is_of_rw_mutex cs ≡ true
    → outlived (rwlock h) (calls_until rw_mutex_method rwlock_destroy cs) ≡ destroyed (held h cs)
unfolding calls_until held
rw_mutex_allowed true [] e = refl
rw_mutex_allowed false [] e = refl
rw_mutex_allowed true (rdlock ∷ cs) e = ground (arith, e)
rw_mutex_allowed false (rdlock ∷ cs) e = ground (arith, rw_mutex_allowed true cs, e)
rw_mutex_allowed true (wrlock ∷ cs) e = ground (arith, e)
rw_mutex_allowed false (wrlock ∷ cs) e = ground (arith, rw_mutex_allowed true cs, e)
rw_mutex_allowed true (unlock ∷ cs) e = ground (arith, rw_mutex_allowed false cs, e)
rw_mutex_allowed false (unlock ∷ cs) e = ground (arith, e)
rw_mutex_allowed h (lock ∷ cs) e = absurd cc

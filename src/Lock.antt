-- ===== src/Lock.antt =====
-- common/mutex.h: the scoped guards, as the calls that they make on their mutex.
pub mod Guards
pub mod Classes
pub mod Lives
pub mod Sharing
pub mod Exclusion
use synergy_lib.Prelude.{Bool, true, false, List, [], ◌∷◌, Option, none, some, ◌++◌}

-- The calls of the mutex classes. What they do is pthread's.
pub data Call : Type 0 where
  lock rdlock wrlock unlock : Call

-- The methods of a guard between its constructor and its destructor.
pub data Method : Type 0 where
  lock_method unlock_method : Method

-- A method of a guard: its flag m_is_lock or m_locked, and the calls that it makes.
abbrev pub Step : Type 0
Step = Bool × List Call

-- ScopeMutex<T>
abbrev pub scope_lock : Bool → Step
scope_lock true = (true, [])
scope_lock false = (true, lock ∷ [])

abbrev pub scope_unlock : Bool → Step
scope_unlock true = (false, unlock ∷ [])
scope_unlock false = (false, [])

-- ~ScopeMutex
abbrev pub scope_end : Bool → List Call
scope_end _ = unlock ∷ []

-- WriteScopedLockImpl<T>, and ReadScopedLockImpl<T> which has rdlock in place of wrlock.
abbrev pub write_lock : Bool → Step
write_lock true = (true, [])
write_lock false = (true, wrlock ∷ [])

abbrev pub read_lock : Bool → Step
read_lock true = (true, [])
read_lock false = (true, rdlock ∷ [])

abbrev pub write_unlock : Bool → Step
write_unlock true = (false, unlock ∷ [])
write_unlock false = (false, [])

abbrev pub read_unlock : Bool → Step
read_unlock true = (false, unlock ∷ [])
read_unlock false = (false, [])

-- ~WriteScopedLockImpl and ~ReadScopedLockImpl
abbrev pub write_end : Bool → List Call
write_end b = (write_unlock b).1

abbrev pub read_end : Bool → List Call
read_end b = (read_unlock b).1

-- The calls from a point of the guard's life on, to its destructor.
unfoldable pub scope_calls : Bool → List Method → List Call
scope_calls b [] = scope_end b
scope_calls b (lock_method ∷ ms) = (scope_lock b).1 ++ scope_calls (scope_lock b).0 ms
scope_calls b (unlock_method ∷ ms) = (scope_unlock b).1 ++ scope_calls (scope_unlock b).0 ms

unfoldable pub write_calls : Bool → List Method → List Call
write_calls b [] = write_end b
write_calls b (lock_method ∷ ms) = (write_lock b).1 ++ write_calls (write_lock b).0 ms
write_calls b (unlock_method ∷ ms) = (write_unlock b).1 ++ write_calls (write_unlock b).0 ms

unfoldable pub read_calls : Bool → List Method → List Call
read_calls b [] = read_end b
read_calls b (lock_method ∷ ms) = (read_lock b).1 ++ read_calls (read_lock b).0 ms
read_calls b (unlock_method ∷ ms) = (read_unlock b).1 ++ read_calls (read_unlock b).0 ms

-- The calls of a whole life, from the constructor on.
unfoldable pub scope_guard : List Method → List Call
unfolding scope_calls
scope_guard ms = lock ∷ scope_calls true ms

unfoldable pub write_guard : List Method → List Call
unfolding write_calls
write_guard ms = wrlock ∷ write_calls true ms

unfoldable pub read_guard : List Method → List Call
unfolding read_calls
read_guard ms = rdlock ∷ read_calls true ms

-- One holder's use of a mutex: `none` for a mutex that it takes twice or gives back without holding
-- it, which pthread leaves undefined, or else whether it holds the mutex in the end.
unfoldable pub held : Bool → List Call → Option Bool
held h [] = some h
held true (unlock ∷ cs) = held false cs
held false (unlock ∷ cs) = none
held true (c ∷ cs) = none
held false (c ∷ cs) = held true cs

-- ===== src/Lock/Guards.antt =====
-- The guards of common/mutex.h give back what they take.
use synergy_lib.Prelude.{refl, Bool, true, false, List, [], ◌∷◌, none, some, ◌≡◌, if◌then◌else◌}
use synergy_lib.Lock.{
  Method, lock_method, unlock_method, scope_calls, write_calls, read_calls, scope_guard,
  write_guard, read_guard, held,
}

-- Whether a guard whose flag is `b` has the flag set after these methods: the last one decides.
pub ends_locked : Bool → List Method → Bool
ends_locked b [] = b
ends_locked b (lock_method ∷ ms) = ends_locked true ms
ends_locked b (unlock_method ∷ ms) = ends_locked false ms

write_calls-held : (b : Bool) (ms : List Method) → held b (write_calls b ms) ≡ some false
unfolding held write_calls
write_calls-held true [] = refl
write_calls-held false [] = refl
write_calls-held true (lock_method ∷ ms) = write_calls-held true ms
write_calls-held false (lock_method ∷ ms) = write_calls-held true ms
write_calls-held true (unlock_method ∷ ms) = write_calls-held false ms
write_calls-held false (unlock_method ∷ ms) = write_calls-held false ms

read_calls-held : (b : Bool) (ms : List Method) → held b (read_calls b ms) ≡ some false
unfolding held read_calls
read_calls-held true [] = refl
read_calls-held false [] = refl
read_calls-held true (lock_method ∷ ms) = read_calls-held true ms
read_calls-held false (lock_method ∷ ms) = read_calls-held true ms
read_calls-held true (unlock_method ∷ ms) = read_calls-held false ms
read_calls-held false (unlock_method ∷ ms) = read_calls-held false ms

-- Whatever methods are called on them, the guards of a read-write lock never take it twice, never give
-- it back without holding it, and no longer hold it after their destructor.
pub rw_guards_give_back :
    (ms : List Method)
    → (held false (write_guard ms) ≡ some false) × (held false (read_guard ms) ≡ some false)
unfolding held write_guard read_guard
rw_guards_give_back ms = (write_calls-held true ms, read_calls-held true ms)

scope_calls-held :
    (b : Bool) (ms : List Method)
    → held b (scope_calls b ms) ≡ (if ends_locked b ms then some false else none)
unfolding held scope_calls ends_locked
scope_calls-held true [] = refl
scope_calls-held false [] = refl
scope_calls-held true (lock_method ∷ ms) = scope_calls-held true ms
scope_calls-held false (lock_method ∷ ms) = scope_calls-held true ms
scope_calls-held true (unlock_method ∷ ms) = scope_calls-held false ms
scope_calls-held false (unlock_method ∷ ms) = scope_calls-held false ms

-- A ScopeMutex gives back what it takes exactly if the last method called on it was not unlock():
-- after an unlock() its destructor unlocks a mutex that it does not hold.
pub scope_guard_gives_back :
    (ms : List Method)
    → held false (scope_guard ms) ≡ (if ends_locked true ms then some false else none)
unfolding held scope_guard
scope_guard_gives_back ms = scope_calls-held true ms

-- ===== src/Lock/Lives.antt =====
-- Objects of Mutex and RWMutex (common/mutex.h) from the constructor to the destructor, with one guard
-- after the other.
use synergy_lib.Prelude.{
  Bool, List, all, false, ◌++◌, ◌≡◌, ◌>>=◌, true, if◌then◌else◌, some, arith, [], none, refl,
  all-append, ◌∙◌,
}
use synergy_lib.Lock.{
  Call, lock, rdlock, wrlock, unlock, Method, lock_method, unlock_method, scope_calls, write_calls,
  read_calls, scope_guard, write_guard, read_guard, held, ◌∷◌,
}
use synergy_lib.Lock.Guards.{ends_locked, scope_guard_gives_back, rw_guards_give_back}
use synergy_lib.Lock.Classes.{
  mutex_life, rw_mutex_life, RwGuard, a_writer, a_reader, scope_guards, rw_guards, rw_guard, raw,
  outlived, mutex, rwlock, mutex_allowed, rw_mutex_allowed, is_of_mutex, is_of_rw_mutex,
  calls_until, mutex_method, rw_mutex_method, mutex_destroy, rwlock_destroy,
}

held-append : (h : Bool) (cs ds : List Call) → held h (cs ++ ds) ≡ (held h cs >>= λ k. held k ds)
unfolding held
held-append h [] ds = refl
held-append true (unlock ∷ cs) ds = held-append false cs ds
held-append false (unlock ∷ cs) ds = refl
held-append true (lock ∷ cs) ds = refl
held-append true (rdlock ∷ cs) ds = refl
held-append true (wrlock ∷ cs) ds = refl
held-append false (lock ∷ cs) ds = held-append true cs ds
held-append false (rdlock ∷ cs) ds = held-append true cs ds
held-append false (wrlock ∷ cs) ds = held-append true cs ds

scope_calls-of_mutex : (b : Bool) (ms : List Method) → all is_of_mutex (scope_calls b ms) ≡ true
unfolding scope_calls
scope_calls-of_mutex b [] = refl
scope_calls-of_mutex true (lock_method ∷ ms) = scope_calls-of_mutex true ms
scope_calls-of_mutex false (lock_method ∷ ms) = scope_calls-of_mutex true ms
scope_calls-of_mutex true (unlock_method ∷ ms) = scope_calls-of_mutex false ms
scope_calls-of_mutex false (unlock_method ∷ ms) = scope_calls-of_mutex false ms

write_calls-of_rw_mutex :
    (b : Bool) (ms : List Method) → all is_of_rw_mutex (write_calls b ms) ≡ true
unfolding write_calls
write_calls-of_rw_mutex true [] = refl
write_calls-of_rw_mutex false [] = refl
write_calls-of_rw_mutex true (lock_method ∷ ms) = write_calls-of_rw_mutex true ms
write_calls-of_rw_mutex false (lock_method ∷ ms) = write_calls-of_rw_mutex true ms
write_calls-of_rw_mutex true (unlock_method ∷ ms) = write_calls-of_rw_mutex false ms
write_calls-of_rw_mutex false (unlock_method ∷ ms) = write_calls-of_rw_mutex false ms

read_calls-of_rw_mutex : (b : Bool) (ms : List Method) → all is_of_rw_mutex (read_calls b ms) ≡ true
unfolding read_calls
read_calls-of_rw_mutex true [] = refl
read_calls-of_rw_mutex false [] = refl
read_calls-of_rw_mutex true (lock_method ∷ ms) = read_calls-of_rw_mutex true ms
read_calls-of_rw_mutex false (lock_method ∷ ms) = read_calls-of_rw_mutex true ms
read_calls-of_rw_mutex true (unlock_method ∷ ms) = read_calls-of_rw_mutex false ms
read_calls-of_rw_mutex false (unlock_method ∷ ms) = read_calls-of_rw_mutex false ms

scope_guards-of_mutex : (mss : List (List Method)) → all is_of_mutex (scope_guards mss) ≡ true
unfolding scope_guards scope_guard
scope_guards-of_mutex [] = refl
scope_guards-of_mutex (ms ∷ mss) =
    all-append is_of_mutex (scope_guard ms) (scope_guards mss)
    ∙ ground (arith, scope_calls-of_mutex true ms, scope_guards-of_mutex mss)

rw_guard-of_rw_mutex : (g : RwGuard) → all is_of_rw_mutex (rw_guard g) ≡ true
unfolding write_guard read_guard
rw_guard-of_rw_mutex (a_writer ms) = write_calls-of_rw_mutex true ms
rw_guard-of_rw_mutex (a_reader ms) = read_calls-of_rw_mutex true ms

rw_guards-of_rw_mutex : (gs : List RwGuard) → all is_of_rw_mutex (rw_guards gs) ≡ true
unfolding rw_guards
rw_guards-of_rw_mutex [] = refl
rw_guards-of_rw_mutex (g ∷ gs) =
    all-append is_of_rw_mutex (rw_guard g) (rw_guards gs)
    ∙ ground (arith, rw_guard-of_rw_mutex g, rw_guards-of_rw_mutex gs)

scope_guards-held :
    (mss : List (List Method))
    → held false (scope_guards mss) ≡ (if all (ends_locked true) mss then some false else none)
unfolding scope_guards held
scope_guards-held [] = refl
scope_guards-held (ms ∷ mss) =
    held-append false (scope_guard ms) (scope_guards mss)
    ∙ ground (arith, scope_guard_gives_back ms, scope_guards-held mss)

rw_guard-held : (g : RwGuard) → held false (rw_guard g) ≡ some false
rw_guard-held (a_writer ms) = (rw_guards_give_back ms).0
rw_guard-held (a_reader ms) = (rw_guards_give_back ms).1

rw_guards-held : (gs : List RwGuard) → held false (rw_guards gs) ≡ some false
unfolding rw_guards held
rw_guards-held [] = refl
rw_guards-held (g ∷ gs) =
    held-append false (rw_guard g) (rw_guards gs)
    ∙ ground (arith, rw_guard-held g, rw_guards-held gs)

begun_mutex :
    (cs : List Call)
    → outlived raw (mutex_life cs)
      ≡ outlived (mutex false) (calls_until mutex_method mutex_destroy cs)
unfolding mutex_life
begun_mutex cs = ground arith

begun_rw_mutex :
    (cs : List Call)
    → outlived raw (rw_mutex_life cs)
      ≡ outlived (rwlock false) (calls_until rw_mutex_method rwlock_destroy cs)
unfolding rw_mutex_life
begun_rw_mutex cs = ground arith

-- In one thread, with guards that follow each other and whatever methods are called on them: a Mutex
-- makes only calls that POSIX allows, from pthread_mutex_init to pthread_mutex_destroy, exactly if
-- unlock() is not the last method that is called on one of its guards; an RWMutex always does.
pub lives_allowed_iff :
    (mss : List (List Method)) (gs : List RwGuard)
    → (outlived raw (mutex_life (scope_guards mss))
        ≡ (if all (ends_locked true) mss then some raw else none))
      × (outlived raw (rw_mutex_life (rw_guards gs)) ≡ some raw)
lives_allowed_iff mss gs = (
  begun_mutex (scope_guards mss)
      ∙ (mutex_allowed false (scope_guards mss) (scope_guards-of_mutex mss)
          ∙ ground (arith, scope_guards-held mss)),
  begun_rw_mutex (rw_guards gs)
      ∙ (rw_mutex_allowed false (rw_guards gs) (rw_guards-of_rw_mutex gs)
          ∙ ground (arith, rw_guards-held gs)),
)

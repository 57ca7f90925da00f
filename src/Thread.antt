-- ===== src/Thread.antt =====
-- common/thread.cc, common/thread.h and the Semaphore of common/mutex.cc: a thread object, the thread
-- that constructs it and the thread that it runs. A name is a list of characters, a callback a
-- number, and a null pointer or an empty function `none`; m_thread is `none` where it is 0. What a
-- call of pthread or of a semaphore returns is chosen by the step: 0, or an error that is thrown.
pub mod Handshake
pub mod Joining
pub mod Threads
use synergy_lib.Prelude.{
  ℕ, zero, suc, refl, Bool, true, false, Option, none, some, List, [], ◌∷◌, ◌++◌, ◌+◌, ◌-◌, ◌≡◌,
  ◌<◌, if◌then◌else◌, is_empty, take, is_some, ◌==◌,
}
use synergy_lib.Prelude.Int.{ℤ, negsuc}

-- class Thread, where `semaphore` is the count of m_semaphore.
pub record Thread : Type 0 where
  pub id : ℤ
  pub thread : Option ℕ
  pub cb : Option ℕ
  pub name : List ℕ
  pub semaphore : ℕ

-- "UNKONW"
abbrev pub unknown_name : List ℕ
unknown_name = 85 ∷ 78 ∷ 75 ∷ 79 ∷ 78 ∷ 87 ∷ []

-- Thread::Thread up to pthread_create.
unfoldable pub new_thread : Option ℕ → List ℕ → Thread
new_thread cb name = record {
  id = negsuc 0;
  thread = none;
  cb = cb;
  name = if is_empty name then unknown_name else name;
  semaphore = 0;
}

-- Where the constructing thread is: before pthread_create, in the wait for the semaphore, behind the
-- constructor, or out of it by an exception.
pub data Creator : Type 0 where
  creating : Creator
  waiting : Creator
  constructed : Creator
  thrown : Creator

-- Where Thread::run is in the new thread: not there yet, at its start, behind the writes to the
-- thread-local variables and m_id, behind the swap of the callback, behind notify(), or at its end.
pub data Runner : Type 0 where
  absent : Runner
  begun : Runner
  identified : Runner
  swapped : Runner
  notified : Runner
  returned : Runner

-- The object, both threads, and in the new one t_thread, t_thread_name, the name that the system
-- has for it, the local variable `cb`, and the callbacks that it has called.
pub record Session : Type 0 where
  pub object : Thread
  pub creator : Creator
  pub runner : Runner
  pub t_thread : Option ℕ
  pub t_thread_name : List ℕ
  pub system_name : List ℕ
  pub local_cb : Option ℕ
  pub called : List (Option ℕ)

unfoldable pub new_session : Option ℕ → List ℕ → Session
unfolding new_thread
new_session cb name = record {
  object = new_thread cb name;
  creator = creating;
  runner = absent;
  t_thread = none;
  t_thread_name = unknown_name;
  system_name = [];
  local_cb = none;
  called = [];
}

-- Thread::SetName, in the new thread.
unfoldable pub set_name : List ℕ → Session → Session
set_name name s = if is_empty name then s else record s {
  object = if is_some s.t_thread then record (s.object) { name = name } else s.object;
  t_thread_name = name;
}

-- The writes of Thread::run for the object at the address `self`, in a thread with the id `tid`.
unfoldable pub identify : ℕ → ℤ → Session → Session
identify self tid s = record s {
  object = record (s.object) { id = tid };
  runner = identified;
  t_thread = some self;
  t_thread_name = s.object.name;
  system_name = take 15 s.object.name;
}

-- cb.swap(thread->m_cb)
unfoldable pub swap_cb : Session → Session
swap_cb s = record s {
  object = record (s.object) { cb = s.local_cb };
  runner = swapped;
  local_cb = s.object.cb;
}

-- Semaphore::notify
unfoldable pub notify : Session → Session
notify s = record s {
  object = record (s.object) { semaphore = s.object.semaphore + 1 };
  runner = notified;
}

-- Semaphore::wait, where sem_wait returns 0
unfoldable pub wait : Session → Session
wait s = record s {
  object = record (s.object) { semaphore = s.object.semaphore - 1 };
  creator = constructed;
}

-- A step of one of the two threads.
pub data Step (self : ℕ) (tid : ℤ) (s : Session) : Session → Type 0 where
  creates :
      (handle : ℕ)
      → s.creator ≡ creating
      → Step self tid s (record s {
        object = record (s.object) { thread = some handle };
        creator = waiting;
        runner = begun;
      })
  create_fails : s.creator ≡ creating → Step self tid s (record s { creator = thrown })
  waits : s.creator ≡ waiting → 0 < s.object.semaphore → Step self tid s (wait s)
  -- sem_wait returns an error, as it does when a signal interrupts it.
  wait_fails : s.creator ≡ waiting → Step self tid s (record s { creator = thrown })
  identifies : s.runner ≡ begun → Step self tid s (identify self tid s)
  swaps : s.runner ≡ identified → Step self tid s (swap_cb s)
  notifies : s.runner ≡ swapped → Step self tid s (notify s)
  calls :
      s.runner ≡ notified
      → Step self tid s (record s { runner = returned; called = s.local_cb ∷ s.called })
  -- The callback runs behind notify(), and may set its thread's name.
  renames : (name : List ℕ) → s.runner ≡ notified → Step self tid s (set_name name s)

pub data Reach (self : ℕ) (tid : ℤ) (s : Session) : Session → Type 0 where
  here : Reach self tid s s
  next : {t u : Session} → Reach self tid s t → Step self tid t u → Reach self tid s u

-- How a call of pthread_join or pthread_detach went.
pub data Release : Type 0 where
  joined : Release
  join_failed : Release
  detached : Release

-- Thread::join, where pthread_join returns an error or not: the object, and the calls it made; an
-- error is thrown and leaves the object as it is.
unfoldable pub join : Bool → Thread → Thread × List Release
join fails t =
    if is_some t.thread
    then if fails then (t, join_failed ∷ []) else (record t { thread = none }, joined ∷ [])
    else (t, [])

-- Thread::~Thread
unfoldable pub destruct : Thread → List Release
destruct t = if is_some t.thread then detached ∷ [] else []

-- Calls of join(), and then the destructor.
unfoldable pub joins_and_destructor : List Bool → Thread → List Release
unfolding join destruct
joins_and_destructor [] t = destruct t
joins_and_destructor (fails ∷ rest) t =
    (join fails t).1 ++ joins_and_destructor rest (join fails t).0

-- ===== src/Thread/Joining.antt =====
-- Thread::join and Thread::~Thread (common/thread.cc).
use synergy_lib.Prelude.{
  ℕ, arith, Bool, true, false, none, List, [], ◌∷◌, ◌+◌, ◌≡◌, length, if◌then◌else◌, is_some,
}
use synergy_lib.Thread.{
  Thread, Release, joined, join_failed, detached, join, destruct, joins_and_destructor,
}

-- How many of the calls give the system's thread back.
abbrev pub releases : List Release → ℕ
releases [] = 0
releases (join_failed ∷ rs) = releases rs
releases (joined ∷ rs) = 1 + releases rs
releases (detached ∷ rs) = 1 + releases rs

-- How many calls of join() fail before one that does not.
abbrev pub failures : List Bool → ℕ
failures [] = 0
failures (true ∷ fs) = 1 + failures fs
failures (false ∷ fs) = 0

-- A thread that was created is given back exactly once, by the first join() that succeeds or else by
-- the destructor, and no call uses it after that; and a thread that was not created is never used.
pub released_once :
    (fails : List Bool) (t : Thread)
    → let rs = joins_and_destructor fails t in
      (releases rs ≡ (if is_some t.thread then 1 else 0))
      × (length rs ≡ (if is_some t.thread then failures fails + 1 else 0))
unfolding joins_and_destructor join destruct
released_once [] t = ground arith
released_once (true ∷ fs) t = ground (arith, released_once fs t)
released_once (false ∷ fs) t =
    ground (arith, released_once fs t, released_once fs (record t { thread = none }))

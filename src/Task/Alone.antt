-- ===== src/Task/Alone.antt =====
-- A coroutine that only yields, resumed again and again by one holder of pointers to it, as in
-- testcase/PiberTest.cc (synergy/Piber.cc).
use synergy_lib.Prelude.{
  ℕ, zero, suc, arith, Option, none, some, ◌≡◌, ◌+◌, ◌-◌, if◌then◌else◌, leb, ◌==◌, ap, ◌∙◌,
}
use synergy_lib.Piber.{ready, term, runing}
use synergy_lib.Task.{
  Body, returns, yields, at_start, in_callback, at_end, Fiber, Pool, resume_fiber, run_body,
  set_fiber, new_fiber, reset_fiber,
}

-- A callback that yields `n` times and returns.
unfoldable pub pauses : ℕ → Body
pauses zero = returns
pauses (suc n) = yields (pauses n)

-- `k` calls of resume().
pub resumes : ℕ → ℕ → Pool → Option Pool
resumes zero p w = some w
resumes (suc k) p w = elim (resume_fiber p w) [ none ↦ none | some u ↦ resumes k p u ]

abbrev pub fiber_of : ℕ → Option Pool → Option Fiber
fiber_of p none = none
fiber_of p (some w) = some (w.fibers p)

-- The coroutine after `k` calls of resume(), where others hold `h` pointers to it.
abbrev pub expected : ℕ → ℕ → ℕ → Option Fiber
expected n k h =
    if leb k n
    then some (record { state = ready; stack = in_callback (pauses (n - k)); use_count = h + 2 })
    else if k == n + 1
    then some (record { state = term; stack = at_end; use_count = h })
    else none

resume-at_end : (p : ℕ) (w : Pool) → (w.fibers p).stack ≡ at_end → resume_fiber p w ≡ none
unfolding resume_fiber
resume-at_end p w e = ground (arith, e)

-- A coroutine in its last yield() ends at the next resume(), and any other yields again.
resume_last :
    (p h : ℕ) (w : Pool)
    → w.fibers p ≡ record { state = ready; stack = in_callback returns; use_count = h + 2 }
    → (u : Pool) × (resume_fiber p w ≡ some u)
      × (u.fibers p ≡ record { state = term; stack = at_end; use_count = h })
unfolding resume_fiber
resume_last p h w e = (
  run_body p returns
      (set_fiber p (record { state = runing; stack = in_callback returns; use_count = h + 1 }) w),
  ground (arith, e),
  ground (arith, e),
)

resume_inner :
    (p h : ℕ) (b : Body) (w : Pool)
    → w.fibers p ≡ record { state = ready; stack = in_callback (yields b); use_count = h + 2 }
    → (u : Pool) × (resume_fiber p w ≡ some u)
      × (u.fibers p ≡ record { state = ready; stack = in_callback b; use_count = h + 2 })
unfolding resume_fiber
resume_inner p h b w e = (
  run_body p (yields b) (
      set_fiber p (record { state = runing; stack = in_callback (yields b); use_count = h + 1 }) w),
  ground (arith, e),
  ground (arith, e),
)

resumes_ended :
    (k p h : ℕ) (w : Pool)
    → w.fibers p ≡ record { state = term; stack = at_end; use_count = h }
    → fiber_of p (resumes k p w)
      ≡ (if k == 0 then some (record { state = term; stack = at_end; use_count = h }) else none)
unfolding resumes
resumes_ended zero p h w e = ap some e
resumes_ended (suc k) p h w e = rw (resume-at_end p w (ap (λ x. x.stack) e), resumes) (ground arith)

resumes_continued :
    (n k p h : ℕ) (w : Pool)
    → w.fibers p ≡ record { state = ready; stack = in_callback (pauses n); use_count = h + 2 }
    → fiber_of p (resumes k p w) ≡ expected n k h
unfolding resumes pauses
resumes_continued n zero p h w e = ground (arith, e)
resumes_continued zero (suc k) p h w e =
    let (u, r, f) = resume_last p h w e in rw (r, resumes) (resumes_ended k p h u f ∙ ground arith)
resumes_continued (suc n) (suc k) p h w e =
    let (u, r, f) = resume_inner p h (pauses n) w e in
    rw (r, resumes) (resumes_continued n k p h u f ∙ ground arith)

-- The first resume() enters the callback.
first_returns :
    (p h : ℕ) (w : Pool)
    → w.fibers p ≡ record { state = ready; stack = at_start returns; use_count = h }
    → (u : Pool) × (resume_fiber p w ≡ some u)
      × (u.fibers p ≡ record { state = term; stack = at_end; use_count = h })
unfolding resume_fiber
first_returns p h w e = (
  run_body p returns
      (set_fiber p (record { state = runing; stack = at_start returns; use_count = h + 1 }) w),
  ground (arith, e),
  ground (arith, e),
)

first_yields :
    (p h : ℕ) (b : Body) (w : Pool)
    → w.fibers p ≡ record { state = ready; stack = at_start (yields b); use_count = h }
    → (u : Pool) × (resume_fiber p w ≡ some u)
      × (u.fibers p ≡ record { state = ready; stack = in_callback b; use_count = h + 2 })
unfolding resume_fiber
first_yields p h b w e = (
  run_body p (yields b)
      (set_fiber p (record { state = runing; stack = at_start (yields b); use_count = h + 1 }) w),
  ground (arith, e),
  ground (arith, e),
)

resumes_started :
    (n k p h : ℕ) (w : Pool)
    → w.fibers p ≡ record { state = ready; stack = at_start (pauses n); use_count = h }
    → fiber_of p (resumes (suc k) p w) ≡ expected n (suc k) h
unfolding resumes pauses
resumes_started zero k p h w e =
    let (u, r, f) = first_returns p h w e in
    rw (r, resumes) (resumes_ended k p h u f ∙ ground arith)
resumes_started (suc n) k p h w e =
    let (u, r, f) = first_yields p h (pauses n) w e in
    rw (r, resumes) (resumes_continued n k p h u f ∙ ground arith)

-- For a callback that yields `n` times and returns, a coroutine that is new, or that has been reset,
-- in whatever state it was: after 1 to `n` calls of resume() it is READY in its callback, and two
-- pointers more than at the start point to it; after one more it is TERM, with the pointers that it
-- had at the start; and a further resume() ends the thread. A new coroutine has one pointer.
pub resumes_lem :
    (code : ℕ → Body) (f n k p : ℕ) (w : Pool)
    → code f ≡ pauses n
    → (fiber_of w.next_address (resumes (suc k) w.next_address (new_fiber code f w))
        ≡ expected n (suc k) 1)
      × (fiber_of p (resumes (suc k) p (reset_fiber code p f w))
          ≡ expected n (suc k) (w.fibers p).use_count)
unfolding new_fiber reset_fiber
resumes_lem code f n k p w e = (
  resumes_started n k w.next_address 1 (new_fiber code f w) (ground (arith, e)),
  resumes_started n k p (w.fibers p).use_count (reset_fiber code p f w) (ground (arith, e)),
)

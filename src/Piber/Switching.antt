-- ===== src/Piber/Switching.antt =====
-- Piber::resume, Piber::yield, Piber::reset and the end of Piber::MainFunc (synergy/Piber.cc).
use synergy_lib.Prelude.{ℕ, refl, arith, none, some, ◌≡◌, ◌≢◌, update}
use synergy_lib.Piber.{
  runing, term, Context, main_func, saved, Machine, swapcontext, partner, resume, yield, yielded,
  main_func_end, reset,
}

module _ (p b : ℕ) (m : Machine) (h : partner p m ≡ some b) (other : b ≢ p) where
  -- resume() continues the coroutine where its context says, and keeps in its partner's context the
  -- place of the call.
  pub resume_lem :
      (here : ℕ)
      → (m' : Machine) × (resume p here m ≡ some (m', (m.heap p).ctx))
        × ((m'.heap b).ctx ≡ saved here)
        × ((m'.heap p).state ≡ runing)
        × ((m'.heap p).cb ≡ (m.heap p).cb)
        × (m'.t_piber ≡ some p)
  unfolding resume swapcontext
  resume_lem here = (
    (swapcontext b p here running).0,
    ground (arith, h, other),
    ground (arith, h, other),
    ground (arith, h, other),
    ground (arith, h, other),
    refl,
  )
    where
      running : Machine
      running = record m {
        t_piber = some p;
        heap = update m.heap p (record (m.heap p) { state = runing });
      }

  yield_lem :
      (here : ℕ)
      → (m' : Machine) × (yield p here m ≡ some (m', (m.heap b).ctx))
        × ((m'.heap p).ctx ≡ saved here)
        × ((m'.heap p).state ≡ yielded (m.heap p).state)
        × ((m'.heap p).cb ≡ (m.heap p).cb)
        × (partner p m' ≡ some b)
        × (m'.t_piber ≡ m.t_thread_piber)
  unfolding yield swapcontext
  yield_lem here = (
    (swapcontext p b here leaving).0,
    ground (arith, h, other),
    ground (arith, h, other),
    ground (arith, h, other),
    ground (arith, h, other),
    ground (arith, h, other),
    refl,
  )
    where
      leaving : Machine
      leaving = record m {
        t_piber = m.t_thread_piber;
        heap = update m.heap p (record (m.heap p) { state = yielded (m.heap p).state });
      }

module _ (p b : ℕ) (m : Machine) (h : partner p m ≡ some b) (other : b ≢ p) where
  -- For a coroutine that switches with another one, its partner: resume() continues it where its
  -- context says; a yield(), whatever the thread has done since, goes on where that resume() was
  -- called, provided that the partner's context is still the one of the resume() and it is still
  -- the partner; and the next resume() goes on behind that yield().
  pub yield_returns_to_resume :
      (here place next : ℕ) (m1 m' : Machine) (c : Context)
      → resume p here m ≡ some (m1, c)
      → (m'.heap b).ctx ≡ (m1.heap b).ctx
      → partner p m' ≡ some b
      → (c ≡ (m.heap p).ctx)
        × (m2 : Machine) × (yield p place m' ≡ some (m2, saved here))
        × (m3 : Machine) × (resume p next m2 ≡ some (m3, saved place))
  yield_returns_to_resume here place next m1 m' c eq kept still =
      let first = resume_lem p b m h other here in
      let left = yield_lem p b m' still other place in
      let again = resume_lem p b left.0 left.5 other next in
      (
        ground (arith, first, eq),
        left.0,
        ground (arith, first, eq, left.1, kept),
        again.0,
        ground (arith, again.1, left),
      )

  -- When the callback of a coroutine that switches with another one has returned, MainFunc gives
  -- control back to where its partner's context says, with the state TERM and no callback left.
  -- resume() does not look at the state: on such a coroutine it sets RUNING and continues behind the
  -- end of MainFunc.
  main_func_end_lem :
      (here next : ℕ)
      → (m2 : Machine) × (main_func_end p here m ≡ some (m2, (m.heap b).ctx))
        × ((m2.heap p).state ≡ term)
        × ((m2.heap p).cb ≡ none)
        × (m3 : Machine) × (resume p next m2 ≡ some (m3, saved here))
        × ((m3.heap p).state ≡ runing)
  unfolding main_func_end
  main_func_end_lem here next =
      let ended = record m {
        heap = update m.heap p (record (m.heap p) { cb = none; state = term });
      } in
      let left = yield_lem p b ended (ground (arith, h)) other here in
      let again = resume_lem p b left.0 left.5 other next in
      (
        left.0,
        ground (arith, left, other),
        ground (arith, left),
        ground (arith, left),
        again.0,
        ground (arith, again, left),
        ground (arith, again),
      )

  -- After reset() with a callback, for a coroutine that switches with another one and whatever its
  -- state was, resume() starts MainFunc with that callback in the state RUNING, and keeps the place
  -- of the call for the next yield().
  pub resume-reset :
      (cb here : ℕ)
      → (m2 : Machine) × (resume p here (reset p cb m) ≡ some (m2, main_func))
        × ((m2.heap p).cb ≡ some cb)
        × ((m2.heap p).state ≡ runing)
        × ((m2.heap b).ctx ≡ saved here)
  unfolding reset
  resume-reset cb here =
      let started = resume_lem p b (reset p cb m) (ground (arith, h)) other here in
      (
        started.0,
        ground (arith, started),
        ground (arith, started),
        ground (arith, started),
        ground (arith, started),
      )

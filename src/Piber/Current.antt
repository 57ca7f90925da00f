-- ===== src/Piber/Current.antt =====
-- Which coroutine runs on a thread, against t_piber and Piber::GetThis (synergy/Piber.cc).
use synergy_lib.Prelude.{ℕ, arith, Bool, some, none, ◌≡◌, ◌≢◌, update, ◌∙◌, sym, false}
use synergy_lib.Prelude.Int.{ℤ, ◌==ℤ◌}
use synergy_lib.Scheduler.Locals.{Locals, enter_run, set_this}
use synergy_lib.Piber.{
  runing, Context, Machine, partner, resume, yield, main_func_end, reset, new_piber, get_this,
  swapcontext, term, new_main,
}

-- What the code that runs on a thread does next, where `cur` is the coroutine that it runs in: each
-- step gives the coroutine that runs after it. resume() is called by the coroutine that the resumed one
-- switches with, and yield() by one that switches with another one.
pub data Step (m : Machine) (cur : ℕ) : Machine → ℕ → Type 0 where
  resumes :
      (p place : ℕ) {m' : Machine} {c : Context}
      → partner p m ≡ some cur
      → p ≢ cur
      → resume p place m ≡ some (m', c)
      → Step m cur m' p
  yields :
      (b place : ℕ) {m' : Machine} {c : Context}
      → partner cur m ≡ some b
      → b ≢ cur
      → yield cur place m ≡ some (m', c)
      → Step m cur m' b
  ends :
      (b place : ℕ) {m' : Machine} {c : Context}
      → partner cur m ≡ some b
      → b ≢ cur
      → main_func_end cur place m ≡ some (m', c)
      → Step m cur m' b
  creates :
      (q stack cb stacksize : ℕ) (run_in_scheduler : Bool)
      → m.t_thread_piber ≢ some q
      → q ≢ cur
      → Step m cur (new_piber q stack cb stacksize run_in_scheduler m) cur
  resets : (q cb : ℕ) → m.t_thread_piber ≢ some q → q ≢ cur → Step m cur (reset q cb m) cur

pub data Reach (m : Machine) (cur : ℕ) : Machine → ℕ → Type 0 where
  begins : Reach m cur m cur
  goes_on :
      {m' m'' : Machine} {cur' cur'' : ℕ}
      → Reach m cur m' cur'
      → Step m' cur' m'' cur''
      → Reach m cur m'' cur''

-- A worker's thread: its main coroutine `t` runs the loop of the scheduler.
record Worker (t : ℕ) (m : Machine) : Type 0 where
  thread : m.t_thread_piber ≡ some t
  scheduler : m.t_scheduler_piber ≡ some t
  main_marked : (m.heap t).state ≡ runing

-- t_piber is the coroutine `cur`, whose state is RUNING.
record Names (cur : ℕ) (m : Machine) : Type 0 where
  now : m.t_piber ≡ some cur
  marked : (m.heap cur).state ≡ runing

partner_lem : (t p : ℕ) (m : Machine) → Worker t m → partner p m ≡ some t
partner_lem t p m w = ground (arith, w.thread, w.scheduler)

partner_unique : (t p b : ℕ) (m : Machine) → Worker t m → partner p m ≡ some b → b ≡ t
partner_unique t p b m w h = ground (arith, h, partner_lem t p m w)

resume-Names :
    (t p place : ℕ) (m m' : Machine) (c : Context)
    → Worker t m
    → p ≢ t
    → resume p place m ≡ some (m', c)
    → Worker t m' × Names p m'
unfolding resume swapcontext
resume-Names t p place m m' c w other e =
    let b = partner_lem t p m w in
    (
      record {
        thread = ground (arith, w.thread, b, e);
        scheduler = ground (arith, w.scheduler, b, e);
        main_marked = ground (arith, b, e, other, w.main_marked);
      },
      record { now = ground (arith, b, e); marked = ground (arith, b, e, other) },
    )

yield-Names :
    (t p place : ℕ) (m m' : Machine) (c : Context)
    → Worker t m
    → t ≢ p
    → yield p place m ≡ some (m', c)
    → Worker t m' × Names t m'
unfolding yield swapcontext
yield-Names t p place m m' c w other e =
    let b = partner_lem t p m w in
    (
      record {
        thread = ground (arith, w.thread, b, e);
        scheduler = ground (arith, w.scheduler, b, e);
        main_marked = ground (arith, b, e, other, w.main_marked);
      },
      record {
        now = ground (arith, w.thread, b, e);
        marked = ground (arith, b, e, other, w.main_marked);
      },
    )

main_func_end-Names :
    (t p place : ℕ) (m m' : Machine) (c : Context)
    → Worker t m
    → t ≢ p
    → main_func_end p place m ≡ some (m', c)
    → Worker t m' × Names t m'
unfolding main_func_end
main_func_end-Names t p place m m' c w other e =
    yield-Names t p place
      (record m { heap = update m.heap p (record (m.heap p) { cb = none; state = term }) }) m' c
      (record {
        thread = w.thread;
        scheduler = w.scheduler;
        main_marked = ground (arith, other, w.main_marked);
      })
      other e

Step-Names :
    (t : ℕ) {m m' : Machine} {cur cur' : ℕ}
    → Step m cur m' cur'
    → Worker t m × Names cur m
    → Worker t m' × Names cur' m'
unfolding new_piber reset
Step-Names t {m} {m'} {cur} (resumes p place h other e) (w, n) =
    let at_main = partner_unique t p cur m w h in
    resume-Names t p place m m' _ w (λ q. other (q ∙ sym at_main)) e
Step-Names t {m} {m'} {cur} (yields b place h other e) (w, n) =
    let to_main = partner_unique t cur b m w h in
    rw to_main (yield-Names t cur place m m' _ w (λ q. other (to_main ∙ q)) e)
Step-Names t {m} {m'} {cur} (ends b place h other e) (w, n) =
    let to_main = partner_unique t cur b m w h in
    rw to_main (main_func_end-Names t cur place m m' _ w (λ q. other (to_main ∙ q)) e)
Step-Names t (creates q stack cb stacksize ris old other) (w, n) = (
  record {
    thread = w.thread;
    scheduler = w.scheduler;
    main_marked = ground (arith, w.main_marked, w.thread, old);
  },
  record { now = n.now; marked = ground (arith, other, n.marked) },
)
Step-Names t (resets q cb old other) (w, n) = (
  record {
    thread = w.thread;
    scheduler = w.scheduler;
    main_marked = ground (arith, w.main_marked, w.thread, old);
  },
  record { now = n.now; marked = ground (arith, other, n.marked) },
)

Reach-Names :
    (t : ℕ) {m : Machine} {cur : ℕ} {m' : Machine} {cur' : ℕ}
    → Reach m cur m' cur'
    → Worker t m × Names cur m
    → Worker t m' × Names cur' m'
Reach-Names t begins v = v
Reach-Names t (goes_on r st) v = Step-Names t st (Reach-Names t r v)

get_this_now :
    (cur fresh : ℕ) (garbage : Bool) (m : Machine)
    → Names cur m
    → get_this fresh garbage m ≡ (m, cur)
unfolding get_this
get_this_now cur fresh garbage m n = ground (arith, n.now)

module _ (self : ℕ) (tid root_thread : ℤ) (main : ℕ) (garbage : Bool) (idle stack cb : ℕ)
    (l : Locals) where
  -- The thread of a worker when its loop begins.
  abbrev pub in_loop : Machine
  in_loop = (enter_run self tid root_thread main garbage idle stack cb l).machine

  in_loop-Names :
      (tid ==ℤ root_thread) ≡ false
      → l.machine.t_piber ≡ none
      → main ≢ idle
      → Worker main in_loop × Names main in_loop
  unfolding enter_run set_this new_piber get_this new_main
  in_loop-Names foreign fresh other = (
    record {
      thread = ground (arith, foreign, fresh);
      scheduler = ground (arith, foreign, fresh);
      main_marked = ground (arith, foreign, fresh, other);
    },
    record { now = ground (arith, foreign, fresh); marked = ground (arith, foreign, fresh, other) },
  )

  -- In a new thread that is a worker, from the start of its loop on and however its coroutines call
  -- resume() and yield(), end, or make and reset other coroutines: GetThis() returns the coroutine
  -- that runs and makes none, and the state of that coroutine is RUNING. resume() is called by the
  -- coroutine that the resumed one switches with, and yield() by one that switches with another.
  pub get_this_runs :
      {m : Machine} {cur : ℕ} (unused : ℕ) (garbage' : Bool)
      → (tid ==ℤ root_thread) ≡ false
      → l.machine.t_piber ≡ none
      → main ≢ idle
      → Reach in_loop main m cur
      → (get_this unused garbage' m ≡ (m, cur)) × ((m.heap cur).state ≡ runing)
  get_this_runs {m} {cur} unused garbage' foreign fresh other r =
      let v = Reach-Names main r (in_loop-Names foreign fresh other) in
      (get_this_now cur unused garbage' m v.1, v.1.marked)

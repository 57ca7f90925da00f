-- ===== src/Piber.antt =====
-- synergy/Piber.h and synergy/Piber.cc: coroutines and the switch between them, on one thread.
-- A coroutine is an object at an address. A context is where it continues: at the start of MainFunc,
-- or behind the call of swapcontext that saved it, which is a number. getcontext and swapcontext are
-- taken to succeed, as the code takes them.
pub mod Switching
pub mod Life
pub mod Current
use synergy_lib.Prelude.{
  ℕ, Bool, true, false, Option, none, some, if◌then◌else◌, update, ◌+◌, ◌-◌, ◌==◌, ◌^◌, ◌%◌, ◌*◌,
  u64, u64_mod, is_some,
}

-- Piber::State
pub data State : Type 0 where
  ready runing term : State

-- ucontext_t
pub data Context : Type 0 where
  unset : Context
  main_func : Context
  saved : ℕ → Context

-- class Piber
pub record Piber : Type 0 where
  pub id : ℕ
  pub stacksize : ℕ
  pub state : State
  pub ctx : Context
  pub stack : Option ℕ
  pub cb : Option ℕ
  pub run_in_scheduler : Bool

-- The objects, the static counters, and the thread-local pointers t_piber, t_thread_piber and
-- t_scheduler_piber, which is Scheduler::GetMainPiber().
pub record Machine : Type 0 where
  pub heap : ℕ → Piber
  pub piber_count : ℕ
  pub piber_id : ℕ
  pub t_piber : Option ℕ
  pub t_thread_piber : Option ℕ
  pub t_scheduler_piber : Option ℕ

-- swapcontext(&from->m_ctx, &to->m_ctx), called at the place `here`: the state, and where control goes.
unfoldable pub swapcontext : ℕ → ℕ → ℕ → Machine → Machine × Context
swapcontext from to here m = (record m { heap = heap }, (heap to).ctx)
  where
    heap : ℕ → Piber
    heap = update m.heap from (record (m.heap from) { ctx = saved here })

-- The coroutine that resume() leaves and yield() goes back to.
abbrev pub partner : ℕ → Machine → Option ℕ
partner p m = if (m.heap p).run_in_scheduler then m.t_scheduler_piber else m.t_thread_piber

-- Piber::resume, where `none` is the access through a null pointer.
unfoldable pub resume : ℕ → ℕ → Machine → Option (Machine × Context)
unfolding swapcontext
resume p here m =
    let m' = record m {
      t_piber = some p;
      heap = update m.heap p (record (m.heap p) { state = runing });
    } in
    elim (partner p m) [ none ↦ none | some b ↦ some (swapcontext b p here m') ]

abbrev pub yielded : State → State
yielded ready = ready
yielded runing = ready
yielded term = term

-- Piber::yield
unfoldable pub yield : ℕ → ℕ → Machine → Option (Machine × Context)
unfolding swapcontext
yield p here m =
    let m' = record m {
      t_piber = m.t_thread_piber;
      heap = update m.heap p (record (m.heap p) { state = yielded (m.heap p).state });
    } in
    elim (partner p m) [ none ↦ none | some b ↦ some (swapcontext p b here m') ]

-- Piber::MainFunc behind the call of m_cb.
unfoldable pub main_func_end : ℕ → ℕ → Machine → Option (Machine × Context)
unfolding yield
main_func_end p here m =
    yield p here
      (record m { heap = update m.heap p (record (m.heap p) { cb = none; state = term }) })

-- Piber::reset
unfoldable pub reset : ℕ → ℕ → Machine → Machine
reset p cb m = record m {
  heap = update m.heap p (record (m.heap p) { cb = some cb; ctx = main_func; state = ready });
}

-- Piber::Piber(cb, stacksize, run_in_scheduler), at a new address and with a stack from malloc.
unfoldable pub new_piber : ℕ → ℕ → ℕ → ℕ → Bool → Machine → Machine
new_piber p stack cb stacksize run_in_scheduler m = record m {
  heap = update m.heap p (record {
    id = m.piber_id;
    stacksize = (if stacksize == 0 then 128 * 1024 else stacksize) % 2 ^ 32;
    state = ready;
    ctx = main_func;
    stack = some stack;
    cb = some cb;
    run_in_scheduler = run_in_scheduler;
  });
  piber_count = u64 (m.piber_count + 1);
  piber_id = u64 (m.piber_id + 1);
}

-- Piber::Piber(), the coroutine of the thread itself. It does not set m_runInScheduler, which is
-- `garbage`.
unfoldable pub new_main : ℕ → Bool → Machine → Machine
new_main p garbage m = record m {
  heap = update m.heap p (record {
    id = m.piber_id;
    stacksize = 0;
    state = runing;
    ctx = unset;
    stack = none;
    cb = none;
    run_in_scheduler = garbage;
  });
  piber_count = u64 (m.piber_count + 1);
  piber_id = u64 (m.piber_id + 1);
  t_piber = some p;
}

-- Piber::~Piber
unfoldable pub destroy : ℕ → Machine → Machine
destroy p m = record m {
  piber_count = u64 (m.piber_count + u64_mod - 1);
  t_piber =
      if is_some (m.heap p).stack
      then m.t_piber
      else elim m.t_piber [ none ↦ none | some q ↦ if q == p then none else some q ];
}

-- Piber::GetThis, with the address of the object that it makes when there is none.
unfoldable pub get_this : ℕ → Bool → Machine → Machine × ℕ
unfolding new_main
get_this fresh garbage m = elim m.t_piber [
  | some p ↦ (m, p)
  | none ↦ (record (new_main fresh garbage m) { t_thread_piber = some fresh }, fresh)
]

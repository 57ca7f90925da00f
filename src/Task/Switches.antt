-- ===== src/Task/Switches.antt =====
-- The loop of Scheduler::run (synergy/Scheduler.cc) with its coroutines as the objects of Piber
-- (synergy/Piber.cc): Piber::resume, the callback up to its switch, and Piber::yield or the end of
-- Piber::MainFunc.
use synergy_lib.Prelude.{
  ◌>>=◌, ℕ, Option, none, Bool, some, ◌==◌, true, false, if◌then◌else◌, List, [], ◌∷◌, ◌+◌,
}
use synergy_lib.Scheduler.{Scheduler, a_piber, a_cb, any_thread, schedule_no_lock}
use synergy_lib.Piber
use synergy_lib.Piber.{
  Machine, Context, unset, main_func, saved, resume, yield, main_func_end, new_piber,
}
use synergy_lib.Task.{
  Body, returns, yields, schedules_self, schedules, Stack, at_start, in_callback, at_end, Pool,
  new_fiber, reset_fiber, resume_fiber,
}

-- The scheduler and the objects of its thread. New ones come to the address next_address.
pub record Objects : Type 0 where
  pub sched : Scheduler
  pub machine : Machine
  pub next_address : ℕ

-- What a thread does with its coroutines: it makes one, resets one, or resumes one.
pub data Action : Type 0 where
  makes : (f : ℕ) → Action
  resets : (p f : ℕ) → Action
  resumes : (p here : ℕ) → Action

abbrev pub rest_of : Stack → Option Body
rest_of (at_start b) = none
rest_of (in_callback b) = some b
rest_of at_end = none

abbrev pub is_at : ℕ → Context → Bool
is_at here (saved k) = k == here
is_at here _ = false

abbrev pub with_machine : Objects → Option (Machine × Context) → Option (Objects × Context)
with_machine o none = none
with_machine o (some r) = some (record o { machine = r.0 }, r.1)

-- new Piber(f), at a new address.
abbrev pub made : ℕ → Objects → Objects
made f o = record o {
  machine = new_piber o.next_address o.next_address f 0 true o.machine;
  next_address = o.next_address + 1;
}

-- A place behind a yield() is the number `place k` of what follows it, and `at` leads back.
module _ (code : ℕ → Body) (place : Stack → ℕ) (at : ℕ → Stack) where
  -- The callback of the coroutine `p` up to its next switch.
  unfoldable pub switches : ℕ → Body → Objects → Option (Objects × Context)
  switches p returns o = with_machine o (main_func_end p (place at_end) o.machine)
  switches p (yields b) o = with_machine o (yield p (place (in_callback b)) o.machine)
  switches p (schedules_self b) o =
      switches p b (record o { sched = (schedule_no_lock (a_piber (some p)) any_thread o.sched).0 })
  switches p (schedules f thread b) o =
      switches p b (record o { sched = (schedule_no_lock (a_cb (some f)) thread o.sched).0 })

  -- What runs where a context continues: MainFunc calls m_cb, or a callback goes on behind its yield().
  -- Behind the yield() of MainFunc the thread ends.
  abbrev pub continues_with : Context → Option ℕ → Option Body
  continues_with unset cb = none
  continues_with main_func none = none
  continues_with main_func (some f) = some (code f)
  continues_with (saved k) cb = rest_of (at k)

  -- resume() of `p`, called at `here`, up to the switch back.
  unfoldable pub turn : ℕ → ℕ → Objects → Option (Objects × Context)
  unfolding switches
  turn p here o = do
    r ← resume p here o.machine
    b ← continues_with r.1 (r.0.heap p).cb
    switches p b (record o { machine = r.0 })

  -- One action on the objects. After a resume() the thread goes on only where it was called.
  unfoldable pub acts : Action → Objects → Option Objects
  unfolding turn
  acts (makes f) o = some (made f o)
  acts (resets p f) o = some (record o { machine = Piber.reset p f o.machine })
  acts (resumes p here) o = do r ← turn p here o; if is_at here r.1 then some r.0 else none

  -- Actions one behind the other.
  unfoldable pub act_all : List Action → Objects → Option Objects
  unfolding acts
  act_all [] o = some o
  act_all (a ∷ rest) o = do o' ← acts a o; act_all rest o'

module _ (code : ℕ → Body) where
  -- The same action in Task.
  unfoldable pub acts_on : Action → Pool → Option Pool
  acts_on (makes f) w = some (new_fiber code f w)
  acts_on (resets p f) w = some (reset_fiber code p f w)
  acts_on (resumes p here) w = resume_fiber p w

  unfoldable pub act_all_on : List Action → Pool → Option Pool
  unfolding acts_on
  act_all_on [] w = some w
  act_all_on (a ∷ rest) w = do w' ← acts_on a w; act_all_on rest w'

-- ===== src/Task/Frames.antt =====
-- What a callback that runs (Piber::resume in synergy/Piber.cc) leaves as it was.
use synergy_lib.Prelude.{ℕ, refl, arith, ◌≡◌, ◌≢◌, ◌∙◌}
use synergy_lib.Prelude.Int.{ℤ}
use synergy_lib.Task.{
  Body, returns, yields, schedules_self, schedules, Pool, run_body, schedule_fiber,
  schedule_callback,
}
use synergy_lib.Task.Handles.{queued, schedule_fiber-queued, schedule_callback-queued}

-- Of the scheduler only the queue changes, and no address is taken.
pub record SameBut (w u : Pool) : Type 0 where
  pub scheduler : u.sched ≡ record w.sched { tasks = u.sched.tasks }
  pub addresses : u.next_address ≡ w.next_address

schedule_fiber-SameBut : (p : ℕ) (w : Pool) → SameBut w (schedule_fiber p w)
unfolding schedule_fiber
schedule_fiber-SameBut p w = record { scheduler = ground arith; addresses = refl }

schedule_callback-SameBut :
    (f : ℕ) (thread : ℤ) (w : Pool) → SameBut w (schedule_callback f thread w)
unfolding schedule_callback
schedule_callback-SameBut f thread w = record { scheduler = ground arith; addresses = refl }

SameBut-trans : {w u v : Pool} → SameBut w u → SameBut u v → SameBut w v
SameBut-trans a b = record {
  scheduler = ground (arith, a.scheduler, b.scheduler);
  addresses = b.addresses ∙ a.addresses;
}

pub run_body-SameBut : (p : ℕ) (b : Body) (w : Pool) → SameBut w (run_body p b w)
unfolding run_body
run_body-SameBut p returns w = record { scheduler = refl; addresses = refl }
run_body-SameBut p (yields b) w = record { scheduler = refl; addresses = refl }
run_body-SameBut p (schedules_self b) w =
    SameBut-trans (schedule_fiber-SameBut p w) (run_body-SameBut p b (schedule_fiber p w))
run_body-SameBut p (schedules f thread b) w =
    SameBut-trans (schedule_callback-SameBut f thread w)
      (run_body-SameBut p b (schedule_callback f thread w))

-- Every other coroutine stays as it is, and as often in the queue.
pub run_body-others :
    (p q : ℕ) (b : Body) (w : Pool)
    → q ≢ p
    → ((run_body p b w).fibers q ≡ w.fibers q)
      × (queued q (run_body p b w).sched.tasks ≡ queued q w.sched.tasks)
unfolding run_body
run_body-others p q returns w ne = (ground arith, refl)
run_body-others p q (yields b) w ne = (ground arith, refl)
run_body-others p q (schedules_self b) w ne =
    let rest = run_body-others p q b (schedule_fiber p w) ne in
    (
      rest.0 ∙ unfold schedule_fiber in ground arith,
      rest.1 ∙ ground (arith, schedule_fiber-queued p q w),
    )
run_body-others p q (schedules f thread b) w ne =
    let rest = run_body-others p q b (schedule_callback f thread w) ne in
    (rest.0 ∙ unfold schedule_callback in refl, rest.1 ∙ schedule_callback-queued q f thread w)

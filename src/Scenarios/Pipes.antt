-- ===== src/Scenarios/Pipes.antt =====
-- The pipe of synergy/iomanager.cc, with two workers.
use synergy_lib.Prelude.{
  true, false, ◌≡◌, subst, ℕ, refl, update, ◌≤◌, some, ◌+◌, none, ◌/◌, arith, ◌⊎◌,
}
use synergy_lib.Scenarios.Epolls.{epoll}
use synergy_lib.Scenarios.Io.{scheduler, manager, both_ways}
use synergy_lib.Scheduler.{has_idle_threads}
use synergy_lib.IoManager.{IoManager, tickle}
use synergy_lib.IoManager.Wakeup.{
  Wakeup, new_pipe, tickle_pipe, Reach, begins, goes_on, tickles, works, is_woken, Turns,
  no_wakeup_lost, drain,
}

-- A worker is idle, and is woken by a tickle; another tickle comes before it has read.
abbrev idle_manager : IoManager epoll.Kernel
idle_manager = record (manager both_ways) { sched = record scheduler { idle_thread_count = 1 } }

abbrev tickled_once : Wakeup
tickled_once = record { bytes = 1; is_ready = true; drains = λ _. false }

abbrev woken : Wakeup
woken = record { bytes = 1; is_ready = false; drains = update (λ _. false) 0 true }

abbrev tickled_twice : Wakeup
tickled_twice = record { bytes = 2; is_ready = true; drains = update (λ _. false) 0 true }

writes_a_byte : tickle_pipe idle_manager new_pipe ≡ tickled_once
unfolding tickle_pipe tickle has_idle_threads
writes_a_byte = refl

writes_another : tickle_pipe idle_manager woken ≡ tickled_twice
unfolding tickle_pipe tickle has_idle_threads
writes_another = refl

tickled_twice-Reach : Reach tickled_twice
tickled_twice-Reach = subst Reach writes_another (
    goes_on
      (goes_on (subst Reach writes_a_byte (goes_on begins (tickles idle_manager)))
        (works 0 (is_woken refl refl)))
      (tickles idle_manager))

no_wakeup_lost_example :
    (j n : ℕ) × (u : Wakeup) × ((j ≡ 1) ⊎ (tickled_twice.drains j ≡ true))
    × Turns j tickled_twice n u
    × (u.bytes ≡ 0)
    × (u.drains j ≡ false)
    × (n ≤ (tickled_twice.bytes + 255) / 256 + 2)
no_wakeup_lost_example = no_wakeup_lost 1 tickled_twice-Reach refl (omega arith)

-- 600 bytes take three reads, and one more that finds none.
drains_600 : (drain 4 600 ≡ some 0) × (drain 3 600 ≡ none)
unfolding drain
drains_600 = (refl, refl)

-- ===== src/IoManager/Loop.antt =====
-- The constructor, the destructor and the loop of idle() of IOManager (synergy/iomanager.cc).
use synergy_lib.Prelude.{List, if◌then◌else◌, ℕ, Option, [], ◌∷◌, some, none}
use synergy_lib.IoManager.{Report, Epoll, FdOps, IoManager, stopping, ctl_add, only, read}
use synergy_lib.IoManager.Ops.{handle_report}
use synergy_lib.Scheduler.{Scheduler}

module _ (e : Epoll) (f : FdOps) where
  -- What epoll_wait gives to one round of IOManager::idle: nothing, because of a signal or of
  -- another error, or reports, where `none` is the pipe of tickle(), which is only drained.
  pub data Wait : Type 0 where
    interrupted : Wait
    wait_failed : Wait
    reports : List (Option (ℕ × Report)) → Wait

  unfoldable pub handle_all : List (Option (ℕ × Report)) → IoManager e.Kernel → IoManager e.Kernel
  unfolding handle_report
  handle_all [] m = m
  handle_all (none ∷ rs) m = handle_all rs m
  handle_all (some (i, r) ∷ rs) m = handle_all rs (handle_report e f r i m)

  -- How a round of IOManager::idle ends: with the next wait, with a yield, or out of the loop.
  pub data IdleRound : Type 0 where
    waits_again : IoManager e.Kernel → IdleRound
    yields : IoManager e.Kernel → IdleRound
    leaves : IoManager e.Kernel → IdleRound

  unfoldable pub idle_wait : Wait → IoManager e.Kernel → IdleRound
  unfolding handle_all
  idle_wait interrupted m = waits_again m
  idle_wait wait_failed m = leaves m
  idle_wait (reports rs) m = yields (handle_all rs m)

  -- One round of IOManager::idle.
  unfoldable pub idle_round : Wait → IoManager e.Kernel → IdleRound
  unfolding idle_wait
  idle_round w m = if stopping m then leaves m else idle_wait w m

  -- IOManager::IOManager from epoll_create on, with the kernel's state behind it, up to start().
  unfoldable pub new_io_manager : ℕ → e.Kernel → Scheduler → IoManager e.Kernel
  new_io_manager tickle_fd k sched = record {
    kernel = (e.ctl ctl_add tickle_fd (only read) k).0;
    contexts = [];
    pending_event_count = 0;
    sched = sched;
  }

  -- What IOManager::idle does from a resume to its yield() or its end, when its calls of epoll_wait give
  -- `ws`; `none` if it is then in the next call.
  unfoldable pub idle_turn : List Wait → IoManager e.Kernel → Option IdleRound
  unfolding idle_round
  idle_turn [] m = if stopping m then some (leaves m) else none
  idle_turn (w ∷ ws) m = elim (idle_round w m) [
    | waits_again m' ↦ idle_turn ws m'
    | yields m' ↦ some (yields m')
    | leaves m' ↦ some (leaves m')
  ]

  -- IOManager::~IOManager behind its call of stop(), and the descriptors that it closes: epoll's and the
  -- two of the pipe.
  unfoldable pub delete_manager : ℕ → ℕ → ℕ → IoManager e.Kernel → IoManager e.Kernel × List ℕ
  delete_manager epfd read_end write_end m =
      (record m { contexts = [] }, epfd ∷ read_end ∷ write_end ∷ [])

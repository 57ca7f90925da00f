-- ===== src/Scenarios/Io.antt =====
-- A manager of synergy/iomanager.cc whose descriptors wait for events.
use synergy_lib.Prelude.{
  inr, ℕ, refl, arith, ◌≡◌, none, some, ◌∷◌, false, true, update, [], Option, get_elem?, zero, suc,
  set, ◌∙◌, sym,
}
use synergy_lib.Scheduler.{Scheduler}
use synergy_lib.Prelude.Int.{negsuc}
use synergy_lib.Prelude.Total.{total}
use synergy_lib.IoManager.Ops.{
  cancel_all, handle_report, add_event, find_table, cancel_event, del_event,
}
use synergy_lib.IoManager.Loop.{Wait, reports, new_io_manager}
use synergy_lib.IoManager.Idle.{Asked, AllAsked}
use synergy_lib.IoManager.Invariant.{Inv, entry, size, events_at}
use synergy_lib.IoManager.CancelAll.{Cancels, cancel_all-Cancels}
use synergy_lib.IoManager.Stale.{late_report_breaks_count}
use synergy_lib.IoManager.Loop.{idle_turn, interrupted}
use synergy_lib.IoManager.Idle.{idle_turn_lem}
use synergy_lib.Prelude.Int.{pos}
use synergy_lib.IoManager.Ops.{add_to, enlarge_table}
use synergy_lib.Scenarios.Epolls.{blank}
use synergy_lib.IoManager.Reach.{enlarges, io_manager_stays-Inv, here, next, adds, cancels}
use synergy_lib.IoManager.Adding.{add_event-Returns, IsFree, Returns}
use synergy_lib.IoManager.{
  decrement, inter, read, Events, only, minus, FdContext, IoManager, Report, union, ok,
}
use synergy_lib.Scenarios.Epolls.{epoll, unset, blank, fresh, methods}

abbrev pub scheduler : Scheduler
scheduler = record {
  tasks = [];
  threads = [];
  thread_count = 1;
  thread_ids = [];
  active_thread_count = 0;
  idle_thread_count = 0;
  use_caller = false;
  root_piber = none;
  root_thread = negsuc 0;
  stopping = false;
}

-- Descriptor 1 waits for the events `a`, with a callback for both.
abbrev watched_context : Events → FdContext
watched_context a = record {
  read_ctx = record { scheduler = some 9; piber = none; cb = some 1 };
  write_ctx = record { scheduler = some 9; piber = none; cb = some 2 };
  fd = 1;
  events = a;
}

abbrev no_interest : ℕ → Option Events
no_interest q = none

abbrev pub manager : Events → IoManager epoll.Kernel
manager a = record {
  kernel = update no_interest 1 (entry a);
  contexts = blank 0 ∷ watched_context a ∷ [];
  pending_event_count = size a;
  sched = scheduler;
}

manager-own :
    (a : Events) (i : ℕ) (c : FdContext) → get_elem? (manager a).contexts i ≡ some c → c.fd ≡ i
manager-own a zero c h = ground (arith, h)
manager-own a (suc zero) c h = ground (arith, h)
manager-own a (suc (suc i)) c h = cc

manager-watched :
    (a : Events) (i : ℕ) → (manager a).kernel i ≡ entry (events_at (manager a).contexts i)
manager-watched a zero = refl
manager-watched a (suc zero) = refl
manager-watched a (suc (suc i)) = ground arith

manager-Inv : (a : Events) → Inv epoll 5 (manager a)
unfolding total
manager-Inv a = record {
  own = manager-own a;
  watched = λ i ne. manager-watched a i;
  counted = omega arith;
  small = omega arith;
}

abbrev hang_up : Report
hang_up = record { epollin = false; epollout = true; epollerr = false; epollhup = true }

abbrev pub both_ways : Events
both_ways = record { has_read = true; has_write = true }

cancel_all-Cancels_example :
    Cancels epoll methods 5 1 (cancel_all epoll methods 1 (manager both_ways))
cancel_all-Cancels_example =
    cancel_all-Cancels epoll methods 5 1 (manager both_ways) (manager-Inv both_ways)

abbrev two_way_report : Report
two_way_report = record { epollin = true; epollout = true; epollerr = false; epollhup = false }

late_report_breaks_count_example :
    let m' =
      handle_report epoll methods two_way_report 1
        (del_event epoll methods 1 read (manager both_ways)).0 in
    (m'.pending_event_count ≡ decrement (decrement (decrement 2))) × ¬ Inv epoll 5 m'
unfolding minus del_event inter
late_report_breaks_count_example =
    late_report_breaks_count epoll methods 1 (manager both_ways) (watched_context both_ways) 5
      two_way_report (manager-Inv both_ways) refl refl refl refl refl refl

manager-IsFree :
    IsFree epoll methods 7 read (find_table epoll methods 7 (manager (only read)).contexts)
unfolding find_table inter
manager-IsFree c h = ground (arith, h)

add_event-Returns_example :
    Returns epoll methods 5 (add_event epoll methods (pos 7) read none 9 4 (manager (only read)))
add_event-Returns_example =
    add_event-Returns epoll methods 5 7 read none 9 4 (manager (only read))
      (manager-Inv (only read)) (omega arith) (inr (omega arith)) manager-IsFree

abbrev one_round : Wait epoll methods
one_round = reports (none ∷ some (1, hang_up) ∷ [])

one_round-Asked : Asked epoll methods one_round (manager both_ways)
unfolding Asked AllAsked
one_round-Asked = (record { input = λ h. absurd cc; output = λ h. refl }, _)

abbrev fresh_manager : IoManager epoll.Kernel
fresh_manager = new_io_manager epoll methods 5 no_interest scheduler

abbrev enlarged : IoManager epoll.Kernel
enlarged = record fresh_manager { contexts = enlarge_table epoll methods 7 fresh_manager.contexts }

fresh-IsFree : IsFree epoll methods 7 read enlarged.contexts
unfolding enlarge_table inter new_io_manager
fresh-IsFree c h = ground (arith, h)

abbrev waiting_on_7 : IoManager epoll.Kernel
waiting_on_7 = record {
  kernel = update fresh_manager.kernel 7 (some (only read));
  contexts = set (fresh 10 0) 7 (record {
    read_ctx = record { scheduler = some 9; piber = some 4; cb = none };
    write_ctx = unset;
    fd = 7;
    events = only read;
  });
  pending_event_count = 1;
  sched = scheduler;
}

context_7 : get_elem? enlarged.contexts 7 ≡ some (blank 7)
unfolding enlarge_table new_io_manager
context_7 = refl

adds_on_7 : add_to epoll methods 7 read none 9 4 enlarged (blank 7) ≡ ok (waiting_on_7, true)
unfolding add_to union inter new_io_manager enlarge_table
adds_on_7 = refl

-- The two sections of addEvent, one behind the other.
add_event_on_7 :
    add_event epoll methods (pos 7) read none 9 4 fresh_manager ≡ ok (waiting_on_7, true)
unfolding add_event union inter new_io_manager
add_event_on_7 = refl

io_manager_stays-Inv_example : Inv epoll 5 (cancel_event epoll methods 7 read waiting_on_7).0
io_manager_stays-Inv_example =
    io_manager_stays-Inv epoll methods 5 no_interest scheduler (λ q. refl)
      (next
        (next (next here (enlarges 7 (omega arith) (unfold new_io_manager in omega arith)))
          (adds 7 read none 9 4 (blank 7) waiting_on_7 true context_7 fresh-IsFree adds_on_7))
        (cancels 7 read))

-- Two signals, and then the reports.
signals_do_not_matter :
    idle_turn epoll methods (interrupted ∷ interrupted ∷ one_round ∷ []) (manager both_ways)
    ≡ idle_turn epoll methods (one_round ∷ []) (manager both_ways)
signals_do_not_matter =
    idle_turn_lem epoll methods (interrupted ∷ interrupted ∷ one_round ∷ []) (manager both_ways)
    ∙ sym (idle_turn_lem epoll methods (one_round ∷ []) (manager both_ways))

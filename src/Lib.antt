-- ===== src/Lib.antt =====
-- SynergyLib, a library of coroutines in C++: a scheduler that runs coroutines and callbacks on a
-- pool of threads (synergy/Scheduler.cc), timers (common/Timer.cc), an epoll loop that is meant to
-- join the two (synergy/iomanager.cc), the coroutines themselves (synergy/Piber.cc), and locks and
-- threads over pthread (common/mutex.h, common/thread.cc).
--
-- The parts and how they interact. A worker thread of the Scheduler takes tasks from a common queue,
-- resumes the coroutine of a task or wraps its callback in one, and resumes its idle coroutine when
-- it finds none; an IOManager is a Scheduler and a TimerManager, whose idle coroutine waits in epoll
-- and triggers the events of its descriptors, which schedules their coroutines or callbacks.
--
-- Which file models which part:
--   Timer          common/Timer.cc, common/Timer.h. The timers of a manager are objects at
--                  addresses, a map from numbers to Timer; the std::set is a list in the order of
--                  Timer::Comparator (TimerSet), over the due times of the map. Each method of
--                  Timer and TimerManager is a function on TimerManager, and the clock's reading is
--                  its argument: addTimer is add_timer, OnTimer is invoke, getNextTimer is
--                  get_next_timer, listExpiredCb is list_expired_cb. Children: Invariant (the set's
--                  order and the callbacks), Expiry, Firing and Expired (listExpiredCb), Reach
--                  (sequences of calls), Abstract (the manager as a table of timers),
--                  Deadline and Least (the time to wait), Clock (wrap-around), Sparing
--                  and Lifetime (one timer among others), Recurring (a timer that is fired again and
--                  again). listExpiredCb itself is in Listing.
--   Scheduler      synergy/Scheduler.cc, synergy/Scheduler.h. The record Scheduler has the fields
--                  of the class. A worker is cut into steps where control leaves run(): run_round
--                  from the top of the loop to a resume, task_returns and idle_returns behind it.
--                  Children: Queue (the search for a task), Workers (all threads, as interleaved
--                  steps), Counters, Shutdown, Conservation, Setup (constructor and start), Foreign, Drain (the loop to its end), Locals (the
--                  thread-local pointers).
--   Dispatch       Scheduler::run with Piber::resume and Piber::yield on several threads, cut at
--                  each write that another thread can see: a coroutine is taken from the queue,
--                  marked RUNING, marked READY and saved in steps of their own. Children: Exclusive,
--                  Race.
--   Task           the loop of Scheduler::run on one thread with its coroutines, where a callback is
--                  a Body: what it schedules and where it yields; and the use counts of Piber::ptr.
--                  A callback is run by run_body to its next switch, a task by run_task, and the
--                  loop by serve. Children: Programs (testcase/PiberTest.cc, SchedulerTest.cc), Alone
--                  (one coroutine), Handles (the use counts), Costs (the rounds that tasks bring
--                  about), Frames, Outcomes (where callbacks stop), Rounds, Taking, Passes, Serving
--                  and Endings (the loop to its end). Switches runs the same callbacks on the objects of
--                  Piber (Objects), where each place behind a yield() has a number, and Loop the loop.
--                  Contexts follows one coroutine from a resume to its switch back, Standing says
--                  when a pool stands for the objects; Refines (actions), Owned (the pointers of the
--                  loop), OnObjects (one task), Together (the loop) and Served (to its end) relate them.
--   Piber          synergy/Piber.cc, synergy/Piber.h: resume, yield, reset, the end of MainFunc, the
--                  constructors and GetThis, on the objects and the thread-local pointers of one
--                  thread. A context is the place where control continues. Children: Switching,
--                  Life, Current (which coroutine runs).
--   IoManager      synergy/iomanager.cc, synergy/iomanager.h: addEvent, delEvent, cancelEvent,
--                  cancelAll and stopping, in Ops; the constructor, the destructor and the loop of
--                  idle, in Loop. Invariant says how the table of contexts, epoll's interest list and
--                  m_pendingEventCount belong together, and Reach takes all calls together, from the
--                  constructor on, with addEvent cut between its resize of the table and the rest. Wakeup has tickle and the pipe, on several threads.
--   Lock           common/mutex.h: the scoped guards, one by one in Guards; Mutex and RWMutex, as the
--                  calls of pthread that they make, in Classes and Lives; and the guards of several
--                  threads, each with any number of them, in Sharing and Exclusion, with pthread's
--                  read-write lock as a parameter.
--   Thread         common/thread.cc and the Semaphore of common/mutex.cc: Handshake has the
--                  constructor against Thread::run in the new thread, Joining has join and the
--                  destructor, Threads the main function of testcase/PiberTest.cc.
--   Util           common/util.cc: ids, clocks, and integers in the order of the network.
--   Prelude        shared names and lemmas: Tests (Boolean tests), Lists, Int (thread ids), Total
--                  (sums over threads or descriptors), Table (writes to a vector).
--   Scenarios      concrete runs.
--
-- How the code is read. What a lock protects is one step, so that the threads of the program are the
-- interleavings of these steps. Addresses, coroutines and callbacks are numbers. The unsigned 64-bit
-- members keep their wrap-around. The loops of the code run over lists, but for two that take
-- fuel. For Scheduler::run, in Scheduler.Drain two rounds more than there are tasks are enough, and
-- needed; in Task.Endings two more than the rounds that the tasks bring about. For the reads of the
-- pipe, in IoManager.Wakeup one for each 256 bytes that are begun and one more.
-- Bounds: the theorems on the counters take fewer than 2^64 workers, and those on m_pendingEventCount
-- a table of fewer than 2^31 contexts, the sizes that an int can hold, as addEvent converts them; from
-- descriptors below 2^30 no larger one comes about. Of the calls on descriptors only addEvent is
-- modelled for a negative one.
--
-- What other code does is a parameter: epoll_ctl is the record Epoll, with what its manual documents;
-- the methods of FdContext and contextResize, which have no body in this repository, are the record
-- FdOps, with what their comments and callers say of them (of contextResize(n), which has none, that it
-- makes a table of n contexts, keeps those that there are, and has new ones that wait for nothing); pthread's read-write lock is the record
-- RwLock, with what POSIX says of calls that succeed.
--
-- Not modelled: what a coroutine does besides scheduling and yielding; failures of pthread's calls,
-- which the classes of common/mutex.h ignore; names of schedulers; synergy/hook.cc, a copy of another
-- library's module that nothing else uses; and sleep() and the output of the programs under testcase.
pub mod Prelude
pub mod TimerSet
pub mod Timer
pub mod Piber
pub mod Scheduler
pub mod Dispatch
pub mod Task
pub mod IoManager
pub mod Lock
pub mod Thread
pub mod Util
pub mod Scenarios

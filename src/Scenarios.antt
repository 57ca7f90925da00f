-- ===== src/Scenarios.antt =====
-- Concrete runs of the timers (common/Timer.cc), of the scheduler (synergy/Scheduler.cc), of the
-- IOManager (synergy/iomanager.cc), of the guards (common/mutex.h), of the coroutines
-- (synergy/Piber.cc) and of the threads (common/thread.cc).
mod Timers
mod Intervals
mod Workers
mod Epolls
mod Io
mod Pipes
mod Locks
mod Pibers
mod Dispatches
mod Threads
mod Joins
mod Contexts
mod Tasks

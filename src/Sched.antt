-- ===== src/Sched.antt =====
-- Threads, their queues, and mutexes: kernel/proc/sched.c and kernel/proc/kmutex.c.
pub mod Queue
pub mod Ops
pub mod Mutex
pub mod Invariant
pub mod MutexLaws
mod Tests

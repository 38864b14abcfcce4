-- ===== src/Threads.antt =====
-- threads/: lists, the scheduler and the synchronization primitives. A thread is a number, its
-- address. The operations run with interrupts off, so each is one step up to its `Sleep`.
pub mod Chain
pub mod Scheduler
pub mod Switch
pub mod Semaphore
pub mod Lock
pub mod Condition
pub mod SynchList

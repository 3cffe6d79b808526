-- ===== src/Threads.antt =====
-- threads: the job queue of threads/rwlock.c and the shared objects of threads/mutex2.c and mutex3.c.
pub mod Rwlock
pub mod Refs
pub mod Getenv

-- ===== src/Ksync.antt =====
-- ksync/src: the spin lock and the read-write lock, as transitions of what the lock holds and who holds a
-- guard. One step of a thread is one atomic access of the source.
mod Tests
pub mod RwLock
pub mod SpinLock

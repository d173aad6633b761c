-- ===== src/Upcall.antt =====
-- libupcall: the per-worker queue of events, the buffer pool, the event loop, the statistics.
pub mod Event
pub mod Worker
pub mod Queue
pub mod Pool
pub mod Stats
pub mod Loop
pub mod Init
pub mod Barrier
pub mod Monitor
pub mod Tests

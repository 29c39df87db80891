-- ===== src/ThreadQueue.antt =====
-- The queue of requests to a thread of src/cfuthread_queue.c.
pub mod System
pub mod Holds
pub mod Invariant
pub mod Safety
pub mod Progress
pub mod Rank
pub mod Liveness
pub mod Spurious
pub mod Order
mod Tests

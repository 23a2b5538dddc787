-- ===== src/Queue.antt =====
-- pkg/utils/queue/queue.go, a delayed work queue that is shared by several workers.
pub mod Items
pub mod Ops
pub mod Order
pub mod Counts
pub mod View
pub mod Refine
pub mod Take
pub mod Drained
pub mod Concluded
pub mod Released
pub mod Conclude
pub mod Runs
pub mod Entries
pub mod Safety
pub mod Length
mod Tests

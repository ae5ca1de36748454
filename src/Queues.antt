-- ===== src/Queues.antt =====
-- The queues of parallel workers:
-- cumulusci/utils/parallel/task_worker_queues/parallel_worker_queue.py.
pub mod Listing
pub mod Steps
pub mod Workers
pub mod Capacity
pub mod Conserved
pub mod Drained
mod Tests

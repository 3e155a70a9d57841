-- ===== src/Queue.antt =====
-- `QueueManager` of app/queue_manager.py: every operation goes to Redis while the manager holds a
-- client, and to the in-memory state otherwise or when the call raises.
pub mod Connection
pub mod Jobs
pub mod State
pub mod Workers
pub mod Logs
pub mod Counters
pub mod Reads
pub mod Delivery

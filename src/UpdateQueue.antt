-- ===== src/UpdateQueue.antt =====
-- rightmemory/update_queue.py: the records of the update queue, their wire format and their stores.
pub mod Formats
pub mod Records
pub mod Codec
pub mod Disk
pub mod Store
pub mod Batch
pub mod Inspect
pub mod Outbox
pub mod Entry

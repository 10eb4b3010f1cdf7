-- ===== src/Threaded.antt =====
-- crates/rts-threaded: the pipeline on OS threads.
pub mod Ingest
pub mod Parser
pub mod Heap
pub mod PriorityQueue
pub mod Worker
pub mod System
pub mod Pipeline

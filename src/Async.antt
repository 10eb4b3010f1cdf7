-- ===== src/Async.antt =====
-- crates/rts-async: the pipeline on Tokio.
pub mod Ingest
pub mod Parser
pub mod Scheduler
pub mod System
pub mod Pool

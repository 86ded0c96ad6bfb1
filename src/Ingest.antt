-- ===== src/Ingest.antt =====
-- Uploads that can be resumed (src/server/ingest/service.ts): a session is created, receives the bytes of
-- a file in chunks, and is finalised when all are there.
pub mod Disk
pub mod Failures
pub mod Service
pub mod Sessions
pub mod Chunks
pub mod Finalize
pub mod Upload
pub mod Handover
pub mod Warning

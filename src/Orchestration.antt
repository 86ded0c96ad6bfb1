-- ===== src/Orchestration.antt =====
-- Transcription (src/server/orchestration): the references between recordings, sessions and jobs, the
-- engines, their callbacks, the dispatch to an external one, and the queue of the internal workers.
pub mod Normalize
pub mod Transcripts
pub mod Engines
pub mod Config
pub mod Sync
pub mod Webhook
pub mod Request
pub mod Dispatch
pub mod Queue

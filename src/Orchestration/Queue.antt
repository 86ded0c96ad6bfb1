-- ===== src/Orchestration/Queue.antt =====
-- The jobs that internal workers claim, report on and end (src/server/orchestration/internal-queue.ts).
pub mod Jobs
pub mod Claim
pub mod Reports
pub mod Selection
pub mod Exclusion
pub mod Ownership
pub mod Lifecycle
pub mod Completion

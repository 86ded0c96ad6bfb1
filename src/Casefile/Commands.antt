-- ===== src/Casefile/Commands.antt =====
-- The governed commands on a casefile (src/server/casefile/commands.ts): here what they share, and
-- in the modules below the commands and what they guarantee.
pub mod State
pub mod Load
pub mod Authority
pub mod Rows
pub mod Phases
pub mod Drafts
pub mod Decisions
pub mod Refinement

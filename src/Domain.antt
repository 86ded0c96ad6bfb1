-- ===== src/Domain.antt =====
-- The pure domain rules: the data (src/domain/models.ts), the errors of the casefile commands
-- (src/server/casefile/errors.ts), and the rules on policy, stages and speakers.
pub mod Models
pub mod Errors
pub mod Policy
pub mod Stage
pub mod Speakers

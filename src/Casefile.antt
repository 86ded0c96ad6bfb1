-- ===== src/Casefile.antt =====
-- The governed casefile (src/server/casefile, src/server/access): what an account may do with a
-- recording's transcript, and the commands that do it.
pub mod Capabilities
pub mod Store
pub mod Access
pub mod ActionMode
pub mod Edits
pub mod Commands

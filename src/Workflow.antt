-- ===== src/Workflow.antt =====
-- The steps of a recording on its way to a draft (src/domain/workflow.ts), on the whole state of the
-- application, and how that state is read and written (src/server/store.ts).
pub mod State
pub mod Create
pub mod Uploads
pub mod Store

-- ===== src/Ingest/Warning.antt =====
-- The warning of a failed dispatch, in a later status of the upload.
use superscriber.Prelude.{text_equal}
use superscriber.Casefile.Store.{recording_keyed}
use superscriber.Workflow.State.{session_keyed}
use superscriber.Ingest.Disk.{Disk}

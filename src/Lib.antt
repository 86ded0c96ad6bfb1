-- ===== src/Lib.antt =====
-- Superscriber's governed casefile, the ingest of recordings, the transcription of them, and the domain
-- rules that these rest on.
--
-- A recording is uploaded in chunks (Ingest). Its transcript job waits in a queue from which workers
-- claim it, or is moved on by an engine (Orchestration). Both change one state of the application, which
-- is read, changed and written back as a whole (Workflow). The completed job makes the first draft of the
-- transcript, and from then on the recording is a casefile.
--
-- A casefile is a recording with its transcript revisions. Accounts work on it by seven commands:
-- save a draft, rename a speaker, submit, withdraw, request changes, approve and reopen. A command
-- loads the recording, resolves who acts (the account's own role, or an administrator's action mode),
-- asks for the capability, checks that the revision is still the one that the caller saw, and writes
-- revisions, pointers, a decision and an audit event in one transaction.
--
-- The parts, with the code that each models:
--   Domain/Models      the types of src/domain/models.ts that the casefile uses
--   Domain/Errors      src/server/casefile/errors.ts, errors as values, and src/lib/command-result.ts
--   Domain/Policy      src/domain/policy.ts
--   Domain/Stage       src/domain/casefile.ts, and bucketRecording of src/domain/workflow.ts
--   Domain/Speakers    src/domain/speakers.ts
--   Workflow/State     AppState and its types of src/domain/models.ts, and the events that it logs
--   Workflow/Create    the functions of src/domain/workflow.ts that make recordings, sessions, jobs and
--                      drafts
--   Workflow/Uploads   those that change the session of an upload
--   Workflow/Store     writeState and withState of src/server/store.ts
--   Orchestration/Normalize  normalizeState and resolveRecordingRefs of
--                      src/server/orchestration/service.ts
--   Orchestration/Transcripts  src/domain/mock-transcript.ts
--   Orchestration/Engines    mock-engine.ts and adapters.ts
--   Orchestration/Config     the settings of config.ts, secret.ts and request-auth.ts
--   Orchestration/Request    the request that dispatch.ts sends to an external engine
--   Orchestration/Dispatch   the rest of dispatch.ts, dispatch-warning.ts, and
--                      noteRecordingDispatchFailure of src/server/repository.ts
--   Orchestration/Sync       synchronizeOrchestration and noteOrchestrationDispatchFailure
--   Orchestration/Webhook    applyOrchestrationWebhookUpdate
--   Orchestration/Queue      src/server/orchestration/internal-queue.ts: Jobs what its operations share,
--                      Claim the claim of a job, Reports the heartbeat, the completion and the failure;
--                      Lifecycle is the abstract view of a job, with the steps that it may take
--   Ingest/Disk        the files that src/server/ingest/service.ts keeps
--   Ingest/Service     its helpers and the expiry of uploads
--   Ingest/Sessions    createResumableUploadSession and getResumableUploadSession
--   Ingest/Chunks      appendUploadChunk
--   Ingest/Finalize    finalizeResumableUploadSession
--   Ingest/Failures    describeIngestFailure and authExpiredIngestFailure
--   Ingest/Upload      a whole upload, from these; Handover is what it leaves to the queue, and Warning
--                      what a failed dispatch leaves to its status
--   Casefile/Store     the tables of src/server/db/schema.ts as lists of rows (Db), the actions on
--                      them (Exec), runGovernedTransaction of src/server/db/transaction.ts, and
--                      src/server/casefile/audit.ts (Audit); Ensures is the program logic of the proofs
--   Casefile/Access    resolveCasefileAccess, canAccessRecording and
--                      completeActiveAssignmentsForApproval of src/server/access/service.ts; Assign has
--                      assignRecordingToUser and removeRecordingAssignment, Visible
--                      visibleRecordingIdsForPrincipal, Listings listAssignments and
--                      assignmentMapByRecordingId, and Accounts listLocalUsers and listAssignableUsers
--   Casefile/Capabilities  src/server/casefile/capabilities.ts
--   Casefile/ActionMode    src/server/casefile/action-mode.ts: Enter has enterActionMode and
--                      exitActionMode, View resolveActionMode, and the parent
--                      resolveActorContext
--   Casefile/Edits     applySegmentEdits and assertCompleteSegments of src/server/casefile/commands.ts
--   Casefile/Commands  the rest of that file: State and Load what a command reads and checks,
--                      Authority the capability that it asks for, Rows what it writes, Drafts and
--                      Decisions the commands; Phases is the abstract view of a casefile, and
--                      Refinement relates the commands to it
--   Examples           a concrete casefile, queue and upload, on which the operations are run
--
-- The state of a casefile command is a World: the database, and the ids that crypto.randomUUID will give,
-- in order. An operation is a function from a World to a result and a World. A transaction that fails takes
-- back what was written, a nested one as a savepoint. The application's state has its own ids to come, and
-- an operation on it is a function from the state to a result that has the new state; withState
-- is given what other processes write between a read and a write. The files of an upload are a state
-- beside it, since what was done to a file stays when the operation fails afterwards. Calls of several
-- processes are sequences of calls. The time of an operation is an argument, read once.
--
-- Texts are lists of UTF-16 units. Times are natural numbers, and confidences are hundredths.
-- Tables keep the order of insertion, and a query takes the first row that fits; a query ordered by a
-- column takes the first row with the largest value, or the smallest. The unique indexes and primary keys
-- that the operations can meet are checked where rows are inserted; foreign keys and the triggers of the
-- migrations are not modelled. A percentage is the exact quotient of natural numbers, rounded the way the
-- source rounds its floating one, from which it may differ by one where that is not exact.
-- The retries of withState are fuel, as many as MAX_WRITE_RETRIES, and running out is the error that the
-- code throws. No other loop of the modelled code needs fuel but the printing of an index, which has as
-- much as the index.
--
-- Arguments stand for SHA-256, for the answer of an external engine and for the bytes that are drawn for
-- its secret. A number in the settings is read exactly, however many digits it has. Names are ordered by
-- their units.
--
-- Not modelled: the words of casefile messages, the state of the demonstration and readSynchronizedState
-- in src/server/store.ts, the views of a page (read-model.ts and the rest of src/server/repository.ts),
-- authentication, administration, the work inbox, the models, and the web application.
pub mod Prelude
pub mod Domain
pub mod Casefile
pub mod Workflow
pub mod Orchestration
pub mod Ingest
pub mod Examples

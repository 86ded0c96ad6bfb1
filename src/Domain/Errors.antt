-- ===== src/Domain/Errors.antt =====
-- Errors of the casefile commands (src/server/casefile/errors.ts) as values, and what a form is told of
-- them (src/lib/command-result.ts). A message's words are
-- left out: an error keeps its code, the field it points at, and the snapshot of a conflict.
use superscriber.Prelude.{Text, Option, none, some, Bool, true, false, ℕ, ◌≡◌, refl}

pub data ErrorCode : Type 0 where
  validation_error action_mode_required action_mode_expired action_mode_forbidden : ErrorCode
  action_mode_ended not_found access_denied stale_revision state_changed : ErrorCode
  self_approval_forbidden : ErrorCode

-- The stages of src/domain/casefile.ts.
pub data CasefileWorkflowStage : Type 0 where
  needs_ingest_attention verifying transcribing pending_approval approved : CasefileWorkflowStage
  changes_requested reopened draft_review : CasefileWorkflowStage

pub record CasefileConflictSnapshot : Type 0 where
  pub recording_id : Text
  pub loaded_revision_id : Text
  pub current_revision_id : Option Text
  pub pending_revision_id : Option Text
  pub approved_revision_id : Option Text
  pub updated_at : ℕ
  pub winning_stage : CasefileWorkflowStage

pub record CasefileCommandError : Type 0 where
  pub code : ErrorCode
  pub field : Option Text
  pub latest : Option CasefileConflictSnapshot

-- What the source throws: a command error, an `IngestError` of src/server/ingest/service.ts, an
-- `Error` with a message, or the database's refusal of a row that breaks a unique index.
pub data Failure : Type 0 where
  command_error : CasefileCommandError → Failure
  recording_not_valid assignment_not_found no_active_user role_not_assignable : Failure
  state_version_missing no_database_bundle unique_constraint : Failure
  ingest_error : ErrorCode → Option Text → Failure
  recording_not_found job_not_found upload_session_not_found orchestration_incomplete : Failure
  not_claimed_by_worker bad_heartbeat_state state_conflict : Failure

pub data Result {ℓ} (A : Type ℓ) : Type ℓ where
  ok : A → Result A
  err : Failure → Result A

-- A step that throws ends the function: what follows runs on the value of a step that does not.
module _ {ℓ κ} {A : Type ℓ} {B : Type κ} where
  infixl 5 ◌>>=◌
  abbrev pub ◌>>=◌ : Result A → (A → Result B) → Result B
  ◌>>=◌ (err thrown) following = err thrown
  ◌>>=◌ (ok value) following = following value

module _ {κ} {B : Type κ} where
  infixl 5 ◌>>◌
  abbrev pub ◌>>◌ : Result (Unit {0}) → Result B → Result B
  ◌>>◌ check following = check >>= λ done. following

abbrev pub failure : ErrorCode → Failure
failure c = command_error (record { code = c; field = none; latest = none })

abbrev pub field_failure : Text → Failure
field_failure f = command_error (record { code = validation_error; field = some f; latest = none })

-- `if (b) throw e`.
abbrev pub throw_if : Bool → Failure → Result (Unit {0})
throw_if true e = err e
throw_if false e = ok tt

abbrev pub or_throw {ℓ} : {A : Type ℓ} → Option A → Failure → Result A
or_throw none e = err e
or_throw (some a) e = ok a

module _ {ℓ κ} {A : Type ℓ} {B : Type κ} {then_do : A → Result B} {value : B} where
  -- The value of a chain that succeeds comes from one of its first part.
  pub chain_ok :
      (r : Result A)
      → r >>= then_do ≡ ok value
      → (first : A) × (r ≡ ok first) × (then_do first ≡ ok value)
  chain_ok (err failed) same = absurd (cc)
  chain_ok (ok first) same = (first, refl, same)

-- The value of a lookup that does not throw.
pub or_throw_ok {ℓ} :
    {A : Type ℓ} (o : Option A) (e : Failure) (a : A) → or_throw o e ≡ ok a → o ≡ some a
or_throw_ok none e a h = absurd (cc)
or_throw_ok (some b) e a h = cc

-- The codes that a response may have.
pub data ResponseCode : Type 0 where
  command_code : ErrorCode → ResponseCode
  auth_expired internal_error : ResponseCode

-- What a form is told of an error. An error of another kind is found by an id that is drawn for it.
pub record CommandResultError : Type 0 where
  pub code : ResponseCode
  pub field : Option Text
  pub latest : Option CasefileConflictSnapshot
  pub correlation_id : Option Text

unfoldable pub auth_expired_result : CommandResultError
auth_expired_result = record {
  code = auth_expired;
  field = none;
  latest = none;
  correlation_id = none;
}

unfoldable pub to_command_result_error : Failure → Text → CommandResultError
to_command_result_error (command_error e) drawn = record {
  code = command_code e.code;
  field = e.field;
  latest = e.latest;
  correlation_id = none;
}
to_command_result_error other drawn = record {
  code = internal_error;
  field = none;
  latest = none;
  correlation_id = some drawn;
}

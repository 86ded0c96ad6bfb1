-- ===== src/Examples/Dispatch.antt =====
-- A dispatch that an external engine refuses.
use superscriber.Prelude.{
  ◌⊎◌, Text, ℕ, Option, none, some, true, false, ◌≡◌, refl, List, [], ◌∷◌, units, text_equal,
}
use superscriber.Domain.Errors.{Result, ok, err}
use superscriber.Workflow.Store.{Persisted}
use superscriber.Orchestration.Config.{
  OrchestrationMode, Environment, require_orchestration_authorization,
}
use superscriber.Orchestration.Config.Laws.{settings, later_settings}
use superscriber.Orchestration.Request.Laws.{require_orchestration_authorization-request_of}
use superscriber.Orchestration.Dispatch.{
  Backend, thrown, refusal_words, note_recording_dispatch_failure,
  dispatch_recording_to_configured_engine,
}
use superscriber.Orchestration.Request.{request_of, refused_with, DispatchPayload}
use superscriber.Orchestration.Dispatch.Laws.{
  NotedTwice, dispatch_recording_to_configured_engine_refused,
}
use superscriber.Ingest.Disk.{Disk}
use superscriber.Ingest.Service.{SessionStatus, build_session_status}
use superscriber.Examples.Uploads.{empty_status}
use superscriber.Examples.Queue.{raw, verified_session, waiting_job, waiting_queue}
use superscriber.Examples.{workspace}

abbrev engine : Backend
engine = record {
  config = record {
    mode = OrchestrationMode.webhook;
    external_dispatch_url = some (units "http://e");
    app_base_url = some (units "http://a");
    shared_secret = units "s";
    dispatch_timeout_ms = 8000;
  };
  post = λ payload. refused_with 503 [];
  message_of = λ e. [];
}

abbrev payload : DispatchPayload
payload = record {
  recording = raw;
  workspace = workspace;
  session = verified_session;
  job = waiting_job;
}

abbrev noted_once : Persisted
unfolding note_recording_dispatch_failure
noted_once =
    (note_recording_dispatch_failure (units "rec") (refusal_words 503 []) 9 waiting_queue).1

abbrev noted_again : Persisted
unfolding note_recording_dispatch_failure noted_once
noted_again = (note_recording_dispatch_failure (units "rec") (refusal_words 503 []) 9 noted_once).1

first_run :
    note_recording_dispatch_failure (units "rec") (refusal_words 503 []) 9 waiting_queue
    ≡ (ok tt, noted_once)
unfolding note_recording_dispatch_failure superscriber.Prelude.Text-discrete
    superscriber.Orchestration.Normalize.normalize_state
first_run = refl

second_run :
    note_recording_dispatch_failure (units "rec") (refusal_words 503 []) 9 noted_once
    ≡ (ok tt, noted_again)
unfolding note_recording_dispatch_failure superscriber.Prelude.Text-discrete noted_once
    superscriber.Orchestration.Normalize.normalize_state
second_run = refl

dispatch_recording_to_configured_engine_refused_example :
    (dispatch_recording_to_configured_engine engine (units "rec") 9 waiting_queue
      ≡ (thrown (refusal_words 503 []), noted_again))
    × NotedTwice (units "rec") (refusal_words 503 []) waiting_queue noted_again
dispatch_recording_to_configured_engine_refused_example =
    dispatch_recording_to_configured_engine_refused engine (units "rec") 9 waiting_queue noted_once
      noted_again payload 503 [] refl refl refl (unfold superscriber.Prelude.Text-discrete in refl)
      refl first_run second_run

abbrev no_files : Disk
no_files = record { uploads = []; media = [] }

abbrev built_or : Result SessionStatus → SessionStatus
built_or (ok status) = status
built_or (err e) = empty_status

abbrev later_status : SessionStatus
unfolding build_session_status noted_once
later_status = built_or (build_session_status noted_once.app no_files (units "e1"))

abbrev environment : Environment
environment = record {
  engine_mode = some (units "webhook");
  engine_dispatch_url = some (units "http://e/");
  app_base_url = some (units "http://a");
  engine_shared_secret = none;
  engine_dispatch_timeout_ms = some (units "500");
}

abbrev header_sent : Option Text
unfolding request_of
header_sent = (request_of (settings environment (units "ab") none) payload).authorization

abbrev IsLetIn : Type 0
IsLetIn =
    require_orchestration_authorization (later_settings environment (units "ab") (units "cd") none)
      (some (units "Bearer ab"))
    ≡ none

require_orchestration_authorization-request_of_example :
    (IsLetIn → (header_sent ≡ none) ⊎ (some (units "Bearer ab") ≡ header_sent))
    × ((header_sent ≡ none) ⊎ (some (units "Bearer ab") ≡ header_sent) → IsLetIn)
unfolding header_sent request_of
require_orchestration_authorization-request_of_example =
    require_orchestration_authorization-request_of environment (units "ab") (units "cd") none
      payload (some (units "Bearer ab")) (unfold superscriber.Prelude.trim in refl)

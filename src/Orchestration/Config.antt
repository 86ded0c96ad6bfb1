-- ===== src/Orchestration/Config.antt =====
-- The settings of the orchestration (src/server/orchestration/config.ts), the secret that an external
-- engine shares with the application (secret.ts), and the test of a callback for it (request-auth.ts).
-- The secret file is a state, and the bytes that are drawn for a new secret are an argument.
pub mod Laws
use superscriber.Prelude.{
  Text, ℕ, ◌+◌, ◌-◌, ◌*◌, Option, none, some, Bool, List, [], ◌∷◌, ◌++◌, ◌===◌, ◌==◌, ◌&&◌, leb,
  text_equal, units, non_empty, trim, is, if◌then◌else◌,
}
use superscriber.Workflow.Create.{mock_engine_id}
use superscriber.Workflow.Uploads.{webhook_engine_id}
use superscriber.Orchestration.Queue.Jobs.{internal_worker_id}

pub data OrchestrationMode : Type 0 where
  mock internal webhook : OrchestrationMode

unfoldable pub normalize_mode : Option Text → OrchestrationMode
normalize_mode none = internal
normalize_mode (some raw) =
    if raw === units "mock" then mock else if raw === units "webhook" then webhook else internal

unfoldable pub configured_adapter_id : OrchestrationMode → Text
configured_adapter_id webhook = webhook_engine_id
configured_adapter_id mock = mock_engine_id
configured_adapter_id internal = internal_worker_id

-- The variables of the environment.
pub record Environment : Type 0 where
  pub engine_mode : Option Text
  pub engine_dispatch_url : Option Text
  pub app_base_url : Option Text
  pub engine_shared_secret : Option Text
  pub engine_dispatch_timeout_ms : Option Text

pub record OrchestrationConfig : Type 0 where
  pub mode : OrchestrationMode
  pub external_dispatch_url : Option Text
  pub app_base_url : Option Text
  pub shared_secret : Text
  pub dispatch_timeout_ms : ℕ

-- The bytes of the secret file, if it is there.
abbrev pub SecretFile : Type 0
SecretFile = Option Text

-- The file is read without the spaces around it, or made of the bytes that are drawn.
abbrev pub stored_secret : Text → SecretFile → Text × SecretFile
stored_secret drawn none = (drawn, some drawn)
stored_secret drawn (some content) = (trim content, some content)

unfoldable pub resolve_engine_shared_secret : Option Text → Text → SecretFile → Text × SecretFile
unfolding trim
resolve_engine_shared_secret none drawn file = stored_secret drawn file
resolve_engine_shared_secret (some from_env) drawn file =
    if non_empty from_env then (from_env, file) else stored_secret drawn file

-- Without the slash at the end.
unfoldable pub without_slash : Text → Text
without_slash [] = []
without_slash (c ∷ s) = let rest = without_slash s in if (c ∷ s) === units "/" then [] else c ∷ rest

abbrev pub normalize_url : Option Text → Option Text
normalize_url none = none
normalize_url (some raw) = if non_empty raw then some (without_slash raw) else none

abbrev pub is_digit : ℕ → Bool
is_digit c = leb 48 c && leb c 57

-- The digits in front, after those that were read.
unfoldable pub digits_after : ℕ → Text → ℕ
digits_after n [] = n
digits_after n (c ∷ s) =
    let rest = digits_after (n * 10 + (c - 48)) s in if is_digit c then rest else n

-- `Number.parseInt`, with 0 for a number below 0 and where there is none.
unfoldable pub parse_int : Text → ℕ
unfolding digits_after
parse_int [] = 0
parse_int (c ∷ s) = if c == 43 then digits_after 0 s else digits_after 0 (c ∷ s)

-- A time above 0, or 8000.
unfoldable pub dispatch_timeout : Option Text → ℕ
unfolding parse_int trim
dispatch_timeout none = 8000
dispatch_timeout (some raw) = let ms = parse_int (trim raw) in if ms == 0 then 8000 else ms

unfoldable pub orchestration_config :
    Environment → Text → SecretFile → OrchestrationConfig × SecretFile
unfolding normalize_mode without_slash resolve_engine_shared_secret dispatch_timeout
orchestration_config env drawn file =
    let (secret, file') = resolve_engine_shared_secret env.engine_shared_secret drawn file in
    (
      record {
        mode = normalize_mode env.engine_mode;
        external_dispatch_url = normalize_url env.engine_dispatch_url;
        app_base_url = normalize_url env.app_base_url;
        shared_secret = secret;
        dispatch_timeout_ms = dispatch_timeout env.engine_dispatch_timeout_ms;
      },
      file',
    )

unfoldable pub bearer : Text → Text
bearer secret = units "Bearer " ++ secret

-- The response to a request that is not let in.
pub record Refusal : Type 0 where
  pub status : ℕ
  pub body : Text

unfoldable pub unauthorized : Refusal
unauthorized = record { status = 401; body = units "Unauthorized" }

-- No response for a request that is let in: one with the secret in its header, or any where the secret is
-- empty.
unfoldable pub require_orchestration_authorization :
    OrchestrationConfig → Option Text → Option Refusal
unfolding bearer unauthorized
require_orchestration_authorization config header =
    if non_empty config.shared_secret
    then if is header (bearer config.shared_secret) then none else some unauthorized
    else none

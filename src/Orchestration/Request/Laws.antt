-- ===== src/Orchestration/Request/Laws.antt =====
-- A request that goes out, and the callback that answers it.
use superscriber.Prelude.{
  Text, Option, none, some, true, ◌≡◌, ◌⊎◌, arith, text_equal, non_empty, trim, Bool-cases, inl,
  inr,
}
use superscriber.Orchestration.Config.{
  Environment, OrchestrationConfig, SecretFile, require_orchestration_authorization,
}
use superscriber.Orchestration.Config.Laws.{settings, later_settings, later_settings_lem}
use superscriber.Orchestration.Request.{DispatchPayload, request_of}

-- The test of a callback, for the settings that the request was made with.
answers_request :
    (config : OrchestrationConfig) (payload : DispatchPayload) (header : Option Text)
    → (require_orchestration_authorization config header ≡ none
        → ((request_of config payload).authorization ≡ none)
          ⊎ (header ≡ (request_of config payload).authorization))
      × (((request_of config payload).authorization ≡ none)
            ⊎ (header ≡ (request_of config payload).authorization)
          → require_orchestration_authorization config header ≡ none)
unfolding require_orchestration_authorization request_of
answers_request config payload header = elim (Bool-cases (non_empty config.shared_secret)) [
  | inl e ↦ (
    (λ admitted. inr (sent header config e admitted)),
    (λ how. elim how [
      | inl silent ↦ absurd (ground (arith, e, silent))
      | inr same ↦ ground (arith, e, same)
    ]),
  )
  | inr e ↦ ((λ admitted. inl (ground (arith, e))), (λ how. ground (arith, e)))
]
  where
    sent :
        (header : Option Text) (config : OrchestrationConfig)
        → non_empty config.shared_secret ≡ true
        → require_orchestration_authorization config header ≡ none
        → header ≡ (request_of config payload).authorization
    sent none config e admitted = absurd (ground (arith, e, admitted))
    sent (some words) config e admitted = ground (arith, e, admitted)

-- A callback is let in exactly when it bears the header of the request that went out before, or that
-- request had none. The settings are read once for each, and bytes drawn for a secret have no space at
-- their ends.
pub require_orchestration_authorization-request_of :
    (env : Environment) (drawn later : Text) (file : SecretFile) (payload : DispatchPayload)
    (header : Option Text)
    → trim drawn ≡ drawn
    → (require_orchestration_authorization (later_settings env drawn later file) header ≡ none
        → ((request_of (settings env drawn file) payload).authorization ≡ none)
          ⊎ (header ≡ (request_of (settings env drawn file) payload).authorization))
      × (((request_of (settings env drawn file) payload).authorization ≡ none)
            ⊎ (header ≡ (request_of (settings env drawn file) payload).authorization)
          → require_orchestration_authorization (later_settings env drawn later file) header ≡ none)
require_orchestration_authorization-request_of env drawn later file payload header same =
    rw (later_settings_lem env drawn later file same)
      (answers_request (settings env drawn file) payload header)

-- ===== src/Orchestration/Config/Laws.antt =====
-- Settings that are read again.
use superscriber.Prelude.{
  Text, Option, none, some, ◌≡◌, refl, arith, text_equal, non_empty, trim, Bool-cases, inl, inr, ap,
}
use superscriber.Orchestration.Config.{
  Environment, OrchestrationConfig, SecretFile, stored_secret, resolve_engine_shared_secret,
  orchestration_config,
}

stored_secret_again :
    (drawn later : Text) (file : SecretFile)
    → trim drawn ≡ drawn
    → let once = stored_secret drawn file in stored_secret later once.1 ≡ once
stored_secret_again drawn later none same = ground (arith, same)
stored_secret_again drawn later (some content) same = refl

-- The secret stays the one that was first read or made.
resolve_engine_shared_secret_again :
    (from_env : Option Text) (drawn later : Text) (file : SecretFile)
    → trim drawn ≡ drawn
    → let once = resolve_engine_shared_secret from_env drawn file in
      resolve_engine_shared_secret from_env later once.1 ≡ once
unfolding resolve_engine_shared_secret
resolve_engine_shared_secret_again none drawn later file same =
    stored_secret_again drawn later file same
resolve_engine_shared_secret_again (some from_env) drawn later file same =
    elim (Bool-cases (non_empty from_env)) [
      | inl e ↦ ground (arith, e)
      | inr e ↦ rw e (stored_secret_again drawn later file same)
    ]

orchestration_config_again :
    (env : Environment) (drawn later : Text) (file : SecretFile)
    → trim drawn ≡ drawn
    → let once = orchestration_config env drawn file in orchestration_config env later once.1 ≡ once
unfolding orchestration_config
orchestration_config_again env drawn later file same =
    let again = resolve_engine_shared_secret_again env.engine_shared_secret drawn later file same in
    ground (arith, again)

abbrev pub settings : Environment → Text → SecretFile → OrchestrationConfig
settings env drawn file = (orchestration_config env drawn file).0

-- The settings as they are read once more.
abbrev pub later_settings : Environment → Text → Text → SecretFile → OrchestrationConfig
later_settings env drawn later file = settings env later (orchestration_config env drawn file).1

pub later_settings_lem :
    (env : Environment) (drawn later : Text) (file : SecretFile)
    → trim drawn ≡ drawn
    → later_settings env drawn later file ≡ settings env drawn file
later_settings_lem env drawn later file same =
    ap (λ (x : OrchestrationConfig × SecretFile). x.0)
      (orchestration_config_again env drawn later file same)

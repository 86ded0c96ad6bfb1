-- ===== src/Casefile/Commands/Authority.antt =====
-- The authority that each command asks for (src/server/casefile/commands.ts).
use superscriber.Prelude.{Option, none, some, false, truthy, if◌then◌else◌}
use superscriber.Domain.Models.{Principal}
use superscriber.Domain.Errors.{Result, ok, err, failure, access_denied, self_approval_forbidden}
use superscriber.Casefile.Capabilities.{
  ActionModeRef, CapabilityInput, derive_casefile_capabilities,
}
use superscriber.Casefile.Capabilities.Denials.{CapabilityDenial, CapabilityKey, denial, flag}
use superscriber.Casefile.Commands.State.{LoadedCommandState}

abbrev pub actor_action_mode : LoadedCommandState → Option ActionModeRef
actor_action_mode s = elim s.actor.admin_action_session_id [
  | none ↦ none
  | some id ↦
      if truthy (some id)
      then some (record { id = id; effective_role = s.actor.effective_role })
      else none
]

unfoldable pub capability_input : LoadedCommandState → Principal → CapabilityInput
capability_input s p = record {
  principal = p;
  grant = s.grant;
  policy_profile_id = s.workspace.policy_profile_id;
  recording = s.recording;
  revision = s.revision;
  action_mode = actor_action_mode s;
  action_mode_expired = false;
}

-- Without the capability, a missing assignment and the policy are refused. Any other reason passes:
-- the checks that follow refuse it.
abbrev pub refuse_unassigned : Option CapabilityDenial → Result (Unit {0})
refuse_unassigned (some CapabilityDenial.not_assigned) = err (failure access_denied)
refuse_unassigned (some CapabilityDenial.policy) = err (failure access_denied)
refuse_unassigned _ = ok tt

abbrev pub refuse_withdraw : Option CapabilityDenial → Result (Unit {0})
refuse_withdraw (some CapabilityDenial.legacy_submitter_unknown) = err (failure access_denied)
refuse_withdraw (some CapabilityDenial.not_submitter) = err (failure access_denied)
refuse_withdraw (some CapabilityDenial.not_assigned) = err (failure access_denied)
refuse_withdraw (some CapabilityDenial.policy) = err (failure access_denied)
refuse_withdraw _ = ok tt

abbrev pub refuse_decision : Option CapabilityDenial → Result (Unit {0})
refuse_decision (some CapabilityDenial.same_submitter) = err (failure self_approval_forbidden)
refuse_decision (some CapabilityDenial.not_assigned) = err (failure access_denied)
refuse_decision (some CapabilityDenial.policy) = err (failure access_denied)
refuse_decision _ = ok tt

-- A capability that is there passes at once; otherwise its denial decides.
abbrev pub require_authority :
    (Option CapabilityDenial → Result (Unit {0}))
    → CapabilityKey
    → LoadedCommandState
    → Principal
    → Result (Unit {0})
require_authority refuse k s p =
    let i = capability_input s p in
    if flag (derive_casefile_capabilities i) k then ok tt else refuse (denial i k)

unfoldable pub require_save_authority : LoadedCommandState → Principal → Result (Unit {0})
unfolding capability_input
require_save_authority = require_authority refuse_unassigned CapabilityKey.can_save

unfoldable pub require_submit_authority : LoadedCommandState → Principal → Result (Unit {0})
unfolding capability_input
require_submit_authority = require_authority refuse_unassigned CapabilityKey.can_submit

unfoldable pub require_withdraw_authority : LoadedCommandState → Principal → Result (Unit {0})
unfolding capability_input
require_withdraw_authority = require_authority refuse_withdraw CapabilityKey.can_withdraw

unfoldable pub require_approve_authority : LoadedCommandState → Principal → Result (Unit {0})
unfolding capability_input
require_approve_authority = require_authority refuse_decision CapabilityKey.can_approve

unfoldable pub require_request_changes_authority :
    LoadedCommandState → Principal → Result (Unit {0})
unfolding capability_input
require_request_changes_authority =
    require_authority refuse_decision CapabilityKey.can_request_changes

unfoldable pub require_reopen_authority : LoadedCommandState → Principal → Result (Unit {0})
unfolding capability_input
require_reopen_authority = require_authority refuse_unassigned CapabilityKey.can_reopen

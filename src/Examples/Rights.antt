-- ===== src/Examples/Rights.antt =====
-- Capabilities, policies and stages, on the example.
use superscriber.Prelude.{
  Text, Option, none, some, true, false, ◌≡◌, refl, units, ◌⊎◌, inl, ◌||◌, trim, length, ◌≤◌,
  truthy,
}
use superscriber.Domain.Models.{
  PolicyProfileId, AssignmentRole, TranscriptRevision, TranscriptRevisionState, Recording,
  Principal,
}
use superscriber.Casefile.Capabilities.{
  CapabilityInput, ActionModeRef, derive_casefile_capabilities, admin_oversight,
  CasefileAccessGrant,
}
use superscriber.Casefile.Capabilities.Denials.{can_approve, denial, flag}
use superscriber.Casefile.Capabilities.Laws.{denial-flag, decision_authority, DecisionAuthority}
use superscriber.Examples.{casefile, first_draft, administrator}

-- The example, submitted by the account `user`.
abbrev pending_revision : Text → TranscriptRevision
pending_revision user = record first_draft {
  state = TranscriptRevisionState.pending_approval;
  submitted_by_user_id = some user;
}

abbrev pending_casefile : Recording
pending_casefile = record casefile { pending_revision_id = some (units "r1") }

abbrev input :
    Principal
    → CasefileAccessGrant
    → Option ActionModeRef
    → Option TranscriptRevision
    → CapabilityInput
input p g m r = record {
  principal = p;
  grant = g;
  policy_profile_id = PolicyProfileId.strict;
  recording = pending_casefile;
  revision = r;
  action_mode = m;
  action_mode_expired = false;
}

-- An administrator who decides on its own submission, in an action mode.
abbrev deciding : CapabilityInput
deciding =
    input administrator (admin_oversight (units "rec"))
      (some (record { id = units "m1"; effective_role = AssignmentRole.approver }))
      (some (pending_revision (units "u3")))

denial-flag_example :
    (denial deciding can_approve ≡ none
      → flag (derive_casefile_capabilities deciding) can_approve ≡ true)
    × (flag (derive_casefile_capabilities deciding) can_approve ≡ true
        → denial deciding can_approve ≡ none)
denial-flag_example = denial-flag deciding can_approve

may_decide :
    let c = derive_casefile_capabilities deciding in
    (c.can_approve || c.can_request_changes || c.can_reopen) ≡ true
unfolding derive_casefile_capabilities superscriber.Prelude.Text-discrete
may_decide = refl

decision_authority_example : DecisionAuthority deciding
decision_authority_example = decision_authority deciding may_decide

-- ===== src/Casefile/Capabilities/Denials.antt =====
-- Why a capability is withheld (`deriveCapabilityDenials` of src/server/casefile/capabilities.ts).
use superscriber.Prelude.{Option, none, some, Bool, true, false, not, ◌&&◌, ◌||◌, if◌then◌else◌}
use superscriber.Domain.Models.{PolicyDecision}
use superscriber.Casefile.Capabilities.{
  CapabilityInput, CapabilityFlags, Facts, facts_of, derive_casefile_capabilities,
}

pub data CapabilityKey : Type 0 where
  can_view_status can_view_transcript can_view_media can_edit can_save can_submit : CapabilityKey
  can_withdraw can_approve can_request_changes can_reopen can_export : CapabilityKey

pub data CapabilityDenial : Type 0 where
  uploader_status_only historical_snapshot admin_action_mode_expired : CapabilityDenial
  admin_action_mode_required legacy_submitter_unknown same_submitter not_submitter :
      CapabilityDenial
  policy wrong_revision_state not_assigned : CapabilityDenial

abbrev pub flag : CapabilityFlags → CapabilityKey → Bool
flag f can_view_status = f.can_view_status
flag f can_view_transcript = f.can_view_transcript
flag f can_view_media = f.can_view_media
flag f can_edit = f.can_edit
flag f can_save = f.can_save
flag f can_submit = f.can_submit
flag f can_withdraw = f.can_withdraw
flag f can_approve = f.can_approve
flag f can_request_changes = f.can_request_changes
flag f can_reopen = f.can_reopen
flag f can_export = f.can_export

abbrev pub is_view : CapabilityKey → Bool
is_view can_view_status = true
is_view can_view_transcript = true
is_view can_view_media = true
is_view _ = false

abbrev is_status : CapabilityKey → Bool
is_status can_view_status = true
is_status _ = false

abbrev is_withdraw : CapabilityKey → Bool
is_withdraw can_withdraw = true
is_withdraw _ = false

abbrev is_decision : CapabilityKey → Bool
is_decision can_approve = true
is_decision can_request_changes = true
is_decision _ = false

unfoldable pub admin_action_mode_denial : Facts → CapabilityKey → Option CapabilityDenial
admin_action_mode_denial f k =
    if is_view k
    then none
    else if f.expired
    then some admin_action_mode_expired
    else if f.admin_oversight
    then some admin_action_mode_required
    else none

unfoldable pub policy_denied : PolicyDecision → CapabilityKey → Bool
policy_denied p can_view_status = false
policy_denied p can_view_transcript = false
policy_denied p can_view_media = not p.can_view_media
policy_denied p can_edit = not p.can_edit_draft
policy_denied p can_save = not p.can_edit_draft
policy_denied p can_submit = not p.can_submit_for_approval
policy_denied p can_withdraw = false
policy_denied p can_approve = not p.can_approve
policy_denied p can_request_changes = not p.can_approve
policy_denied p can_reopen = not p.can_reopen_approved_transcript
policy_denied p can_export = not p.can_download_approved_transcript

unfoldable pub wrong_state : Facts → CapabilityKey → Bool
wrong_state f can_view_status = false
wrong_state f can_view_transcript = not f.has_revision
wrong_state f can_view_media = false
wrong_state f can_edit = not f.current || not f.draft
wrong_state f can_save = not f.current || not f.draft
wrong_state f can_submit = not f.current || not f.draft
wrong_state f can_withdraw = not f.current || not f.pending
wrong_state f can_approve = not f.current || not f.pending
wrong_state f can_request_changes = not f.current || not f.pending
wrong_state f can_reopen = not f.current || not f.approved
wrong_state f can_export = not f.current || not f.approved

unfoldable pub not_assigned_for : Facts → CapabilityKey → Bool
not_assigned_for f can_view_status = false
not_assigned_for f can_view_transcript = false
not_assigned_for f can_view_media = false
not_assigned_for f can_edit = not f.reviewer_authority
not_assigned_for f can_save = not f.reviewer_authority
not_assigned_for f can_submit = not f.reviewer_authority
not_assigned_for f can_withdraw = not f.reviewer_authority
not_assigned_for f can_approve = not f.approver_authority
not_assigned_for f can_request_changes = not f.approver_authority
not_assigned_for f can_reopen = not f.approver_authority
not_assigned_for f can_export = not f.export_authority

-- The tests after the one on the administrator's action mode.
unfoldable pub state_denial : Facts → CapabilityKey → Option CapabilityDenial
unfolding policy_denied wrong_state not_assigned_for
state_denial f k =
    if not f.submitter_known
      && f.current
      && f.pending
      && (is_withdraw k || (is_decision k && f.approver_authority))
    then some legacy_submitter_unknown
    else if f.is_submitter && f.current && f.pending && f.approver_authority && is_decision k
    then some same_submitter
    else if is_withdraw k && f.current && f.pending && f.submitter_known && not f.is_submitter
    then some not_submitter
    else if policy_denied f.policy k
    then some policy
    else if wrong_state f k
    then some wrong_revision_state
    else if not_assigned_for f k
    then some not_assigned
    else none

unfoldable pub denial_for : Facts → CapabilityFlags → CapabilityKey → Option CapabilityDenial
unfolding admin_action_mode_denial state_denial
denial_for f flags k =
    if flag flags k
    then none
    else if f.uploader_only && not (is_status k)
    then some uploader_status_only
    else if f.historical && not (is_view k)
    then some historical_snapshot
    else elim (admin_action_mode_denial f k) [ some d ↦ some d | none ↦ state_denial f k ]

-- `capabilities.denials[key]`.
unfoldable pub denial : CapabilityInput → CapabilityKey → Option CapabilityDenial
unfolding denial_for derive_casefile_capabilities
denial i k = denial_for (facts_of i) (derive_casefile_capabilities i) k

-- ===== src/Casefile/Capabilities.antt =====
-- The capabilities of an account on a casefile (src/server/casefile/capabilities.ts), with the
-- access grants of src/server/access/service.ts.
pub mod Denials
pub mod Laws
use superscriber.Prelude.{
  Text, Option, none, some, Bool, true, false, not, ◌&&◌, ◌||◌, ◌===◌, text_equal, is, truthy,
}
use superscriber.Domain.Models.{
  UserRole, PolicyProfileId, Principal, Recording, TranscriptRevision, TranscriptRevisionState,
  AssignmentRole, PolicyDecision, user_role_equal, revision_state_equal,
}
use superscriber.Domain.Policy.{evaluate_policy}

pub data CasefileAccessGrant : Type 0 where
  admin_oversight : Text → CasefileAccessGrant
  uploader_status : Text → CasefileAccessGrant
  active_reviewer active_approver : Text → Text → CasefileAccessGrant
  completed_reviewer completed_approver : Text → Text → Text → CasefileAccessGrant

pub record ActionModeRef : Type 0 where
  pub id : Text
  pub effective_role : AssignmentRole

pub record CapabilityInput : Type 0 where
  pub principal : Principal
  pub grant : CasefileAccessGrant
  pub policy_profile_id : PolicyProfileId
  pub recording : Recording
  pub revision : Option TranscriptRevision
  pub action_mode : Option ActionModeRef
  pub action_mode_expired : Bool

pub record CapabilityFlags : Type 0 where
  pub can_view_status : Bool
  pub can_view_transcript : Bool
  pub can_view_media : Bool
  pub can_edit : Bool
  pub can_save : Bool
  pub can_submit : Bool
  pub can_withdraw : Bool
  pub can_approve : Bool
  pub can_request_changes : Bool
  pub can_reopen : Bool
  pub can_export : Bool

-- An effective role as a role of an account.
abbrev pub role_of : AssignmentRole → UserRole
role_of AssignmentRole.reviewer = UserRole.reviewer
role_of AssignmentRole.approver = UserRole.approver

abbrev pub is_some {ℓ} : {A : Type ℓ} → Option A → Bool
is_some none = false
is_some (some a) = true

-- Both ids are present and differ.
abbrev pub is_historical_snapshot : Option TranscriptRevision → Option Text → Bool
is_historical_snapshot none c = false
is_historical_snapshot (some r) c = truthy c && not (is c r.id)

abbrev pub is_current_snapshot : Option TranscriptRevision → Option Text → Bool
is_current_snapshot none c = false
is_current_snapshot (some r) c = is c r.id

abbrev pub has_uploader_status_only : CasefileAccessGrant → Bool
has_uploader_status_only (uploader_status r) = true
has_uploader_status_only _ = false

abbrev pub oversees : CasefileAccessGrant → Text → Bool
oversees (admin_oversight r) id = r === id
oversees _ id = false

unfoldable pub has_matching_oversight_grant : CapabilityInput → Bool
has_matching_oversight_grant i = oversees i.grant i.recording.id

unfoldable pub is_admin : CapabilityInput → Bool
is_admin i = i.principal.role === UserRole.admin

unfoldable pub has_expired_admin_action_mode : CapabilityInput → Bool
unfolding has_matching_oversight_grant is_admin
has_expired_admin_action_mode i =
    i.action_mode_expired && is_admin i && has_matching_oversight_grant i

unfoldable pub get_validated_action_mode : CapabilityInput → Option ActionModeRef
unfolding has_expired_admin_action_mode
get_validated_action_mode i =
    elim (has_expired_admin_action_mode i
      || not (is_admin i)
      || not (has_matching_oversight_grant i)) [ true ↦ none | false ↦ i.action_mode ]

unfoldable pub is_admin_oversight : CapabilityInput → Option ActionModeRef → Bool
unfolding has_matching_oversight_grant is_admin
is_admin_oversight i m = is_admin i && has_matching_oversight_grant i && not (is_some m)

unfoldable pub has_admin_submitter_override : CapabilityInput → Option ActionModeRef → Bool
unfolding has_matching_oversight_grant is_admin
has_admin_submitter_override i m = is_admin i && has_matching_oversight_grant i && is_some m

abbrev pub is_active_reviewer : CasefileAccessGrant → Bool
is_active_reviewer (active_reviewer r a) = true
is_active_reviewer _ = false

abbrev pub is_approver_grant : CasefileAccessGrant → Bool
is_approver_grant (active_approver r a) = true
is_approver_grant (completed_approver r a v) = true
is_approver_grant _ = false

abbrev pub is_assigned_grant : CasefileAccessGrant → Bool
is_assigned_grant (admin_oversight r) = false
is_assigned_grant (uploader_status r) = false
is_assigned_grant _ = true

unfoldable pub has_reviewer_authority : CasefileAccessGrant → UserRole → Option ActionModeRef → Bool
has_reviewer_authority g role (some m) = role === UserRole.reviewer
has_reviewer_authority g role none = is_active_reviewer g

unfoldable pub has_approver_authority : CasefileAccessGrant → UserRole → Option ActionModeRef → Bool
has_approver_authority g role (some m) = role === UserRole.approver
has_approver_authority g role none = is_approver_grant g

unfoldable pub has_export_authority : CasefileAccessGrant → Option ActionModeRef → Bool
has_export_authority g (some m) = true
has_export_authority g none = is_assigned_grant g

abbrev pub current_submitter_id : Option TranscriptRevision → Option Text
current_submitter_id none = none
current_submitter_id (some r) = r.submitted_by_user_id

-- `pointer === revision?.id`: a missing revision equals no pointer.
abbrev pub points_to : Option Text → Option TranscriptRevision → Bool
points_to p none = false
points_to p (some r) = is p r.id

abbrev pub is_draft : Option TranscriptRevision → Bool
is_draft none = false
is_draft (some r) = r.state === TranscriptRevisionState.draft

-- What both derivations compute first.
pub record Facts : Type 0 where
  pub action_mode : Option ActionModeRef
  pub policy : PolicyDecision
  pub historical : Bool
  pub current : Bool
  pub uploader_only : Bool
  pub expired : Bool
  pub admin_oversight : Bool
  pub submitter_override : Bool
  pub reviewer_authority : Bool
  pub approver_authority : Bool
  pub export_authority : Bool
  pub pending : Bool
  pub approved : Bool
  pub draft : Bool
  pub has_revision : Bool
  pub submitter_known : Bool
  pub is_submitter : Bool
  pub is_admin : Bool

abbrev pub actor_role_of : Principal → Option ActionModeRef → UserRole
actor_role_of p none = p.role
actor_role_of p (some m) = role_of m.effective_role

unfoldable pub facts_of : CapabilityInput → Facts
unfolding get_validated_action_mode evaluate_policy is_admin_oversight has_reviewer_authority
    has_approver_authority has_export_authority has_admin_submitter_override
facts_of i =
    let m = get_validated_action_mode i in
    let role = actor_role_of i.principal m in
    record {
      action_mode = m;
      policy = evaluate_policy i.policy_profile_id role;
      historical = is_historical_snapshot i.revision i.recording.current_revision_id;
      current = is_current_snapshot i.revision i.recording.current_revision_id;
      uploader_only = has_uploader_status_only i.grant;
      expired = has_expired_admin_action_mode i;
      admin_oversight = is_admin_oversight i m;
      submitter_override = has_admin_submitter_override i m;
      reviewer_authority = has_reviewer_authority i.grant role m;
      approver_authority = has_approver_authority i.grant role m;
      export_authority = has_export_authority i.grant m;
      pending = points_to i.recording.pending_revision_id i.revision;
      approved = points_to i.recording.approved_revision_id i.revision;
      draft = is_draft i.revision;
      has_revision = is_some i.revision;
      submitter_known = is_some (current_submitter_id i.revision);
      is_submitter = is (current_submitter_id i.revision) i.principal.user_id;
      is_admin = is_admin i;
    }

unfoldable pub flags_of : Facts → CapabilityFlags
flags_of f = record {
  can_view_status = true;
  can_view_transcript = not f.uploader_only && f.has_revision;
  can_view_media = not f.uploader_only && f.policy.can_view_media;
  can_edit =
      not f.admin_oversight
      && f.reviewer_authority
      && f.current
      && f.draft
      && f.policy.can_edit_draft;
  can_save =
      not f.admin_oversight
      && f.reviewer_authority
      && f.current
      && f.draft
      && f.policy.can_edit_draft;
  can_submit =
      not f.admin_oversight
      && f.reviewer_authority
      && f.current
      && f.draft
      && f.policy.can_submit_for_approval;
  can_withdraw =
      not f.admin_oversight
      && f.reviewer_authority
      && f.current
      && f.pending
      && f.submitter_known
      && (f.is_submitter || f.submitter_override);
  can_approve =
      not f.admin_oversight
      && f.approver_authority
      && f.current
      && f.pending
      && not (f.is_submitter && not f.is_admin)
      && f.policy.can_approve;
  can_request_changes =
      not f.admin_oversight
      && f.approver_authority
      && f.current
      && f.pending
      && not (f.is_submitter && not f.is_admin)
      && f.policy.can_approve;
  can_reopen =
      not f.admin_oversight
      && f.approver_authority
      && f.current
      && f.approved
      && f.policy.can_reopen_approved_transcript;
  can_export =
      not f.admin_oversight
      && f.export_authority
      && f.current
      && f.approved
      && f.policy.can_download_approved_transcript;
}

-- `deriveCasefileCapabilities`, its flags.
unfoldable pub derive_casefile_capabilities : CapabilityInput → CapabilityFlags
unfolding facts_of flags_of
derive_casefile_capabilities i = flags_of (facts_of i)

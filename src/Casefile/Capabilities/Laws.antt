-- ===== src/Casefile/Capabilities/Laws.antt =====
-- What the capabilities of an account guarantee (src/server/casefile/capabilities.ts).
use superscriber.Prelude.{Text, Option, none, some, true, false, ◌≡◌, refl, ◌⊎◌, arith, ◌||◌}
use superscriber.Domain.Models.{UserRole, AssignmentRole, TranscriptRevision}
use superscriber.Casefile.Capabilities.{
  CapabilityInput, Facts, facts_of, flags_of, derive_casefile_capabilities, oversees,
  get_validated_action_mode, has_approver_authority, is_approver_grant, actor_role_of,
  active_approver, completed_approver, CasefileAccessGrant, ActionModeRef, admin_oversight,
}
use superscriber.Casefile.Capabilities.Denials.{
  CapabilityKey, can_view_status, can_edit, flag, denial, denial_for, is_view,
}

denial_for-none :
    (f : Facts) (k : CapabilityKey)
    → denial_for f (flags_of f) k ≡ none
    → flag (flags_of f) k ≡ true
unfolding denial_for flags_of
denial_for-none f can_view_status h = refl
denial_for-none f k h = ground arith

-- A capability is withheld exactly when a reason is given for it, whatever the capability.
pub denial-flag :
    (i : CapabilityInput) (k : CapabilityKey)
    → (denial i k ≡ none → flag (derive_casefile_capabilities i) k ≡ true)
      × (flag (derive_casefile_capabilities i) k ≡ true → denial i k ≡ none)
unfolding denial derive_casefile_capabilities
denial-flag i k = (denial_for-none (facts_of i) k, λ h. ground (arith))

-- An account may never both edit a draft and decide on a revision.
pub edit_excludes_decision :
    (i : CapabilityInput)
    → let c = derive_casefile_capabilities i in
      (c.can_edit || c.can_save || c.can_submit || c.can_withdraw) ≡ true
      → (c.can_approve || c.can_request_changes || c.can_reopen) ≡ false
unfolding derive_casefile_capabilities
edit_excludes_decision i h = ground arith

-- Where the authority to decide comes from: an approver's assignment, active or completed, or an
-- administrator's oversight of this recording in an action mode with the approver's role that has
-- not expired.
pub data DecisionAuthority (i : CapabilityInput) : Type 0 where
  assigned : (r a : Text) → i.grant ≡ active_approver r a → DecisionAuthority i
  completed : (r a v : Text) → i.grant ≡ completed_approver r a v → DecisionAuthority i
  in_action_mode :
      (m : ActionModeRef)
      → i.action_mode ≡ some m
      → m.effective_role ≡ AssignmentRole.approver
      → i.action_mode_expired ≡ false
      → i.principal.role ≡ UserRole.admin
      → i.grant ≡ admin_oversight i.recording.id
      → DecisionAuthority i

oversees-eq : (g : CasefileAccessGrant) (id : Text) → oversees g id ≡ true → g ≡ admin_oversight id
oversees-eq (admin_oversight r) id h = ground arith
oversees-eq g id h = cc

validated_action_mode :
    (i : CapabilityInput) (m : ActionModeRef)
    → get_validated_action_mode i ≡ some m
    → (i.action_mode ≡ some m)
      × (i.action_mode_expired ≡ false)
      × (i.principal.role ≡ UserRole.admin)
      × (i.grant ≡ admin_oversight i.recording.id)
unfolding get_validated_action_mode
validated_action_mode i m h = ground (arith, oversees-eq i.grant i.recording.id)

approver_grant :
    (i : CapabilityInput) (g : CasefileAccessGrant)
    → i.grant ≡ g
    → is_approver_grant g ≡ true
    → DecisionAuthority i
approver_grant i (active_approver r a) e h = assigned r a e
approver_grant i (completed_approver r a v) e h = completed r a v e
approver_grant i g e h = absurd (cc)

authority_of :
    (i : CapabilityInput) (m : Option ActionModeRef)
    → get_validated_action_mode i ≡ m
    → has_approver_authority i.grant (actor_role_of i.principal m) m ≡ true
    → DecisionAuthority i
unfolding has_approver_authority
authority_of i none e h = approver_grant i i.grant refl h
authority_of i (some m) e h =
    let (mode, fresh, role, grant) = validated_action_mode i m e in
    in_action_mode m mode (ground arith) fresh role grant

flags_of_authority :
    (f : Facts)
    → let c = flags_of f in
      (c.can_approve || c.can_request_changes || c.can_reopen) ≡ true → f.approver_authority ≡ true
unfolding flags_of
flags_of_authority f h = ground arith

-- Whoever may approve, request changes or reopen has the authority to decide.
pub decision_authority :
    (i : CapabilityInput)
    → let c = derive_casefile_capabilities i in
      (c.can_approve || c.can_request_changes || c.can_reopen) ≡ true → DecisionAuthority i
unfolding derive_casefile_capabilities
decision_authority i h =
    authority_of i (get_validated_action_mode i) refl
      (unfold facts_of in flags_of_authority (facts_of i) h)

-- Whoever may decide on a revision that it submitted itself is an administrator.
pub self_decision_admin :
    (i : CapabilityInput) (r : TranscriptRevision)
    → i.revision ≡ some r
    → r.submitted_by_user_id ≡ some i.principal.user_id
    → let c = derive_casefile_capabilities i in
      (c.can_approve || c.can_request_changes) ≡ true → i.principal.role ≡ UserRole.admin
unfolding derive_casefile_capabilities
self_decision_admin i r e s h = ground arith

-- An administrator whose action mode is missing or has expired may read, and do nothing else.
pub oversight_reads_only :
    (i : CapabilityInput) (k : CapabilityKey)
    → i.principal.role ≡ UserRole.admin
    → i.grant ≡ admin_oversight i.recording.id
    → (i.action_mode ≡ none) ⊎ (i.action_mode_expired ≡ true)
    → is_view k ≡ false
    → flag (derive_casefile_capabilities i) k ≡ false
unfolding derive_casefile_capabilities
oversight_reads_only i can_edit a g m v = ground arith
oversight_reads_only i k a g m v = ground arith

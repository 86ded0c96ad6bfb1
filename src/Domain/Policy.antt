-- ===== src/Domain/Policy.antt =====
-- The policy profiles (src/domain/policy.ts).
use superscriber.Prelude.{
  Text, ◌++◌, units, ◌===◌, if◌then◌else◌, false, ◌||◌, ◌≡◌, ◌⊎◌, arith, true,
}
use superscriber.Domain.Models.{
  UserRole, admin, PolicyProfileId, reviewable_approved_export, PolicyDecision, user_role_equal,
  policy_profile_equal,
}

unfoldable pub evaluate_policy : PolicyProfileId → UserRole → PolicyDecision
evaluate_policy profile role =
    let base : PolicyDecision = record {
      can_view_media = role === UserRole.reviewer || role === UserRole.approver || role === admin;
      can_download_raw_media = false;
      can_edit_draft = role === UserRole.reviewer;
      can_submit_for_approval = role === UserRole.reviewer;
      can_approve = role === UserRole.approver;
      can_download_approved_transcript = role === UserRole.approver;
      can_reopen_approved_transcript = role === UserRole.approver;
    } in
    if profile === reviewable_approved_export
    then record base {
      can_download_approved_transcript = role === UserRole.reviewer || role === UserRole.approver;
    }
    else if role === admin
    then record base {
      can_edit_draft = false;
      can_submit_for_approval = false;
      can_approve = false;
      can_download_approved_transcript = false;
      can_reopen_approved_transcript = false;
    }
    else base

unfoldable pub describe_policy_profile : PolicyProfileId → Text
describe_policy_profile profile =
    if profile === reviewable_approved_export
    then (units "Approved transcripts may be exported by reviewers and approvers. "
        ++ units "Raw media never leaves the server.")
    else (units "Strict regulated mode. Raw media stays server-side. "
        ++ units "Approved transcripts require approver export rights.")

-- Only a reviewer edits drafts and only an approver approves, under every profile. Raw media is never
-- offered, and an approved transcript is offered to approvers, and to reviewers only under the
-- profile that allows it.
pub evaluate_policy_lem :
    (p : PolicyProfileId) (r : UserRole)
    → let d = evaluate_policy p r in
      (d.can_edit_draft ≡ true → r ≡ UserRole.reviewer)
      × (d.can_approve ≡ true → r ≡ UserRole.approver)
      × (d.can_download_raw_media ≡ false)
      × (d.can_download_approved_transcript ≡ true
          → (r ≡ UserRole.approver) ⊎ ((r ≡ UserRole.reviewer) × (p ≡ reviewable_approved_export)))
unfolding evaluate_policy
evaluate_policy_lem p r = (λ h. ground arith, λ h. ground arith, ground arith, λ h. ground arith)

-- ===== src/Casefile/ActionMode/View.antt =====
-- The view that a page has of an action mode (`resolveActionMode` of
-- src/server/casefile/action-mode.ts).
use superscriber.Prelude.{
  Text, ℕ, Option, none, some, not, ◌≡◌, refl, arith, ◌===◌, text_equal, if◌then◌else◌, inl, inr,
  Bool-cases,
}
use superscriber.Domain.Models.{
  UserRole, AssignmentRole, AdminActionSession, Principal, user_role_equal,
}
use superscriber.Domain.Errors.{Result, ok, err, failure, action_mode_ended, action_mode_expired}
use superscriber.Casefile.Capabilities.{is_some}
use superscriber.Casefile.Store.{World}
use superscriber.Casefile.Store.Exec.{Exec, ◌>>=◌, pure, raise, query, continue}
use superscriber.Casefile.ActionMode.{
  SessionStatus, ended, active, expired, action_mode_actor, actor_of_status,
  expire_action_mode_lazily, is_expired, load_validated_admin_action_mode, resolve_actor_context,
  resolve_admin_actor,
}

pub record ResolvedAdminActionMode : Type 0 where
  pub id : Text
  pub effective_role : AssignmentRole
  pub expires_at : ℕ
  pub purpose : Text
  pub admin_display_name : Text
  pub base_role : UserRole

abbrev pub view_of : Principal → AdminActionSession → ResolvedAdminActionMode
view_of p s = record {
  id = s.id;
  effective_role = s.effective_role;
  expires_at = s.expires_at;
  purpose = s.purpose;
  admin_display_name = p.display_name;
  base_role = UserRole.admin;
}

abbrev pub view_of_status : Principal → SessionStatus → Exec (Option ResolvedAdminActionMode)
view_of_status p (ended s) = raise (failure action_mode_ended)
view_of_status p (active s) = pure (some (view_of p s))
view_of_status p (expired s) = raise (failure action_mode_expired)

unfoldable pub resolve_admin_view :
    Principal → Text → AssignmentRole → Option Text → ℕ → Exec (Option ResolvedAdminActionMode)
unfolding load_validated_admin_action_mode expire_action_mode_lazily is_expired
resolve_admin_view p recording_id role action_mode_id now = do
  s ← query (λ db. load_validated_admin_action_mode db p recording_id role action_mode_id)
  if is_some s.ended_at
      then raise (failure action_mode_ended)
      else if not (is_expired s now)
      then pure (some (view_of p s))
      else (expire_action_mode_lazily p recording_id role action_mode_id now >>= view_of_status p)

unfoldable pub resolve_action_mode :
    Principal → Text → AssignmentRole → Option Text → ℕ → Exec (Option ResolvedAdminActionMode)
unfolding resolve_admin_view
resolve_action_mode p recording_id role action_mode_id now =
    if not (p.role === UserRole.admin)
    then pure none
    else resolve_admin_view p recording_id role action_mode_id now

module _ (p : Principal) (id : Text) (role : AssignmentRole) (mode : Option Text) (now : ℕ)
    (w w' : World) (m : Option ResolvedAdminActionMode) where
  status_agrees :
      (r : Result SessionStatus) (v : World)
      → continue (view_of_status p) r v ≡ (ok m, w')
      → (s : AdminActionSession) × (m ≡ some (view_of p s))
        × (continue (actor_of_status p) r v ≡ (ok (action_mode_actor p s), w'))
  status_agrees (ok (active s)) v h = (s, ground arith, ground arith)
  status_agrees (ok (ended s)) v h = absurd (cc)
  status_agrees (ok (expired s)) v h = absurd (cc)
  status_agrees (err e) v h = absurd (cc)

  -- The view that an administrator's page is given is of the session that its commands act under at
  -- that time, and the database is left alike.
  pub resolve_action_mode_lem :
      p.role ≡ UserRole.admin
      → resolve_action_mode p id role mode now w ≡ (ok m, w')
      → (s : AdminActionSession) × (m ≡ some (view_of p s))
        × (resolve_actor_context p id role mode now w ≡ (ok (action_mode_actor p s), w'))
  unfolding resolve_action_mode resolve_admin_view resolve_actor_context resolve_admin_actor
  resolve_action_mode_lem admin h =
      split (load_validated_admin_action_mode w.db p id role mode) refl
    where
      split :
          (r : Result AdminActionSession)
          → load_validated_admin_action_mode w.db p id role mode ≡ r
          → (s : AdminActionSession) × (m ≡ some (view_of p s))
            × (resolve_actor_context p id role mode now w ≡ (ok (action_mode_actor p s), w'))
      split (err e) l = absurd (ground (arith, admin, l, h))
      split (ok s) l = elim (Bool-cases (is_expired s now)) [
        | inr fresh ↦ (s, ground (arith, admin, l, fresh, h), ground (arith, admin, l, fresh, h))
        | inl late ↦
            let seen = expire_action_mode_lazily p id role mode now w in
            let (t, view, actor) =
              status_agrees seen.0 seen.1 (ground (arith, admin, l, late, h)) in
            (t, view, ground (arith, admin, l, late, h, actor))
      ]

-- ===== src/Casefile/ActionMode/Laws.antt =====
-- Who a governed command acts as (`resolveActorContext` of src/server/casefile/action-mode.ts).
use superscriber.Prelude.{
  Text, ℕ, Option, none, true, false, ◌≡◌, ◌≢◌, refl, arith, text_equal, truthy,
}
use superscriber.Domain.Models.{
  UserRole, UserRole-discrete, AssignmentRole, AdminActionSession, Principal, user_role_equal,
  assignment_role_equal,
}
use superscriber.Domain.Errors.{Result, ok, err}
use superscriber.Casefile.Capabilities.{role_of}
use superscriber.Casefile.Store.{World, Db, ActorContext}
use superscriber.Casefile.Store.Exec.{run_governed_transaction_ok, continue}
use superscriber.Casefile.ActionMode.{
  SessionStatus, look_at_session, ended, active, expired, is_expired,
  load_validated_admin_action_mode, expire_action_mode_lazily, actor_of_status, action_mode_actor,
  resolve_admin_actor, resolve_actor_context,
}
use superscriber.Casefile.Store.Audit.{actor_context_for_principal}

module _ (p : Principal) (id : Text) (role : AssignmentRole) (mode : Option Text) (now : ℕ) where
  look_at_session-active :
      (w v : World) (s t : AdminActionSession)
      → load_validated_admin_action_mode w.db p id role mode ≡ ok s
      → look_at_session p id role mode now w ≡ (ok (active t), v)
      → is_expired s now ≡ false
  unfolding look_at_session
  look_at_session-active w v s t l h = ground arith

  -- A look that finds a session active has loaded it, and it has not expired.
  expire-active :
      (w w' : World) (s t : AdminActionSession)
      → load_validated_admin_action_mode w.db p id role mode ≡ ok s
      → expire_action_mode_lazily p id role mode now w ≡ (ok (active t), w')
      → is_expired s now ≡ false
  unfolding expire_action_mode_lazily
  expire-active w w' s t l h =
      let (v, ran, done) =
        run_governed_transaction_ok (λ _. look_at_session p id role mode now) now w w' (active t)
          h in
      look_at_session-active w v s t l ran

  -- A look at a session that has expired, and is still open, does not find it active.
  expired_actor :
      (w v : World) (s : AdminActionSession) (c : ActorContext) (r : Result SessionStatus)
      → load_validated_admin_action_mode w.db p id role mode ≡ ok s
      → is_expired s now ≡ true
      → expire_action_mode_lazily p id role mode now w ≡ (r, v)
      → (continue (actor_of_status p) r v).0 ≢ ok c
  expired_actor w v s c (ok (active t)) l x h e = cc (expire-active w v s t l h)
  expired_actor w v s c (ok (ended t)) l x h e = cc
  expired_actor w v s c (ok (expired t)) l x h e = cc
  expired_actor w v s c (err d) l x h e = cc

-- What an actor rests on: the role of an account that is no administrator's and names no action
-- mode, or a session that an administrator names, which was entered by it for this recording and
-- role, is open, and has not expired.
pub data ActsUnder (db : Db) (p : Principal) (id : Text) (role : AssignmentRole)
    (mode : Option Text) (now : ℕ) (c : ActorContext) : Type 0 where
  by_role :
      p.role ≡ role_of role
      → truthy mode ≡ false
      → c ≡ actor_context_for_principal p
      → ActsUnder db p id role mode now c
  by_action_mode :
      (s : AdminActionSession)
      → p.role ≡ UserRole.admin
      → load_validated_admin_action_mode db p id role mode ≡ ok s
      → s.ended_at ≡ none
      → is_expired s now ≡ false
      → c ≡ action_mode_actor p s
      → ActsUnder db p id role mode now c

module _ (p : Principal) (id : Text) (role : AssignmentRole) (mode : Option Text) (now : ℕ) where
  resolve_admin_actor_ok :
      (w w' : World) (c : ActorContext)
      → p.role ≡ UserRole.admin
      → resolve_admin_actor p id role mode now w ≡ (ok c, w')
      → (w' ≡ w) × ActsUnder w.db p id role mode now c
  unfolding resolve_admin_actor
  resolve_admin_actor_ok w w' c admin h =
      split (load_validated_admin_action_mode w.db p id role mode) refl
    where
      split :
          (r : Result AdminActionSession)
          → load_validated_admin_action_mode w.db p id role mode ≡ r
          → (w' ≡ w) × ActsUnder w.db p id role mode now c
      split (err e) l = absurd (ground (arith, l, h))
      split (ok s) l =
          let seen = expire_action_mode_lazily p id role mode now w in
          let never = expired_actor p id role mode now w seen.1 s c seen.0 l in
          (
            ground (arith, never, h),
            by_action_mode s admin l (ground (arith, never, h)) (ground (arith, never, h))
                (ground (arith, never, h)),
          )

  pub resolve_actor_context_ok :
      (w w' : World) (c : ActorContext)
      → resolve_actor_context p id role mode now w ≡ (ok c, w')
      → (w' ≡ w) × ActsUnder w.db p id role mode now c
  unfolding resolve_actor_context
  resolve_actor_context_ok w w' c h = elim (UserRole-discrete p.role UserRole.admin) [
    | yes admin ↦ resolve_admin_actor_ok w w' c admin (ground arith)
    | no other ↦ (ground (arith), by_role (ground (arith)) (ground (arith)) (ground (arith)))
  ]

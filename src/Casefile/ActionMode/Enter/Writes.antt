-- ===== src/Casefile/ActionMode/Enter/Writes.antt =====
-- What entering and leaving the admin action mode write (src/server/casefile/action-mode.ts).
use superscriber.Prelude.{
  Text, ℕ, Option, none, some, Bool, true, false, ◌≡◌, refl, arith, text_equal, find, row, any,
  has_key, List, [], ◌∷◌, ◌++◌, update_where, units,
}
use superscriber.Domain.Models.{
  UserRole, AdminActionEndReason, AdminActionSession, Principal, AuditEventType, user_role_equal,
  assignment_role_equal,
}
use superscriber.Domain.Errors.{ok, or_throw, field_failure}
use superscriber.Domain.Stage.{validate_governed_reason}
use superscriber.Casefile.Capabilities.{is_some}
use superscriber.Casefile.Store.{
  World, ActorContext, AuditMetadata, action_mode_entered, action_mode_exited, recording_keyed,
  action_session_keyed,
}
use superscriber.Casefile.Store.Exec.{Exec, committed}
use superscriber.Casefile.Store.Ensures.{
  random_uuid-Ensures, Ensures, Ensures-bind, Ensures-lift, Ensures-query, Ensures-modify,
  Ensures-pure, Ensures-transaction, Ensures-weaken,
}
use superscriber.Casefile.Store.Audit.{insert_audit_event, insert_audit_event_lem}
use superscriber.Casefile.ActionMode.{
  action_mode_actor, end_action_mode_session, end_open_rows, end_session, is_open_session,
  report_ended,
}
use superscriber.Casefile.ActionMode.Enter.{
  EnterActionModeInput, append_action_session, end_switched, enter_action_mode,
  enter_action_mode_body, find_active_action_mode, is_open_for, new_session,
  recording_context_or_throw, require_admin,
}

event-Ensures :
    (ws : Text) (rec : Option Text) (actor : Option ActorContext) (t : AuditEventType)
    (m : AuditMetadata) (now : ℕ) (w : World)
    → Ensures
        (insert_audit_event ws rec actor t m now)
        w
        (λ e v. v.action_sessions ≡ w.action_sessions)
event-Ensures ws rec actor t m now w = record {
  at = λ e v h.
      let (event, left) = insert_audit_event_lem ws rec actor t m now w v e h in ground arith;
}

-- The session that an administrator ends is ended in its table, and returned so if it was open.
abbrev pub Ends :
    AdminActionSession → AdminActionEndReason → ℕ → World → AdminActionSession → World → Type 0
Ends s reason now w t v =
    (v.action_sessions
      ≡ update_where (is_open_session s.id) (end_session reason now) w.action_sessions)
    × (is_some (find (is_open_session s.id) w.action_sessions) ≡ true
        → t ≡ end_session reason now s)

report_ended-Ensures :
    (changed : Bool) (s : AdminActionSession) (reason : AdminActionEndReason) (now : ℕ)
    (p : Principal) (w : World)
    → Ensures (report_ended changed s reason now p) w (λ t v.
      (v.action_sessions ≡ w.action_sessions) × (changed ≡ true → t ≡ end_session reason now s))
unfolding report_ended
report_ended-Ensures true s reason now p w =
    Ensures-query
      (λ db. or_throw (row s.recording_id db.recordings) (field_failure (units "recordingId")))
      λ r found.
        Ensures-bind _ _
          (event-Ensures r.workspace_id (some s.recording_id) (some (action_mode_actor p s))
            AuditEventType.admin_action_mode_exited
            (action_mode_exited s.id s.effective_role reason) now w)
          λ event v same. Ensures-pure (end_session reason now s) (same, λ t. refl)
report_ended-Ensures false s reason now p w = record {
  at = λ t v h. (ground arith, λ no. absurd (cc));
}

pub end_action_mode_session-Ensures :
    (s : AdminActionSession) (reason : AdminActionEndReason) (now : ℕ) (p : Principal) (w : World)
    → Ensures (end_action_mode_session s reason now p) w (Ends s reason now w)
unfolding end_action_mode_session
end_action_mode_session-Ensures s reason now p w =
    Ensures-query (λ db. ok (find (is_open_session s.id) db.action_sessions))
      λ o found. Ensures-modify (end_open_rows s.id reason now) (
        Ensures-weaken (report_ended-Ensures (is_some o) s reason now p _)
          λ t v h. (h.0, λ was. h.1 (ground arith)))

-- The session that is entered, in its table.
pub record Entered (input : EnterActionModeInput) (now : ℕ) (w w' : World) (s : AdminActionSession)
    : Type 0 where
  pub before : List AdminActionSession
  pub id : Text
  pub purpose : Text
  pub accepted : validate_governed_reason input.purpose ≡ ok purpose
  pub made : s ≡ new_session id input purpose now
  pub fresh : has_key id before ≡ false
  pub alone : any (is_open_for input.principal.user_id input.recording_id) before ≡ false
  pub stored : w'.action_sessions ≡ before ++ s ∷ []

append_action_session_lem :
    (s : AdminActionSession) (w w' : World)
    → s.ended_at ≡ none
    → append_action_session s w ≡ (ok tt, w')
    → (has_key s.id w.action_sessions ≡ false)
      × (any (is_open_for s.admin_user_id s.recording_id) w.action_sessions ≡ false)
      × (w'.action_sessions ≡ w.action_sessions ++ s ∷ [])
unfolding append_action_session
append_action_session_lem s w w' o h = ground arith

append_action_session-Ensures :
    (s : AdminActionSession) (w : World)
    → s.ended_at ≡ none
    → Ensures (append_action_session s) w (λ u w'.
      (has_key s.id w.action_sessions ≡ false)
      × (any (is_open_for s.admin_user_id s.recording_id) w.action_sessions ≡ false)
      × (w'.action_sessions ≡ w.action_sessions ++ s ∷ []))
append_action_session-Ensures s w o = record { at = λ u v h. append_action_session_lem s w v o h }

anything-Ensures : {A : Type 0} (m : Exec A) (w : World) → Ensures m w (λ a v. Unit {0})
anything-Ensures m w = record { at = λ a v h. tt }

enter_action_mode_body-Ensures :
    (input : EnterActionModeInput) (now : ℕ) (w : World)
    → Ensures (enter_action_mode_body input now) w (λ s w'. Entered input now w (committed w') s)
unfolding enter_action_mode_body
enter_action_mode_body-Ensures input now w =
    Ensures-query (λ db. recording_context_or_throw db input.recording_id)
      λ r found. Ensures-lift (validate_governed_reason input.purpose) λ purpose accepted.
        Ensures-query
          (λ db. ok (find_active_action_mode db input.principal.user_id input.recording_id))
          λ last looked.
            Ensures-bind _ _ (anything-Ensures (end_switched last now input.principal) w)
              λ _ w1 switched. Ensures-bind _ _ (random_uuid-Ensures w1) λ id w2 drawn.
                let s = new_session id input purpose now in
                Ensures-bind _ _ (append_action_session-Ensures s w2 refl) λ _ w3 appended.
                  Ensures-bind _ _
                    (event-Ensures r.workspace_id (some input.recording_id)
                      (some (action_mode_actor input.principal s))
                      AuditEventType.admin_action_mode_entered
                      (action_mode_entered s.id s.effective_role s.purpose s.expires_at) now w3)
                    λ event w4 same. Ensures-pure s (record {
                      before = w2.action_sessions;
                      id = id;
                      purpose = purpose;
                      accepted = accepted;
                      made = refl;
                      fresh = appended.0;
                      alone = appended.1;
                      stored = ground arith;
                    })

pub enter_action_mode-Ensures :
    (input : EnterActionModeInput) (now : ℕ) (w : World)
    → Ensures
        (enter_action_mode input now)
        w
        (λ s w'. (input.principal.role ≡ UserRole.admin) × Entered input now w w' s)
unfolding enter_action_mode require_admin
enter_action_mode-Ensures input now w = Ensures-lift (require_admin input.principal) λ _ admin.
    Ensures-weaken
      (Ensures-transaction {P = λ s v. Entered input now w v s} (enter_action_mode_body input) now
        (enter_action_mode_body-Ensures input now w))
      (λ s w' h. (ground arith, h))

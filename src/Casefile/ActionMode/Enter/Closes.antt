-- ===== src/Casefile/ActionMode/Enter/Closes.antt =====
-- What leaving the admin action mode closes (`exitActionMode` of src/server/casefile/action-mode.ts).
use superscriber.Prelude.{
  Text, ℕ, none, some, true, false, ◌≡◌, refl, arith, text_equal, non_empty, find, row, List, [],
  ◌∷◌, update_where, row-key,
}
use superscriber.Domain.Models.{
  UserRole, AdminActionEndReason, AdminActionSession, Principal, user_role_equal,
  assignment_role_equal,
}
use superscriber.Domain.Errors.{Failure, Result, ok, err, failure, action_mode_ended}
use superscriber.Casefile.Capabilities.{is_some}
use superscriber.Casefile.Store.{Db, World, action_session_keyed}
use superscriber.Casefile.Store.Exec.{committed, checked_transaction_err}
use superscriber.Casefile.Store.Ensures.{
  Ensures, Ensures-lift, Ensures-query, Ensures-transaction, Ensures-weaken,
}
use superscriber.Casefile.ActionMode.{
  end_session, is_expired, is_open_session, is_session_for, load_validated_admin_action_mode,
  resolve_actor_context, resolve_admin_actor,
}
use superscriber.Casefile.ActionMode.Enter.{
  ExitActionModeInput, end_on_exit, exit_action_mode, exit_action_mode_body, require_admin,
  stored_role,
}
use superscriber.Casefile.ActionMode.Enter.Writes.{Ends, end_action_mode_session-Ensures}

-- What an exit loads: the session under the named id, if it is the account's for the recording.
abbrev pub loaded_for_exit : Db → ExitActionModeInput → Result AdminActionSession
loaded_for_exit db input =
    load_validated_admin_action_mode db input.principal input.recording_id
      (stored_role db input.action_mode_id) (some input.action_mode_id)

loaded_for_exit_ok :
    (db : Db) (input : ExitActionModeInput) (s : AdminActionSession)
    → loaded_for_exit db input ≡ ok s
    → (row input.action_mode_id db.action_sessions ≡ some s)
      × (s.admin_user_id ≡ input.principal.user_id)
      × (s.recording_id ≡ input.recording_id)
      × (non_empty input.action_mode_id ≡ true)
unfolding load_validated_admin_action_mode is_session_for
loaded_for_exit_ok db input s h = ground arith

-- An exit that succeeds has found the session open and in time.
record Exited (input : ExitActionModeInput) (now : ℕ) (w w' : World) (t : AdminActionSession)
    : Type 0 where
  session : AdminActionSession
  loaded : loaded_for_exit w.db input ≡ ok session
  was_open : session.ended_at ≡ none
  in_time : is_expired session now ≡ false
  ends : Ends session AdminActionEndReason.exited now w t w'

end_on_exit-Ensures :
    (s : AdminActionSession) (now : ℕ) (p : Principal) (w : World)
    → Ensures (end_on_exit s now p) w (λ t v.
      (s.ended_at ≡ none)
      × (is_expired s now ≡ false)
      × Ends s AdminActionEndReason.exited now w t v)
unfolding end_on_exit
end_on_exit-Ensures s now p w = record {
  at = λ t v h.
      ground
        (arith, h, (end_action_mode_session-Ensures s AdminActionEndReason.exited now p w).at t v);
}

find-open :
    (id : Text) (s : AdminActionSession) (xs : List AdminActionSession)
    → row id xs ≡ some s
    → s.ended_at ≡ none
    → is_some (find (is_open_session id) xs) ≡ true
unfolding is_open_session
find-open id s [] h o = ground arith
find-open id s (x ∷ xs) h o = ground (arith, find-open id s xs)

row-update_open :
    (id : Text) (now : ℕ) (s : AdminActionSession) (xs : List AdminActionSession)
    → row id xs ≡ some s
    → s.ended_at ≡ none
    → row id (update_where (is_open_session id) (end_session AdminActionEndReason.exited now) xs)
      ≡ some (end_session AdminActionEndReason.exited now s)
unfolding is_open_session
row-update_open id now s [] h o = ground arith
row-update_open id now s (x ∷ xs) h o = ground (arith, row-update_open id now s xs)

exit_action_mode_body-Ensures :
    (input : ExitActionModeInput) (now : ℕ) (w : World)
    → Ensures (exit_action_mode_body input now) w (λ t w'. Exited input now w (committed w') t)
unfolding exit_action_mode_body
exit_action_mode_body-Ensures input now w =
    Ensures-query (λ db. loaded_for_exit db input)
      λ s loaded.
        Ensures-weaken (end_on_exit-Ensures s now input.principal w) λ t v e. record {
          session = s;
          loaded = loaded;
          was_open = e.0;
          in_time = e.1;
          ends = e.2;
        }

exit_action_mode-Ensures :
    (input : ExitActionModeInput) (now : ℕ) (w : World)
    → Ensures
        (exit_action_mode input now)
        w
        (λ t w'. (input.principal.role ≡ UserRole.admin) × Exited input now w w' t)
unfolding exit_action_mode require_admin
exit_action_mode-Ensures input now w = Ensures-lift (require_admin input.principal) λ _ admin.
    Ensures-weaken
      (Ensures-transaction {P = λ s v. Exited input now w v s} (exit_action_mode_body input) now
        (exit_action_mode_body-Ensures input now w))
      (λ s w' h. (ground arith, h))

-- An exit that succeeds ends an open session of the administrator that has not expired, and returns
-- it as it is stored. Afterwards a command that names the session is refused at any time, since the
-- session has ended.
pub exit_action_mode_lem :
    (input : ExitActionModeInput) (now later : ℕ) (w w' : World) (t : AdminActionSession)
    → exit_action_mode input now w ≡ (ok t, w')
    → (t.ended_at ≡ some now)
      × (t.end_reason ≡ some AdminActionEndReason.exited)
      × (row input.action_mode_id w'.action_sessions ≡ some t)
      × (resolve_actor_context input.principal input.recording_id t.effective_role
            (some input.action_mode_id)
            later
            w'
          ≡ (err (failure action_mode_ended), w'))
unfolding resolve_actor_context resolve_admin_actor load_validated_admin_action_mode is_session_for
exit_action_mode_lem input now later w w' t h =
    let (admin, r) = (exit_action_mode-Ensures input now w).at t w' h in
    let (at, mine, here, named) = loaded_for_exit_ok w.db input r.session r.loaded in
    let key = row-key input.action_mode_id w.action_sessions r.session at in
    let is = r.ends.1 (
      ground
        (arith, key, find-open input.action_mode_id r.session w.action_sessions at r.was_open)) in
    let stored : row input.action_mode_id w'.action_sessions ≡ some t = ground (
      arith,
      key,
      is,
      r.ends.0,
      row-update_open input.action_mode_id now r.session w.action_sessions at r.was_open,
    ) in
    (
      ground (arith, is),
      ground (arith, is),
      stored,
      ground (arith, admin, stored, is, mine, here, named),
    )

-- An exit that finds the session expired fails, and leaves the database as it was: the end of the
-- session that it writes before it throws is taken back with its transaction.
pub exit_action_mode-expired :
    (input : ExitActionModeInput) (now : ℕ) (w : World) (s : AdminActionSession)
    → loaded_for_exit w.db input ≡ ok s
    → is_expired s now ≡ true
    → (e : Failure) × (w' : World) × (exit_action_mode input now w ≡ (err e, w')) × (w'.db ≡ w.db)
unfolding exit_action_mode
exit_action_mode-expired input now w s loaded x =
    split (exit_action_mode input now w).0 (exit_action_mode input now w).1 refl
  where
    failed : (e : Failure) (v : World) → exit_action_mode input now w ≡ (err e, v) → v.db ≡ w.db
    failed e v h =
        checked_transaction_err (require_admin input.principal) (exit_action_mode_body input) now w
          v e h

    split :
        (r : Result AdminActionSession) (v : World)
        → exit_action_mode input now w ≡ (r, v)
        → (e : Failure) × (w' : World) × (exit_action_mode input now w ≡ (err e, w'))
          × (w'.db ≡ w.db)
    split (err e) v h = (e, v, h, failed e v h)
    split (ok t) v h =
        let (admin, r) = (exit_action_mode-Ensures input now w).at t v h in
        absurd (ground (arith, loaded, r.loaded, r.in_time, x))

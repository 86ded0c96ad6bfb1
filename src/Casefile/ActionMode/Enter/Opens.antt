-- ===== src/Casefile/ActionMode/Enter/Opens.antt =====
-- What entering the admin action mode opens (`enterActionMode` of src/server/casefile/action-mode.ts).
use superscriber.Casefile.Store.{World, recording_keyed, action_session_keyed}
use superscriber.Prelude.{
  ℕ, ◌+◌, some, Bool, false, ◌≡◌, refl, arith, text_equal, row, any, count_if, List, [], ◌∷◌,
  row-append, count_if-append,
}
use superscriber.Domain.Models.{
  UserRole, AdminActionSession, user_role_equal, assignment_role_equal,
}
use superscriber.Domain.Errors.{ok}
use superscriber.Domain.Stage.{validate_governed_reason}
use superscriber.Casefile.ActionMode.Enter.{EnterActionModeInput, enter_action_mode, is_open_for}
use superscriber.Casefile.ActionMode.Enter.Writes.{enter_action_mode-Ensures}

any-count_if :
    (f : AdminActionSession → Bool) (xs : List AdminActionSession)
    → any f xs ≡ false
    → count_if f xs ≡ 0
any-count_if f [] h = refl
any-count_if f (x ∷ xs) h = ground (arith, any-count_if f xs)

module _ (input : EnterActionModeInput) (now : ℕ) (w w' : World) (s : AdminActionSession)
    (entered : enter_action_mode input now w ≡ (ok s, w')) where
  -- Only an administrator enters the action mode. The session is for its account and for the
  -- recording and the role that it asked for, it gives a purpose and lasts 30 minutes, and afterwards
  -- it is the one open session of the account on the recording.
  pub enter_action_mode_lem :
      (input.principal.role ≡ UserRole.admin)
      × (validate_governed_reason input.purpose ≡ ok s.purpose)
      × (s.expires_at ≡ now + 1800000)
      × (row s.id w'.action_sessions ≡ some s)
      × (count_if (is_open_for input.principal.user_id input.recording_id) w'.action_sessions ≡ 1)
  unfolding is_open_for
  enter_action_mode_lem =
      let (admin, r) = (enter_action_mode-Ensures input now w).at s w' entered in
      (
        admin,
        ground (arith, r.accepted, r.made),
        ground (arith, r.made),
        rw r.stored (ground (arith, r.made, r.fresh, row-append s.id s r.before)),
        rw r.stored (
            ground (
              arith,
              r.made,
              count_if-append (is_open_for input.principal.user_id input.recording_id) r.before
                  (s ∷ []),
              any-count_if (is_open_for input.principal.user_id input.recording_id) r.before
                  r.alone,
            )),
      )

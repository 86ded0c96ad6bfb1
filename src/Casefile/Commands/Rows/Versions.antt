-- ===== src/Casefile/Commands/Rows/Versions.antt =====
-- The versions of a recording's revisions (`nextRevisionVersion` of
-- src/server/casefile/commands.ts).
use Prim.Native.Nat.{max}
use superscriber.Casefile.Commands.Rows.{with_state, last_version, next_revision_version}
use superscriber.Domain.Models.{TranscriptRevisionState, TranscriptRevision}
use superscriber.Prelude.{
  update_row, any, Text, ℕ, suc, ◌≤◌, ◌<◌, false, ◌≡◌, refl, arith, List, [], ◌∷◌, ◌&&◌, ◌===◌,
  text_equal, ◌==◌,
}
use superscriber.Casefile.Store.{Db, revision_keyed}

max-bounds : (a b : ℕ) → (a ≤ max a b) × (b ≤ max a b)
max-bounds a b = (ground arith, ground arith)

above_all :
    (id : Text) (n : ℕ) (rs : List TranscriptRevision)
    → last_version id rs < n
    → any (λ r. r.recording_id === id && r.version == n) rs ≡ false
unfolding last_version
above_all id n [] h = refl
above_all id n (r ∷ rs) h =
    ground (arith, above_all id n rs, max-bounds r.version (last_version id rs))

-- The next version is the version of no revision of the recording.
pub next_revision_version_lem :
    (db : Db) (id : Text)
    → any (λ r. r.recording_id === id && r.version == next_revision_version db id) db.revisions
      ≡ false
unfolding next_revision_version
next_revision_version_lem db id =
    above_all id (suc (last_version id db.revisions)) db.revisions (omega arith)

-- Marking a revision changes no version.
pub any-update_row :
    (id j : Text) (n : ℕ) (mark : TranscriptRevisionState) (rs : List TranscriptRevision)
    → any (λ r. r.recording_id === j && r.version == n) (update_row id (with_state mark) rs)
      ≡ any (λ r. r.recording_id === j && r.version == n) rs
any-update_row id j n mark [] = refl
any-update_row id j n mark (r ∷ rs) = ground (arith, any-update_row id j n mark rs)

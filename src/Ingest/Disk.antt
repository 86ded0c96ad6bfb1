-- ===== src/Ingest/Disk.antt =====
-- The files of uploads: a temporary file for a session, by the session's id, and the media files, by
-- path. What was done to a file stays when the operation fails afterwards.
pub mod Laws
use superscriber.Prelude.{
  drop, false, true, Text, Option, some, none, ℕ, zero, suc, List, [], ◌∷◌, ◌++◌, Bool, not, ◌===◌,
  Keyed, row, filter_if, text_equal, length, ◌+◌,
}
use mathlib.Core.Option
use superscriber.Domain.Errors.{Result, ok, err}
use superscriber.Workflow.State.{AppState}
use superscriber.Workflow.Store.{Persisted, current_state_version, write_state}

pub record StoredFile : Type 0 where
  pub name : Text
  pub bytes : List ℕ

instance abbrev pub file_keyed : Keyed StoredFile
file_keyed = record { key = λ f. f.name }

pub record Disk : Type 0 where
  pub uploads : List StoredFile
  pub media : List StoredFile

abbrev pub exists : Option StoredFile → Bool
exists none = false
exists (some f) = true

abbrev pub temp_file : Text → Disk → Option StoredFile
temp_file session_id d = row session_id d.uploads

abbrev pub without : Text → List StoredFile → List StoredFile
without name files = filter_if (λ f. not (f.name === name)) files

-- `unlinkSync`.
abbrev pub remove_temp : Text → Disk → Disk
remove_temp session_id d = record d { uploads = without session_id d.uploads }

-- The file with these bytes and no other.
abbrev pub write_temp : Text → List ℕ → Disk → Disk
write_temp session_id bytes d = record d {
  uploads = record { name = session_id; bytes = bytes } ∷ without session_id d.uploads;
}

-- The bytes before a place, and zeros where the file is shorter.
abbrev pub take_padded : ℕ → List ℕ → List ℕ
take_padded zero bytes = []
take_padded (suc n) [] = 0 ∷ take_padded n []
take_padded (suc n) (b ∷ bytes) = b ∷ take_padded n bytes

-- `writeSync` at a place.
unfoldable pub write_at : ℕ → List ℕ → List ℕ → List ℕ
write_at place chunk bytes = take_padded place bytes ++ (chunk ++ drop (place + length chunk) bytes)

-- `renameSync` of a temporary file to a media path, where the file is there.
abbrev pub move_to_media : Text → Text → Option StoredFile → Disk → Disk
move_to_media session_id path none d = d
move_to_media session_id path (some f) d = record {
  uploads = without session_id d.uploads;
  media = record { name = path; bytes = f.bytes } ∷ without path d.media;
}

-- What follows where the first part has not failed; the files stay as they are where it has.
abbrev pub and_then :
    {A B : Type 0} → Result A × Disk → (A → Disk → Result B × Disk) → Result B × Disk
and_then (err e, d) rest = (err e, d)
and_then (ok a, d) rest = rest a d

-- The state and the files.
pub record Ingest : Type 0 where
  pub store : Persisted
  pub disk : Disk

-- A change of the state that may touch files.
abbrev pub Mutation : Type 0 → Type 0
Mutation A = AppState → Disk → Result (A × AppState) × Disk

module _ {A : Type 0} where
  abbrev pub commit : Result (A × AppState) → Persisted → Result A × Persisted
  commit (err e) p = (err e, p)
  commit (ok (a, s)) p = elim (write_state (current_state_version p) s p) [
    | ok q ↦ (ok a, q)
    | err e ↦ (err e, p)
  ]

  -- `withState` when no other process writes meanwhile.
  unfoldable pub mutate : Mutation A → Ingest → Result A × Ingest
  unfolding write_state
  mutate m w =
      let (r, d) = m w.store.app w.disk in
      let (a, p) = commit r w.store in (a, record { store = p; disk = d })

-- ===== src/Casefile/Edits.antt =====
-- The edits of a draft's segments (`applySegmentEdits`, `assertCompleteSegments` and
-- `summarizeSegmentEdits` of src/server/casefile/commands.ts).
pub mod Laws
use superscriber.Prelude.{
  Text, ℕ, Option, none, some, Bool, true, false, not, List, [], ◌∷◌, ◌++◌, map, ◌&&◌, ◌||◌, ◌===◌,
  text_equal, non_empty, if◌then◌else◌, any, find, length, units, ◌==◌,
}
use superscriber.Domain.Models.{TranscriptSegment, TranscriptSegmentEdit}
use superscriber.Domain.Errors.{Result, ok, err, ◌>>=◌, ◌>>◌, throw_if, field_failure}
use superscriber.Casefile.Capabilities.{is_some}
use superscriber.Casefile.Store.{EditSummary}

-- Identity and timing of two lists of segments agree, one by one.
unfoldable pub same_skeleton : List TranscriptSegment → List TranscriptSegment → Bool
same_skeleton [] [] = true
same_skeleton [] (s ∷ segments) = false
same_skeleton (p ∷ prior) [] = false
same_skeleton (p ∷ prior) (s ∷ segments) =
    (s.id === p.id && s.start_ms == p.start_ms && s.end_ms == p.end_ms)
    && same_skeleton prior segments

unfoldable pub assert_complete_segments :
    List TranscriptSegment → List TranscriptSegment → Result (Unit {0})
unfolding same_skeleton
assert_complete_segments prior segments = do
  throw_if (not (length segments == length prior)) (field_failure (units "segments"))
  throw_if (not (same_skeleton prior segments)) (field_failure (units "segments"))

abbrev pub or_else {ℓ} : {A : Type ℓ} → Option A → Option A → Option A
or_else (some a) o = some a
or_else none o = o

-- `{ ...old, ...edit }`: a field of the edit that is there wins.
abbrev pub merge_edit : TranscriptSegmentEdit → TranscriptSegmentEdit → TranscriptSegmentEdit
merge_edit old e = record {
  id = e.id;
  text = or_else e.text old.text;
  speaker_label = or_else e.speaker_label old.speaker_label;
}

-- `editBySegmentId.set(edit.id, …)` on the entries of the map, one for each id.
unfoldable pub set_edit :
    TranscriptSegmentEdit → List TranscriptSegmentEdit → List TranscriptSegmentEdit
set_edit e [] = e ∷ []
set_edit e (f ∷ fs) = if f.id === e.id then merge_edit f e ∷ fs else f ∷ set_edit e fs

-- The first loop: every edit names a segment, and edits of one segment are folded together.
unfoldable pub fold_edits :
    List TranscriptSegmentEdit → List TranscriptSegmentEdit → Result (List TranscriptSegmentEdit)
unfolding set_edit
fold_edits entries [] = ok entries
fold_edits entries (e ∷ es) =
    let rest = fold_edits (set_edit e entries) es in
    if non_empty e.id then rest else err (field_failure (units "edits"))

-- The second loop: every entry of the map addresses a segment of the draft.
unfoldable pub all_addressed : List TranscriptSegment → List TranscriptSegmentEdit → Bool
all_addressed prior [] = true
all_addressed prior (e ∷ es) = any (λ s. s.id === e.id) prior && all_addressed prior es

abbrev pub text_or : Option Text → Text → Text
text_or (some t) s = t
text_or none s = s

unfoldable pub edit_segment : Option TranscriptSegmentEdit → TranscriptSegment → TranscriptSegment
edit_segment none s = s
edit_segment (some e) s = record s {
  text = text_or e.text s.text;
  speaker_label = text_or e.speaker_label s.speaker_label;
}

abbrev pub entry_for : List TranscriptSegmentEdit → Text → Option TranscriptSegmentEdit
entry_for entries id = find (λ e. e.id === id) entries

unfoldable pub apply_segment_edits :
    List TranscriptSegment → List TranscriptSegmentEdit → Result (List TranscriptSegment)
unfolding fold_edits all_addressed edit_segment
apply_segment_edits prior edits = do
  entries ← fold_edits [] edits
  throw_if (not (all_addressed prior entries)) (field_failure (units "edits"))
  ok (map (λ s. edit_segment (entry_for entries s.id) s) prior)

abbrev pub fields_of : TranscriptSegmentEdit → List Text
fields_of e =
    (if is_some e.text then units "text" ∷ [] else [])
    ++ (if is_some e.speaker_label then units "speakerLabel" ∷ [] else [])

unfoldable pub summarize_segment_edits : List TranscriptSegmentEdit → List EditSummary
summarize_segment_edits edits = map (λ e. record { segment_id = e.id; fields = fields_of e }) edits

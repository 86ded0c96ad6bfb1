-- ===== src/Casefile/Edits/Laws.antt =====
-- What the edits of a draft do to its segments.
use superscriber.Prelude.{
  true, ◌≡◌, refl, ap₂, List, [], ◌∷◌, map, ◌===◌, text_equal, map-ext, arith, if◌then◌else◌, not,
  length-map, units,
}
use superscriber.Domain.Models.{TranscriptSegment, TranscriptSegmentEdit}
use superscriber.Domain.Errors.{ok, chain_ok, throw_if, field_failure}
use superscriber.Casefile.Edits.{
  same_skeleton, assert_complete_segments, set_edit, fold_edits, all_addressed, edit_segment,
  entry_for, apply_segment_edits, text_or,
}

-- What a list of edits, applied one after the other, makes of one segment.
abbrev pub edited : List TranscriptSegmentEdit → TranscriptSegment → TranscriptSegment
edited [] s = s
edited (e ∷ es) s = edited es (
    if e.id === s.id
    then record s {
      text = text_or e.text s.text;
      speaker_label = text_or e.speaker_label s.speaker_label;
    }
    else s)

entry_for-set_edit :
    (e : TranscriptSegmentEdit) (entries : List TranscriptSegmentEdit) (s : TranscriptSegment)
    → edit_segment (entry_for (set_edit e entries) s.id) s
      ≡ edited (e ∷ []) (edit_segment (entry_for entries s.id) s)
unfolding set_edit edit_segment
entry_for-set_edit e [] s = ground arith
entry_for-set_edit e (f ∷ fs) s = ground (arith, entry_for-set_edit e fs s)

fold_edits-edited :
    (entries es out : List TranscriptSegmentEdit) (s : TranscriptSegment)
    → fold_edits entries es ≡ ok out
    → edit_segment (entry_for out s.id) s ≡ edited es (edit_segment (entry_for entries s.id) s)
unfolding fold_edits
fold_edits-edited entries [] out s h = ground arith
fold_edits-edited entries (e ∷ es) out s h =
    ground (arith, entry_for-set_edit e entries s, fold_edits-edited (set_edit e entries) es out s)

-- Edits that are accepted give the segments that applying them one after the other gives: a later
-- edit of a field wins, and a segment that no edit names is unchanged.
pub apply_segment_edits_lem :
    (prior : List TranscriptSegment) (edits : List TranscriptSegmentEdit)
    (out : List TranscriptSegment)
    → apply_segment_edits prior edits ≡ ok out
    → out ≡ map (edited edits) prior
unfolding apply_segment_edits
apply_segment_edits_lem prior edits out h =
    let (entries, folded, rest) = chain_ok (fold_edits [] edits) h in
    let (t, addressed, done) =
      chain_ok (throw_if (not (all_addressed prior entries)) (field_failure (units "edits")))
        rest in
    let same =
      map-ext (λ s. edit_segment (entry_for entries s.id) s) (edited edits) prior
        (λ s. fold_edits-edited [] edits entries s folded) in
    ground (arith, done, same)

edited_skeleton :
    (es : List TranscriptSegmentEdit) (s : TranscriptSegment)
    → let t = edited es s in
      (t.id ≡ s.id)
      × (t.start_ms ≡ s.start_ms)
      × (t.end_ms ≡ s.end_ms)
      × (t.confidence ≡ s.confidence)
edited_skeleton [] s = (refl, refl, refl, refl)
edited_skeleton (e ∷ es) s = ground (
  arith,
  edited_skeleton es s,
  edited_skeleton es (record s {
    text = text_or e.text s.text;
    speaker_label = text_or e.speaker_label s.speaker_label;
  }),
)

map-edited_skeleton :
    (es : List TranscriptSegmentEdit) (prior : List TranscriptSegment)
    → same_skeleton prior (map (edited es) prior) ≡ true
unfolding same_skeleton
map-edited_skeleton es [] = refl
map-edited_skeleton es (s ∷ prior) =
    ground (arith, edited_skeleton es s, map-edited_skeleton es prior)

map-edited_confidence :
    (es : List TranscriptSegmentEdit) (prior : List TranscriptSegment)
    → map (λ s. s.confidence) (map (edited es) prior) ≡ map (λ s. s.confidence) prior
map-edited_confidence es [] = refl
map-edited_confidence es (s ∷ prior) =
    ap₂ ◌∷◌ (edited_skeleton es s).3 (map-edited_confidence es prior)

-- Accepted edits leave the skeleton of the draft: what they give passes the check of a complete save.
pub apply_segment_edits_complete :
    (prior : List TranscriptSegment) (edits : List TranscriptSegmentEdit)
    (out : List TranscriptSegment)
    → apply_segment_edits prior edits ≡ ok out
    → (assert_complete_segments prior out ≡ ok tt)
      × (map (λ s. s.confidence) out ≡ map (λ s. s.confidence) prior)
unfolding assert_complete_segments
apply_segment_edits_complete prior edits out h = rw (apply_segment_edits_lem prior edits out h) (
  ground (arith, length-map (edited edits) prior, map-edited_skeleton edits prior),
  map-edited_confidence edits prior,
)

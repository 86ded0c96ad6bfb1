-- ===== src/Examples/Speech.antt =====
-- Segments, edits and speakers, on the example.
use superscriber.Prelude.{
  arith, ◌+◌, ◌≤◌, ◌<◌, none, some, true, ◌≡◌, ◌≢◌, refl, List, [], ◌∷◌, units, map, length, trim,
  text_equal, count_if,
}
use superscriber.Domain.Models.{TranscriptSegment, TranscriptSegmentEdit}
use superscriber.Domain.Errors.{ok}
use superscriber.Casefile.Edits.{apply_segment_edits}
use superscriber.Casefile.Edits.Laws.{apply_segment_edits_lem, edited}
use superscriber.Examples.{first_segment, second_segment}

abbrev segments : List TranscriptSegment
segments = first_segment ∷ second_segment ∷ []

-- Two edits of the first segment: the later text wins, and the label of the earlier one is kept.
abbrev edits : List TranscriptSegmentEdit
edits =
    record { id = units "s1"; text = some (units "hello,"); speaker_label = some (units "C") }
    ∷ record { id = units "s1"; text = some (units "hello!"); speaker_label = none }
    ∷ []

abbrev merged : List TranscriptSegment
merged =
    record first_segment { text = units "hello!"; speaker_label = units "C" } ∷ second_segment ∷ []

edits_run : apply_segment_edits segments edits ≡ ok merged
unfolding apply_segment_edits superscriber.Prelude.Text-discrete
edits_run = refl

apply_segment_edits_lem_example : merged ≡ map (edited edits) segments
apply_segment_edits_lem_example = apply_segment_edits_lem segments edits merged edits_run

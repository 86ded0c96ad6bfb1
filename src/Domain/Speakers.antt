-- ===== src/Domain/Speakers.antt =====
-- Speaker names, their counts and their renaming (src/domain/speakers.ts).
pub mod Names
pub mod Counts
pub mod Rename
use Prim.Native.Nat.{◌/◌, ◌%◌, zero}
use superscriber.Prelude.{
  ◌++◌, Text, ℕ, suc, ◌+◌, ◌<◌, Option, none, some, Bool, List, [], ◌∷◌, map, ◌===◌, text_equal,
  non_empty, not, if◌then◌else◌, ltb, leb, length, count_if, filter_if, trim, units, ◌==◌,
}
use superscriber.Domain.Models.{TranscriptSegment}
use superscriber.Domain.Errors.{Result, ok, err, ◌>>=◌, ◌>>◌, throw_if, field_failure}

abbrev pub speaker_name_max_length : ℕ
speaker_name_max_length = 80

pub record SpeakerCount : Type 0 where
  pub label : Text
  pub segment_count : ℕ

pub record SpeakerRenamePlan : Type 0 where
  pub from_speaker : Text
  pub to_speaker : Text
  pub renamed_segment_count : ℕ
  pub existing_target_segment_count : ℕ
  pub merges_with_existing : Bool
  pub segment_ids : List Text

unfoldable pub validate_speaker_name : Text → Text → Result Text
validate_speaker_name value field =
    let name = trim value in
    if not (non_empty name)
    then err (field_failure field)
    else if ltb speaker_name_max_length (length name)
    then err (field_failure field)
    else ok name

-- The decimal digits of a number, on fuel: a number has at most as many digits as itself, or one.
unfoldable decimal_from : ℕ → ℕ → Text → Text
decimal_from zero n digits = digits
decimal_from (suc fuel) n digits =
    let rest = decimal_from fuel (n / 10) ((48 + n % 10) ∷ digits) in
    if ltb n 10 then (48 + n) ∷ digits else rest

unfoldable pub decimal : ℕ → Text
unfolding decimal_from
decimal n = decimal_from (suc n) n []

-- The field that a refused label is reported under.
unfoldable pub segment_field : ℕ → Text
unfolding decimal
segment_field index = units "segments." ++ (decimal index ++ units ".speakerLabel")

-- `segments.map((segment, index) => …)`, from an index on.
unfoldable pub normalize_labels_from : ℕ → List TranscriptSegment → Result (List TranscriptSegment)
normalize_labels_from index [] = ok []
normalize_labels_from index (s ∷ rest) = do
  label ← validate_speaker_name s.speaker_label (segment_field index)
  others ← normalize_labels_from (suc index) rest
  ok (record s { speaker_label = label } ∷ others)

unfoldable pub normalize_speaker_labels : List TranscriptSegment → Result (List TranscriptSegment)
unfolding normalize_labels_from
normalize_speaker_labels segments = normalize_labels_from 0 segments

-- `counts.set(label, (counts.get(label) ?? 0) + 1)` on a map in order of first appearance.
unfoldable pub add_count : Text → List SpeakerCount → List SpeakerCount
add_count l [] = record { label = l; segment_count = 1 } ∷ []
add_count l (c ∷ cs) =
    if c.label === l
    then record c { segment_count = c.segment_count + 1 } ∷ cs
    else c ∷ add_count l cs

unfoldable pub count_speakers : List SpeakerCount → List TranscriptSegment → List SpeakerCount
count_speakers counts [] = counts
count_speakers counts (s ∷ rest) = count_speakers (add_count s.speaker_label counts) rest

unfoldable pub list_speakers : List TranscriptSegment → List SpeakerCount
list_speakers segments = count_speakers [] segments

-- The test of the source's filters on a label.
abbrev pub spoken_by : Text → TranscriptSegment → Bool
spoken_by l s = s.speaker_label === l

unfoldable pub plan_speaker_rename : List TranscriptSegment → Text → Text → Result SpeakerRenamePlan
plan_speaker_rename segments from to_speaker = do
  to ← validate_speaker_name to_speaker (units "toSpeaker")
  throw_if (from === to) (field_failure (units "toSpeaker"))
  let moving = filter_if (spoken_by from) segments
  throw_if (length moving == 0) (field_failure (units "fromSpeaker"))
  let existing = length (filter_if (spoken_by to) segments)
  ok (record {
    from_speaker = from;
    to_speaker = to;
    renamed_segment_count = length moving;
    existing_target_segment_count = existing;
    merges_with_existing = ltb 0 existing;
    segment_ids = map (λ s. s.id) moving;
  })

abbrev pub rename_segment : Text → Text → TranscriptSegment → TranscriptSegment
rename_segment from to s = if s.speaker_label === from then record s { speaker_label = to } else s

unfoldable pub apply_speaker_rename : List TranscriptSegment → Text → Text → List TranscriptSegment
apply_speaker_rename segments from to = map (rename_segment from to) segments

-- Between quotation marks.
abbrev pub quoted : Text → Text
quoted name = 34 ∷ (name ++ 34 ∷ [])

unfoldable pub segment_words : ℕ → Text
unfolding decimal
segment_words count =
    decimal count ++ (units " " ++ (if count == 1 then units "segment" else units "segments"))

-- What a rename does, for a reader: the merge is told where the new name is there already.
unfoldable pub describe_speaker_rename : SpeakerRenamePlan → Text
unfolding segment_words
describe_speaker_rename plan =
    let base =
      units "Renamed "
      ++ (quoted plan.from_speaker
          ++ (units " to "
              ++ (quoted plan.to_speaker
                  ++ (units " across "
                      ++ (segment_words plan.renamed_segment_count ++ units "."))))) in
    if not plan.merges_with_existing
    then base
    else (base
        ++ (units " Merged with existing "
            ++ (quoted plan.to_speaker
                ++ (units " ("
                    ++ (segment_words plan.existing_target_segment_count ++ units ").")))))

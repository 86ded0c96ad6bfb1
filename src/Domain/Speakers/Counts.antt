-- ===== src/Domain/Speakers/Counts.antt =====
-- The speaker counts of a transcript (`listSpeakers` of src/domain/speakers.ts).
use superscriber.Prelude.{
  Text, ℕ, suc, ◌+◌, ◌≡◌, refl, List, [], ◌∷◌, arith, length, count_if, if◌then◌else◌, ◌===◌,
  text_equal,
}
use superscriber.Domain.Models.{TranscriptSegment}
use superscriber.Domain.Speakers.{SpeakerCount, add_count, count_speakers, list_speakers, spoken_by}

-- What a list of counts says of a label: the first entry counts.
abbrev pub count_of : Text → List SpeakerCount → ℕ
count_of l [] = 0
count_of l (c ∷ cs) = if c.label === l then c.segment_count else count_of l cs

abbrev pub total_count : List SpeakerCount → ℕ
total_count [] = 0
total_count (c ∷ cs) = c.segment_count + total_count cs

count_of-add_count :
    (l k : Text) (cs : List SpeakerCount)
    → count_of l (add_count k cs) ≡ (if k === l then suc (count_of l cs) else count_of l cs)
unfolding add_count
count_of-add_count l k [] = ground arith
count_of-add_count l k (c ∷ cs) = ground (arith, count_of-add_count l k cs)

total_count-add_count :
    (k : Text) (cs : List SpeakerCount) → total_count (add_count k cs) ≡ suc (total_count cs)
unfolding add_count
total_count-add_count k [] = refl
total_count-add_count k (c ∷ cs) = ground (arith, total_count-add_count k cs)

count_speakers_lem :
    (l : Text) (cs : List SpeakerCount) (xs : List TranscriptSegment)
    → (count_of l (count_speakers cs xs) ≡ count_of l cs + count_if (spoken_by l) xs)
      × (total_count (count_speakers cs xs) ≡ total_count cs + length xs)
unfolding count_speakers
count_speakers_lem l cs [] = omega arith
count_speakers_lem l cs (x ∷ xs) = ground (
  arith,
  count_speakers_lem l (add_count x.speaker_label cs) xs,
  count_of-add_count l x.speaker_label cs,
  total_count-add_count x.speaker_label cs,
)

-- The counts name every label with the number of its segments, and they add up to the number of
-- segments of the transcript.
pub list_speakers_lem :
    (l : Text) (xs : List TranscriptSegment)
    → (count_of l (list_speakers xs) ≡ count_if (spoken_by l) xs)
      × (total_count (list_speakers xs) ≡ length xs)
unfolding list_speakers
list_speakers_lem l xs = ground (arith, count_speakers_lem l [] xs)

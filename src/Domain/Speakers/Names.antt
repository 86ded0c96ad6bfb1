-- ===== src/Domain/Speakers/Names.antt =====
-- Which speaker names are accepted, and that normalising them is stable.
use superscriber.Prelude.{
  ℕ, suc, Text, ◌≤◌, ◌<◌, ◌≡◌, List, [], ◌∷◌, arith, length, trim, trim-trim,
}
use superscriber.Domain.Speakers.{
  normalize_labels_from, validate_speaker_name, normalize_speaker_labels, segment_field,
}
use superscriber.Domain.Models.{TranscriptSegment}
use superscriber.Domain.Errors.{ok, chain_ok}

-- An accepted name is the trimmed value, and it has from 1 to 80 units.
pub validate_speaker_name_lem :
    (v f n : Text)
    → validate_speaker_name v f ≡ ok n
    → (n ≡ trim v) × (0 < length n) × (length n ≤ 80)
unfolding validate_speaker_name
validate_speaker_name_lem v f n h = ground arith

-- An accepted name is accepted again, unchanged, under any field.
pub validate_speaker_name_again :
    (v f g n : Text) → validate_speaker_name v f ≡ ok n → validate_speaker_name n g ≡ ok n
unfolding validate_speaker_name
validate_speaker_name_again v f g n h = ground (arith, trim-trim v)

normalize_labels_from-again :
    (i : ℕ) (xs ys : List TranscriptSegment)
    → normalize_labels_from i xs ≡ ok ys
    → normalize_labels_from i ys ≡ ok ys
unfolding normalize_labels_from
normalize_labels_from-again i [] ys h = ground arith
normalize_labels_from-again i (x ∷ xs) ys h =
    let (l, named, rest) = chain_ok (validate_speaker_name x.speaker_label (segment_field i)) h in
    let (zs, others, same) = chain_ok (normalize_labels_from (suc i) xs) rest in
    ground (
      arith,
      same,
      validate_speaker_name_again x.speaker_label (segment_field i) (segment_field i) l named,
      normalize_labels_from-again (suc i) xs zs others,
    )

-- Normalising twice is normalising once.
pub normalize_speaker_labels_again :
    (xs ys : List TranscriptSegment)
    → normalize_speaker_labels xs ≡ ok ys
    → normalize_speaker_labels ys ≡ ok ys
unfolding normalize_speaker_labels
normalize_speaker_labels_again xs ys h = normalize_labels_from-again 0 xs ys h

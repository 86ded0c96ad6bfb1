-- ===== src/Domain/Speakers/Rename.antt =====
-- What renaming a speaker does to a transcript (src/domain/speakers.ts).
use superscriber.Prelude.{
  ℕ, suc, Text, ◌+◌, ◌<◌, ◌≡◌, ◌≢◌, refl, List, [], ◌∷◌, arith, length, count_if, filter_if, map,
  length-filter_if, ltb, length-map, units,
}
use superscriber.Domain.Speakers.{
  normalize_labels_from, SpeakerRenamePlan, plan_speaker_rename, apply_speaker_rename, spoken_by,
  validate_speaker_name, normalize_speaker_labels, segment_field,
}
use superscriber.Domain.Models.{TranscriptSegment}
use superscriber.Domain.Errors.{ok, chain_ok}
use superscriber.Domain.Speakers.Names.{validate_speaker_name_again}

abbrev pub spoken : Text → List TranscriptSegment → ℕ
spoken l = count_if (spoken_by l)

-- No segment keeps the old label, and the new label has the segments of both.
pub spoken-apply_speaker_rename :
    (from to : Text) (xs : List TranscriptSegment)
    → from ≢ to
    → (spoken from (apply_speaker_rename xs from to) ≡ 0)
      × (spoken to (apply_speaker_rename xs from to) ≡ spoken from xs + spoken to xs)
unfolding apply_speaker_rename
spoken-apply_speaker_rename from to [] h = omega arith
spoken-apply_speaker_rename from to (x ∷ xs) h =
    ground (arith, spoken-apply_speaker_rename from to xs h)

-- A third label keeps its segments.
pub spoken-apply_speaker_rename_ne :
    (from to l : Text) (xs : List TranscriptSegment)
    → l ≢ from
    → l ≢ to
    → spoken l (apply_speaker_rename xs from to) ≡ spoken l xs
unfolding apply_speaker_rename
spoken-apply_speaker_rename_ne from to l [] h k = refl
spoken-apply_speaker_rename_ne from to l (x ∷ xs) h k =
    ground (arith, spoken-apply_speaker_rename_ne from to l xs h k)

-- What a plan says of the transcript that it was made for.
pub record IsPlanOf (xs : List TranscriptSegment) (from : Text) (p : SpeakerRenamePlan)
    : Type 0 where
  pub same_speaker : p.from_speaker ≡ from
  pub valid_target : validate_speaker_name p.to_speaker (units "toSpeaker") ≡ ok p.to_speaker
  pub distinct : from ≢ p.to_speaker
  pub renamed : p.renamed_segment_count ≡ spoken from xs
  pub some_move : 0 < p.renamed_segment_count
  pub existing : p.existing_target_segment_count ≡ spoken p.to_speaker xs
  pub merges : p.merges_with_existing ≡ ltb 0 (spoken p.to_speaker xs)
  pub ids : p.segment_ids ≡ map (λ s. s.id) (filter_if (spoken_by from) xs)

pub plan_speaker_rename-IsPlanOf :
    (xs : List TranscriptSegment) (from t : Text) (p : SpeakerRenamePlan)
    → plan_speaker_rename xs from t ≡ ok p
    → IsPlanOf xs from p
unfolding plan_speaker_rename
plan_speaker_rename-IsPlanOf xs from t p h =
    let (to, named, rest) = chain_ok (validate_speaker_name t (units "toSpeaker")) h in
    ground (
      arith,
      validate_speaker_name_again t (units "toSpeaker") (units "toSpeaker") to named,
      length-filter_if (spoken_by from) xs,
      length-filter_if (spoken_by to) xs,
    )

-- Carrying out a plan for a transcript: at least one segment moves, afterwards the old label has no
-- segment, the new one has the two counts that the plan gives, a third label has what it had, and
-- the plan lists as many ids as segments move.
pub plan_speaker_rename_lem :
    (xs : List TranscriptSegment) (from t l : Text) (p : SpeakerRenamePlan)
    → plan_speaker_rename xs from t ≡ ok p
    → l ≢ p.from_speaker
    → l ≢ p.to_speaker
    → let ys = apply_speaker_rename xs p.from_speaker p.to_speaker in
      (0 < p.renamed_segment_count)
      × (spoken p.from_speaker ys ≡ 0)
      × (spoken p.to_speaker ys ≡ p.renamed_segment_count + p.existing_target_segment_count)
      × (spoken l ys ≡ spoken l xs)
      × (length p.segment_ids ≡ p.renamed_segment_count)
plan_speaker_rename_lem xs from t l p h a b =
    let k = plan_speaker_rename-IsPlanOf xs from t p h in
    ground (
      arith,
      spoken-apply_speaker_rename from p.to_speaker xs,
      spoken-apply_speaker_rename_ne from p.to_speaker l xs,
      length-map (λ (s : TranscriptSegment). s.id) (filter_if (spoken_by from) xs),
      length-filter_if (spoken_by from) xs,
    )

normalize_labels_from-apply :
    (i : ℕ) (from to : Text) (xs : List TranscriptSegment)
    → validate_speaker_name to (units "toSpeaker") ≡ ok to
    → normalize_labels_from i xs ≡ ok xs
    → normalize_labels_from i (apply_speaker_rename xs from to)
      ≡ ok (apply_speaker_rename xs from to)
unfolding normalize_labels_from apply_speaker_rename
normalize_labels_from-apply i from to [] v h = refl
normalize_labels_from-apply i from to (x ∷ xs) v h =
    let (l, named, rest) = chain_ok (validate_speaker_name x.speaker_label (segment_field i)) h in
    let (zs, others, same) = chain_ok (normalize_labels_from (suc i) xs) rest in
    ground (
      arith,
      normalize_labels_from-apply (suc i) from to xs v,
      validate_speaker_name_again to (units "toSpeaker") (segment_field i) to v,
      named,
      others,
      same,
    )

-- Carrying out a plan keeps normalised labels normalised, so the renamed transcript may be stored
-- with its labels as they are.
pub plan_speaker_rename-normalize :
    (xs : List TranscriptSegment) (from t : Text) (p : SpeakerRenamePlan)
    → normalize_speaker_labels xs ≡ ok xs
    → plan_speaker_rename xs from t ≡ ok p
    → let ys = apply_speaker_rename xs p.from_speaker p.to_speaker in
      normalize_speaker_labels ys ≡ ok ys
unfolding normalize_speaker_labels
plan_speaker_rename-normalize xs from t p n h =
    let k = plan_speaker_rename-IsPlanOf xs from t p h in
    normalize_labels_from-apply 0 p.from_speaker p.to_speaker xs k.valid_target n

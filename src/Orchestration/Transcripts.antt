-- ===== src/Orchestration/Transcripts.antt =====
-- The transcript of the demonstration (src/domain/mock-transcript.ts).
use superscriber.Prelude.{
  Text, ℕ, ◌+◌, ◌*◌, List, [], ◌∷◌, ◌++◌, ◌==◌, if◌then◌else◌, units, trim, to_lower, starts_with,
  text_equal,
}
use Prim.Native.Nat.{◌%◌}
use superscriber.Domain.Models.{
  Recording, TranscriptSegment, integrity_state_equal, job_state_equal, media_kind_equal,
}
use superscriber.Domain.Speakers.{decimal}

unfoldable pub english : List Text
english =
    units "Thank you for taking the time to speak with us today."
    ∷ units
        "The main concern raised in this interview is the time required to coordinate follow-up actions."
    ∷ units "We also need to protect the identifiers mentioned during the conversation."
    ∷ units "Please confirm the next review step before this transcript is approved."
    ∷ []

unfoldable pub danish : List Text
danish =
    units "Tak fordi du tager dig tid til at tale med os i dag."
    ∷ units "Det vigtigste tema i interviewet er opfølgning og koordinering."
    ∷ units "Vi skal samtidig beskytte de personoplysninger, der bliver nævnt."
    ∷ units "Bekræft venligst næste trin, før transskriptionen godkendes."
    ∷ []

unfoldable pub german : List Text
german =
    units "Vielen Dank, dass Sie sich heute Zeit für dieses Gespräch nehmen."
    ∷ units "Das Hauptthema im Interview ist die Koordination der weiteren Schritte."
    ∷ units "Wir müssen dabei besonders auf die erwähnten personenbezogenen Daten achten."
    ∷ units "Bitte bestätigen Sie den nächsten Prüfschritt vor der Freigabe."
    ∷ []

unfoldable pub library_for_language : Text → List Text
unfolding to_lower starts_with
library_for_language hint =
    let normalized = to_lower (trim hint) in
    if starts_with normalized (units "da")
    then danish
    else if starts_with normalized (units "de")
    then german
    else english

-- A confidence is in hundredths.
unfoldable pub mock_segments : Text → ℕ → List Text → List TranscriptSegment
mock_segments recording_id index [] = []
mock_segments recording_id index (text ∷ rest) =
    record {
      id = recording_id ++ (units "-segment-" ++ decimal (index + 1));
      speaker_label = if index % 2 == 0 then units "Speaker A" else units "Speaker B";
      start_ms = index * 17000;
      end_ms = index * 17000 + 15000;
      text = text;
      confidence = if index == 2 then 86 else 93;
    }
    ∷ mock_segments recording_id (index + 1) rest

unfoldable pub build_mock_transcript : Recording → List TranscriptSegment
unfolding mock_segments library_for_language
build_mock_transcript r = mock_segments r.id 0 (library_for_language r.language_hint)

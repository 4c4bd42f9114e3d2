-- ===== src/Proctor/Signals.antt =====
-- What the server itself finds: app/modules/proctoring/voice_signals.py, from the audio, and
-- `findings_for` of app/modules/proctoring/vision.py, from the webcam stills.
pub mod Speakers
use ai_interviewer.Base.{
  ℕ, ◌+◌, ◌/◌, Bool, true, false, not, Option, none, some, List, [], ◌∷◌, ◌++◌, map, leb, ltb, ◌==◌,
  if◌then◌else◌,
}
use ai_interviewer.Base.Lists.{sum, keep, is_empty}
use ai_interviewer.Base.Text.{Text, codes}
use ai_interviewer.Proctor.{
  EventType, second_speaker, anomalous_silence, face_absent, multiple_faces, Severity, info, warn,
  critical, Thresholds,
}
use ai_interviewer.Proctor.Collector.{Row, Observation, prime}
use ai_interviewer.Proctor.Collector.Ingest.{record_all}

-- the notes of the findings, by what fills them
pub data Note : Type 0 where
  words seconds faces : ℕ → Note
  said : Text → Note
  no_face : Note

pub record Finding : Type 0 where
  pub event_type : EventType
  pub severity : Severity
  pub note : Note

-- `tag != interviewer_tag`
unfoldable pub is_other_tag : Option ℕ → ℕ × ℕ → Bool
is_other_tag none e = true
is_other_tag (some t) e = not (e.0 == t)

unfoldable pub remaining : Option ℕ → List (ℕ × ℕ) → List ℕ
remaining tag [] = []
remaining tag (e ∷ es) =
    let rest = remaining tag es in if is_other_tag tag e then e.1 ∷ rest else rest

-- `sorted(values, reverse=True)`
unfoldable pub insert_desc : ℕ → List ℕ → List ℕ
insert_desc n [] = n ∷ []
insert_desc n (m ∷ ms) = if leb m n then n ∷ m ∷ ms else m ∷ insert_desc n ms

unfoldable pub sort_desc : List ℕ → List ℕ
sort_desc [] = []
sort_desc (n ∷ ns) = insert_desc n (sort_desc ns)

-- `[1:]`
unfoldable pub rest_of : List ℕ → List ℕ
rest_of [] = []
rest_of (_ ∷ ns) = ns

-- `sum(n for n in others if n >= MIN_UTTERANCES_FOR_SECOND_SPEAKER)`
unfoldable pub supporting : List ℕ → ℕ
supporting [] = 0
supporting (n ∷ ns) = (if leb 2 n then n else 0) + supporting ns

-- `tag_counts` is a dictionary of the words for each tag. With nobody else there is nothing to sum, so
-- the source's first `return None` is the case of a sum of zero.
unfoldable pub assess_speakers : List (ℕ × ℕ) → Option ℕ → Option Finding
assess_speakers tag_counts interviewer_tag =
    let others = rest_of (sort_desc (remaining interviewer_tag tag_counts)) in
    if is_empty others
    then none
    else if supporting others == 0
    then none
    else some (record {
      event_type = second_speaker;
      severity = critical;
      note = words (supporting others);
    })

unfoldable pub assess_silence : ℕ → Option Finding
assess_silence gap_ms =
    if ltb gap_ms 15_000
    then none
    else some
        (record { event_type = anomalous_silence; severity = info; note = seconds (gap_ms / 1000) })

-- `analysis.note or text`
abbrev pub note_or : Text → Note → Note
note_or t n = if is_empty t then n else said t

-- `findings_for`, of an analysis with so many faces and a note
unfoldable pub findings_for : ℕ → Text → List Finding
findings_for n note =
    if n == 0
    then record { event_type = face_absent; severity = warn; note = note_or note no_face } ∷ []
    else if ltb 1 n
    then record { event_type = multiple_faces; severity = critical; note = note_or note (faces n) }
      ∷ []
    else []

abbrev pub to_list : Option Finding → List Finding
to_list none = []
to_list (some f) = f ∷ []

-- the event `VoiceSignalObserved`
pub record VoiceSignal : Type 0 where
  pub speaker_tag_counts : List (ℕ × ℕ)
  pub silence_gap_ms : ℕ
  pub offset_ms : ℕ

unfoldable pub voice_findings : VoiceSignal → List Finding
voice_findings e =
    to_list (assess_speakers e.speaker_tag_counts none) ++ to_list (assess_silence e.silence_gap_ms)

-- what is handed to `record` for a finding; `render` writes a note out
unfoldable pub voice_observation : (Note → Text) → ℕ → VoiceSignal → Finding → Observation
voice_observation render now e f = record {
  event_type = f.event_type;
  at = now;
  offset_ms = some e.offset_ms;
  payload = some ((codes "note", render f.note) ∷ (codes "source", codes "audio") ∷ []);
  s3_key = none;
  severity = some f.severity;
}

-- `_on_voice_signal`: the rows that it adds to those of the interview
unfoldable pub on_voice_signal : (Note → Text) → Thresholds → ℕ → VoiceSignal → List Row → List Row
on_voice_signal render th now e rows =
    record_all th (prime rows) (map (voice_observation render now e) (voice_findings e))

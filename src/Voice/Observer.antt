-- ===== src/Voice/Observer.antt =====
-- The transcript observer: app/modules/voice/observers.py. It is called once for each hop of a frame through
-- the pipeline. Times are in milliseconds, of the monotonic clock.
pub mod Hops
pub mod Recorded
pub mod Stale
use ai_interviewer.Base.{
  ℕ, ◌+◌, ◌-◌, zero, suc, ◌&&◌, Bool, true, false, not, Option, none, some, List, [], ◌∷◌, ◌++◌,
  leb, if◌then◌else◌, or_else,
}
use ai_interviewer.Base.Dict.{get, put}
use ai_interviewer.Base.Lists.{is_empty}
use ai_interviewer.Base.Text.{Text, codes, strip}
use ai_interviewer.Transcript.{TurnCompleted, max}
use ai_interviewer.Proctor.Signals.{VoiceSignal}

-- an attribute of a word that may hold a speaker tag: `other` is a value that is no number from 0 on
pub data Attribute : Type 0 where
  missing other : Attribute
  tag : ℕ → Attribute

pub record SpokenWord : Type 0 where
  pub speaker_tag : Attribute
  pub speaker : Attribute

pub data Content : Type 0 where
  transcription : Text → List SpokenWord → Content
  tts_text : Text → Content
  bot_stopped_speaking : Content
  another : Content

pub record Frame : Type 0 where
  pub id : Option ℕ
  pub content : Content

-- one call of the observer, with the time at which it is made
abbrev pub Push : Type 0
Push = Frame × ℕ

-- `TranscriptObserver` with what it has published, the latest first; the frame id -1 is `none`
pub record TranscriptObserver : Type 0 where
  pub ordinal : ℕ
  pub t0 : ℕ
  pub bot_parts : List Text
  pub bot_started_ms : Option ℕ
  pub question_ordinal : ℕ
  pub last_frame_id : Option ℕ
  pub last_candidate_ms : Option ℕ
  pub turns : List TurnCompleted
  pub signals : List VoiceSignal

-- `__init__`
unfoldable pub new_observer : (start_ordinal t0 : ℕ) → TranscriptObserver
new_observer start_ordinal t0 = record {
  ordinal = start_ordinal;
  t0 = t0;
  bot_parts = [];
  bot_started_ms = none;
  question_ordinal = 0;
  last_frame_id = none;
  last_candidate_ms = none;
  turns = [];
  signals = [];
}

abbrev pub offset_ms : ℕ → TranscriptObserver → ℕ
offset_ms now o = now - o.t0

unfoldable pub emit :
    Text → Text → (started_ms ended_ms : ℕ) → TranscriptObserver → TranscriptObserver
emit speaker content started_ms ended_ms o =
    let text = strip content in
    if is_empty text then o else record o {
      turns =
          record {
            ordinal = o.ordinal;
            speaker = speaker;
            content = text;
            started_offset_ms = started_ms;
            ended_offset_ms = max ended_ms started_ms;
            question_ordinal = some o.question_ordinal;
          }
          ∷ o.turns;
      ordinal = o.ordinal + 1;
    }

-- `_first_sighting`, and the observer after it
unfoldable pub first_sighting : Option ℕ → TranscriptObserver → Bool
first_sighting none o = true
first_sighting (some n) o = elim o.last_frame_id [ none ↦ true | some last ↦ not (leb n last) ]

abbrev pub sighted : Option ℕ → TranscriptObserver → TranscriptObserver
sighted none o = o
sighted (some n) o = record o { last_frame_id = some n }

abbrev pub number : Attribute → Option ℕ
number (tag n) = some n
number _ = none

-- `getattr(word, "speaker_tag", None) or getattr(word, "speaker", None)`, if it is a number from 0 on
unfoldable pub tag_of : SpokenWord → Option ℕ
tag_of w = elim w.speaker_tag [
  | missing ↦ number w.speaker
  | other ↦ none
  | tag zero ↦ number w.speaker
  | tag (suc n) ↦ some (suc n)
]

unfoldable pub count_tags : List SpokenWord → List (ℕ × ℕ) → List (ℕ × ℕ)
count_tags [] counts = counts
count_tags (w ∷ ws) counts =
    count_tags ws
      (elim (tag_of w) [ none ↦ counts | some n ↦ put n (or_else (get n counts) 0 + 1) counts ])

-- `_report_voice_signals`; a gap is never negative, as the clock is monotonic
unfoldable pub report_voice_signals : List SpokenWord → ℕ → TranscriptObserver → TranscriptObserver
report_voice_signals words now_ms o =
    let counts = count_tags words [] in
    let gap : ℕ = elim o.last_candidate_ms [ none ↦ 0 | some last ↦ now_ms - last ] in
    if is_empty counts && leb gap 0 then o else record o {
      signals =
          record { speaker_tag_counts = counts; silence_gap_ms = gap; offset_ms = now_ms }
          ∷ o.signals;
    }

-- `"".join(parts)`
unfoldable pub join_parts : List Text → Text
join_parts [] = []
join_parts (p ∷ ps) = p ++ join_parts ps

unfoldable pub flush_bot_turn : ℕ → TranscriptObserver → TranscriptObserver
flush_bot_turn now o =
    let started = or_else o.bot_started_ms (offset_ms now o) in
    let cleared = record o { bot_parts = []; bot_started_ms = none } in
    let said =
      emit (codes "interviewer") (join_parts o.bot_parts) started (offset_ms now o) cleared in
    if is_empty o.bot_parts then o else record said { question_ordinal = said.question_ordinal + 1 }

-- what `on_push_frame` does with a frame that it has not seen before
unfoldable pub on_content : Content → ℕ → TranscriptObserver → TranscriptObserver
on_content (transcription text words) now o =
    let at = offset_ms now o in
    let heard = report_voice_signals words at (emit (codes "candidate") text at at o) in
    record heard { last_candidate_ms = some at }
on_content (tts_text text) now o = record o {
  bot_started_ms = some (or_else o.bot_started_ms (offset_ms now o));
  bot_parts = o.bot_parts ++ text ∷ [];
}
on_content bot_stopped_speaking now o = flush_bot_turn now o
on_content another now o = o

unfoldable pub on_push_frame : Push → TranscriptObserver → TranscriptObserver
on_push_frame (frame, now) o =
    if first_sighting frame.id o then on_content frame.content now (sighted frame.id o) else o

unfoldable pub observe : List Push → TranscriptObserver → TranscriptObserver
observe [] o = o
observe (p ∷ ps) o = observe ps (on_push_frame p o)

-- ===== src/Voice.antt =====
-- Live voice sessions: app/modules/voice/session_manager.py, with the snapshot of
-- app/modules/interview/checkpoint.py. The media pipeline is a third party's: its callbacks, and what
-- the upload of a recording returns, are the arguments of the operations below. Times are in milliseconds.
pub mod Steps
pub mod Sound
pub mod Change
pub mod Changes
pub mod Ends
pub mod Silence
pub mod Halting
pub mod Late
pub mod Rejoin
pub mod Resumed
pub mod Overlap
pub mod Observer
use ai_interviewer.Base.{
  ℕ, ◌+◌, ◌-◌, ◌*◌, Bool, true, false, not, ◌&&◌, ◌||◌, Option, none, some, List, [], ◌∷◌, ltb, leb,
  ◌==◌, if◌then◌else◌, or_else,
}
use ai_interviewer.Base.Lists.{is_empty, contains, keep, length}
use ai_interviewer.Base.Dict.{get, put, pop}
use ai_interviewer.Base.Rows.{find, replace}
use ai_interviewer.Base.Text.{Text, codes, text_eq}

-- the settings that the manager reads
pub record Settings : Type 0 where
  pub voice_max_idle_nudges : ℕ
  pub max_interview_minutes : ℕ

unfoldable pub max_interview_ms : Settings → ℕ
max_interview_ms c = c.max_interview_minutes * 60 * 1000

pub record Checkpoint : Type 0 where
  pub next_ordinal : ℕ
  pub question_ordinal : ℕ
  pub elapsed_ms : ℕ
  pub plan_version : Option ℕ

abbrev pub superseded : Text
superseded = codes "superseded"

abbrev pub completed : Text
completed = codes "completed"

abbrev pub abandoned : Text
abandoned = codes "abandoned"

abbrev pub timed_out : Text
timed_out = codes "timed_out"

-- how far the task of a session is: `_run` awaits the pipeline, `_finalise` awaits the upload, or it is over
pub data Phase : Type 0 where
  running uploading over : Phase

unfoldable pub is_running : Phase → Bool
is_running running = true
is_running _ = false

unfoldable pub is_uploading : Phase → Bool
is_uploading uploading = true
is_uploading _ = false

-- what the interviewer says of its own accord
pub data Line : Type 0 where
  greeting take_your_time cannot_hear farewell : Line

-- `VoiceSession`; `id` is the identity of the object, `start_ordinal` is given to its observer, and
-- `saved_ordinal` is the `last_ordinal` of its checkpoint loop
pub record VoiceSession : Type 0 where
  pub id : ℕ
  pub org_id : ℕ
  pub interview_id : ℕ
  pub candidate_id : ℕ
  pub started_at : ℕ
  pub start_ordinal : ℕ
  pub phase : Phase
  pub stopped : Bool
  pub reason : Text
  pub greeted : Bool
  pub idle_nudges : ℕ
  pub said : List Line
  pub audio : List ℕ
  pub saved_ordinal : Option ℕ

unfoldable pub elapsed_ms : ℕ → VoiceSession → ℕ
elapsed_ms now s = now - s.started_at

-- what is published on the bus
pub data BusEvent : Type 0 where
  session_started : (org interview candidate : ℕ) → BusEvent
  session_ended : (org interview : ℕ) → Text → Option Text → BusEvent

-- `_sessions` and `_pending_abandon`, the objects they refer to, the snapshots in Redis, and what was
-- published, the latest first
pub record Manager : Type 0 where
  pub objects : List VoiceSession
  pub sessions : List (ℕ × ℕ)
  pub pending_abandon : List ℕ
  pub checkpoints : List (ℕ × Checkpoint)
  pub published : List BusEvent

abbrev pub session_key : VoiceSession → ℕ
session_key s = s.id

abbrev pub put_object : VoiceSession → Manager → Manager
put_object s m = record m { objects = replace session_key s m.objects }

unfoldable pub publish : BusEvent → Manager → Manager
publish e m = record m { published = e ∷ m.published }

unfoldable pub active_count : Manager → ℕ
active_count m = length m.sessions

unfoldable pub is_active : ℕ → Manager → Bool
is_active k m = elim (get k m.sessions) [ none ↦ false | some _ ↦ true ]

unfoldable pub schedule_abandon : ℕ → Manager → Manager
schedule_abandon k m =
    if contains k m.pending_abandon then m else record m { pending_abandon = k ∷ m.pending_abandon }

unfoldable pub cancel_pending_abandon : ℕ → Manager → Manager
cancel_pending_abandon k m = record m {
  pending_abandon = keep (λ j. not (j == k)) m.pending_abandon;
}

-- `stop`, up to its first await: the pipeline is then cancelled, and the call waits for the session's task
unfoldable pub stop : ℕ → Text → Manager → Manager
stop k reason m = elim (get k m.sessions) [
  | none ↦ m
  | some i ↦ elim (find session_key i m.objects) [
    | none ↦ m
    | some s ↦ put_object (record s { reason = reason }) m
  ]
]

-- what `_abandon_after_grace` does when its sleep is over, unless the timer was cancelled
unfoldable pub abandon_after_grace : ℕ → Manager → Manager
abandon_after_grace k m =
    if contains k m.pending_abandon then stop k abandoned (cancel_pending_abandon k m) else m

-- the first step of `start`, before it waits for the session that it supersedes
unfoldable pub begin_start : ℕ → Manager → Manager
begin_start k m = stop k superseded (cancel_pending_abandon k m)

-- the ordinal to number from and the time already spent; `persisted` is `transcript.next_ordinal`
unfoldable pub resume_position : Option Checkpoint → ℕ → ℕ × ℕ
resume_position none persisted = (persisted, 0)
resume_position (some c) persisted =
    (if c.next_ordinal == 0 then persisted else c.next_ordinal, c.elapsed_ms)

-- the `VoiceSession` that `start` makes, with its clock set back by the time already spent
abbrev pub new_session : (i org k candidate persisted now : ℕ) → Option Checkpoint → VoiceSession
new_session i org k candidate persisted now saved = record {
  id = i;
  org_id = org;
  interview_id = k;
  candidate_id = candidate;
  started_at = now - (resume_position saved persisted).1;
  start_ordinal = (resume_position saved persisted).0;
  phase = running;
  stopped = false;
  reason = completed;
  greeted = false;
  idle_nudges = 0;
  said = [];
  audio = [];
  saved_ordinal = none;
}

-- the rest of `start`, from the registration on; `i` is the identity of the new object
unfoldable pub register :
    (i org k candidate persisted now : ℕ) → Option Checkpoint → Manager → Manager
register i org k candidate persisted now saved m =
    publish (session_started org k candidate) (record m {
      objects = new_session i org k candidate persisted now saved ∷ m.objects;
      sessions = put k i m.sessions;
    })

-- `_on_drop`
unfoldable pub on_drop : VoiceSession → Manager → Manager
on_drop s m =
    if s.stopped || not (text_eq s.reason completed) then m else schedule_abandon s.interview_id m

-- `IDLE_NUDGES[min(n, len(IDLE_NUDGES) - 1)]`
unfoldable pub idle_line : ℕ → Line
idle_line n = if n == 0 then take_your_time else cannot_hear

-- `_on_idle`, up to the sleep after the farewell
unfoldable pub on_idle : Settings → VoiceSession → Manager → Manager
on_idle c s m =
    if s.stopped
    then m
    else if leb c.voice_max_idle_nudges s.idle_nudges
    then put_object (record s { said = farewell ∷ s.said }) m
    else put_object
        (record s { idle_nudges = s.idle_nudges + 1; said = idle_line s.idle_nudges ∷ s.said }) m

-- `_greet`
unfoldable pub greet : VoiceSession → Manager → Manager
greet s m =
    if s.greeted then m else put_object (record s { greeted = true; said = greeting ∷ s.said }) m

-- `_on_audio`
unfoldable pub on_audio : List ℕ → VoiceSession → Manager → Manager
on_audio audio s m = if is_empty audio then m else put_object (record s { audio = audio }) m

-- the time that `_watchdog` sleeps
unfoldable pub remaining_ms : Settings → ℕ → VoiceSession → ℕ
remaining_ms c now s = max_interview_ms c - elapsed_ms now s

-- one round of `_checkpoint_loop`, with what the observer shows
unfoldable pub checkpoint_round : (ordinal question now : ℕ) → VoiceSession → Manager → Manager
checkpoint_round ordinal question now s m =
    let saved : Checkpoint = record {
      next_ordinal = ordinal;
      question_ordinal = question;
      elapsed_ms = elapsed_ms now s;
      plan_version = none;
    } in
    if elim s.saved_ordinal [ none ↦ false | some n ↦ n == ordinal ]
    then m
    else put_object (record s { saved_ordinal = some ordinal })
        (record m { checkpoints = put s.interview_id saved m.checkpoints })

-- the handler of an exception in `_run`
unfoldable pub crash : VoiceSession → Manager → Manager
crash s m = put_object (record s { reason = abandoned }) m

-- `_finalise` up to the upload
unfoldable pub finalise : VoiceSession → Manager → Manager
finalise s m =
    if s.stopped
    then put_object (record s { phase = over }) m
    else cancel_pending_abandon s.interview_id (
        put_object (record s { stopped = true; phase = uploading })
          (record m { sessions = pop s.interview_id m.sessions }))

-- `_upload_recording`, where `uploaded` is the key if the storage took the recording
unfoldable pub upload_recording : Option Text → VoiceSession → Option Text
upload_recording uploaded s = if is_empty s.audio then none else uploaded

-- `_finalise` after the upload
unfoldable pub announce : Option Text → VoiceSession → Manager → Manager
announce uploaded s m =
    let ended = put_object (record s { phase = over }) m in
    if text_eq s.reason superseded
    then ended
    else publish (session_ended s.org_id s.interview_id s.reason (upload_recording uploaded s))
        (record ended { checkpoints = pop s.interview_id m.checkpoints })

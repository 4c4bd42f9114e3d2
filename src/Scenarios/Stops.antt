-- ===== src/Scenarios/Stops.antt =====
-- Scenarios of interviews that are terminated while their session runs.
use ai_interviewer.Base.{ℕ, ◌≡◌, refl, ◌⊎◌, true, false, none, some, List, [], ◌∷◌, ◌++◌, ok, arith}
use ai_interviewer.Base.Rows.{find, replace}
use ai_interviewer.Base.Text.{codes}
use ai_interviewer.Interview.{
  Interview, in_progress, terminated, is_terminal, transition, can_transition, timestamp_column,
  status_is, stamp,
}
use ai_interviewer.Interview.Store.{Store, terminate, get_interview, move}
use ai_interviewer.Interview.Once.{session_ended, deliver, count}
use ai_interviewer.Interview.Unsent.{terminated_never_sent}
use ai_interviewer.Proctor.{tab_blur, face_absent, warn, critical, Settings, Thresholds}
use ai_interviewer.Proctor.Collector.{prime, new_limiter}
use ai_interviewer.Proctor.Verdict.{Group, compute}
use ai_interviewer.Proctor.Verdict.Rows.{
  ProctoringVerdict, verdict_key, assessed, finalise, finalise-finalise,
}
use ai_interviewer.Proctor.Socket.{Message, json, Closing, Socket, open_socket, serve}
use ai_interviewer.Proctor.Socket.Rounds.{Kept}
use ai_interviewer.Proctor.Socket.Served.{serve-Kept}

abbrev running_row : Interview
running_row = record {
  id = 1;
  org_id = 7;
  candidate_id = 3;
  job_id = none;
  status = in_progress;
  created_at = 0;
  scheduled_at = none;
  started_at = some 5;
  completed_at = none;
  recording_key = none;
}

abbrev tables : Store
tables = record { interviews = running_row ∷ []; plans = []; sent = [] }

abbrev tables_after : Store
tables_after = record tables {
  interviews = record running_row { status = terminated; completed_at = some 60 } ∷ [];
}

stopping : terminate 60 1 tables ≡ ok tables_after
unfolding terminate get_interview find is_terminal move transition status_is can_transition replace
    stamp timestamp_column
stopping = refl

terminated_never_sent_example :
    count 1 (deliver (session_ended 61 1 (codes "completed") (codes "k") ∷ []) tables_after).sent
    ≡ count 1 tables.sent
terminated_never_sent_example =
    terminated_never_sent 60 1 (session_ended 61 1 (codes "completed") (codes "k") ∷ []) tables
      tables_after stopping

abbrev proctor_settings : Settings
proctor_settings = record {
  proctor_blur_limit = 0;
  proctor_camera_enabled = false;
  proctor_frame_interval_secs = 30;
  proctor_auto_terminate = true;
  proctor_events_per_minute = 60;
}

abbrev strict : Thresholds
strict = record {
  blur_limit = 0;
  fullscreen_required = false;
  paste_blocked = true;
  camera_enabled = false;
  frame_interval_secs = 30;
  auto_terminate = true;
}

abbrev new_socket : Socket
new_socket = record {
  limiter = new_limiter 0 60 0;
  counters = prime [];
  accepted = 0;
  rejected = 0;
  acks = [];
  closed = none;
  rows = [];
  store = tables;
}

opened : open_socket proctor_settings (some 1) 0 [] tables ≡ some new_socket
unfolding open_socket find is_terminal
opened = refl

-- a report of a frame, something that reports nothing, a blur, which the strict thresholds take for a breach, and
-- a message after it
abbrev framed : ℕ × Message
framed = (
  30_000_000,
  json (
      some (record {
        type_name = codes "FACE_FRAME";
        offset_ms = some 5;
        payload = some ((codes "w", codes "640") ∷ []);
        s3_key = some (codes "f1");
      })),
)

abbrev unfit_message : ℕ × Message
unfit_message = (31_000_000, json none)

abbrev blurred : ℕ × Message
blurred = (
  60_000_000,
  json (
      some
        (record { type_name = codes "TAB_BLUR"; offset_ms = none; payload = none; s3_key = none })),
)

abbrev late : ℕ × Message
late = (61_000_000, json none)

abbrev messages : List (ℕ × Message)
messages = framed ∷ unfit_message ∷ blurred ∷ late ∷ []

abbrev served : Socket
served = serve (λ s. s) strict 1 messages new_socket

serve-Kept_example :
    (done : List (ℕ × Message)) × (rest : List (ℕ × Message)) × (done ++ rest ≡ messages)
    × ((rest ≡ []) ⊎ ((end : Closing) × (served.closed ≡ some end)))
    × Kept (λ s. s) strict 1 [] tables (new_limiter 0 60 0) done served
serve-Kept_example =
    serve-Kept (λ s. s) proctor_settings strict 1 0 [] tables new_socket messages opened

-- the verdict of the stopped interview, before and after the vision pass has added to its events
abbrev early : List Group
early = (tab_blur, critical, 1) ∷ []

abbrev complete : List Group
complete = (tab_blur, critical, 1) ∷ (face_absent, warn, 2) ∷ []

finalise-finalise_example :
    (finalise 7 1 complete (finalise 7 1 early []) ≡ finalise 7 1 complete [])
    × ((v : ProctoringVerdict) × (find verdict_key 1 (finalise 7 1 complete []) ≡ some v)
        × (v.interview_id ≡ 1)
        × (assessed (compute complete) v ≡ v))
    × (find verdict_key 2 (finalise 7 1 complete []) ≡ find verdict_key 2 [])
finalise-finalise_example = finalise-finalise 7 1 2 early complete [] (omega arith)

-- ===== src/Voice/Steps.antt =====
-- The interleavings of the session manager: each action is what runs between two awaits of
-- app/modules/voice/session_manager.py, of one callback, one task or one call, and one that its place
-- in the code rules out changes nothing.
use ai_interviewer.Base.{ℕ, Option, none, some, List, [], ◌∷◌, leb, if◌then◌else◌}
use ai_interviewer.Base.Rows.{find}
use ai_interviewer.Base.Text.{Text}
use ai_interviewer.Voice.{
  Settings, Checkpoint, VoiceSession, Manager, session_key, is_running, is_uploading, stop,
  abandoned, timed_out, abandon_after_grace, begin_start, register, on_drop, on_idle, greet,
  on_audio, checkpoint_round, crash, finalise, announce,
}

pub data Action : Type 0 where
  -- of the session with that identity
  dropped : ℕ → Action
  silent : ℕ → Action
  hung_up : ℕ → Action
  connected : ℕ → Action
  heard : ℕ → List ℕ → Action
  overran : ℕ → Action
  snapshot : (i ordinal question now : ℕ) → Action
  crashed : ℕ → Action
  ended : ℕ → Action
  uploaded : ℕ → Option Text → Action
  -- of an interview
  grace_over : ℕ → Action
  asked_to_stop : ℕ → Text → Action
  joining : ℕ → Action
  -- with the snapshot that was read since
  joined : (i org k candidate persisted now : ℕ) → Option Checkpoint → Action

-- the effect on the session with that identity, if there is one
unfoldable pub with_session : ℕ → (VoiceSession → Manager → Manager) → Manager → Manager
with_session i f m = elim (find session_key i m.objects) [ none ↦ m | some s ↦ f s m ]

-- the effect on it while `_run` awaits the pipeline
unfoldable pub while_running : (VoiceSession → Manager → Manager) → VoiceSession → Manager → Manager
while_running f s m = if is_running s.phase then f s m else m

-- the second half of the last idle handler: it is reached only after the farewell
unfoldable pub hang_up : Settings → VoiceSession → Manager → Manager
hang_up c s m =
    if leb c.voice_max_idle_nudges s.idle_nudges then stop s.interview_id abandoned m else m

unfoldable pub upload_over : Option Text → VoiceSession → Manager → Manager
upload_over key s m = if is_uploading s.phase then announce key s m else m

-- a new object has a new identity
unfoldable pub join : (i org k candidate persisted now : ℕ) → Option Checkpoint → Manager → Manager
join i org k candidate persisted now saved m = elim (find session_key i m.objects) [
  | some _ ↦ m
  | none ↦ register i org k candidate persisted now saved m
]

unfoldable pub step : Settings → Action → Manager → Manager
step c (dropped i) m = with_session i on_drop m
step c (silent i) m = with_session i (on_idle c) m
step c (hung_up i) m = with_session i (hang_up c) m
step c (connected i) m = with_session i greet m
step c (heard i audio) m = with_session i (on_audio audio) m
step c (overran i) m = with_session i (while_running (λ s. stop s.interview_id timed_out)) m
step c (snapshot i ordinal question now) m =
    with_session i (while_running (checkpoint_round ordinal question now)) m
step c (crashed i) m = with_session i (while_running crash) m
step c (ended i) m = with_session i (while_running finalise) m
step c (uploaded i key) m = with_session i (upload_over key) m
step c (grace_over k) m = abandon_after_grace k m
step c (asked_to_stop k reason) m = stop k reason m
step c (joining k) m = begin_start k m
step c (joined i org k candidate persisted now saved) m =
    join i org k candidate persisted now saved m

unfoldable pub run : Settings → List Action → Manager → Manager
run c [] m = m
run c (a ∷ rest) m = run c rest (step c a m)

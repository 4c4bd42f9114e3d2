-- ===== src/Voice/Change.antt =====
-- What a step of the session manager does to the sessions, the registry and the events.
use ai_interviewer.Base.{
  ℕ, ◌+◌, ◌≡◌, refl, true, false, not, ◌&&◌, Option, none, some, List, ◌∷◌, arith, ◌==◌, Bool-cases,
  Option-cases, inl, inr,
}
use ai_interviewer.Base.Dict.{get, put, pop}
use ai_interviewer.Base.Rows.{find, replace}
use ai_interviewer.Base.Text.{Text, text_eq}
use ai_interviewer.Voice.{
  VoiceSession, Manager, BusEvent, session_started, Phase, running, uploading, over, superseded,
  session_key, is_running, is_uploading, stop,
}
use ai_interviewer.Voice.Steps.{with_session, while_running}
use ai_interviewer.Voice.Sound.{IsSound, Alike, ones, ends_published}

-- what a step does to the sessions, the registry and the events; `joins` is the interview that it may join
pub data Change (joins : Option ℕ) (objects : List VoiceSession) (sessions : List (ℕ × ℕ))
    (published : List BusEvent) : List VoiceSession → List (ℕ × ℕ) → List BusEvent → Type 0 where
  still : Change joins objects sessions published objects sessions published
  altered :
      (i : ℕ) (s s' : VoiceSession)
      → find session_key i objects ≡ some s
      → Alike s s'
      → Change joins objects sessions published (replace session_key s' objects) sessions published
  finalised :
      (i : ℕ) (s : VoiceSession)
      → find session_key i objects ≡ some s
      → is_running s.phase ≡ true
      → Change joins objects sessions published
          (replace session_key (record s { stopped = true; phase = uploading }) objects)
          (pop s.interview_id sessions)
          published
  closed :
      (i : ℕ) (s : VoiceSession)
      → find session_key i objects ≡ some s
      → (published' : List BusEvent) → is_running s.phase ≡ false
      → is_uploading s.phase ≡ true
      → ((k : ℕ)
          → ends_published k published'
            ≡ ends_published k published
              + ones ((s.interview_id == k) && not (text_eq s.reason superseded)))
      → Change joins objects sessions published
          (replace session_key (record s { phase = over }) objects)
          sessions
          published'
  registered :
      (s : VoiceSession) (org candidate : ℕ)
      → find session_key s.id objects ≡ none
      → is_running s.phase ≡ true
      → s.stopped ≡ false
      → joins ≡ some s.interview_id
      → Change joins objects sessions published
          (s ∷ objects)
          (put s.interview_id s.id sessions)
          (session_started org s.interview_id candidate ∷ published)

abbrev pub Changes : Option ℕ → Manager → Manager → Type 0
Changes joins m m' =
    Change joins m.objects m.sessions m.published m'.objects m'.sessions m'.published

pub stop-Changes :
    {who : Option ℕ} (k : ℕ) (reason : Text) (m : Manager)
    → IsSound m
    → Changes who m (stop k reason m)
unfolding stop
stop-Changes k reason m w = elim (Option-cases (get k m.sessions)) [
  | inl none_there ↦ rw (stop, none_there) still
  | inr (i, at_k) ↦
      let (s, found, of_k, runs) = w.linked k i at_k in
      rw (stop, at_k, found)
        (altered i s (record s { reason = reason }) found
          (record {
            id = refl;
            interview = refl;
            phase = refl;
            stopped = refl;
            nudges = omega arith;
            open_still = λ j. ground arith;
          }))
]

pub with_session-Changes :
    {who : Option ℕ} (i : ℕ) (f : VoiceSession → Manager → Manager) (m : Manager)
    → ((s : VoiceSession) → find session_key i m.objects ≡ some s → Changes who m (f s m))
    → Changes who m (with_session i f m)
unfolding with_session
with_session-Changes i f m keeps = elim (Option-cases (find session_key i m.objects)) [
  | inl e ↦ rw (with_session, e) still
  | inr (s, e) ↦ rw (with_session, e) (keeps s e)
]

pub while_running-Changes :
    {who : Option ℕ} (f : VoiceSession → Manager → Manager) (s : VoiceSession) (m : Manager)
    → (is_running s.phase ≡ true → Changes who m (f s m))
    → Changes who m (while_running f s m)
unfolding while_running
while_running-Changes f s m keeps = elim (Bool-cases (is_running s.phase)) [
  | inl e ↦ rw e (keeps e)
  | inr e ↦ rw e still
]

pub uploading-not_running : (p : Phase) → is_uploading p ≡ true → is_running p ≡ false
unfolding is_uploading is_running
uploading-not_running running h = cc
uploading-not_running uploading h = refl
uploading-not_running over h = cc

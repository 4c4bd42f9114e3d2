-- ===== src/Voice/Halting.antt =====
-- A session that is asked to stop: its task leaves the run, and its end is announced.
use ai_interviewer.Base.{
  ℕ, ◌≡◌, refl, ◌∙◌, ap, true, false, not, Option, some, List, [], ◌∷◌, arith, ◌==◌, if◌then◌else◌,
  Bool-cases, inl, inr, eq_refl,
}
use ai_interviewer.Base.Dict.{get, pop}
use ai_interviewer.Base.Lists.{contains, keep}
use ai_interviewer.Base.Rows.{find, find-key, find-replace_self}
use ai_interviewer.Base.Text.{Text}
use ai_interviewer.Voice.{
  Settings, VoiceSession, Manager, over, uploading, completed, session_key, is_running,
  is_uploading, put_object, stop, schedule_abandon, cancel_pending_abandon, finalise, announce,
}
use ai_interviewer.Voice.Steps.{
  ended, uploaded, with_session, while_running, upload_over, step, run,
}

-- the session is registered for its interview and runs, and nobody has asked it to end
pub record Live (i : ℕ) (s : VoiceSession) (m : Manager) : Type 0 where
  pub found : find session_key i m.objects ≡ some s
  pub registered : get s.interview_id m.sessions ≡ some i
  pub runs : is_running s.phase ≡ true
  pub awake : s.stopped ≡ false
  pub unasked : s.reason ≡ completed

pub contains-cancelled : (k : ℕ) (ks : List ℕ) → contains k (keep (λ j. not (j == k)) ks) ≡ false
contains-cancelled k [] = refl
contains-cancelled k (j ∷ ks) = ground (arith, contains-cancelled k ks)

pub contains-scheduled :
    (k : ℕ) (m : Manager) → contains k (schedule_abandon k m).pending_abandon ≡ true
unfolding schedule_abandon
contains-scheduled k m = elim (Bool-cases (contains k m.pending_abandon)) [
  | inl e ↦ rw e e
  | inr e ↦ rw e (ground (arith, eq_refl k))
]

pub at-with_session :
    (i : ℕ) (f : VoiceSession → Manager → Manager) (m : Manager) (s : VoiceSession)
    → find session_key i m.objects ≡ some s
    → with_session i f m ≡ f s m
unfolding with_session
at-with_session i f m s e = rw (with_session, e) refl

pub stop-registered :
    (k i : ℕ) (reason : Text) (m : Manager) (s : VoiceSession)
    → get k m.sessions ≡ some i
    → find session_key i m.objects ≡ some s
    → stop k reason m ≡ put_object (record s { reason = reason }) m
unfolding stop
stop-registered k i reason m s e f = rw (stop, e, f) refl

pub finalise-awake :
    (s : VoiceSession) (m : Manager)
    → s.stopped ≡ false
    → finalise s m
      ≡ cancel_pending_abandon s.interview_id (
          put_object
            (record s { stopped = true; phase = uploading })
            (record m { sessions = pop s.interview_id m.sessions }))
unfolding finalise
finalise-awake s m e =
    ap
      (λ b.
        if b
        then put_object (record s { phase = over }) m
        else cancel_pending_abandon s.interview_id (
            put_object (record s { stopped = true; phase = uploading })
              (record m { sessions = pop s.interview_id m.sessions })))
      e

pub run-while_running :
    (f : VoiceSession → Manager → Manager) (s : VoiceSession) (m : Manager)
    → is_running s.phase ≡ true
    → while_running f s m ≡ f s m
unfolding while_running
run-while_running f s m e = rw e refl

-- a session that was asked to end, and then its task has left the run
abbrev pub asked : Text → VoiceSession → VoiceSession
asked reason s = record s { reason = reason }

abbrev pub left : Text → VoiceSession → VoiceSession
left reason s = record s { reason = reason; stopped = true; phase = uploading }

abbrev pub after_stop : Text → VoiceSession → Manager → Manager
after_stop reason s m = put_object (asked reason s) m

abbrev pub after_end : Text → VoiceSession → Manager → Manager
after_end reason s m = cancel_pending_abandon s.interview_id (
    put_object (left reason s)
      (record (after_stop reason s m) { sessions = pop s.interview_id m.sessions }))

module _ (c : Settings) (i : ℕ) (reason : Text) (key : Option Text) (s : VoiceSession) (m : Manager)
    (found : find session_key i m.objects ≡ some s) (runs : is_running s.phase ≡ true)
    (awake : s.stopped ≡ false) where
  pub found-asked : find session_key i (after_stop reason s m).objects ≡ some (asked reason s)
  found-asked =
      find-replace_self session_key i (asked reason s) s m.objects
        (find-key session_key i s m.objects found) found

  pub found-left : find session_key i (after_end reason s m).objects ≡ some (left reason s)
  unfolding cancel_pending_abandon
  found-left =
      find-replace_self session_key i (left reason s) (asked reason s)
        (after_stop reason s m).objects (find-key session_key i s m.objects found) found-asked

  pub step-ended : step c (ended i) (after_stop reason s m) ≡ after_end reason s m
  unfolding step
  step-ended =
      at-with_session i (while_running finalise) (after_stop reason s m) (asked reason s)
        found-asked
      ∙ run-while_running finalise (asked reason s) (after_stop reason s m) runs
      ∙ finalise-awake (asked reason s) (after_stop reason s m) awake

  pub step-uploaded :
      step c (uploaded i key) (after_end reason s m)
      ≡ announce key (left reason s) (after_end reason s m)
  unfolding step upload_over is_uploading
  step-uploaded =
      at-with_session i (upload_over key) (after_end reason s m) (left reason s) found-left

  pub run-ended :
      run c (ended i ∷ uploaded i key ∷ []) (after_stop reason s m)
      ≡ announce key (left reason s) (after_end reason s m)
  unfolding run
  run-ended = ap (λ n. step c (uploaded i key) n) step-ended ∙ step-uploaded

pub schedule-pending :
    (k : ℕ) (m : Manager)
    → schedule_abandon k m ≡ record m { pending_abandon = (schedule_abandon k m).pending_abandon }
unfolding schedule_abandon
schedule-pending k m = elim (Bool-cases (contains k m.pending_abandon)) [
  | inl e ↦ rw e refl
  | inr e ↦ rw e refl
]

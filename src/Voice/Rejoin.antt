-- ===== src/Voice/Rejoin.antt =====
-- A dropped connection that is not taken up again.
use ai_interviewer.Base.{
  ℕ, ◌≡◌, refl, ◌∙◌, ap, true, false, not, ◌||◌, Option, none, some, [], ◌∷◌, arith, ◌==◌,
  if◌then◌else◌, eq_refl,
}
use ai_interviewer.Base.Dict.{get, get-pop}
use ai_interviewer.Base.Lists.{contains}
use ai_interviewer.Base.Rows.{find}
use ai_interviewer.Base.Text.{Text, text_eq}
use ai_interviewer.Voice.{
  Settings, VoiceSession, Manager, session_ended, completed, abandoned, session_key, stop,
  schedule_abandon, cancel_pending_abandon, abandon_after_grace, on_drop, announce, publish,
  upload_recording,
}
use ai_interviewer.Voice.Steps.{dropped, ended, uploaded, grace_over, step, run}
use ai_interviewer.Voice.Halting.{
  Live, contains-cancelled, contains-scheduled, at-with_session, stop-registered, left, after_stop,
  after_end, run-ended, schedule-pending,
}

-- the connection of session `i` drops, and the grace passes
abbrev pub drop_for_good : Settings → (i k : ℕ) → Option Text → Manager → Manager
drop_for_good c i k key m = run c (dropped i ∷ grace_over k ∷ ended i ∷ uploaded i key ∷ []) m

pub grace-stops :
    (k : ℕ) (m : Manager)
    → abandon_after_grace k (record m { pending_abandon = (schedule_abandon k m).pending_abandon })
      ≡ stop k abandoned (
          cancel_pending_abandon k
            (record m { pending_abandon = (schedule_abandon k m).pending_abandon }))
unfolding abandon_after_grace
grace-stops k m = rw (contains-scheduled k m) refl

pub drop-schedules :
    (c : Settings) (i : ℕ) (s : VoiceSession) (m : Manager)
    → find session_key i m.objects ≡ some s
    → s.stopped ≡ false
    → s.reason ≡ completed
    → step c (dropped i) m
      ≡ record m { pending_abandon = (schedule_abandon s.interview_id m).pending_abandon }
unfolding step on_drop
drop-schedules c i s m found awake unasked =
    let ordinary : text_eq s.reason completed ≡ true =
      ap (λ r. text_eq r completed) unasked ∙ (unfold text_eq in refl) in
    let test : (s.stopped || not (text_eq s.reason completed)) ≡ false = ground arith in
    at-with_session i on_drop m s found
    ∙ ap (λ b. if b then m else schedule_abandon s.interview_id m) test
    ∙ schedule-pending s.interview_id m

module _ (c : Settings) (i : ℕ) (s : VoiceSession) (m : Manager) (live : Live i s m) where
  -- the manager after the drop
  abbrev pub waiting : Manager
  waiting = record m { pending_abandon = (schedule_abandon s.interview_id m).pending_abandon }

  pub step-dropped : step c (dropped i) m ≡ waiting
  step-dropped = drop-schedules c i s m live.found live.awake live.unasked

  stop-waiting :
      (reason : Text)
      → stop s.interview_id reason (cancel_pending_abandon s.interview_id waiting)
        ≡ after_stop reason s (cancel_pending_abandon s.interview_id waiting)
  unfolding cancel_pending_abandon
  stop-waiting reason =
      stop-registered s.interview_id i reason (cancel_pending_abandon s.interview_id waiting) s
        live.registered live.found

  run-stopped :
      (reason : Text) (key : Option Text)
      → run c
          (ended i ∷ uploaded i key ∷ [])
          (stop s.interview_id reason (cancel_pending_abandon s.interview_id waiting))
        ≡ announce key
            (left reason s)
            (after_end reason s (cancel_pending_abandon s.interview_id waiting))
  unfolding cancel_pending_abandon
  run-stopped reason key =
      ap (λ n. run c (ended i ∷ uploaded i key ∷ []) n) (stop-waiting reason)
      ∙ run-ended c i reason key s (cancel_pending_abandon s.interview_id waiting) live.found
          live.runs live.awake

  drop-announce :
      (key : Option Text)
      → drop_for_good c i s.interview_id key m
        ≡ announce key
            (left abandoned s)
            (after_end abandoned s (cancel_pending_abandon s.interview_id waiting))
  unfolding run step
  drop-announce key =
      ap (λ n. run c (grace_over s.interview_id ∷ ended i ∷ uploaded i key ∷ []) n) step-dropped
      ∙ ap (λ n. run c (ended i ∷ uploaded i key ∷ []) n) (grace-stops s.interview_id m)
      ∙ run-stopped abandoned key

  -- A connection that drops, and is not taken up again before the grace is over, ends the interview: one end
  -- is published, as abandoned and with the recording, and nothing of the session is left behind.
  pub drop_ends :
      (key : Option Text)
      → ((drop_for_good c i s.interview_id key m).published
          ≡ session_ended s.org_id s.interview_id abandoned (upload_recording key s) ∷ m.published)
        × (get s.interview_id (drop_for_good c i s.interview_id key m).sessions ≡ none)
        × (get s.interview_id (drop_for_good c i s.interview_id key m).checkpoints ≡ none)
        × (contains s.interview_id (drop_for_good c i s.interview_id key m).pending_abandon ≡ false)
  unfolding announce publish cancel_pending_abandon upload_recording text_eq
  drop_ends key =
      let e = drop-announce key in
      let same : (s.interview_id == s.interview_id) ≡ true = eq_refl s.interview_id in
      (
        ap (λ n. n.published) e,
        ap (λ n. get s.interview_id n.sessions) e
            ∙ get-pop s.interview_id s.interview_id m.sessions
            ∙ rw same refl,
        ap (λ n. get s.interview_id n.checkpoints) e
            ∙ get-pop s.interview_id s.interview_id m.checkpoints
            ∙ rw same refl,
        ap (λ n. contains s.interview_id n.pending_abandon) e ∙ contains-cancelled s.interview_id _,
      )

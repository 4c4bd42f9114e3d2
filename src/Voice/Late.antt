-- ===== src/Voice/Late.antt =====
-- The callbacks of a session that is superseded or over, and the timer of its interview.
use ai_interviewer.Base.{
  ℕ, ◌≡◌, refl, ◌∙◌, ap, true, false, not, ◌||◌, some, List, [], ◌∷◌, ◌++◌, if◌then◌else◌,
}
use ai_interviewer.Base.Lists.{All, contains}
use ai_interviewer.Base.Rows.{find}
use ai_interviewer.Base.Text.{text_eq}
use ai_interviewer.Voice.{
  Settings, VoiceSession, Manager, completed, session_key, schedule_abandon, abandon_after_grace,
  on_drop,
}
use ai_interviewer.Voice.Steps.{Action, dropped, grace_over, step, run}
use ai_interviewer.Voice.Halting.{at-with_session}

-- what may still come of a connection that dropped: the callbacks of that session's transport, and the end of the
-- sleep of a timer for its interview
pub data Late (i k : ℕ) : Action → Type 0 where
  drop_again : Late i k (dropped i)
  timer : Late i k (grace_over k)

-- A session whose drop is ignored, in a manager that has no timer for its interview.
pub record Quiet (i k : ℕ) (s : VoiceSession) (m : Manager) : Type 0 where
  pub found : find session_key i m.objects ≡ some s
  pub ignored : (s.stopped || not (text_eq s.reason completed)) ≡ true
  pub untimed : contains k m.pending_abandon ≡ false

Late-still :
    (c : Settings) (i k : ℕ) (s : VoiceSession) (m : Manager) (a : Action)
    → Quiet i k s m
    → Late i k a
    → step c a m ≡ m
unfolding step on_drop abandon_after_grace
Late-still c i k s m a q drop_again =
    at-with_session i on_drop m s q.found
    ∙ ap (λ b. if b then m else schedule_abandon s.interview_id m) q.ignored
Late-still c i k s m a q timer = rw (abandon_after_grace, q.untimed) refl

pub run-Late :
    (c : Settings) (i k : ℕ) (s : VoiceSession) (m : Manager) (late rest : List Action)
    → Quiet i k s m
    → All (Late i k) late
    → run c (late ++ rest) m ≡ run c rest m
unfolding run
run-Late c i k s m [] rest q l = refl
run-Late c i k s m (a ∷ late) rest q (one, more) =
    ap (λ x. run c (late ++ rest) x) (Late-still c i k s m a q one)
    ∙ run-Late c i k s m late rest q more

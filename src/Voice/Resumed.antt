-- ===== src/Voice/Resumed.antt =====
-- A dropped connection that is taken up again within the grace.
use ai_interviewer.Base.{ℕ, ◌≡◌, true, Option, none, List, [], ◌∷◌, ◌++◌}
use ai_interviewer.Base.Dict.{get}
use ai_interviewer.Base.Lists.{All}
use ai_interviewer.Base.Rows.{find}
use ai_interviewer.Base.Text.{Text}
use ai_interviewer.Voice.{
  Settings, VoiceSession, Manager, over, superseded, session_key, cancel_pending_abandon, announce,
  register,
}
use ai_interviewer.Voice.Steps.{Action, dropped, ended, uploaded, joining, joined, run}
use ai_interviewer.Voice.Late.{Late}
use ai_interviewer.Voice.Halting.{Live, left, after_stop, after_end}
use ai_interviewer.Voice.Rejoin.{waiting}

-- the connection of session `i` drops, and the candidate joins again, as object `n`; in between come more drops
-- of that connection, and, from the joining on, whatever its callbacks and the timer still do
abbrev pub drop_and_rejoin :
    Settings
    → (i k n org candidate persisted now : ℕ) → Option Text
    → (again waited stopping gone after : List Action) → Manager
    → Manager
drop_and_rejoin c i k n org candidate persisted now key again waited stopping gone after m =
    run c
      (dropped i
        ∷ (again
            ++ (joining k
                ∷ (waited
                    ++ (ended i
                        ∷ (stopping
                            ++ (uploaded i key
                                ∷ (gone
                                    ++ (joined n org k candidate persisted now (get k m.checkpoints)
                                        ∷ (after ++ []))))))))))
      m

module _ (c : Settings) (i : ℕ) (s : VoiceSession) (m : Manager) (live : Live i s m) (n : ℕ)
    (fresh : find session_key n m.objects ≡ none) where
  abbrev dropped_once : Manager
  dropped_once = waiting c i s m live

  -- the managers after each step of the rejoin
  abbrev cancelled : Manager
  cancelled = cancel_pending_abandon s.interview_id dropped_once

  abbrev handing : Manager
  handing = after_stop superseded s cancelled

  abbrev closing : Manager
  closing = after_end superseded s cancelled

  abbrev handed_over : Option Text → Manager
  handed_over key = announce key (left superseded s) closing

  abbrev gone_session : VoiceSession
  gone_session = record s { reason = superseded; stopped = true; phase = over }

  module _ (org candidate persisted now : ℕ) (key : Option Text)
      (again waited stopping gone after : List Action) (drops : All (λ a. a ≡ dropped i) again)
      (late1 : All (Late i s.interview_id) waited) (late2 : All (Late i s.interview_id) stopping)
      (late3 : All (Late i s.interview_id) gone) (late4 : All (Late i s.interview_id) after) where
    abbrev resumed : Manager
    resumed =
        register n org s.interview_id candidate persisted now (get s.interview_id m.checkpoints)
          (handed_over key)

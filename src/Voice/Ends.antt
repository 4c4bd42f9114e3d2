-- ===== src/Voice/Ends.antt =====
-- The ends of sessions that are published over an interleaving, and the registry.
use ai_interviewer.Base.{
  ℕ, ◌≡◌, refl, ◌⊎◌, true, Option, none, some, List, [], ◌∷◌, arith, Option-cases, inl, inr,
}
use ai_interviewer.Base.Dict.{get}
use ai_interviewer.Base.Rows.{find}
use ai_interviewer.Voice.{
  Settings, Checkpoint, VoiceSession, Manager, BusEvent, session_key, is_running,
}
use ai_interviewer.Voice.Steps.{Action, step, run}
use ai_interviewer.Voice.Sound.{
  Sound, IsSound, Alike-Sound, finalise-Sound, over-Sound, register-Sound, ends_published,
  sessions_over,
}
use ai_interviewer.Voice.Change.{Change, still, altered, finalised, closed, registered}
use ai_interviewer.Voice.Changes.{step-Changes}

pub Change-Sound :
    {who : Option ℕ} {objects objects' : List VoiceSession} {sessions sessions' : List (ℕ × ℕ)}
    {published published' : List BusEvent}
    → Sound objects sessions published
    → Change who objects sessions published objects' sessions' published'
    → Sound objects' sessions' published'
Change-Sound w still = w
Change-Sound w (altered i s s' found a) = Alike-Sound w i s found s' a
Change-Sound w (finalised i s found runs) = finalise-Sound w i s found runs
Change-Sound w (closed i s found published' out up counted) =
    over-Sound w i s found published' out up counted
Change-Sound w (registered s org candidate fresh runs awake _) =
    register-Sound _ _ _ s org candidate w fresh runs awake

pub run-Sound : (c : Settings) (as' : List Action) (m : Manager) → IsSound m → IsSound (run c as' m)
unfolding run
run-Sound c [] m w = w
run-Sound c (a ∷ rest) m w = run-Sound c rest (step c a m) (Change-Sound w (step-Changes c a m w))

-- the manager of a process that has just started
abbrev pub fresh_manager : List (ℕ × Checkpoint) → Manager
fresh_manager checkpoints = record {
  objects = [];
  sessions = [];
  pending_abandon = [];
  checkpoints = checkpoints;
  published = [];
}

pub fresh-Sound : (checkpoints : List (ℕ × Checkpoint)) → IsSound (fresh_manager checkpoints)
unfolding get find
fresh-Sound checkpoints = record {
  linked = λ k i e. absurd (ground arith);
  flagged = λ i s e. absurd (ground arith);
  counted = λ k. refl;
}

-- In a process that has just started, whatever happens and in whatever order: for each interview, as many
-- ends are published as sessions of it are over that were not superseded; and if a session is registered for
-- an interview, then that session belongs to it and still runs.
pub ends_published_once :
    (c : Settings) (actions : List Action) (checkpoints : List (ℕ × Checkpoint)) (k : ℕ)
    → (ends_published k (run c actions (fresh_manager checkpoints)).published
        ≡ sessions_over k (run c actions (fresh_manager checkpoints)).objects)
      × ((get k (run c actions (fresh_manager checkpoints)).sessions ≡ none)
          ⊎ ((i : ℕ) × (get k (run c actions (fresh_manager checkpoints)).sessions ≡ some i)
              × ((s : VoiceSession) × (find session_key i
                      (run c actions (fresh_manager checkpoints)).objects
                    ≡ some s)
                  × (s.interview_id ≡ k)
                  × (is_running s.phase ≡ true))))
ends_published_once c actions checkpoints k =
    let w = run-Sound c actions (fresh_manager checkpoints) (fresh-Sound checkpoints) in
    (
      w.counted k,
      elim (Option-cases (get k (run c actions (fresh_manager checkpoints)).sessions)) [
        | inl free ↦ inl free
        | inr (i, there) ↦ inr (i, there, w.linked k i there)
      ],
    )

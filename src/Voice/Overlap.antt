-- ===== src/Voice/Overlap.antt =====
-- Two sessions of one interview that run at once, as two calls of `start` that overlap leave them, or
-- a `stop` that timed out.
use ai_interviewer.Base.{ℕ, ◌≡◌, ◌≢◌, refl, sym, ◌∙◌, ap, true, false, none, some, [], ◌∷◌, eq_refl}
use ai_interviewer.Base.Dict.{get, get-pop}
use ai_interviewer.Base.Rows.{find, find-key, find-replace_self, find-replace_ne}
use ai_interviewer.Base.Text.{Text}
use ai_interviewer.Voice.{
  Settings, schedule_abandon, abandon_after_grace, VoiceSession, Manager, abandoned, completed,
  uploading, session_key, is_running, stop, cancel_pending_abandon, finalise,
}
use ai_interviewer.Voice.Steps.{dropped, ended, grace_over, asked_to_stop, while_running, step, run}
use ai_interviewer.Voice.Halting.{
  at-with_session, stop-registered, finalise-awake, run-while_running,
}
use ai_interviewer.Voice.Rejoin.{grace-stops, drop-schedules}

-- session `i` runs, but the registry holds session `j` for their interview
pub record Orphan (i j : ℕ) (s t : VoiceSession) (m : Manager) : Type 0 where
  pub first : find session_key i m.objects ≡ some s
  pub second : find session_key j m.objects ≡ some t
  pub shared : s.interview_id ≡ t.interview_id
  pub apart : i ≢ j
  pub registered : get t.interview_id m.sessions ≡ some j
  pub runs : is_running s.phase ≡ true
  pub awake : s.stopped ≡ false
  pub unasked : s.reason ≡ completed

-- The drop of a session that is registered no longer ends the other one: when the grace is over, it is the
-- session that the candidate still talks to that is abandoned.
Orphan-abandons :
    (c : Settings) (i j : ℕ) (s t : VoiceSession) (m : Manager)
    → Orphan i j s t m
    → find session_key j (run c (dropped i ∷ grace_over s.interview_id ∷ []) m).objects
      ≡ some (record t { reason = abandoned })
unfolding run step cancel_pending_abandon
Orphan-abandons c i j s t m o =
    let k = s.interview_id in
    let waiting = record m { pending_abandon = (schedule_abandon k m).pending_abandon } in
    let quiet = cancel_pending_abandon k waiting in
    let at_k : get k m.sessions ≡ some j = ap (λ n. get n m.sessions) o.shared ∙ o.registered in
    let key = find-key session_key j t m.objects o.second in
    ap (λ n. find session_key j (abandon_after_grace k n).objects)
      (drop-schedules c i s m o.first o.awake o.unasked)
    ∙ ap (λ n. find session_key j n.objects)
        (grace-stops k m ∙ stop-registered k j abandoned quiet t at_k o.second)
    ∙ find-replace_self session_key j (record t { reason = abandoned }) t m.objects key o.second

-- The end of a session that is registered no longer takes the other one from the registry: that one runs on,
-- and no call that is to stop it has an effect.
Orphan-unregisters :
    (c : Settings) (i j : ℕ) (s t : VoiceSession) (m : Manager) (reason : Text)
    → Orphan i j s t m
    → (find session_key j (step c (ended i) m).objects ≡ some t)
      × (step c (asked_to_stop s.interview_id reason) (step c (ended i) m) ≡ step c (ended i) m)
unfolding step cancel_pending_abandon stop
Orphan-unregisters c i j s t m reason o =
    let k = s.interview_id in
    let gone = record s { stopped = true; phase = uploading } in
    let over =
      at-with_session i (while_running finalise) m s o.first
      ∙ run-while_running finalise s m o.runs
      ∙ finalise-awake s m o.awake in
    let key = find-key session_key i s m.objects o.first in
    let ne : s.id ≢ j = λ e. o.apart (sym key ∙ e) in
    let none_there : get k (step c (ended i) m).sessions ≡ none =
      ap (λ n. get k n.sessions) over ∙ get-pop k k m.sessions ∙ rw (eq_refl k) refl in
    (
      ap (λ n. find session_key j n.objects) over
          ∙ find-replace_ne session_key j gone m.objects ne
          ∙ o.second,
      rw (stop, none_there) refl,
    )

-- Where two sessions of an interview run at once, the one that is registered no longer can undo the other: if it
-- drops, the other one, which the candidate still talks to, is the one that is abandoned when the grace is over;
-- and if it ends, the other one runs on unregistered, and no call that is to stop it has an effect.
pub Orphan-interferes :
    (c : Settings) (i j : ℕ) (s t : VoiceSession) (m : Manager) (reason : Text)
    → Orphan i j s t m
    → (find session_key j (run c (dropped i ∷ grace_over s.interview_id ∷ []) m).objects
        ≡ some (record t { reason = abandoned }))
      × (find session_key j (step c (ended i) m).objects ≡ some t)
      × (step c (asked_to_stop s.interview_id reason) (step c (ended i) m) ≡ step c (ended i) m)
Orphan-interferes c i j s t m reason o =
    let (there, unheard) = Orphan-unregisters c i j s t m reason o in
    (Orphan-abandons c i j s t m o, there, unheard)

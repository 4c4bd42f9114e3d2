-- ===== src/Voice/Changes.antt =====
-- Each action of the session manager as a change of one session.
use ai_interviewer.Base.{
  ℕ, ◌+◌, ◌≡◌, refl, true, false, not, ◌||◌, leb, Option, none, some, List, [], ◌∷◌, arith, ◌==◌,
  if◌then◌else◌, Bool-cases, Option-cases, inl, inr,
}
use ai_interviewer.Base.Lists.{contains}
use ai_interviewer.Base.Rows.{find}
use ai_interviewer.Base.Text.{Text, text_eq}
use ai_interviewer.Voice.{
  Settings, Checkpoint, VoiceSession, Manager, session_ended, superseded, timed_out, completed,
  abandoned, farewell, greeting, idle_line, upload_recording, session_key, is_running, is_uploading,
  put_object, stop, abandon_after_grace, begin_start, register, on_drop, on_idle, greet, on_audio,
  checkpoint_round, crash, finalise, announce, publish, schedule_abandon, cancel_pending_abandon,
}
use ai_interviewer.Voice.Steps.{
  Action, dropped, silent, hung_up, connected, heard, overran, snapshot, crashed, ended, uploaded,
  grace_over, asked_to_stop, joining, joined, while_running, hang_up, upload_over, join, step,
}
use ai_interviewer.Voice.Sound.{IsSound, Alike}
use ai_interviewer.Voice.Change.{
  still, altered, finalised, closed, registered, Changes, stop-Changes, with_session-Changes,
  while_running-Changes, uploading-not_running,
}

module _ {who : Option ℕ} (i : ℕ) (s : VoiceSession) (m : Manager) (w : IsSound m)
    (found : find session_key i m.objects ≡ some s) where
  -- a change of fields that the invariant does not read
  Alike-Changes : (s' : VoiceSession) → Alike s s' → Changes who m (put_object s' m)
  Alike-Changes s' a = altered i s s' found a

  on_drop-Changes : Changes who m (on_drop s m)
  unfolding on_drop schedule_abandon
  on_drop-Changes = elim (Bool-cases (s.stopped || not (text_eq s.reason completed))) [
    | inl e ↦ rw e still
    | inr e ↦ elim (Bool-cases (contains s.interview_id m.pending_abandon)) [
      | inl there ↦ rw (e, there) still
      | inr absent ↦ rw (e, absent) still
    ]
  ]

  on_idle-Changes : (c : Settings) → Changes who m (on_idle c s m)
  unfolding on_idle
  on_idle-Changes c =
      let nudged = record s {
        idle_nudges = s.idle_nudges + 1;
        said = idle_line s.idle_nudges ∷ s.said;
      } in
      elim s.stopped
        as (λ b. Changes who m (
          if b
          then m
          else if leb c.voice_max_idle_nudges s.idle_nudges
          then put_object (record s { said = farewell ∷ s.said }) m
          else put_object nudged m)) [
            | true ↦ still
            | false ↦ elim (Bool-cases (leb c.voice_max_idle_nudges s.idle_nudges)) [
              | inl last ↦ rw last (
                  Alike-Changes (record s { said = farewell ∷ s.said })
                    (record {
                      id = refl;
                      interview = refl;
                      phase = refl;
                      stopped = refl;
                      nudges = omega arith;
                      open_still = λ _. refl;
                    }))
              | inr more ↦ rw more (
                  Alike-Changes nudged (record {
                    id = refl;
                    interview = refl;
                    phase = refl;
                    stopped = refl;
                    nudges = omega arith;
                    open_still = λ _. refl;
                  }))
            ]
          ]

  greet-Changes : Changes who m (greet s m)
  unfolding greet
  greet-Changes = elim (Bool-cases s.greeted) [
    | inl e ↦ simp e still
    | inr e ↦ simp e (
        Alike-Changes (record s { greeted = true; said = greeting ∷ s.said })
          (record {
            id = refl;
            interview = refl;
            phase = refl;
            stopped = refl;
            nudges = omega arith;
            open_still = λ _. refl;
          }))
  ]

  on_audio-Changes : (audio : List ℕ) → Changes who m (on_audio audio s m)
  unfolding on_audio
  on_audio-Changes [] = still
  on_audio-Changes (b ∷ audio) =
      Alike-Changes (record s { audio = b ∷ audio })
        (record {
          id = refl;
          interview = refl;
          phase = refl;
          stopped = refl;
          nudges = omega arith;
          open_still = λ _. refl;
        })

  hang_up-Changes : (c : Settings) → Changes who m (hang_up c s m)
  unfolding hang_up
  hang_up-Changes c = elim (Bool-cases (leb c.voice_max_idle_nudges s.idle_nudges)) [
    | inl e ↦ rw e (stop-Changes s.interview_id abandoned m w)
    | inr e ↦ rw e still
  ]

  checkpoint_round-Changes :
      (ordinal question now : ℕ) → Changes who m (checkpoint_round ordinal question now s m)
  unfolding checkpoint_round
  checkpoint_round-Changes ordinal question now =
      elim (Bool-cases (elim s.saved_ordinal [ none ↦ false | some n ↦ n == ordinal ])) [
        | inl e ↦ rw e still
        | inr e ↦ rw e (
            Alike-Changes (record s { saved_ordinal = some ordinal })
              (record {
                id = refl;
                interview = refl;
                phase = refl;
                stopped = refl;
                nudges = omega arith;
                open_still = λ _. refl;
              }))
      ]

  crash-Changes : is_running s.phase ≡ true → Changes who m (crash s m)
  unfolding crash
  crash-Changes runs =
      Alike-Changes (record s { reason = abandoned })
        (record {
          id = refl;
          interview = refl;
          phase = refl;
          stopped = refl;
          nudges = omega arith;
          open_still = λ j. ground arith;
        })

  ended-Changes : is_running s.phase ≡ true → Changes who m (finalise s m)
  unfolding finalise cancel_pending_abandon
  ended-Changes runs =
      let awake : s.stopped ≡ false = ground (arith, w.flagged i s found) in
      simp awake (finalised i s found runs)

  upload_over-Changes : (key : Option Text) → Changes who m (upload_over key s m)
  unfolding upload_over announce publish
  upload_over-Changes key = elim (Bool-cases (is_uploading s.phase)) [
    | inr e ↦ rw e still
    | inl e ↦ elim (Bool-cases (text_eq s.reason superseded)) [
      | inl out ↦
          simp (e, out)
            (closed i s found m.published (uploading-not_running s.phase e) e (λ k. ground arith))
      | inr kept ↦
          simp (e, kept)
            (closed i s found
              (session_ended s.org_id s.interview_id s.reason (upload_recording key s)
                ∷ m.published)
              (uploading-not_running s.phase e) e (λ k. ground arith))
    ]
  ]

join-Changes :
    (i org k candidate persisted now : ℕ) (saved : Option Checkpoint) (m : Manager)
    → Changes (some k) m (join i org k candidate persisted now saved m)
unfolding join register publish is_running
join-Changes i org k candidate persisted now saved m =
    elim (Option-cases (find session_key i m.objects)) [
      | inr (s, there) ↦ rw (join, there) still
      | inl fresh ↦ rw (join, fresh) (registered _ org candidate fresh refl refl refl)
    ]

grace_over-Changes :
    {who : Option ℕ} (k : ℕ) (m : Manager) → IsSound m → Changes who m (abandon_after_grace k m)
unfolding abandon_after_grace cancel_pending_abandon
grace_over-Changes k m w = elim (Bool-cases (contains k m.pending_abandon)) [
  | inl e ↦ rw e (stop-Changes k abandoned (cancel_pending_abandon k m) w)
  | inr e ↦ rw e still
]

-- the interview that the action joins
unfoldable pub joins : Action → Option ℕ
joins (joined _ _ k _ _ _ _) = some k
joins _ = none

pub step-Changes :
    (c : Settings) (a : Action) (m : Manager) → IsSound m → Changes (joins a) m (step c a m)
unfolding step joins begin_start cancel_pending_abandon
step-Changes c (dropped i) m w = with_session-Changes i on_drop m (λ s f. on_drop-Changes i s m w f)
step-Changes c (silent i) m w =
    with_session-Changes i (on_idle c) m (λ s f. on_idle-Changes i s m w f c)
step-Changes c (hung_up i) m w =
    with_session-Changes i (hang_up c) m (λ s f. hang_up-Changes i s m w f c)
step-Changes c (connected i) m w = with_session-Changes i greet m (λ s f. greet-Changes i s m w f)
step-Changes c (heard i audio) m w =
    with_session-Changes i (on_audio audio) m (λ s f. on_audio-Changes i s m w f audio)
step-Changes c (overran i) m w =
    with_session-Changes i (while_running (λ s. stop s.interview_id timed_out)) m (λ s f.
      while_running-Changes (λ t. stop t.interview_id timed_out) s m
        (λ _. stop-Changes s.interview_id timed_out m w))
step-Changes c (snapshot i ordinal question now) m w =
    with_session-Changes i (while_running (checkpoint_round ordinal question now)) m (λ s f.
      while_running-Changes (checkpoint_round ordinal question now) s m
        (λ _. checkpoint_round-Changes i s m w f ordinal question now))
step-Changes c (crashed i) m w =
    with_session-Changes i (while_running crash) m
      (λ s f. while_running-Changes crash s m (crash-Changes i s m w f))
step-Changes c (ended i) m w =
    with_session-Changes i (while_running finalise) m
      (λ s f. while_running-Changes finalise s m (ended-Changes i s m w f))
step-Changes c (uploaded i key) m w =
    with_session-Changes i (upload_over key) m (λ s f. upload_over-Changes i s m w f key)
step-Changes c (grace_over k) m w = grace_over-Changes k m w
step-Changes c (asked_to_stop k reason) m w = stop-Changes k reason m w
step-Changes c (joining k) m w = stop-Changes k superseded (cancel_pending_abandon k m) w
step-Changes c (joined i org k candidate persisted now saved) m w =
    join-Changes i org k candidate persisted now saved m

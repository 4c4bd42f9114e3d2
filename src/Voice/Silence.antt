-- ===== src/Voice/Silence.antt =====
-- The silences of a session and its check-ins.
use ai_interviewer.Base.{
  ℕ, ◌+◌, ◌≤◌, ◌≡◌, ◌⊎◌, refl, sym, ◌∙◌, ap, true, false, Option, some, List, [], ◌∷◌, arith, leb,
  ◌==◌, if◌then◌else◌, Bool-cases, inl, inr, eqb→eq,
}
use ai_interviewer.Base.Rows.{find, replace, find-key}
use ai_interviewer.Voice.{
  Settings, Checkpoint, VoiceSession, Manager, BusEvent, farewell, session_key, put_object, on_idle,
  idle_line,
}
use ai_interviewer.Voice.Steps.{Action, silent, with_session, step, run}
use ai_interviewer.Voice.Sound.{IsSound, find-put}
use ai_interviewer.Voice.Change.{Change, still, altered, finalised, closed, registered}
use ai_interviewer.Voice.Changes.{step-Changes}
use ai_interviewer.Voice.Ends.{Change-Sound, run-Sound, fresh_manager, fresh-Sound}

-- the session is there, and was checked on at least that often
abbrev Nudged : ℕ → ℕ → List VoiceSession → Type 0
Nudged i n objects =
    (t : VoiceSession) × (find session_key i objects ≡ some t) × (n ≤ t.idle_nudges)

put-Nudged :
    (i j n : ℕ) (s s' : VoiceSession) (objects : List VoiceSession)
    → find session_key j objects ≡ some s
    → s'.id ≡ s.id
    → s.idle_nudges ≤ s'.idle_nudges
    → Nudged i n objects
    → Nudged i n (replace session_key s' objects)
put-Nudged i j n s s' objects found id more (t, at_i, le) =
    let key = find-key session_key j s objects found in
    let there : find session_key s'.id objects ≡ some s =
      ap (λ n. find session_key n objects) (id ∙ key) ∙ found in
    elim (Bool-cases (s'.id == i)) [
      | inl same ↦
          let ij : s'.id ≡ i = eqb→eq s'.id i same in
          let ts : some t ≡ some s =
            sym at_i ∙ ap (λ n. find session_key n objects) (sym ij) ∙ there in
          (s', find-put i s s' objects there ∙ rw same refl, ground arith)
      | inr other ↦ (t, find-put i s s' objects there ∙ rw other at_i, le)
    ]

Change-Nudged :
    {who : Option ℕ} {objects objects' : List VoiceSession} {sessions sessions' : List (ℕ × ℕ)}
    {published published' : List BusEvent} (i n : ℕ)
    → Nudged i n objects
    → Change who objects sessions published objects' sessions' published'
    → Nudged i n objects'
unfolding find
Change-Nudged i n h still = h
Change-Nudged {objects = objects} i n h (altered j s s' found a) =
    put-Nudged i j n s s' objects found a.id a.nudges h
Change-Nudged {objects = objects} i n h (finalised j s found _) =
    put-Nudged i j n s _ objects found refl (omega arith) h
Change-Nudged {objects = objects} i n h (closed j s found _ _ _ _) =
    put-Nudged i j n s _ objects found refl (omega arith) h
Change-Nudged {objects = objects} i n (t, at_i, le)
      (registered s org candidate fresh runs awake of) =
    elim (Bool-cases (s.id == i)) [
      | inl same ↦
          let eq : s.id ≡ i = eqb→eq s.id i same in
          absurd (ground (arith, ap (λ j. find session_key j objects) eq))
      | inr other ↦ (t, rw other at_i, le)
    ]

run-Nudged :
    (c : Settings) (actions : List Action) (m : Manager) (i n : ℕ)
    → IsSound m
    → Nudged i n m.objects
    → Nudged i n (run c actions m).objects
unfolding run
run-Nudged c [] m i n w h = h
run-Nudged c (a ∷ rest) m i n w h =
    let change = step-Changes c a m w in
    run-Nudged c rest (step c a m) i n (Change-Sound w change) (Change-Nudged i n h change)

silent-farewell :
    (c : Settings) (i : ℕ) (t : VoiceSession) (m : Manager)
    → find session_key i m.objects ≡ some t
    → c.voice_max_idle_nudges ≤ t.idle_nudges
    → t.stopped ≡ false
    → step c (silent i) m ≡ put_object (record t { said = farewell ∷ t.said }) m
unfolding step with_session on_idle
silent-farewell c i t m found le awake =
    let test : leb c.voice_max_idle_nudges t.idle_nudges ≡ true = ground arith in
    rw (with_session, found)
      (ap
          (λ b.
            if b
            then m
            else if leb c.voice_max_idle_nudges t.idle_nudges
            then put_object (record t { said = farewell ∷ t.said }) m
            else put_object
                (record t {
                  idle_nudges = t.idle_nudges + 1;
                  said = idle_line t.idle_nudges ∷ t.said;
                })
                m)
          awake
        ∙ ap
            (λ b.
              if b
              then put_object (record t { said = farewell ∷ t.said }) m
              else put_object
                  (record t {
                    idle_nudges = t.idle_nudges + 1;
                    said = idle_line t.idle_nudges ∷ t.said;
                  })
                  m)
            test)

-- Once a session was checked on as often as is allowed, whatever the manager and its callbacks do in between, the
-- next silence gets the farewell, unless the session has ended by then.
pub nudges_never_afresh :
    (c : Settings) (before between : List Action) (checkpoints : List (ℕ × Checkpoint)) (i : ℕ)
    (s : VoiceSession)
    → find session_key i (run c before (fresh_manager checkpoints)).objects ≡ some s
    → c.voice_max_idle_nudges ≤ s.idle_nudges
    → (t : VoiceSession) × (find session_key i
          (run c between (run c before (fresh_manager checkpoints))).objects
        ≡ some t)
      × ((t.stopped ≡ true)
          ⊎ (step c (silent i) (run c between (run c before (fresh_manager checkpoints)))
              ≡ put_object
                  (record t { said = farewell ∷ t.said })
                  (run c between (run c before (fresh_manager checkpoints)))))
nudges_never_afresh c before between checkpoints i s found le =
    let m = run c before (fresh_manager checkpoints) in
    let w = run-Sound c before (fresh_manager checkpoints) (fresh-Sound checkpoints) in
    let (t, at_i, more) = run-Nudged c between m i c.voice_max_idle_nudges w (s, found, le) in
    (
      t,
      at_i,
      elim (Bool-cases t.stopped) [
        | inl e ↦ inl e
        | inr e ↦ inr (silent-farewell c i t (run c between m) at_i more e)
      ],
    )

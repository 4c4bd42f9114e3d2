-- ===== src/Scenarios/Calls.antt =====
-- Scenarios of live sessions.
use ai_interviewer.Base.{
  ℕ, ◌≤◌, ◌≡◌, refl, ◌⊎◌, inl, true, false, none, some, List, [], ◌∷◌, arith, ok,
}
use ai_interviewer.Base.Dict.{get, put}
use ai_interviewer.Base.Lists.{contains, All}
use ai_interviewer.Base.Rows.{find, replace}
use ai_interviewer.Base.Text.{Text, codes, strip}
use ai_interviewer.Transcript.{
  Turn, TurnCompleted, interviewer, turn_key, new_turn, record_turn, next_ordinal, highest, upsert,
  written, merge_turn, misordered,
}
use ai_interviewer.Voice.{
  Settings, Checkpoint, VoiceSession, Manager, session_ended, abandoned, session_key, is_running,
  stop, put_object, farewell, upload_recording, resume_position, register, publish, begin_start,
  cancel_pending_abandon, on_idle, idle_line, new_session,
}
use ai_interviewer.Voice.Steps.{
  Action, dropped, silent, heard, ended, grace_over, asked_to_stop, joining, joined, join,
  with_session, step, run,
}
use ai_interviewer.Voice.Sound.{ends_published, sessions_over}
use ai_interviewer.Voice.Ends.{fresh_manager, ends_published_once}
use ai_interviewer.Voice.Halting.{Live}
use ai_interviewer.Voice.Late.{Late, drop_again, timer}
use ai_interviewer.Voice.Rejoin.{drop_for_good, drop_ends}
use ai_interviewer.Voice.Resumed.{drop_and_rejoin}
use ai_interviewer.Voice.Silence.{nudges_never_afresh}
use ai_interviewer.Voice.Overlap.{Orphan, Orphan-interferes}
use ai_interviewer.Voice.Observer.{
  Push, transcription, tts_text, bot_stopped_speaking, emit, observe, new_observer,
}
use ai_interviewer.Voice.Observer.Hops.{Hops, over, first, again, each_frame_once}
use ai_interviewer.Voice.Observer.Recorded.{Numbered, record_all, observed-recorded}
use ai_interviewer.Voice.Observer.Stale.{stale_snapshot_overwrites}

abbrev settings : Settings
settings = record { voice_max_idle_nudges = 2; max_interview_minutes = 45 }

-- the first session of interview 5
abbrev session : VoiceSession
session = new_session 0 7 5 3 0 1000 none

abbrev one : List Action
one = joining 5 ∷ joined 0 7 5 3 0 1000 none ∷ []

abbrev joined_once : Manager
joined_once = run settings one (fresh_manager [])

ends_published_once_example :
    (ends_published 5 joined_once.published ≡ sessions_over 5 joined_once.objects)
    × ((get 5 joined_once.sessions ≡ none)
        ⊎ ((i : ℕ) × (get 5 joined_once.sessions ≡ some i)
            × ((s : VoiceSession) × (find session_key i joined_once.objects ≡ some s)
                × (s.interview_id ≡ 5)
                × (is_running s.phase ≡ true))))
ends_published_once_example = ends_published_once settings one [] 5

found-session : find session_key 0 joined_once.objects ≡ some session
unfolding find run step join begin_start stop get cancel_pending_abandon register publish
found-session = refl

session-Live : Live 0 session joined_once
unfolding find run step join begin_start stop get cancel_pending_abandon register publish put
    is_running
session-Live = record { found = refl; registered = refl; runs = refl; awake = refl; unasked = refl }

drop_ends_example :
    ((drop_for_good settings 0 5 (some (codes "k")) joined_once).published
      ≡ session_ended 7 5 abandoned (upload_recording (some (codes "k")) session)
        ∷ joined_once.published)
    × (get 5 (drop_for_good settings 0 5 (some (codes "k")) joined_once).sessions ≡ none)
    × (get 5 (drop_for_good settings 0 5 (some (codes "k")) joined_once).checkpoints ≡ none)
    × (contains 5 (drop_for_good settings 0 5 (some (codes "k")) joined_once).pending_abandon
        ≡ false)
drop_ends_example = drop_ends settings 0 session joined_once session-Live (some (codes "k"))

-- the drop is reported twice, the timer's sleep is over while the old session ends, and its callbacks fire again
-- at each later point
abbrev late_calls : List Action
late_calls = dropped 0 ∷ grace_over 5 ∷ []

abbrev late_calls-Late : All (Late 0 5) late_calls
late_calls-Late = (drop_again, (timer, tt))

abbrev rejoined : Manager
rejoined =
    drop_and_rejoin settings 0 5 1 7 3 4 9000 none (dropped 0 ∷ []) late_calls late_calls late_calls
      late_calls joined_once

abbrev quiet : List Action
quiet = joined 0 7 5 3 0 1000 none ∷ silent 0 ∷ silent 0 ∷ []

abbrev nudged : VoiceSession
nudged = record session { idle_nudges = 2; said = idle_line 1 ∷ idle_line 0 ∷ [] }

found-nudged : find session_key 0 (run settings quiet (fresh_manager [])).objects ≡ some nudged
unfolding find run step with_session join register publish on_idle replace
found-nudged = refl

abbrev later_on : Manager
later_on = run settings (heard 0 (7 ∷ []) ∷ joining 6 ∷ []) (run settings quiet (fresh_manager []))

nudges_never_afresh_example :
    (t : VoiceSession) × (find session_key 0 later_on.objects ≡ some t)
    × ((t.stopped ≡ true)
        ⊎ (step settings (silent 0) later_on
            ≡ put_object (record t { said = farewell ∷ t.said }) later_on))
nudges_never_afresh_example =
    nudges_never_afresh settings quiet (heard 0 (7 ∷ []) ∷ joining 6 ∷ []) [] 0 nudged found-nudged
      (omega arith)

-- two calls of `start` that overlap
abbrev overlapping : List Action
overlapping = joining 5 ∷ joining 5 ∷ joined 0 7 5 3 0 1000 none ∷ joined 1 7 5 3 0 1001 none ∷ []

abbrev twice : Manager
twice = run settings overlapping (fresh_manager [])

abbrev later_session : VoiceSession
later_session = new_session 1 7 5 3 0 1001 none

twice-Orphan : Orphan 0 1 session later_session twice
unfolding find run step join begin_start stop get cancel_pending_abandon register publish put
    is_running
twice-Orphan = record {
  first = refl;
  second = refl;
  shared = refl;
  apart = omega arith;
  registered = refl;
  runs = refl;
  awake = refl;
  unasked = refl;
}

Orphan-interferes_example :
    (find session_key 1 (run settings (dropped 0 ∷ grace_over 5 ∷ []) twice).objects
      ≡ some (record later_session { reason = abandoned }))
    × (find session_key 1 (step settings (ended 0) twice).objects ≡ some later_session)
    × (step settings (asked_to_stop 5 abandoned) (step settings (ended 0) twice)
        ≡ step settings (ended 0) twice)
Orphan-interferes_example =
    Orphan-interferes settings 0 1 session later_session twice abandoned twice-Orphan

-- a candidate's utterance, and a reply in two fragments, each of which hops on
abbrev utterance : Push
utterance = (record { id = some 4; content = transcription (codes " hello ") [] }, 1500)

abbrev fragment : Push
fragment = (record { id = some 7; content = tts_text (codes "Hi ") }, 2000)

abbrev fragment_again : Push
fragment_again = (record { id = some 7; content = tts_text (codes "Hi ") }, 2001)

abbrev bot_stops : Push
bot_stops = (record { id = some 9; content = bot_stopped_speaking }, 2600)

abbrev frames : List Push
frames = utterance ∷ fragment ∷ bot_stops ∷ []

abbrev hops : List Push
hops = utterance ∷ fragment ∷ fragment_again ∷ bot_stops ∷ []

hops-Hops : Hops [] frames hops
hops-Hops =
    first [] 4 1500 (transcription (codes " hello ") []) (fragment ∷ bot_stops ∷ [])
      (fragment ∷ fragment_again ∷ bot_stops ∷ []) tt
      (first (4 ∷ []) 7 2000 (tts_text (codes "Hi ")) (bot_stops ∷ [])
        (fragment_again ∷ bot_stops ∷ []) (omega arith, tt)
        (again (7 ∷ 4 ∷ []) 7 2001 (tts_text (codes "Hi ")) (bot_stops ∷ []) (bot_stops ∷ [])
          (inl refl)
          (first (7 ∷ 4 ∷ []) 9 2600 bot_stopped_speaking [] [] (omega arith, (omega arith, tt))
            (over (9 ∷ 7 ∷ 4 ∷ [])))))

each_frame_once_example : observe hops (new_observer 2 1000) ≡ observe frames (new_observer 2 1000)
each_frame_once_example = each_frame_once 2 1000 frames hops hops-Hops

abbrev as_is : Text → Text
as_is s = s

abbrev opening : Turn
opening = record {
  ordinal = 1;
  speaker = interviewer;
  content = codes "Welcome";
  started_offset_ms = 0;
  ended_offset_ms = 900;
  question_ordinal = some 0;
  is_final = false;
}

two_next : next_ordinal (opening ∷ []) ≤ 2
unfolding next_ordinal highest
two_next = omega arith

observed-recorded_example :
    Numbered 2
      (observe hops (new_observer 2 1000)).turns
      (observe hops (new_observer 2 1000)).ordinal
    × ((after : List Turn) × (record_all as_is
            (observe hops (new_observer 2 1000)).turns
            (opening ∷ [])
          ≡ ok after)
        × All
            (λ e. find turn_key e.ordinal after ≡ some (new_turn as_is e))
            (observe hops (new_observer 2 1000)).turns
        × ((k : ℕ) → (2 ≤ k) ⊎ (find turn_key k after ≡ find turn_key k (opening ∷ []))))
observed-recorded_example = observed-recorded as_is 2 1000 hops (opening ∷ []) two_next

-- the snapshot was written before the reply that the drop cut off
abbrev snapshot_before : Checkpoint
snapshot_before = record {
  next_ordinal = 1;
  question_ordinal = 0;
  elapsed_ms = 60000;
  plan_version = none;
}

abbrev resumed : TurnCompleted
resumed = record {
  ordinal = 1;
  speaker = codes "candidate";
  content = codes "Back again";
  started_offset_ms = 100;
  ended_offset_ms = 950;
  question_ordinal = some 0;
}

abbrev overwritten : List Turn
overwritten =
    record opening {
      content = codes "Back again";
      ended_offset_ms = 950;
      question_ordinal = some 0;
    }
    ∷ []

opening_there : find turn_key 1 (opening ∷ []) ≡ some opening
unfolding find
opening_there = refl

said_again :
    (emit
      (codes "candidate")
      (codes "Back again")
      100
      950
      (new_observer (resume_position (some snapshot_before) 2).0 0)).turns
    ≡ resumed ∷ []
unfolding emit strip new_observer resume_position
said_again = refl

recorded_again : record_turn as_is resumed (opening ∷ []) ≡ ok overwritten
unfolding record_turn misordered written find new_turn merge_turn upsert
recorded_again = refl

stale_snapshot_overwrites_example :
    (u : Turn) × (find turn_key 1 overwritten ≡ some u) × (u.content ≡ strip (codes "Back again"))
stale_snapshot_overwrites_example =
    stale_snapshot_overwrites as_is snapshot_before 2 0 100 950 (codes "candidate")
      (codes "Back again") resumed opening (opening ∷ []) overwritten (omega arith) opening_there
      refl said_again recorded_again

-- ===== src/Scenarios/Stills.antt =====
-- Scenarios of the vision pass.
use ai_interviewer.Base.{arith, ℕ, ◌≤◌, ◌≡◌, refl, true, false, none, some, Option, [], ◌∷◌, map}
use ai_interviewer.Base.Lists.{length, contains}
use ai_interviewer.Base.Text.{Text, codes}
use ai_interviewer.Proctor.{face_frame, event_is, Thresholds}
use ai_interviewer.Proctor.Collector.{Observation, prime, record_event}
use ai_interviewer.Proctor.Vision.{
  Event, event_key, analysed_flag, selected, analyze, sample, sort_at, insert_at, is_pending,
  is_set,
}
use ai_interviewer.Proctor.Vision.Passes.{passes, analysed_once, client_hides_still}

abbrev lenient : Thresholds
lenient = record {
  blur_limit = 3;
  fullscreen_required = false;
  paste_blocked = true;
  camera_enabled = true;
  frame_interval_secs = 10;
  auto_terminate = false;
}

abbrev still : Observation
still = record {
  event_type = face_frame;
  at = 10;
  offset_ms = none;
  payload = none;
  s3_key = some (codes "7/1/a.jpg");
  severity = none;
}

-- the same, with the entry that the pass itself is to write
abbrev marked_still : Observation
marked_still = record still {
  payload = some ((codes "note", codes "hi") ∷ (analysed_flag, codes "no") ∷ []);
}

abbrev stored_still : Event
stored_still = record {
  id = 4;
  row = (record_event lenient (prime []) still).1;
  note = none;
  source_event = none;
}

abbrev hidden_still : Event
hidden_still = record {
  id = 5;
  row = (record_event lenient (prime []) marked_still).1;
  note = none;
  source_event = none;
}

abbrev two_faces : ℕ → Option (ℕ × Text)
two_faces _ = some (2, codes "two people")

abbrev unreadable : ℕ → Option (ℕ × Text)
unreadable _ = none

abbrev by_index : ℕ → ℕ → ℕ
by_index n i = i

waits : contains 4 (map event_key (selected by_index (stored_still ∷ []))) ≡ true
unfolding selected sample sort_at is_pending event_is record_event is_set insert_at
waits = refl

analysed_once_example :
    (contains 4 (
        map event_key (
          selected by_index (
            passes by_index
              ((900, unreadable) ∷ (950, two_faces) ∷ [])
              (analyze by_index 800 two_faces (stored_still ∷ [])))))
      ≡ false)
    × (length (
          selected by_index (
            passes by_index
              ((900, unreadable) ∷ (950, two_faces) ∷ [])
              (analyze by_index 800 two_faces (stored_still ∷ []))))
        ≤ 40)
analysed_once_example =
    analysed_once by_index 800 4 two_faces (2, codes "two people")
      ((900, unreadable) ∷ (950, two_faces) ∷ []) (stored_still ∷ []) refl waits

client_hides_still_example :
    contains 5 (
      map event_key
        (selected by_index (passes by_index ((800, two_faces) ∷ []) (hidden_still ∷ []))))
    ≡ false
client_hides_still_example =
    client_hides_still by_index ((800, two_faces) ∷ []) lenient (prime []) marked_still
      ((codes "note", codes "hi") ∷ []) [] (codes "no") hidden_still (hidden_still ∷ []) refl refl
      (omega arith) refl tt ((λ e. refl), tt)

-- ===== src/Proctor/Socket/Heard.antt =====
-- What a socket has to make of the messages that it handles.
use ai_interviewer.Base.{
  ℕ, ◌/◌, ◌≤◌, ◌≡◌, refl, true, false, Option, none, some, List, [], ◌∷◌, ◌++◌, ok, arith,
  if◌then◌else◌, Bool-cases, Option-cases, inl, inr,
}
use ai_interviewer.Base.Lists.{length}
use ai_interviewer.Base.Text.{Text}
use ai_interviewer.Interview.Store.{Store, terminate}
use ai_interviewer.Proctor.{
  EventType, tab_blur, tab_focus, fullscreen_exit, paste, copy, devtools_open, window_resize,
  face_frame, face_absent, multiple_faces, second_speaker, anomalous_silence, Severity, info, warn,
  critical, Thresholds, event_is, severity_is, should_terminate,
}
use ai_interviewer.Proctor.Collector.{
  RateLimiter, Row, Observation, client_reportable, allow, prime, record_event, event_named,
  parse_event_type,
}
use ai_interviewer.Proctor.Collector.Ingest.{connection}
use ai_interviewer.Proctor.Socket.{
  ClientEvent, Message, not_json, json, Closing, policy_violation, broken,
}

-- only a frame of the camera comes with the key of a stored object
abbrev pub evidence_key : EventType → Option Text → Option Text
evidence_key face_frame key = key
evidence_key _ key = none

-- A message that reports an observation: one that fits the schema and names a type that a browser may report.
pub record Reports (upper : Text → Text) (now : ℕ) (e : ClientEvent) (o : Observation)
    : Type 0 where
  pub short : length e.type_name ≤ 64
  pub short_key : (key : Text) → e.s3_key ≡ some key → length key ≤ 512
  pub named : event_named (upper e.type_name) ≡ some o.event_type
  pub reportable : client_reportable o.event_type ≡ true
  pub at : o.at ≡ now
  pub offset_ms : o.offset_ms ≡ e.offset_ms
  pub payload : o.payload ≡ e.payload
  pub s3_key : o.s3_key ≡ evidence_key o.event_type e.s3_key
  pub severity : o.severity ≡ none

-- the policy stops the interview
abbrev pub Breach : Thresholds → Severity → Type 0
Breach th severity = (th.auto_terminate ≡ true) × (severity ≡ critical)

-- The messages that were handled on a socket that was opened on `rows` and `w` with the limiter `r0`, the observations
-- that were stored of them, the limiter since, how the server closed the socket, and the tables of the interview
-- service.
pub data Heard (upper : Text → Text) (th : Thresholds) (k : ℕ) (rows : List Row) (w : Store)
    (r0 : RateLimiter)
    : List (ℕ × Message) → List Observation → RateLimiter → Option Closing → Store → Type 0 where
  nothing : Heard upper th k rows w r0 [] [] r0 none w
  -- over the limit, or not a report
  limited :
      (ms : List (ℕ × Message)) (os : List Observation) (r : RateLimiter) (now : ℕ)
      (m : Option ClientEvent)
      → Heard upper th k rows w r0 ms os r none w
      → (allow now r).1 ≡ false
      → Heard upper th k rows w r0 (ms ++ (now, json m) ∷ []) os (allow now r).0 none w
  refused :
      (ms : List (ℕ × Message)) (os : List Observation) (r : RateLimiter) (now : ℕ)
      (m : Option ClientEvent)
      → Heard upper th k rows w r0 ms os r none w
      → (allow now r).1 ≡ true
      → ((e : ClientEvent) (o : Observation) → m ≡ some e → ¬ Reports upper now e o)
      → Heard upper th k rows w r0 (ms ++ (now, json m) ∷ []) os (allow now r).0 none w
  -- a report, of no breach
  stored :
      (ms : List (ℕ × Message)) (os : List Observation) (r : RateLimiter) (now : ℕ)
      (e : ClientEvent) (o : Observation)
      → Heard upper th k rows w r0 ms os r none w
      → (allow now r).1 ≡ true
      → Reports upper now e o
      → ¬ Breach th (record_event th (prime (connection th rows os)) o).1.severity
      → Heard upper th k rows w r0
          (ms ++ (now, json (some e)) ∷ [])
          (os ++ o ∷ [])
          (allow now r).0
          none
          w
  -- a report of a breach, with which the interview was terminated, or could not be
  breached :
      (ms : List (ℕ × Message)) (os : List Observation) (r : RateLimiter) (now : ℕ)
      (e : ClientEvent) (o : Observation) (v : Store)
      → Heard upper th k rows w r0 ms os r none w
      → (allow now r).1 ≡ true
      → Reports upper now e o
      → Breach th (record_event th (prime (connection th rows os)) o).1.severity
      → terminate (now / 1_000_000) k w ≡ ok v
      → Heard upper th k rows w r0
          (ms ++ (now, json (some e)) ∷ [])
          (os ++ o ∷ [])
          (allow now r).0
          (some policy_violation)
          v
  undone :
      (ms : List (ℕ × Message)) (os : List Observation) (r : RateLimiter) (now : ℕ)
      (e : ClientEvent) (o : Observation)
      → Heard upper th k rows w r0 ms os r none w
      → (allow now r).1 ≡ true
      → Reports upper now e o
      → Breach th (record_event th (prime (connection th rows os)) o).1.severity
      → ((v : Store) → ¬ (terminate (now / 1_000_000) k w ≡ ok v))
      → Heard upper th k rows w r0
          (ms ++ (now, json (some e)) ∷ [])
          os
          (allow now r).0
          (some broken)
          w
  garbled :
      (ms : List (ℕ × Message)) (os : List Observation) (r : RateLimiter) (now : ℕ)
      → Heard upper th k rows w r0 ms os r none w
      → Heard upper th k rows w r0 (ms ++ (now, not_json) ∷ []) os r (some broken) w

critical-severity_is : (s : Severity) → severity_is s critical ≡ true → s ≡ critical
unfolding severity_is
critical-severity_is info h = absurd (ground arith)
critical-severity_is warn h = absurd (ground arith)
critical-severity_is critical h = refl

pub Breach-should_terminate :
    (s : Severity) (th : Thresholds) → should_terminate s th ≡ true → Breach th s
unfolding should_terminate
Breach-should_terminate s th h =
    let stops : severity_is s critical ≡ true = ground arith in
    (ground arith, critical-severity_is s stops)

pub calm-should_terminate :
    (s : Severity) (th : Thresholds) → should_terminate s th ≡ false → ¬ Breach th s
unfolding should_terminate severity_is
calm-should_terminate info th h (auto, e) = ground arith
calm-should_terminate warn th h (auto, e) = ground arith
calm-should_terminate critical th h (auto, e) = ground arith

pub evidence_key-event_is :
    (t : EventType) (key : Option Text)
    → (if event_is t face_frame then key else none) ≡ evidence_key t key
unfolding event_is
evidence_key-event_is tab_blur key = refl
evidence_key-event_is tab_focus key = refl
evidence_key-event_is fullscreen_exit key = refl
evidence_key-event_is paste key = refl
evidence_key-event_is copy key = refl
evidence_key-event_is devtools_open key = refl
evidence_key-event_is window_resize key = refl
evidence_key-event_is face_frame key = refl
evidence_key-event_is face_absent key = refl
evidence_key-event_is multiple_faces key = refl
evidence_key-event_is second_speaker key = refl
evidence_key-event_is anomalous_silence key = refl

pub parsed :
    (upper : Text → Text) (raw : Text) (t : EventType)
    → parse_event_type upper (some raw) ≡ some t
    → (event_named (upper raw) ≡ some t) × (client_reportable t ≡ true)
unfolding parse_event_type
parsed upper raw t h = elim (Option-cases (event_named (upper raw))) [
  | inl e ↦ absurd (ground arith)
  | inr (u, e) ↦ elim (Bool-cases (client_reportable u)) [
    | inr bad ↦ absurd (ground arith)
    | inl good ↦ let same : u ≡ t = ground arith in (ground arith, rw (← same) good)
  ]
]

pub parsed-named :
    (upper : Text → Text) (raw : Text) (t : EventType)
    → event_named (upper raw) ≡ some t
    → client_reportable t ≡ true
    → parse_event_type upper (some raw) ≡ some t
unfolding parse_event_type
parsed-named upper raw t e good = rw (parse_event_type, e, good) refl

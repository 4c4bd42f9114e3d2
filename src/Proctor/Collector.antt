-- ===== src/Proctor/Collector.antt =====
-- Ingest of browser events: app/modules/proctoring/collector.py. Times are microseconds of the
-- server's clock.
pub mod Limiter
pub mod Ingest
pub mod Payload
use ai_interviewer.Base.{
  ℕ, suc, ◌+◌, ◌-◌, Bool, true, false, Option, none, some, List, [], ◌∷◌, ◌++◌, leb, ltb, ◌==◌,
  if◌then◌else◌, or_else,
}
use ai_interviewer.Base.Lists.{take}
use ai_interviewer.Base.Text.{Text, codes, text_eq}
use ai_interviewer.Proctor.{
  EventType, tab_blur, tab_focus, fullscreen_exit, paste, copy, devtools_open, window_resize,
  face_frame, face_absent, multiple_faces, second_speaker, anomalous_silence, Severity, event_is,
  Thresholds, severity_for,
}

-- `event_type in CLIENT_REPORTABLE`
unfoldable pub client_reportable : EventType → Bool
client_reportable tab_blur = true
client_reportable tab_focus = true
client_reportable fullscreen_exit = true
client_reportable paste = true
client_reportable copy = true
client_reportable devtools_open = true
client_reportable window_resize = true
client_reportable face_frame = true
client_reportable _ = false

-- the class `RateLimiter`
pub record RateLimiter : Type 0 where
  pub limit : ℕ
  pub window_started : ℕ
  pub count : ℕ
  pub dropped : ℕ

abbrev pub window : ℕ
window = 60_000_000

-- `__init__`; `per_minute` is 0 where it is not given
unfoldable pub new_limiter : ℕ → ℕ → ℕ → RateLimiter
new_limiter per_minute default now = record {
  limit = if per_minute == 0 then default else per_minute;
  window_started = now;
  count = 0;
  dropped = 0;
}

-- the first half of `allow`: a window that is over is left
unfoldable pub roll : ℕ → RateLimiter → RateLimiter
roll now r =
    if leb window (now - r.window_started) then record r { window_started = now; count = 0 } else r

unfoldable pub allow : ℕ → RateLimiter → RateLimiter × Bool
unfolding roll
allow now r =
    let s = roll now r in
    if ltb s.limit (s.count + 1)
    then (record s { count = s.count + 1; dropped = s.dropped + 1 }, false)
    else (record s { count = s.count + 1 }, true)

-- `SessionCounters.counts`, a dict that is read only through `.get(event_type, 0)`
abbrev pub Counters : Type 0
Counters = EventType → ℕ

-- the new counters, and the count before
unfoldable pub bump : EventType → Counters → Counters × ℕ
bump t c = (λ s. if event_is s t then c t + 1 else c s, c t)

-- a row of `ProctoringEvent`
pub record Row : Type 0 where
  pub event_type : EventType
  pub severity : Severity
  pub at : ℕ
  pub offset_ms : Option ℕ
  pub payload : List (Text × Text)
  pub s3_key : Option Text

unfoldable pub count_rows : EventType → List Row → ℕ
count_rows t [] = 0
count_rows t (r ∷ rs) = (if event_is r.event_type t then 1 else 0) + count_rows t rs

-- `SessionCounters.prime`
unfoldable pub prime : List Row → Counters
unfolding count_rows
prime rows t = count_rows t rows

-- `cleaned[key] = value`
unfoldable pub put_entry : Text → Text → List (Text × Text) → List (Text × Text)
put_entry k v [] = (k, v) ∷ []
put_entry k v ((j, u) ∷ d) = if text_eq j k then (j, v) ∷ d else (j, u) ∷ put_entry k v d

unfoldable pub clean_entries : List (Text × Text) → List (Text × Text) → List (Text × Text)
unfolding put_entry
clean_entries [] cleaned = cleaned
clean_entries ((k, v) ∷ raw) cleaned =
    clean_entries raw (put_entry (take 64 k) (take 500 v) cleaned)

-- `_clean_payload`, of the items of a dict as `str` gives them; what is no dict is `none`
unfoldable pub clean_payload : Option (List (Text × Text)) → List (Text × Text)
unfolding clean_entries
clean_payload none = []
clean_payload (some items) = clean_entries (take 12 items) []

-- one observation, as the callers of `record` hand it over
pub record Observation : Type 0 where
  pub event_type : EventType
  pub at : ℕ
  pub offset_ms : Option ℕ
  pub payload : Option (List (Text × Text))
  pub s3_key : Option Text
  pub severity : Option Severity

-- `record`: the counters after it, and the row that it adds
unfoldable pub record_event : Thresholds → Counters → Observation → Counters × Row
unfolding bump clean_payload
record_event th c o =
    let (c', prior) = bump o.event_type c in
    (
      c',
      record {
        event_type = o.event_type;
        severity = or_else o.severity (severity_for o.event_type prior th);
        at = o.at;
        offset_ms = o.offset_ms;
        payload = clean_payload o.payload;
        s3_key = o.s3_key;
      },
    )

-- the members of the enum by their values; `none` is a `ValueError`
unfoldable pub event_named : Text → Option EventType
event_named s =
    if text_eq s (codes "TAB_BLUR")
    then some tab_blur
    else if text_eq s (codes "TAB_FOCUS")
    then some tab_focus
    else if text_eq s (codes "FULLSCREEN_EXIT")
    then some fullscreen_exit
    else if text_eq s (codes "PASTE")
    then some paste
    else if text_eq s (codes "COPY")
    then some copy
    else if text_eq s (codes "DEVTOOLS_OPEN")
    then some devtools_open
    else if text_eq s (codes "WINDOW_RESIZE")
    then some window_resize
    else if text_eq s (codes "FACE_FRAME")
    then some face_frame
    else if text_eq s (codes "FACE_ABSENT")
    then some face_absent
    else if text_eq s (codes "MULTIPLE_FACES")
    then some multiple_faces
    else if text_eq s (codes "SECOND_SPEAKER")
    then some second_speaker
    else if text_eq s (codes "ANOMALOUS_SILENCE")
    then some anomalous_silence
    else none

-- `parse_event_type`, of a message's field; what is no text is `none`. `upper` is `str.upper`.
unfoldable pub parse_event_type : (Text → Text) → Option Text → Option EventType
parse_event_type upper none = none
parse_event_type upper (some raw) = elim (event_named (upper raw)) [
  | none ↦ none
  | some t ↦ if client_reportable t then some t else none
]

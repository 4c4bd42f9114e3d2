-- ===== src/Scenarios/Proctoring.antt =====
-- Scenarios of proctoring.

use ai_interviewer.Base.{
  ◌+◌, ◌*◌, ◌-◌, ◌/◌, ◌≤◌, ◌≡◌, refl, inl, inr, true, false, none, List, [], ◌∷◌, arith,
}
use ai_interviewer.Base.Lists.{All, is_empty}
use ai_interviewer.Proctor.{
  event_is, tab_blur, paste, info, warn, Thresholds, EventType, Severity, event_is,
}
use ai_interviewer.Proctor.Collector.{RateLimiter, window, Row, Observation, count_rows}
use ai_interviewer.Proctor.Collector.Limiter.{run_limiter, allowed-le}
use ai_interviewer.Proctor.Collector.Ingest.{connection, connection-connection}
use ai_interviewer.Proctor.Verdict.{Group, compute, has_template}
use ai_interviewer.Proctor.Verdict.Counts.{IsGrouping, type_total, severity_total, count_severity}
use ai_interviewer.Proctor.Verdict.Explained.{Scored, compute_explained}

abbrev thresholds : Thresholds
thresholds = record {
  blur_limit = 1;
  fullscreen_required = false;
  paste_blocked = true;
  camera_enabled = false;
  frame_interval_secs = 30;
  auto_terminate = false;
}

abbrev limiter : RateLimiter
limiter = record { limit = 1; window_started = 5; count = 0; dropped = 0 }

allowed-le_example : (run_limiter (10 ∷ 20 ∷ []) limiter).1 ≤ 1 * ((30 - 5) / window + 1)
allowed-le_example = allowed-le (10 ∷ 20 ∷ []) limiter 30 (omega arith, (omega arith, omega arith))

abbrev pasted : Row
pasted = record {
  event_type = paste;
  severity = warn;
  at = 10;
  offset_ms = none;
  payload = [];
  s3_key = none;
}

abbrev blurred : Row
blurred = record pasted { event_type = tab_blur; severity = info }

abbrev blur : Observation
blur = record {
  event_type = tab_blur;
  at = 20;
  offset_ms = none;
  payload = none;
  s3_key = none;
  severity = none;
}

connection-connection_example :
    connection thresholds (connection thresholds (blurred ∷ []) (blur ∷ [])) (blur ∷ [])
    ≡ connection thresholds (blurred ∷ []) (blur ∷ blur ∷ [])
connection-connection_example =
    connection-connection thresholds (blurred ∷ []) (blur ∷ []) (blur ∷ [])

abbrev recorded : List Row
recorded = pasted ∷ blurred ∷ pasted ∷ []

abbrev groups : List Group
groups = (paste, warn, 2) ∷ (tab_blur, info, 1) ∷ []

groups-types : (t : EventType) → type_total t groups ≡ count_rows t recorded
unfolding count_rows event_is
groups-types t = ground arith

groups-severities : (s : Severity) → severity_total s groups ≡ count_severity s recorded
groups-severities s = ground arith

groups-IsGrouping : IsGrouping recorded groups
groups-IsGrouping = record {
  types = groups-types;
  severities = groups-severities;
  positive = (omega arith, (omega arith, tt));
}

recorded-Scored : All Scored recorded
unfolding has_template
recorded-Scored = (inr refl, (inl refl, (inr refl, tt)))

compute_explained_example : is_empty (compute groups).reasons ≡ false
compute_explained_example = compute_explained recorded groups groups-IsGrouping recorded-Scored

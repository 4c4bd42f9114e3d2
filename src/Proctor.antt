-- ===== src/Proctor.antt =====
-- Proctoring: the events of app/models/proctoring.py and what each is worth by the rules of
-- app/modules/proctoring/rules.py.
pub mod Rules
pub mod Collector
pub mod Verdict
pub mod Signals
pub mod Socket
pub mod Vision
use ai_interviewer.Base.{
  ℕ, ◌+◌, ◌*◌, Bool, true, false, not, ◌&&◌, Option, none, some, leb, ltb, ◌==◌, if◌then◌else◌,
}

pub data EventType : Type 0 where
  tab_blur tab_focus fullscreen_exit paste copy devtools_open window_resize face_frame : EventType
  face_absent multiple_faces second_speaker anomalous_silence : EventType

pub data Severity : Type 0 where
  info warn critical : Severity

unfoldable pub event_code : EventType → ℕ
event_code tab_blur = 0
event_code tab_focus = 1
event_code fullscreen_exit = 2
event_code paste = 3
event_code copy = 4
event_code devtools_open = 5
event_code window_resize = 6
event_code face_frame = 7
event_code face_absent = 8
event_code multiple_faces = 9
event_code second_speaker = 10
event_code anomalous_silence = 11

-- `is` on two members of the enum
unfoldable pub event_is : EventType → EventType → Bool
unfolding event_code
event_is a b = event_code a == event_code b

unfoldable pub severity_is : Severity → Severity → Bool
severity_is info info = true
severity_is warn warn = true
severity_is critical critical = true
severity_is _ _ = false

-- the columns of `ProctoringPolicy` and the settings that the rules read
pub record Policy : Type 0 where
  pub blur_limit : ℕ
  pub fullscreen_required : Bool
  pub paste_blocked : Bool
  pub camera_enabled : Bool
  pub frame_interval_secs : ℕ
  pub auto_terminate : Bool

pub record Settings : Type 0 where
  pub proctor_blur_limit : ℕ
  pub proctor_camera_enabled : Bool
  pub proctor_frame_interval_secs : ℕ
  pub proctor_auto_terminate : Bool
  pub proctor_events_per_minute : ℕ

pub record Thresholds : Type 0 where
  pub blur_limit : ℕ
  pub fullscreen_required : Bool
  pub paste_blocked : Bool
  pub camera_enabled : Bool
  pub frame_interval_secs : ℕ
  pub auto_terminate : Bool

-- `Thresholds.from_policy`
unfoldable pub from_policy : Settings → Option Policy → Thresholds
from_policy s none = record {
  blur_limit = s.proctor_blur_limit;
  fullscreen_required = false;
  paste_blocked = true;
  camera_enabled = s.proctor_camera_enabled;
  frame_interval_secs = s.proctor_frame_interval_secs;
  auto_terminate = s.proctor_auto_terminate;
}
from_policy s (some p) = record {
  blur_limit = p.blur_limit;
  fullscreen_required = p.fullscreen_required;
  paste_blocked = p.paste_blocked;
  camera_enabled = p.camera_enabled;
  frame_interval_secs = p.frame_interval_secs;
  auto_terminate = p.auto_terminate;
}

-- `BASE_SEVERITY.get(event_type)`
unfoldable pub base_severity : EventType → Option Severity
base_severity second_speaker = some critical
base_severity multiple_faces = some critical
base_severity face_absent = some warn
base_severity anomalous_silence = some info
base_severity devtools_open = some warn
base_severity tab_focus = some info
base_severity window_resize = some info
base_severity copy = some info
base_severity face_frame = some info
base_severity _ = none

-- the branches of `severity_for` below the fixed table
unfoldable pub escalating : EventType → ℕ → Thresholds → Severity
escalating tab_blur occurrence th =
    if leb occurrence th.blur_limit
    then info
    else if ltb (th.blur_limit * 2) occurrence
    then critical
    else warn
escalating fullscreen_exit occurrence th =
    if not th.fullscreen_required then info else if occurrence == 1 then warn else critical
escalating paste occurrence th = if th.paste_blocked then warn else info
escalating _ _ _ = info

unfoldable pub severity_for : EventType → ℕ → Thresholds → Severity
unfolding base_severity escalating
severity_for t prior_count th = elim (base_severity t) [
  | some fixed ↦ fixed
  | none ↦ escalating t (prior_count + 1) th
]

unfoldable pub should_terminate : Severity → Thresholds → Bool
unfolding severity_is
should_terminate s th = th.auto_terminate && severity_is s critical

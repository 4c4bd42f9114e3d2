-- ===== src/Proctor/Rules.antt =====
-- The rules: how a severity grows with repetition, and when it can be critical.
use ai_interviewer.Base.{ℕ, ◌+◌, ◌*◌, ◌≤◌, ◌<◌, ◌≡◌, ◌⊎◌, true, arith}
use ai_interviewer.Proctor.{
  EventType, tab_blur, fullscreen_exit, second_speaker, multiple_faces, Severity, info, warn,
  critical, event_is, Thresholds, severity_for,
}

-- how grave a severity is
abbrev pub rank : Severity → ℕ
rank info = 0
rank warn = 1
rank critical = 2

pub event_is→eq : (s t : EventType) → event_is s t ≡ true → s ≡ t
unfolding event_is
event_is→eq s t h = ground arith

pub event_is_refl : (t : EventType) → event_is t t ≡ true
unfolding event_is
event_is_refl t = ground arith

-- An event is never worth less for having happened before: the severity grows with the count.
pub severity_for_mono :
    (t : EventType) (m n : ℕ) (th : Thresholds)
    → m ≤ n
    → rank (severity_for t m th) ≤ rank (severity_for t n th)
unfolding severity_for
severity_for_mono t m n th h = ground arith

-- Exactly when an event is critical: a second speaker or face always, a blur past twice the limit, and
-- a repeated exit from a fullscreen that is required.
abbrev pub Critical : EventType → ℕ → Thresholds → Type 0
Critical t n th =
    (t ≡ second_speaker)
    ⊎ (t ≡ multiple_faces)
    ⊎ ((t ≡ tab_blur) × (th.blur_limit < n + 1) × (th.blur_limit * 2 < n + 1))
    ⊎ ((t ≡ fullscreen_exit) × (th.fullscreen_required ≡ true) × (1 ≤ n))

pub severity_for-critical :
    (t : EventType) (n : ℕ) (th : Thresholds) → severity_for t n th ≡ critical → Critical t n th
unfolding severity_for
severity_for-critical t n th h = ground arith

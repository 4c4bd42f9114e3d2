-- ===== src/Proctor/Verdict/Explained.antt =====
-- The reasons of a verdict, by its kind.
use mathlib.Core.Logic.{◌↔◌}
use ai_interviewer.Base.{
  ℕ, ◌≤◌, ◌≡◌, refl, ◌⊎◌, inl, inr, true, false, none, some, List, [], ◌∷◌, arith, Bool-cases,
}
use ai_interviewer.Base.Lists.{All, is_empty}
use ai_interviewer.Proctor.{
  EventType, Severity, info, warn, critical, event_is, severity_is, Thresholds, severity_for,
}
use ai_interviewer.Proctor.Rules.{event_is_refl}
use ai_interviewer.Proctor.Collector.{Row, Observation, Counters, count_rows, record_event, bump}
use ai_interviewer.Proctor.Verdict.{
  Group, Reason, no_data, has_template, get_severity, get_type, tally, assess, compute, kind_for,
  is_clean,
}
use ai_interviewer.Proctor.Verdict.Counts.{
  tally-types, IsGrouping, count_severity, tally-severities,
}
use ai_interviewer.Proctor.Verdict.Reasons.{quoted_sum, quotes, quotes-sum}

-- a type whose events may be worth more than information has a template
abbrev pub Scored : Row → Type 0
Scored r = (r.severity ≡ info) ⊎ (has_template r.event_type ≡ true)

-- What the server's own detectors report.
abbrev pub Detected : Observation → Type 0
Detected o = (o.severity ≡ none) ⊎ ((o.severity ≡ some info) ⊎ (has_template o.event_type ≡ true))

record_event-Scored :
    (th : Thresholds) (c : Counters) (o : Observation) → Detected o → Scored (record_event th c o).1
unfolding record_event severity_for has_template bump
record_event-Scored th c o d = ground arith

Scored-template :
    (s : Severity) (r : Row)
    → Scored r
    → severity_is s info ≡ false
    → severity_is r.severity s ≡ true
    → has_template r.event_type ≡ true
unfolding severity_is has_template
Scored-template s r h n e = ground arith

-- an event that is worth more than information
notable :
    (s : Severity) (rows : List Row)
    → severity_is s info ≡ false
    → All Scored rows
    → 1 ≤ count_severity s rows
    → (t : EventType) × (has_template t ≡ true) × (1 ≤ count_rows t rows)
unfolding count_rows
notable s [] n h c = absurd (omega arith)
notable s (r ∷ rows) n h c = elim (Bool-cases (severity_is r.severity s)) [
  | inl e ↦ (r.event_type, Scored-template s r h.0 n e, ground (arith, event_is_refl r.event_type))
  | inr e ↦
      let (t, templated, some_row) = notable s rows n h.1 (ground arith) in
      (t, templated, ground arith)
]

quoted_sum-nonempty : (t : EventType) (rs : List Reason) → 1 ≤ quoted_sum t rs → is_empty rs ≡ false
quoted_sum-nonempty t [] h = absurd (omega arith)
quoted_sum-nonempty t (r ∷ rs) h = refl

quotes-nonempty :
    (s : Severity) (rows : List Row) (gs : List Group)
    → IsGrouping rows gs
    → All Scored rows
    → severity_is s info ≡ false
    → 1 ≤ count_severity s rows
    → is_empty (quotes gs) ≡ false
quotes-nonempty s rows gs g scored n c =
    let (t, templated, some_row) = notable s rows n scored c in
    quoted_sum-nonempty t (quotes gs) (ground (arith, quotes-sum t rows gs g))

unclean :
    (criticals warnings : ℕ)
    → is_clean (kind_for criticals warnings) ≡ false
    → (1 ≤ criticals) ⊎ (1 ≤ warnings)
unfolding kind_for is_clean
unclean c w h = ground arith

get_severity-tally :
    (s : Severity) (rows : List Row) (gs : List Group)
    → IsGrouping rows gs
    → get_severity s (tally gs [] []).1 ≡ count_severity s rows
unfolding get_severity
get_severity-tally s rows gs g = omega (arith, tally-severities s gs [] [], g.severities s)

flagged-quotes :
    (rows : List Row) (gs : List Group)
    → IsGrouping rows gs
    → All Scored rows
    → is_clean
        (kind_for (get_severity critical (tally gs [] []).1) (get_severity warn (tally gs [] []).1))
      ≡ false
    → is_empty (quotes gs) ≡ false
unfolding severity_is
flagged-quotes rows gs g scored h = elim (unclean _ _ h) [
  | inl c ↦
      quotes-nonempty critical rows gs g scored refl
        (omega (arith, get_severity-tally critical rows gs g))
  | inr w ↦
      quotes-nonempty warn rows gs g scored refl (omega (arith, get_severity-tally warn rows gs g))
]

-- A verdict is never without a reason, whatever was recorded, where every row of more than `info` is of a
-- type that has a template.
pub compute_explained :
    (rows : List Row) (gs : List Group)
    → IsGrouping rows gs
    → All Scored rows
    → is_empty (compute gs).reasons ≡ false
unfolding compute assess
compute_explained rows gs g scored = ground (arith, flagged-quotes rows gs g scored)

compute-no_data-rows :
    (rows : List Row) (gs : List Group)
    → IsGrouping rows gs
    → (compute gs).kind ≡ no_data
    → is_empty rows ≡ true
unfolding compute assess kind_for get_type count_rows
compute-no_data-rows [] gs g h = refl
compute-no_data-rows (r ∷ rows) gs g h =
    ground
      (arith, tally-types r.event_type gs [] [], g.types r.event_type, event_is_refl r.event_type)

compute-no_rows :
    (rows : List Row) (gs : List Group)
    → IsGrouping rows gs
    → is_empty rows ≡ true
    → (compute gs).kind ≡ no_data
unfolding compute assess tally get_type count_rows event_is
compute-no_rows [] [] g h = refl
compute-no_rows [] ((t, s, n) ∷ gs) g h =
    absurd (ground (arith, g.positive.0, g.types t, event_is_refl t))
compute-no_rows (r ∷ rows) gs g h = cc

-- The verdict is that there is no data exactly when no event was recorded.
pub compute-no_data :
    (rows : List Row) (gs : List Group)
    → IsGrouping rows gs
    → ((compute gs).kind ≡ no_data) ↔ (is_empty rows ≡ true)
compute-no_data rows gs g = (compute-no_data-rows rows gs g, compute-no_rows rows gs g)

-- ===== src/Proctor/Verdict.antt =====
-- The verdict on an interview: app/modules/proctoring/verdict.py. A reason is kept as the template and
-- the number that fills it.
pub mod Counts
pub mod Reasons
pub mod Explained
pub mod Rows
use ai_interviewer.Base.{
  ℕ, ◌+◌, Bool, true, false, not, ◌&&◌, ◌||◌, Option, none, some, List, [], ◌∷◌, leb, ltb, ◌==◌,
  if◌then◌else◌,
}
use ai_interviewer.Base.Lists.{is_empty, keep}
use ai_interviewer.Proctor.{
  EventType, tab_blur, tab_focus, fullscreen_exit, paste, copy, devtools_open, window_resize,
  face_frame, face_absent, multiple_faces, second_speaker, anomalous_silence, Severity, warn,
  critical, event_is, severity_is,
}

pub data VerdictKind : Type 0 where
  clean suspicious flagged no_data : VerdictKind

pub data Reason : Type 0 where
  quoted : EventType → ℕ → Reason
  routine : ℕ → Reason
  no_signals no_session : Reason

-- `event_type in REASON_TEMPLATES`
unfoldable pub has_template : EventType → Bool
has_template tab_blur = true
has_template fullscreen_exit = true
has_template paste = true
has_template devtools_open = true
has_template multiple_faces = true
has_template face_absent = true
has_template second_speaker = true
has_template anomalous_silence = true
has_template _ = false

-- `event_type in BOOKKEEPING`
unfoldable pub is_bookkeeping : EventType → Bool
is_bookkeeping tab_focus = true
is_bookkeeping window_resize = true
is_bookkeeping copy = true
is_bookkeeping face_frame = true
is_bookkeeping _ = false

-- the dictionaries, in insertion order
abbrev pub TypeCounts : Type 0
TypeCounts = List (EventType × ℕ)

abbrev pub SeverityCounts : Type 0
SeverityCounts = List (Severity × ℕ)

pub record Assessment : Type 0 where
  pub kind : VerdictKind
  pub reasons : List Reason
  pub counts : TypeCounts
  pub frames_analysed : ℕ

-- `sorted(counts_by_type.items(), key=lambda kv: -kv[1])`, which is stable
unfoldable pub insert_count : EventType × ℕ → TypeCounts → TypeCounts
insert_count e [] = e ∷ []
insert_count e (d ∷ ds) = if leb d.1 e.1 then e ∷ d ∷ ds else d ∷ insert_count e ds

unfoldable pub sort_counts : TypeCounts → TypeCounts
sort_counts [] = []
sort_counts (e ∷ es) = insert_count e (sort_counts es)

-- `if c and t in REASON_TEMPLATES`
unfoldable pub is_quotable : EventType × ℕ → Bool
is_quotable (t, c) = not (c == 0) && has_template t

unfoldable pub quote_reasons : TypeCounts → List Reason
quote_reasons [] = []
quote_reasons (e ∷ es) =
    let rest = quote_reasons es in if is_quotable e then quoted e.0 e.1 ∷ rest else rest

-- `sum(c for t, c in counts_by_type.items() if t not in BOOKKEEPING)`
unfoldable pub reported : TypeCounts → ℕ
reported [] = 0
reported ((t, c) ∷ es) = (if is_bookkeeping t then 0 else c) + reported es

unfoldable pub get_severity : Severity → SeverityCounts → ℕ
unfolding severity_is
get_severity s [] = 0
get_severity s ((r, c) ∷ cs) = if severity_is r s then c else get_severity s cs

unfoldable pub get_type : EventType → TypeCounts → ℕ
get_type t [] = 0
get_type t ((s, c) ∷ cs) = if event_is s t then c else get_type t cs

-- the thresholds, on the numbers of critical events and of warnings
unfoldable pub kind_for : ℕ → ℕ → VerdictKind
kind_for criticals warnings =
    if leb 1 criticals || leb 4 warnings
    then flagged
    else if leb 1 warnings
    then suspicious
    else clean

unfoldable pub is_clean : VerdictKind → Bool
is_clean clean = true
is_clean _ = false

unfoldable pub assess : TypeCounts → SeverityCounts → ℕ → Bool → Assessment
assess counts severities frames had_connection =
    let counted = keep (λ e. not (e.1 == 0)) counts in
    let reasons = quote_reasons (sort_counts counts) in
    let kind = kind_for (get_severity critical severities) (get_severity warn severities) in
    if is_empty counts && frames == 0
    then record {
      kind = no_data;
      reasons = (if had_connection then no_signals else no_session) ∷ [];
      counts = counted;
      frames_analysed = frames;
    }
    else record {
      kind = kind;
      reasons =
          if is_clean kind && is_empty reasons then routine (reported counts) ∷ [] else reasons;
      counts = counted;
      frames_analysed = frames;
    }

-- a row of the grouped query
abbrev pub Group : Type 0
Group = EventType × Severity × ℕ

-- `counts_by_type[t] = counts_by_type.get(t, 0) + n`
unfoldable pub add_type : EventType → ℕ → TypeCounts → TypeCounts
add_type t n [] = (t, n) ∷ []
add_type t n ((s, c) ∷ cs) = if event_is s t then (s, c + n) ∷ cs else (s, c) ∷ add_type t n cs

unfoldable pub add_severity : Severity → ℕ → SeverityCounts → SeverityCounts
unfolding severity_is
add_severity t n [] = (t, n) ∷ []
add_severity t n ((s, c) ∷ cs) =
    if severity_is s t then (s, c + n) ∷ cs else (s, c) ∷ add_severity t n cs

-- the loop of `compute`
unfoldable pub tally : List Group → TypeCounts → SeverityCounts → TypeCounts × SeverityCounts
tally [] ts ss = (ts, ss)
tally ((t, s, n) ∷ gs) ts ss = tally gs (add_type t n ts) (add_severity s n ss)

-- `compute`, on the rows of its query
unfoldable pub compute : List Group → Assessment
compute gs = let (ts, ss) = tally gs [] [] in assess ts ss (get_type face_frame ts) true

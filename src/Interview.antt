-- ===== src/Interview.antt =====
-- The interview's status and the one function that changes it:
-- app/modules/interview/state_machine.py, with the columns of `Interview` (app/models/interview.py).
pub mod Graph
pub mod Store
pub mod Rows
pub mod Once
pub mod Unsent
pub mod Ending
use ai_interviewer.Base.{
  ℕ, Bool, true, false, Option, none, some, List, [], ◌∷◌, Result, ok, err, if◌then◌else◌,
}
use ai_interviewer.Base.Lists.{is_empty, some_of}
use ai_interviewer.Base.Text.{Text}

pub data Status : Type 0 where
  created invited in_progress completed abandoned terminated expired : Status

-- `is` on two members of the enum
unfoldable pub status_is : Status → Status → Bool
status_is created created = true
status_is invited invited = true
status_is in_progress in_progress = true
status_is completed completed = true
status_is abandoned abandoned = true
status_is terminated terminated = true
status_is expired expired = true
status_is _ _ = false

pub record Interview : Type 0 where
  pub id : ℕ
  pub org_id : ℕ
  pub candidate_id : ℕ
  pub job_id : Option ℕ
  pub status : Status
  pub created_at : ℕ
  pub scheduled_at : Option ℕ
  pub started_at : Option ℕ
  pub completed_at : Option ℕ
  pub recording_key : Option Text

-- the table `LEGAL`
unfoldable pub legal : Status → List Status
legal created = invited ∷ expired ∷ abandoned ∷ []
legal invited = in_progress ∷ expired ∷ abandoned ∷ terminated ∷ []
legal in_progress = completed ∷ abandoned ∷ terminated ∷ []
legal completed = []
legal abandoned = []
legal terminated = []
legal expired = []

unfoldable pub can_transition : Status → Status → Bool
unfolding legal status_is
can_transition current target = some_of (status_is target) (legal current)

-- membership in `TERMINAL`: the statuses whose row of `LEGAL` is empty
unfoldable pub is_terminal : Status → Bool
unfolding legal
is_terminal s = is_empty (legal s)

unfoldable pub is_live : Status → Bool
unfolding status_is
is_live s = status_is s in_progress

pub data Column : Type 0 where
  started_at completed_at : Column

-- `TIMESTAMP_COLUMN.get(target)`
unfoldable pub timestamp_column : Status → Option Column
timestamp_column in_progress = some started_at
timestamp_column completed = some completed_at
timestamp_column abandoned = some completed_at
timestamp_column terminated = some completed_at
timestamp_column expired = some completed_at
timestamp_column _ = none

-- `if getattr(interview, column) is None: setattr(interview, column, now)`
abbrev pub keep_first : Option ℕ → ℕ → Option ℕ
keep_first none now = some now
keep_first (some t) _ = some t

unfoldable pub stamp : ℕ → Option Column → Interview → Interview
stamp now none i = i
stamp now (some started_at) i = record i { started_at = keep_first i.started_at now }
stamp now (some completed_at) i = record i { completed_at = keep_first i.completed_at now }

-- `IllegalTransitionError(current, target)`
pub data IllegalTransition : Type 0 where
  illegal : Status → Status → IllegalTransition

-- The interview after the call, and whether anything changed. `now` is the clock's reading.
unfoldable pub transition : ℕ → Interview → Status → Result IllegalTransition (Bool × Interview)
transition now i target =
    if status_is i.status target
    then ok (false, i)
    else if can_transition i.status target
    then ok (true, stamp now (timestamp_column target) (record i { status = target }))
    else err (illegal i.status target)

-- ===== src/Interview/Store.antt =====
-- The operations on interviews: app/modules/interview/service.py, over the rows that a session of
-- the organisation sees. A call that raises leaves the rows as they were, since `tenant_session`
-- rolls back.
use ai_interviewer.Base.{
  ℕ, ◌+◌, ◌*◌, Bool, not, ◌&&◌, ◌||◌, none, some, List, [], ◌∷◌, Result, ok, err, raise_if, ◌>>=◌,
  ◌>>◌, ltb, if◌then◌else◌,
}
use ai_interviewer.Base.Lists.{is_empty}
use ai_interviewer.Base.Rows.{find, replace}
use ai_interviewer.Base.Text.{Text, codes, text_eq}
use ai_interviewer.Interview.{
  Status, created, invited, in_progress, completed, abandoned, terminated, expired, Interview,
  IllegalTransition, is_terminal, transition, status_is,
}
use ai_interviewer.Plan.{Plan, is_frozen}
use ai_interviewer.Plan.Edits.{PlanError, freeze}

-- the tables, and the interviews whose chain of tasks was handed to `pipeline.enqueue`
pub record Store : Type 0 where
  pub interviews : List Interview
  pub plans : List Plan
  pub sent : List ℕ

pub data ServiceError : Type 0 where
  not_found : ℕ → ServiceError
  already_ended : Status → ServiceError
  illegal_move : IllegalTransition → ServiceError
  plan_error : PlanError → ServiceError

abbrev pub interview_id : Interview → ℕ
interview_id i = i.id

abbrev pub plan_interview : Plan → ℕ
plan_interview p = p.interview_id

unfoldable pub get_interview : Store → ℕ → Result ServiceError Interview
get_interview w k = elim (find interview_id k w.interviews) [
  | none ↦ err (not_found k)
  | some i ↦ ok i
]

abbrev pub put_interview : Interview → Store → Store
put_interview i w = record w { interviews = replace interview_id i w.interviews }

-- `state_machine.transition` on a row
unfoldable pub move : ℕ → Interview → Status → Store → Result ServiceError Store
move now i target w = elim (transition now i target) [
  | ok (_, j) ↦ ok (put_interview j w)
  | err e ↦ err (illegal_move e)
]

-- the half of `start` that freezes the plan
unfoldable pub freeze_plan : ℕ → Store → Result ServiceError Store
freeze_plan k w = elim (find plan_interview k w.plans) [
  | none ↦ ok w
  | some p ↦
      if not (is_frozen p.status) && not (is_empty p.questions)
      then elim (freeze p) [
        | ok q ↦ ok (record w { plans = replace plan_interview q w.plans })
        | err e ↦ err (plan_error e)
      ]
      else ok w
]

unfoldable pub start : ℕ → ℕ → Store → Result ServiceError Store
start now k w = do
  i ← get_interview w k
  raise_if (is_terminal i.status) (already_ended i.status)
  w' ← move now i in_progress w
  freeze_plan k w'

-- `END_REASON_STATUS.get(reason, ABANDONED)`
unfoldable pub end_status : Text → Status
end_status reason =
    if text_eq reason (codes "completed")
    then completed
    else if text_eq reason (codes "abandoned")
    then abandoned
    else if text_eq reason (codes "terminated")
    then terminated
    else if text_eq reason (codes "timed_out")
    then completed
    else abandoned

-- `reason in NON_TERMINAL_REASONS`
unfoldable pub keeps_interview : Text → Bool
keeps_interview reason = text_eq reason (codes "superseded")

unfoldable pub finish : ℕ → ℕ → Text → Store → Result ServiceError Store
finish now k reason w = do
  i ← get_interview w k
  (if keeps_interview reason || is_terminal i.status
      then ok w
      else move now i (end_status reason) w)

unfoldable pub terminate : ℕ → ℕ → Store → Result ServiceError Store
terminate now k w = do
  i ← get_interview w k
  raise_if (is_terminal i.status) (already_ended i.status)
  move now i terminated w

-- the `WHERE` clause of `expire_stale`; times in seconds, `cutoff` is `now - hours`
unfoldable pub is_stale : ℕ → ℕ → Interview → Bool
is_stale now hours i =
    (status_is i.status created || status_is i.status invited)
    && ltb (i.created_at + hours * 3600) now

unfoldable pub expire_rows : ℕ → ℕ → List Interview → List Interview
expire_rows now hours [] = []
expire_rows now hours (i ∷ is) =
    (if is_stale now hours i then record i { status = expired; completed_at = some now } else i)
    ∷ expire_rows now hours is

unfoldable pub count_stale : ℕ → ℕ → List Interview → ℕ
count_stale now hours [] = 0
count_stale now hours (i ∷ is) = (if is_stale now hours i then 1 else 0) + count_stale now hours is

unfoldable pub expire_stale : ℕ → ℕ → Store → Store × ℕ
expire_stale now hours w = (
  record w { interviews = expire_rows now hours w.interviews },
  count_stale now hours w.interviews,
)

-- `if event.recording_key: interview.recording_key = event.recording_key`
unfoldable pub keep_recording : ℕ → Text → Store → Result ServiceError Store
keep_recording k key w =
    if is_empty key
    then ok w
    else (get_interview w k >>= λ i. ok (put_interview (record i { recording_key = some key }) w))

abbrev pub send : ℕ → Store → Store
send k w = record w { sent = k ∷ w.sent }

-- `_on_session_ended`, whose absent recording key is the empty text
unfoldable pub on_session_ended : ℕ → ℕ → Text → Text → Store → Result ServiceError Store
on_session_ended now k reason key w = do
  before ← get_interview w k
  ended ← finish now k reason w
  recorded ← keep_recording k key ended
  after ← get_interview recorded k
  ok (
      if not (is_terminal before.status) && is_terminal after.status
      then send k recorded
      else recorded)

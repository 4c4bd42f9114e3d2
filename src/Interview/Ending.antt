-- ===== src/Interview/Ending.antt =====
-- The start and the end of a session, branch by branch.
use ai_interviewer.Base.{
  ℕ, ◌≡◌, refl, ap, ◌⊎◌, inl, inr, ◌∙◌, Bool, true, false, not, ◌&&◌, some, List, ◌∷◌, ok, err,
  arith, if◌then◌else◌, or_else, Result-cases, Option-cases, Bool-cases,
}
use ai_interviewer.Base.Lists.{is_empty}
use ai_interviewer.Base.Rows.{find, find-key, find-replace_self}
use ai_interviewer.Base.Text.{Text}
use ai_interviewer.Interview.{
  created, invited, in_progress, Interview, illegal, status_is, is_terminal, transition,
  timestamp_column, stamp, can_transition,
}
use ai_interviewer.Interview.Rows.{row, get-row, transition_row, freeze_plan-rows}
use ai_interviewer.Interview.Store.{
  Store, ServiceError, illegal_move, interview_id, plan_interview, get_interview, put_interview,
  move, freeze_plan, start, finish, end_status, keeps_interview, keep_recording, send,
  on_session_ended,
}
use ai_interviewer.Plan.{Plan, PlanStatus, is_frozen, frozen}
use ai_interviewer.Plan.Edits.{freeze}

-- A call of `finish` on an interview that is there raises only if the interview never went live, and
-- then reports the move that it refused.
pub finish_raises_unstarted :
    (now m : ℕ) (reason : Text) (w : Store) (i : Interview) (x : ServiceError)
    → row m w ≡ some i
    → finish now m reason w ≡ err x
    → ((i.status ≡ created) ⊎ (i.status ≡ invited))
      × (x ≡ illegal_move (illegal i.status (end_status reason)))
unfolding finish get_interview move transition can_transition status_is is_terminal end_status
finish_raises_unstarted now m reason w i x there h = ground arith

is_frozen→eq : (s : PlanStatus) → is_frozen s ≡ true → s ≡ frozen
unfolding is_frozen
is_frozen→eq s h = ground arith

freeze-frozen :
    (p q : Plan) → freeze p ≡ ok q → (q.status ≡ frozen) × (q.interview_id ≡ p.interview_id)
unfolding freeze is_frozen
freeze-frozen p q h = ground arith

frozen_after :
    (k : ℕ) (w w' : Store) (p : Plan)
    → freeze_plan k w ≡ ok w'
    → find plan_interview k w'.plans ≡ some p
    → is_empty p.questions ≡ false
    → p.status ≡ frozen
unfolding freeze_plan
frozen_after k w w' p h there asked = elim (Option-cases (find plan_interview k w.plans)) [
  | inl e ↦ ground arith
  | inr (q, e) ↦ elim (Bool-cases (not (is_frozen q.status) && not (is_empty q.questions))) [
    | inr as_is ↦
        let same : p ≡ q = ground arith in rw same (is_frozen→eq q.status (ground (arith, same)))
    | inl due ↦ elim (Result-cases (freeze q)) [
      | inr (x, f) ↦ ground arith
      | inl (r, f) ↦
          let (status, key) = freeze-frozen q r f in
          let found =
            find-replace_self plan_interview k r q w.plans
              (key ∙ find-key plan_interview k q w.plans e) e in
          let same : p ≡ r = ground (arith, found) in rw same status
    ]
  ]
]

arrived :
    (now : ℕ) (i j : Interview) (b : Bool)
    → transition now i in_progress ≡ ok (b, j)
    → j.status ≡ in_progress
unfolding transition can_transition status_is timestamp_column stamp
arrived now i j b h = ground arith

move_live :
    (now : ℕ) (k : ℕ) (i : Interview) (w w' : Store)
    → row k w ≡ some i
    → move now i in_progress w ≡ ok w'
    → (j : Interview) × (row k w' ≡ some j) × (j.status ≡ in_progress)
unfolding move
move_live now k i w w' there h = elim (Result-cases (transition now i in_progress)) [
  | inr (x, e) ↦ ground arith
  | inl ((b, j), e) ↦
      let named =
        (transition_row now i j in_progress b e).0 ∙ find-key interview_id k i w.interviews there in
      let eq : w' ≡ put_interview j w = ground arith in
      (
        j,
        rw eq (find-replace_self interview_id k j i w.interviews named there),
        arrived now i j b e,
      )
]

-- A start that does not raise leaves the interview live and its plan, if that has any question,
-- frozen.
pub start_live_and_frozen :
    (now k : ℕ) (w w' : Store) (p : Plan)
    → start now k w ≡ ok w'
    → find plan_interview k w'.plans ≡ some p
    → is_empty p.questions ≡ false
    → (p.status ≡ frozen) × ((j : Interview) × (row k w' ≡ some j) × (j.status ≡ in_progress))
unfolding start
start_live_and_frozen now k w w' p h found asked = elim (Result-cases (get_interview w k)) [
  | inr (x, e) ↦ ground arith
  | inl (i, e) ↦ elim (Result-cases (move now i in_progress w)) [
    | inr (x, f) ↦ ground arith
    | inl (v, f) ↦
        let frozen_step : freeze_plan k v ≡ ok w' = ground arith in
        let (j, there, live) = move_live now k i w v (get-row k w i e) f in
        (
          frozen_after k v w' p frozen_step found asked,
          (j, rw (freeze_plan-rows k v w' frozen_step).0 there, live),
        )
  ]
]

-- The row that `finish` leaves of a live interview, and what the recording adds to it.
unfoldable pub finished_row : ℕ → Text → Interview → Interview
finished_row now reason i = record i {
  status = end_status reason;
  completed_at = some (or_else i.completed_at now);
}

unfoldable pub recorded_row : Text → Interview → Interview
recorded_row key i = record i { recording_key = if is_empty key then i.recording_key else some key }

finish_live :
    (now m : ℕ) (reason : Text) (w : Store) (i : Interview)
    → row m w ≡ some i
    → i.status ≡ in_progress
    → keeps_interview reason ≡ false
    → finish now m reason w ≡ ok (put_interview (finished_row now reason i) w)
unfolding finish get_interview move is_terminal transition can_transition status_is timestamp_column
    stamp end_status finished_row
finish_live now m reason w i there live other = ground arith

-- the rows after the recording of interview `m` is kept
unfoldable pub recorded : Text → Interview → Store → Store
recorded key i w =
    if is_empty key then w else put_interview (record i { recording_key = some key }) w

keep_recording_found :
    (m : ℕ) (key : Text) (w : Store) (i : Interview)
    → row m w ≡ some i
    → keep_recording m key w ≡ ok (recorded key i w)
unfolding keep_recording recorded get_interview
keep_recording_found m key w i there = ground arith

recorded-row :
    (m : ℕ) (key : Text) (w : Store) (i : Interview)
    → row m w ≡ some i
    → (row m (recorded key i w) ≡ some (recorded_row key i))
      × ((recorded key i w).sent ≡ w.sent)
      × ((recorded key i w).plans ≡ w.plans)
unfolding recorded recorded_row
recorded-row m key w i there = elim (Bool-cases (is_empty key)) [
  | inl e ↦ rw e (there, refl, refl)
  | inr n ↦ rw n (
    find-replace_self interview_id m (record i { recording_key = some key }) i w.interviews
        (find-key interview_id m i w.interviews there) there,
    refl,
    refl,
  )
]

-- The whole handler, from what its steps come to.
ended_steps :
    (now m : ℕ) (reason key : Text) (w v u : Store) (i j : Interview)
    → row m w ≡ some i
    → is_terminal i.status ≡ false
    → finish now m reason w ≡ ok v
    → keep_recording m key v ≡ ok u
    → row m u ≡ some j
    → is_terminal j.status ≡ true
    → on_session_ended now m reason key w ≡ ok (send m u)
unfolding on_session_ended get_interview
ended_steps now m reason key w v u i j here was done kept there gone = ground arith

finished-terminal :
    (now : ℕ) (reason key : Text) (i : Interview)
    → is_terminal (recorded_row key (finished_row now reason i)).status ≡ true
unfolding recorded_row finished_row end_status is_terminal
finished-terminal now reason key i = ground arith

live-not_terminal : (i : Interview) → i.status ≡ in_progress → is_terminal i.status ≡ false
unfolding is_terminal
live-not_terminal i live = ground arith

-- Ending a live session, for any reason but that a newer session took over, never raises: the
-- interview gets the status of the reason and its time, the recording is kept, and its chain of
-- tasks is sent. Nothing else changes.
pub on_session_ended_live :
    (now m : ℕ) (reason key : Text) (w : Store) (i : Interview)
    → row m w ≡ some i
    → i.status ≡ in_progress
    → keeps_interview reason ≡ false
    → (w' : Store) × (on_session_ended now m reason key w ≡ ok w')
      × (row m w' ≡ some (recorded_row key (finished_row now reason i)))
      × (w'.sent ≡ m ∷ w.sent)
      × (w'.plans ≡ w.plans)
on_session_ended_live now m reason key w i there live other =
    let j = finished_row now reason i in
    let v = put_interview j w in
    let named : j.id ≡ m = unfold finished_row in find-key interview_id m i w.interviews there in
    let moved : row m v ≡ some j = find-replace_self interview_id m j i w.interviews named there in
    let kept = keep_recording_found m key v j moved in
    let (here, sent, plans) = recorded-row m key v j moved in
    (
      send m (recorded key j v),
      ended_steps now m reason key w v (recorded key j v) i (recorded_row key j) there
          (live-not_terminal i live) (finish_live now m reason w i there live other) kept here
          (finished-terminal now reason key i),
      here,
      ap (λ (l : List ℕ). m ∷ l) sent,
      plans,
    )

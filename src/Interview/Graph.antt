-- ===== src/Interview/Graph.antt =====
-- The transition diagram of the module's docstring, and what `transition` does against it.
use ai_interviewer.Base.{
  ℕ, ◌≡◌, refl, ◌≢◌, inl, inr, Bool, true, false, some, arith, ok, err, Result, if◌then◌else◌,
  or_else, Bool-cases,
}
use ai_interviewer.Interview.{
  Status, created, invited, in_progress, completed, abandoned, terminated, expired, Interview,
  IllegalTransition, illegal, status_is, can_transition, is_terminal, transition, timestamp_column,
  stamp,
}

-- Every way out of a status that is not terminal.
infix 40 ◌⟶◌ ◌⟶*◌
pub data ◌⟶◌ : Status → Status → Type 0 where
  invite : created ⟶ invited
  join : invited ⟶ in_progress
  finish : in_progress ⟶ completed
  lapse_created : created ⟶ expired
  lapse_invited : invited ⟶ expired
  leave_created : created ⟶ abandoned
  leave_invited : invited ⟶ abandoned
  leave : in_progress ⟶ abandoned
  stop_invited : invited ⟶ terminated
  stop : in_progress ⟶ terminated

pub data ◌⟶*◌ : Status → Status → Type 0 where
  here : {s : Status} → s ⟶* s
  then : {s t u : Status} → s ⟶ t → t ⟶* u → s ⟶* u

pub ruleset edges = (
  invite, join, finish, lapse_created, lapse_invited, leave_created, leave_invited, leave,
  stop_invited, stop,
)

pub status_is→eq : (s t : Status) → status_is s t ≡ true → s ≡ t
unfolding status_is
status_is→eq s t h = ground arith

status_is_refl : (s : Status) → status_is s s ≡ true
unfolding status_is
status_is_refl s = ground arith

pub status_is→ne : (s t : Status) → status_is s t ≡ false → s ≢ t
unfolding status_is
status_is→ne s t h = ground arith

pub can_transition→⟶ : (s t : Status) → can_transition s t ≡ true → s ⟶ t
unfolding can_transition
can_transition→⟶ s t h = grind (arith, edges)

pub ⟶→can_transition : {s t : Status} → s ⟶ t → can_transition s t ≡ true
unfolding can_transition
⟶→can_transition invite = refl
⟶→can_transition _ = refl

-- The interview after a move: the new status, the column of `TIMESTAMP_COLUMN` stamped unless it
-- was set before, and nothing else changed.
pub record Moved (now : ℕ) (i : Interview) (target : Status) (j : Interview) : Type 0 where
  pub status : j.status ≡ target
  pub started :
      j.started_at
      ≡ (if status_is target in_progress then some (or_else i.started_at now) else i.started_at)
  pub finished :
      j.completed_at
      ≡ (if is_terminal target then some (or_else i.completed_at now) else i.completed_at)
  pub id : j.id ≡ i.id
  pub org_id : j.org_id ≡ i.org_id
  pub candidate_id : j.candidate_id ≡ i.candidate_id
  pub job_id : j.job_id ≡ i.job_id
  pub created_at : j.created_at ≡ i.created_at
  pub scheduled_at : j.scheduled_at ≡ i.scheduled_at
  pub recording_key : j.recording_key ≡ i.recording_key

-- What a call of `transition` comes to: nothing to do, a move along an edge, or no such edge.
pub data Outcome (now : ℕ) (i : Interview) (target : Status)
    : Result IllegalTransition (Bool × Interview) → Type 0 where
  same : i.status ≡ target → Outcome now i target (ok (false, i))
  moved :
      (j : Interview)
      → i.status ⟶ target
      → Moved now i target j
      → Outcome now i target (ok (true, j))
  refused :
      i.status ≢ target
      → ¬ (i.status ⟶ target)
      → Outcome now i target (err (illegal i.status target))

pub after_move : ℕ → Interview → Status → Interview
unfolding timestamp_column stamp
after_move now i target = stamp now (timestamp_column target) (record i { status = target })

after_move-Moved :
    (now : ℕ) (i : Interview) (target : Status)
    → (i.status ⟶ target)
    → Moved now i target (after_move now i target)
unfolding after_move is_terminal status_is
after_move-Moved now i target e = ground arith

-- `transition` moves along the edges of the diagram and along no other; staying put is no error.
pub transition-Outcome :
    (now : ℕ) (i : Interview) (target : Status) → Outcome now i target (transition now i target)
unfolding transition after_move
transition-Outcome now i target = elim (Bool-cases (status_is i.status target)) [
  | inl e ↦ rw e (same (status_is→eq _ _ e))
  | inr n ↦ elim (Bool-cases (can_transition i.status target)) [
    | inl c ↦
        rw (n, c)
          (moved (after_move now i target) (can_transition→⟶ _ _ c)
            (after_move-Moved now i target (can_transition→⟶ _ _ c)))
    | inr c ↦ rw (n, c) (refused (status_is→ne _ _ n) (λ e. cc (⟶→can_transition e)))
  ]
]

-- ===== src/Interview/Unsent.antt =====
-- Deliveries after `terminate`, app/modules/interview/service.py.
use ai_interviewer.Base.{
  ℕ, ◌≡◌, refl, ap, ◌∙◌, Bool, true, not, ◌&&◌, some, List, [], ◌∷◌, ok, arith, ◌==◌, Result-cases,
  Bool-cases, inl, inr,
}
use ai_interviewer.Base.Rows.{find-key, find-replace_self}
use ai_interviewer.Interview.{
  Interview, terminated, is_terminal, status_is, transition, can_transition, timestamp_column,
  stamp,
}
use ai_interviewer.Interview.Store.{
  Store, interview_id, get_interview, put_interview, move, terminate, expire_stale, send,
}
use ai_interviewer.Interview.Rows.{
  row, get-row, start-Quiet, terminate-Quiet, expire_stale-Quiet, Ends, on_session_ended-Ends,
}
use ai_interviewer.Interview.Once.{
  Event, session_started, session_ended, stopped, reaped, handle, settled, deliver, count, IsEnded,
  step-Follows, Follows-IsEnded,
}

-- The end of a session sends nothing for an interview that has ended before.
Ends-unsent :
    (m k : ℕ) (w w' : Store) → Ends m w w' → IsEnded (row k w) → count k w'.sent ≡ count k w.sent
Ends-unsent m k w w' e gone =
    elim (Bool-cases (not (is_terminal e.before.status) && is_terminal e.after.status)) [
      | inr no_edge ↦
          let eq : w' ≡ e.quiet = ground (arith, e.result) in rw eq (ap (count k) e.rows.unsent)
      | inl edge ↦
          let sent : w' ≡ send m e.quiet = ground (arith, e.result) in
          elim (Bool-cases (k == m)) [
            | inl same ↦
                let km : k ≡ m = ground arith in
                let there : row k w ≡ some e.before = ap (λ n. row n w) km ∙ e.found in
                let t : is_terminal e.before.status ≡ true = rw there at gone in
                absurd (ground arith)
            | inr other ↦ rw (sent, other) (omega (arith, ap (count k) e.rows.unsent))
          ]
    ]

handle-unsent :
    (k : ℕ) (e : Event) (w w' : Store)
    → handle e w ≡ ok w'
    → IsEnded (row k w)
    → count k w'.sent ≡ count k w.sent
unfolding handle
handle-unsent k (session_started now m) w w' h gone = ap (count k) (start-Quiet now m w w' h).unsent
handle-unsent k (session_ended now m reason key) w w' h gone =
    Ends-unsent m k w w' (on_session_ended-Ends now m reason key w w' h) gone
handle-unsent k (stopped now m) w w' h gone = ap (count k) (terminate-Quiet now m w w' h).unsent
handle-unsent k (reaped now hours) w w' h gone =
    let eq : w' ≡ (expire_stale now hours w).0 = ground arith in
    rw eq (ap (count k) (expire_stale-Quiet now hours w).unsent)

step-unsent :
    (k : ℕ) (e : Event) (w : Store)
    → IsEnded (row k w)
    → count k (settled w (handle e w)).sent ≡ count k w.sent
step-unsent k e w gone = elim (Result-cases (handle e w)) [
  | inl (v, h) ↦ rw (h, settled) (handle-unsent k e w v h gone)
  | inr (x, h) ↦ rw (h, settled) refl
]

deliver-unsent :
    (k : ℕ) (es : List Event) (w : Store)
    → IsEnded (row k w)
    → count k (deliver es w).sent ≡ count k w.sent
unfolding deliver
deliver-unsent k [] w gone = refl
deliver-unsent k (e ∷ es) w gone =
    deliver-unsent k es (settled w (handle e w)) (Follows-IsEnded (step-Follows k e w) gone)
    ∙ step-unsent k e w gone

transition-terminated :
    (now : ℕ) (i j : Interview) (b : Bool)
    → transition now i terminated ≡ ok (b, j)
    → (j.id ≡ i.id) × (is_terminal j.status ≡ true)
unfolding transition can_transition status_is timestamp_column stamp is_terminal
transition-terminated now i j b h = ground arith

-- a move to `terminated` that does not raise gets there
move-terminated :
    (now m : ℕ) (i : Interview) (w w' : Store)
    → row m w ≡ some i
    → move now i terminated w ≡ ok w'
    → IsEnded (row m w')
unfolding move
move-terminated now m i w w' there h = elim (Result-cases (transition now i terminated)) [
  | inr (x, e) ↦ absurd (ground arith)
  | inl ((b, j), e) ↦
      let (same, gone) = transition-terminated now i j b e in
      let eq : w' ≡ put_interview j w = ground arith in
      let key : j.id ≡ m = same ∙ find-key interview_id m i w.interviews there in
      rw (eq, find-replace_self interview_id m j i w.interviews key there) gone
]

-- Once an interview was terminated, by a recruiter or by proctoring, it is not handed to the chain of tasks,
-- whatever is delivered after that, the end of its session included.
pub terminated_never_sent :
    (now k : ℕ) (es : List Event) (w w' : Store)
    → terminate now k w ≡ ok w'
    → count k (deliver es w').sent ≡ count k w.sent
unfolding terminate
terminated_never_sent now k es w w' h = elim (Result-cases (get_interview w k)) [
  | inr (x, e) ↦ absurd (ground arith)
  | inl (i, e) ↦
      let moved : move now i terminated w ≡ ok w' = ground arith in
      deliver-unsent k es w' (move-terminated now k i w w' (get-row k w i e) moved)
      ∙ ap (count k) (terminate-Quiet now k w w' h).unsent
]

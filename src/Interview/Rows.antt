-- ===== src/Interview/Rows.antt =====
-- What the operations of app/modules/interview/service.py do to the row of each interview.
use ai_interviewer.Base.{
  ℕ, ◌≡◌, refl, ap, ◌⊎◌, inl, inr, ◌∙◌, Bool, true, false, not, ◌&&◌, ◌||◌, Option, none, some,
  List, [], ◌∷◌, ok, arith, ◌==◌, if◌then◌else◌, Result-cases, Option-cases, Bool-cases,
}
use ai_interviewer.Base.Lists.{is_empty}
use ai_interviewer.Base.Rows.{find, find-key, find-replace_self, find-replace_ne}
use ai_interviewer.Base.Text.{Text}
use ai_interviewer.Interview.{
  Status, in_progress, terminated, Interview, status_is, is_terminal, transition, timestamp_column,
  stamp, can_transition,
}
use ai_interviewer.Plan.Edits.{freeze}
use ai_interviewer.Interview.Store.{
  Store, interview_id, get_interview, put_interview, move, freeze_plan, start, finish, terminate,
  is_stale, keeps_interview, end_status, plan_interview, expire_rows, expire_stale, keep_recording,
  send, on_session_ended,
}

-- The row of interview `k` after an operation, given the row before it: it is there, and one that had
-- ended keeps its status and its timestamps.
pub data Follows : Option Interview → Option Interview → Type 0 where
  absent : Follows none none
  live : (i j : Interview) → is_terminal i.status ≡ false → Follows (some i) (some j)
  ended :
      (i j : Interview)
      → is_terminal i.status ≡ true
      → j.status ≡ i.status
      → j.started_at ≡ i.started_at
      → j.completed_at ≡ i.completed_at
      → Follows (some i) (some j)

pub Follows-refl : (o : Option Interview) → Follows o o
Follows-refl none = absent
Follows-refl (some i) = elim (Bool-cases (is_terminal i.status)) [
  | inl e ↦ ended i i e refl refl refl
  | inr l ↦ live i i l
]

pub Follows-trans : {a b c : Option Interview} → Follows a b → Follows b c → Follows a c
Follows-trans absent f = f
Follows-trans (live i j l) (live _ k l') = live i k l
Follows-trans (live i j l) (ended _ k _ _ _ _) = live i k l
Follows-trans (ended i j e s t u) (live _ k l') = cc (ap is_terminal s)
Follows-trans (ended i j e s t u) (ended _ k e' s' t' u') = ended i k e (s' ∙ s) (t' ∙ t) (u' ∙ u)

abbrev pub row : ℕ → Store → Option Interview
row k w = find interview_id k w.interviews

put-Follows :
    (k m : ℕ) (i j : Interview) (w : Store)
    → row m w ≡ some i
    → j.id ≡ m
    → Follows (some i) (some j)
    → Follows (row k w) (row k (put_interview j w))
put-Follows k m i j w there same f = elim (Bool-cases (k == m)) [
  | inl e ↦
      let km : k ≡ m = ground arith in
      rw (km, there, find-replace_self interview_id m j i w.interviews same there) f
  | inr n ↦
      rw (find-replace_ne interview_id k j w.interviews (ground arith)) (Follows-refl (row k w))
]

pub transition_row :
    (now : ℕ) (i j : Interview) (target : Status) (b : Bool)
    → transition now i target ≡ ok (b, j)
    → (j.id ≡ i.id) × ((j ≡ i) ⊎ (is_terminal i.status ≡ false))
unfolding transition status_is can_transition is_terminal timestamp_column stamp
transition_row now i j target b h = ground arith

-- What an operation that sends nothing does to every row.
pub record Quiet (w w' : Store) : Type 0 where
  pub rows : (k : ℕ) → Follows (row k w) (row k w')
  pub unsent : w'.sent ≡ w.sent

pub Quiet-trans : {u v w : Store} → Quiet u v → Quiet v w → Quiet u w
Quiet-trans a b = record {
  rows = λ k. Follows-trans (a.rows k) (b.rows k);
  unsent = b.unsent ∙ a.unsent;
}

pub Quiet-refl : (w : Store) → Quiet w w
Quiet-refl w = record { rows = λ k. Follows-refl (row k w); unsent = refl }

move-Quiet :
    (now m : ℕ) (i : Interview) (target : Status) (w w' : Store)
    → row m w ≡ some i
    → move now i target w ≡ ok w'
    → Quiet w w'
unfolding move
move-Quiet now m i target w w' there h = elim (Result-cases (transition now i target)) [
  | inr (x, e) ↦ ground arith
  | inl ((b, j), e) ↦
      let (same, how) = transition_row now i j target b e in
      let named : j.id ≡ m = same ∙ find-key interview_id m i w.interviews there in
      let eq : w' ≡ put_interview j w = ground arith in
      rw eq (record {
        rows = λ k.
            put-Follows k m i j w there named
              (elim how [ inl stay ↦ rw stay (Follows-refl (some i)) | inr l ↦ live i j l ]);
        unsent = refl;
      })
]

pub freeze_plan-rows :
    (m : ℕ) (w w' : Store)
    → freeze_plan m w ≡ ok w'
    → (w'.interviews ≡ w.interviews) × (w'.sent ≡ w.sent)
unfolding freeze_plan
freeze_plan-rows m w w' h = elim (Option-cases (find plan_interview m w.plans)) [
  | inl e ↦ ground arith
  | inr (p, e) ↦ elim (Result-cases (freeze p)) [
    | inl (q, f) ↦ ground arith
    | inr (x, f) ↦ ground arith
  ]
]

freeze_plan-Quiet : (m : ℕ) (w w' : Store) → freeze_plan m w ≡ ok w' → Quiet w w'
freeze_plan-Quiet m w w' h =
    let (is, ss) = freeze_plan-rows m w w' h in
    record { rows = λ k. rw is (Follows-refl (row k w)); unsent = ss }

pub get-row : (m : ℕ) (w : Store) (i : Interview) → get_interview w m ≡ ok i → row m w ≡ some i
unfolding get_interview
get-row m w i h = ground arith

pub start-Quiet : (now m : ℕ) (w w' : Store) → start now m w ≡ ok w' → Quiet w w'
unfolding start
start-Quiet now m w w' h = elim (Result-cases (get_interview w m)) [
  | inr (x, e) ↦ ground arith
  | inl (i, e) ↦ elim (Result-cases (move now i in_progress w)) [
    | inr (x, f) ↦ ground arith
    | inl (v, f) ↦
        Quiet-trans (move-Quiet now m i in_progress w v (get-row m w i e) f)
          (freeze_plan-Quiet m v w' (ground arith))
  ]
]

pub finish-Quiet :
    (now m : ℕ) (reason : Text) (w w' : Store) → finish now m reason w ≡ ok w' → Quiet w w'
unfolding finish
finish-Quiet now m reason w w' h = elim (Result-cases (get_interview w m)) [
  | inr (x, e) ↦ ground arith
  | inl (i, e) ↦ elim (Bool-cases (keeps_interview reason || is_terminal i.status)) [
    | inl t ↦ let eq : w' ≡ w = ground arith in rw eq (Quiet-refl w)
    | inr t ↦ move-Quiet now m i (end_status reason) w w' (get-row m w i e) (ground arith)
  ]
]

pub terminate-Quiet : (now m : ℕ) (w w' : Store) → terminate now m w ≡ ok w' → Quiet w w'
unfolding terminate
terminate-Quiet now m w w' h = elim (Result-cases (get_interview w m)) [
  | inr (x, e) ↦ ground arith
  | inl (i, e) ↦ move-Quiet now m i terminated w w' (get-row m w i e) (ground arith)
]

is_stale-live :
    (now hours : ℕ) (i : Interview) → is_stale now hours i ≡ true → is_terminal i.status ≡ false
unfolding is_stale status_is is_terminal
is_stale-live now hours i h = ground arith

expire_rows-Follows :
    (now hours k : ℕ) (is : List Interview)
    → Follows (find interview_id k is) (find interview_id k (expire_rows now hours is))
unfolding find expire_rows
expire_rows-Follows now hours k [] = absent
expire_rows-Follows now hours k (i ∷ is) = elim (Bool-cases (is_stale now hours i)) [
  | inl old ↦ rw old (elim (Bool-cases (i.id == k)) [
    | inl e ↦ rw e (live i _ (is_stale-live now hours i old))
    | inr n ↦ rw n (expire_rows-Follows now hours k is)
  ])
  | inr new ↦ rw new (elim (Bool-cases (i.id == k)) [
    | inl e ↦ rw e (Follows-refl (some i))
    | inr n ↦ rw n (expire_rows-Follows now hours k is)
  ])
]

pub expire_stale-Quiet : (now hours : ℕ) (w : Store) → Quiet w (expire_stale now hours w).0
unfolding expire_stale
expire_stale-Quiet now hours w = record {
  rows = λ k. expire_rows-Follows now hours k w.interviews;
  unsent = refl;
}

pub keep_recording-Quiet :
    (m : ℕ) (key : Text) (w w' : Store) → keep_recording m key w ≡ ok w' → Quiet w w'
unfolding keep_recording
keep_recording-Quiet m key w w' h = elim (Bool-cases (is_empty key)) [
  | inl e ↦ let eq : w' ≡ w = ground arith in rw eq (Quiet-refl w)
  | inr n ↦ elim (Result-cases (get_interview w m)) [
    | inr (x, e) ↦ ground arith
    | inl (i, e) ↦
        let there = get-row m w i e in
        let j : Interview = record i { recording_key = some key } in
        let eq : w' ≡ put_interview j w = ground arith in
        let kept : Follows (some i) (some j) = elim (Bool-cases (is_terminal i.status)) [
          | inl t ↦ ended i j t refl refl refl
          | inr l ↦ live i j l
        ] in
        rw eq (record {
          rows =
              λ k. put-Follows k m i j w there (find-key interview_id m i w.interviews there) kept;
          unsent = refl;
        })
  ]
]

-- What a delivery of `session_ended` does: the rows follow, and interview `m` is sent exactly if it
-- was live before and has ended after.
pub record Ends (m : ℕ) (w w' : Store) : Type 0 where
  pub quiet : Store
  pub before : Interview
  pub after : Interview
  pub rows : Quiet w quiet
  pub found : row m w ≡ some before
  pub left : row m quiet ≡ some after
  pub result : w' ≡ (
      if not (is_terminal before.status) && is_terminal after.status then send m quiet else quiet)

pub on_session_ended-Ends :
    (now m : ℕ) (reason key : Text) (w w' : Store)
    → on_session_ended now m reason key w ≡ ok w'
    → Ends m w w'
unfolding on_session_ended
on_session_ended-Ends now m reason key w w' h = elim (Result-cases (get_interview w m)) [
  | inr (x, e) ↦ ground arith
  | inl (i, e) ↦ elim (Result-cases (finish now m reason w)) [
    | inr (x, f) ↦ ground arith
    | inl (u, f) ↦ elim (Result-cases (keep_recording m key u)) [
      | inr (x, g) ↦ ground arith
      | inl (v, g) ↦ elim (Result-cases (get_interview v m)) [
        | inr (x, l) ↦ ground arith
        | inl (j, l) ↦ record {
          quiet = v;
          before = i;
          after = j;
          rows = Quiet-trans (finish-Quiet now m reason w u f) (keep_recording-Quiet m key u v g);
          found = get-row m w i e;
          left = get-row m v j l;
          result = ground arith;
        }
      ]
    ]
  ]
]

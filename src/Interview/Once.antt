-- ===== src/Interview/Once.antt =====
-- Deliveries of events to the handlers of app/modules/interview/service.py, in any order and number.
use ai_interviewer.Base.{
  ℕ, suc, ◌+◌, ◌≡◌, refl, ap, ◌⊎◌, inl, inr, ◌∙◌, true, false, not, ◌&&◌, Option, none, some, List,
  [], ◌∷◌, Result, ok, err, arith, ◌==◌, if◌then◌else◌, Result-cases, Bool-cases,
}
use ai_interviewer.Base.Text.{Text}
use ai_interviewer.Interview.{Interview, is_terminal}
use ai_interviewer.Interview.Store.{
  Store, ServiceError, start, terminate, expire_stale, send, on_session_ended,
}
use ai_interviewer.Interview.Rows.{
  Follows, absent, live, ended, Follows-refl, Follows-trans, row, Quiet, start-Quiet,
  terminate-Quiet, expire_stale-Quiet, Ends, on_session_ended-Ends,
}

-- what the bus, a recruiter or the reaper asks for; `clock` is the time of the call
pub data Event : Type 0 where
  session_started : (clock interview : ℕ) → Event
  session_ended : (clock interview : ℕ) → Text → Text → Event
  stopped : (clock interview : ℕ) → Event
  reaped : (clock hours : ℕ) → Event

unfoldable pub handle : Event → Store → Result ServiceError Store
handle (session_started now k) w = start now k w
handle (session_ended now k reason key) w = on_session_ended now k reason key w
handle (stopped now k) w = terminate now k w
handle (reaped now hours) w = ok (expire_stale now hours w).0

-- a handler that raises is logged by the bus and changes nothing
abbrev pub settled : Store → Result ServiceError Store → Store
settled w (ok w') = w'
settled w (err _) = w

unfoldable pub deliver : List Event → Store → Store
deliver [] w = w
deliver (e ∷ es) w = deliver es (settled w (handle e w))

abbrev pub count : ℕ → List ℕ → ℕ
count k [] = 0
count k (x ∷ xs) = (if k == x then 1 else 0) + count k xs

abbrev pub IsEnded : Option Interview → Type 0
IsEnded none = ⊥
IsEnded (some i) = is_terminal i.status ≡ true

pub Follows-IsEnded : {a b : Option Interview} → Follows a b → IsEnded a → IsEnded b
Follows-IsEnded absent e = e
Follows-IsEnded (live i j l) e = cc
Follows-IsEnded (ended i j e s t u) _ = ap is_terminal s ∙ e

-- Interview `k` was never sent, or was sent once and has ended.
abbrev pub SentOnce : ℕ → Store → Type 0
SentOnce k w = (count k w.sent ≡ 0) ⊎ ((count k w.sent ≡ 1) × IsEnded (row k w))

Quiet-SentOnce : (k : ℕ) (w w' : Store) → Quiet w w' → SentOnce k w → SentOnce k w'
Quiet-SentOnce k w w' q (inl z) = inl (rw q.unsent z)
Quiet-SentOnce k w w' q (inr (o, e)) = inr (rw q.unsent o, Follows-IsEnded (q.rows k) e)

pub count_one :
    (k m : ℕ) (ms : List ℕ) → count k (m ∷ ms) ≡ (if k == m then suc (count k ms) else count k ms)
count_one k m ms = ground arith

Ends-rows : (m k : ℕ) (w w' : Store) → Ends m w w' → Follows (row k w) (row k w')
Ends-rows m k w w' e =
    let same : w'.interviews ≡ e.quiet.interviews = ground (arith, e.result) in
    rw same (e.rows.rows k)

-- The interview that has just ended had not been sent.
live-unsent :
    (m : ℕ) (w : Store) (i : Interview)
    → row m w ≡ some i
    → is_terminal i.status ≡ false
    → SentOnce m w
    → count m w.sent ≡ 0
live-unsent m w i there l (inl z) = z
live-unsent m w i there l (inr (o, e)) = let t : is_terminal i.status ≡ true = rw there at e in cc

just_ended-SentOnce :
    (m k : ℕ) (w w' : Store) (e : Ends m w w')
    → is_terminal e.before.status ≡ false
    → is_terminal e.after.status ≡ true
    → w' ≡ send m e.quiet
    → SentOnce k w
    → SentOnce k w'
just_ended-SentOnce m k w w' e was now sent s = elim (Bool-cases (k == m)) [
  | inl same ↦
      let km : k ≡ m = ground arith in
      let at_m : SentOnce m w = rw km at s in
      let before = live-unsent m w e.before e.found was at_m in
      let counted : count m w'.sent ≡ 1 = ground (arith, e.rows.unsent, before) in
      let gone : IsEnded (row m w') = rw (sent, e.left) now in rw km (inr (counted, gone))
  | inr other ↦
      let same : count k w'.sent ≡ count k e.quiet.sent = ground arith in
      let rows : row k w' ≡ row k e.quiet = rw sent refl in
      rw (same, rows) (Quiet-SentOnce k w e.quiet e.rows s)
]

Ends-SentOnce : (m k : ℕ) (w w' : Store) → Ends m w w' → SentOnce k w → SentOnce k w'
Ends-SentOnce m k w w' e s =
    elim (Bool-cases (not (is_terminal e.before.status) && is_terminal e.after.status)) [
      | inr no_edge ↦
          let eq : w' ≡ e.quiet = ground (arith, e.result) in
          rw eq (Quiet-SentOnce k w e.quiet e.rows s)
      | inl edge ↦
          just_ended-SentOnce m k w w' e (ground arith) (ground arith) (ground (arith, e.result)) s
    ]

handle-SentOnce :
    (k : ℕ) (e : Event) (w w' : Store) → handle e w ≡ ok w' → SentOnce k w → SentOnce k w'
unfolding handle
handle-SentOnce k (session_started now m) w w' h s =
    Quiet-SentOnce k w w' (start-Quiet now m w w' h) s
handle-SentOnce k (session_ended now m reason key) w w' h s =
    Ends-SentOnce m k w w' (on_session_ended-Ends now m reason key w w' h) s
handle-SentOnce k (stopped now m) w w' h s = Quiet-SentOnce k w w' (terminate-Quiet now m w w' h) s
handle-SentOnce k (reaped now hours) w w' h s =
    let eq : w' ≡ (expire_stale now hours w).0 = ground arith in
    rw eq (Quiet-SentOnce k w _ (expire_stale-Quiet now hours w) s)

handle-Follows :
    (k : ℕ) (e : Event) (w w' : Store) → handle e w ≡ ok w' → Follows (row k w) (row k w')
unfolding handle
handle-Follows k (session_started now m) w w' h = (start-Quiet now m w w' h).rows k
handle-Follows k (session_ended now m reason key) w w' h =
    Ends-rows m k w w' (on_session_ended-Ends now m reason key w w' h)
handle-Follows k (stopped now m) w w' h = (terminate-Quiet now m w w' h).rows k
handle-Follows k (reaped now hours) w w' h =
    let eq : w' ≡ (expire_stale now hours w).0 = ground arith in
    rw eq ((expire_stale-Quiet now hours w).rows k)

step-SentOnce : (k : ℕ) (e : Event) (w : Store) → SentOnce k w → SentOnce k (settled w (handle e w))
step-SentOnce k e w s = elim (Result-cases (handle e w)) [
  | inl (v, h) ↦ rw (h, settled) (handle-SentOnce k e w v h s)
  | inr (x, h) ↦ rw (h, settled) s
]

deliver-SentOnce : (k : ℕ) (es : List Event) (w : Store) → SentOnce k w → SentOnce k (deliver es w)
unfolding deliver
deliver-SentOnce k [] w s = s
deliver-SentOnce k (e ∷ es) w s =
    deliver-SentOnce k es (settled w (handle e w)) (step-SentOnce k e w s)

-- Whatever is delivered, in whatever order and however often, the chain of tasks of an interview is
-- sent at most once, and only for an interview that has ended.
pub sent_at_most_once :
    (k : ℕ) (es : List Event) (w : Store)
    → w.sent ≡ []
    → (count k (deliver es w).sent ≡ 0)
      ⊎ ((count k (deliver es w).sent ≡ 1) × IsEnded (row k (deliver es w)))
sent_at_most_once k es w h = deliver-SentOnce k es w (inl (rw h refl))

pub step-Follows :
    (k : ℕ) (e : Event) (w : Store) → Follows (row k w) (row k (settled w (handle e w)))
step-Follows k e w = elim (Result-cases (handle e w)) [
  | inl (v, h) ↦ rw (h, settled) (handle-Follows k e w v h)
  | inr (x, h) ↦ rw (h, settled) (Follows-refl (row k w))
]

-- Whatever is delivered, an interview that is there stays there, and one that has ended keeps its
-- status and the times at which it started and ended.
pub ended_for_good :
    (k : ℕ) (es : List Event) (w : Store) → Follows (row k w) (row k (deliver es w))
unfolding deliver
ended_for_good k [] w = Follows-refl (row k w)
ended_for_good k (e ∷ es) w =
    Follows-trans (step-Follows k e w) (ended_for_good k es (settled w (handle e w)))

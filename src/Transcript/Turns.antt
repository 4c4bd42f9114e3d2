-- ===== src/Transcript/Turns.antt =====
-- The turns of a transcript through `record_turn`.
use mathlib.Core.Logic.{◌↔◌}
use ai_interviewer.Base.{
  eqb→eq, ℕ, ◌≤◌, ◌<◌, ◌≡◌, refl, ◌∙◌, ap, ◌≢◌, true, false, none, some, List, [], ◌∷◌, arith, ok,
  err, ◌==◌, Bool-cases, Option-cases, inl, inr, eq_refl,
}
use ai_interviewer.Base.Lists.{All}
use ai_interviewer.Base.Rows.{find}
use ai_interviewer.Base.Text.{Text}
use ai_interviewer.Transcript.{
  Turn, turn_key, TurnCompleted, offsets_ordered, new_turn, merge_turn, upsert, written, misordered,
  record_turn, highest, next_ordinal,
}

pub new_turn-ordinal :
    (upper : Text → Text) (e : TurnCompleted) → (new_turn upper e).ordinal ≡ e.ordinal
unfolding new_turn
new_turn-ordinal upper e = refl

merge_turn-ordinal : (t new : Turn) → (merge_turn t new).ordinal ≡ t.ordinal
unfolding merge_turn
merge_turn-ordinal t new = elim (Bool-cases t.is_final) [ inl e ↦ rw e refl | inr e ↦ rw e refl ]

merge_turn-twice : (t new : Turn) → merge_turn (merge_turn t new) new ≡ merge_turn t new
unfolding merge_turn
merge_turn-twice t new = elim (Bool-cases t.is_final) [ inl e ↦ simp e refl | inr e ↦ simp e refl ]

merge_turn_self : (new : Turn) → merge_turn new new ≡ new
unfolding merge_turn
merge_turn_self new = elim (Bool-cases new.is_final) [ inl e ↦ rw e refl | inr e ↦ rw e refl ]

upsert-twice : (new : Turn) (ts : List Turn) → upsert new (upsert new ts) ≡ upsert new ts
unfolding upsert
upsert-twice new [] = rw (eq_refl new.ordinal, merge_turn_self new) refl
upsert-twice new (t ∷ ts) = elim (Bool-cases (t.ordinal == new.ordinal)) [
  | inl e ↦ simp (e, merge_turn-ordinal, merge_turn-twice) refl
  | inr e ↦ rw (e, e, upsert-twice new ts) refl
]

pub find-upsert :
    (new : Turn) (ts : List Turn)
    → find turn_key new.ordinal (upsert new ts) ≡ some (written new ts)
unfolding find upsert written
find-upsert new [] = simp (eq_refl, written) refl
find-upsert new (t ∷ ts) = elim (Bool-cases (t.ordinal == new.ordinal)) [
  | inl e ↦ simp (e, merge_turn-ordinal, written) refl
  | inr e ↦ simp (e, find-upsert new ts, written) refl
]

pub find-upsert_ne :
    (k : ℕ) (new : Turn) (ts : List Turn)
    → new.ordinal ≢ k
    → find turn_key k (upsert new ts) ≡ find turn_key k ts
unfolding find upsert
find-upsert_ne k new [] h = ground arith
find-upsert_ne k new (t ∷ ts) h =
    ground (arith, find-upsert_ne k new ts h, merge_turn-ordinal t new)

written-found :
    (new t : Turn) (ts : List Turn)
    → find turn_key new.ordinal ts ≡ some t
    → written new ts ≡ merge_turn t new
unfolding written
written-found new t ts h = simp (written, h) refl

merge_turn-written :
    (new : Turn) (ts : List Turn) → merge_turn (written new ts) new ≡ written new ts
unfolding written
merge_turn-written new ts = elim (Option-cases (find turn_key new.ordinal ts)) [
  | inl e ↦ simp (written, e, merge_turn_self) refl
  | inr (t, e) ↦ simp (written, e, merge_turn-twice) refl
]

written-upsert : (new : Turn) (ts : List Turn) → written new (upsert new ts) ≡ written new ts
written-upsert new ts =
    written-found new (written new ts) (upsert new ts) (find-upsert new ts)
    ∙ merge_turn-written new ts

pub record_turn-ok :
    (upper : Text → Text) (e : TurnCompleted) (ts ts' : List Turn)
    → record_turn upper e ts ≡ ok ts'
    → (misordered (written (new_turn upper e) ts) ≡ false) × (ts' ≡ upsert (new_turn upper e) ts)
unfolding record_turn
record_turn-ok upper e ts ts' h = ground arith

-- Delivering an event twice is delivering it once: a second delivery of a turn that was recorded is
-- accepted, and changes nothing.
pub record_turn-twice :
    (upper : Text → Text) (e : TurnCompleted) (ts ts' : List Turn)
    → record_turn upper e ts ≡ ok ts'
    → record_turn upper e ts' ≡ ok ts'
unfolding record_turn
record_turn-twice upper e ts ts' h =
    let (fits, same) = record_turn-ok upper e ts ts' h in
    let new = new_turn upper e in simp (same, written-upsert new ts, fits, upsert-twice new ts) refl

-- the check constraint on the table
abbrev pub Ordered : List Turn → Type 0
Ordered ts = All (λ t. t.started_offset_ms ≤ t.ended_offset_ms) ts

find-Ordered :
    (k : ℕ) (t : Turn) (ts : List Turn)
    → Ordered ts
    → find turn_key k ts ≡ some t
    → t.started_offset_ms ≤ t.ended_offset_ms
unfolding find
find-Ordered k t [] h f = cc
find-Ordered k t (s ∷ ts) h f = elim (Bool-cases (s.ordinal == k)) [
  | inl e ↦ ground arith
  | inr e ↦ find-Ordered k t ts h.1 (rw e at f)
]

misordered-new : (upper : Text → Text) (e : TurnCompleted) → misordered (new_turn upper e) ≡ false
unfolding misordered new_turn
misordered-new upper e = ground arith

-- a replay that the check refuses
abbrev pub Refused : TurnCompleted → Turn → Type 0
Refused e t =
    (t.is_final ≡ false)
    × (e.ended_offset_ms < t.started_offset_ms)
    × (e.started_offset_ms < t.started_offset_ms)

misordered-merge :
    (upper : Text → Text) (e : TurnCompleted) (t : Turn)
    → t.started_offset_ms ≤ t.ended_offset_ms
    → misordered (merge_turn t (new_turn upper e)) ≡ true
    → Refused e t
unfolding misordered merge_turn new_turn
misordered-merge upper e t h m = (ground arith, ground arith, ground arith)

Refused-misordered :
    (upper : Text → Text) (e : TurnCompleted) (t : Turn)
    → Refused e t
    → misordered (merge_turn t (new_turn upper e)) ≡ true
unfolding misordered merge_turn new_turn
Refused-misordered upper e t (live, after_end, after_start) = ground arith

written-absent :
    (new : Turn) (ts : List Turn) → find turn_key new.ordinal ts ≡ none → written new ts ≡ new
unfolding written
written-absent new ts h = simp (written, h) refl

record_turn-err :
    (upper : Text → Text) (e : TurnCompleted) (ts : List Turn)
    → record_turn upper e ts ≡ err offsets_ordered
    → misordered (written (new_turn upper e) ts) ≡ true
unfolding record_turn
record_turn-err upper e ts h = ground arith

-- With rows that pass the check of the table, a call raises exactly when the event replays a turn, not
-- yet final, that starts after both the start and the end that the event gives.
pub record_turn-raises :
    (upper : Text → Text) (e : TurnCompleted) (ts : List Turn)
    → Ordered ts
    → (record_turn upper e ts ≡ err offsets_ordered)
      ↔ ((t : Turn) × (find turn_key e.ordinal ts ≡ some t) × Refused e t)
unfolding record_turn new_turn
record_turn-raises upper e ts o =
    let new = new_turn upper e in
    (
      λ h. elim (Option-cases (find turn_key e.ordinal ts)) [
        | inl absent ↦ absurd (
            ground (
              arith,
              record_turn-err upper e ts h,
              written-absent new ts absent,
              misordered-new upper e,
            ))
        | inr (t, found) ↦ (
          t,
          found,
          misordered-merge upper e t (find-Ordered e.ordinal t ts o found)
              (rw (written-found new t ts found) at (record_turn-err upper e ts h)),
        )
      ],
      λ (t, found, refused).
          rw (written-found new t ts found, Refused-misordered upper e t refused) refl,
    )

merge_turn-final : (t new : Turn) → t.is_final ≡ true → merge_turn t new ≡ t
unfolding merge_turn
merge_turn-final t new h = rw h refl

find-upsert_final :
    (new t : Turn) (ts : List Turn)
    → find turn_key new.ordinal ts ≡ some t
    → t.is_final ≡ true
    → find turn_key new.ordinal (upsert new ts) ≡ some t
find-upsert_final new t ts f h =
    find-upsert new ts ∙ ap some (written-found new t ts f ∙ merge_turn-final t new h)

-- A turn that is final stays as it is, whatever is delivered.
pub record_turn-final :
    (upper : Text → Text) (e : TurnCompleted) (k : ℕ) (t : Turn) (ts ts' : List Turn)
    → find turn_key k ts ≡ some t
    → t.is_final ≡ true
    → record_turn upper e ts ≡ ok ts'
    → find turn_key k ts' ≡ some t
record_turn-final upper e k t ts ts' f final h =
    let new = new_turn upper e in
    let (_, same) = record_turn-ok upper e ts ts' h in
    rw same (elim (Bool-cases (new.ordinal == k)) [
      | inl e' ↦
          let there = eqb→eq new.ordinal k e' in
          rw⁻¹ there (find-upsert_final new t ts (rw there f) final)
      | inr e' ↦ find-upsert_ne k new ts (ground arith) ∙ f
    ])

-- A session that resumes numbers from an ordinal that no turn has, nor any above it.
pub next_ordinal-fresh : (ts : List Turn) (k : ℕ) → next_ordinal ts ≤ k → find turn_key k ts ≡ none
unfolding next_ordinal highest find
next_ordinal-fresh [] k h = refl
next_ordinal-fresh (t ∷ ts) k h = ground (arith, next_ordinal-fresh ts k)

-- ===== src/Proctor/Verdict/Reasons.antt =====
-- The reasons of a verdict, against the events that were recorded.
use ai_interviewer.Base.{
  ℕ, ◌+◌, ◌≤◌, ◌≡◌, refl, ◌∙◌, true, not, ◌&&◌, List, [], ◌∷◌, arith, if◌then◌else◌, Bool-cases,
  inl, inr, ◌==◌, leb,
}
use ai_interviewer.Base.Lists.{All, is_empty}
use ai_interviewer.Proctor.{EventType, critical, warn, event_is, face_frame}
use ai_interviewer.Proctor.Rules.{event_is→eq}
use ai_interviewer.Proctor.Collector.{Row, count_rows}
use ai_interviewer.Proctor.Verdict.{
  TypeCounts, SeverityCounts, Group, Reason, quoted, routine, no_signals, has_template,
  insert_count, sort_counts, is_quotable, quote_reasons, get_type, get_severity, add_type,
  add_severity, tally, assess, compute, kind_for, is_clean, reported,
}
use ai_interviewer.Proctor.Verdict.Counts.{
  type_total, IsGrouping, Exact, tally-IsExact, tally-types,
}

-- the sum of the counts that are quoted for a type
abbrev pub quoted_sum : EventType → List Reason → ℕ
quoted_sum t [] = 0
quoted_sum t (quoted s c ∷ rs) = (if event_is s t then c else 0) + quoted_sum t rs
quoted_sum t (_ ∷ rs) = quoted_sum t rs

abbrev entry_sum : EventType → TypeCounts → ℕ
entry_sum t [] = 0
entry_sum t ((s, c) ∷ cs) = (if event_is s t then c else 0) + entry_sum t cs

insert_count-sum :
    (t : EventType) (e : EventType × ℕ) (cs : TypeCounts)
    → entry_sum t (insert_count e cs) ≡ entry_sum t (e ∷ cs)
unfolding insert_count
insert_count-sum t e [] = refl
insert_count-sum t e (d ∷ cs) = ground (arith, insert_count-sum t e cs)

sort_counts-sum : (t : EventType) (cs : TypeCounts) → entry_sum t (sort_counts cs) ≡ entry_sum t cs
unfolding sort_counts
sort_counts-sum t [] = refl
sort_counts-sum t (e ∷ cs) =
    omega (arith, insert_count-sum t e (sort_counts cs), sort_counts-sum t cs)

quote_reasons-sum :
    (t : EventType) (cs : TypeCounts)
    → quoted_sum t (quote_reasons cs) ≡ (if has_template t then entry_sum t cs else 0)
unfolding quote_reasons is_quotable
quote_reasons-sum t [] = ground arith
quote_reasons-sum t ((s, c) ∷ cs) = ground (arith, quote_reasons-sum t cs, event_is→eq s t)

entry_sum-add_type :
    (t s : EventType) (n : ℕ) (cs : TypeCounts)
    → entry_sum s (add_type t n cs) ≡ entry_sum s cs + (if event_is t s then n else 0)
unfolding add_type
entry_sum-add_type t s n [] = ground arith
entry_sum-add_type t s n ((r, c) ∷ cs) =
    ground (arith, entry_sum-add_type t s n cs, event_is→eq r t)

tally-sum :
    (t : EventType) (gs : List Group) (ts : TypeCounts) (ss : SeverityCounts)
    → entry_sum t (tally gs ts ss).0 ≡ entry_sum t ts + type_total t gs
unfolding tally
tally-sum t [] ts ss = omega arith
tally-sum t ((r, s, n) ∷ gs) ts ss =
    omega
      (arith, tally-sum t gs (add_type r n ts) (add_severity s n ss), entry_sum-add_type r t n ts)

-- the quoted reasons, before the ones of an empty or a clean record
abbrev pub quotes : List Group → List Reason
quotes gs = quote_reasons (sort_counts (tally gs [] []).0)

pub quotes-sum :
    (t : EventType) (rows : List Row) (gs : List Group)
    → IsGrouping rows gs
    → quoted_sum t (quotes gs) ≡ (if has_template t then count_rows t rows else 0)
quotes-sum t rows gs g =
    quote_reasons-sum t (sort_counts (tally gs [] []).0)
    ∙ ground (arith, sort_counts-sum t (tally gs [] []).0, tally-sum t gs [] [], g.types t)

-- The reasons are the quotes, or where there are none a sentence that says so.
pub data Reasons (gs : List Group) : List Reason → Type 0 where
  quoting : Reasons gs (quotes gs)
  none_received : quotes gs ≡ [] → Reasons gs (no_signals ∷ [])
  nothing_notable : (n : ℕ) → quotes gs ≡ [] → Reasons gs (routine n ∷ [])

empty_quotes : (gs : List Group) → is_empty (tally gs [] []).0 ≡ true → quotes gs ≡ []
unfolding sort_counts quote_reasons
empty_quotes gs e = ground arith

is_empty→nil {ℓ} : {A : Type ℓ} (xs : List A) → is_empty xs ≡ true → xs ≡ []
is_empty→nil [] e = refl
is_empty→nil (x ∷ xs) e = cc

pub compute-Reasons : (gs : List Group) → Reasons gs (compute gs).reasons
unfolding compute assess
compute-Reasons gs =
    let (ts, ss) = tally gs [] [] in
    let kind = kind_for (get_severity critical ss) (get_severity warn ss) in
    elim (Bool-cases (is_empty ts && get_type face_frame ts == 0)) [
      | inl e ↦ rw e (none_received (empty_quotes gs (ground arith)))
      | inr e ↦ rw e (elim (Bool-cases (is_clean kind && is_empty (quotes gs))) [
        | inl c ↦ rw c (nothing_notable (reported ts) (is_empty→nil (quotes gs) (ground arith)))
        | inr c ↦ rw c quoting
      ])
    ]

Reasons-sum :
    (t : EventType) (gs : List Group) (rs : List Reason)
    → Reasons gs rs
    → quoted_sum t rs ≡ quoted_sum t (quotes gs)
Reasons-sum t gs _ quoting = refl
Reasons-sum t gs _ (none_received e) = rw e refl
Reasons-sum t gs _ (nothing_notable n e) = rw e refl

-- Each reason that quotes a count quotes the number of rows of its type.
abbrev pub Accurate : List Row → Reason → Type 0
Accurate rows (quoted t c) = (c ≡ count_rows t rows) × (1 ≤ c)
Accurate rows _ = Unit

Exact-Counted :
    (rows : List Row) (f : EventType → ℕ) (cs : TypeCounts)
    → ((t : EventType) → f t ≡ count_rows t rows)
    → Exact f cs
    → All (λ e. e.1 ≡ count_rows e.0 rows) cs
Exact-Counted rows f [] h x = tt
Exact-Counted rows f ((t, c) ∷ cs) h x = (x.0 ∙ h t, Exact-Counted rows f cs h x.2)

insert_count-All {ℓ} :
    (P : EventType × ℕ → Type ℓ) (e : EventType × ℕ) (cs : TypeCounts)
    → P e
    → All P cs
    → All P (insert_count e cs)
unfolding insert_count
insert_count-All P e [] p h = (p, tt)
insert_count-All P e (d ∷ cs) p h = elim (Bool-cases (leb d.1 e.1)) [
  | inl t ↦ rw t (p, h)
  | inr t ↦ rw t (h.0, insert_count-All P e cs p h.1)
]

sort_counts-All {ℓ} :
    (P : EventType × ℕ → Type ℓ) (cs : TypeCounts) → All P cs → All P (sort_counts cs)
unfolding sort_counts
sort_counts-All P [] h = h
sort_counts-All P (e ∷ cs) h = insert_count-All P e (sort_counts cs) h.0 (sort_counts-All P cs h.1)

quote_reasons-Accurate :
    (rows : List Row) (cs : TypeCounts)
    → All (λ e. e.1 ≡ count_rows e.0 rows) cs
    → All (Accurate rows) (quote_reasons cs)
unfolding quote_reasons is_quotable
quote_reasons-Accurate rows [] h = tt
quote_reasons-Accurate rows ((t, c) ∷ cs) h = elim (Bool-cases (not (c == 0) && has_template t)) [
  | inl q ↦ rw q ((h.0, ground arith), quote_reasons-Accurate rows cs h.1)
  | inr q ↦ rw q (quote_reasons-Accurate rows cs h.1)
]

tally-Counted :
    (rows : List Row) (gs : List Group)
    → IsGrouping rows gs
    → All (λ e. e.1 ≡ count_rows e.0 rows) (tally gs [] []).0
unfolding get_type
tally-Counted rows gs g =
    Exact-Counted rows (λ t. get_type t (tally gs [] []).0) (tally gs [] []).0
      (λ t. omega (arith, tally-types t gs [] [], g.types t)) (tally-IsExact gs [] [] tt)

Reasons-Accurate :
    (rows : List Row) (gs : List Group) (rs : List Reason)
    → IsGrouping rows gs
    → Reasons gs rs
    → All (Accurate rows) rs
Reasons-Accurate rows gs _ g quoting =
    quote_reasons-Accurate rows (sort_counts (tally gs [] []).0) (
      sort_counts-All (λ e. e.1 ≡ count_rows e.0 rows) (tally gs [] []).0 (tally-Counted rows gs g))
Reasons-Accurate rows gs _ g (none_received e) = (tt, tt)
Reasons-Accurate rows gs _ g (nothing_notable n e) = (tt, tt)

-- The reasons of a verdict are accurate and complete: each count that is quoted is the number of stored
-- events of its type, and of every type that has a template all the events are quoted.
pub compute_reasons :
    (t : EventType) (rows : List Row) (gs : List Group)
    → IsGrouping rows gs
    → All (Accurate rows) (compute gs).reasons
      × (quoted_sum t (compute gs).reasons ≡ (if has_template t then count_rows t rows else 0))
compute_reasons t rows gs g = (
  Reasons-Accurate rows gs (compute gs).reasons g (compute-Reasons gs),
  Reasons-sum t gs (compute gs).reasons (compute-Reasons gs) ∙ quotes-sum t rows gs g,
)

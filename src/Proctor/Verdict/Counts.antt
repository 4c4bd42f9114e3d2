-- ===== src/Proctor/Verdict/Counts.antt =====
-- The two dictionaries that `compute` fills, against the grouped query.
use ai_interviewer.Base.{
  ℕ, ◌+◌, ◌≤◌, ◌≡◌, refl, Bool, true, false, List, [], ◌∷◌, arith, if◌then◌else◌, Bool-cases, inl,
  inr, ◌∙◌, sym,
}
use ai_interviewer.Base.Lists.{All}
use ai_interviewer.Proctor.{EventType, Severity, event_is, severity_is}
use ai_interviewer.Proctor.Rules.{event_is→eq, event_is_refl}
use ai_interviewer.Proctor.Collector.{Row, count_rows}
use ai_interviewer.Proctor.Verdict.{
  TypeCounts, SeverityCounts, Group, get_type, get_severity, add_type, add_severity, tally,
}

abbrev pub type_total : EventType → List Group → ℕ
type_total t [] = 0
type_total t ((s, _, n) ∷ gs) = (if event_is s t then n else 0) + type_total t gs

abbrev pub severity_total : Severity → List Group → ℕ
severity_total t [] = 0
severity_total t ((_, s, n) ∷ gs) = (if severity_is s t then n else 0) + severity_total t gs

-- the number of rows of a type, and of a severity, and of both
abbrev pub count_severity : Severity → List Row → ℕ
count_severity s [] = 0
count_severity s (r ∷ rs) = (if severity_is r.severity s then 1 else 0) + count_severity s rs

-- What `GROUP BY` gives, in whatever order: groups that are not empty, whose counts add up to the
-- number of rows of each type and of each severity.
pub record IsGrouping (rows : List Row) (gs : List Group) : Type 0 where
  pub types : (t : EventType) → type_total t gs ≡ count_rows t rows
  pub severities : (s : Severity) → severity_total s gs ≡ count_severity s rows
  pub positive : All (λ g. 1 ≤ g.2) gs

-- the keys are distinct, and the count of each is what `total` says
abbrev pub has_key : EventType → TypeCounts → Bool
has_key t [] = false
has_key t ((s, _) ∷ cs) = if event_is s t then true else has_key t cs

abbrev pub Exact : (EventType → ℕ) → TypeCounts → Type 0
Exact total [] = Unit
Exact total ((t, c) ∷ cs) = (c ≡ total t) × (has_key t cs ≡ false) × Exact total cs

Exact-ext :
    (f g : EventType → ℕ) (cs : TypeCounts)
    → ((t : EventType) → f t ≡ g t)
    → Exact f cs
    → Exact g cs
Exact-ext f g [] h x = tt
Exact-ext f g ((t, c) ∷ cs) h x = (x.0 ∙ h t, x.1, Exact-ext f g cs h x.2)

-- adding to one key
abbrev plus : EventType → ℕ → (EventType → ℕ) → EventType → ℕ
plus t n f s = f s + (if event_is t s then n else 0)

event_is_comm : (s t : EventType) → event_is s t ≡ event_is t s
unfolding event_is
event_is_comm s t = ground arith

Exact-other :
    (t : EventType) (n : ℕ) (f : EventType → ℕ) (cs : TypeCounts)
    → has_key t cs ≡ false
    → Exact f cs
    → Exact (plus t n f) cs
Exact-other t n f [] h x = tt
Exact-other t n f ((s, c) ∷ cs) h x =
    (ground (arith, event_is_comm s t), x.1, Exact-other t n f cs (ground arith) x.2)

has_key-add_type :
    (t s : EventType) (n : ℕ) (cs : TypeCounts)
    → event_is s t ≡ false
    → has_key s (add_type t n cs) ≡ has_key s cs
unfolding add_type
has_key-add_type t s n [] h = ground (arith, event_is_comm s t)
has_key-add_type t s n ((r, c) ∷ cs) h =
    ground (arith, has_key-add_type t s n cs, event_is_comm s t)

get_type-add_type :
    (t s : EventType) (n : ℕ) (cs : TypeCounts)
    → get_type s (add_type t n cs) ≡ plus t n (λ r. get_type r cs) s
unfolding get_type add_type
get_type-add_type t s n [] = ground arith
get_type-add_type t s n ((r, c) ∷ cs) = ground (
  arith,
  get_type-add_type t s n cs,
  event_is_comm s t,
  event_is_comm r t,
  event_is→eq r t,
  event_is→eq r s,
  event_is→eq t s,
  event_is_refl s,
)

get_type-absent : (t : EventType) (cs : TypeCounts) → has_key t cs ≡ false → get_type t cs ≡ 0
unfolding get_type
get_type-absent t [] h = refl
get_type-absent t ((s, c) ∷ cs) h = ground (arith, get_type-absent t cs)

add_type-Exact :
    (t : EventType) (n : ℕ) (f : EventType → ℕ) (cs : TypeCounts)
    → (has_key t cs ≡ false → f t ≡ 0)
    → Exact f cs
    → Exact (plus t n f) (add_type t n cs)
unfolding add_type
add_type-Exact t n f [] z x = (ground (arith, event_is_refl t), refl, tt)
add_type-Exact t n f ((s, c) ∷ cs) z x = elim (Bool-cases (event_is s t)) [
  | inl e ↦ rw e (
    ground (arith, event_is_comm s t),
    x.1,
    Exact-other t n f cs (rw (event_is→eq s t e) at x.1) x.2,
  )
  | inr e ↦ rw e (
    ground (arith, event_is_comm s t),
    has_key-add_type t s n cs e ∙ x.1,
    add_type-Exact t n f cs (λ h. z (rw e h)) x.2,
  )
]

-- every count is that of the last group of its type
abbrev pub IsExact : TypeCounts → Type 0
IsExact cs = Exact (λ t. get_type t cs) cs

pub tally-IsExact :
    (gs : List Group) (ts : TypeCounts) (ss : SeverityCounts)
    → IsExact ts
    → IsExact (tally gs ts ss).0
unfolding tally
tally-IsExact [] ts ss x = x
tally-IsExact ((t, s, n) ∷ gs) ts ss x = tally-IsExact gs (add_type t n ts) (add_severity s n ss) (
    Exact-ext _ _ (add_type t n ts) (λ r. sym (get_type-add_type t r n ts))
      (add_type-Exact t n (λ r. get_type r ts) ts (get_type-absent t ts) x))

pub tally-types :
    (t : EventType) (gs : List Group) (ts : TypeCounts) (ss : SeverityCounts)
    → get_type t (tally gs ts ss).0 ≡ get_type t ts + type_total t gs
unfolding tally
tally-types t [] ts ss = omega arith
tally-types t ((r, s, n) ∷ gs) ts ss =
    omega
      (arith, tally-types t gs (add_type r n ts) (add_severity s n ss), get_type-add_type r t n ts)

get_severity-add_severity :
    (t s : Severity) (n : ℕ) (cs : SeverityCounts)
    → get_severity s (add_severity t n cs) ≡ get_severity s cs + (if severity_is t s then n else 0)
unfolding get_severity add_severity severity_is
get_severity-add_severity t s n [] = ground arith
get_severity-add_severity t s n ((r, c) ∷ cs) = ground (arith, get_severity-add_severity t s n cs)

pub tally-severities :
    (t : Severity) (gs : List Group) (ts : TypeCounts) (ss : SeverityCounts)
    → get_severity t (tally gs ts ss).1 ≡ get_severity t ss + severity_total t gs
unfolding tally
tally-severities t [] ts ss = omega arith
tally-severities t ((r, s, n) ∷ gs) ts ss = omega (
  arith,
  tally-severities t gs (add_type r n ts) (add_severity s n ss),
  get_severity-add_severity s t n ss,
)

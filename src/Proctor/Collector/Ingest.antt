-- ===== src/Proctor/Collector/Ingest.antt =====
-- Recording over several connections, and what a client can bring about.
use mathlib.Core.Path.{fun_ext}
use mathlib.Core.List.{append_assoc, append-nil}
use ai_interviewer.Base.{
  ◌+◌, ◌*◌, ◌≤◌, ◌≡◌, ◌∙◌, sym, ◌⊎◌, true, Option, none, some, List, [], ◌∷◌, ◌++◌, arith,
  Option-cases, inl, inr,
}
use ai_interviewer.Base.Text.{Text}
use ai_interviewer.Proctor.{
  EventType, tab_blur, fullscreen_exit, critical, event_is, Thresholds, severity_for,
}
use ai_interviewer.Proctor.Rules.{event_is→eq, Critical, severity_for-critical}
use ai_interviewer.Proctor.Collector.{
  Counters, Row, Observation, client_reportable, bump, count_rows, prime, record_event,
  parse_event_type, event_named,
}

-- a loop of `record` on one connection: the rows that it adds
unfoldable pub record_all : Thresholds → Counters → List Observation → List Row
record_all th c [] = []
record_all th c (o ∷ os) = let (c', r) = record_event th c o in r ∷ record_all th c' os

-- The rows after a connection that primes its counters from those before it.
unfoldable pub connection : Thresholds → List Row → List Observation → List Row
connection th rows os = rows ++ record_all th (prime rows) os

count_rows-append :
    (t : EventType) (rs ss : List Row) → count_rows t (rs ++ ss) ≡ count_rows t rs + count_rows t ss
unfolding count_rows
count_rows-append t [] ss = omega arith
count_rows-append t (r ∷ rs) ss = ground (arith, count_rows-append t rs ss)

event_is_comm : (s t : EventType) → event_is s t ≡ event_is t s
unfolding event_is
event_is_comm s t = ground arith

counted :
    (th : Thresholds) (c : Counters) (o : Observation) (t : EventType)
    → (record_event th c o).0 t ≡ c t + count_rows t ((record_event th c o).1 ∷ [])
unfolding record_event count_rows bump
counted th c o t = ground (arith, event_is_comm t o.event_type, event_is→eq t o.event_type)

-- The counters of a connection are those that priming from its rows would give.
pub prime-snoc :
    (th : Thresholds) (rows : List Row) (o : Observation)
    → (record_event th (prime rows) o).0 ≡ prime (rows ++ (record_event th (prime rows) o).1 ∷ [])
unfolding prime
prime-snoc th rows o = fun_ext (λ t.
    counted th (prime rows) o t
    ∙ sym (count_rows-append t rows ((record_event th (prime rows) o).1 ∷ [])))

pub connection-cons :
    (th : Thresholds) (rows : List Row) (o : Observation) (os : List Observation)
    → connection th rows (o ∷ os)
      ≡ connection th (rows ++ (record_event th (prime rows) o).1 ∷ []) os
unfolding connection record_all
connection-cons th rows o os =
    rw (← prime-snoc th rows o)
      (sym (append_assoc rows ((record_event th (prime rows) o).1 ∷ []) _))

-- Reconnecting resets nothing: two connections one after the other record what a single connection
-- would have recorded, severities included.
pub connection-connection :
    (th : Thresholds) (rows : List Row) (os ps : List Observation)
    → connection th (connection th rows os) ps ≡ connection th rows (os ++ ps)
connection-connection th rows [] ps = unfold connection record_all in rw append-nil
connection-connection th rows (o ∷ os) ps =
    rw (connection-cons th rows o os, connection-cons th rows o (os ++ ps))
      (connection-connection th (rows ++ (record_event th (prime rows) o).1 ∷ []) os ps)

parse-reportable :
    (upper : Text → Text) (raw : Option Text) (t : EventType)
    → parse_event_type upper raw ≡ some t
    → client_reportable t ≡ true
unfolding parse_event_type
parse-reportable upper none t h = cc
parse-reportable upper (some raw) t h = elim (Option-cases (event_named (upper raw))) [
  | inl e ↦ ground arith
  | inr (s, e) ↦ ground arith
]

recorded-severity :
    (th : Thresholds) (rows : List Row) (o : Observation)
    → o.severity ≡ none
    → (record_event th (prime rows) o).1.severity
      ≡ severity_for o.event_type (count_rows o.event_type rows) th
unfolding record_event prime bump
recorded-severity th rows o own = ground arith

Critical-by_client :
    (th : Thresholds) (rows : List Row) (t : EventType)
    → client_reportable t ≡ true
    → Critical t (count_rows t rows) th
    → ((t ≡ tab_blur) × (th.blur_limit * 2 ≤ count_rows tab_blur rows))
      ⊎ ((t ≡ fullscreen_exit)
          × (th.fullscreen_required ≡ true)
          × (1 ≤ count_rows fullscreen_exit rows))
unfolding client_reportable
Critical-by_client th rows t own c = ground arith

-- What a candidate's own browser can make critical, after the rows before it: only a blur past twice
-- the limit and a repeated exit from a fullscreen that the policy requires.
pub client-critical :
    (upper : Text → Text) (raw : Option Text) (th : Thresholds) (rows : List Row) (o : Observation)
    → parse_event_type upper raw ≡ some o.event_type
    → o.severity ≡ none
    → (record_event th (prime rows) o).1.severity ≡ critical
    → ((o.event_type ≡ tab_blur) × (th.blur_limit * 2 ≤ count_rows tab_blur rows))
      ⊎ ((o.event_type ≡ fullscreen_exit)
          × (th.fullscreen_required ≡ true)
          × (1 ≤ count_rows fullscreen_exit rows))
client-critical upper raw th rows o h own c =
    Critical-by_client th rows o.event_type (parse-reportable upper raw o.event_type h) (
      severity_for-critical o.event_type (count_rows o.event_type rows) th
        (sym (recorded-severity th rows o own) ∙ c))

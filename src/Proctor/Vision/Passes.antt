-- ===== src/Proctor/Vision/Passes.antt =====
-- Several passes over the stills of one interview: `_analyze` of
-- app/workers/tasks/proctoring_tasks.py.
use ai_interviewer.Base.{
  ℕ, ◌≤◌, ◌<◌, ◌++◌, ◌≡◌, refl, ap, sym, ◌∙◌, true, false, ◌&&◌, Option, none, some, List, [], ◌∷◌,
  map, arith, ltb, ◌==◌, Bool-cases, inl, inr,
}
use ai_interviewer.Base.Lists.{length, is_empty, keep, All, All-append, contains}
use ai_interviewer.Base.Text.{Text, text_eq, codes}
use ai_interviewer.Proctor.{face_frame, event_is, Thresholds}
use ai_interviewer.Proctor.Collector.{Counters, Observation, record_event, clean_payload}
use ai_interviewer.Proctor.Signals.{Finding, findings_for}
use ai_interviewer.Proctor.Vision.Flagged.{set-put, client-set}
use ai_interviewer.Proctor.Vision.Sampled.{All-sort_at, All-sample, sample-le}
use ai_interviewer.Proctor.Vision.{
  Event, event_key, max_frames_analysed, analysed_flag, is_set, is_pending, selected, flag, mark,
  add_findings, analyse_one, analyse_each, analyze,
}

-- no row with that key waits for an analysis
abbrev Settled : ℕ → List Event → Type 0
Settled k es = All (λ e. (is_pending e && (e.id == k)) ≡ false) es

flag-pending : (e : Event) → is_pending (flag e) ≡ false
unfolding is_pending flag
flag-pending e = ground (arith, set-put analysed_flag (codes "True") e.row.payload)

mark-Settled : (j k : ℕ) (es : List Event) → Settled k es → Settled k (mark j es)
unfolding mark flag
mark-Settled j k [] w = tt
mark-Settled j k (e ∷ es) (here, w) = elim (Bool-cases (e.id == j)) [
  | inl same ↦ rw same (ground (arith, flag-pending e), mark-Settled j k es w)
  | inr other ↦ rw other (here, mark-Settled j k es w)
]

mark-settles : (k : ℕ) (es : List Event) → Settled k (mark k es)
unfolding mark flag
mark-settles k [] = tt
mark-settles k (e ∷ es) = elim (Bool-cases (e.id == k)) [
  | inl same ↦ rw same (ground (arith, flag-pending e), mark-settles k es)
  | inr other ↦ rw other (ground arith, mark-settles k es)
]

-- findings are no stills
abbrev NoStill : List Finding → Type 0
NoStill fs = All (λ f. event_is f.event_type face_frame ≡ false) fs

findings_for-NoStill : (faces : ℕ) (note : Text) → NoStill (findings_for faces note)
unfolding findings_for event_is
findings_for-NoStill faces note = elim (Bool-cases (faces == 0)) [
  | inl none_there ↦ rw none_there (refl, tt)
  | inr some_there ↦ elim (Bool-cases (ltb 1 faces)) [
    | inl many ↦ rw (some_there, many) (refl, tt)
    | inr single ↦ rw (some_there, single) tt
  ]
]

add_findings-Settled :
    (now k : ℕ) (source : Event) (fs : List Finding) (es : List Event)
    → NoStill fs
    → Settled k es
    → Settled k (add_findings now source fs es)
unfolding add_findings is_pending
add_findings-Settled now k source [] es n w = w
add_findings-Settled now k source (f ∷ fs) es (here, n) w =
    add_findings-Settled now k source fs _ n
      (All-append (λ e. (is_pending e && (e.id == k)) ≡ false) es _ w ((rw here refl), tt))

analyse_one-Settled :
    (now k : ℕ) (seen : Option (ℕ × Text)) (source : Event) (es : List Event)
    → Settled k es
    → Settled k (analyse_one now seen source es)
unfolding analyse_one
analyse_one-Settled now k none source es w = w
analyse_one-Settled now k (some (faces, note)) source es w =
    add_findings-Settled now k source (findings_for faces note) _ (findings_for-NoStill faces note)
      (mark-Settled source.id k es w)

analyse_one-settles :
    (now k : ℕ) (seen : ℕ × Text) (source : Event) (es : List Event)
    → source.id ≡ k
    → Settled k (analyse_one now (some seen) source es)
unfolding analyse_one
analyse_one-settles now k (faces, note) source es same =
    add_findings-Settled now k source (findings_for faces note) _ (findings_for-NoStill faces note)
      (rw same (mark-settles k es))

analyse_each-Settled :
    (now k : ℕ) (seen : ℕ → Option (ℕ × Text)) (sources es : List Event)
    → Settled k es
    → Settled k (analyse_each now seen sources es)
unfolding analyse_each
analyse_each-Settled now k seen [] es w = w
analyse_each-Settled now k seen (source ∷ rest) es w =
    analyse_each-Settled now k seen rest _ (analyse_one-Settled now k (seen source.id) source es w)

analyse_each-settles :
    (now k : ℕ) (seen : ℕ → Option (ℕ × Text)) (a : ℕ × Text) (sources es : List Event)
    → seen k ≡ some a
    → contains k (map event_key sources) ≡ true
    → Settled k (analyse_each now seen sources es)
unfolding analyse_each
analyse_each-settles now k seen a [] es readable there = cc
analyse_each-settles now k seen a (source ∷ rest) es readable there =
    elim (Bool-cases (k == source.id)) [
      | inl same ↦
          let key : k ≡ source.id = ground arith in
          let at_source : seen source.id ≡ some a = ap seen (sym key) ∙ readable in
          rw at_source (
            analyse_each-Settled now k seen rest _
              (analyse_one-settles now k a source es (sym key)))
      | inr other ↦ analyse_each-settles now k seen a rest _ readable (ground arith)
    ]

abbrev Elsewhere : ℕ → List Event → Type 0
Elsewhere k es = All (λ e. (k == e.id) ≡ false) es

keep-Elsewhere : (k : ℕ) (es : List Event) → Settled k es → Elsewhere k (keep is_pending es)
keep-Elsewhere k [] w = tt
keep-Elsewhere k (e ∷ es) (here, w) = elim (Bool-cases (is_pending e)) [
  | inl waits ↦ rw (keep, waits) (ground arith, keep-Elsewhere k es w)
  | inr done ↦ rw (keep, done) (keep-Elsewhere k es w)
]

Elsewhere-absent :
    (k : ℕ) (es : List Event) → Elsewhere k es → contains k (map event_key es) ≡ false
Elsewhere-absent k [] w = refl
Elsewhere-absent k (e ∷ es) (here, w) = rw here (Elsewhere-absent k es w)

selected-absent :
    (scaled : ℕ → ℕ → ℕ) (k : ℕ) (es : List Event)
    → Settled k es
    → contains k (map event_key (selected scaled es)) ≡ false
unfolding selected
selected-absent scaled k es w =
    let P = λ (e : Event). (k == e.id) ≡ false in
    Elsewhere-absent k _
      (All-sample P scaled max_frames_analysed _ (All-sort_at P _ (keep-Elsewhere k es w)))

-- passes one after the other, each with its clock and with what came of each still
unfoldable pub passes :
    (scaled : ℕ → ℕ → ℕ) → List (ℕ × (ℕ → Option (ℕ × Text))) → List Event → List Event
passes scaled [] es = es
passes scaled ((now, seen) ∷ rest) es = passes scaled rest (analyze scaled now seen es)

passes-Settled :
    (scaled : ℕ → ℕ → ℕ) (later : List (ℕ × (ℕ → Option (ℕ × Text)))) (k : ℕ) (es : List Event)
    → Settled k es
    → Settled k (passes scaled later es)
unfolding passes analyze
passes-Settled scaled [] k es w = w
passes-Settled scaled ((now, seen) ∷ rest) k es w =
    passes-Settled scaled rest k _ (analyse_each-Settled now k seen (selected scaled es) es w)

-- A still that one pass selected and the model has answered for is not selected by any pass after it, whatever
-- those passes run into; and no pass selects more than forty.
pub analysed_once :
    (scaled : ℕ → ℕ → ℕ) (now k : ℕ) (seen : ℕ → Option (ℕ × Text)) (a : ℕ × Text)
    (later : List (ℕ × (ℕ → Option (ℕ × Text)))) (es : List Event)
    → seen k ≡ some a
    → contains k (map event_key (selected scaled es)) ≡ true
    → (contains k
          (map event_key (selected scaled (passes scaled later (analyze scaled now seen es))))
        ≡ false)
      × (length (selected scaled (passes scaled later (analyze scaled now seen es))) ≤ 40)
analysed_once scaled now k seen a later es readable there =
    let first : Settled k (analyze scaled now seen es) =
      unfold analyze in analyse_each-settles now k seen a (selected scaled es) es readable there in
    (
      selected-absent scaled k _ (passes-Settled scaled later k _ first),
      unfold selected in sample-le scaled max_frames_analysed _,
    )

hidden :
    (th : Thresholds) (c : Counters) (o : Observation) (e : Event)
    → e.row ≡ (record_event th c o).1
    → is_set analysed_flag (clean_payload o.payload) ≡ true
    → is_pending e ≡ false
unfolding is_pending record_event
hidden th c o e same sent =
    let set : is_set analysed_flag e.row.payload ≡ true =
      ap (λ r. is_set analysed_flag r.payload) same ∙ sent in
    ground (arith, set)

own-Settled :
    (e : Event) (es : List Event)
    → is_pending e ≡ false
    → All (λ f. f.id ≡ e.id → f ≡ e) es
    → Settled e.id es
own-Settled e [] h w = tt
own-Settled e (f ∷ es) h (here, w) = elim (Bool-cases (f.id == e.id)) [
  | inl same ↦
      let eq : f ≡ e = here (ground arith) in
      (ap (λ x. is_pending x && (x.id == e.id)) eq ∙ ground arith, own-Settled e es h w)
  | inr other ↦ (ground arith, own-Settled e es h w)
]

-- A still whose message carries an entry `analysed` of its own, with a text that is not empty and among its first
-- twelve entries, is never selected for an analysis, by any pass. Keys of a message, and of rows, are distinct.
pub client_hides_still :
    (scaled : ℕ → ℕ → ℕ) (later : List (ℕ × (ℕ → Option (ℕ × Text)))) (th : Thresholds)
    (c : Counters) (o : Observation) (before after : List (Text × Text)) (v : Text) (e : Event)
    (es : List Event)
    → e.row ≡ (record_event th c o).1
    → o.payload ≡ some (before ++ (analysed_flag, v) ∷ after)
    → length before < 12
    → is_empty v ≡ false
    → All (λ x. text_eq x.0 analysed_flag ≡ false) after
    → All (λ f. f.id ≡ e.id → f ≡ e) es
    → contains e.id (map event_key (selected scaled (passes scaled later es))) ≡ false
client_hides_still scaled later th c o before after v e es same sent early some_text unique keys =
    let set : is_set analysed_flag (clean_payload o.payload) ≡ true =
      ap (λ p. is_set analysed_flag (clean_payload p)) sent
      ∙ client-set before after v early some_text unique in
    selected-absent scaled e.id _
      (passes-Settled scaled later e.id es (own-Settled e es (hidden th c o e same set) keys))

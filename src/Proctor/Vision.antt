-- ===== src/Proctor/Vision.antt =====
-- The vision pass over the stills of an interview: `_sample` and `_analyze` of app/workers/tasks/proctoring_tasks.py.
-- What the storage and the model say of a still, and `int(i * step)` in floating point, are arguments.
pub mod Sampled
pub mod Flagged
pub mod Passes
use ai_interviewer.Base.{
  ℕ, zero, suc, ◌-◌, Bool, true, false, not, ◌&&◌, Option, none, some, List, [], ◌∷◌, ◌++◌, map,
  leb, ltb, ◌==◌, if◌then◌else◌,
}
use ai_interviewer.Base.Lists.{length, is_empty, keep}
use ai_interviewer.Base.Text.{Text, codes, text_eq}
use ai_interviewer.Proctor.{EventType, face_frame, event_is, Severity}
use ai_interviewer.Proctor.Collector.{Row, put_entry}
use ai_interviewer.Proctor.Signals.{Finding, Note, findings_for}

-- a row with its key; `note` and `source_event` are what the payload of a finding holds
pub record Event : Type 0 where
  pub id : ℕ
  pub row : Row
  pub note : Option Note
  pub source_event : Option ℕ

abbrev pub event_key : Event → ℕ
event_key e = e.id

abbrev pub max_frames_analysed : ℕ
max_frames_analysed = 40

abbrev pub analysed_flag : Text
analysed_flag = codes "analysed"

-- whether `payload.get(key)` is true: a text is, unless it is empty
unfoldable pub is_set : Text → List (Text × Text) → Bool
is_set key [] = false
is_set key ((k, v) ∷ d) = if text_eq k key then not (is_empty v) else is_set key d

-- the query, and the list `pending`
unfoldable pub is_pending : Event → Bool
is_pending e =
    let uploaded : Bool = elim e.row.s3_key [ none ↦ false | some _ ↦ true ] in
    event_is e.row.event_type face_frame && uploaded && not (is_set analysed_flag e.row.payload)

-- `order_by(ProctoringEvent.at)`
unfoldable pub insert_at : Event → List Event → List Event
insert_at e [] = e ∷ []
insert_at e (f ∷ es) = if leb e.row.at f.row.at then e ∷ f ∷ es else f ∷ insert_at e es

unfoldable pub sort_at : List Event → List Event
sort_at [] = []
sort_at (e ∷ es) = insert_at e (sort_at es)

-- `rows[n]`, if there is one
unfoldable pub pick : ℕ → List Event → List Event
pick n [] = []
pick n (e ∷ es) = if n == 0 then e ∷ [] else pick (n - 1) es

-- `[rows[int(i * step)] for i in range(n)]`
unfoldable pub picks : (ℕ → ℕ) → ℕ → List Event → List Event
picks index zero rows = []
picks index (suc n) rows = picks index n rows ++ pick (index n) rows

-- `_sample`, where `scaled n i` is `int(i * (n / limit))`
unfoldable pub sample : (scaled : ℕ → ℕ → ℕ) → ℕ → List Event → List Event
sample scaled limit rows =
    if leb (length rows) limit then rows else picks (scaled (length rows)) limit rows

unfoldable pub selected : (scaled : ℕ → ℕ → ℕ) → List Event → List Event
selected scaled es = sample scaled max_frames_analysed (sort_at (keep is_pending es))

-- `source.payload = {**source.payload, ANALYSED_FLAG: True}`, on the row with that key
unfoldable pub flag : Event → Event
flag e = record e {
  row = record (e.row) { payload = put_entry analysed_flag (codes "True") e.row.payload };
}

unfoldable pub mark : ℕ → List Event → List Event
mark k [] = []
mark k (e ∷ es) = (if e.id == k then flag e else e) ∷ mark k es

-- a key that is not in use
unfoldable pub new_key : List Event → ℕ
new_key [] = 0
new_key (e ∷ es) = let rest = new_key es in if ltb e.id rest then rest else suc e.id

-- the rows of the findings; the clock is that of the server
unfoldable pub add_findings : (now : ℕ) → Event → List Finding → List Event → List Event
add_findings now source [] es = es
add_findings now source (f ∷ fs) es = add_findings now source fs (
    es
    ++ record {
      id = new_key es;
      row = record {
        event_type = f.event_type;
        severity = f.severity;
        at = now;
        offset_ms = source.row.offset_ms;
        payload = [];
        s3_key = source.row.s3_key;
      };
      note = some f.note;
      source_event = some source.id;
    }
      ∷ [])

-- the body of the loop, with the faces and the note that the model gave, or `none` if it or the storage raised
unfoldable pub analyse_one : (now : ℕ) → Option (ℕ × Text) → Event → List Event → List Event
analyse_one now none source es = es
analyse_one now (some (faces, note)) source es =
    add_findings now source (findings_for faces note) (mark source.id es)

unfoldable pub analyse_each :
    (now : ℕ) → (seen : ℕ → Option (ℕ × Text)) → List Event → List Event → List Event
analyse_each now seen [] es = es
analyse_each now seen (source ∷ rest) es =
    analyse_each now seen rest (analyse_one now (seen source.id) source es)

-- `_analyze`: `seen` says what came of the still of the event with that key
unfoldable pub analyze :
    (scaled : ℕ → ℕ → ℕ) → (now : ℕ) → (seen : ℕ → Option (ℕ × Text)) → List Event → List Event
analyze scaled now seen es = analyse_each now seen (selected scaled es) es

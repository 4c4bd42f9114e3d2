-- ===== src/Transcript.antt =====
-- The turns of one interview: app/modules/interview/transcript.py, and the pass that corrects them from
-- the recording, app/modules/scoring/transcript_pass.py, from the words that `transcribe` returns.
pub mod Turns
pub mod Window
pub mod Correct
pub mod Again
use ai_interviewer.Base.{
  ℕ, ◌+◌, ◌*◌, ◌-◌, Bool, true, false, not, ◌&&◌, ◌||◌, Option, none, some, List, [], ◌∷◌, ◌++◌,
  map, Result, ok, err, raise_if, ltb, leb, ◌==◌, if◌then◌else◌,
}
use ai_interviewer.Base.Lists.{length, is_empty, keep}
use ai_interviewer.Base.Rows.{find}
use ai_interviewer.Base.Text.{Text, codes, text_eq, strip}

pub data Speaker : Type 0 where
  candidate interviewer : Speaker

unfoldable pub is_candidate : Speaker → Bool
is_candidate candidate = true
is_candidate interviewer = false

pub record Turn : Type 0 where
  pub ordinal : ℕ
  pub speaker : Speaker
  pub content : Text
  pub started_offset_ms : ℕ
  pub ended_offset_ms : ℕ
  pub question_ordinal : Option ℕ
  pub is_final : Bool

abbrev pub turn_key : Turn → ℕ
turn_key t = t.ordinal

-- the fields of `TurnCompleted`, of one interview
pub record TurnCompleted : Type 0 where
  pub ordinal : ℕ
  pub speaker : Text
  pub content : Text
  pub started_offset_ms : ℕ
  pub ended_offset_ms : ℕ
  pub question_ordinal : Option ℕ

-- the check constraint `offsets_ordered`
pub data IntegrityError : Type 0 where
  offsets_ordered : IntegrityError

abbrev pub max : ℕ → ℕ → ℕ
max a b = if ltb a b then b else a

abbrev pub min : ℕ → ℕ → ℕ
min a b = if ltb b a then b else a

-- `_speaker`; `upper` is `str.upper`
unfoldable pub to_speaker : (Text → Text) → Text → Speaker
to_speaker upper raw = if text_eq (upper raw) (codes "CANDIDATE") then candidate else interviewer

-- the row of the `VALUES` clause
unfoldable pub new_turn : (Text → Text) → TurnCompleted → Turn
unfolding to_speaker
new_turn upper e = record {
  ordinal = e.ordinal;
  speaker = to_speaker upper e.speaker;
  content = e.content;
  started_offset_ms = e.started_offset_ms;
  ended_offset_ms = max e.ended_offset_ms e.started_offset_ms;
  question_ordinal = e.question_ordinal;
  is_final = false;
}

-- `ON CONFLICT DO UPDATE`: three columns, and only of a row that is not final
unfoldable pub merge_turn : Turn → Turn → Turn
merge_turn old excluded = if old.is_final then old else record old {
  content = excluded.content;
  ended_offset_ms = excluded.ended_offset_ms;
  question_ordinal = excluded.question_ordinal;
}

unfoldable pub upsert : Turn → List Turn → List Turn
upsert new [] = new ∷ []
upsert new (t ∷ ts) = if t.ordinal == new.ordinal then merge_turn t new ∷ ts else t ∷ upsert new ts

-- the row that the statement writes, and whether it breaks the check
unfoldable pub written : Turn → List Turn → Turn
written new ts = elim (find turn_key new.ordinal ts) [ none ↦ new | some t ↦ merge_turn t new ]

unfoldable pub misordered : Turn → Bool
misordered row = ltb row.ended_offset_ms row.started_offset_ms

unfoldable pub record_turn :
    (Text → Text) → TurnCompleted → List Turn → Result IntegrityError (List Turn)
record_turn upper e ts =
    let new = new_turn upper e in
    if misordered (written new ts) then err offsets_ordered else ok (upsert new ts)

-- `max` of the ordinals, of no row `none`
unfoldable pub highest : List Turn → Option ℕ
highest [] = none
highest (t ∷ ts) = elim (highest ts) [ none ↦ some t.ordinal | some n ↦ some (max t.ordinal n) ]

unfoldable pub next_ordinal : List Turn → ℕ
next_ordinal ts = elim (highest ts) [ none ↦ 0 | some n ↦ n + 1 ]

pub record Word : Type 0 where
  pub text : Text
  pub start_ms : ℕ
  pub end_ms : ℕ

-- `overlap / duration >= 0.5`; an overlap that is negative in the source is 0 here, and fails too
unfoldable pub mostly_inside : ℕ → ℕ → Word → Bool
mostly_inside start_ms end_ms w =
    leb (max (w.end_ms - w.start_ms) 1) (2 * (min w.end_ms end_ms - max w.start_ms start_ms))

unfoldable pub words_within : List Word → ℕ → ℕ → List Word
words_within words start_ms end_ms = keep (mostly_inside start_ms end_ms) words

-- the number of matches of `\w+`, where `is_word` is the class `\w`; the flag says that the last
-- character was in it
unfoldable pub count_words : (ℕ → Bool) → Bool → Text → ℕ
count_words is_word inside [] = 0
count_words is_word inside (c ∷ s) =
    (if is_word c && not inside then 1 else 0) + count_words is_word (is_word c) s

unfoldable pub word_count : (ℕ → Bool) → Text → ℕ
word_count is_word s = count_words is_word false s

-- `" ".join(...)`
unfoldable pub join_words : List Word → Text
join_words [] = []
join_words (w ∷ []) = w.text
join_words (w ∷ v ∷ ws) = w.text ++ 32 ∷ join_words (v ∷ ws)

abbrev pub Corrections : Type 0
Corrections = List (ℕ × Text)

unfoldable pub put_correction : ℕ → Text → Corrections → Corrections
put_correction k v [] = (k, v) ∷ []
put_correction k v ((j, u) ∷ d) = if j == k then (j, v) ∷ d else (j, u) ∷ put_correction k v d

unfoldable pub get_correction : ℕ → Corrections → Option Text
get_correction k [] = none
get_correction k ((j, u) ∷ d) = if j == k then some u else get_correction k d

-- the tests of the loop's `continue`s, and the correction they leave
unfoldable pub correction_of : (ℕ → Bool) → List Word → Turn → Option Text
correction_of is_word words t =
    let matched = words_within words t.started_offset_ms t.ended_offset_ms in
    let corrected = strip (join_words matched) in
    let live_words = word_count is_word t.content in
    if not (is_candidate t.speaker) || t.is_final
    then none
    else if leb t.ended_offset_ms t.started_offset_ms
    then none
    else if is_empty matched
    then none
    else if not (live_words == 0) && ltb (2 * word_count is_word corrected) live_words
    then none
    else if not (is_empty corrected) && not (text_eq corrected t.content)
    then some corrected
    else none

-- `corrections[turn.ordinal] = corrected`, unless a `continue` was taken
abbrev pub note_correction : Option Text → ℕ → Corrections → Corrections
note_correction none k corrections = corrections
note_correction (some corrected) k corrections = put_correction k corrected corrections

unfoldable pub reconcile : (ℕ → Bool) → List Word → List Turn → Corrections → Corrections
reconcile is_word words [] corrections = corrections
reconcile is_word words (t ∷ ts) corrections =
    reconcile is_word words ts
      (note_correction (correction_of is_word words t) t.ordinal corrections)

abbrev pub overwrite : Option Text → Turn → Turn
overwrite none t = t
overwrite (some replacement) t = record t { content = replacement; is_final = true }

unfoldable pub correct : Corrections → Turn → Turn
correct corrections t = overwrite (get_correction t.ordinal corrections) t

-- the bulk update
unfoldable pub finalise : Turn → Turn
finalise t = if is_candidate t.speaker then record t { is_final = true } else t

-- `apply`: the turns it leaves, and the number of corrections. `transcribe` is the recogniser, which
-- returns no word where it fails.
unfoldable pub apply : (ℕ → Bool) → (Text → List Word) → Option Text → List Turn → List Turn × ℕ
apply is_word transcribe none turns = (turns, 0)
apply is_word transcribe (some key) turns =
    let words = transcribe key in
    let corrections = reconcile is_word words turns [] in
    if is_empty key || (is_empty turns || is_empty words)
    then (turns, 0)
    else (map (λ t. finalise (correct corrections t)) turns, length corrections)

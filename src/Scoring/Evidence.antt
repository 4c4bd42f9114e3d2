-- ===== src/Scoring/Evidence.antt =====
-- One criterion, and the evidence that a model cites for it: app/modules/scoring/rubric_scorer.py.
-- `lower` is `str.lower`, and the model's reply is an argument.
pub mod Quotes
use ai_interviewer.Base.{
  ℕ, ◌+◌, ◌*◌, Bool, true, false, not, ◌&&◌, ◌||◌, Option, none, some, List, [], ◌∷◌, Result, ok,
  err, ltb, leb, ◌==◌, if◌then◌else◌,
}
use ai_interviewer.Base.Lists.{length, is_empty, keep, take}
use ai_interviewer.Base.Text.{Text, is_space, strip}
use ai_interviewer.Plan.Rounding.{round_half_even}
use ai_interviewer.Transcript.{Turn, is_candidate}

pub record Citation : Type 0 where
  pub quote : Text
  pub turn_ordinal : Option ℕ

-- The score is in hundredths, as `_in_band` leaves it.
pub record CriterionVerdict : Type 0 where
  pub score : Option ℕ
  pub rationale : Option Text
  pub evidence : List Citation

-- the entries that `verify_evidence` appends
pub record Evidence : Type 0 where
  pub quote : Text
  pub turn_ordinal : ℕ
  pub offset_ms : ℕ

pub data Rationale : Type 0 where
  stated : Option Text → Rationale
  scoring_failed : Text → Rationale
  discarded : Text → Rationale

pub record Graded : Type 0 where
  pub score : Option ℕ
  pub rationale : Rationale
  pub evidence : List Evidence

-- MIN_QUOTE_CHARS
abbrev pub min_quote_chars : ℕ
min_quote_chars = 12

-- the `ValueError` of the validator
pub data BandError : Type 0 where
  out_of_band : BandError

-- `_in_band`, of a score written as `n / d`, with `d` a power of ten
unfoldable pub in_band : ℕ → ℕ → Result BandError ℕ
in_band n d = if leb d n && leb n (5 * d) then ok (round_half_even (100 * n) d) else err out_of_band

-- `re.sub(r"\s+", " ", value)`; the flag says that the last character was a space
unfoldable pub collapse : Bool → Text → Text
unfolding is_space
collapse inside [] = []
collapse inside (c ∷ s) =
    let rest = collapse (is_space c) s in
    if is_space c then (if inside then rest else 32 ∷ rest) else c ∷ rest

unfoldable pub normalise : (Text → Text) → Text → Text
normalise lower value = lower (strip (collapse false value))

unfoldable pub is_prefix : Text → Text → Bool
is_prefix [] s = true
is_prefix (a ∷ p) [] = false
is_prefix (a ∷ p) (b ∷ s) = (a == b) && is_prefix p s

-- `needle in hay`
unfoldable pub is_substring : Text → Text → Bool
unfolding is_prefix
is_substring needle [] = is_prefix needle []
is_substring needle (c ∷ hay) = is_prefix needle (c ∷ hay) || is_substring needle hay

-- the first candidate turn that holds the text
unfoldable pub find_turn : (Text → Text) → Text → List Turn → Option Turn
find_turn lower needle [] = none
find_turn lower needle (t ∷ ts) =
    if is_candidate t.speaker && is_substring needle (normalise lower t.content)
    then some t
    else find_turn lower needle ts

-- the body of the loop, of one citation
unfoldable pub verify_citation : (Text → Text) → List Turn → Citation → Option Evidence
verify_citation lower turns citation =
    let quote = strip citation.quote in
    if ltb (length quote) min_quote_chars
    then none
    else elim (find_turn lower (normalise lower quote) turns) [
      | none ↦ none
      | some t ↦
          some (record { quote = quote; turn_ordinal = t.ordinal; offset_ms = t.started_offset_ms })
    ]

abbrev pub append_evidence : Option Evidence → List Evidence → List Evidence
append_evidence none verified = verified
append_evidence (some e) verified = e ∷ verified

unfoldable pub verify_evidence : (Text → Text) → List Citation → List Turn → List Evidence
verify_evidence lower [] turns = []
verify_evidence lower (citation ∷ citations) turns =
    append_evidence (verify_citation lower turns citation) (verify_evidence lower citations turns)

abbrev pub text_of : Option Text → Text
text_of none = []
text_of (some s) = s

-- `score_criterion`, on the model's reply or the text of the exception
unfoldable pub score_criterion : (Text → Text) → Result Text CriterionVerdict → List Turn → Graded
score_criterion lower (err message) turns = record {
  score = none;
  rationale = scoring_failed (take 200 message);
  evidence = [];
}
score_criterion lower (ok verdict) turns =
    let evidence = verify_evidence lower verdict.evidence turns in
    elim verdict.score [
      | none ↦ record { score = none; rationale = stated verdict.rationale; evidence = evidence }
      | some score ↦
          if is_empty evidence
          then record {
            score = none;
            rationale = discarded (take 1000 (strip (text_of verdict.rationale)));
            evidence = [];
          }
          else record {
            score = some score;
            rationale = stated verdict.rationale;
            evidence = evidence;
          }
    ]

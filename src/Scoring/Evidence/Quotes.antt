-- ===== src/Scoring/Evidence/Quotes.antt =====
-- The evidence that `score_criterion` keeps, against the transcript.
use mathlib.Core.Path.{subst}
use mathlib.Core.Option.{some-injective}
use mathlib.Core.Logic.{◌↔◌}
use ai_interviewer.Base.{
  ℕ, ◌*◌, ◌≤◌, ◌<◌, ◌≡◌, refl, sym, ap, true, false, ◌&&◌, some, List, [], ◌∷◌, ◌++◌, arith, Result,
  ok, err, ltb, leb, Bool-cases, Option-cases, inl, inr,
}
use ai_interviewer.Base.Lists.{All, length, is_empty}
use ai_interviewer.Base.Text.{Text, strip}
use ai_interviewer.Plan.Rounding.{mul_mono, round_half_even, round_half_even_bounds}
use ai_interviewer.Transcript.{Turn, is_candidate}
use ai_interviewer.Scoring.Evidence.{
  Citation, CriterionVerdict, Evidence, in_band, normalise, is_prefix, is_substring, find_turn,
  verify_citation, verify_evidence, score_criterion,
}

-- A text holds another.
pub record Holds (hay needle : Text) : Type 0 where
  pub before : Text
  pub after : Text
  pub parts : hay ≡ before ++ (needle ++ after)

is_prefix-split : (p s : Text) → is_prefix p s ≡ true → (after : Text) × (s ≡ p ++ after)
unfolding is_prefix
is_prefix-split [] s h = (s, refl)
is_prefix-split (a ∷ p) [] h = cc
is_prefix-split (a ∷ p) (b ∷ s) h =
    let (after, e) = is_prefix-split p s (ground arith) in (after, ground arith)

pub is_substring-Holds : (needle hay : Text) → is_substring needle hay ≡ true → Holds hay needle
unfolding is_substring
is_substring-Holds needle [] h =
    let (after, e) = is_prefix-split needle [] h in record { before = []; after = after; parts = e }
is_substring-Holds needle (c ∷ hay) h = elim (Bool-cases (is_prefix needle (c ∷ hay))) [
  | inl p ↦
      let (after, e) = is_prefix-split needle (c ∷ hay) p in
      record { before = []; after = after; parts = e }
  | inr p ↦
      let rest = is_substring-Holds needle hay (rw p at h) in
      record { before = c ∷ rest.before; after = rest.after; parts = ap (λ s. c ∷ s) rest.parts }
]

-- the turn is one of the turns
pub data Among (t : Turn) : List Turn → Type 0 where
  here : {ts : List Turn} → Among t (t ∷ ts)
  there : {s : Turn} {ts : List Turn} → Among t ts → Among t (s ∷ ts)

-- What a piece of evidence says, in `said`.
pub record Said (lower : Text → Text) (turns : List Turn) (e : Evidence) : Type 0 where
  pub said : Turn
  pub recorded : Among said turns
  pub by_candidate : is_candidate said.speaker ≡ true
  pub at_turn : e.turn_ordinal ≡ said.ordinal
  pub at_offset : e.offset_ms ≡ said.started_offset_ms
  pub words : Holds (normalise lower said.content) (normalise lower e.quote)
  pub long_enough : 12 ≤ length e.quote

find_turn-found :
    (lower : Text → Text) (needle : Text) (turns : List Turn) (t : Turn)
    → find_turn lower needle turns ≡ some t
    → Among t turns
      × (is_candidate t.speaker ≡ true)
      × (is_substring needle (normalise lower t.content) ≡ true)
unfolding find_turn
find_turn-found lower needle [] t h = cc
find_turn-found lower needle (s ∷ ts) t h =
    elim (Bool-cases (is_candidate s.speaker && is_substring needle (normalise lower s.content))) [
      | inl e ↦
          subst
            (λ u.
              Among u (s ∷ ts)
              × (is_candidate u.speaker ≡ true)
              × (is_substring needle (normalise lower u.content) ≡ true))
            (some-injective s t (rw e at h)) (here, ground arith, ground arith)
      | inr e ↦
          let (among, speaker, found) = find_turn-found lower needle ts t (rw e at h) in
          (there among, speaker, found)
    ]

verify_citation-some :
    (lower : Text → Text) (turns : List Turn) (c : Citation) (e : Evidence)
    → verify_citation lower turns c ≡ some e
    → (12 ≤ length (strip c.quote))
      × ((t : Turn) × (find_turn lower (normalise lower (strip c.quote)) turns ≡ some t)
          × (e ≡ record {
            quote = strip c.quote;
            turn_ordinal = t.ordinal;
            offset_ms = t.started_offset_ms;
          }))
unfolding verify_citation
verify_citation-some lower turns c e h = elim (Bool-cases (ltb (length (strip c.quote)) 12)) [
  | inl short ↦ absurd (ground arith)
  | inr long ↦ elim (Option-cases (find_turn lower (normalise lower (strip c.quote)) turns)) [
    | inl absent ↦ absurd (ground arith)
    | inr (t, found) ↦ (ground arith, (t, found, sym (some-injective _ e (rw (long, found) at h))))
  ]
]

verify_citation-Said :
    (lower : Text → Text) (turns : List Turn) (c : Citation) (e : Evidence)
    → verify_citation lower turns c ≡ some e
    → Said lower turns e
verify_citation-Said lower turns c e h =
    let (long, (t, found, same)) = verify_citation-some lower turns c e h in
    let (among, speaker, holds) =
      find_turn-found lower (normalise lower (strip c.quote)) turns t found in
    subst (Said lower turns) (sym same) (record {
      said = t;
      recorded = among;
      by_candidate = speaker;
      at_turn = refl;
      at_offset = refl;
      words =
          is_substring-Holds (normalise lower (strip c.quote)) (normalise lower t.content) holds;
      long_enough = long;
    })

-- Every quote that is kept is of at least twelve characters and, up to spaces and case, stands in what
-- the candidate said at the turn and the offset that the evidence names, whatever the model cited.
pub verify_evidence-Said :
    (lower : Text → Text) (citations : List Citation) (turns : List Turn)
    → All (Said lower turns) (verify_evidence lower citations turns)
unfolding verify_evidence
verify_evidence-Said lower [] turns = tt
verify_evidence-Said lower (c ∷ citations) turns =
    elim (Option-cases (verify_citation lower turns c)) [
      | inl e ↦ rw e (verify_evidence-Said lower citations turns)
      | inr (v, e) ↦
          rw e (verify_citation-Said lower turns c v e, verify_evidence-Said lower citations turns)
    ]

-- A criterion that is graded has evidence, all of it said by the candidate, and its score is the one
-- that the model gave: a failed call, and a score without support, grade nothing.
pub score_criterion-supported :
    (lower : Text → Text) (reply : Result Text CriterionVerdict) (turns : List Turn) (n : ℕ)
    → (score_criterion lower reply turns).score ≡ some n
    → (is_empty (score_criterion lower reply turns).evidence ≡ false)
      × All (Said lower turns) (score_criterion lower reply turns).evidence
      × ((verdict : CriterionVerdict) × (reply ≡ ok verdict) × (verdict.score ≡ some n))
unfolding score_criterion
score_criterion-supported lower (err message) turns n h = cc
score_criterion-supported lower (ok verdict) turns n h =
    let evidence = verify_evidence lower verdict.evidence turns in
    elim (Option-cases verdict.score) [
      | inl e ↦ absurd (ground arith)
      | inr (k, e) ↦ elim (Bool-cases (is_empty evidence)) [
        | inl unsupported ↦ absurd (ground arith)
        | inr supported ↦ (
          ground arith,
          rw (e, supported) (verify_evidence-Said lower verdict.evidence turns),
          (verdict, refl, ground arith),
        )
      ]
    ]

rounded-inside :
    (n d : ℕ)
    → 0 < d
    → d ≤ n
    → n ≤ 5 * d
    → (100 ≤ round_half_even (100 * n) d) × (round_half_even (100 * n) d ≤ 500)
rounded-inside n d p l h =
    let s = round_half_even (100 * n) d in
    let (above, below) = round_half_even_bounds (100 * n) d p in
    (
      elim (Bool-cases (leb 100 s)) [
        | inl e ↦ ground arith
        | inr e ↦ absurd (omega (arith, below, mul_mono s 99 d (ground arith)))
      ],
      elim (Bool-cases (leb s 500)) [
        | inl e ↦ ground arith
        | inr e ↦ absurd (omega (arith, above, mul_mono 501 s d (ground arith)))
      ],
    )

-- The validator accepts exactly the numbers of the band, and what it leaves of them, in hundredths, is
-- still in the band.
pub in_band-accepts :
    (n d : ℕ)
    → 0 < d
    → ((d ≤ n) × (n ≤ 5 * d)) ↔ ((s : ℕ) × (in_band n d ≡ ok s) × (100 ≤ s) × (s ≤ 500))
unfolding in_band
in_band-accepts n d p = (
  λ (l, h).
      let (low, high) = rounded-inside n d p l h in
      (round_half_even (100 * n) d, ground arith, low, high),
  λ (s, accepted, _, _). (ground arith, ground arith),
)

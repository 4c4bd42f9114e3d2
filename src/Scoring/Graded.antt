-- ===== src/Scoring/Graded.antt =====
-- The overall number of `aggregate` and the criteria that were graded.
use ai_interviewer.Base.{
  ℕ, ◌*◌, ◌≤◌, ◌<◌, ◌≡◌, refl, Bool, true, false, not, ◌&&◌, none, some, List, [], ◌∷◌, arith, ok,
  ltb, Result-cases, inl, inr, ap,
}
use ai_interviewer.Base.Lists.{All, is_empty}
use ai_interviewer.Plan.Rounding.{round_half_up, round_half_even}
use ai_interviewer.Scoring.{
  Outcome, Weighted, total_weight, graded_of, graded_weight, weighted_sum, clamp, aggregate,
}
use ai_interviewer.Scoring.Mean.{round_half_up_mono, clamp_mono, graded_of-weighs}

-- the rubric without its ungraded criteria
abbrev pub graded_only : List Weighted → List Weighted
graded_only [] = []
graded_only ((w, none) ∷ scored) = graded_only scored
graded_only ((w, some s) ∷ scored) = (w, some s) ∷ graded_only scored

graded_of-graded_only : (scored : List Weighted) → graded_of (graded_only scored) ≡ graded_of scored
unfolding graded_of
graded_of-graded_only [] = refl
graded_of-graded_only ((w, none) ∷ scored) = graded_of-graded_only scored
graded_of-graded_only ((w, some s) ∷ scored) = ap (λ xs. (w, s) ∷ xs) (graded_of-graded_only scored)

-- the number that is stored where the quotients are taken
abbrev mean : List (ℕ × ℕ) → ℕ
mean graded = clamp (round_half_up (weighted_sum graded) (graded_weight graded))

-- too little of the rubric was graded, of a candidate who never spoke
abbrev withheld : List Weighted → Bool → Bool
withheld scored participated =
    ltb (round_half_even (100 * graded_weight (graded_of scored)) (total_weight scored)) 50
    && not participated

reported-mean :
    (scored : List Weighted) (p : Bool) (o : Outcome)
    → 0 < graded_weight (graded_of scored)
    → withheld scored p ≡ false
    → aggregate scored p ≡ ok o
    → o.overall ≡ some (mean (graded_of scored))
unfolding aggregate
reported-mean scored p o w e h = ground (arith, graded_of-weighs scored w)

overall-reported :
    (scored : List Weighted) (p : Bool) (o : Outcome) (n : ℕ)
    → 0 < graded_weight (graded_of scored)
    → aggregate scored p ≡ ok o
    → o.overall ≡ some n
    → withheld scored p ≡ false
unfolding aggregate
overall-reported scored p o n w h f = ground (arith, graded_of-weighs scored w)

-- with a candidate who participated nothing is withheld
participated-overall :
    (scored : List Weighted) (o : Outcome)
    → 0 < graded_weight (graded_of scored)
    → aggregate scored true ≡ ok o
    → o.overall ≡ some (mean (graded_of scored))
participated-overall scored o w h = reported-mean scored true o w (ground arith) h

-- For a candidate who participated, and a rubric of which something was graded with a positive weight,
-- the overall number is the one of the graded criteria alone: an ungraded criterion costs nothing.
pub ungraded_costs_nothing :
    (scored : List Weighted) (o alone : Outcome)
    → 0 < graded_weight (graded_of scored)
    → aggregate scored true ≡ ok o
    → aggregate (graded_only scored) true ≡ ok alone
    → o.overall ≡ alone.overall
ungraded_costs_nothing scored o alone w h k =
    let same = graded_of-graded_only scored in
    let first = participated-overall scored o w h in
    let second = participated-overall (graded_only scored) alone (rw same w) k in
    rw (first, second, same) refl

-- the same criteria, graded alike, with scores that are no lower
pub data Raised : List Weighted → List Weighted → Type 0 where
  nothing : Raised [] []
  ungraded_in_both :
      {w : ℕ} {xs ys : List Weighted} → Raised xs ys → Raised ((w, none) ∷ xs) ((w, none) ∷ ys)
  raised :
      {w s t : ℕ} {xs ys : List Weighted}
      → s ≤ t
      → Raised xs ys
      → Raised ((w, some s) ∷ xs) ((w, some t) ∷ ys)

mul_mono_right : (w s t : ℕ) → s ≤ t → w * s ≤ w * t
mul_mono_right w s t h = grind arith

Raised-weights :
    (xs ys : List Weighted)
    → Raised xs ys
    → (total_weight xs ≡ total_weight ys)
      × (graded_weight (graded_of xs) ≡ graded_weight (graded_of ys))
      × (weighted_sum (graded_of xs) ≤ weighted_sum (graded_of ys))
unfolding graded_of graded_weight weighted_sum total_weight
Raised-weights _ _ nothing = (refl, refl, omega arith)
Raised-weights _ _ (ungraded_in_both {w} {xs} {ys} r) =
    let (t, g, s) = Raised-weights xs ys r in (omega arith, g, s)
Raised-weights _ _ (raised {w} {s} {t} {xs} {ys} h r) =
    let (total, g, sums) = Raised-weights xs ys r in
    (omega arith, omega arith, omega (arith, mul_mono_right w s t h))

-- Raising scores never lowers the overall number: where one was reported, one that is no lower is.
pub aggregate_mono :
    (xs ys : List Weighted) (participated : Bool) (o better : Outcome) (n : ℕ)
    → Raised xs ys
    → 0 < graded_weight (graded_of xs)
    → aggregate xs participated ≡ ok o
    → aggregate ys participated ≡ ok better
    → o.overall ≡ some n
    → (m : ℕ) × (better.overall ≡ some m) × (n ≤ m)
aggregate_mono xs ys p o better n r w h k f =
    let (total, same, sums) = Raised-weights xs ys r in
    let rounded =
      round_half_up_mono (weighted_sum (graded_of xs)) (weighted_sum (graded_of ys))
        (graded_weight (graded_of xs)) w sums in
    let reported = overall-reported xs p o n w h f in
    let before = reported-mean xs p o w reported h in
    let after = reported-mean ys p better (rw same at w) (rw (total, same) at reported) k in
    let grown =
      clamp_mono (round_half_up (weighted_sum (graded_of xs)) (graded_weight (graded_of xs)))
        (round_half_up (weighted_sum (graded_of ys)) (graded_weight (graded_of xs))) rounded in
    (mean (graded_of ys), after, ground (arith, (rw same at grown)))

graded_of-positive :
    (scored : List Weighted)
    → All (λ c. 0 < c.0) scored
    → is_empty (graded_of scored) ≡ false
    → 0 < graded_weight (graded_of scored)
unfolding graded_of graded_weight
graded_of-positive [] h e = cc
graded_of-positive ((w, none) ∷ scored) h e = graded_of-positive scored h.1 e
graded_of-positive ((w, some s) ∷ scored) h e = omega (arith, h.0)

-- With weights that are positive, as the column demands, an outcome is returned.
pub aggregate-ok :
    (scored : List Weighted) (participated : Bool)
    → All (λ c. 0 < c.0) scored
    → (o : Outcome) × (aggregate scored participated ≡ ok o)
unfolding aggregate
aggregate-ok scored p h = elim (Result-cases (aggregate scored p)) [
  | inl returned ↦ returned
  | inr (e, failed) ↦ absurd (ground (arith, graded_of-positive scored h))
]

-- ===== src/Proctor/Vision/Sampled.antt =====
-- The rows that `_sample` takes, and their number.
use ai_interviewer.Base.{
  ℕ, zero, suc, ◌-◌, ◌≤◌, List, [], ◌∷◌, arith, leb, ◌==◌, Bool-cases, inl, inr,
}
use ai_interviewer.Base.Lists.{length, All, All-append, length-append}
use ai_interviewer.Proctor.Vision.{Event, insert_at, sort_at, pick, picks, sample}

-- what holds of every row holds of those that a pass selects
module _ (P : Event → Type 0) where
  All-insert_at : (e : Event) (es : List Event) → P e → All P es → All P (insert_at e es)
  unfolding insert_at
  All-insert_at e [] p ps = (p, tt)
  All-insert_at e (f ∷ es) p (q, qs) = elim (Bool-cases (leb e.row.at f.row.at)) [
    | inl le ↦ rw le (p, (q, qs))
    | inr gt ↦ rw gt (q, All-insert_at e es p qs)
  ]

  pub All-sort_at : (es : List Event) → All P es → All P (sort_at es)
  unfolding sort_at
  All-sort_at [] ps = tt
  All-sort_at (e ∷ es) (p, ps) = All-insert_at e (sort_at es) p (All-sort_at es ps)

  All-pick : (n : ℕ) (es : List Event) → All P es → All P (pick n es)
  unfolding pick
  All-pick n [] ps = tt
  All-pick n (e ∷ es) (p, ps) = elim (Bool-cases (n == 0)) [
    | inl here ↦ rw here (p, tt)
    | inr later ↦ rw later (All-pick (n - 1) es ps)
  ]

  All-picks : (index : ℕ → ℕ) (n : ℕ) (es : List Event) → All P es → All P (picks index n es)
  unfolding picks
  All-picks index zero es ps = tt
  All-picks index (suc n) es ps =
      All-append P (picks index n es) (pick (index n) es) (All-picks index n es ps)
        (All-pick (index n) es ps)

  pub All-sample :
      (scaled : ℕ → ℕ → ℕ) (limit : ℕ) (es : List Event) → All P es → All P (sample scaled limit es)
  unfolding sample
  All-sample scaled limit es ps = elim (Bool-cases (leb (length es) limit)) [
    | inl few ↦ rw few ps
    | inr many ↦ rw many (All-picks (scaled (length es)) limit es ps)
  ]

pick-le : (n : ℕ) (es : List Event) → length (pick n es) ≤ 1
unfolding pick
pick-le n [] = omega arith
pick-le n (e ∷ es) = elim (Bool-cases (n == 0)) [
  | inl here ↦ rw here (omega arith)
  | inr later ↦ rw later (pick-le (n - 1) es)
]

picks-le : (index : ℕ → ℕ) (n : ℕ) (es : List Event) → length (picks index n es) ≤ n
unfolding picks
picks-le index zero es = omega arith
picks-le index (suc n) es = omega (
  arith,
  length-append (picks index n es) (pick (index n) es),
  picks-le index n es,
  pick-le (index n) es,
)

pub sample-le :
    (scaled : ℕ → ℕ → ℕ) (limit : ℕ) (es : List Event) → length (sample scaled limit es) ≤ limit
unfolding sample
sample-le scaled limit es = elim (Bool-cases (leb (length es) limit)) [
  | inl few ↦ rw few (ground arith)
  | inr many ↦ rw many (picks-le (scaled (length es)) limit es)
]

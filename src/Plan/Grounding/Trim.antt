-- ===== src/Plan/Grounding/Trim.antt =====
-- The criteria of an overlong rubric through `_trim_overlong_rubric`.
use ai_interviewer.Base.{
  ℕ, zero, suc, ◌≤◌, ◌<◌, ◌≡◌, ◌⊎◌, true, false, List, [], ◌∷◌, arith, leb, Bool-cases, inl, inr,
}
use ai_interviewer.Base.Lists.{All, length, keep, some_of, take}
use ai_interviewer.Plan.Generator.{GeneratedCriterion, GeneratedPlan, max_criteria}
use ai_interviewer.Plan.Grounding.Same.{criterion_eq_refl, criterion_eq-weight}
use ai_interviewer.Plan.Grounding.{
  criterion_eq, insert_heavy, sort_heavy, kept_criteria, is_kept, trim_overlong_rubric,
}

-- no criterion is lighter than the ones after it
abbrev Descending : List GeneratedCriterion → Type 0
Descending [] = Unit
Descending (c ∷ cs) = All (λ d. d.weight ≤ c.weight) cs × Descending cs

insert_heavy-All :
    (P : GeneratedCriterion → Type 0) (c : GeneratedCriterion) (ds : List GeneratedCriterion)
    → P c
    → All P ds
    → All P (insert_heavy c ds)
unfolding insert_heavy
insert_heavy-All P c [] p ps = (p, tt)
insert_heavy-All P c (d ∷ ds) p (q, ps) = elim (Bool-cases (leb d.weight c.weight)) [
  | inl e ↦ rw (insert_heavy, All, e) (p, (q, ps))
  | inr e ↦ rw (insert_heavy, All, e) (q, insert_heavy-All P c ds p ps)
]

All-insert_heavy :
    (P : GeneratedCriterion → Type 0) (c : GeneratedCriterion) (ds : List GeneratedCriterion)
    → All P (insert_heavy c ds)
    → P c × All P ds
unfolding insert_heavy
All-insert_heavy P c [] ps = ps
All-insert_heavy P c (d ∷ ds) ps = elim (Bool-cases (leb d.weight c.weight)) [
  | inl e ↦ rw (insert_heavy, All, e) at ps
  | inr e ↦
      let (q, rest) : P d × All P (insert_heavy c ds) = rw (insert_heavy, All, e) at ps in
      let (p, qs) = All-insert_heavy P c ds rest in (p, (q, qs))
]

All-le :
    (m n : ℕ) (ds : List GeneratedCriterion)
    → m ≤ n
    → All (λ d. d.weight ≤ m) ds
    → All (λ d. d.weight ≤ n) ds
All-le m n [] le h = tt
All-le m n (d ∷ ds) le (here, h) = (omega arith, All-le m n ds le h)

insert_heavy-Descending :
    (c : GeneratedCriterion) (ds : List GeneratedCriterion)
    → Descending ds
    → Descending (insert_heavy c ds)
unfolding insert_heavy
insert_heavy-Descending c [] h = (tt, tt)
insert_heavy-Descending c (d ∷ ds) (below, h) = elim (Bool-cases (leb d.weight c.weight)) [
  | inl e ↦
      let le : d.weight ≤ c.weight = ground arith in
      rw (insert_heavy, Descending, e) ((le, All-le d.weight c.weight ds le below), (below, h))
  | inr e ↦
      rw (insert_heavy, Descending, e)
        (
          insert_heavy-All (λ x. x.weight ≤ d.weight) c ds (ground arith) below,
          insert_heavy-Descending c ds h,
        )
]

sort_heavy-Descending : (cs : List GeneratedCriterion) → Descending (sort_heavy cs)
unfolding sort_heavy
sort_heavy-Descending [] = tt
sort_heavy-Descending (c ∷ cs) =
    insert_heavy-Descending c (sort_heavy cs) (sort_heavy-Descending cs)

All-sort_heavy :
    (P : GeneratedCriterion → Type 0) (cs : List GeneratedCriterion)
    → All P (sort_heavy cs)
    → All P cs
unfolding sort_heavy
All-sort_heavy P [] ps = tt
All-sort_heavy P (c ∷ cs) ps =
    let (p, rest) = All-insert_heavy P c (sort_heavy cs) ps in (p, All-sort_heavy P cs rest)

-- of a descending list, each is among the first `n`, or no heavier than any of them
abbrev Placed : List GeneratedCriterion → GeneratedCriterion → Type 0
Placed kept d = (is_kept kept d ≡ true) ⊎ All (λ k. d.weight ≤ k.weight) kept

Placed-none : (ds : List GeneratedCriterion) → All (Placed []) ds
Placed-none [] = tt
Placed-none (d ∷ ds) = (inr tt, Placed-none ds)

Placed-more :
    (c : GeneratedCriterion) (kept ds : List GeneratedCriterion)
    → All (λ d. d.weight ≤ c.weight) ds
    → All (Placed kept) ds
    → All (Placed (c ∷ kept)) ds
Placed-more c kept [] below h = tt
Placed-more c kept (d ∷ ds) (le, below) (inl k, h) =
    (inl (ground arith), Placed-more c kept ds below h)
Placed-more c kept (d ∷ ds) (le, below) (inr k, h) = (inr (le, k), Placed-more c kept ds below h)

take-Placed : (n : ℕ) (ds : List GeneratedCriterion) → Descending ds → All (Placed (take n ds)) ds
take-Placed zero ds h = Placed-none ds
take-Placed (suc n) [] h = tt
take-Placed (suc n) (d ∷ ds) (below, h) = (
  inl (ground (arith, criterion_eq_refl d)),
  Placed-more d (take n ds) ds below (take-Placed n ds h),
)

le-kept :
    (m : ℕ) (c : GeneratedCriterion) (kept : List GeneratedCriterion)
    → All (λ k. m ≤ k.weight) kept
    → is_kept kept c ≡ true
    → m ≤ c.weight
le-kept m c [] h e = cc
le-kept m c (k ∷ kept) (le, h) e = elim (Bool-cases (criterion_eq c k)) [
  | inl same ↦ omega (arith, criterion_eq-weight c k same)
  | inr other ↦ le-kept m c kept h (ground arith)
]

-- The criteria that stay, of a rubric `cs` by the ones `kept` that were chosen.
module _ (kept : List GeneratedCriterion) where
  stay-le :
      (m : ℕ) (cs : List GeneratedCriterion)
      → All (λ k. m ≤ k.weight) kept
      → All (λ c. m ≤ c.weight) (keep (is_kept kept) cs)
  stay-le m [] h = tt
  stay-le m (c ∷ cs) h = elim (Bool-cases (is_kept kept c)) [
    | inl e ↦ rw (All, keep, e) (le-kept m c kept h e, stay-le m cs h)
    | inr e ↦ rw (All, keep, e) (stay-le m cs h)
  ]

-- among the criteria that stay, or no heavier than any of them
abbrev pub Outweighed : List GeneratedCriterion → GeneratedCriterion → Type 0
Outweighed rubric d =
    (some_of (criterion_eq d) rubric ≡ true) ⊎ All (λ c. d.weight ≤ c.weight) rubric

there-keep :
    (kept cs : List GeneratedCriterion) (d : GeneratedCriterion)
    → some_of (criterion_eq d) (keep (is_kept kept) cs) ≡ true
    → (c : GeneratedCriterion) → some_of (criterion_eq d) (keep (is_kept kept) (c ∷ cs)) ≡ true
there-keep kept cs d h c = elim (Bool-cases (is_kept kept c)) [
  | inl e ↦ rw (keep, e) (ground arith)
  | inr e ↦ rw (keep, e) h
]

-- every criterion of a part of the rubric that is kept stays
All-there :
    (kept cs : List GeneratedCriterion)
    → All
        (λ d. (is_kept kept d ≡ false) ⊎ (some_of (criterion_eq d) (keep (is_kept kept) cs) ≡ true))
        cs
All-there kept [] = tt
All-there kept (c ∷ cs) = (here, later cs (All-there kept cs))
  where
    here :
        (is_kept kept c ≡ false) ⊎ (some_of (criterion_eq c) (keep (is_kept kept) (c ∷ cs)) ≡ true)
    here = elim (Bool-cases (is_kept kept c)) [
      | inl e ↦ inr (rw (keep, e) (ground (arith, criterion_eq_refl c)))
      | inr e ↦ inl e
    ]

    later :
        (ds : List GeneratedCriterion)
        → All
            (λ d.
              (is_kept kept d ≡ false) ⊎ (some_of (criterion_eq d) (keep (is_kept kept) cs) ≡ true))
            ds
        → All
            (λ d.
              (is_kept kept d ≡ false)
              ⊎ (some_of (criterion_eq d) (keep (is_kept kept) (c ∷ cs)) ≡ true))
            ds
    later [] h = tt
    later (d ∷ ds) (inl e, h) = (inl e, later ds h)
    later (d ∷ ds) (inr e, h) = (inr (there-keep kept cs d e c), later ds h)

Placed-Outweighed :
    (kept cs ds : List GeneratedCriterion)
    → All (Placed kept) ds
    → All
        (λ d. (is_kept kept d ≡ false) ⊎ (some_of (criterion_eq d) (keep (is_kept kept) cs) ≡ true))
        ds
    → All (Outweighed (keep (is_kept kept) cs)) ds
Placed-Outweighed kept cs [] p t = tt
Placed-Outweighed kept cs (d ∷ ds) (p, ps) (inr e, ts) = (inl e, Placed-Outweighed kept cs ds ps ts)
Placed-Outweighed kept cs (d ∷ ds) (inl k, ps) (inl e, ts) = absurd (ground arith)
Placed-Outweighed kept cs (d ∷ ds) (inr le, ps) (inl e, ts) =
    (inr (stay-le kept d.weight cs le), Placed-Outweighed kept cs ds ps ts)

-- Of a rubric with more criteria than are allowed, each criterion is among those that the trimming leaves, or is
-- no heavier than any of them.
pub trim_overlong_rubric-Outweighed :
    (g : GeneratedPlan)
    → max_criteria < length g.criteria
    → All (Outweighed (trim_overlong_rubric g).criteria) g.criteria
unfolding trim_overlong_rubric
trim_overlong_rubric-Outweighed g long =
    let cs = g.criteria in
    let kept = kept_criteria cs in
    let trimmed : leb (length cs) max_criteria ≡ false = ground arith in
    let placed =
      All-sort_heavy (Placed kept) cs
        (take-Placed max_criteria (sort_heavy cs) (sort_heavy-Descending cs)) in
    rw trimmed (Placed-Outweighed kept cs cs placed (All-there kept cs))

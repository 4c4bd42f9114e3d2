-- ===== src/Proctor/Verdict/Rows.antt =====
-- The row of a verdict: `store` and `finalise` of app/modules/proctoring/verdict.py, over the rows of
-- `proctoring_verdicts`. The keys of the rows and their `notes`, which nothing writes, are left out.
use ai_interviewer.Base.{
  ℕ, ◌≡◌, ◌≢◌, refl, ap, ◌∙◌, sym, eq_refl, none, some, List, [], ◌∷◌, arith, Option-cases, inl,
  inr,
}
use ai_interviewer.Base.Rows.{find, replace, find-replace_self, find-replace_ne, find-key}
use ai_interviewer.Proctor.Verdict.{VerdictKind, Reason, TypeCounts, Assessment, Group, compute}

pub record ProctoringVerdict : Type 0 where
  pub org_id : ℕ
  pub interview_id : ℕ
  pub verdict : VerdictKind
  pub reasons : List Reason
  pub counts : TypeCounts
  pub frames_analysed : ℕ

abbrev pub verdict_key : ProctoringVerdict → ℕ
verdict_key v = v.interview_id

-- the row with the assessment written on it
abbrev pub assessed : Assessment → ProctoringVerdict → ProctoringVerdict
assessed a v = record v {
  verdict = a.kind;
  reasons = a.reasons;
  counts = a.counts;
  frames_analysed = a.frames_analysed;
}

abbrev pub new_verdict : (org interview : ℕ) → Assessment → ProctoringVerdict
new_verdict org k a = record {
  org_id = org;
  interview_id = k;
  verdict = a.kind;
  reasons = a.reasons;
  counts = a.counts;
  frames_analysed = a.frames_analysed;
}

unfoldable pub store :
    (org interview : ℕ) → Assessment → List ProctoringVerdict → List ProctoringVerdict
store org k a vs = elim (find verdict_key k vs) [
  | none ↦ new_verdict org k a ∷ vs
  | some v ↦ replace verdict_key (assessed a v) vs
]

-- `finalise`, on the rows of the grouped query
unfoldable pub finalise :
    (org interview : ℕ) → List Group → List ProctoringVerdict → List ProctoringVerdict
finalise org k gs vs = store org k (compute gs) vs

replace-replace :
    (r s : ProctoringVerdict) (rs : List ProctoringVerdict)
    → r.interview_id ≡ s.interview_id
    → replace verdict_key r (replace verdict_key s rs) ≡ replace verdict_key r rs
unfolding replace
replace-replace r s [] e = refl
replace-replace r s (t ∷ rs) e = ground (arith, replace-replace r s rs e)

store-new :
    (org k : ℕ) (a : Assessment) (vs : List ProctoringVerdict)
    → find verdict_key k vs ≡ none
    → store org k a vs ≡ new_verdict org k a ∷ vs
unfolding store
store-new org k a vs e = rw (store, e) refl

store-old :
    (org k : ℕ) (a : Assessment) (v : ProctoringVerdict) (vs : List ProctoringVerdict)
    → find verdict_key k vs ≡ some v
    → store org k a vs ≡ replace verdict_key (assessed a v) vs
unfolding store
store-old org k a v vs e = rw (store, e) refl

store-store :
    (org k : ℕ) (a b : Assessment) (vs : List ProctoringVerdict)
    → store org k b (store org k a vs) ≡ store org k b vs
store-store org k a b vs = elim (Option-cases (find verdict_key k vs)) [
  | inl e ↦
      let new = new_verdict org k a in
      let found : find verdict_key k (new ∷ vs) ≡ some new = unfold find in rw (eq_refl k) refl in
      let over : replace verdict_key (assessed b new) (new ∷ vs) ≡ new_verdict org k b ∷ vs =
        unfold replace in rw (eq_refl k) refl in
      ap (store org k b) (store-new org k a vs e)
      ∙ store-old org k b new (new ∷ vs) found
      ∙ over
      ∙ sym (store-new org k b vs e)
  | inr (v, e) ↦
      let key : v.interview_id ≡ k = find-key verdict_key k v vs e in
      let found = find-replace_self verdict_key k (assessed a v) v vs key e in
      ap (store org k b) (store-old org k a v vs e)
      ∙ store-old org k b (assessed a v) (replace verdict_key (assessed a v) vs) found
      ∙ replace-replace (assessed b v) (assessed a v) vs refl
      ∙ sym (store-old org k b v vs e)
]

stored :
    (org k : ℕ) (a : Assessment) (vs : List ProctoringVerdict)
    → (v : ProctoringVerdict) × (find verdict_key k (store org k a vs) ≡ some v)
      × (v.interview_id ≡ k)
      × (assessed a v ≡ v)
stored org k a vs = elim (Option-cases (find verdict_key k vs)) [
  | inl e ↦ (
    new_verdict org k a,
    ap (find verdict_key k) (store-new org k a vs e) ∙ (unfold find in rw (eq_refl k) refl),
    refl,
    refl,
  )
  | inr (v, e) ↦
      let key : v.interview_id ≡ k = find-key verdict_key k v vs e in
      (
        assessed a v,
        ap (find verdict_key k) (store-old org k a v vs e)
            ∙ find-replace_self verdict_key k (assessed a v) v vs key e,
        key,
        refl,
      )
]

others :
    (org k m : ℕ) (a : Assessment) (vs : List ProctoringVerdict)
    → m ≢ k
    → find verdict_key m (store org k a vs) ≡ find verdict_key m vs
others org k m a vs apart = elim (Option-cases (find verdict_key k vs)) [
  | inl e ↦ ap (find verdict_key m) (store-new org k a vs e) ∙ (unfold find in ground arith)
  | inr (v, e) ↦
      let key : v.interview_id ≡ k = find-key verdict_key k v vs e in
      ap (find verdict_key m) (store-old org k a v vs e)
      ∙ find-replace_ne verdict_key m (assessed a v) vs (λ same. apart (sym same ∙ key))
]

-- A verdict is computed afresh, never accumulated: a run for an interview that follows another one leaves the
-- rows as if only it had run, with the assessment of the events it saw on the interview's row; and a run
-- leaves the verdicts of other interviews as they were.
pub finalise-finalise :
    (org k m : ℕ) (gs hs : List Group) (vs : List ProctoringVerdict)
    → m ≢ k
    → (finalise org k hs (finalise org k gs vs) ≡ finalise org k hs vs)
      × ((v : ProctoringVerdict) × (find verdict_key k (finalise org k hs vs) ≡ some v)
          × (v.interview_id ≡ k)
          × (assessed (compute hs) v ≡ v))
      × (find verdict_key m (finalise org k hs vs) ≡ find verdict_key m vs)
unfolding finalise
finalise-finalise org k m gs hs vs apart = (
  store-store org k (compute gs) (compute hs) vs,
  stored org k (compute hs) vs,
  others org k m (compute hs) vs apart,
)

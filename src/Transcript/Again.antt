-- ===== src/Transcript/Again.antt =====
-- Two runs of the correcting pass.
use ai_interviewer.Base.{
  ℕ, ◌≡◌, refl, sym, ap, Bool, true, ◌||◌, Option, none, some, List, [], ◌∷◌, map, arith,
  Bool-cases, inl, inr,
}
use ai_interviewer.Base.Lists.{All, is_empty}
use ai_interviewer.Base.Text.{Text}
use ai_interviewer.Transcript.{
  is_candidate, Turn, Word, Corrections, get_correction, correction_of, reconcile, overwrite,
  correct, finalise, apply,
}

-- every candidate turn has been through the pass
abbrev Settled : List Turn → Type 0
Settled ts = All (λ t. is_candidate t.speaker ≡ true → t.is_final ≡ true) ts

finalise-Settled :
    (o : Option Text) (t : Turn)
    → is_candidate (finalise (overwrite o t)).speaker ≡ true
    → (finalise (overwrite o t)).is_final ≡ true
unfolding finalise
finalise-Settled none t h = ground arith
finalise-Settled (some v) t h = ground arith

map-Settled : (c : Corrections) (ts : List Turn) → Settled (map (λ t. finalise (correct c t)) ts)
unfolding correct
map-Settled c [] = tt
map-Settled c (t ∷ ts) = (finalise-Settled (get_correction t.ordinal c) t, map-Settled c ts)

Settled-none :
    (is_word : ℕ → Bool) (words : List Word) (t : Turn)
    → (is_candidate t.speaker ≡ true → t.is_final ≡ true)
    → correction_of is_word words t ≡ none
unfolding correction_of
Settled-none is_word words t h = ground arith

Settled-reconcile :
    (is_word : ℕ → Bool) (words : List Word) (ts : List Turn) (c : Corrections)
    → Settled ts
    → reconcile is_word words ts c ≡ c
unfolding reconcile
Settled-reconcile is_word words [] c h = refl
Settled-reconcile is_word words (t ∷ ts) c h =
    rw (Settled-none is_word words t h.0) (Settled-reconcile is_word words ts c h.1)

finalise-settled : (t : Turn) → (is_candidate t.speaker ≡ true → t.is_final ≡ true) → finalise t ≡ t
unfolding finalise
finalise-settled t h = elim (Bool-cases (is_candidate t.speaker)) [
  | inl e ↦ rw e (ap (λ b. record t { is_final = b }) (sym (h e)))
  | inr e ↦ simp e refl
]

Settled-map : (ts : List Turn) → Settled ts → map (λ t. finalise (correct [] t)) ts ≡ ts
unfolding correct get_correction
Settled-map [] h = refl
Settled-map (t ∷ ts) h = rw (finalise-settled t h.0, Settled-map ts h.1) refl

apply-Settled :
    (is_word : ℕ → Bool) (transcribe : Text → List Word) (key : Option Text) (ts : List Turn)
    → Settled ts
    → apply is_word transcribe key ts ≡ (ts, 0)
unfolding apply
apply-Settled is_word transcribe none ts h = refl
apply-Settled is_word transcribe (some key) ts h =
    rw (Settled-reconcile is_word (transcribe key) ts [] h, Settled-map ts h) (ground arith)

-- The pass is idempotent: run again on the turns that it left, it corrects none and changes none.
pub apply-twice :
    (is_word : ℕ → Bool) (transcribe : Text → List Word) (key : Option Text) (ts : List Turn)
    → apply is_word transcribe key (apply is_word transcribe key ts).0
      ≡ ((apply is_word transcribe key ts).0, 0)
unfolding apply
apply-twice is_word transcribe none ts = refl
apply-twice is_word transcribe (some key) ts =
    elim (Bool-cases (is_empty key || (is_empty ts || is_empty (transcribe key)))) [
      | inl e ↦ simp e refl
      | inr e ↦
          let corrections = reconcile is_word (transcribe key) ts [] in
          rw e (
            apply-Settled is_word transcribe (some key)
              (map (λ t. finalise (correct corrections t)) ts) (map-Settled corrections ts))
    ]

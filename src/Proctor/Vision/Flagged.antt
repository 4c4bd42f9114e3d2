-- ===== src/Proctor/Vision/Flagged.antt =====
-- The entry `analysed` of a payload, as `_clean_payload` keeps it.
use ai_interviewer.Base.{
  ℕ, zero, suc, ◌<◌, ◌≡◌, refl, ap, ◌∙◌, true, false, not, ◌&&◌, some, List, [], ◌∷◌, ◌++◌, arith,
  ◌==◌, Bool-cases, inl, inr,
}
use ai_interviewer.Base.Lists.{length, take, is_empty, All}
use ai_interviewer.Base.Text.{Text, text_eq, text_eq_refl, text_eq→eq}
use ai_interviewer.Proctor.Collector.{put_entry, clean_entries, clean_payload}
use ai_interviewer.Proctor.Vision.{analysed_flag, is_set}

pub set-put : (k v : Text) (d : List (Text × Text)) → is_set k (put_entry k v d) ≡ not (is_empty v)
unfolding is_set put_entry
set-put k v [] = rw (text_eq_refl k) refl
set-put k v ((j, u) ∷ d) = elim (Bool-cases (text_eq j k)) [
  | inl e ↦ rw (e, is_set, e) refl
  | inr e ↦ rw (e, is_set, e) (set-put k v d)
]

set-put_ne :
    (j key u : Text) (d : List (Text × Text))
    → text_eq j key ≡ false
    → is_set key (put_entry j u d) ≡ is_set key d
unfolding is_set put_entry
set-put_ne j key u [] apart = rw apart refl
set-put_ne j key u ((i, w) ∷ d) apart = elim (Bool-cases (text_eq i j)) [
  | inl e ↦
      let other : text_eq i key ≡ false = ap (λ k. text_eq k key) (text_eq→eq i j e) ∙ apart in
      rw (e, is_set, other) refl
  | inr e ↦ elim (Bool-cases (text_eq i key)) [
    | inl here ↦ rw (e, is_set, here) refl
    | inr later ↦ rw (e, is_set, later) (set-put_ne j key u d apart)
  ]
]

-- a key that is cut is no shorter text than the cut
take-eq : (n : ℕ) (k s : Text) → length s < n → text_eq (take n k) s ≡ text_eq k s
unfolding text_eq
take-eq zero k s short = absurd (omega arith)
take-eq (suc n) [] s short = refl
take-eq (suc n) (a ∷ k) [] short = refl
take-eq (suc n) (a ∷ k) (b ∷ s) short = ap (λ t. (a == b) && t) (take-eq n k s (omega arith))

abbrev Unflagged : List (Text × Text) → Type 0
Unflagged raw = All (λ x. text_eq x.0 analysed_flag ≡ false) raw

clean-Unflagged :
    (raw cleaned : List (Text × Text))
    → Unflagged raw
    → is_set analysed_flag (clean_entries raw cleaned) ≡ is_set analysed_flag cleaned
unfolding clean_entries
clean-Unflagged [] cleaned h = refl
clean-Unflagged ((k, v) ∷ raw) cleaned (here, h) =
    clean-Unflagged raw (put_entry (take 64 k) (take 500 v) cleaned) h
    ∙ set-put_ne (take 64 k) analysed_flag (take 500 v) cleaned
        (take-eq 64 k analysed_flag (omega arith) ∙ here)

take-Unflagged : (n : ℕ) (raw : List (Text × Text)) → Unflagged raw → Unflagged (take n raw)
take-Unflagged zero raw h = tt
take-Unflagged (suc n) [] h = tt
take-Unflagged (suc n) (x ∷ raw) (here, h) = (here, take-Unflagged n raw h)

some-take : (v : Text) → is_empty v ≡ false → is_empty (take 500 v) ≡ false
some-take [] h = cc
some-take (x ∷ v) h = refl

take-set :
    (n : ℕ) (before after : List (Text × Text)) (v : Text) (cleaned : List (Text × Text))
    → length before < n
    → is_empty v ≡ false
    → Unflagged after
    → is_set analysed_flag (clean_entries (take n (before ++ (analysed_flag, v) ∷ after)) cleaned)
      ≡ true
unfolding clean_entries
take-set zero before after v cleaned early some_text unique = absurd (omega arith)
take-set (suc n) [] after v cleaned early some_text unique =
    clean-Unflagged (take n after) (put_entry analysed_flag (take 500 v) cleaned)
      (take-Unflagged n after unique)
    ∙ set-put analysed_flag (take 500 v) cleaned
    ∙ ap not (some-take v some_text)
take-set (suc n) ((k, u) ∷ before) after v cleaned early some_text unique =
    take-set n before after v _ (omega arith) some_text unique

-- An early entry of that name that is not empty is kept.
pub client-set :
    (before after : List (Text × Text)) (v : Text)
    → length before < 12
    → is_empty v ≡ false
    → Unflagged after
    → is_set analysed_flag (clean_payload (some (before ++ (analysed_flag, v) ∷ after))) ≡ true
unfolding clean_payload
client-set before after v early some_text unique =
    take-set 12 before after v [] early some_text unique

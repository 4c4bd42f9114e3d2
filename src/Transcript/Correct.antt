-- ===== src/Transcript/Correct.antt =====
-- The turns through the correcting pass of app/modules/scoring/transcript_pass.py.
use ai_interviewer.Base.{
  ℕ, ◌*◌, ◌≤◌, ◌≡◌, refl, sym, ◌∙◌, ap, ◌≢◌, Bool, true, false, ◌||◌, Option, none, some, List, [],
  ◌∷◌, map, arith, Bool-cases, inl, inr, ◌⊎◌, eq_refl,
}
use ai_interviewer.Base.Lists.{All, is_empty}
use ai_interviewer.Base.Text.{Text}
use ai_interviewer.Transcript.Window.{Rewritten, corrected-Rewritten}
use ai_interviewer.Transcript.{
  is_candidate, Turn, Word, word_count, Corrections, put_correction, get_correction, correction_of,
  note_correction, reconcile, overwrite, correct, finalise, apply,
}

-- the unique constraint on the ordinals of an interview's turns
abbrev pub Distinct : List Turn → Type 0
Distinct [] = Unit
Distinct (t ∷ ts) = All (λ s. s.ordinal ≢ t.ordinal) ts × Distinct ts

get-put_self :
    (k : ℕ) (v : Text) (c : Corrections) → get_correction k (put_correction k v c) ≡ some v
unfolding get_correction put_correction
get-put_self k v [] = simp (eq_refl k) refl
get-put_self k v ((j, u) ∷ c) = ground (arith, get-put_self k v c)

get-put_ne :
    (j k : ℕ) (v : Text) (c : Corrections)
    → j ≢ k
    → get_correction k (put_correction j v c) ≡ get_correction k c
unfolding get_correction put_correction
get-put_ne j k v [] h = ground arith
get-put_ne j k v ((i, u) ∷ c) h = ground (arith, get-put_ne j k v c h)

get-note_ne :
    (o : Option Text) (j k : ℕ) (c : Corrections)
    → j ≢ k
    → get_correction k (note_correction o j c) ≡ get_correction k c
get-note_ne none j k c h = refl
get-note_ne (some v) j k c h = get-put_ne j k v c h

get-note_self :
    (o : Option Text) (k : ℕ) (c : Corrections)
    → get_correction k c ≡ none
    → get_correction k (note_correction o k c) ≡ o
get-note_self none k c h = h
get-note_self (some v) k c h = get-put_self k v c

module _ (is_word : ℕ → Bool) (words : List Word) where
  reconcile-other :
      (k : ℕ) (ts : List Turn) (c : Corrections)
      → All (λ s. s.ordinal ≢ k) ts
      → get_correction k (reconcile is_word words ts c) ≡ get_correction k c
  unfolding reconcile
  reconcile-other k [] c h = refl
  reconcile-other k (t ∷ ts) c h =
      reconcile-other k ts (note_correction (correction_of is_word words t) t.ordinal c) h.1
      ∙ get-note_ne (correction_of is_word words t) t.ordinal k c h.0

  -- the dictionary has no entry yet for the turns to come
  abbrev Fresh : Corrections → List Turn → Type 0
  Fresh c ts = All (λ t. get_correction t.ordinal c ≡ none) ts

  Fresh-note_correction :
      (o : Option Text) (k : ℕ) (c : Corrections) (ts : List Turn)
      → All (λ s. s.ordinal ≢ k) ts
      → Fresh c ts
      → Fresh (note_correction o k c) ts
  Fresh-note_correction o k c [] d h = tt
  Fresh-note_correction o k c (t ∷ ts) d h =
      (get-note_ne o k t.ordinal c (λ e. d.0 (sym e)) ∙ h.0, Fresh-note_correction o k c ts d.1 h.1)

  reconcile-get :
      (ts : List Turn) (c : Corrections)
      → Distinct ts
      → Fresh c ts
      → All
          (λ t.
            get_correction t.ordinal (reconcile is_word words ts c) ≡ correction_of is_word words t)
          ts
  unfolding reconcile
  reconcile-get [] c d h = tt
  reconcile-get (t ∷ ts) c d h =
      let o = correction_of is_word words t in
      (
        reconcile-other t.ordinal ts (note_correction o t.ordinal c) d.0
            ∙ get-note_self o t.ordinal c h.0,
        reconcile-get ts (note_correction o t.ordinal c) d.1
            (Fresh-note_correction o t.ordinal c ts d.0 h.1),
      )

  Fresh-nil : (ts : List Turn) → Fresh [] ts
  unfolding get_correction
  Fresh-nil [] = tt
  Fresh-nil (t ∷ ts) = (refl, Fresh-nil ts)

  -- a turn corrected by itself, from the words in its own window
  abbrev pub corrected_alone : Turn → Turn
  corrected_alone t = finalise (overwrite (correction_of is_word words t) t)

  map-alone :
      (c : Corrections) (ts : List Turn)
      → All (λ t. get_correction t.ordinal c ≡ correction_of is_word words t) ts
      → map (λ t. finalise (correct c t)) ts ≡ map corrected_alone ts
  unfolding correct
  map-alone c [] h = refl
  map-alone c (t ∷ ts) h =
      rw (map-alone c ts h.1) (ap (λ o. finalise (overwrite o t) ∷ map corrected_alone ts) h.0)

  corrections-alone :
      (ts : List Turn)
      → Distinct ts
      → map (λ t. finalise (correct (reconcile is_word words ts []) t)) ts ≡ map corrected_alone ts
  corrections-alone ts d =
      map-alone (reconcile is_word words ts []) ts (reconcile-get ts [] d (Fresh-nil ts))

  -- What the pass may do to a turn.
  pub record Corrected (before after : Turn) : Type 0 where
    pub same_ordinal : after.ordinal ≡ before.ordinal
    pub same_speaker : after.speaker ≡ before.speaker
    pub same_start : after.started_offset_ms ≡ before.started_offset_ms
    pub same_end : after.ended_offset_ms ≡ before.ended_offset_ms
    pub same_question : after.question_ordinal ≡ before.question_ordinal
    pub interviewer_kept : (is_candidate before.speaker ≡ true) ⊎ (after ≡ before)
    pub final_kept : (before.is_final ≡ false) ⊎ (after.content ≡ before.content)
    pub candidate_final : (is_candidate before.speaker ≡ false) ⊎ (after.is_final ≡ true)
    pub enough_words : word_count is_word before.content ≤ 2 * word_count is_word after.content

  correction-live :
      (t : Turn) (v : Text)
      → correction_of is_word words t ≡ some v
      → (is_candidate t.speaker ≡ true)
        × (t.is_final ≡ false)
        × (word_count is_word t.content ≤ 2 * word_count is_word v)
  unfolding correction_of
  correction-live t v h = (ground arith, ground arith, ground arith)

  finalise-Corrected :
      (o : Option Text) (t : Turn)
      → ((v : Text)
          → o ≡ some v
          → (is_candidate t.speaker ≡ true)
            × (t.is_final ≡ false)
            × (word_count is_word t.content ≤ 2 * word_count is_word v))
      → Corrected t (finalise (overwrite o t))
  unfolding finalise
  finalise-Corrected none t h = elim (Bool-cases (is_candidate t.speaker)) [
    | inl e ↦ rw e (record {
      same_ordinal = refl;
      same_speaker = refl;
      same_start = refl;
      same_end = refl;
      same_question = refl;
      interviewer_kept = inl e;
      final_kept = inr refl;
      candidate_final = inr refl;
      enough_words = omega arith;
    })
    | inr e ↦ rw e (record {
      same_ordinal = refl;
      same_speaker = refl;
      same_start = refl;
      same_end = refl;
      same_question = refl;
      interviewer_kept = inr refl;
      final_kept = inr refl;
      candidate_final = inl e;
      enough_words = omega arith;
    })
  ]
  finalise-Corrected (some v) t h =
      let (candidate_turn, live, enough) = h v refl in
      rw candidate_turn (record {
        same_ordinal = refl;
        same_speaker = refl;
        same_start = refl;
        same_end = refl;
        same_question = refl;
        interviewer_kept = inl candidate_turn;
        final_kept = inl live;
        candidate_final = inr refl;
        enough_words = enough;
      })

  corrected_alone-Corrected : (t : Turn) → Corrected t (corrected_alone t)
  corrected_alone-Corrected t =
      finalise-Corrected (correction_of is_word words t) t (correction-live t)

  -- the turns of two lists, one by one
  abbrev pub AllCorrected : List Turn → List Turn → Type 0
  AllCorrected [] [] = Unit
  AllCorrected (t ∷ ts) (u ∷ us) =
      Corrected t u × Rewritten is_word words t u.content × AllCorrected ts us
  AllCorrected _ _ = ⊥

  alone-AllCorrected : (ts : List Turn) → AllCorrected ts (map corrected_alone ts)
  alone-AllCorrected [] = tt
  alone-AllCorrected (t ∷ ts) =
      (corrected_alone-Corrected t, corrected-Rewritten is_word words t, alone-AllCorrected ts)

-- the pass has nothing to work on
abbrev pub Skipped : (Text → List Word) → Option Text → List Turn → Type 0
Skipped transcribe none ts = Unit
Skipped transcribe (some key) ts =
    (is_empty key || (is_empty ts || is_empty (transcribe key))) ≡ true

-- The pass either has nothing to work on and leaves the turns alone, or does to each turn, from the words that
-- were recognised, no more than it may: the order, the speakers, the timings and the interviewer's turns are kept,
-- a turn that was final keeps its text, every candidate turn is final, and no text has less than half of the words
-- it had. The text is made of the words of the turn's own window, those at least half inside it, unless there is a
-- reason to keep the old one: the speaker, finality, no duration, an empty window or text, or too few words.
pub apply-AllCorrected :
    (is_word : ℕ → Bool) (transcribe : Text → List Word) (key : Option Text) (ts : List Turn)
    → Distinct ts
    → (Skipped transcribe key ts × ((apply is_word transcribe key ts).0 ≡ ts))
      ⊎ ((k : Text) × (key ≡ some k)
          × AllCorrected is_word (transcribe k) ts (apply is_word transcribe key ts).0)
unfolding apply
apply-AllCorrected is_word transcribe none ts d = inl (tt, refl)
apply-AllCorrected is_word transcribe (some key) ts d =
    elim (Bool-cases (is_empty key || (is_empty ts || is_empty (transcribe key)))) [
      | inl e ↦ rw e (inl (refl, refl))
      | inr e ↦
          rw (e, corrections-alone is_word (transcribe key) ts d)
            (inr (key, refl, alone-AllCorrected is_word (transcribe key) ts))
    ]

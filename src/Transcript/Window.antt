-- ===== src/Transcript/Window.antt =====
-- The window of a turn among the words that were recognised, and what a correction is made of.
use ai_interviewer.Base.{
  ℕ, ◌-◌, ◌*◌, ◌≤◌, ◌<◌, ◌≡◌, refl, ◌∙◌, ap, Bool, true, false, not, ◌&&◌, ◌⊎◌, inl, inr, none,
  some, List, [], ◌∷◌, arith, leb, ltb, ◌==◌, Bool-cases,
}
use Prim.Native.Nat.{min}
use ai_interviewer.Base.Lists.{is_empty, keep}
use ai_interviewer.Base.Text.{Text, strip, text_eq, text_eq→eq}
use ai_interviewer.Transcript.{
  max, is_candidate, Turn, Word, mostly_inside, words_within, join_words, word_count, correction_of,
  overwrite, finalise,
}

-- at least half of the word, which lasts a millisecond at least, is between the two times
abbrev pub HalfInside : ℕ → ℕ → Word → Type 0
HalfInside start_ms end_ms w =
    max (w.end_ms - w.start_ms) 1 ≤ 2 * (min w.end_ms end_ms - max w.start_ms start_ms)

-- The second list is the words of the first that are at least half inside, in their order.
pub data Window (start_ms end_ms : ℕ) : List Word → List Word → Type 0 where
  nothing : Window start_ms end_ms [] []
  inside :
      (w : Word) (words ws : List Word)
      → HalfInside start_ms end_ms w
      → Window start_ms end_ms words ws
      → Window start_ms end_ms (w ∷ words) (w ∷ ws)
  outside :
      (w : Word) (words ws : List Word)
      → 2 * (min w.end_ms end_ms - max w.start_ms start_ms) < max (w.end_ms - w.start_ms) 1
      → Window start_ms end_ms words ws
      → Window start_ms end_ms (w ∷ words) ws

words_within-Window : (a b : ℕ) (words : List Word) → Window a b words (words_within words a b)
unfolding words_within mostly_inside
words_within-Window a b [] = nothing
words_within-Window a b (w ∷ words) = elim (Bool-cases (mostly_inside a b w)) [
  | inl e ↦ rw (keep, e) (inside w words _ (ground arith) (words_within-Window a b words))
  | inr e ↦ rw (keep, e) (outside w words _ (ground arith) (words_within-Window a b words))
]

-- why a turn keeps its text, where `ws` are the words of its window
abbrev pub Spared : (ℕ → Bool) → List Word → Turn → Type 0
Spared is_word ws t =
    (is_candidate t.speaker ≡ false)
    ⊎ (t.is_final ≡ true)
    ⊎ (t.ended_offset_ms ≤ t.started_offset_ms)
    ⊎ (is_empty ws ≡ true)
    ⊎ (2 * word_count is_word (strip (join_words ws)) < word_count is_word t.content)
    ⊎ (is_empty (strip (join_words ws)) ≡ true)
    ⊎ (strip (join_words ws) ≡ t.content)

-- The text of a turn after the pass is that of the words of its window, or there is a reason to keep it.
pub data Rewritten (is_word : ℕ → Bool) (words : List Word) (before : Turn) : Text → Type 0 where
  heard :
      (ws : List Word)
      → Window before.started_offset_ms before.ended_offset_ms words ws
      → (is_empty ws ≡ false)
      → Rewritten is_word words before (strip (join_words ws))
  spared :
      (ws : List Word)
      → Window before.started_offset_ms before.ended_offset_ms words ws
      → Spared is_word ws before
      → Rewritten is_word words before before.content

finalise-content : (t : Turn) → (finalise t).content ≡ t.content
unfolding finalise
finalise-content t = elim (Bool-cases (is_candidate t.speaker)) [
  | inl e ↦ rw (finalise, e) refl
  | inr e ↦ rw (finalise, e) refl
]

correction-cases :
    (is_word : ℕ → Bool) (words : List Word) (t : Turn)
    → let ws = words_within words t.started_offset_ms t.ended_offset_ms in
      ((correction_of is_word words t ≡ none) × Spared is_word ws t)
      ⊎ ((correction_of is_word words t ≡ some (strip (join_words ws))) × (is_empty ws ≡ false))
unfolding correction_of
correction-cases is_word words t =
    let ws = words_within words t.started_offset_ms t.ended_offset_ms in
    let corrected = strip (join_words ws) in
    elim (Bool-cases (is_candidate t.speaker)) [
      | inr other ↦ inl (rw other refl, inl other)
      | inl speaks ↦ elim (Bool-cases t.is_final) [
        | inl final ↦ inl (rw (speaks, final) refl, inr (inl final))
        | inr open_still ↦ elim (Bool-cases (leb t.ended_offset_ms t.started_offset_ms)) [
          | inl empty ↦ inl (rw (speaks, open_still, empty) refl, inr (inr (inl (ground arith))))
          | inr long ↦ elim (Bool-cases (is_empty ws)) [
            | inl silent ↦
                inl (rw (speaks, open_still, long, silent) refl, inr (inr (inr (inl silent))))
            | inr some_words ↦
                elim (Bool-cases (
                  not (word_count is_word t.content == 0)
                  && ltb (2 * word_count is_word corrected) (word_count is_word t.content))) [
                    | inl few ↦ inl (
                      rw (speaks, open_still, long, some_words, few) refl,
                      inr (inr (inr (inr (inl (ground arith))))),
                    )
                    | inr enough ↦ elim (Bool-cases (is_empty corrected)) [
                      | inl blank ↦ inl (
                        rw (speaks, open_still, long, some_words, enough, blank) refl,
                        inr (inr (inr (inr (inr (inl blank))))),
                      )
                      | inr text ↦ elim (Bool-cases (text_eq corrected t.content)) [
                        | inl same ↦ inl (
                          rw (speaks, open_still, long, some_words, enough, text, same) refl,
                          inr (inr (inr (inr (inr (inr (text_eq→eq corrected t.content same)))))),
                        )
                        | inr new ↦ inr (
                          rw (speaks, open_still, long, some_words, enough, text, new) refl,
                          some_words,
                        )
                      ]
                    ]
                  ]
          ]
        ]
      ]
    ]

pub corrected-Rewritten :
    (is_word : ℕ → Bool) (words : List Word) (t : Turn)
    → Rewritten is_word words t (finalise (overwrite (correction_of is_word words t) t)).content
corrected-Rewritten is_word words t =
    let window = words_within-Window t.started_offset_ms t.ended_offset_ms words in
    let content = finalise-content (overwrite (correction_of is_word words t) t) in
    elim (correction-cases is_word words t) [
      | inl (kept, why) ↦
          rw (content ∙ ap (λ o. (overwrite o t).content) kept) (spared _ window why)
      | inr (new, some_words) ↦
          rw (content ∙ ap (λ o. (overwrite o t).content) new) (heard _ window some_words)
    ]

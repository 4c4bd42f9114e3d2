-- ===== src/Resume/Chunker/Lines.antt =====
-- The lines of an oversized span through `_split_oversized`.
use mathlib.Core.List.{append_assoc, append-nil}
use ai_interviewer.Base.{
  ℕ, ◌+◌, ◌≡◌, refl, sym, ◌∙◌, ap, List, [], ◌∷◌, ◌++◌, ltb, leb, ◌==◌, Bool-cases, inl, inr,
  eqb→eq,
}
use ai_interviewer.Base.Lists.{length}
use ai_interviewer.Base.Text.{Text}
use ai_interviewer.Resume.Chunker.{prepend, split_lines, join_lines, pack, split_oversized}

join_lines-prepend :
    (c : ℕ) (l : Text) (ls : List Text) → join_lines (prepend c (l ∷ ls)) ≡ c ∷ join_lines (l ∷ ls)
unfolding join_lines
join_lines-prepend c l [] = refl
join_lines-prepend c l (m ∷ ls) = refl

-- there is always a first line
pub split_lines-cons : (s : Text) → (l : Text) × ((ls : List Text) × (split_lines s ≡ l ∷ ls))
unfolding split_lines
split_lines-cons [] = ([], ([], refl))
split_lines-cons (c ∷ s) =
    let (l, (ls, e)) = split_lines-cons s in
    elim (Bool-cases (c == 10)) [
      | inl n ↦ ([], (l ∷ ls, rw (n, e) refl))
      | inr n ↦ (c ∷ l, (ls, rw (n, e) refl))
    ]

join_lines-split_lines : (s : Text) → join_lines (split_lines s) ≡ s
unfolding split_lines join_lines
join_lines-split_lines [] = refl
join_lines-split_lines (c ∷ s) =
    let (l, (ls, e)) = split_lines-cons s in
    let ih = rw e at (join_lines-split_lines s) in
    elim (Bool-cases (c == 10)) [
      | inl n ↦ rw (n, e, eqb→eq c 10 n) (ap (λ t. 10 ∷ t) ih)
      | inr n ↦ rw (n, e) (join_lines-prepend c l ls ∙ ap (λ t. c ∷ t) ih)
    ]

pub join_lines-append :
    (l : Text) (ls : List Text) (m : Text) (ms : List Text)
    → join_lines ((l ∷ ls) ++ (m ∷ ms)) ≡ join_lines (l ∷ ls) ++ 10 ∷ join_lines (m ∷ ms)
unfolding join_lines
join_lines-append l [] m ms = refl
join_lines-append l (k ∷ ls) m ms =
    ap (λ t. l ++ 10 ∷ t) (join_lines-append k ls m ms)
    ∙ sym (append_assoc l (10 ∷ join_lines (k ∷ ls)) (10 ∷ join_lines (m ∷ ms)))

pub pack-cons :
    (limit : ℕ) (ls : List Text) (c : Text) (cs : List Text) (size : ℕ)
    → (p : Text) × ((ps : List Text) × (pack limit ls (c ∷ cs) size ≡ p ∷ ps))
unfolding pack
pack-cons limit [] c cs size = (join_lines (c ∷ cs), ([], refl))
pack-cons limit (l ∷ ls) c cs size =
    let (p, (ps, e)) = pack-cons limit ls c (cs ++ l ∷ []) (size + length l + 1) in
    elim (Bool-cases (ltb limit (size + length l + 1))) [
      | inl f ↦ (join_lines (c ∷ cs), (pack limit ls (l ∷ []) (length l + 1), rw f refl))
      | inr f ↦ (p, (ps, rw f e))
    ]

join_lines-head :
    (t : Text) (ps : List Text) (p : Text) (qs : List Text)
    → ps ≡ p ∷ qs
    → join_lines (t ∷ ps) ≡ t ++ 10 ∷ join_lines ps
unfolding join_lines
join_lines-head t ps p qs e = rw e (join_lines-append t [] p qs)

join_lines-pack :
    (limit : ℕ) (ls : List Text) (c : Text) (cs : List Text) (size : ℕ)
    → join_lines (pack limit ls (c ∷ cs) size) ≡ join_lines ((c ∷ cs) ++ ls)
unfolding pack
join_lines-pack limit [] c cs size = unfold join_lines in ap join_lines (sym (append-nil (c ∷ cs)))
join_lines-pack limit (l ∷ ls) c cs size =
    let (p, (ps, e)) = pack-cons limit ls l [] (length l + 1) in
    elim (Bool-cases (ltb limit (size + length l + 1))) [
      | inl f ↦ rw f (
          join_lines-head (join_lines (c ∷ cs)) (pack limit ls (l ∷ []) (length l + 1)) p ps e
          ∙ ap (λ t. join_lines (c ∷ cs) ++ 10 ∷ t) (join_lines-pack limit ls l [] (length l + 1))
          ∙ sym (join_lines-append c cs l ls))
      | inr f ↦ rw f (
          join_lines-pack limit ls c (cs ++ l ∷ []) (size + length l + 1)
          ∙ ap join_lines (append_assoc (c ∷ cs) (l ∷ []) ls))
    ]

-- Splitting an oversized span loses nothing: its parts, joined by line breaks, are the span again.
pub split_oversized-join_lines :
    (text : Text) (limit : ℕ) → join_lines (split_oversized text limit) ≡ text
unfolding split_oversized
split_oversized-join_lines text limit = elim (Bool-cases (leb (length text) limit)) [
  | inl e ↦ rw e (unfold join_lines in refl)
  | inr e ↦
      let (l, (ls, lines)) = split_lines-cons text in
      rw (e, lines)
        (unfold pack in
          join_lines-pack limit ls l [] (0 + length l + 1)
          ∙ rw⁻¹ lines (join_lines-split_lines text))
]

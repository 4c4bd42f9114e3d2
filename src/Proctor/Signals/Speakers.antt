-- ===== src/Proctor/Signals/Speakers.antt =====
-- When a second speaker is reported.
use ai_interviewer.Base.{
  ℕ, ◌+◌, ◌≤◌, ◌≡◌, refl, Option, List, [], ◌∷◌, arith, leb, ltb, ◌==◌, if◌then◌else◌, Bool-cases,
  inl, inr, is_none,
}
use ai_interviewer.Base.Lists.{All}
use ai_interviewer.Proctor.Signals.{
  remaining, insert_desc, sort_desc, rest_of, supporting, assess_speakers,
}

-- how many of the counts are those of a speaker, and not of a stray tag
abbrev pub speakers : List ℕ → ℕ
speakers [] = 0
speakers (n ∷ ns) = (if leb 2 n then 1 else 0) + speakers ns

insert_desc-speakers : (n : ℕ) (ns : List ℕ) → speakers (insert_desc n ns) ≡ speakers (n ∷ ns)
unfolding insert_desc
insert_desc-speakers n [] = refl
insert_desc-speakers n (m ∷ ms) = ground (arith, insert_desc-speakers n ms)

sort_desc-speakers : (ns : List ℕ) → speakers (sort_desc ns) ≡ speakers ns
unfolding sort_desc
sort_desc-speakers [] = refl
sort_desc-speakers (n ∷ ns) =
    omega (arith, insert_desc-speakers n (sort_desc ns), sort_desc-speakers ns)

-- the first is the largest
abbrev Headed : List ℕ → Type 0
Headed [] = Unit
Headed (n ∷ ns) = All (λ m. m ≤ n) ns × Headed ns

All-le_trans : (a b : ℕ) (ns : List ℕ) → a ≤ b → All (λ m. m ≤ a) ns → All (λ m. m ≤ b) ns
All-le_trans a b [] h k = tt
All-le_trans a b (n ∷ ns) h k = (omega arith, All-le_trans a b ns h k.1)

insert_desc-All :
    (b n : ℕ) (ns : List ℕ) → n ≤ b → All (λ m. m ≤ b) ns → All (λ m. m ≤ b) (insert_desc n ns)
unfolding insert_desc
insert_desc-All b n [] h k = (h, tt)
insert_desc-All b n (m ∷ ms) h k = elim (Bool-cases (leb m n)) [
  | inl e ↦ rw e (h, k)
  | inr e ↦ rw e (k.0, insert_desc-All b n ms h k.1)
]

insert_desc-Headed : (n : ℕ) (ns : List ℕ) → Headed ns → Headed (insert_desc n ns)
unfolding insert_desc
insert_desc-Headed n [] h = (tt, tt)
insert_desc-Headed n (m ∷ ms) h = elim (Bool-cases (leb m n)) [
  | inl e ↦ let le : m ≤ n = ground arith in rw e ((le, All-le_trans m n ms le h.0), h)
  | inr e ↦ rw e (insert_desc-All m n ms (ground arith) h.0, insert_desc-Headed n ms h.1)
]

sort_desc-Headed : (ns : List ℕ) → Headed (sort_desc ns)
unfolding sort_desc
sort_desc-Headed [] = tt
sort_desc-Headed (n ∷ ns) = insert_desc-Headed n (sort_desc ns) (sort_desc-Headed ns)

supporting-speakers : (ns : List ℕ) → (supporting ns == 0) ≡ (speakers ns == 0)
unfolding supporting
supporting-speakers [] = refl
supporting-speakers (n ∷ ns) = ground (arith, supporting-speakers ns)

small_speakers : (ns : List ℕ) → All (λ m. m ≤ 1) ns → speakers ns ≡ 0
small_speakers [] h = refl
small_speakers (n ∷ ns) h = ground (arith, small_speakers ns h.1)

-- Behind the largest, someone speaks exactly if two of all do.
rest-speakers : (ns : List ℕ) → Headed ns → (speakers (rest_of ns) == 0) ≡ ltb (speakers ns) 2
unfolding rest_of
rest-speakers [] h = refl
rest-speakers (n ∷ ns) h = elim (Bool-cases (leb 2 n)) [
  | inl e ↦ rw e (ground arith)
  | inr e ↦
      let none_speak = small_speakers ns (All-le_trans n 1 ns (ground arith) h.0) in
      rw e (ground arith)
]

-- A second speaker is found exactly if at least two tags, the interviewer's not counted, have two words
-- or more each.
pub assess_speakers-speakers :
    (tag_counts : List (ℕ × ℕ)) (interviewer_tag : Option ℕ)
    → is_none (assess_speakers tag_counts interviewer_tag)
      ≡ ltb (speakers (remaining interviewer_tag tag_counts)) 2
unfolding assess_speakers
assess_speakers-speakers tag_counts interviewer_tag =
    let ns = remaining interviewer_tag tag_counts in
    let os = rest_of (sort_desc ns) in
    let tail = rest-speakers (sort_desc ns) (sort_desc-Headed ns) in
    ground (arith, supporting-speakers os, tail, sort_desc-speakers ns)

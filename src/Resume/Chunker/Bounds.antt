-- ===== src/Resume/Chunker/Bounds.antt =====
-- The sizes and the numbers of chunks.
use ai_interviewer.Base.{
  ℕ, ◌+◌, ◌≤◌, ◌≡◌, refl, ap, ◌⊎◌, false, ◌&&◌, List, [], ◌∷◌, ◌++◌, arith, ltb, leb, ◌==◌,
  Bool-cases, inl, inr,
}
use ai_interviewer.Base.Lists.{length, is_empty, All, All-append, length-append, contains}
use ai_interviewer.Base.Text.{Text, strip}
use ai_interviewer.Resume.Chunker.{
  Chunk, prepend, split_lines, join_lines, pack, split_oversized, merge_into, merge_small,
  size_spans, split_entries, prefixed, place, spans_of, chunk_from, chunk_sections,
}
use ai_interviewer.Resume.Chunker.Lines.{split_lines-cons, join_lines-append}

-- a span that fits, or that is one line
abbrev pub Fits : ℕ → Text → Type 0
Fits limit s = (length s ≤ limit) ⊎ (contains 10 s ≡ false)

-- no line holds a line break
prepend-line :
    (c : ℕ) (ls : List Text)
    → (c == 10) ≡ false
    → All (λ l. contains 10 l ≡ false) ls
    → All (λ l. contains 10 l ≡ false) (prepend c ls)
prepend-line c [] n h = (ground arith, tt)
prepend-line c (l ∷ ls) n h = (ground (arith, h.0), h.1)

split_lines-line : (s : Text) → All (λ l. contains 10 l ≡ false) (split_lines s)
unfolding split_lines
split_lines-line [] = (refl, tt)
split_lines-line (c ∷ s) = elim (Bool-cases (c == 10)) [
  | inl n ↦ rw n (refl, split_lines-line s)
  | inr n ↦ rw n (prepend-line c (split_lines s) n (split_lines-line s))
]

-- the lines that are collected: `size` counts them with their breaks, and they fit or are one line
abbrev Collected : ℕ → Text → List Text → ℕ → Type 0
Collected limit c cs size =
    (length (join_lines (c ∷ cs)) + 1 ≡ size) × Fits limit (join_lines (c ∷ cs))

Collected-one : (limit : ℕ) (l : Text) → contains 10 l ≡ false → Collected limit l [] (length l + 1)
unfolding join_lines
Collected-one limit l h = (refl, inr h)

Collected-first :
    (limit : ℕ) (l : Text) → contains 10 l ≡ false → Collected limit l [] (0 + length l + 1)
unfolding join_lines
Collected-first limit l h = (omega arith, inr h)

Collected-more :
    (limit : ℕ) (c : Text) (cs : List Text) (l : Text) (size : ℕ)
    → ltb limit (size + length l + 1) ≡ false
    → Collected limit c cs size
    → Collected limit c (cs ++ l ∷ []) (size + length l + 1)
Collected-more limit c cs l size f h =
    let joined = join_lines-append c cs l [] in
    let total = ap (λ t. length t) joined in
    let parts = length-append (join_lines (c ∷ cs)) (10 ∷ l) in
    let size_is = h.0 in (unfold join_lines in omega arith, inl (unfold join_lines in ground arith))

pack-Fits :
    (limit : ℕ) (ls : List Text) (c : Text) (cs : List Text) (size : ℕ)
    → All (λ l. contains 10 l ≡ false) ls
    → Collected limit c cs size
    → All (Fits limit) (pack limit ls (c ∷ cs) size)
unfolding pack
pack-Fits limit [] c cs size h k = (k.1, tt)
pack-Fits limit (l ∷ ls) c cs size h k = elim (Bool-cases (ltb limit (size + length l + 1))) [
  | inl f ↦ rw f (k.1, pack-Fits limit ls l [] (length l + 1) h.1 (Collected-one limit l h.0))
  | inr f ↦ rw f (
      pack-Fits limit ls c (cs ++ l ∷ []) (size + length l + 1) h.1
        (Collected-more limit c cs l size f k))
]

lines-Fits :
    (limit : ℕ) (l : Text) (ls : List Text)
    → All (λ k. contains 10 k ≡ false) (l ∷ ls)
    → All (Fits limit) (pack limit (l ∷ ls) [] 0)
unfolding pack
lines-Fits limit l ls h =
    pack-Fits limit ls l [] (0 + length l + 1) h.1 (Collected-first limit l h.0)

-- Every part of an oversized span fits the limit, or is one line of it.
pub split_oversized-Fits : (text : Text) (limit : ℕ) → All (Fits limit) (split_oversized text limit)
unfolding split_oversized
split_oversized-Fits text limit = elim (Bool-cases (leb (length text) limit)) [
  | inl e ↦ rw e (inl (ground arith), tt)
  | inr e ↦
      let (l, (ls, lines)) = split_lines-cons text in
      rw (e, lines) (lines-Fits limit l ls (rw lines at (split_lines-line text)))
]

size_spans-Fits : (limit : ℕ) (spans : List Text) → All (Fits limit) (size_spans limit spans)
unfolding size_spans
size_spans-Fits limit [] = tt
size_spans-Fits limit (s ∷ spans) =
    All-append (Fits limit) (split_oversized s limit) (size_spans limit spans)
      (split_oversized-Fits s limit) (size_spans-Fits limit spans)

merge_into-Fits :
    (limit floor : ℕ) (last : Text) (spans : List Text)
    → Fits limit last
    → All (Fits limit) spans
    → All (Fits limit) (merge_into limit floor last spans)
unfolding merge_into
merge_into-Fits limit floor last [] h k = (h, tt)
merge_into-Fits limit floor last (s ∷ spans) h k =
    let total = length-append last (10 ∷ 10 ∷ s) in
    elim (Bool-cases (ltb (length s) floor && leb (length last + length s + 2) limit)) [
      | inl e ↦
          rw e (merge_into-Fits limit floor (last ++ 10 ∷ 10 ∷ s) spans (inl (ground arith)) k.1)
      | inr e ↦ rw e (h, merge_into-Fits limit floor s spans k.0 k.1)
    ]

merge_small-Fits :
    (limit floor : ℕ) (spans : List Text)
    → All (Fits limit) spans
    → All (Fits limit) (merge_small limit floor spans)
unfolding merge_small
merge_small-Fits limit floor [] h = tt
merge_small-Fits limit floor (s ∷ spans) h = merge_into-Fits limit floor s spans h.0 h.1

spans_of-Fits :
    (entry_break : Text → List Text) (max_chars min_chars : ℕ) (body : Text)
    → All (Fits max_chars) (spans_of entry_break max_chars min_chars body)
unfolding spans_of
spans_of-Fits entry_break max_chars min_chars body =
    merge_small-Fits max_chars min_chars (size_spans max_chars (split_entries entry_break body))
      (size_spans-Fits max_chars (split_entries entry_break body))

-- A chunk is its section's name and a span that fits.
abbrev pub Shaped : ℕ → Chunk → Type 0
Shaped max_chars c = (span : Text) × (c.content ≡ prefixed c.section span) × Fits max_chars span

-- the ordinals count up from `n`
abbrev pub Numbered : ℕ → List Chunk → Type 0
Numbered n [] = Unit
Numbered n (c ∷ cs) = (c.ordinal ≡ n) × Numbered (n + 1) cs

-- chunks from the ordinal `n` on
record Chunked (max_chars max_chunks n : ℕ) (cs : List Chunk) : Type 0 where
  numbered : Numbered n cs
  counted : n + length cs ≤ max_chunks
  shaped : All (Shaped max_chars) cs

place-Chunked :
    (max_chars max_chunks : ℕ) (section : Text) (n : ℕ) (spans : List Text) (rest : ℕ → List Chunk)
    → All (Fits max_chars) spans
    → ((m : ℕ) → m ≤ max_chunks → Chunked max_chars max_chunks m (rest m))
    → n ≤ max_chunks
    → Chunked max_chars max_chunks n (place max_chunks section n spans rest)
unfolding place
place-Chunked max_chars max_chunks section n [] rest f r h = r n h
place-Chunked max_chars max_chunks section n (s ∷ spans) rest f r h =
    elim (Bool-cases (leb max_chunks n)) [
      | inl e ↦ rw e (record { numbered = tt; counted = omega arith; shaped = tt })
      | inr e ↦
          let more =
            place-Chunked max_chars max_chunks section (n + 1) spans rest f.1 r (ground arith) in
          let counted_more = more.counted in
          rw e (record {
            numbered = (refl, more.numbered);
            counted = omega arith;
            shaped = ((s, refl, f.0), more.shaped);
          })
    ]

chunk_from-Chunked :
    (entry_break : Text → List Text) (max_chars min_chars max_chunks : ℕ)
    (sections : List (Text × Text)) (n : ℕ)
    → n ≤ max_chunks
    → Chunked max_chars max_chunks n
        (chunk_from entry_break max_chars min_chars max_chunks sections n)
unfolding chunk_from
chunk_from-Chunked entry_break max_chars min_chars max_chunks [] n h = record {
  numbered = tt;
  counted = omega arith;
  shaped = tt;
}
chunk_from-Chunked entry_break max_chars min_chars max_chunks ((section, body) ∷ sections) n h =
    let rest = chunk_from-Chunked entry_break max_chars min_chars max_chunks sections in
    elim (Bool-cases (is_empty (strip body))) [
      | inl e ↦ rw e (rest n h)
      | inr e ↦ rw e (
          place-Chunked max_chars max_chunks section n
            (spans_of entry_break max_chars min_chars body)
            (chunk_from entry_break max_chars min_chars max_chunks sections)
            (spans_of-Fits entry_break max_chars min_chars body) rest h)
    ]

-- A resume, however it is laid out, gives at most the maximum of chunks, numbered from 0 in their order,
-- each the name of its section before a span that fits the limit or is one line.
pub chunk_sections-bounds :
    (entry_break : Text → List Text) (max_chars min_chars max_chunks : ℕ)
    (sections : List (Text × Text))
    → Numbered 0 (chunk_sections entry_break max_chars min_chars max_chunks sections)
      × (length (chunk_sections entry_break max_chars min_chars max_chunks sections) ≤ max_chunks)
      × All (Shaped max_chars) (chunk_sections entry_break max_chars min_chars max_chunks sections)
unfolding chunk_sections
chunk_sections-bounds entry_break max_chars min_chars max_chunks sections =
    let chunked =
      chunk_from-Chunked entry_break max_chars min_chars max_chunks sections 0 (omega arith) in
    let counted = chunked.counted in (chunked.numbered, omega arith, chunked.shaped)

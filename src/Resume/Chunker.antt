-- ===== src/Resume/Chunker.antt =====
-- Cutting a parsed resume into chunks: app/modules/resume/chunker.py. `entry_break` is the split by the
-- pattern `_ENTRY_BREAK`; a section map is the list of its items.
pub mod Lines
pub mod Bounds
use ai_interviewer.Base.{
  ℕ, ◌+◌, Bool, not, ◌&&◌, List, [], ◌∷◌, ◌++◌, ltb, leb, ◌==◌, if◌then◌else◌,
}
use ai_interviewer.Base.Lists.{length, is_empty}
use ai_interviewer.Base.Text.{Text, strip}

pub record Chunk : Type 0 where
  pub ordinal : ℕ
  pub section : Text
  pub content : Text

-- `[part.strip() for part in parts if part and part.strip()]`
unfoldable pub strip_parts : List Text → List Text
strip_parts [] = []
strip_parts (p ∷ ps) =
    let rest = strip_parts ps in
    if not (is_empty p) && not (is_empty (strip p)) then strip p ∷ rest else rest

unfoldable pub split_entries : (Text → List Text) → Text → List Text
split_entries entry_break body = strip_parts (entry_break body)

-- a character before the first line
abbrev pub prepend : ℕ → List Text → List Text
prepend c [] = (c ∷ []) ∷ []
prepend c (l ∷ ls) = (c ∷ l) ∷ ls

-- `text.split("\n")`
unfoldable pub split_lines : Text → List Text
split_lines [] = [] ∷ []
split_lines (c ∷ s) = let rest = split_lines s in if c == 10 then [] ∷ rest else prepend c rest

-- `"\n".join(lines)`
unfoldable pub join_lines : List Text → Text
join_lines [] = []
join_lines (l ∷ []) = l
join_lines (l ∷ m ∷ ls) = l ++ 10 ∷ join_lines (m ∷ ls)

-- the loop over the lines, with `current` and `size`
unfoldable pub pack : ℕ → List Text → List Text → ℕ → List Text
pack limit [] current size = if is_empty current then [] else join_lines current ∷ []
pack limit (l ∷ ls) current size =
    let flushed = join_lines current ∷ pack limit ls (l ∷ []) (length l + 1) in
    let kept = pack limit ls (current ++ l ∷ []) (size + length l + 1) in
    if not (is_empty current) && ltb limit (size + length l + 1) then flushed else kept

unfoldable pub split_oversized : Text → ℕ → List Text
split_oversized text limit =
    if leb (length text) limit then text ∷ [] else pack limit (split_lines text) [] 0

-- the loop of `_merge_small`, with the last of the merged spans
unfoldable pub merge_into : ℕ → ℕ → Text → List Text → List Text
merge_into limit floor last [] = last ∷ []
merge_into limit floor last (span ∷ spans) =
    let folded = merge_into limit floor (last ++ 10 ∷ 10 ∷ span) spans in
    let kept = last ∷ merge_into limit floor span spans in
    if ltb (length span) floor && leb (length last + length span + 2) limit then folded else kept

unfoldable pub merge_small : ℕ → ℕ → List Text → List Text
merge_small limit floor [] = []
merge_small limit floor (span ∷ spans) = merge_into limit floor span spans

-- `[part for span in spans for part in _split_oversized(span, max_chars)]`
unfoldable pub size_spans : ℕ → List Text → List Text
size_spans max_chars [] = []
size_spans max_chars (span ∷ spans) = split_oversized span max_chars ++ size_spans max_chars spans

-- `f"[{section}] {span}"`
abbrev pub prefixed : Text → Text → Text
prefixed section span = 91 ∷ section ++ 93 ∷ 32 ∷ span

-- The chunks of a section from an ordinal on, before `rest`, which is given the next ordinal. Where the
-- source returns at the maximum, nothing more is added here either: the ordinal stays at the maximum.
unfoldable pub place : ℕ → Text → ℕ → List Text → (ℕ → List Chunk) → List Chunk
place max_chunks section ordinal [] rest = rest ordinal
place max_chunks section ordinal (span ∷ spans) rest =
    let more = place max_chunks section (ordinal + 1) spans rest in
    if leb max_chunks ordinal
    then []
    else record { ordinal = ordinal; section = section; content = prefixed section span } ∷ more

-- the spans of one section's body
unfoldable pub spans_of : (Text → List Text) → ℕ → ℕ → Text → List Text
spans_of entry_break max_chars min_chars body =
    merge_small max_chars min_chars (size_spans max_chars (split_entries entry_break body))

unfoldable pub chunk_from : (Text → List Text) → ℕ → ℕ → ℕ → List (Text × Text) → ℕ → List Chunk
chunk_from entry_break max_chars min_chars max_chunks [] ordinal = []
chunk_from entry_break max_chars min_chars max_chunks ((section, body) ∷ sections) ordinal =
    let rest = chunk_from entry_break max_chars min_chars max_chunks sections in
    if is_empty (strip body)
    then rest ordinal
    else place max_chunks section ordinal (spans_of entry_break max_chars min_chars body) rest

unfoldable pub chunk_sections : (Text → List Text) → ℕ → ℕ → ℕ → List (Text × Text) → List Chunk
chunk_sections entry_break max_chars min_chars max_chunks sections =
    chunk_from entry_break max_chars min_chars max_chunks sections 0

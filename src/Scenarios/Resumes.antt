-- ===== src/Scenarios/Resumes.antt =====
-- Scenarios of the chunker.
use ai_interviewer.Base.{◌≤◌, ◌≡◌, List, [], ◌∷◌, ◌++◌}
use ai_interviewer.Base.Lists.{length, All}
use ai_interviewer.Base.Text.{Text, codes}
use ai_interviewer.Resume.Chunker.{join_lines, split_lines, split_oversized, chunk_sections}
use ai_interviewer.Resume.Chunker.Lines.{split_oversized-join_lines}
use ai_interviewer.Resume.Chunker.Bounds.{Shaped, Numbered, chunk_sections-bounds}

-- two lines
abbrev span : Text
span = codes "built" ++ 10 ∷ codes "a queue"

split_oversized-join_lines_example : join_lines (split_oversized span 6) ≡ span
split_oversized-join_lines_example = split_oversized-join_lines span 6

abbrev sections : List (Text × Text)
sections = (codes "experience", span) ∷ (codes "skills", codes "sql") ∷ []

chunk_sections-bounds_example :
    Numbered 0 (chunk_sections split_lines 6 3 2 sections)
    × (length (chunk_sections split_lines 6 3 2 sections) ≤ 2)
    × All (Shaped 6) (chunk_sections split_lines 6 3 2 sections)
chunk_sections-bounds_example = chunk_sections-bounds split_lines 6 3 2 sections

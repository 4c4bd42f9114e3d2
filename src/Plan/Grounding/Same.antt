-- ===== src/Plan/Grounding/Same.antt =====
-- The equality of two criteria, as the model returned them.
use ai_interviewer.Base.{
  ◌≡◌, refl, true, false, not, Option, none, some, List, [], ◌∷◌, arith, eq_refl,
}
use ai_interviewer.Base.Lists.{All, length, some_of}
use ai_interviewer.Base.Text.{Text, text_eq_refl}
use ai_interviewer.Plan.Generator.{GeneratedCriterion}
use ai_interviewer.Plan.Grounding.{has_entry, option_eq, criterion_eq}

option_eq_refl : (o : Option Text) → option_eq o o ≡ true
unfolding option_eq
option_eq_refl none = refl
option_eq_refl (some s) = text_eq_refl s

has_entry-more :
    (d e : Text × Text) (ds : List (Text × Text))
    → has_entry ds e ≡ true
    → has_entry (d ∷ ds) e ≡ true
unfolding has_entry
has_entry-more d e ds h = ground arith

-- every entry of a part of a dictionary is in it
abbrev Entries : List (Text × Text) → List (Text × Text) → Type 0
Entries ds es = All (λ e. has_entry ds e ≡ true) es

Entries-more : (d : Text × Text) (ds es : List (Text × Text)) → Entries ds es → Entries (d ∷ ds) es
Entries-more d ds [] h = tt
Entries-more d ds (e ∷ es) (here, h) = (has_entry-more d e ds here, Entries-more d ds es h)

Entries-self : (ds : List (Text × Text)) → Entries ds ds
unfolding has_entry
Entries-self [] = tt
Entries-self ((k, v) ∷ ds) =
    (ground (arith, text_eq_refl k, text_eq_refl v), Entries-more (k, v) ds ds (Entries-self ds))

Entries-none :
    (ds es : List (Text × Text)) → Entries ds es → some_of (λ e. not (has_entry ds e)) es ≡ false
Entries-none ds [] h = refl
Entries-none ds (e ∷ es) (here, h) = ground (arith, Entries-none ds es h)

pub criterion_eq_refl : (c : GeneratedCriterion) → criterion_eq c c ≡ true
unfolding criterion_eq
criterion_eq_refl c = ground (
  arith,
  text_eq_refl c.name,
  option_eq_refl c.description,
  eq_refl c.weight,
  eq_refl (length c.descriptors),
  Entries-none c.descriptors c.descriptors (Entries-self c.descriptors),
)

pub criterion_eq-weight : (c d : GeneratedCriterion) → criterion_eq c d ≡ true → c.weight ≡ d.weight
unfolding criterion_eq
criterion_eq-weight c d h = ground arith

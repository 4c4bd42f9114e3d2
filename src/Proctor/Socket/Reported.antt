-- ===== src/Proctor/Socket/Reported.antt =====
-- Which messages the checks of the socket let through: those that report an observation.
use ai_interviewer.Base.{
  ℕ, ◌≤◌, ◌≡◌, refl, ap, true, Option, none, some, arith, leb, Bool-cases, Option-cases, inl, inr,
}
use ai_interviewer.Base.Lists.{length}
use ai_interviewer.Base.Text.{Text}
use ai_interviewer.Proctor.{EventType}
use ai_interviewer.Proctor.Collector.{Observation, parse_event_type}
use ai_interviewer.Proctor.Socket.{ClientEvent, model_validate, observation}
use ai_interviewer.Proctor.Socket.Heard.{Reports, evidence_key-event_is, parsed, parsed-named}

model_validate-fits :
    (e : ClientEvent)
    → length e.type_name ≤ 64
    → ((key : Text) → e.s3_key ≡ some key → length key ≤ 512)
    → model_validate (some e) ≡ some e
unfolding model_validate
model_validate-fits e short keys =
    let name : leb (length e.type_name) 64 ≡ true = ground arith in
    elim (Option-cases e.s3_key) [
      | inl no_key ↦ rw (model_validate, no_key, name) refl
      | inr (key, there) ↦
          let fits : leb (length key) 512 ≡ true = ground (arith, keys key there) in
          rw (model_validate, there, name, fits) refl
    ]

validated :
    (m : Option ClientEvent) (e : ClientEvent)
    → model_validate m ≡ some e
    → (m ≡ some e)
      × (length e.type_name ≤ 64)
      × ((key : Text) → e.s3_key ≡ some key → length key ≤ 512)
unfolding model_validate
validated none e h = absurd (ground arith)
validated (some f) e h = elim (Bool-cases (leb (length f.type_name) 64)) [
  | inr long ↦ absurd (ground arith)
  | inl name ↦
      let same : f ≡ e = ground arith in
      (ap some same, rw (← same) (ground arith), rw (← same) (λ key there. ground arith))
]

pub unfit :
    (upper : Text → Text) (now : ℕ) (m : Option ClientEvent)
    → model_validate m ≡ none
    → (e : ClientEvent) (o : Observation) → m ≡ some e
    → ¬ Reports upper now e o
unfit upper now m h e o same r =
    let fits = model_validate-fits e r.short r.short_key in
    absurd (ground (arith, fits, ap model_validate same))

pub unknown :
    (upper : Text → Text) (now : ℕ) (m : Option ClientEvent) (f : ClientEvent)
    → model_validate m ≡ some f
    → parse_event_type upper (some f.type_name) ≡ none
    → (e : ClientEvent) (o : Observation) → m ≡ some e
    → ¬ Reports upper now e o
unknown upper now m f h p e o same r =
    let (own, _, _) = validated m f h in
    let one : f ≡ e = ground arith in
    let known = parsed-named upper e.type_name o.event_type r.named r.reportable in
    let p' : parse_event_type upper (some e.type_name) ≡ none = rw one at p in absurd (ground arith)

pub reported :
    (upper : Text → Text) (now : ℕ) (m : Option ClientEvent) (e : ClientEvent) (t : EventType)
    → model_validate m ≡ some e
    → parse_event_type upper (some e.type_name) ≡ some t
    → (m ≡ some e) × Reports upper now e (observation now t e)
unfolding observation
reported upper now m e t h p =
    let (own, short, keys) = validated m e h in
    let (named, good) = parsed upper e.type_name t p in
    (
      own,
      record {
        short = short;
        short_key = keys;
        named = named;
        reportable = good;
        at = refl;
        offset_ms = refl;
        payload = refl;
        s3_key = evidence_key-event_is t e.s3_key;
        severity = refl;
      },
    )

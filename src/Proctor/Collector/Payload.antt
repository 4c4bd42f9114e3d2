-- ===== src/Proctor/Collector/Payload.antt =====
-- What of a client's payload is stored: `_clean_payload` of app/modules/proctoring/collector.py.
use ai_interviewer.Base.{
  ℕ, suc, ◌+◌, ◌≤◌, Option, none, some, List, [], ◌∷◌, arith, Bool-cases, inl, inr, zero,
}
use ai_interviewer.Base.Lists.{length, take, All}
use ai_interviewer.Base.Text.{Text, text_eq}
use ai_interviewer.Proctor.Collector.{put_entry, clean_entries, clean_payload}

abbrev pub IsShort : Text × Text → Type 0
IsShort (k, v) = (length k ≤ 64) × (length v ≤ 500)

length-take-le {ℓ} : {A : Type ℓ} (n : ℕ) (xs : List A) → length (take n xs) ≤ n
length-take-le zero xs = omega arith
length-take-le (suc n) [] = omega arith
length-take-le (suc n) (x ∷ xs) = omega (arith, length-take-le n xs)

put_entry-length : (k v : Text) (d : List (Text × Text)) → length (put_entry k v d) ≤ length d + 1
unfolding put_entry
put_entry-length k v [] = omega arith
put_entry-length k v (e ∷ d) = ground (arith, put_entry-length k v d)

put_entry-IsShort :
    (k v : Text) (d : List (Text × Text))
    → length k ≤ 64
    → length v ≤ 500
    → All IsShort d
    → All IsShort (put_entry k v d)
unfolding put_entry
put_entry-IsShort k v [] hk hv h = ((hk, hv), tt)
put_entry-IsShort k v ((j, u) ∷ d) hk hv h = elim (Bool-cases (text_eq j k)) [
  | inl e ↦ rw e ((h.0.0, hv), h.1)
  | inr n ↦ rw n (h.0, put_entry-IsShort k v d hk hv h.1)
]

clean_entries-length :
    (raw d : List (Text × Text)) → length (clean_entries raw d) ≤ length raw + length d
unfolding clean_entries
clean_entries-length [] d = omega arith
clean_entries-length ((k, v) ∷ raw) d = omega (
  arith,
  clean_entries-length raw (put_entry (take 64 k) (take 500 v) d),
  put_entry-length (take 64 k) (take 500 v) d,
)

clean_entries-IsShort :
    (raw d : List (Text × Text)) → All IsShort d → All IsShort (clean_entries raw d)
unfolding clean_entries
clean_entries-IsShort [] d h = h
clean_entries-IsShort ((k, v) ∷ raw) d h =
    clean_entries-IsShort raw (put_entry (take 64 k) (take 500 v) d)
      (put_entry-IsShort (take 64 k) (take 500 v) d (length-take-le 64 k) (length-take-le 500 v) h)

-- Whatever the client sends, the payload that is stored has at most twelve entries, keys of at most 64
-- characters and values of at most 500.
pub clean_payload_bounded :
    (raw : Option (List (Text × Text)))
    → (length (clean_payload raw) ≤ 12) × All IsShort (clean_payload raw)
unfolding clean_payload
clean_payload_bounded none = (omega arith, tt)
clean_payload_bounded (some items) = (
  omega (arith, clean_entries-length (take 12 items) [], length-take-le 12 items),
  clean_entries-IsShort (take 12 items) [] tt,
)

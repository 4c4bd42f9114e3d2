-- ===== src/Auth/Invites/Limit.antt =====
-- Sequences of requests on an invite link: `redeem_invite` and `revoke_invite` of
-- app/modules/auth/invites.py.
use mathlib.Core.Path.{subst}
use mathlib.Core.Option.{some-injective}
use ai_interviewer.Base.{
  eqb→eq, ℕ, ◌+◌, ◌≤◌, ◌≡◌, refl, sym, ◌∙◌, true, false, Option, none, some, List, [], ◌∷◌, arith,
  ok, err, ◌==◌, if◌then◌else◌, Bool-cases, Option-cases, inl, inr, is_none,
}
use ai_interviewer.Base.Rows.{find, replace, find-key, find-replace_self, find-replace_ne}
use ai_interviewer.Auth.Invites.{
  Invite, Tables, invite_key, is_redeemable, redeem_row, RedeemedInvite, redeem_invite, revoke_row,
  revoke_invite, has_ended,
}

-- a request, with the clock's reading
pub data Request : Type 0 where
  redeeming : ℕ → Option (ℕ × ℕ) → Request
  revoking : ℕ → ℕ → Request

-- the rows after the request: those of before where it raised
unfoldable pub serve : Request → Tables → Tables
serve (redeeming now token) t = elim (redeem_invite now token t) [ ok (_, t') ↦ t' | err _ ↦ t ]
serve (revoking now k) t = elim (revoke_invite now k t) [ ok t' ↦ t' | err _ ↦ t ]

-- 1 where the request redeems the invite
unfoldable pub redeems : ℕ → Request → Tables → ℕ
redeems k (redeeming now token) t = elim (redeem_invite now token t) [
  | ok (r, _) ↦ if r.invite_id == k then 1 else 0
  | err _ ↦ 0
]
redeems k (revoking _ _) t = 0

-- how often a sequence of requests redeems the invite
unfoldable pub redemptions : ℕ → List Request → Tables → ℕ
redemptions k [] t = 0
redemptions k (q ∷ qs) t = redeems k q t + redemptions k qs (serve q t)

-- What a request does to an invite that is there, as `n` redemptions of it.
record Kept (n : ℕ) (before after : Invite) : Type 0 where
  limit : after.max_redemptions ≡ before.max_redemptions
  counted : after.redemption_count ≡ before.redemption_count + n
  within :
      before.redemption_count ≤ before.max_redemptions
      → after.redemption_count ≤ after.max_redemptions
  stays_revoked : is_none before.revoked_at ≡ false → (is_none after.revoked_at ≡ false) × (n ≡ 0)

Kept-same : (i : Invite) → Kept 0 i i
Kept-same i = record {
  limit = refl;
  counted = omega arith;
  within = λ h. h;
  stays_revoked = λ h. (h, refl);
}

Kept-redeem :
    (now jti : ℕ) (i : Invite) → is_redeemable now jti i ≡ true → Kept 1 i (redeem_row now i)
unfolding is_redeemable redeem_row
Kept-redeem now jti i h = record {
  limit = refl;
  counted = refl;
  within = λ _. ground arith;
  stays_revoked = λ r. absurd (ground arith);
}

Kept-revoke : (now : ℕ) (i : Invite) → Kept 0 i (revoke_row now i)
unfolding revoke_row
Kept-revoke now i = record {
  limit = refl;
  counted = omega arith;
  within = λ h. h;
  stays_revoked = λ _. (refl, refl);
}

redeem_invite-ok :
    (now id jti : ℕ) (t : Tables) (r : RedeemedInvite) (t' : Tables)
    → redeem_invite now (some (id, jti)) t ≡ ok (r, t')
    → (i : Invite) × (find invite_key id t.invites ≡ some i)
      × (is_redeemable now jti i ≡ true)
      × (r.invite_id ≡ i.id)
      × (t'.invites ≡ replace invite_key (redeem_row now i) t.invites)
unfolding redeem_invite
redeem_invite-ok now id jti t r t' h = elim (Option-cases (find invite_key id t.invites)) [
  | inl absent ↦ absurd (ground arith)
  | inr (i, found) ↦ (i, found, ground arith, ground arith, ground arith)
]

-- writing back the row of an invite that was found
put-Kept :
    (k id n : ℕ) (old new i : Invite) (rows : List Invite)
    → find invite_key id rows ≡ some old
    → new.id ≡ old.id
    → Kept n old new
    → find invite_key k rows ≡ some i
    → (j : Invite) × (find invite_key k (replace invite_key new rows) ≡ some j)
      × Kept (if old.id == k then n else 0) i j
put-Kept k id n old new i rows f same kept g = elim (Bool-cases (old.id == k)) [
  | inl e ↦
      let at_k = eqb→eq old.id k e in
      let id_k = sym (find-key invite_key id old rows f) ∙ at_k in
      let found = subst (λ x. find invite_key x rows ≡ some old) id_k f in
      rw e (
        new,
        find-replace_self invite_key k new i rows (same ∙ at_k) g,
        subst (λ x. Kept n x new) (some-injective old i (sym found ∙ g)) kept,
      )
  | inr e ↦ rw e (
    i,
    find-replace_ne invite_key k new rows (λ h. absurd (ground (arith, same, h))) ∙ g,
    Kept-same i,
  )
]

redeem_row-id : (now : ℕ) (i : Invite) → (redeem_row now i).id ≡ i.id
unfolding redeem_row
redeem_row-id now i = refl

revoke_row-id : (now : ℕ) (i : Invite) → (revoke_row now i).id ≡ i.id
unfolding revoke_row
revoke_row-id now i = refl

serve-Kept :
    (k : ℕ) (q : Request) (t : Tables) (i : Invite)
    → find invite_key k t.invites ≡ some i
    → (j : Invite) × (find invite_key k (serve q t).invites ≡ some j) × Kept (redeems k q t) i j
unfolding serve redeems redeem_invite revoke_invite
serve-Kept k (redeeming now none) t i f = (i, f, Kept-same i)
serve-Kept k (redeeming now (some (id, jti))) t i f =
    elim (Option-cases (find invite_key id t.invites)) [
      | inl absent ↦ rw (serve, redeems, absent) (i, f, Kept-same i)
      | inr (old, found) ↦
          rw (serve, redeems, found)
            (elim (Bool-cases (is_redeemable now jti old)) [
              | inr refused ↦ rw refused (i, f, Kept-same i)
              | inl open_now ↦
                  rw open_now (elim (Bool-cases (has_ended old.interview_id t.interviews)) [
                    | inl ended ↦ rw ended (i, f, Kept-same i)
                    | inr live ↦ rw live (
                        put-Kept k id 1 old (redeem_row now old) i t.invites found
                          (redeem_row-id now old) (Kept-redeem now jti old open_now) f)
                  ])
            ])
    ]
serve-Kept k (revoking now id) t i f = elim (Option-cases (find invite_key id t.invites)) [
  | inl absent ↦ rw (serve, redeems, absent) (i, f, Kept-same i)
  | inr (old, found) ↦
      let (j, kept_at, kept) =
        put-Kept k id 0 old (revoke_row now old) i t.invites found (revoke_row-id now old)
          (Kept-revoke now old) f in
      rw (serve, redeems, found) (j, kept_at, subst (λ n. Kept n i j) (ground arith) kept)
]

-- A link is redeemed no more often than it may be: over any sequence of requests, of this link and of
-- others, the redemptions of an invite and those that were counted before add up to at most its maximum.
pub redeemed-at_most :
    (k : ℕ) (qs : List Request) (t : Tables) (i : Invite)
    → find invite_key k t.invites ≡ some i
    → i.redemption_count ≤ i.max_redemptions
    → i.redemption_count + redemptions k qs t ≤ i.max_redemptions
unfolding redemptions
redeemed-at_most k [] t i f h = omega arith
redeemed-at_most k (q ∷ qs) t i f h =
    let (j, found, kept) = serve-Kept k q t i f in
    omega
      (arith, redeemed-at_most k qs (serve q t) j found (kept.within h), kept.limit, kept.counted)

-- A link that was revoked is never redeemed again, whatever requests arrive.
pub revoked-never :
    (k : ℕ) (qs : List Request) (t : Tables) (i : Invite)
    → find invite_key k t.invites ≡ some i
    → is_none i.revoked_at ≡ false
    → redemptions k qs t ≡ 0
unfolding redemptions
revoked-never k [] t i f h = refl
revoked-never k (q ∷ qs) t i f h =
    let (j, found, kept) = serve-Kept k q t i f in
    let (still, none_now) = kept.stays_revoked h in
    omega (arith, revoked-never k qs (serve q t) j found still, none_now)

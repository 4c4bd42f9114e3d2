-- ===== src/Auth/Tokens/Replay.antt =====
-- Sequences of calls after a refresh token was consumed: app/modules/auth/tokens.py.
use mathlib.Core.Path.{subst}
use ai_interviewer.Base.{
  ℕ, ◌≡◌, refl, ap, true, false, not, ◌||◌, Option, none, some, List, [], ◌∷◌, arith, ◌==◌,
  Bool-cases, Option-cases, inl, inr, eq_refl,
}
use ai_interviewer.Base.Lists.{All, contains}
use ai_interviewer.Base.Rows.{find, find-key}
use ai_interviewer.Auth.Tokens.{
  Token, token_key, RefreshTokenStore, dead, is_ok, members_of, put_token, register, purge, judge,
  consume, revoke_family, revoke_each, revoke_all_for_user,
}
use ai_interviewer.Auth.Tokens.Spent.{
  Call, call, calls, mints, spent_record, is_spent, calls-spent, find-put_self, registering,
  consuming, revoking, revoking_all,
}

-- a dead family stays dead
abbrev pub Dead : ℕ → RefreshTokenStore → Type 0
Dead fam s = contains fam s.dead ≡ true

revoke_each-Dead :
    (fam : ℕ) (fams : List ℕ) (s : RefreshTokenStore) → Dead fam s → Dead fam (revoke_each fams s)
unfolding revoke_each revoke_family purge
revoke_each-Dead fam [] s h = h
revoke_each-Dead fam (f ∷ fams) s h = revoke_each-Dead fam fams (revoke_family f s) (ground arith)

judge-Dead :
    (k user fam : ℕ) (o : Option Token) (s : RefreshTokenStore)
    → Dead k s
    → Dead k (judge user fam o s).1
unfolding judge purge
judge-Dead k user fam none s h = ground arith
judge-Dead k user fam (some t) s h = ground arith

call-Dead : (fam : ℕ) (c : Call) (s : RefreshTokenStore) → Dead fam s → Dead fam (call c s)
unfolding call consume revoke_all_for_user register revoke_family purge
call-Dead fam (registering k user org f) s h = h
call-Dead fam (consuming k user f) s h =
    ground (arith, judge-Dead fam user f (find token_key k s.tokens) s h)
call-Dead fam (revoking f) s h = ground arith
call-Dead fam (revoking_all user) s h = revoke_each-Dead fam (members_of user s.families) s h

calls-Dead : (fam : ℕ) (cs : List Call) (s : RefreshTokenStore) → Dead fam s → Dead fam (calls cs s)
unfolding calls
calls-Dead fam [] s h = h
calls-Dead fam (c ∷ cs) s h = calls-Dead fam cs (call c s) (call-Dead fam c s h)

judge-rejected :
    (user fam : ℕ) (o : Option Token) (s : RefreshTokenStore)
    → is_ok (judge user fam o s).0 ≡ false
    → Dead fam (judge user fam o s).1
unfolding judge is_ok purge
judge-rejected user fam none s h = ground (arith, eq_refl fam)
judge-rejected user fam (some t) s h = ground (arith, eq_refl fam)

pub rejected-Dead :
    (jti user fam : ℕ) (s : RefreshTokenStore)
    → is_ok (consume jti user fam s).0 ≡ false
    → Dead fam (consume jti user fam s).1
unfolding consume is_ok
rejected-Dead jti user fam s h =
    ground (arith, judge-rejected user fam (find token_key jti s.tokens) s)

pub spent-rejected :
    (jti user fam : ℕ) (s : RefreshTokenStore)
    → is_spent jti s ≡ true
    → is_ok (consume jti user fam s).0 ≡ false
unfolding consume is_ok judge
spent-rejected jti user fam s h = ground arith

pub accepted-spent :
    (jti user fam : ℕ) (s : RefreshTokenStore)
    → is_ok (consume jti user fam s).0 ≡ true
    → is_spent jti (consume jti user fam s).1 ≡ true
unfolding consume is_ok judge
accepted-spent jti user fam s h = elim (Option-cases (find token_key jti s.tokens)) [
  | inl e ↦ absurd (ground arith)
  | inr (t, e) ↦
      let used = find-put_self (record t { active = false }) s.tokens in
      let key = find-key token_key jti t s.tokens e in
      elim (Bool-cases (contains fam s.dead)) [
        | inl d ↦ absurd (ground arith)
        | inr d ↦ elim (Bool-cases (not (t.uid == user) || not (t.fam == fam))) [
          | inl m ↦ absurd (ground arith)
          | inr m ↦ elim (Bool-cases t.active) [
            | inl a ↦
                simp (d, e, m, a)
                  (subst
                    (λ j.
                      spent_record
                        (find token_key j (put_token (record t { active = false }) s.tokens))
                      ≡ true)
                    key (ap spent_record used))
            | inr a ↦ absurd (ground arith)
          ]
        ]
      ]
]

pub consume-dead :
    (k user fam : ℕ) (s : RefreshTokenStore) → Dead fam s → (consume k user fam s).0 ≡ dead
unfolding consume
consume-dead k user fam s h = rw h refl

-- A refresh token is good once, and a replay ends its family: after a token was accepted, whatever calls
-- come between that do not mint it again, a second use is refused; and whatever calls come after that,
-- every token of the family that the second use named is refused as dead.
pub consumed_once :
    (jti user fam user' fam' : ℕ) (between after : List Call) (s : RefreshTokenStore)
    → is_ok (consume jti user fam s).0 ≡ true
    → All (λ c. mints jti c ≡ false) between
    → (is_ok (consume jti user' fam' (calls between (consume jti user fam s).1)).0 ≡ false)
      × ((k anyone : ℕ)
          → (consume k anyone fam'
              (calls after (consume jti user' fam' (calls between (consume jti user fam s).1)).1)).0
            ≡ dead)
consumed_once jti user fam user' fam' between after s h m =
    let s' = calls between (consume jti user fam s).1 in
    let refused =
      spent-rejected jti user' fam' s'
        (calls-spent jti between (consume jti user fam s).1 m (accepted-spent jti user fam s h)) in
    (
      refused,
      λ k anyone. consume-dead k anyone fam' (calls after (consume jti user' fam' s').1) (
          calls-Dead fam' after (consume jti user' fam' s').1
            (rejected-Dead jti user' fam' s' refused)),
    )

pub Dead-revoked : (fam : ℕ) (s : RefreshTokenStore) → Dead fam (revoke_family fam s)
unfolding revoke_family purge
Dead-revoked fam s = ground (arith, eq_refl fam)

-- Logging out is final: after a family was revoked, whatever calls come after, every use of a token of
-- it is refused as dead.
pub revoked_for_good :
    (jti user fam : ℕ) (after : List Call) (s : RefreshTokenStore)
    → (consume jti user fam (calls after (revoke_family fam s))).0 ≡ dead
revoked_for_good jti user fam after s =
    consume-dead jti user fam (calls after (revoke_family fam s))
      (calls-Dead fam after (revoke_family fam s) (Dead-revoked fam s))

-- ===== src/Auth/Tokens/Spent.antt =====
-- Interleavings of calls on the store of refresh tokens, and the record of one token through them.

use ai_interviewer.Base.{
  eqb→eq, ℕ, ◌≡◌, refl, sym, ◌∙◌, ap, ◌≢◌, Bool, true, false, not, ◌||◌, Option, none, some, List,
  [], ◌∷◌, arith, ◌==◌, if◌then◌else◌, Bool-cases, inl, inr, eq_refl,
}
use ai_interviewer.Base.Lists.{All, contains, keep}
use ai_interviewer.Base.Rows.{find}
use ai_interviewer.Auth.Tokens.{
  Token, token_key, RefreshTokenStore, members_of, put_token, register, tombstone, purge, judge,
  consume, revoke_family, revoke_each, revoke_all_for_user,
}

-- One atomic call on the store.
pub data Call : Type 0 where
  registering : ℕ → ℕ → ℕ → ℕ → Call
  consuming : ℕ → ℕ → ℕ → Call
  revoking : ℕ → Call
  revoking_all : ℕ → Call

unfoldable pub call : Call → RefreshTokenStore → RefreshTokenStore
call (registering jti user org fam) s = register jti user org fam s
call (consuming jti user fam) s = (consume jti user fam s).1
call (revoking fam) s = revoke_family fam s
call (revoking_all user) s = (revoke_all_for_user user s).0

-- an interleaving of the calls of all clients
unfoldable pub calls : List Call → RefreshTokenStore → RefreshTokenStore
calls [] s = s
calls (c ∷ cs) s = calls cs (call c s)

-- the call does not mint the token again
abbrev pub mints : ℕ → Call → Bool
mints jti (registering j _ _ _) = j == jti
mints jti _ = false

-- the token is not there, or it is used
abbrev pub spent_record : Option Token → Bool
spent_record none = true
spent_record (some t) = not t.active

abbrev pub is_spent : ℕ → RefreshTokenStore → Bool
is_spent jti s = spent_record (find token_key jti s.tokens)

pub find-put_ne :
    (k : ℕ) (t : Token) (ts : List Token)
    → t.jti ≢ k
    → find token_key k (put_token t ts) ≡ find token_key k ts
unfolding find put_token
find-put_ne k t [] h = ground arith
find-put_ne k t (s ∷ ts) h = ground (arith, find-put_ne k t ts h)

pub find-put_self : (t : Token) (ts : List Token) → find token_key t.jti (put_token t ts) ≡ some t
unfolding find put_token
find-put_self t [] = simp (eq_refl t.jti) refl
find-put_self t (s ∷ ts) = ground (arith, find-put_self t ts, eq_refl t.jti)

pub find-keep :
    (k : ℕ) (test : ℕ → Bool) (ts : List Token)
    → find token_key k (keep (λ t. test t.jti) ts) ≡ (if test k then find token_key k ts else none)
unfolding find
find-keep k test [] = ground arith
find-keep k test (t ∷ ts) = elim (Bool-cases (test t.jti)) [
  | inl kept ↦ elim (Bool-cases (t.jti == k)) [
    | inl e ↦ rw (kept, sym (ap test (eqb→eq t.jti k e)), kept, e) refl
    | inr e ↦ rw (kept, e) (find-keep k test ts)
  ]
  | inr dropped ↦ elim (Bool-cases (t.jti == k)) [
    | inl e ↦
        let gone = sym (ap test (eqb→eq t.jti k e)) ∙ dropped in
        rw dropped (find-keep k test ts ∙ rw gone refl)
    | inr e ↦ rw (dropped, e) (find-keep k test ts)
  ]
]

-- every call leaves a spent token spent, unless it mints it again
register-spent :
    (jti k user org fam : ℕ) (s : RefreshTokenStore)
    → k ≢ jti
    → is_spent jti s ≡ true
    → is_spent jti (register k user org fam s) ≡ true
unfolding register
register-spent jti k user org fam s n h = ground (
  arith,
  find-put_ne jti (record { jti = k; uid = user; org = org; fam = fam; active = true }) s.tokens n,
)

purge-spent :
    (jti fam : ℕ) (s : RefreshTokenStore)
    → is_spent jti s ≡ true
    → is_spent jti (purge fam s) ≡ true
unfolding purge
purge-spent jti fam s h =
    ground (arith, find-keep jti (λ j. not (contains j (members_of fam s.members))) s.tokens)

revoke_family-spent :
    (jti fam : ℕ) (s : RefreshTokenStore)
    → is_spent jti s ≡ true
    → is_spent jti (revoke_family fam s) ≡ true
unfolding revoke_family
revoke_family-spent jti fam s h = purge-spent jti fam (tombstone fam s) h

revoke_each-spent :
    (jti : ℕ) (fams : List ℕ) (s : RefreshTokenStore)
    → is_spent jti s ≡ true
    → is_spent jti (revoke_each fams s) ≡ true
unfolding revoke_each
revoke_each-spent jti [] s h = h
revoke_each-spent jti (f ∷ fams) s h =
    revoke_each-spent jti fams (revoke_family f s) (revoke_family-spent jti f s h)

-- using a token up
use_up-spent :
    (jti : ℕ) (t : Token) (s : RefreshTokenStore)
    → is_spent jti s ≡ true
    → is_spent jti (record s { tokens = put_token (record t { active = false }) s.tokens }) ≡ true
use_up-spent jti t s h = elim (Bool-cases (t.jti == jti)) [
  | inl e ↦
      let same = eqb→eq t.jti jti e in
      rw (sym same) (ap spent_record (find-put_self (record t { active = false }) s.tokens))
  | inr e ↦ rw (find-put_ne jti (record t { active = false }) s.tokens (ground arith)) h
]

judge-spent :
    (jti user fam : ℕ) (o : Option Token) (s : RefreshTokenStore)
    → is_spent jti s ≡ true
    → is_spent jti (judge user fam o s).1 ≡ true
unfolding judge
judge-spent jti user fam none s h = h
judge-spent jti user fam (some t) s h =
    elim (Bool-cases (not (t.uid == user) || not (t.fam == fam))) [
      | inl e ↦ rw e h
      | inr e ↦ elim (Bool-cases t.active) [
        | inl a ↦ simp (e, a) (use_up-spent jti t s h)
        | inr a ↦ simp (e, a) (purge-spent jti fam (tombstone fam s) h)
      ]
    ]

consume-spent :
    (jti k user fam : ℕ) (s : RefreshTokenStore)
    → is_spent jti s ≡ true
    → is_spent jti (consume k user fam s).1 ≡ true
unfolding consume
consume-spent jti k user fam s h = elim (Bool-cases (contains fam s.dead)) [
  | inl e ↦ rw e h
  | inr e ↦ rw e (judge-spent jti user fam (find token_key k s.tokens) s h)
]

call-spent :
    (jti : ℕ) (c : Call) (s : RefreshTokenStore)
    → mints jti c ≡ false
    → is_spent jti s ≡ true
    → is_spent jti (call c s) ≡ true
unfolding call revoke_all_for_user
call-spent jti (registering k user org fam) s m h =
    register-spent jti k user org fam s (ground arith) h
call-spent jti (consuming k user fam) s m h = consume-spent jti k user fam s h
call-spent jti (revoking fam) s m h = revoke_family-spent jti fam s h
call-spent jti (revoking_all user) s m h = revoke_each-spent jti (members_of user s.families) s h

pub calls-spent :
    (jti : ℕ) (cs : List Call) (s : RefreshTokenStore)
    → All (λ c. mints jti c ≡ false) cs
    → is_spent jti s ≡ true
    → is_spent jti (calls cs s) ≡ true
unfolding calls
calls-spent jti [] s m h = h
calls-spent jti (c ∷ cs) s m h = calls-spent jti cs (call c s) m.1 (call-spent jti c s m.0 h)

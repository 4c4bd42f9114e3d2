-- ===== src/Auth/Sessions.antt =====
-- Login, rotation and logout: app/modules/auth/service.py. The lookup of a user, the check of a password
-- and the decoding of a token are arguments; what a token holds is its claims.
use mathlib.Core.Logic.{◌↔◌}
use ai_interviewer.Base.{
  ℕ, ◌≡◌, refl, ◌⊎◌, inl, inr, Bool, true, false, not, Option, none, some, arith, Result, ok, err,
  if◌then◌else◌, Bool-cases, Option-cases, eq_refl,
}
use ai_interviewer.Base.Lists.{contains}
use ai_interviewer.Base.Rows.{find}
use ai_interviewer.Base.Text.{Text}
use ai_interviewer.Auth.Tokens.{
  Token, token_key, RefreshTokenStore, is_ok, register, consume, judge, revoke_family,
  revoke_all_for_user,
}
use ai_interviewer.Auth.Tokens.Spent.{find-put_self}
use ai_interviewer.Auth.Tokens.Replay.{Dead, rejected-Dead, Dead-revoked}

pub data Role : Type 0 where
  admin recruiter : Role

-- the columns of `app.lookup_user_for_auth`
pub record UserRow : Type 0 where
  pub id : ℕ
  pub org_id : ℕ
  pub hashed_password : Text
  pub role : Role
  pub is_active : Bool
  pub org_active : Bool

pub record AuthenticatedUser : Type 0 where
  pub user_id : ℕ
  pub org_id : ℕ
  pub role : Role

-- `InvalidCredentialsError`, with the reason that is logged
pub data InvalidCredentials : Type 0 where
  unknown_email bad_password user_inactive org_inactive : InvalidCredentials

-- `authenticate`, up to the writes that follow a login; `matches` is `verify_and_upgrade`
unfoldable pub authenticate :
    (Text → Option UserRow)
    → (Text → Text → Bool)
    → Text
    → Text
    → Result InvalidCredentials AuthenticatedUser
authenticate lookup matches email password = elim (lookup email) [
  | none ↦ err unknown_email
  | some row ↦
      if not (matches password row.hashed_password)
      then err bad_password
      else if not row.is_active
      then err user_inactive
      else if not row.org_active
      then err org_inactive
      else ok (record { user_id = row.id; org_id = row.org_id; role = row.role })
]

-- the claims of a refresh token
pub record RefreshClaims : Type 0 where
  pub jti : ℕ
  pub user_id : ℕ
  pub org_id : ℕ
  pub family_id : ℕ

-- what the two tokens of a pair say
pub record TokenPair : Type 0 where
  pub access : AuthenticatedUser
  pub refresh : RefreshClaims

-- `issue_token_pair`; `jti` is the identity that is drawn for the refresh token
unfoldable pub issue_token_pair :
    AuthenticatedUser → ℕ → ℕ → RefreshTokenStore → TokenPair × RefreshTokenStore
issue_token_pair principal family jti s = (
  record {
    access = principal;
    refresh = record {
      jti = jti;
      user_id = principal.user_id;
      org_id = principal.org_id;
      family_id = family;
    };
  },
  register jti principal.user_id principal.org_id family s,
)

pub data TokenError : Type 0 where
  invalid_token : TokenError

abbrev principal_of : RefreshClaims → Role → AuthenticatedUser
principal_of claims role = record { user_id = claims.user_id; org_id = claims.org_id; role = role }

-- the second half of `rotate_refresh`, of the user that the session finds
unfoldable pub renew :
    Option UserRow
    → ℕ
    → RefreshClaims
    → RefreshTokenStore
    → Result TokenError TokenPair × RefreshTokenStore
renew none jti claims s = (err invalid_token, revoke_family claims.family_id s)
renew (some user) jti claims s =
    let issued = issue_token_pair (principal_of claims user.role) claims.family_id jti s in
    if not user.is_active
    then (err invalid_token, revoke_family claims.family_id s)
    else (ok issued.0, issued.1)

-- `rotate_refresh`: the store is Redis, which no exception rolls back
unfoldable pub rotate_refresh :
    (ℕ → Option UserRow)
    → ℕ
    → Option RefreshClaims
    → RefreshTokenStore
    → Result TokenError TokenPair × RefreshTokenStore
rotate_refresh users jti none s = (err invalid_token, s)
rotate_refresh users jti (some claims) s =
    let (outcome, consumed) = consume claims.jti claims.user_id claims.family_id s in
    if not (is_ok outcome)
    then (err invalid_token, consumed)
    else renew (users claims.user_id) jti claims consumed

unfoldable pub logout : Option RefreshClaims → RefreshTokenStore → RefreshTokenStore
logout none s = s
logout (some claims) s = revoke_family claims.family_id s

unfoldable pub logout_all : ℕ → RefreshTokenStore → RefreshTokenStore × ℕ
logout_all user_id s = revoke_all_for_user user_id s

-- A login succeeds exactly for a registered address, its password, and a user and an organisation that
-- are both active.
pub authenticate-ok :
    (lookup : Text → Option UserRow) (matches : Text → Text → Bool) (email password : Text)
    → ((p : AuthenticatedUser) × (authenticate lookup matches email password ≡ ok p)) ↔ (
        (row : UserRow) × (lookup email ≡ some row)
        × (matches password row.hashed_password ≡ true)
        × (row.is_active ≡ true)
        × (row.org_active ≡ true))
unfolding authenticate
authenticate-ok lookup matches email password = (
  λ (p, e). elim (Option-cases (lookup email)) [
    | inl absent ↦ absurd (ground arith)
    | inr (row, found) ↦ (row, found, ground arith, ground arith, ground arith)
  ],
  λ (row, found, matched, active, org).
      (record { user_id = row.id; org_id = row.org_id; role = row.role }, ground arith),
)

judge-accepted-alive :
    (user fam : ℕ) (o : Option Token) (s : RefreshTokenStore)
    → contains fam s.dead ≡ false
    → is_ok (judge user fam o s).0 ≡ true
    → contains fam (judge user fam o s).1.dead ≡ false
unfolding judge is_ok
judge-accepted-alive user fam none s a h = cc
judge-accepted-alive user fam (some t) s a h = ground arith

accepted-alive :
    (jti user fam : ℕ) (s : RefreshTokenStore)
    → is_ok (consume jti user fam s).0 ≡ true
    → contains fam (consume jti user fam s).1.dead ≡ false
unfolding consume is_ok
accepted-alive jti user fam s h =
    ground (arith, judge-accepted-alive user fam (find token_key jti s.tokens) s)

-- the record of a token that was just registered
abbrev fresh : ℕ → ℕ → ℕ → ℕ → Token
fresh jti user org fam = record { jti = jti; uid = user; org = org; fam = fam; active = true }

judge-registered :
    (jti user org fam : ℕ) (s : RefreshTokenStore)
    → is_ok (judge user fam (some (fresh jti user org fam)) s).0 ≡ true
unfolding judge is_ok
judge-registered jti user org fam s = simp (eq_refl user, eq_refl fam) refl

registered-accepted :
    (jti user org fam : ℕ) (s : RefreshTokenStore)
    → contains fam s.dead ≡ false
    → is_ok (consume jti user fam (register jti user org fam s)).0 ≡ true
unfolding consume register
registered-accepted jti user org fam s h =
    rw (h, find-put_self (fresh jti user org fam) s.tokens)
      (judge-registered jti user org fam (register jti user org fam s))

renew-hands_over :
    (user : Option UserRow) (jti : ℕ) (claims : RefreshClaims) (s : RefreshTokenStore)
    → contains claims.family_id s.dead ≡ false
    → ((pair : TokenPair) × ((renew user jti claims s).0 ≡ ok pair)
        × (is_ok
              (consume pair.refresh.jti pair.refresh.user_id pair.refresh.family_id
                (renew user jti claims s).1).0
            ≡ true))
      ⊎ (((renew user jti claims s).0 ≡ err invalid_token)
          × Dead claims.family_id (renew user jti claims s).1)
unfolding renew issue_token_pair
renew-hands_over none jti claims s a = inr (refl, Dead-revoked claims.family_id s)
renew-hands_over (some user) jti claims s a = elim (Bool-cases user.is_active) [
  | inl e ↦ rw e (
      inl (
        (issue_token_pair (principal_of claims user.role) claims.family_id jti s).0,
        refl,
        registered-accepted jti claims.user_id claims.org_id claims.family_id s a,
      ))
  | inr e ↦ rw e (inr (refl, Dead-revoked claims.family_id s))
]

-- A rotation either hands over, or ends the family: it returns a pair whose refresh token is accepted
-- the next time, or it fails, and the family of the token that was presented is dead.
pub rotate_refresh-hands_over :
    (users : ℕ → Option UserRow) (jti : ℕ) (claims : RefreshClaims) (s : RefreshTokenStore)
    → ((pair : TokenPair) × ((rotate_refresh users jti (some claims) s).0 ≡ ok pair)
        × (is_ok
              (consume pair.refresh.jti pair.refresh.user_id pair.refresh.family_id
                (rotate_refresh users jti (some claims) s).1).0
            ≡ true))
      ⊎ (((rotate_refresh users jti (some claims) s).0 ≡ err invalid_token)
          × Dead claims.family_id (rotate_refresh users jti (some claims) s).1)
unfolding rotate_refresh
rotate_refresh-hands_over users jti claims s =
    let alive = accepted-alive claims.jti claims.user_id claims.family_id s in
    let rejected = rejected-Dead claims.jti claims.user_id claims.family_id s in
    elim (Bool-cases (is_ok (consume claims.jti claims.user_id claims.family_id s).0)) [
      | inl e ↦ rw e (
          renew-hands_over (users claims.user_id) jti claims
            (consume claims.jti claims.user_id claims.family_id s).1 (alive e))
      | inr e ↦ rw e (inr (refl, rejected e))
    ]

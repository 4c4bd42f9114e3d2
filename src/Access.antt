-- ===== src/Access.antt =====
-- The tokens of app/core/security.py, and what they say of their bearer. The libraries that sign and check a
-- token and that derive a key are the fields of `Jwt`; times are in seconds.
pub mod Callers
pub mod Sealed
pub mod Lockout
use ai_interviewer.Base.{
  ℕ, ◌+◌, ◌*◌, ◌-◌, Bool, true, false, not, ◌&&◌, ◌||◌, Option, none, some, List, [], ◌∷◌, ◌++◌,
  Result, ok, err, raise_if, ◌>>=◌, ◌>>◌, ltb, leb, ◌==◌, if◌then◌else◌, or_else,
}
use ai_interviewer.Base.Lists.{some_of, is_empty}
use ai_interviewer.Base.Text.{Text, codes, text_eq}

pub data TokenType : Type 0 where
  access refresh invite interview : TokenType

unfoldable pub value : TokenType → Text
value access = codes "access"
value refresh = codes "refresh"
value invite = codes "invite"
value interview = codes "interview"

-- the payload of a token; a claim that is missing, or is no identity where one is wanted, is `none`
pub record Claims : Type 0 where
  pub typ : Text
  pub aud : Text
  pub iss : Text
  pub iat : ℕ
  pub nbf : ℕ
  pub exp : ℕ
  pub sub : Option ℕ
  pub org : Option ℕ
  pub jti : Option ℕ
  pub role : Option Text
  pub fam : Option ℕ
  pub iv : Option ℕ
  pub inv : Option ℕ

-- `jwt.encode key payload`, `jwt.decode key audience issuer leeway now raw`, and `hmac.new(secret, message)`
pub record Jwt (Raw : Type 0) : Type 0 where
  pub encode : Text → Claims → Raw
  pub decode : Text → Text → Text → ℕ → ℕ → Raw → Option Claims
  pub hmac : Text → Text → Text

pub record Settings : Type 0 where
  pub jwt_secret : Text
  pub jwt_issuer : Text
  pub access_token_ttl_minutes : ℕ
  pub refresh_token_ttl_days : ℕ
  pub invite_ttl_hours : ℕ
  pub interview_token_ttl_minutes : ℕ

-- `AuthenticationError` and its subclass `InvalidTokenError`, and `PermissionDeniedError`
pub data AccessError : Type 0 where
  unauthenticated invalid_token permission_denied : AccessError
  rate_limited : ℕ → AccessError

unfoldable pub audience : TokenType → Text
audience t = codes "aii:" ++ value t

abbrev pub no_claims : Claims
no_claims = record {
  typ = [];
  aud = [];
  iss = [];
  iat = 0;
  nbf = 0;
  exp = 0;
  sub = none;
  org = none;
  jti = none;
  role = none;
  fam = none;
  iv = none;
  inv = none;
}

-- the claims of an access token, a refresh token, an invite and an interview token
abbrev pub access_claims : (user org : ℕ) → Text → Claims
access_claims user org role = record no_claims { sub = some user; org = some org; role = some role }

abbrev pub refresh_claims : (user org family jti : ℕ) → Claims
refresh_claims user org family jti = record no_claims {
  sub = some user;
  org = some org;
  fam = some family;
  jti = some jti;
}

abbrev pub invite_claims : (invite_id org jti : ℕ) → Claims
invite_claims invite_id org jti = record no_claims {
  sub = some invite_id;
  org = some org;
  jti = some jti;
}

abbrev pub interview_claims : (candidate org interview_id invite_id : ℕ) → Claims
interview_claims candidate org interview_id invite_id = record no_claims {
  sub = some candidate;
  org = some org;
  iv = some interview_id;
  inv = some invite_id;
  role = some (codes "CANDIDATE");
}

-- the payload that `_encode` signs; `fresh` is the `jti` for claims that have none
unfoldable pub payload : Settings → TokenType → Claims → (ttl now fresh : ℕ) → Claims
payload c t claims ttl now fresh = record claims {
  typ = value t;
  aud = audience t;
  iss = c.jwt_issuer;
  iat = now;
  nbf = now;
  exp = now + ttl;
  jti = some (or_else claims.jti fresh);
}

pub record Principal : Type 0 where
  pub org_id : ℕ
  pub is_user : Bool
  pub actor_id : ℕ
  pub role : Text
  pub jti : ℕ
  pub interview_id : Option ℕ

-- `AccessClaims.parse`, and the principal made of it
unfoldable pub access_principal : Claims → Result AccessError Principal
access_principal c = elim c.sub [
  | none ↦ err invalid_token
  | some sub ↦ elim c.org [
    | none ↦ err invalid_token
    | some org ↦ elim c.role [
      | none ↦ err invalid_token
      | some role ↦ elim c.jti [
        | none ↦ err invalid_token
        | some jti ↦ ok (record {
          org_id = org;
          is_user = true;
          actor_id = sub;
          role = role;
          jti = jti;
          interview_id = none;
        })
      ]
    ]
  ]
]

-- `InterviewClaims.parse`, and the principal made of it
unfoldable pub interview_principal : Claims → Result AccessError Principal
interview_principal c = elim c.sub [
  | none ↦ err invalid_token
  | some sub ↦ elim c.org [
    | none ↦ err invalid_token
    | some org ↦ elim c.iv [
      | none ↦ err invalid_token
      | some iv ↦ elim c.inv [
        | none ↦ err invalid_token
        | some inv ↦ elim c.jti [
          | none ↦ err invalid_token
          | some jti ↦ ok (record {
            org_id = org;
            is_user = false;
            actor_id = sub;
            role = codes "CANDIDATE";
            jti = jti;
            interview_id = some iv;
          })
        ]
      ]
    ]
  ]
]

module _ {Raw : Type 0} (j : Jwt Raw) (c : Settings) where
  -- `_key_for`
  unfoldable pub key_for : TokenType → Text
  key_for t = j.hmac c.jwt_secret (codes "aii:jwt:v1" ++ codes ":" ++ value t)

  unfoldable pub encode_token : TokenType → Claims → (ttl now fresh : ℕ) → Raw
  encode_token t claims ttl now fresh = j.encode (key_for t) (payload c t claims ttl now fresh)

  unfoldable pub decode_token : ℕ → Raw → TokenType → Result AccessError Claims
  decode_token now raw expected =
      elim (j.decode (key_for expected) (audience expected) c.jwt_issuer 10 now raw) [
        | none ↦ err invalid_token
        | some claims ↦
            if not (text_eq claims.typ (value expected)) then err invalid_token else ok claims
      ]

  unfoldable pub create_access_token : (user org : ℕ) → Text → (now fresh : ℕ) → Raw
  create_access_token user org role now fresh =
      encode_token access (access_claims user org role) (c.access_token_ttl_minutes * 60) now fresh

  unfoldable pub create_refresh_token : (user org family jti now fresh : ℕ) → Raw
  create_refresh_token user org family jti now fresh =
      encode_token refresh (refresh_claims user org family jti) (c.refresh_token_ttl_days * 86400)
        now fresh

  unfoldable pub create_invite_token : (invite_id org jti now fresh : ℕ) → Raw
  create_invite_token i org jti now fresh =
      encode_token invite (invite_claims i org jti) (c.invite_ttl_hours * 3600) now fresh

  unfoldable pub create_interview_token : (candidate org interview_id invite_id now fresh : ℕ) → Raw
  create_interview_token candidate org iv inv now fresh =
      encode_token interview (interview_claims candidate org iv inv)
        (c.interview_token_ttl_minutes * 60) now fresh

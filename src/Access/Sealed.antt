-- ===== src/Access/Sealed.antt =====
-- The four kinds of token of app/core/security.py, each presented to `get_principal`.
use ai_interviewer.Base.{
  ℕ, ◌+◌, ◌*◌, ◌≤◌, ◌≡◌, refl, ◌∙◌, true, false, ◌&&◌, none, some, arith, ok, err, ◌>>=◌, ltb, leb,
  if◌then◌else◌, Bool-cases, inl, inr,
}
use ai_interviewer.Base.Text.{Text, codes, text_eq, text_eq_refl}
use ai_interviewer.Access.{
  TokenType, access, refresh, invite, interview, value, Claims, Jwt, Settings, invalid_token,
  audience, access_claims, interview_claims, refresh_claims, invite_claims, payload,
  access_principal, interview_principal, key_for, encode_token, decode_token, create_access_token,
  create_refresh_token, create_invite_token, create_interview_token,
}
use ai_interviewer.Access.Callers.{first_of, get_principal}

-- what the library documents: a token is decoded with the key, the audience and the issuer that it was signed
-- with, within its time, give or take the leeway
abbrev pub Lawful : {Raw : Type 0} → Jwt Raw → Type 0
Lawful j =
    (key key' aud iss : Text) (leeway now : ℕ) (p : Claims)
    → j.decode key' aud iss leeway now (j.encode key p) ≡ (
        if text_eq key' key
          && (text_eq p.aud aud
              && (text_eq p.iss iss
                  && (ltb now (p.exp + leeway)
                      && (leb p.nbf (now + leeway) && leb p.iat (now + leeway)))))
        then some p
        else none)

module _ {Raw : Type 0} (j : Jwt Raw) (c : Settings) (law : Lawful j) where
  decode-own :
      (t : TokenType) (claims : Claims) (ttl t0 now fresh : ℕ)
      → t0 ≤ now
      → decode_token j c now (encode_token j c t claims ttl t0 fresh) t ≡ (
          if ltb now (t0 + ttl + 10)
          then ok (payload c t claims ttl t0 fresh)
          else err invalid_token)
  unfolding decode_token encode_token payload
  decode-own t claims ttl t0 now fresh before =
      let p = payload c t claims ttl t0 fresh in
      let key = key_for j c t in
      let decoded = law key key (audience t) c.jwt_issuer 10 now p in
      let signed = text_eq_refl key in
      let heard = text_eq_refl (audience t) in
      let issued = text_eq_refl c.jwt_issuer in
      let typed = text_eq_refl (value t) in
      let begun : leb t0 (now + 10) ≡ true = ground arith in
      elim (Bool-cases (ltb now (t0 + ttl + 10))) [
        | inl fresh_still ↦
            rw (decode_token, decoded, signed, heard, issued, begun, fresh_still, typed) refl
        | inr expired ↦ rw (decode_token, decoded, signed, heard, issued, begun, expired) refl
      ]

  decode-other :
      (t u : TokenType) (claims : Claims) (ttl t0 now fresh : ℕ)
      → text_eq (audience t) (audience u) ≡ false
      → decode_token j c now (encode_token j c t claims ttl t0 fresh) u ≡ err invalid_token
  unfolding decode_token encode_token payload
  decode-other t u claims ttl t0 now fresh apart =
      let decoded =
        law (key_for j c t) (key_for j c u) (audience u) c.jwt_issuer 10 now
          (payload c t claims ttl t0 fresh) in
      elim (Bool-cases (text_eq (key_for j c u) (key_for j c t))) [
        | inl shared ↦ rw (decode_token, decoded, shared, apart) refl
        | inr own ↦ rw (decode_token, decoded, own) refl
      ]

  -- Of the tokens that the program signs, presented as a bearer's: an access token, until ten seconds after it
  -- expires, makes its user the caller, with the organisation and the role it was signed with; an interview
  -- token makes its candidate the caller, tied to its interview; and a refresh token and an invite open nothing.
  pub get_principal-minted :
      (user org candidate iv inv family jti t0 now fresh : ℕ) (role : Text)
      → t0 ≤ now
      → (get_principal j c now
            (some (codes "bearer", some (create_access_token j c user org role t0 fresh)))
          ≡ (if ltb now (t0 + c.access_token_ttl_minutes * 60 + 10)
              then ok (record {
                org_id = org;
                is_user = true;
                actor_id = user;
                role = role;
                jti = fresh;
                interview_id = none;
              })
              else err invalid_token))
        × (get_principal j c now (
              some
                (codes "bearer", some (create_interview_token j c candidate org iv inv t0 fresh)))
            ≡ (if ltb now (t0 + c.interview_token_ttl_minutes * 60 + 10)
                then ok (record {
                  org_id = org;
                  is_user = false;
                  actor_id = candidate;
                  role = codes "CANDIDATE";
                  jti = fresh;
                  interview_id = some iv;
                })
                else err invalid_token))
        × (get_principal j c now
              (some (codes "bearer", some (create_refresh_token j c user org family jti t0 fresh)))
            ≡ err invalid_token)
        × (get_principal j c now
              (some (codes "bearer", some (create_invite_token j c inv org jti t0 fresh)))
            ≡ err invalid_token)
  unfolding get_principal create_access_token create_interview_token create_refresh_token
      create_invite_token text_eq audience value payload access_principal interview_principal
  get_principal-minted user org candidate iv inv family jti t0 now fresh role before =
      let signed = access_claims user org role in
      let access_ttl = c.access_token_ttl_minutes * 60 in
      let tied = interview_claims candidate org iv inv in
      let interview_ttl = c.interview_token_ttl_minutes * 60 in
      let renewing = refresh_claims user org family jti in
      let refresh_ttl = c.refresh_token_ttl_days * 86400 in
      let inviting = invite_claims inv org jti in
      let invite_ttl = c.invite_ttl_hours * 3600 in
      (
        (λ i.
              first_of
                (decode-own access signed access_ttl t0 now fresh before i >>= access_principal)
                (decode-other access interview signed access_ttl t0 now fresh refl i
                  >>= interview_principal))
            ∙ elim (Bool-cases (ltb now (t0 + access_ttl + 10))) [
              | inl e ↦ rw e refl
              | inr e ↦ rw e refl
            ],
        (λ i.
              first_of
                (decode-other interview access tied interview_ttl t0 now fresh refl i
                  >>= access_principal)
                (decode-own interview tied interview_ttl t0 now fresh before i
                  >>= interview_principal))
            ∙ elim (Bool-cases (ltb now (t0 + interview_ttl + 10))) [
              | inl e ↦ rw e refl
              | inr e ↦ rw e refl
            ],
        (λ i.
            first_of
              (decode-other refresh access renewing refresh_ttl t0 now fresh refl i
                >>= access_principal)
              (decode-other refresh interview renewing refresh_ttl t0 now fresh refl i
                >>= interview_principal)),
        (λ i.
            first_of
              (decode-other invite access inviting invite_ttl t0 now fresh refl i
                >>= access_principal)
              (decode-other invite interview inviting invite_ttl t0 now fresh refl i
                >>= interview_principal)),
      )

-- ===== src/Jira/Jwt/Asymmetric.antt =====
-- What the verification of the tokens of Jira's installation calls (src/jira/util/jwt.ts) ensures.
use github_for_jira.Base.{
  ℕ, ◌≡◌, refl, inl, inr, true, false, Option, none, some, Text, subst, Option-cases, and-elim,
  and_then,
}
use github_for_jira.Jira.Jwt.{
  normal, Claims, Request, Runtime, extract_jwt_from_request, is_staging_tenant, has_issuer,
  is_audience, validate_asymmetric_jwt_token, validate_asymmetric_jwt_token_middleware,
}
use github_for_jira.Jira.Jwt.Verified.{AreValid, validate_jwt_claims-AreValid}

-- The claims are Atlassian's, for this app and for the request.
pub record IsAtlassians (rt : Runtime) (now : ℕ) (app_url : Text)
    (Signed : Text → Text → Claims → Type 0) (req : Request) : Type 0 where
  pub token : Text
  pub id : Text
  pub key : Text
  pub claims : Claims
  pub found : extract_jwt_from_request req ≡ some token
  pub names_key : rt.key_id token ≡ some id
  pub is_public : rt.public_key id (is_staging_tenant rt req) ≡ some key
  pub signed : Signed key token claims
  pub issuer : has_issuer claims ≡ true
  pub audience : is_audience app_url claims.aud ≡ true
  pub are_valid : AreValid rt now normal req.jwt_request claims

and_then-some :
    (o : Option Text) (f : Text → Option Text) (t : Text)
    → and_then o f ≡ some t
    → (s : Text) × (o ≡ some s) × (f s ≡ some t)
and_then-some none f t h = absurd (cc)
and_then-some (some s) f t h = (s, refl, h)

-- The same, for a token that was found.
validate_asymmetric_jwt_token-parts :
    (rt : Runtime) (now : ℕ) (app_url : Text) (req : Request) (token : Text)
    → validate_asymmetric_jwt_token rt now app_url req.jwt_request
        (some token)
        (is_staging_tenant rt req)
      ≡ true
    → (key : Text) × (unverified : Claims) × (claims : Claims) × (and_then
          (rt.key_id token)
          (λ id. rt.public_key id (is_staging_tenant rt req))
        ≡ some key)
      × (rt.decode_asymmetric token key true ≡ some unverified)
      × (has_issuer unverified ≡ true)
      × (is_audience app_url unverified.aud ≡ true)
      × (rt.decode_asymmetric token key false ≡ some claims)
      × AreValid rt now normal req.jwt_request claims
unfolding validate_asymmetric_jwt_token
validate_asymmetric_jwt_token-parts rt now app_url req token h =
    let key_of = and_then (rt.key_id token) (λ id. rt.public_key id (is_staging_tenant rt req)) in
    elim (Option-cases key_of) [
      | inl none_ ↦ absurd (let h' = rw (none_, validate_asymmetric_jwt_token) at h in cc)
      | inr (key, is_key) ↦
          let h1 = rw (is_key, validate_asymmetric_jwt_token) at h in
          elim (Option-cases (rt.decode_asymmetric token key true)) [
            | inl none_ ↦ absurd (let h2 = rw none_ at h1 in cc)
            | inr (unverified, decoded) ↦
                let h2 = rw decoded at h1 in
                let (issuer_, h3) = and-elim (has_issuer unverified) _ h2 in
                let (audience_, h4) = and-elim (is_audience app_url unverified.aud) _ h3 in
                elim (Option-cases (rt.decode_asymmetric token key false)) [
                  | inl none_ ↦ absurd (let h5 = rw none_ at h4 in cc)
                  | inr (claims, verified) ↦
                      let h5 = rw verified at h4 in
                      (
                        key,
                        unverified,
                        claims,
                        is_key,
                        decoded,
                        issuer_,
                        audience_,
                        verified,
                        validate_jwt_claims-AreValid rt now claims normal req.jwt_request h5,
                      )
                ]
          ]
    ]

-- A request is let pass only with a token that names a public key of Atlassian's, is signed with
-- it, has an issuer and this app as its audience, and whose qsh is the hash of this request; its
-- expiry time, if it has one, is less than 3 seconds over. The claims that are read without
-- verification are the same as those that are verified.
pub validate_asymmetric_jwt_token_middleware-IsAtlassians :
    (rt : Runtime) (Signed : Text → Text → Claims → Type 0)
    (decode_Signed : (token key : Text) (claims : Claims)
      → rt.decode_asymmetric token key false ≡ some claims
      → Signed key token claims)
    (decode_same : (token key : Text) (c d : Claims)
      → rt.decode_asymmetric token key true ≡ some c
      → rt.decode_asymmetric token key false ≡ some d
      → c ≡ d)
    (now : ℕ) (app_url : Text) (req : Request)
    → validate_asymmetric_jwt_token_middleware rt now app_url req ≡ true
    → IsAtlassians rt now app_url Signed req
unfolding validate_asymmetric_jwt_token_middleware validate_asymmetric_jwt_token
validate_asymmetric_jwt_token_middleware-IsAtlassians rt Signed decode_Signed decode_same now
      app_url req h =
    elim (Option-cases (extract_jwt_from_request req)) [
      | inl none_ ↦
          absurd (let h' = rw (none_, validate_asymmetric_jwt_token_middleware) at h in cc)
      | inr (token_, found_) ↦
          let h' = rw (found_, validate_asymmetric_jwt_token_middleware) at h in
          let (key_, unverified, claims_, is_key, decoded, issuer_, audience_, verified, valid) =
            validate_asymmetric_jwt_token-parts rt now app_url req token_ h' in
          let (id_, names, public) =
            and_then-some (rt.key_id token_) (λ id. rt.public_key id (is_staging_tenant rt req))
              key_ is_key in
          let same = decode_same token_ key_ unverified claims_ decoded verified in
          record {
            token = token_;
            id = id_;
            key = key_;
            claims = claims_;
            found = found_;
            names_key = names;
            is_public = public;
            signed = decode_Signed token_ key_ claims_ verified;
            issuer = subst (λ c. has_issuer c ≡ true) same issuer_;
            audience = subst (λ c. is_audience app_url c.aud ≡ true) same audience_;
            are_valid = valid;
          }
    ]

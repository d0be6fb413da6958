-- ===== src/Jira/Jwt/Verified.antt =====
-- What the verification of Jira's tokens (src/jira/util/jwt.ts) ensures of a request that it lets pass.
use github_for_jira.Base.{
  ℕ, ◌+◌, ◌*◌, ◌<◌, ◌==◌, Bool-cases, ◌≡◌, refl, ap, ◌∙◌, ◌⊎◌, inl, inr, Bool, true, false, not, [],
  ◌∷◌, Option, none, some, arith, if◌then◌else◌, get_or, Text, codes, text_eq, text_eq-eq,
  Option-cases, and-elim,
}
use github_for_jira.Jira.Jwt.Canonical.{JwtRequest, create_canonical_request}
use github_for_jira.Jira.Jwt.{
  TokenType, normal, context, Claims, Request, Runtime, truthy_text, extract_jwt_from_request,
  fixed_request, is_hash_of, is_true, validate_qsh, is_expired, validate_jwt_claims, has_issuer,
  validate_symmetric_jwt, verify_symmetric_jwt_token_middleware,
}

-- The claim qsh is right: the fixed one of a context token, or the hash of the request's canonical form,
-- with its query or with its body for the query.
pub data Matches (rt : Runtime) (token_type : TokenType) (qsh : Text) (req : JwtRequest)
    : Type 0 where
  of_context : token_type ≡ context → qsh ≡ codes "context-qsh" → Matches rt token_type qsh req
  of_request :
      token_type ≡ normal
      → (fixed : JwtRequest) (b : Bool) (form : Text) → fixed_request rt req ≡ some fixed
      → create_canonical_request fixed b ≡ some form
      → qsh ≡ rt.hash form
      → Matches rt token_type qsh req

-- The claims have no expiry time, which 0 stands for too, or one (in seconds) that is less than 3 seconds
-- over at a time in milliseconds.
abbrev pub IsInTime : ℕ → Option ℕ → Type 0
IsInTime now exp = (exp ≡ none) ⊎ ((e : ℕ) × (exp ≡ some e) × ((e ≡ 0) ⊎ (now < e * 1000 + 3000)))

IsInTime-of : (now : ℕ) (exp : Option ℕ) → is_expired now exp ≡ false → IsInTime now exp
IsInTime-of now none h = inl refl
IsInTime-of now (some e) h = inr (
  e,
  refl,
  elim (Bool-cases (e == 0)) [
    | inl endless ↦ inl (ground arith)
    | inr has_end ↦ inr (ground arith)
  ],
)

-- The claims are in time, and their qsh is the right one for a token of the type.
pub record AreValid (rt : Runtime) (now : ℕ) (token_type : TokenType) (req : JwtRequest)
    (claims : Claims) : Type 0 where
  pub qsh : Text
  pub has_qsh : claims.qsh ≡ some qsh
  pub in_time : IsInTime now claims.exp
  pub matches : Matches rt token_type qsh req

is_hash_of-form :
    (rt : Runtime) (qsh : Text) (fixed : JwtRequest) (b : Bool)
    → is_hash_of rt qsh fixed b ≡ some true
    → (form : Text) × (create_canonical_request fixed b ≡ some form) × (qsh ≡ rt.hash form)
unfolding is_hash_of
is_hash_of-form rt qsh fixed b h = elim (Option-cases (create_canonical_request fixed b)) [
  | inl none_ ↦ absurd (let h' = rw none_ at h in cc)
  | inr (form, some_) ↦
      let h' = rw some_ at h in
      let same : text_eq qsh (rt.hash form) ≡ true = ap (λ o. get_or o true) h' in
      (form, some_, text_eq-eq qsh (rt.hash form) same)
]

is_true-some : (o : Option Bool) → is_true o ≡ true → o ≡ some true
is_true-some none h = absurd (cc)
is_true-some (some b) h = ap some h

either_hash :
    (v : Bool) (o : Option Bool)
    → (if v then some true else o) ≡ some true
    → (v ≡ true) ⊎ (o ≡ some true)
either_hash true o h = inl refl
either_hash false o h = inr h

truthy_text-some : (o : Option Text) (t : Text) → truthy_text o ≡ some t → o ≡ some t
truthy_text-some none t h = absurd (cc)
truthy_text-some (some []) t h = absurd (cc)
truthy_text-some (some (c ∷ s)) t h = h

validate_qsh-Matches :
    (rt : Runtime) (token_type : TokenType) (qsh : Text) (req : JwtRequest)
    → validate_qsh rt token_type qsh req ≡ some true
    → Matches rt token_type qsh req
unfolding validate_qsh
validate_qsh-Matches rt context qsh req h =
    of_context refl (text_eq-eq qsh (codes "context-qsh") (ap (λ o. get_or o true) h))
validate_qsh-Matches rt normal qsh req h = elim (Option-cases (fixed_request rt req)) [
  | inl none_ ↦ absurd (let h' = rw (none_, validate_qsh) at h in cc)
  | inr (fixed, some_) ↦
      let h1 = rw (some_, validate_qsh) at h in
      elim (Option-cases (is_hash_of rt qsh fixed false)) [
        | inl none_ ↦ absurd (let h2 = rw none_ at h1 in cc)
        | inr (v, first) ↦
            let h2 = rw first at h1 in
            elim (either_hash v (is_hash_of rt qsh fixed true) h2) [
              | inl yes_ ↦
                  let (form, canonical, same) =
                    is_hash_of-form rt qsh fixed false (first ∙ ap some yes_) in
                  of_request refl fixed false form some_ canonical same
              | inr second ↦
                  let (form, canonical, same) = is_hash_of-form rt qsh fixed true second in
                  of_request refl fixed true form some_ canonical same
            ]
      ]
]

pub validate_jwt_claims-AreValid :
    (rt : Runtime) (now : ℕ) (claims : Claims) (token_type : TokenType) (req : JwtRequest)
    → validate_jwt_claims rt now claims token_type req ≡ true
    → AreValid rt now token_type req claims
unfolding validate_jwt_claims
validate_jwt_claims-AreValid rt now claims token_type req h =
    elim (Option-cases (truthy_text claims.qsh)) [
      | inl none_ ↦ absurd (let h' = rw (none_, validate_jwt_claims) at h in cc)
      | inr (qsh, some_) ↦
          let h' = rw (some_, validate_jwt_claims) at h in
          let (unexpired_, hash_ok) = and-elim (not (is_expired now claims.exp)) _ h' in
          record {
            qsh = qsh;
            has_qsh = truthy_text-some claims.qsh qsh some_;
            in_time = IsInTime-of now claims.exp (ground arith);
            matches =
                validate_qsh-Matches rt token_type qsh req
                  (is_true-some (validate_qsh rt token_type qsh req) hash_ok);
          }
    ]

-- What is known of a request with a token that was let pass.
pub record IsVerified (rt : Runtime) (now : ℕ) (Signed : Text → Claims → Type 0)
    (token_type : TokenType) (req : Request) : Type 0 where
  pub token : Text
  pub claims : Claims
  pub found : extract_jwt_from_request req ≡ some token
  pub signed : Signed token claims
  pub are_valid : AreValid rt now token_type req.jwt_request claims

validate_symmetric_jwt-claims :
    (rt : Runtime) (now : ℕ) (secret : Text) (req : JwtRequest) (token_type : TokenType)
    (token : Text)
    → validate_symmetric_jwt rt now secret req token_type (some token) ≡ true
    → (claims : Claims) × (rt.decode_symmetric token secret false ≡ some claims)
      × AreValid rt now token_type req claims
unfolding validate_symmetric_jwt
validate_symmetric_jwt-claims rt now secret req token_type token h =
    elim (Option-cases (rt.decode_symmetric token [] true)) [
      | inl none_ ↦ absurd (let h' = rw (none_, validate_symmetric_jwt) at h in cc)
      | inr (unverified, some_) ↦
          let h1 = rw (some_, validate_symmetric_jwt) at h in
          let (issuer, h2) = and-elim (has_issuer unverified) _ h1 in
          elim (Option-cases (rt.decode_symmetric token secret false)) [
            | inl none_ ↦ absurd (let h3 = rw none_ at h2 in cc)
            | inr (claims, verified) ↦
                let h3 = rw verified at h2 in
                (claims, verified, validate_jwt_claims-AreValid rt now claims token_type req h3)
          ]
    ]

verify_symmetric-token :
    (rt : Runtime) (now : ℕ) (secret : Text) (token_type : TokenType) (req : Request)
    → verify_symmetric_jwt_token_middleware rt now secret token_type req ≡ true
    → (token : Text) × (extract_jwt_from_request req ≡ some token)
      × (validate_symmetric_jwt rt now secret req.jwt_request token_type (some token) ≡ true)
unfolding verify_symmetric_jwt_token_middleware validate_symmetric_jwt
verify_symmetric-token rt now secret token_type req h =
    elim (Option-cases (extract_jwt_from_request req)) [
      | inl none_ ↦ absurd (let h' = rw (none_, verify_symmetric_jwt_token_middleware) at h in cc)
      | inr (token, some_) ↦ (token, some_, rw (some_, verify_symmetric_jwt_token_middleware) at h)
    ]

-- A request is let pass only if it carries a token that decodes to signed claims with the secret, whose expiry
-- time, if the claims have one, is less than 3 seconds over. If a normal token is asked for, its qsh is the hash
-- of the request's canonical form; if a context token is asked for, its qsh is only the fixed text
-- "context-qsh", which binds it to no request.
pub verify_symmetric_jwt_token_middleware-IsVerified :
    (rt : Runtime) (Signed : Text → Text → Claims → Type 0)
    (decode_Signed : (token secret : Text) (claims : Claims)
      → rt.decode_symmetric token secret false ≡ some claims
      → Signed secret token claims)
    (now : ℕ) (secret : Text) (token_type : TokenType) (req : Request)
    → verify_symmetric_jwt_token_middleware rt now secret token_type req ≡ true
    → IsVerified rt now (Signed secret) token_type req
verify_symmetric_jwt_token_middleware-IsVerified rt Signed decode_Signed now secret token_type req
      h =
    let (token_, found_, passed) = verify_symmetric-token rt now secret token_type req h in
    let (claims_, verified, valid) =
      validate_symmetric_jwt-claims rt now secret req.jwt_request token_type token_ passed in
    record {
      token = token_;
      claims = claims_;
      found = found_;
      signed = decode_Signed token_ secret claims_ verified;
      are_valid = valid;
    }

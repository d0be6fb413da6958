-- ===== src/Jira/Jwt.antt =====
-- src/jira/util/jwt.ts: the verification of Jira's tokens. The package atlassian-jwt, the hash, the request
-- for Atlassian's public key and JavaScript's decodeURIComponent and URL are parameters. An error that is
-- thrown is `none`, or `inr` where its cause matters. Times are milliseconds; `exp` is in seconds. Of what
-- a middleware answers, only whether it calls `next` is kept: else it answers 401.
pub mod Canonical
pub mod Verified
pub mod Replay
pub mod Asymmetric
mod Tests
use github_for_jira.Base.{
  ℕ, ◌+◌, ◌*◌, Bool, true, false, ◌||◌, ◌&&◌, not, List, [], ◌∷◌, Option, none, some, leb, ◌==◌,
  if◌then◌else◌, and_then, or_else, head?, is_empty, get_or, Text, codes, text_eq, map_option,
}
use github_for_jira.Jira.Jwt.Canonical.{JwtRequest, create_canonical_request, without_last_slash}

pub data TokenType : Type 0 where
  normal context : TokenType

pub record Claims : Type 0 where
  pub iss : Option Text
  pub exp : Option ℕ
  pub qsh : Option Text
  pub aud : List Text

-- Where a request may carry a token, and what it is about.
pub record Request : Type 0 where
  pub jwt_in_query : Option Text
  pub jwt_in_body : Option Text
  pub authorization : Option Text
  pub jwt_in_cookies : Option Text
  pub jwt_request : JwtRequest
  pub base_url_in_body : Option Text

-- The outside code. `decode token key no_verify` stands for decodeSymmetric and decodeAsymmetric with
-- getAlgorithm, and `none` for their errors.
pub record Runtime : Type 0 where
  pub decode_symmetric : Text → Text → Bool → Option Claims
  pub decode_asymmetric : Text → Text → Bool → Option Claims
  pub key_id : Text → Option Text
  pub public_key : Text → Bool → Option Text
  pub hash : Text → Text
  pub decode_uri_component : Text → Option Text
  pub host_name : Text → Option Text

-- A value that is missing or empty is falsy.
abbrev pub truthy_text : Option Text → Option Text
truthy_text none = none
truthy_text (some []) = none
truthy_text (some (c ∷ s)) = some (c ∷ s)

-- `authHeader?.startsWith("JWT ")` and `authHeader.substring(4)`
abbrev pub after_jwt : Text → Option Text
after_jwt (a ∷ b ∷ c ∷ d ∷ s) = if text_eq (a ∷ b ∷ c ∷ d ∷ []) (codes "JWT ") then some s else none
after_jwt _ = none

unfoldable pub extract_jwt_from_request : Request → Option Text
extract_jwt_from_request req = elim (truthy_text req.jwt_in_query) [
  | none ↦ truthy_text (
      or_else
        (or_else (truthy_text req.jwt_in_body) (truthy_text (and_then req.authorization after_jwt)))
        req.jwt_in_cookies)
  | some t ↦ elim (truthy_text req.jwt_in_body) [ none ↦ some t | some u ↦ none ]
]

-- The request with its path decoded; an empty path stays.
unfoldable pub fixed_request : Runtime → JwtRequest → Option JwtRequest
fixed_request rt req = elim (truthy_text req.pathname) [
  | none ↦ some req
  | some path ↦ map_option (λ p. record req { pathname = some p }) (rt.decode_uri_component path)
]

-- `qsh === createQueryStringHash(request, checkBodyForParams)`
unfoldable pub is_hash_of : Runtime → Text → JwtRequest → Bool → Option Bool
is_hash_of rt qsh req check_body_for_params =
    map_option (λ form. text_eq qsh (rt.hash form))
      (create_canonical_request req check_body_for_params)

abbrev pub is_true : Option Bool → Bool
is_true none = false
is_true (some b) = b

-- `none` stands for an error.
unfoldable pub validate_qsh : Runtime → TokenType → Text → JwtRequest → Option Bool
unfolding fixed_request is_hash_of
validate_qsh rt context qsh req = some (text_eq qsh (codes "context-qsh"))
validate_qsh rt normal qsh req = and_then (fixed_request rt req) (λ fixed.
    and_then (is_hash_of rt qsh fixed false)
      (λ verified. if verified then some true else is_hash_of rt qsh fixed true))

-- `verifiedClaims.exp && Date.now() / 1000 - 3 >= verifiedClaims.exp`
abbrev pub is_expired : ℕ → Option ℕ → Bool
is_expired now none = false
is_expired now (some exp) = not (exp == 0) && leb (exp * 1000 + 3000) now

-- Whether the claims are valid; an error says that they are not.
unfoldable pub validate_jwt_claims : Runtime → ℕ → Claims → TokenType → JwtRequest → Bool
unfolding validate_qsh
validate_jwt_claims rt now claims token_type req = elim (truthy_text claims.qsh) [
  | none ↦ false
  | some qsh ↦ not (is_expired now claims.exp) && is_true (validate_qsh rt token_type qsh req)
]

abbrev pub has_issuer : Claims → Bool
has_issuer claims = not (is_empty (get_or claims.iss []))

unfoldable pub validate_symmetric_jwt :
    Runtime → ℕ → Text → JwtRequest → TokenType → Option Text → Bool
unfolding validate_jwt_claims
validate_symmetric_jwt rt now secret req token_type none = false
validate_symmetric_jwt rt now secret req token_type (some token) =
    elim (rt.decode_symmetric token [] true) [
      | none ↦ false
      | some unverified ↦ has_issuer unverified && elim (rt.decode_symmetric token secret false) [
        | none ↦ false
        | some claims ↦ validate_jwt_claims rt now claims token_type req
      ]
    ]

-- Whether `next` is called.
unfoldable pub verify_symmetric_jwt_token_middleware :
    Runtime → ℕ → Text → TokenType → Request → Bool
unfolding extract_jwt_from_request validate_symmetric_jwt
verify_symmetric_jwt_token_middleware rt now secret token_type req =
    validate_symmetric_jwt rt now secret req.jwt_request token_type (extract_jwt_from_request req)

-- `/\.jira-dev\.com$/`
abbrev pub ends_with : Text → Text → Bool
ends_with ending [] = text_eq ending []
ends_with ending (c ∷ s) = text_eq ending (c ∷ s) || ends_with ending s

unfoldable pub is_staging_tenant : Runtime → Request → Bool
is_staging_tenant rt req = elim (and_then (truthy_text req.base_url_in_body) rt.host_name) [
  | none ↦ false
  | some host ↦ ends_with (codes ".jira-dev.com") host
]

-- `includes(ALLOWED_BASE_URLS, aud[0].replace(/\/$/, ""))`, where the first audience is there
abbrev pub is_audience : Text → List Text → Bool
is_audience app_url aud = elim (truthy_text (head? aud)) [
  | none ↦ false
  | some url ↦ text_eq app_url (without_last_slash url)
]

unfoldable pub validate_asymmetric_jwt_token :
    Runtime → ℕ → Text → JwtRequest → Option Text → Bool → Bool
unfolding validate_jwt_claims
validate_asymmetric_jwt_token rt now app_url req none is_staging = false
validate_asymmetric_jwt_token rt now app_url req (some token) is_staging =
    elim (and_then (rt.key_id token) (λ id. rt.public_key id is_staging)) [
      | none ↦ false
      | some key ↦ elim (rt.decode_asymmetric token key true) [
        | none ↦ false
        | some unverified ↦
            has_issuer unverified
            && (is_audience app_url unverified.aud && elim (rt.decode_asymmetric token key false) [
              | none ↦ false
              | some claims ↦ validate_jwt_claims rt now claims normal req
            ])
      ]
    ]

unfoldable pub validate_asymmetric_jwt_token_middleware : Runtime → ℕ → Text → Request → Bool
unfolding extract_jwt_from_request is_staging_tenant validate_asymmetric_jwt_token
validate_asymmetric_jwt_token_middleware rt now app_url req =
    validate_asymmetric_jwt_token rt now app_url req.jwt_request (extract_jwt_from_request req)
      (is_staging_tenant rt req)

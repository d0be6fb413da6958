-- ===== src/Jira/Jwt/Tests.antt =====
-- The verification of tokens at concrete requests, with a hash that keeps the text.
use github_for_jira.Base.{
  ◌≡◌, refl, sym, ap, Bool, true, false, ◌||◌, [], ◌∷◌, Option, none, some, if◌then◌else◌, Text,
  codes, text_eq, get_or, subst, Bool-cases, inl, inr, ◌∙◌,
}
use github_for_jira.Jira.Jwt.Canonical.{
  JwtRequest, not_iterable, create_canonical_request, canonicalize_method,
}
use github_for_jira.Jira.Jwt.Canonical.Parts.{IsInner}
use github_for_jira.Jira.Jwt.{
  normal, Claims, Request, Runtime, extract_jwt_from_request, fixed_request,
  verify_symmetric_jwt_token_middleware, validate_asymmetric_jwt_token_middleware,
}
use github_for_jira.Jira.Jwt.Verified.{IsVerified, verify_symmetric_jwt_token_middleware-IsVerified}
use github_for_jira.Jira.Jwt.Replay.{
  IsSameRequest, verify_symmetric_jwt_token_middleware-IsSameRequest,
}
use github_for_jira.Jira.Jwt.Asymmetric.{
  IsAtlassians, validate_asymmetric_jwt_token_middleware-IsAtlassians,
}

abbrev issue : JwtRequest
issue = record {
  method = codes "get";
  pathname = some (codes "/a&b/");
  query =
      (codes "q", codes "z" ∷ codes "(y)" ∷ [])
      ∷ (codes "jwt", codes "t" ∷ [])
      ∷ (codes "a b", codes "1" ∷ [])
      ∷ [];
  body = not_iterable;
}

abbrev form : Text
form = codes "GET&/a%26b&a%20b=1&q=%28y%29,z"

canonical_issue : create_canonical_request issue false ≡ some form
unfolding create_canonical_request
canonical_issue = refl

abbrev issue_claims : Claims
issue_claims = record {
  iss = some (codes "jira");
  exp = some 100;
  qsh = some form;
  aud = codes "https://app/" ∷ [];
}

abbrev decoded : Text → Text → Bool → Option Claims
decoded token key no_verify =
    if no_verify || text_eq key (codes "secret") then some issue_claims else none

abbrev runtime : Runtime
runtime = record {
  decode_symmetric = decoded;
  decode_asymmetric = decoded;
  key_id = (λ token. some (codes "id"));
  public_key = (λ id staging. some (codes "secret"));
  hash = (λ s. s);
  decode_uri_component = (λ s. some s);
  host_name = (λ s. some s);
}

abbrev issue_request : Request
issue_request = record {
  jwt_in_query = some (codes "t");
  jwt_in_body = none;
  authorization = none;
  jwt_in_cookies = none;
  jwt_request = issue;
  base_url_in_body = none;
}

abbrev Decoded : Text → Text → Claims → Type 0
Decoded key token claims = decoded token key false ≡ some claims

issue_passes :
    verify_symmetric_jwt_token_middleware runtime 102000 (codes "secret") normal issue_request
    ≡ true
unfolding verify_symmetric_jwt_token_middleware create_canonical_request
issue_passes = refl

issue_too_late :
    verify_symmetric_jwt_token_middleware runtime 103000 (codes "secret") normal issue_request
    ≡ false
unfolding verify_symmetric_jwt_token_middleware create_canonical_request
issue_too_late = refl

issue_wrong_secret :
    verify_symmetric_jwt_token_middleware runtime 1000 (codes "other") normal issue_request ≡ false
unfolding verify_symmetric_jwt_token_middleware
issue_wrong_secret = refl

issue_passes_asymmetric :
    validate_asymmetric_jwt_token_middleware runtime 1000 (codes "https://app") issue_request ≡ true
unfolding validate_asymmetric_jwt_token_middleware create_canonical_request
issue_passes_asymmetric = refl

issue_token : extract_jwt_from_request issue_request ≡ some (codes "t")
unfolding extract_jwt_from_request
issue_token = refl

same_claims : (c d : Claims) → (some c ≡ some d) → c ≡ d
same_claims c d h = ap (λ o. get_or o c) h

issue_method : IsInner (canonicalize_method issue)
unfolding canonicalize_method
issue_method = (refl, (refl, (refl, tt)))

fixed_method :
    (fixed : JwtRequest)
    → fixed_request runtime issue ≡ some fixed
    → IsInner (canonicalize_method fixed)
unfolding fixed_request canonicalize_method
fixed_method fixed h =
    subst (λ r. IsInner (canonicalize_method r)) (ap (λ o. get_or o issue) h) issue_method

verify_symmetric_jwt_token_middleware-IsVerified_example :
    IsVerified runtime 102000 (Decoded (codes "secret")) normal issue_request
verify_symmetric_jwt_token_middleware-IsVerified_example =
    verify_symmetric_jwt_token_middleware-IsVerified runtime Decoded (λ token secret claims h. h)
      102000 (codes "secret") normal issue_request issue_passes

verify_symmetric_jwt_token_middleware-IsSameRequest_example :
    IsSameRequest runtime issue false issue
verify_symmetric_jwt_token_middleware-IsSameRequest_example =
    verify_symmetric_jwt_token_middleware-IsSameRequest runtime Decoded (λ token secret claims h. h)
      (λ s t h. h) 102000 (codes "secret") issue_request (codes "t") issue false form
      canonical_issue (λ claims h. ap (λ c. c.qsh) (sym (same_claims issue_claims claims h)))
      issue_method fixed_method issue_token issue_passes

validate_asymmetric_jwt_token_middleware-IsAtlassians_example :
    IsAtlassians runtime 1000 (codes "https://app") Decoded issue_request
validate_asymmetric_jwt_token_middleware-IsAtlassians_example =
    validate_asymmetric_jwt_token_middleware-IsAtlassians runtime Decoded (λ token key claims h. h)
      (λ token key c d. both token key c d) 1000 (codes "https://app") issue_request
      issue_passes_asymmetric
  where
    both :
        (token key : Text) (c d : Claims)
        → decoded token key true ≡ some c
        → decoded token key false ≡ some d
        → c ≡ d
    both token key c d h k = elim (Bool-cases (text_eq key (codes "secret"))) [
      | inl right ↦ let k' = rw right at k in same_claims c d (sym h ∙ k')
      | inr wrong ↦ absurd (let k' = rw wrong at k in cc)
    ]

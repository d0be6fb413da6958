-- ===== src/Jira/Jwt/Replay.antt =====
-- A normal token of Jira (src/jira/util/jwt.ts) serves for one request only.
use github_for_jira.Base.{ℕ, ◌≡◌, sym, ap, ◌∙◌, Bool, true, false, some, Text, get_or, subst}
use github_for_jira.Jira.Jwt.Canonical.{
  JwtRequest, canonicalize_method, canonicalize_uri, canonicalize_query_string,
  create_canonical_request,
}
use github_for_jira.Jira.Jwt.Canonical.Parts.{IsInner, create_canonical_request-injective}
use github_for_jira.Jira.Jwt.{
  normal, context, Claims, Request, Runtime, extract_jwt_from_request, fixed_request,
  verify_symmetric_jwt_token_middleware,
}
use github_for_jira.Jira.Jwt.Verified.{
  Matches, of_context, of_request, verify_symmetric_jwt_token_middleware-IsVerified,
}

-- The request that passed is in canonical form the one that the token was issued for.
abbrev pub IsSameRequest : Runtime → JwtRequest → Bool → JwtRequest → Type 0
IsSameRequest rt issued a req =
    (fixed : JwtRequest) × (fixed_request rt req ≡ some fixed)
    × (canonicalize_method issued ≡ canonicalize_method fixed)
    × (canonicalize_uri issued ≡ canonicalize_uri fixed)
    × ((b : Bool) × (canonicalize_query_string issued a ≡ canonicalize_query_string fixed b))

Matches-IsSameRequest :
    (rt : Runtime) (issued : JwtRequest) (a : Bool) (form qsh : Text) (req : JwtRequest)
    → ((s t : Text) → rt.hash s ≡ rt.hash t → s ≡ t)
    → create_canonical_request issued a ≡ some form
    → qsh ≡ rt.hash form
    → IsInner (canonicalize_method issued)
    → ((fixed : JwtRequest)
        → fixed_request rt req ≡ some fixed
        → IsInner (canonicalize_method fixed))
    → Matches rt normal qsh req
    → IsSameRequest rt issued a req
Matches-IsSameRequest rt issued a form qsh req injective canonical same hi hr (of_context t e) =
    absurd (apart t)
  where
    apart : (_ : normal ≡ context) → ⊥
    apart e = cc
Matches-IsSameRequest rt issued a form qsh req injective canonical same hi hr
      (of_request t fixed b form_ is_fixed canonical_ e) =
    let one_form : form ≡ form_ = injective form form_ (sym same ∙ e) in
    let (methods, uris, queries) =
      create_canonical_request-injective issued fixed a b form hi (hr fixed is_fixed) canonical
        (canonical_ ∙ ap some (sym one_form)) in
    (fixed, is_fixed, methods, uris, (b, queries))

-- If all claims that were signed for a token name the hash of one request, then a request with this token
-- is let pass only if it has the same method, path and query, in canonical form. The hash has no
-- collisions, and methods have no `&` in them.
pub verify_symmetric_jwt_token_middleware-IsSameRequest :
    (rt : Runtime) (Signed : Text → Text → Claims → Type 0)
    (decode_Signed : (token secret : Text) (claims : Claims)
      → rt.decode_symmetric token secret false ≡ some claims
      → Signed secret token claims)
    (no_collisions : (s t : Text) → rt.hash s ≡ rt.hash t → s ≡ t) (now : ℕ) (secret : Text)
    (req : Request) (token : Text) (issued : JwtRequest) (a : Bool) (form : Text)
    → create_canonical_request issued a ≡ some form
    → ((claims : Claims) → Signed secret token claims → claims.qsh ≡ some (rt.hash form))
    → IsInner (canonicalize_method issued)
    → ((fixed : JwtRequest)
        → fixed_request rt req.jwt_request ≡ some fixed
        → IsInner (canonicalize_method fixed))
    → extract_jwt_from_request req ≡ some token
    → verify_symmetric_jwt_token_middleware rt now secret normal req ≡ true
    → IsSameRequest rt issued a req.jwt_request
verify_symmetric_jwt_token_middleware-IsSameRequest rt Signed decode_Signed no_collisions now secret
      req token issued a form canonical only hi hr carries passed =
    let v =
      verify_symmetric_jwt_token_middleware-IsVerified rt Signed decode_Signed now secret normal req
        passed in
    let one_token : v.token ≡ token = ap (λ o. get_or o token) (sym v.found ∙ carries) in
    let signed : Signed secret token v.claims =
      subst (λ t. Signed secret t v.claims) one_token v.signed in
    let qsh : v.are_valid.qsh ≡ rt.hash form =
      ap (λ o. get_or o v.are_valid.qsh) (sym v.are_valid.has_qsh ∙ only v.claims signed) in
    Matches-IsSameRequest rt issued a form v.are_valid.qsh req.jwt_request no_collisions canonical
      qsh hi hr v.are_valid.matches

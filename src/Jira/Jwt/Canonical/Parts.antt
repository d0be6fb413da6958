-- ===== src/Jira/Jwt/Canonical/Parts.antt =====
-- The canonical form of a request (src/jira/util/jwt.ts) fixes the method, the path and the query.
use github_for_jira.Base.{
  ℕ, ◌≡◌, refl, sym, ap, ◌∙◌, inl, inr, Bool, true, not, [], ◌∷◌, ◌++◌, some, ◌==◌, if◌then◌else◌,
  Bool-cases, Option-cases, All, All-append, Text, codes, span, span-append, get_or,
}
use github_for_jira.Jira.Jwt.Canonical.{
  JwtRequest, canonicalize_method, replace_separator, with_slash, without_last_slash, without_slash,
  canonicalize_path, canonicalize_uri, canonicalize_query_string, create_canonical_request,
}

abbrev pub is_inner : ℕ → Bool
is_inner c = not (c == b'&')

abbrev pub IsInner : Text → Type 0
IsInner s = All (λ c. is_inner c ≡ true) s

replace_separator-IsInner : (s : Text) → IsInner (replace_separator s)
unfolding replace_separator
replace_separator-IsInner [] = tt
replace_separator-IsInner (c ∷ s) =
    All-append (λ d. is_inner d ≡ true) (if c == b'&' then codes "%26" else c ∷ [])
      (replace_separator s) (one c) (replace_separator-IsInner s)
  where
    one : (d : ℕ) → IsInner (if d == b'&' then codes "%26" else d ∷ [])
    one d = elim (Bool-cases (d == b'&')) [
      | inl separator ↦ rw separator (refl, (refl, (refl, tt)))
      | inr other ↦ rw other (rw other refl, tt)
    ]

with_slash-IsInner : (s : Text) → IsInner s → IsInner (with_slash s)
with_slash-IsInner [] h = (refl, tt)
with_slash-IsInner (c ∷ s) h = elim (Bool-cases (c == b'/')) [
  | inl slash ↦ rw slash h
  | inr other ↦ rw other (refl, h)
]

without_last_slash-IsInner : (s : Text) → IsInner s → IsInner (without_last_slash s)
without_last_slash-IsInner [] h = tt
without_last_slash-IsInner (c ∷ []) h = elim (Bool-cases (c == b'/')) [
  | inl slash ↦ rw slash tt
  | inr other ↦ rw other h
]
without_last_slash-IsInner (c ∷ d ∷ s) (p, h) = (p, without_last_slash-IsInner (d ∷ s) h)

without_slash-IsInner : (s : Text) → IsInner s → IsInner (without_slash s)
without_slash-IsInner [] h = tt
without_slash-IsInner (c ∷ []) h = h
without_slash-IsInner (c ∷ d ∷ s) (p, h) = (p, without_last_slash-IsInner (d ∷ s) h)

-- No separator is left in the path.
canonicalize_path-IsInner : (s : Text) → IsInner (canonicalize_path s)
unfolding canonicalize_path
canonicalize_path-IsInner [] = (refl, tt)
canonicalize_path-IsInner (c ∷ s) =
    let t = replace_separator (c ∷ s) in
    without_slash-IsInner (with_slash t) (with_slash-IsInner t (replace_separator-IsInner (c ∷ s)))

canonicalize_uri-IsInner : (req : JwtRequest) → IsInner (canonicalize_uri req)
unfolding canonicalize_uri
canonicalize_uri-IsInner req = elim (Option-cases req.pathname) [
  | inl none_ ↦ rw (none_, canonicalize_uri) (refl, tt)
  | inr (path, some_) ↦ rw (some_, canonicalize_uri) (canonicalize_path-IsInner path)
]

-- Texts in front of a separator are fixed by the whole.
first_part :
    (s t u v : Text) → IsInner s → IsInner t → s ++ (b'&' ∷ u) ≡ t ++ (b'&' ∷ v) → (s ≡ t) × (u ≡ v)
first_part s t u v hs ht e =
    let split : (s, b'&' ∷ u) ≡ (t, b'&' ∷ v) =
      sym (span-append is_inner s (b'&' ∷ u) hs refl)
      ∙ ap (span is_inner) e
      ∙ span-append is_inner t (b'&' ∷ v) ht refl in
    (ap (λ p. p.0) split, ap (λ p. behind p.1) split)
  where
    behind : Text → Text
    behind [] = []
    behind (c ∷ w) = w

form :
    (req : JwtRequest) (b : Bool) (form_ : Text)
    → create_canonical_request req b ≡ some form_
    → (query : Text) × (canonicalize_query_string req b ≡ some query)
      × (form_ ≡ canonicalize_method req ++ (b'&' ∷ (canonicalize_uri req ++ (b'&' ∷ query))))
unfolding create_canonical_request
form req b form_ e = elim (Option-cases (canonicalize_query_string req b)) [
  | inl none_ ↦ absurd (let e' = rw (none_, create_canonical_request) at e in cc)
  | inr (query, some_) ↦
      let e' = rw (some_, create_canonical_request) at e in
      (query, some_, sym (ap (λ o. get_or o form_) e'))
]

-- If two requests have the same canonical form, they have the same method, path and query, in
-- canonical form. The methods have no `&` in them.
pub create_canonical_request-injective :
    (q r : JwtRequest) (a b : Bool) (form_ : Text)
    → IsInner (canonicalize_method q)
    → IsInner (canonicalize_method r)
    → create_canonical_request q a ≡ some form_
    → create_canonical_request r b ≡ some form_
    → (canonicalize_method q ≡ canonicalize_method r)
      × (canonicalize_uri q ≡ canonicalize_uri r)
      × (canonicalize_query_string q a ≡ canonicalize_query_string r b)
create_canonical_request-injective q r a b form_ hq hr eq er =
    let (u, query_q, whole_q) = form q a form_ eq in
    let (v, query_r, whole_r) = form r b form_ er in
    let (methods, rest) =
      first_part (canonicalize_method q) (canonicalize_method r) _ _ hq hr
        (sym whole_q ∙ whole_r) in
    let (uris, queries) =
      first_part (canonicalize_uri q) (canonicalize_uri r) u v (canonicalize_uri-IsInner q)
        (canonicalize_uri-IsInner r) rest in
    (methods, uris, query_q ∙ ap some queries ∙ sym query_r)

-- ===== src/Jira/Jwt/Canonical.antt =====
-- The canonical form of a request, src/jira/util/jwt.ts: what the claim qsh of a token is the hash
-- of. Texts are code points; they are sorted by their UTF-16 units, as JavaScript does. Lone surrogates,
-- which encodeURIComponent refuses, are no code points.
pub mod Parts
use github_for_jira.Base.{
  ℕ, ◌+◌, ◌-◌, ◌*◌, ◌/◌, ◌%◌, Bool, true, false, ◌||◌, ◌&&◌, not, List, [], ◌∷◌, ◌++◌, map, Option,
  none, some, ltb, leb, ◌==◌, if◌then◌else◌, map_option, filter, any, is_empty, Text, codes,
  text_eq, utf8, utf16, is_digit,
}

-- The query as url.parse reads it, with all values of a name. The body is a list of entries, or a
-- value that is no iterable of entries, such as a plain object.
pub data Body : Type 0 where
  entries : List (Text × List Text) → Body
  not_iterable : Body

pub record JwtRequest : Type 0 where
  pub method : Text
  pub pathname : Option Text
  pub query : List (Text × List Text)
  pub body : Body

-- `toUpperCase` on a method, which is in ASCII
abbrev pub upper : Text → Text
upper s = map (λ c. if leb b'a' c && leb c b'z' then c - 32 else c) s

unfoldable pub canonicalize_method : JwtRequest → Text
canonicalize_method req = upper req.method

-- The bytes as `%` and two digits.
abbrev pub hex_digit : ℕ → ℕ
hex_digit d = if ltb d 10 then b'0' + d else b'A' + (d - 10)

abbrev pub percent : List ℕ → Text
percent [] = []
percent (b ∷ bs) = b'%' ∷ hex_digit (b / 16) ∷ hex_digit (b % 16) ∷ percent bs

abbrev pub is_ascii_alnum : ℕ → Bool
is_ascii_alnum c = (leb b'A' c && leb c b'Z') || ((leb b'a' c && leb c b'z') || is_digit c)

-- `-`, `_`, `.` and `~`
abbrev pub is_mark : ℕ → Bool
is_mark c = (c == b'-') || ((c == b'_') || ((c == b'.') || (c == b'~')))

-- `!`, `'`, `(`, `)` and `*`, which encodeURIComponent leaves alone, and encodeRfc3986 does not
abbrev pub is_extra : ℕ → Bool
is_extra c = (c == b'!') || ((c == 39) || ((c == b'(') || ((c == b')') || (c == b'*'))))

-- `encodeURIComponent`: the bytes of UTF-8, but for the unreserved characters
unfoldable pub encode_uri_component : Text → Text
encode_uri_component [] = []
encode_uri_component (c ∷ s) =
    (if is_ascii_alnum c || (is_mark c || is_extra c) then c ∷ [] else percent (utf8 c))
    ++ encode_uri_component s

-- `.replace(/[!'()]/g, escape).replace(/\*/g, "%2A")`
unfoldable pub escape_extra : Text → Text
escape_extra [] = []
escape_extra (c ∷ s) = (if is_extra c then percent (c ∷ []) else c ∷ []) ++ escape_extra s

unfoldable pub encode_rfc3986 : Text → Text
unfolding encode_uri_component escape_extra
encode_rfc3986 s = escape_extra (encode_uri_component s)

-- `path.replace(/&/g, encodeRfc3986("&"))`
unfoldable pub replace_separator : Text → Text
replace_separator [] = []
replace_separator (c ∷ s) = (if c == b'&' then codes "%26" else c ∷ []) ++ replace_separator s

abbrev pub with_slash : Text → Text
with_slash [] = b'/' ∷ []
with_slash (c ∷ s) = if c == b'/' then c ∷ s else b'/' ∷ c ∷ s

-- The text without a `/` at its end.
abbrev pub without_last_slash : Text → Text
without_last_slash [] = []
without_last_slash (c ∷ []) = if c == b'/' then [] else c ∷ []
without_last_slash (c ∷ d ∷ s) = c ∷ without_last_slash (d ∷ s)

-- `path.length > 1` spares the path `/`.
abbrev pub without_slash : Text → Text
without_slash [] = []
without_slash (c ∷ []) = c ∷ []
without_slash (c ∷ d ∷ s) = c ∷ without_last_slash (d ∷ s)

unfoldable pub canonicalize_path : Text → Text
unfolding replace_separator
canonicalize_path [] = b'/' ∷ []
canonicalize_path (c ∷ s) = without_slash (with_slash (replace_separator (c ∷ s)))

unfoldable pub canonicalize_uri : JwtRequest → Text
unfolding canonicalize_path
canonicalize_uri req = elim req.pathname [ none ↦ b'/' ∷ [] | some path ↦ canonicalize_path path ]

-- not after, in the order of the units
abbrev pub units_leb : List ℕ → List ℕ → Bool
units_leb [] t = true
units_leb (a ∷ s) [] = false
units_leb (a ∷ s) (b ∷ t) = ltb a b || ((a == b) && units_leb s t)

-- Array.sort, on entries by their names or on values
module _ {A : Type 0} (name_of : A → Text) where
  abbrev pub insert : A → List A → List A
  insert a [] = a ∷ []
  insert a (b ∷ l) =
      let rest = insert a l in
      if units_leb (utf16 (name_of a)) (utf16 (name_of b)) then a ∷ b ∷ l else b ∷ rest

  abbrev pub sort : List A → List A
  sort [] = []
  sort (a ∷ l) = insert a (sort l)

abbrev pub join : Text → List Text → Text
join separator [] = []
join separator (s ∷ []) = s
join separator (s ∷ t ∷ l) = s ++ (separator ++ join separator (t ∷ l))

abbrev pub text_of : Text → Text
text_of s = s

unfoldable pub canonicalize_entry : Text × List Text → Text
unfolding encode_rfc3986
canonicalize_entry (key, values) =
    encode_rfc3986 key ++ (b'=' ∷ join (codes ",") (map encode_rfc3986 (sort text_of values)))

unfoldable pub canonicalize_entries : List (Text × List Text) → Text
unfolding canonicalize_entry
canonicalize_entries query =
    if is_empty query
    then []
    else join (codes "&") (
        map canonicalize_entry
          (sort (λ e. e.0) (filter (λ e. not (text_eq e.0 (codes "jwt"))) query)))

-- `Object.fromEntries`: the last entry of a name stands.
abbrev pub from_entries : List (Text × List Text) → List (Text × List Text)
from_entries [] = []
from_entries (e ∷ es) =
    let rest = from_entries es in if any (λ f. text_eq f.0 e.0) es then rest else e ∷ rest

-- `none` stands for the error of `Object.fromEntries` on a body that is no iterable.
unfoldable pub canonicalize_query_string : JwtRequest → Bool → Option Text
unfolding canonicalize_entries
canonicalize_query_string req check_body_for_params =
    let method = upper req.method in
    if check_body_for_params
      && (is_empty req.query && (text_eq method (codes "POST") || text_eq method (codes "PUT")))
    then elim req.body [
      | entries es ↦ some (canonicalize_entries (from_entries es))
      | not_iterable ↦ none
    ]
    else some (canonicalize_entries req.query)

unfoldable pub create_canonical_request : JwtRequest → Bool → Option Text
unfolding canonicalize_method canonicalize_uri canonicalize_query_string
create_canonical_request req check_body_for_params =
    map_option
      (λ query. canonicalize_method req ++ (b'&' ∷ (canonicalize_uri req ++ (b'&' ∷ query))))
      (canonicalize_query_string req check_body_for_params)

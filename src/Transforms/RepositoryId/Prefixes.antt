-- ===== src/Transforms/RepositoryId/Prefixes.antt =====
-- The prefixes of servers in src/transforms/transform-repository-id.ts are hexadecimal and are read back.
use github_for_jira.Base.{
  ℕ, zero, suc, ◌+◌, ◌/◌, ◌%◌, ◌<◌, ◌≡◌, refl, sym, ap, ◌∙◌, inl, inr, Bool, true, List, [], ◌∷◌,
  Option, some, arith, Bool-cases, Option-cases, filter, take, get_or, All, All-take, subst, Text,
  utf8_text, to_hex, from_hex, is_hex, hex_char, IsBytes, IsCodePoints, to_hex-All, from_hex-to_hex,
  All-map,
}
use github_for_jira.Transforms.RepositoryId.{
  server_name, is_letter_or_digit, lower, calculate_prefix, reverse_calculate_prefix,
}

ascii_text : (s : Text) → All (λ c. is_letter_or_digit c ≡ true) s → utf8_text s ≡ s
unfolding utf8_text
ascii_text [] h = refl
ascii_text (c ∷ s) (h, hs) = let ih = ascii_text s hs in ground arith

ascii-IsCodePoints : (s : Text) → All (λ c. is_letter_or_digit c ≡ true) s → IsCodePoints s
ascii-IsCodePoints s h = All-map (λ c k. ground arith) s h

take-to_hex : (k : ℕ) (bs : List ℕ) → take (k + k) (to_hex bs) ≡ to_hex (take k bs)
unfolding to_hex
take-to_hex zero bs = refl
take-to_hex (suc k) [] = let e : suc k + suc k ≡ suc (suc (k + k)) = omega arith in rw e refl
take-to_hex (suc k) (b ∷ bs) =
    let e : suc k + suc k ≡ suc (suc (k + k)) = omega arith in
    rw e (ap (λ s. hex_char (b / 16) ∷ hex_char (b % 16) ∷ s) (take-to_hex k bs))

filter-All : (p : ℕ → Bool) (s : Text) → All (λ c. p c ≡ true) (filter p s)
filter-All p [] = tt
filter-All p (c ∷ s) = elim (Bool-cases (p c)) [
  | inl kept ↦ rw kept (kept, filter-All p s)
  | inr dropped ↦ rw dropped (filter-All p s)
]

server_name-All :
    (host_and_path : Text → Option Text) (url name : Text)
    → server_name host_and_path url ≡ some name
    → All (λ c. is_letter_or_digit c ≡ true) name
unfolding server_name
server_name-All host_and_path url name named = elim (Option-cases (host_and_path url)) [
  | inl none_ ↦ absurd (let e = rw (none_, server_name) at named in cc)
  | inr (s, some_) ↦
      let e = rw (some_, server_name) at named in
      subst (All (λ c. is_letter_or_digit c ≡ true)) (ap (λ o. get_or o name) e)
        (filter-All is_letter_or_digit (lower s))
]

prefix_of : Text → Text
prefix_of name = take 512 (to_hex (utf8_text name))

calculate_prefix-server_name :
    (host_and_path : Text → Option Text) (url prefix : Text)
    → calculate_prefix host_and_path url ≡ some prefix
    → (name : Text) × (server_name host_and_path url ≡ some name) × (prefix ≡ prefix_of name)
unfolding calculate_prefix server_name prefix_of
calculate_prefix-server_name host_and_path url prefix e = elim (Option-cases (host_and_path url)) [
  | inl none_ ↦ absurd (let e' = rw (none_, calculate_prefix) at e in cc)
  | inr (s, some_) ↦
      let e' = rw (some_, calculate_prefix) at e in
      (
        filter is_letter_or_digit (lower s),
        rw (some_, server_name) refl,
        sym (ap (λ o. get_or o prefix) e'),
      )
]

prefix_of-to_hex :
    (name : Text)
    → All (λ c. is_letter_or_digit c ≡ true) name
    → prefix_of name ≡ to_hex (take 256 name)
unfolding prefix_of
prefix_of-to_hex name h = rw (ascii_text name h) (take-to_hex 256 name)

take-IsBytes : (name : Text) → All (λ c. is_letter_or_digit c ≡ true) name → IsBytes (take 256 name)
take-IsBytes name h = All-take (λ b. b < 256) 256 name (All-map (λ c k. ground arith) name h)

-- The prefix of a server is read back as the first 256 letters and digits of its host and path, in
-- lower case.
pub reverse_calculate_prefix-calculate_prefix :
    (host_and_path : Text → Option Text) (url prefix : Text)
    → calculate_prefix host_and_path url ≡ some prefix
    → (name : Text) × (server_name host_and_path url ≡ some name)
      × (reverse_calculate_prefix prefix ≡ take 256 name)
unfolding reverse_calculate_prefix
reverse_calculate_prefix-calculate_prefix host_and_path url prefix e =
    let (name, named, whole) = calculate_prefix-server_name host_and_path url prefix e in
    let h = server_name-All host_and_path url name named in
    (
      name,
      named,
      ap from_hex (whole ∙ prefix_of-to_hex name h)
          ∙ from_hex-to_hex (take 256 name) (take-IsBytes name h),
    )

pub prefix-All :
    (host_and_path : Text → Option Text) (url prefix : Text)
    → calculate_prefix host_and_path url ≡ some prefix
    → All (λ c. is_hex c ≡ true) prefix
prefix-All host_and_path url prefix e =
    let (name, named, whole) = calculate_prefix-server_name host_and_path url prefix e in
    let h = server_name-All host_and_path url name named in
    subst (All (λ c. is_hex c ≡ true)) (sym (whole ∙ prefix_of-to_hex name h))
      (to_hex-All (take 256 name) (take-IsBytes name h))

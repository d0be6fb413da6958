-- ===== src/Github/InstallationId/RoundTrip.antt =====
-- `fromString` reads what `toString` writes (src/github/client/installation-id.ts).
use mathlib.Core.List.{reverse, reverse-append, reverse-reverse, append_assoc}
use github_for_jira.Base.{
  ℕ, ◌≡◌, ◌≢◌, refl, sym, ap, ◌∙◌, ◌⊎◌, inl, inr, true, false, [], ◌∷◌, ◌++◌, some, any, is_empty,
  All, All-append, subst, Text, is_digit, span-append, number_text, number_text-All,
  number_text-ne_nil, value-number_text,
}
use github_for_jira.Github.InstallationId.{
  InstallationId, separator, to_string, strip_separator, number_at_end, is_line_terminator,
  base_url, from_string,
}

reverse-All : (P : ℕ → Type 0) (s : Text) → All P s → All P (reverse s)
reverse-All P [] h = tt
reverse-All P (c ∷ s) (p, h) =
    subst (All P) (sym (reverse-append (c ∷ []) s))
      (All-append P (reverse s) (c ∷ []) (reverse-All P s h) (p, tt))

is_empty-reverse : (s : Text) → s ≢ [] → is_empty (reverse s) ≡ false
is_empty-reverse s h = elim (cases (reverse s)) [
  | inl e ↦ absurd (h (sym (reverse-reverse s) ∙ ap reverse e))
  | inr e ↦ e
]
  where
    cases : (t : Text) → (t ≡ []) ⊎ (is_empty t ≡ false)
    cases [] = inl refl
    cases (c ∷ t) = inr refl

-- A number behind `###` is read from the end.
number_at_end-number :
    (n : ℕ) (s : Text) → number_at_end (reverse (number_text n) ++ (separator ++ s)) ≡ some (n, s)
unfolding number_at_end strip_separator
number_at_end-number n s =
    rw
      (
        span-append is_digit (reverse (number_text n)) (b'#' ∷ b'#' ∷ b'#' ∷ s)
            (reverse-All (λ d. is_digit d ≡ true) (number_text n) (number_text-All n)) refl,
        is_empty-reverse (number_text n) (number_text-ne_nil n),
        reverse-reverse (number_text n),
        value-number_text n,
      )
      refl

reverse-number :
    (s : Text) (n : ℕ)
    → reverse (s ++ (separator ++ number_text n))
      ≡ reverse (number_text n) ++ (separator ++ reverse s)
reverse-number s n =
    reverse-append s (separator ++ number_text n)
    ∙ ap (λ t. t ++ reverse s) (reverse-append separator (number_text n))
    ∙ append_assoc (reverse (number_text n)) separator (reverse s)

-- The text of an installation's id is read back as that id, if the base URL is not empty and on one line.
pub from_string-to_string :
    (i : InstallationId)
    → is_empty i.github_base_url ≡ false
    → any is_line_terminator i.github_base_url ≡ false
    → from_string (to_string i) ≡ some i
unfolding from_string to_string base_url
from_string-to_string i h k =
    let first =
      number_at_end-number i.installation_id
        (reverse (i.github_base_url ++ (separator ++ number_text i.app_id))) in
    let second = number_at_end-number i.app_id (reverse i.github_base_url) in
    let whole : reverse (to_string i)
        ≡ reverse (number_text i.installation_id)
          ++ (separator ++ reverse (i.github_base_url ++ (separator ++ number_text i.app_id))) =
      ap reverse (
        sym (
          append_assoc i.github_base_url (separator ++ number_text i.app_id)
            (separator ++ number_text i.installation_id)))
      ∙ reverse-number (i.github_base_url ++ (separator ++ number_text i.app_id))
          i.installation_id in
    rw
      (
        whole,
        first,
        reverse-number i.github_base_url i.app_id,
        second,
        reverse-reverse i.github_base_url,
        h,
        k,
      )
      refl

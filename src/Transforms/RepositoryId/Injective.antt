-- ===== src/Transforms/RepositoryId/Injective.antt =====
-- Repositories with the same id in Jira (src/transforms/transform-repository-id.ts) are the same.
use github_for_jira.Base.{
  ℕ, ◌≡◌, refl, sym, ap, ◌∙◌, inl, inr, true, false, [], ◌∷◌, ◌++◌, Option, none, some,
  if◌then◌else◌, Bool-cases, Option-cases, is_empty, get_or, All, All-append_right, subst, Text,
  text_eq, text_eq-eq, is_digit, span, span-append, number_text, number_text-All,
  number_text-injective, is_hex,
}
use github_for_jira.Transforms.RepositoryId.{
  calculate_prefix, github_cloud_baseurl, transform_repository_id,
}
use github_for_jira.Transforms.RepositoryId.Prefixes.{prefix-All}

-- Which server a repository is on: that of the URL, or GitHub's cloud without one.
abbrev pub server_prefix : (Text → Option Text) → Option Text → Option Text
server_prefix host_and_path none = calculate_prefix host_and_path github_cloud_baseurl
server_prefix host_and_path (some url) =
    if is_empty url
    then calculate_prefix host_and_path github_cloud_baseurl
    else calculate_prefix host_and_path url

-- The two forms of an id.
data IsIdOf (host_and_path : Text → Option Text) (n : ℕ) (base : Option Text) (id : Text)
    : Type 0 where
  on_cloud :
      id ≡ number_text n
      → server_prefix host_and_path base ≡ calculate_prefix host_and_path github_cloud_baseurl
      → IsIdOf host_and_path n base id
  on_server :
      (prefix : Text)
      → id ≡ prefix ++ (b'-' ∷ number_text n)
      → server_prefix host_and_path base ≡ some prefix
      → All (λ c. is_hex c ≡ true) prefix
      → IsIdOf host_and_path n base id

transform_repository_id-IsIdOf :
    (host_and_path : Text → Option Text) (n : ℕ) (base : Option Text) (id : Text)
    → transform_repository_id host_and_path (some n) base ≡ some id
    → IsIdOf host_and_path n base id
unfolding transform_repository_id
transform_repository_id-IsIdOf host_and_path n none id e =
    on_cloud (sym (ap (λ o. get_or o id) e)) refl
transform_repository_id-IsIdOf host_and_path n (some url) id e = elim (Bool-cases (is_empty url)) [
  | inl empty ↦
      let e' = rw (empty, transform_repository_id) at e in
      on_cloud (sym (ap (λ o. get_or o id) e')) (rw empty refl)
  | inr given ↦
      let e1 = rw (given, transform_repository_id) at e in
      elim (Option-cases (calculate_prefix host_and_path url)) [
        | inl none_ ↦ absurd (let e2 = rw none_ at e1 in cc)
        | inr (prefix, some_) ↦
            let e2 = rw some_ at e1 in
            elim (Option-cases (calculate_prefix host_and_path github_cloud_baseurl)) [
              | inl none_ ↦ absurd (let e3 = rw none_ at e2 in cc)
              | inr (cloud, is_cloud) ↦
                  let e3 = rw is_cloud at e2 in
                  elim (Bool-cases (text_eq prefix cloud)) [
                    | inl same ↦
                        let e4 = rw same at e3 in
                        on_cloud (sym (ap (λ o. get_or o id) e4))
                          (rw given (some_ ∙ ap some (text_eq-eq prefix cloud same) ∙ sym is_cloud))
                    | inr other ↦
                        let e4 = rw other at e3 in
                        on_server prefix (sym (ap (λ o. get_or o id) e4)) (rw given some_)
                          (prefix-All host_and_path url prefix some_)
                  ]
            ]
      ]
]

tail : Text → Text
tail [] = []
tail (c ∷ s) = s

not_digits : (s t : Text) → All (λ c. is_digit c ≡ true) (s ++ (b'-' ∷ t)) → ⊥
not_digits s t h =
    let (hyphen, rest) = All-append_right (λ c. is_digit c ≡ true) s (b'-' ∷ t) h in
    let e : false ≡ true = hyphen in cc

split_id :
    (p q s t : Text)
    → All (λ c. is_hex c ≡ true) p
    → All (λ c. is_hex c ≡ true) q
    → p ++ (b'-' ∷ s) ≡ q ++ (b'-' ∷ t)
    → (p ≡ q) × (s ≡ t)
unfolding tail
split_id p q s t hp hq e =
    let parts : (p, b'-' ∷ s) ≡ (q, b'-' ∷ t) =
      sym (span-append is_hex p (b'-' ∷ s) hp refl)
      ∙ ap (span is_hex) e
      ∙ span-append is_hex q (b'-' ∷ t) hq refl in
    (ap (λ r. r.0) parts, ap (λ r. tail r.1) parts)

same_of :
    {host_and_path : Text → Option Text} {m n : ℕ} {a b : Option Text} {id : Text}
    → IsIdOf host_and_path m a id
    → IsIdOf host_and_path n b id
    → (m ≡ n) × (server_prefix host_and_path a ≡ server_prefix host_and_path b)
same_of {m = m} {n = n} (on_cloud e p) (on_cloud f q) =
    (number_text-injective m n (sym e ∙ f), p ∙ sym q)
same_of {m = m} {n = n} (on_cloud e p) (on_server prefix f q h) = absurd (
    not_digits prefix (number_text n)
      (subst (All (λ c. is_digit c ≡ true)) (sym e ∙ f) (number_text-All m)))
same_of {m = m} {n = n} (on_server prefix e p h) (on_cloud f q) = absurd (
    not_digits prefix (number_text m)
      (subst (All (λ c. is_digit c ≡ true)) (sym f ∙ e) (number_text-All n)))
same_of {m = m} {n = n} (on_server prefix e p h) (on_server prefix' f q h') =
    let (prefixes, numbers) =
      split_id prefix prefix' (number_text m) (number_text n) h h' (sym e ∙ f) in
    (number_text-injective m n numbers, p ∙ ap some prefixes ∙ sym q)

-- Two repositories with the same id in Jira have the same number, and their servers the same prefix: GitHub's
-- cloud, or the first 256 letters and digits of host and path.
pub transform_repository_id-injective :
    (host_and_path : Text → Option Text) (m n : ℕ) (a b : Option Text) (id : Text)
    → transform_repository_id host_and_path (some m) a ≡ some id
    → transform_repository_id host_and_path (some n) b ≡ some id
    → (m ≡ n) × (server_prefix host_and_path a ≡ server_prefix host_and_path b)
transform_repository_id-injective host_and_path m n a b id em en =
    same_of (transform_repository_id-IsIdOf host_and_path m a id em)
      (transform_repository_id-IsIdOf host_and_path n b id en)

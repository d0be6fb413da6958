-- ===== src/Transforms/Alerts/Ids.antt =====
-- The ids of the vulnerabilities that Jira gets, and the agreement of the webhook's transform with the
-- backfill's (src/transforms/transform-code-scanning-alert.ts, transform-dependabot-alert.ts,
-- transform-secret-scanning-alert.ts and src/sync).
use github_for_jira.Base.{
  ℕ, ◌≡◌, refl, sym, ap, ◌∙◌, inl, inr, true, false, [], ◌∷◌, ◌++◌, Option, some, Option-cases,
  map_option, head?, get_or, All, All-append_right, subst, Text, codes, is_digit, number_text,
  number_text-All, number_text-injective,
}
use github_for_jira.Transforms.RepositoryId.{transform_repository_id}
use github_for_jira.Transforms.RepositoryId.Injective.{
  server_prefix, transform_repository_id-injective,
}
use github_for_jira.Transforms.Alerts.{starts_with, Vulnerability, vulnerability_id, Lodash}
use github_for_jira.Transforms.Alerts.CodeScanning.{
  CodeScanningAlert, code_scanning_vulnerability, transform_code_scanning_alert_to_jira_security,
  transform_code_scanning_alerts,
}
use github_for_jira.Transforms.Alerts.Dependabot.{DependabotAlert, dependabot_vulnerability}
use github_for_jira.Transforms.Alerts.SecretScanning.{
  SecretScanningAlert, secret_scanning_vulnerability,
}

tail : Text → Text
tail [] = []
tail (c ∷ s) = s

first : Text → ℕ
first s = get_or (head? s) 0

no_hyphen : (s t : Text) → All (λ c. is_digit c ≡ true) (s ++ (b'-' ∷ t)) → ⊥
no_hyphen s t h =
    let (hyphen, rest) = All-append_right (λ c. is_digit c ≡ true) s (b'-' ∷ t) h in
    let e : false ≡ true = hyphen in cc

-- A text is split at its last hyphen, which digits follow.
last_hyphen :
    (a b s t : Text)
    → All (λ c. is_digit c ≡ true) s
    → All (λ c. is_digit c ≡ true) t
    → a ++ (b'-' ∷ s) ≡ b ++ (b'-' ∷ t)
    → (a ≡ b) × (s ≡ t)
unfolding tail first
last_hyphen [] [] s t hs ht e = (refl, ap tail e)
last_hyphen [] (y ∷ b) s t hs ht e =
    absurd (no_hyphen b t (subst (All (λ c. is_digit c ≡ true)) (ap tail e) hs))
last_hyphen (x ∷ a) [] s t hs ht e =
    absurd (no_hyphen a s (subst (All (λ c. is_digit c ≡ true)) (sym (ap tail e)) ht))
last_hyphen (x ∷ a) (y ∷ b) s t hs ht e =
    let (same, rest) = last_hyphen a b s t hs ht (ap tail e) in
    let heads : x ≡ y = ap first e in (rw heads (ap (λ r. y ∷ r) same), rest)

pub vulnerability_id-injective :
    (k l : ℕ) (c d : Text) (m n : ℕ)
    → vulnerability_id k c m ≡ vulnerability_id l d n
    → (k ≡ l) × (c ≡ d) × (m ≡ n)
unfolding tail first
vulnerability_id-injective k l c d m n e =
    let (containers, numbers) =
      last_hyphen c d (number_text m) (number_text n) (number_text-All m) (number_text-All n)
        (ap (λ s. tail (tail s)) e) in
    (ap first e, containers, number_text-injective m n numbers)

pub data SecurityAlert : Type 0 where
  code_scanning : CodeScanningAlert → SecurityAlert
  dependabot : DependabotAlert → SecurityAlert
  secret_scanning : SecretScanningAlert → SecurityAlert

abbrev pub kind_of : SecurityAlert → ℕ
kind_of (code_scanning a) = b'c'
kind_of (dependabot a) = b'd'
kind_of (secret_scanning a) = b's'

abbrev pub number_of : SecurityAlert → ℕ
number_of (code_scanning a) = a.number
number_of (dependabot a) = a.number
number_of (secret_scanning a) = a.number

-- What the backfill makes of an alert in a container.
pub vulnerability_of : Lodash → (Text → Text) → Text → SecurityAlert → Vulnerability
vulnerability_of lodash lower_case container_id (code_scanning a) =
    code_scanning_vulnerability lodash container_id a
vulnerability_of lodash lower_case container_id (dependabot a) =
    dependabot_vulnerability lodash container_id a a.updated_at
      (map_option lower_case a.vulnerability_severity) (lower_case a.state)
vulnerability_of lodash lower_case container_id (secret_scanning a) =
    secret_scanning_vulnerability lodash container_id a a.resolved_at

vulnerability_of-id :
    (lodash : Lodash) (lower_case : Text → Text) (container_id : Text) (a : SecurityAlert)
    → (vulnerability_of lodash lower_case container_id a).id
      ≡ vulnerability_id (kind_of a) container_id (number_of a)
unfolding vulnerability_of code_scanning_vulnerability dependabot_vulnerability
    secret_scanning_vulnerability
vulnerability_of-id lodash lower_case container_id (code_scanning a) = refl
vulnerability_of-id lodash lower_case container_id (dependabot a) = refl
vulnerability_of-id lodash lower_case container_id (secret_scanning a) = refl

-- Two alerts whose vulnerabilities have the same id in Jira are of the same kind and have the same number, in
-- repositories with the same number on servers of the same prefix.
pub vulnerability_of-injective :
    (lodash : Lodash) (lower_case : Text → Text) (host_and_path : Text → Option Text) (m n : ℕ)
    (a b : Option Text) (c d : Text) (x y : SecurityAlert)
    → transform_repository_id host_and_path (some m) a ≡ some c
    → transform_repository_id host_and_path (some n) b ≡ some d
    → (vulnerability_of lodash lower_case c x).id ≡ (vulnerability_of lodash lower_case d y).id
    → (kind_of x ≡ kind_of y)
      × (number_of x ≡ number_of y)
      × (m ≡ n)
      × (server_prefix host_and_path a ≡ server_prefix host_and_path b)
vulnerability_of-injective lodash lower_case host_and_path m n a b c d x y hc hd e =
    let (kinds, containers, numbers) =
      vulnerability_id-injective (kind_of x) (kind_of y) c d (number_of x) (number_of y) (
        sym (vulnerability_of-id lodash lower_case c x)
        ∙ e
        ∙ vulnerability_of-id lodash lower_case d y) in
    let (repositories, servers) =
      transform_repository_id-injective host_and_path m n a b d (hc ∙ ap some containers) hd in
    (kinds, numbers, repositories, servers)

-- For a code scanning alert on a branch, the webhook sends what the backfill sends for it.
pub transform_code_scanning_alerts-same :
    (lodash : Lodash) (host_and_path : Text → Option Text) (base_url : Option Text)
    (repository_id : ℕ) (alert : CodeScanningAlert)
    → starts_with (codes "refs/heads") (get_or alert.most_recent_ref []) ≡ true
    → transform_code_scanning_alert_to_jira_security lodash host_and_path base_url repository_id
        alert
      ≡ map_option some
          (transform_code_scanning_alerts lodash host_and_path base_url repository_id (alert ∷ []))
unfolding transform_code_scanning_alert_to_jira_security transform_code_scanning_alerts
transform_code_scanning_alerts-same lodash host_and_path base_url repository_id alert branch =
    elim (Option-cases (transform_repository_id host_and_path (some repository_id) base_url)) [
      | inl refused ↦ rw (branch, refused) refl
      | inr (container_id, made) ↦ rw (branch, made) refl
    ]

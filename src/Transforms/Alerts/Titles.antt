-- ===== src/Transforms/Alerts/Titles.antt =====
-- The names of branches in the refs of alerts (src/transforms/transform-code-scanning-alert.ts).
use github_for_jira.Base.{
  ℕ, ◌≡◌, refl, sym, ap, ◌∙◌, inl, inr, List, [], ◌∷◌, ◌++◌, ◌==◌, ==_iff, Bool-cases, Text, codes,
}
use github_for_jira.Jira.Jwt.Canonical.{join}
use github_for_jira.Transforms.Alerts.RemoteLinks.{LinkServices, split_slash, get_entity_title}

parts : (s : Text) → (p : Text) × (ps : List Text) × (split_slash s ≡ p ∷ ps)
parts [] = ([], [], refl)
parts (c ∷ s) =
    let (p, ps, e) = parts s in
    elim (Bool-cases (c == b'/')) [
      | inl slash ↦ ([], split_slash s, rw slash refl)
      | inr other ↦ (c ∷ p, ps, rw (other, e) refl)
    ]

join-cons :
    (c : ℕ) (p : Text) (ps : List Text)
    → join (b'/' ∷ []) ((c ∷ p) ∷ ps) ≡ c ∷ join (b'/' ∷ []) (p ∷ ps)
join-cons c p [] = refl
join-cons c p (q ∷ ps) = refl

join-split_slash : (s : Text) → join (b'/' ∷ []) (split_slash s) ≡ s
join-split_slash [] = refl
join-split_slash (c ∷ s) =
    let ih = join-split_slash s in
    let (p, ps, e) = parts s in
    elim (Bool-cases (c == b'/')) [
      | inl slash ↦
          let at_c : c ≡ b'/' = (==_iff c b'/').0 slash in
          rw (slash, e) (ap (λ t. b'/' ∷ t) (rw e at ih) ∙ ap (λ x. x ∷ s) (sym at_c))
      | inr other ↦ rw (other, e) (join-cons c p ps ∙ ap (λ t. c ∷ t) (rw e at ih))
    ]

-- The title of a ref `refs/heads/…` is the whole name of the branch, with the slashes in it.
pub get_entity_title-branch :
    (sv : LinkServices) (branch : Text)
    → get_entity_title sv (codes "refs/heads/" ++ branch) ≡ inr branch
unfolding get_entity_title
get_entity_title-branch sv branch = ap inr (join-split_slash branch)
